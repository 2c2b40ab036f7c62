-- ===== src/Utils/PriorityList/Insert.antt =====
-- `insert` of kernel/utils/priority_list.h.
use reaveros_iteration.Common.{
  ℕ, suc, ◌+◌, ◌≡◌, ◌≢◌, ◌<◌, ◌^◌, refl, sym, subst, Bool, true, false, not, ◌||◌, inl, inr, [],
  ◌∷◌, ◌++◌, arith, ok, if◌then◌else◌, Bool-cases, length, length-append, add64,
}
use reaveros_iteration.Utils.Nodes.{write, fresh_node}
use reaveros_iteration.Utils.Nodes.Linked.{
  Cells, IsAway, Linked, Linked-frame, Linked-write, Linked-prev, Linked-snoc, last_address,
  last_value, last_address-append, last_address-not-zero, last_value-Linked, ne_of_near,
  ne-last_address, IsAway-prefix, IsAway-append,
}
use reaveros_iteration.Utils.Allocator.{Layout, new_node, allocate, refill}
use reaveros_iteration.Utils.PriorityList.{PriorityList, link, insert}
use reaveros_iteration.Utils.PriorityList.State.{Apart, Apart-IsAway, Apart-uncons, IsList}

module _ {V : Type 0} (less : V → V → Bool) where
  -- where `insert` puts a payload: before the first node, behind the last one, or second
  unfoldable pub place : ℕ → V → Cells V → Cells V
  place n v [] = (n, v) ∷ []
  place n v ((a, w) ∷ xs) =
      if less v w
      then (n, v) ∷ (a, w) ∷ xs
      else if less (last_value w xs) v || not (less v (last_value w xs))
      then ((a, w) ∷ xs) ++ (n, v) ∷ []
      else (a, w) ∷ (n, v) ∷ xs

  -- what `link` needs of the node `n`: it stands in memory, outside the chain
  pub record Holds (l : PriorityList V) (n : ℕ) (v : V) (xs : Cells V) : Type 0 where
    pub chain : Linked l.memory l.first xs
    pub ends : l.last ≡ last_address l.last xs
    pub real : n ≢ 0
    pub away : IsAway n xs
    pub here : (l.memory n ≡ fresh_node v)

  -- what `link` leaves behind
  pub record Links (l : PriorityList V) (ys : Cells V) (r : PriorityList V) : Type 0 where
    pub chain : Linked r.memory r.first ys
    pub ends : r.last ≡ last_address r.last ys
    pub pool : r.pool ≡ l.pool
    pub size : r.size ≡ l.size
    pub same : (b : ℕ) → IsAway b ys → r.memory b ≡ l.memory b

  abbrev pub Linking : PriorityList V → ℕ → V → Cells V → Type 0
  Linking l n v ys = (r : PriorityList V) × (link less l n v ≡ ok r) × Links l ys r

  link_first : (l : PriorityList V) (n : ℕ) (v : V) → Holds l n v [] → Linking l n v ((n, v) ∷ [])
  unfolding link
  link_first l n v h = (
    record l { first = n; last = n },
    rw h.chain,
    record {
      chain = (refl, h.real, rw h.here refl, tt, rw h.here refl);
      ends = refl;
      pool = refl;
      size = refl;
      same = λ b out. refl;
    },
  )

  module _ (l : PriorityList V) (n : ℕ) (v : V) (a : ℕ) (w : V) (xs : Cells V)
      (h : Holds l n v ((a, w) ∷ xs)) where
    link_front : less v w ≡ true → Linking l n v ((n, v) ∷ (a, w) ∷ xs)
    unfolding link
    link_front smaller =
        let m = write l.memory n (record (l.memory n) { next = l.first }) in
        (
          record l { memory = m; first = n },
          ground (arith, h.chain.0, h.chain.1, h.chain.2, h.real),
          record {
            chain = (
              refl,
              h.real,
              ground (arith, h.here),
              h.away,
              subst (λ q. Linked m q ((a, w) ∷ xs)) (ground arith)
                  (Linked-write l.memory n _ l.first ((a, w) ∷ xs) h.away h.chain),
            );
            ends = h.ends;
            pool = refl;
            size = refl;
            same = λ b out. ground arith;
          },
        )

    link_back :
        less v w ≡ false
        → (less (last_value w xs) v || not (less v (last_value w xs))) ≡ true
        → Linking l n v (((a, w) ∷ xs) ++ (n, v) ∷ [])
    unfolding link
    link_back larger behind =
        let last = last_address a xs in
        let m = write l.memory last (record (l.memory last) { next = n }) in
        let holds = last_value-Linked l.memory l.first a w xs h.chain in
        (
          record l { memory = write m n (record (m n) { prev = last }); last = n },
          ground (
            arith,
            h.chain.0,
            h.chain.1,
            h.chain.2,
            h.real,
            h.ends,
            holds,
            last_address-not-zero l.memory (l.memory a).next a xs h.chain.1 h.chain.4,
          ),
          record {
            chain = Linked-prev m n last l.first (((a, w) ∷ xs) ++ (n, v) ∷ []) (
                Linked-snoc l.memory l.first a w xs n v h.chain h.real h.away
                  (rw h.here refl, rw h.here refl));
            ends = sym (last_address-append n n v ((a, w) ∷ xs));
            pool = refl;
            size = refl;
            same = λ b out.
                let out' = IsAway-prefix b ((a, w) ∷ xs) ((n, v) ∷ []) out in
                let b≢last = ne-last_address b a xs out'.0.0 out'.0.1 in ground (arith, out'.1.0);
          },
        )

  link_second :
      (l : PriorityList V) (n : ℕ) (v : V) (a : ℕ) (w : V) (b : ℕ) (u : V) (ys : Cells V)
      → Holds l n v ((a, w) ∷ (b, u) ∷ ys)
      → less v w ≡ false
      → (less (last_value u ys) v || not (less v (last_value u ys))) ≡ false
      → Linking l n v ((a, w) ∷ (n, v) ∷ (b, u) ∷ ys)
  unfolding link
  link_second l n v a w b u ys h larger within =
      let m₁ = write l.memory n (record (l.memory n) { prev = a }) in
      let m₂ = write m₁ n (record (m₁ n) { next = b }) in
      let m₃ = write m₂ b (record (m₂ b) { prev = n }) in
      let m = write m₃ a (record (m₃ a) { next = n }) in
      let holds = last_value-Linked l.memory (l.memory a).next b u ys h.chain.4 in
      let b≢n : b ≢ n = λ e. h.away.1.0 (sym e) in
      let a≢n : a ≢ n = λ e. h.away.0 (sym e) in
      (
        record l { memory = m },
        ground (
          arith,
          h.chain,
          h.chain.4,
          h.real,
          h.ends,
          holds,
          last_address-not-zero l.memory (l.memory b).next b ys h.chain.4.1 h.chain.4.4,
        ),
        record {
          chain = (
            h.chain.0,
            h.chain.1,
            ground arith,
            (a≢n, h.chain.3),
            (
              ground arith,
              h.real,
              ground arith,
              h.away.1,
              (
                ground arith,
                h.chain.4.1,
                ground arith,
                h.chain.4.3,
                subst (λ q. Linked m q ys) (ground arith)
                    (Linked-frame l.memory m (l.memory b).next ys
                      (λ c near.
                        let c≢n = ne_of_near n c ys h.away.1.1 near in
                        let c≢a = ne_of_near a c ys h.chain.3.1 near in
                        let c≢b = ne_of_near b c ys h.chain.4.3 near in
                        (ground arith, ground arith))
                      h.chain.4.4),
              ),
            ),
          );
          ends = h.ends;
          pool = refl;
          size = refl;
          same = λ c out. ground (arith, out.0, out.1.0, out.1.1.0);
        },
      )

  link_lem :
      (l : PriorityList V) (n : ℕ) (v : V) (xs : Cells V)
      → Holds l n v xs
      → Linking l n v (place n v xs)
  unfolding place
  link_lem l n v [] h = link_first l n v h
  link_lem l n v ((a, w) ∷ []) h = elim (Bool-cases (less v w)) [
    | inl smaller ↦ rw smaller (link_front l n v a w [] h smaller)
    | inr larger ↦
        let behind : (less w v || not (less v w)) ≡ true = ground arith in
        let behind' : (less w v || true) ≡ true = ground arith in
        rw (larger, behind') (link_back l n v a w [] h larger behind)
  ]
  link_lem l n v ((a, w) ∷ (b, u) ∷ ys) h = elim (Bool-cases (less v w)) [
    | inl smaller ↦ rw smaller (link_front l n v a w ((b, u) ∷ ys) h smaller)
    | inr larger ↦ elim (Bool-cases (less (last_value u ys) v || not (less v (last_value u ys)))) [
      | inl behind ↦ rw (larger, behind) (link_back l n v a w ((b, u) ∷ ys) h larger behind)
      | inr within ↦ rw (larger, within) (link_second l n v a w b u ys h larger within)
    ]
  ]

module _ {V : Type 0} where
  Apart-snoc :
      (n : ℕ) (v : V) (ys fs : Cells V) → IsAway n fs → Apart ys fs → Apart (ys ++ (n, v) ∷ []) fs
  Apart-snoc n v [] fs out h = (out, tt)
  Apart-snoc n v (y ∷ ys) fs out h = (h.0, Apart-snoc n v ys fs out h.1)

Apart-place :
    {V : Type 0} (less : V → V → Bool) (n : ℕ) (v : V) (xs fs : Cells V)
    → IsAway n fs
    → Apart xs fs
    → Apart (place less n v xs) fs
unfolding place
Apart-place less n v [] fs out h = (out, tt)
Apart-place less n v ((a, w) ∷ xs) fs out h = ground (arith, Apart-snoc n v xs fs)

pub length-place :
    {V : Type 0} (less : V → V → Bool) (n : ℕ) (v : V) (xs : Cells V)
    → length (place less n v xs) ≡ suc (length xs)
unfolding place
length-place less n v [] = refl
length-place less n v ((a, w) ∷ xs) = ground (arith, length-append xs ((n, v) ∷ []))

IsAway-place :
    {V : Type 0} (less : V → V → Bool) (b n : ℕ) (v : V) (xs : Cells V)
    → b ≢ n
    → IsAway b xs
    → IsAway b (place less n v xs)
unfolding place
IsAway-place less b n v [] ne out = (ne, tt)
IsAway-place less b n v ((a, w) ∷ xs) ne out = ground (arith, IsAway-append b xs ((n, v) ∷ []))

-- While the allocator has a node to give, `insert` keeps the list well formed, takes that node,
-- and puts the payload where `place` says.
pub insert-IsList :
    {V : Type 0} (less : V → V → Bool) (layout : Layout V) (l : PriorityList V) (v : V) (n : ℕ)
    (u : V) (xs fs : Cells V)
    → IsList l xs ((n, u) ∷ fs)
    → length xs + 1 < 2 ^ 64
    → (r : PriorityList V) × (insert less layout l v ≡ ok r) × IsList r (place less n v xs) fs
unfolding insert new_node allocate refill
insert-IsList {V} less layout l v n u xs fs h room =
    let m = write l.memory n (fresh_node v) in
    let pool = record (l.pool) { free = (l.memory n).next } in
    let l' : PriorityList V = record l { memory = m; pool = pool; size = add64 l.size 1 } in
    let (out, apart) = Apart-uncons n u xs fs h.apart in
    let (r, run, w) = link_lem less l' n v xs (record {
      chain = Linked-write l.memory n (fresh_node v) l.first xs out h.chain;
      ends = h.ends;
      real = h.spare.1;
      away = out;
      here = ground arith;
    }) in
    (
      r,
      ground (arith, run),
      record {
        chain = w.chain;
        spare =
            subst (λ q. Linked r.memory q fs) (ground (arith, w.pool))
              (Linked-frame l.memory r.memory (l.memory n).next fs
                (λ b near.
                  let b≢n = ne_of_near n b fs h.spare.3 near in
                  let kept =
                    w.same b (IsAway-place less b n v xs b≢n (Apart-IsAway b xs fs apart near)) in
                  (ground (arith, kept), ground (arith, kept)))
                h.spare.4);
        apart = Apart-place less n v xs fs h.spare.3 apart;
        ends = w.ends;
        counted = omega (arith, w.size, h.counted, length-place less n v xs);
        filled = ground (arith, w.pool, h.filled);
      },
    )

-- The allocator does not count the node that it gives.
pub insert-free_count :
    {V : Type 0} (less : V → V → Bool) (layout : Layout V) (l r : PriorityList V) (v : V) (n : ℕ)
    (u : V) (xs fs : Cells V)
    → IsList l xs ((n, u) ∷ fs)
    → insert less layout l v ≡ ok r
    → r.pool.free_count ≡ l.pool.free_count
unfolding insert new_node allocate refill
insert-free_count {V} less layout l r v n u xs fs h returned =
    let m = write l.memory n (fresh_node v) in
    let pool = record (l.pool) { free = (l.memory n).next } in
    let l' : PriorityList V = record l { memory = m; pool = pool; size = add64 l.size 1 } in
    let (out, apart) = Apart-uncons n u xs fs h.apart in
    let (r', run, w) = link_lem less l' n v xs (record {
      chain = Linked-write l.memory n (fresh_node v) l.first xs out h.chain;
      ends = h.ends;
      real = h.spare.1;
      away = out;
      here = ground arith;
    }) in
    let ran : insert less layout l v ≡ ok r' = ground (arith, run, h.spare, h.filled) in
    let same : r' ≡ r = cc in
    subst (λ (x : PriorityList V). x.pool.free_count ≡ l.pool.free_count) same
      (ground (arith, w.pool))
