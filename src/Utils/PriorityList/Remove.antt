-- ===== src/Utils/PriorityList/Remove.antt =====
-- `remove` and `find` of kernel/utils/priority_list.h.
use reaveros_iteration.Common.{
  ℕ, zero, suc, ◌+◌, ◌≡◌, ◌≢◌, ◌↔◌, ◌<◌, ◌^◌, refl, sym, subst, Bool, true, false, inl, inr, none,
  some, [], ◌∷◌, arith, ok, if◌then◌else◌, Bool-cases, length, sub64,
}
use reaveros_iteration.Utils.Nodes.{Memory, write, fresh_node}
use reaveros_iteration.Utils.Nodes.Linked.{
  Cells, IsAway, Linked, Linked-frame, Linked-prev, last_address, last_value, last_value-Linked,
  last_address-not-zero, ne_of_near,
}
use reaveros_iteration.Utils.Allocator.Free.{free-Frees}
use reaveros_iteration.Utils.PriorityList.{
  PriorityList, seek, unlink, unlink_prev, unlink_next, release, remove, find,
}
use reaveros_iteration.Utils.PriorityList.State.{
  Apart, Apart-IsAway, Apart-near, Apart-insert, IsList,
}

module _ {V : Type 0} where
  record Unlinks (l : PriorityList V) (a : ℕ) (w : V) (xs : Cells V) (r : PriorityList V)
      : Type 0 where
    chain : Linked r.memory (l.memory a).next xs
    first : r.first ≡ l.first
    ends : l.last ≡ last_address a xs → r.last ≡ last_address (l.memory a).prev xs
    here : (r.memory a).value ≡ w
    pool : r.pool ≡ l.pool
    size : r.size ≡ l.size
    same : (b : ℕ) → IsAway b xs → r.memory b ≡ l.memory b

  unlink_next-Unlinks :
      (l : PriorityList V) (a : ℕ) (w : V) (xs : Cells V)
      → (l.memory a).value ≡ w
      → Linked l.memory (l.memory a).next xs
      → IsAway a xs
      → (r : PriorityList V) × (unlink_next l (l.memory a) ≡ ok r) × Unlinks l a w xs r
  unfolding unlink_next
  unlink_next-Unlinks l a w [] here h away = (
    record l { last = (l.memory a).prev },
    ground (arith, h),
    record {
      chain = h;
      first = refl;
      ends = λ e. refl;
      here = here;
      pool = refl;
      size = refl;
      same = λ b out. refl;
    },
  )
  unlink_next-Unlinks l a w ((b, u) ∷ ys) here h away =
      let q = (l.memory a).next in
      let m = write l.memory q (record (l.memory q) { prev = (l.memory a).prev }) in
      (
        record l { memory = m },
        ground (arith, h),
        record {
          chain = Linked-prev l.memory q (l.memory a).prev q ((b, u) ∷ ys) h;
          first = refl;
          ends = λ e. e;
          here = ground (arith, h.0, away.0);
          pool = refl;
          size = refl;
          same = λ c out. ground (arith, h.0, out.0);
        },
      )

  -- what `release` of the node `a` before `xs` leaves behind, with `f` at the head of the free list
  record Releases (l : PriorityList V) (a : ℕ) (w : V) (xs : Cells V) (f : ℕ) (u : V) (fs : Cells V)
      (r : PriorityList V) : Type 0 where
    chain : Linked r.memory (l.memory a).next xs
    spare : Linked r.memory r.pool.free ((f, u) ∷ (a, w) ∷ fs)
    first : r.first ≡ l.first
    ends : l.last ≡ last_address a xs → r.last ≡ last_address (l.memory a).prev xs
    size : r.size ≡ l.size
    filled : r.pool.free_count ≢ 0
    same : (b : ℕ) → IsAway b xs → IsAway b ((f, u) ∷ (a, w) ∷ fs) → r.memory b ≡ l.memory b

  release-Releases :
      (l : PriorityList V) (a : ℕ) (w : V) (xs : Cells V) (f : ℕ) (u : V) (fs : Cells V)
      → a ≢ 0
      → (l.memory a).value ≡ w
      → Linked l.memory (l.memory a).next xs
      → IsAway a xs
      → Linked l.memory l.pool.free ((f, u) ∷ fs)
      → IsAway a ((f, u) ∷ fs)
      → Apart xs ((f, u) ∷ fs)
      → l.pool.free_count + 1 < 2 ^ 64
      → (r : PriorityList V) × (release l a ≡ ok (w, r)) × Releases l a w xs f u fs r
  unfolding release
  release-Releases l a w xs f u fs real here h away spare out apart room =
      let (r, run, c) = unlink_next-Unlinks l a w xs here h away in
      let m = write r.memory a (fresh_node w) in
      let spare' : Linked m r.pool.free ((f, u) ∷ fs) =
        subst (λ q. Linked m q ((f, u) ∷ fs)) (ground (arith, c.pool))
          (Linked-frame l.memory m l.pool.free ((f, u) ∷ fs)
            (λ b near.
              let b≢a = ne_of_near a b ((f, u) ∷ fs) out near in
              let kept = c.same b (Apart-IsAway b xs ((f, u) ∷ fs) apart near) in
              (ground (arith, kept), ground (arith, kept)))
            spare) in
      let ((m', pool), freed, g) =
        free-Frees m r.pool a w f u fs spare' real out (ground arith) (ground (arith, c.pool)) in
      (
        record r { memory = m'; pool = pool },
        ground (arith, real, run, freed, c.here),
        record {
          chain =
              Linked-frame r.memory m' (l.memory a).next xs
                (λ b near.
                  let b≢a = ne_of_near a b xs away near in
                  let (b≢f, b_out) = Apart-near b xs ((f, u) ∷ fs) apart near in
                  let kept = g.same b (b≢f, (b≢a, b_out)) in
                  (ground (arith, kept), ground (arith, kept)))
                c.chain;
          spare = g.chain;
          first = c.first;
          ends = c.ends;
          size = c.size;
          filled = omega (arith, g.count);
          same = λ b o₁ o₂. ground (arith, c.same b o₁, g.same b o₂, o₂.1.0);
        },
      )

module _ {V : Type 0} (c : V → Bool) where
  -- the address of the first node whose payload meets `c`, or null
  unfoldable pub first_match : Cells V → ℕ
  first_match [] = 0
  first_match ((a, v) ∷ xs) = if c v then a else first_match xs

  pub seek_lem :
      (m : Memory V) (fuel p : ℕ) (xs : Cells V)
      → Linked m p xs
      → length xs < fuel
      → seek c m fuel p ≡ ok (first_match xs)
  unfolding seek first_match
  seek_lem m zero p xs h enough = absurd (omega arith)
  seek_lem m (suc fuel) p [] h enough = ground arith
  seek_lem m (suc fuel) p ((a, v) ∷ xs) h enough =
      ground (arith, h, seek_lem m fuel (m a).next xs h.4)

  abbrev pub AllFail : Cells V → Type 0
  AllFail [] = Unit {0}
  AllFail ((_, v) ∷ xs) = (c v ≡ false) × AllFail xs

  first_match-zero : (xs : Cells V) → AllFail xs → first_match xs ≡ 0
  unfolding first_match
  first_match-zero [] h = refl
  first_match-zero ((a, v) ∷ xs) h = ground (arith, first_match-zero xs h.1)

  -- Where no payload meets `c`, `remove` reports it, changes no node, and counts one node less.
  pub remove_missing :
      (fuel : ℕ) (l : PriorityList V) (a : ℕ) (v : V) (xs fs : Cells V)
      → IsList l ((a, v) ∷ xs) fs
      → length xs + 1 < fuel
      → AllFail ((a, v) ∷ xs)
      → remove fuel c l ≡ ok (none, record l { size = sub64 l.size 1 })
  unfolding remove
  remove_missing fuel l a v xs fs h enough fails =
      let run = seek_lem l.memory fuel l.first ((a, v) ∷ xs) h.chain (omega arith) in
      ground (arith, run, first_match-zero ((a, v) ∷ xs) fails, h.counted)

  -- Where the first node holds no wanted payload and the second does, but has no `prev` pointer, as
  -- after an insertion in front of it, `remove` takes both nodes out of the list.
  pub remove_second :
      (fuel : ℕ) (l : PriorityList V) (n : ℕ) (v : V) (a : ℕ) (w : V) (xs : Cells V) (f : ℕ) (u : V)
      (fs : Cells V)
      → IsList l ((n, v) ∷ (a, w) ∷ xs) ((f, u) ∷ fs)
      → length xs + 2 < fuel
      → length xs + 2 < 2 ^ 64
      → l.pool.free_count + 1 < 2 ^ 64
      → (l.memory a).prev ≡ 0
      → c v ≡ false
      → c w ≡ true
      → (r : PriorityList V) × (remove fuel c l ≡ ok (some w, r)) × Linked r.memory r.first xs
  unfolding remove unlink unlink_prev first_match
  remove_second fuel l n v a w xs f u fs h enough small room lost skip hit =
      let run = seek_lem l.memory fuel l.first ((n, v) ∷ (a, w) ∷ xs) h.chain (omega arith) in
      let next = h.chain.4 in
      let l₁ = record l { size = sub64 l.size 1; first = (l.memory a).next } in
      let (r, released, w') =
        release-Releases l₁ a w xs f u fs next.1 next.2 next.4 next.3 h.spare h.apart.1.0
          h.apart.1.1 room in
      (
        r,
        ground (arith, run, h.counted, next.1, released),
        subst (λ q. Linked r.memory q xs) (sym w'.first) w'.chain,
      )

  first_match-hit :
      (m : Memory V) (p : ℕ) (xs : Cells V)
      → Linked m p xs
      → first_match xs ≢ 0
      → c (m (first_match xs)).value ≡ true
  unfolding first_match
  first_match-hit m p [] h some_node = absurd (some_node refl)
  first_match-hit m p ((a, v) ∷ xs) h some_node =
      ground (arith, h.2, first_match-hit m (m a).next xs h.4)

  first_match-none :
      (m : Memory V) (p : ℕ) (xs : Cells V) → Linked m p xs → first_match xs ≡ 0 → AllFail xs
  unfolding first_match
  first_match-none m p [] h none_found = tt
  first_match-none m p ((a, v) ∷ xs) h none_found =
      ground (arith, h.1, first_match-none m (m a).next xs h.4)

  AllFail-last : (v : V) (xs : Cells V) → c v ≡ false → AllFail xs → c (last_value v xs) ≡ false
  AllFail-last v [] h fails = h
  AllFail-last v ((_, u) ∷ xs) h fails = AllFail-last u xs fails.0 fails.1

  first_match-short : (xs : Cells V) → length xs < 1 → first_match xs ≡ 0
  unfolding first_match
  first_match-short [] h = refl
  first_match-short (x ∷ xs) h = absurd (omega arith)

  -- `find` returns null exactly where no payload meets `c`, and a node whose payload meets it
  -- otherwise.
  pub find_lem :
      (fuel : ℕ) (l : PriorityList V) (xs fs : Cells V)
      → IsList l xs fs
      → length xs < fuel
      → (q : ℕ) × (find fuel c l ≡ ok q)
        × ((q ≡ 0) ↔ AllFail xs)
        × (q ≢ 0 → c (l.memory q).value ≡ true)
  unfolding find
  find_lem fuel l [] fs h enough =
      (0, ground (arith, h.counted), ((λ e. tt), (λ e. refl)), λ n. absurd (n refl))
  find_lem fuel l ((a, v) ∷ xs) fs h enough = elim (Bool-cases (c v)) [
    | inl hit ↦ (
      a,
      ground (arith, h.counted, h.chain),
      ((λ e. absurd (h.chain.1 e)), (λ fails. cc (fails.0))),
      λ n. rw h.chain.2 hit,
    )
    | inr miss ↦ elim (Bool-cases (c (last_value v xs))) [
      | inl hit ↦
          let holds = last_value-Linked l.memory l.first a v xs h.chain in
          let real = last_address-not-zero l.memory (l.memory a).next a xs h.chain.1 h.chain.4 in
          (
            last_address a xs,
            ground (arith, h.counted, h.chain, h.ends, holds, real),
            ((λ e. absurd (real e)), (λ fails. cc (AllFail-last v xs fails.0 fails.1))),
            λ n. rw holds hit,
          )
      | inr miss' ↦
          let holds = last_value-Linked l.memory l.first a v xs h.chain in
          let real = last_address-not-zero l.memory (l.memory a).next a xs h.chain.1 h.chain.4 in
          let run = seek_lem l.memory fuel (l.memory a).next xs h.chain.4 (omega arith) in
          (
            first_match xs,
            ground (arith, h.counted, h.chain, h.ends, holds, real, run, first_match-short xs),
            (
              (λ e. (miss, first_match-none l.memory (l.memory a).next xs h.chain.4 e)),
              (λ fails. first_match-zero xs fails.1),
            ),
            first_match-hit l.memory (l.memory a).next xs h.chain.4,
          )
    ]
  ]

  last_address_self : (d z : ℕ) (xs : Cells V) → d ≡ last_address z xs → d ≡ last_address d xs
  last_address_self d z [] e = refl
  last_address_self d z (x ∷ xs) e = e

  -- Where the first node holds the wanted payload and has no `prev` pointer, `remove` returns it
  -- and keeps the list well formed.
  pub remove_head :
      (fuel : ℕ) (l : PriorityList V) (a : ℕ) (w : V) (xs : Cells V) (f : ℕ) (u : V) (fs : Cells V)
      → IsList l ((a, w) ∷ xs) ((f, u) ∷ fs)
      → length xs + 1 < fuel
      → length xs + 1 < 2 ^ 64
      → l.pool.free_count + 1 < 2 ^ 64
      → (l.memory a).prev ≡ 0
      → c w ≡ true
      → (r : PriorityList V) × (remove fuel c l ≡ ok (some w, r))
        × IsList r xs ((f, u) ∷ (a, w) ∷ fs)
  unfolding remove unlink unlink_prev first_match
  remove_head fuel l a w xs f u fs h enough small room front hit =
      let run = seek_lem l.memory fuel l.first ((a, w) ∷ xs) h.chain (omega arith) in
      let here = h.chain in
      let l₁ = record l { size = sub64 l.size 1; first = (l.memory a).next } in
      let (r, released, w') =
        release-Releases l₁ a w xs f u fs here.1 here.2 here.4 here.3 h.spare h.apart.0 h.apart.1
          room in
      (
        r,
        ground (arith, run, h.counted, here.1, released),
        record {
          chain = subst (λ q. Linked r.memory q xs) (sym w'.first) w'.chain;
          spare = w'.spare;
          apart = Apart-insert f u a w xs fs h.apart.1 here.3;
          ends = last_address_self r.last (l.memory a).prev xs (w'.ends h.ends);
          counted = omega (arith, w'.size, h.counted);
          filled = w'.filled;
        },
      )
