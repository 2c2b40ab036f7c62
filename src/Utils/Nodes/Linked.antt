-- ===== src/Utils/Nodes/Linked.antt =====
-- What a chain of nodes stands for: the addresses and payloads that `next` leads through.
use reaveros_iteration.Common.{ℕ, ◌≡◌, ◌≢◌, refl, ◌∙◌, sym, subst, List, [], ◌∷◌, ◌++◌, arith}
use reaveros_iteration.Utils.Nodes.{Node, Memory, write}

abbrev pub Cells : Type 0 → Type 0
Cells V = List (ℕ × V)

module _ {V : Type 0} where
  abbrev pub IsAway : ℕ → Cells V → Type 0
  IsAway a [] = Unit {0}
  IsAway a ((p, _) ∷ xs) = (a ≢ p) × IsAway a xs

  -- from `p` the `next` pointers lead through the nodes `xs`, all different, to null
  abbrev pub Linked : Memory V → ℕ → Cells V → Type 0
  Linked m p [] = p ≡ 0
  Linked m p ((a, v) ∷ xs) =
      (p ≡ a) × (a ≢ 0) × ((m a).value ≡ v) × IsAway a xs × Linked m (m a).next xs

  -- the address of the last node, or a default
  abbrev pub last_address : ℕ → Cells V → ℕ
  last_address d [] = d
  last_address d ((a, _) ∷ xs) = last_address a xs

  abbrev pub last_value : V → Cells V → V
  last_value d [] = d
  last_value d ((_, v) ∷ xs) = last_value v xs

  -- a chain survives a change that spares the payloads and `next` pointers of its nodes
  pub Linked-frame :
      (m m' : Memory V) (p : ℕ) (xs : Cells V)
      → ((a : ℕ) → ¬ IsAway a xs → ((m' a).value ≡ (m a).value) × ((m' a).next ≡ (m a).next))
      → Linked m p xs
      → Linked m' p xs
  Linked-frame m m' p [] same h = h
  Linked-frame m m' p ((b, v) ∷ xs) same h =
      let here = same b (λ w. w.0 refl) in
      (
        h.0,
        h.1,
        here.0 ∙ h.2,
        h.3,
        rw here.1 (Linked-frame m m' (m b).next xs (λ a n. same a (λ w. n w.1)) h.4),
      )

  -- in particular a write to a node that is not in it
  pub Linked-write :
      (m : Memory V) (a : ℕ) (n : Node V) (p : ℕ) (xs : Cells V)
      → IsAway a xs
      → Linked m p xs
      → Linked (write m a n) p xs
  Linked-write m a n p xs away = Linked-frame m (write m a n) p xs λ b near.
      let apart : a ≢ b = λ e. near (subst (λ c. IsAway c xs) e away) in
      (ground arith, ground arith)

  -- and a write that leaves the payload and the `next` pointer of its node
  pub Linked-prev :
      (m : Memory V) (a q p : ℕ) (xs : Cells V)
      → Linked m p xs
      → Linked (write m a (record (m a) { prev = q })) p xs
  Linked-prev m a q p xs =
      Linked-frame m (write m a (record (m a) { prev = q })) p xs
        λ b near. (ground arith, ground arith)

  pub IsAway-append : (a : ℕ) (xs ys : Cells V) → IsAway a xs → IsAway a ys → IsAway a (xs ++ ys)
  IsAway-append a [] ys h k = k
  IsAway-append a (x ∷ xs) ys h k = (h.0, IsAway-append a xs ys h.1 k)

  pub IsAway-prefix : (a : ℕ) (xs ys : Cells V) → IsAway a (xs ++ ys) → IsAway a xs × IsAway a ys
  IsAway-prefix a [] ys h = (tt, h)
  IsAway-prefix a (x ∷ xs) ys h = let rest = IsAway-prefix a xs ys h.1 in ((h.0, rest.0), rest.1)

  pub ne-last_address : (a b : ℕ) (xs : Cells V) → a ≢ b → IsAway a xs → a ≢ last_address b xs
  ne-last_address a b [] h k = h
  ne-last_address a b ((c, _) ∷ xs) h k = ne-last_address a c xs k.0 k.1

  pub last_address-not-zero :
      (m : Memory V) (p b : ℕ) (xs : Cells V) → b ≢ 0 → Linked m p xs → last_address b xs ≢ 0
  last_address-not-zero m p b [] h k = h
  last_address-not-zero m p b ((c, _) ∷ xs) h k = last_address-not-zero m (m c).next c xs k.1 k.4

  pub last_address-append :
      (d a : ℕ) (v : V) (xs : Cells V) → last_address d (xs ++ (a, v) ∷ []) ≡ a
  last_address-append d a v [] = refl
  last_address-append d a v ((b, _) ∷ xs) = last_address-append b a v xs

  -- a node that is linked behind the last one
  pub Linked-snoc :
      (m : Memory V) (p a : ℕ) (v : V) (xs : Cells V) (n : ℕ) (w : V)
      → Linked m p ((a, v) ∷ xs)
      → n ≢ 0
      → IsAway n ((a, v) ∷ xs)
      → ((m n).value ≡ w) × ((m n).next ≡ 0)
      → let last = last_address a xs in
        Linked (write m last (record (m last) { next = n })) p (((a, v) ∷ xs) ++ (n, w) ∷ [])
  Linked-snoc m p a v [] n w h pos away new = (
    h.0,
    h.1,
    ground arith,
    (λ e. away.0 (sym e), tt),
    (ground arith, pos, ground arith, tt, ground arith),
  )
  Linked-snoc m p a v ((b, u) ∷ xs) n w h pos away new =
      let last = last_address b xs in
      let m' = write m last (record (m last) { next = n }) in
      let apart : a ≢ last = ne-last_address a b xs h.3.0 h.3.1 in
      let same : (m a).next ≡ (m' a).next = ground arith in
      (
        h.0,
        h.1,
        ground arith,
        IsAway-append a ((b, u) ∷ xs) ((n, w) ∷ []) h.3 ((λ e. away.0 (sym e)), tt),
        subst (λ q. Linked m' q (((b, u) ∷ xs) ++ (n, w) ∷ [])) same
            (Linked-snoc m (m a).next b u xs n w h.4 pos away.1 new),
      )

  pub last_value-Linked :
      (m : Memory V) (p a : ℕ) (v : V) (xs : Cells V)
      → Linked m p ((a, v) ∷ xs)
      → (m (last_address a xs)).value ≡ last_value v xs
  last_value-Linked m p a v [] h = h.2
  last_value-Linked m p a v ((b, u) ∷ xs) h = last_value-Linked m (m a).next b u xs h.4

  -- an address away from a chain is none of its nodes
  pub ne_of_near : (a b : ℕ) (xs : Cells V) → IsAway a xs → ¬ IsAway b xs → b ≢ a
  ne_of_near a b xs away near e = near (subst (λ c. IsAway c xs) (sym e) away)
