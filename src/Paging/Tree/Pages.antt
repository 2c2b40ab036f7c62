-- ===== src/Paging/Tree/Pages.antt =====
-- A change of one entry of a page table changes that page alone.
use reaveros_iteration.Common.{
  ℕ, ◌≡◌, ◌≢◌, inl, inr, sym, ap, subst, ◌∙◌, true, some, arith, Bool-cases,
}
use reaveros_iteration.Paging.Tree.{
  View, frame_in_pt, frame_in_pd, frame_in_pdpt, frame_of, Role, pdpt, pd, pt, Leads, IsTree, Sets,
  Changes,
}
use reaveros_iteration.Paging.Tree.Grow.{role-pdpt, role-pd, role-pt}

module _ (In : ℕ → Type 0) (v v' : View) (role : ℕ → Role) (f a b c d : ℕ) (tree : IsTree In v role)
    (leaf : role f ≡ pt a b c) (changes : Changes v v' f d) where
  -- other tables are as they were
  elsewhere :
      (g j : ℕ)
      → role g ≢ pt a b c
      → (v'.present g j ≡ v.present g j) × (v'.address g j ≡ v.address g j)
  elsewhere g j r =
      let ne : g ≢ f = λ e. r (ap role e ∙ leaf) in changes.others g j (λ (e, _). ne e)

  pub Changes-IsTree : IsTree In v' role
  Changes-IsTree = record {
    top = ap role changes.root ∙ tree.top;
    links = λ g j h p.
        let r : role g ≢ pt a b c = λ e. subst (λ r. Leads In r j) e h in
        let same = elsewhere g j r in ap role same.1 ∙ tree.links g j h (sym same.0 ∙ p);
  }

  frame_in_pt-other :
      (g x y z d' : ℕ)
      → role g ≡ pt x y z
      → ¬ ((x ≡ a) × (y ≡ b) × (z ≡ c) × (d' ≡ d))
      → frame_in_pt v' g d' ≡ frame_in_pt v g d'
  unfolding frame_in_pt
  frame_in_pt-other g x y z d' e other =
      let apart : ¬ ((g ≡ f) × (d' ≡ d)) = λ (h, k).
        let same : pt x y z ≡ pt a b c = sym e ∙ ap role h ∙ leaf in ground (arith, other, same) in
      ground (arith, changes.others g d' apart)

  frame_in_pd-other :
      (g x y c' d' : ℕ)
      → role g ≡ pd x y
      → ¬ ((x ≡ a) × (y ≡ b) × (c' ≡ c) × (d' ≡ d))
      → frame_in_pd v' g c' d' ≡ frame_in_pd v g c' d'
  unfolding frame_in_pd
  frame_in_pd-other g x y c' d' e other =
      let same = elsewhere g c' (λ u. cc (sym e ∙ u)) in
      elim (Bool-cases (v.present g c')) [
        | inl there ↦
            let below =
              frame_in_pt-other (v.address g c') x y c' d' (role-pt In v role tree g x y c' e there)
                other in
            ground (arith, same, below)
        | inr gone ↦ ground (arith, same)
      ]

  frame_in_pdpt-other :
      (g x b' c' d' : ℕ)
      → role g ≡ pdpt x
      → ¬ ((x ≡ a) × (b' ≡ b) × (c' ≡ c) × (d' ≡ d))
      → frame_in_pdpt v' g b' c' d' ≡ frame_in_pdpt v g b' c' d'
  unfolding frame_in_pdpt
  frame_in_pdpt-other g x b' c' d' e other =
      let same = elsewhere g b' (λ u. cc (sym e ∙ u)) in
      elim (Bool-cases (v.present g b')) [
        | inl there ↦
            let below =
              frame_in_pd-other (v.address g b') x b' c' d' (role-pd In v role tree g x b' e there)
                other in
            ground (arith, same, below)
        | inr gone ↦ ground (arith, same)
      ]

  pub Changes-frame_of-other :
      (a' b' c' d' : ℕ)
      → In a'
      → ¬ ((a' ≡ a) × (b' ≡ b) × (c' ≡ c) × (d' ≡ d))
      → frame_of v' a' b' c' d' ≡ frame_of v a' b' c' d'
  unfolding frame_of
  Changes-frame_of-other a' b' c' d' inside other =
      let same = elsewhere v.root a' (λ u. cc (sym tree.top ∙ u)) in
      elim (Bool-cases (v.present v.root a')) [
        | inl there ↦
            let below =
              frame_in_pdpt-other (v.address v.root a') a' b' c' d'
                (role-pdpt In v role tree a' inside there) other in
            ground (arith, changes.root, same, below)
        | inr gone ↦ ground (arith, changes.root, same)
      ]

  -- where the tables on the way are there, they still are, and lead to the entry
  pub Changes-way :
      In a
      → v.present v.root a ≡ true
      → v.present (v.address v.root a) b ≡ true
      → v.present (v.address (v.address v.root a) b) c ≡ true
      → f ≡ v.address (v.address (v.address v.root a) b) c
      → (v'.present v'.root a ≡ true)
        × (v'.present (v'.address v'.root a) b ≡ true)
        × (v'.present (v'.address (v'.address v'.root a) b) c ≡ true)
        × (frame_of v' a b c d ≡ frame_in_pt v' f d)
  unfolding frame_of frame_in_pdpt frame_in_pd
  Changes-way inside p₄ p₃ p₂ way =
      let r₃ = role-pdpt In v role tree a inside p₄ in
      let r₂ = role-pd In v role tree (v.address v.root a) a b r₃ p₃ in
      let e₄ = elsewhere v.root a (λ u. cc (sym tree.top ∙ u)) in
      let e₃ = elsewhere (v.address v.root a) b (λ u. cc (sym r₃ ∙ u)) in
      let e₂ = elsewhere (v.address (v.address v.root a) b) c (λ u. cc (sym r₂ ∙ u)) in
      let s₄ : v'.present v'.root a ≡ true = ground (arith, changes.root, e₄) in
      let t₄ : v'.address v'.root a ≡ v.address v.root a = ground (arith, changes.root, e₄) in
      let s₃ : v'.present (v'.address v'.root a) b ≡ true = ground (arith, t₄, e₃) in
      let t₃ : v'.address (v'.address v'.root a) b ≡ v.address (v.address v.root a) b =
        ground (arith, t₄, e₃) in
      let s₂ : v'.present (v'.address (v'.address v'.root a) b) c ≡ true = ground (arith, t₃, e₂) in
      let t₂ : v'.address (v'.address (v'.address v'.root a) b) c ≡ f =
        ground (arith, t₃, e₂, way) in
      (s₄, s₃, s₂, rw (s₄, s₃, s₂, t₂))

pub Sets-Changes : (v v' : View) (f d to : ℕ) → Sets v v' f d to → Changes v v' f d
Sets-Changes v v' f d to sets = record {
  root = sets.root;
  others = λ g j ne. (ground (arith, sets.present g j), ground (arith, sets.address g j));
}

pub Sets-frame : (v v' : View) (f d to : ℕ) → Sets v v' f d to → frame_in_pt v' f d ≡ some to
unfolding frame_in_pt
Sets-frame v v' f d to sets = ground (arith, sets.present f d, sets.address f d)
