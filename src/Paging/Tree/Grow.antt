-- ===== src/Paging/Tree/Grow.antt =====
-- An empty table that is hung into the tree changes no page.
use reaveros_iteration.Common.{
  ℕ, ◌≡◌, ◌≢◌, ◌⊎◌, inl, inr, sym, ap, ap₂, subst, ◌∙◌, true, false, none, ◌==◌, if◌then◌else◌,
  arith, ℕ_discrete, Bool-cases,
}
use reaveros_iteration.Paging.Tree.{
  View, frame_in_pt, frame_in_pd, frame_in_pdpt, frame_of, Role, unused, pml4, pdpt, pd, pt, child,
  Leads, IsTree, Adds,
}

pub child-used : (In : ℕ → Type 0) (r : Role) (i : ℕ) → Leads In r i → child r i ≢ unused
child-used In unused a h = elim h [ ]
child-used In (pt _ _ _) a h = elim h [ ]
child-used In pml4 a h = λ e. cc
child-used In (pdpt a) b h = λ e. cc
child-used In (pd a b) c h = λ e. cc

pub Leads-used : (In : ℕ → Type 0) (r : Role) (i : ℕ) → Leads In r i → r ≢ unused
Leads-used In unused a h = elim h [ ]
Leads-used In (pt _ _ _) a h = elim h [ ]
Leads-used In pml4 a h = λ e. cc
Leads-used In (pdpt a) b h = λ e. cc
Leads-used In (pd a b) c h = λ e. cc

Leads-ne-pt : (In : ℕ → Type 0) (r : Role) (i a b c : ℕ) → Leads In r i → r ≢ pt a b c
Leads-ne-pt In unused i a b c h = elim h [ ]
Leads-ne-pt In (pt _ _ _) i a b c h = elim h [ ]
Leads-ne-pt In pml4 i a b c h = λ e. cc
Leads-ne-pt In (pdpt x) i a b c h = λ e. cc
Leads-ne-pt In (pd x y) i a b c h = λ e. cc

module _ (In : ℕ → Type 0) (v : View) (role : ℕ → Role) (tree : IsTree In v role) where
  -- the places of the tables on the way to a page
  pub role-pdpt : (a : ℕ) → In a → v.present v.root a ≡ true → role (v.address v.root a) ≡ pdpt a
  role-pdpt a h p =
      tree.links v.root a (subst (λ r. Leads In r a) (sym tree.top) h) p
      ∙ ap (λ r. child r a) tree.top

  pub role-pd : (f a b : ℕ) → role f ≡ pdpt a → v.present f b ≡ true → role (v.address f b) ≡ pd a b
  role-pd f a b e p =
      tree.links f b (subst (λ r. Leads In r b) (sym e) tt) p ∙ ap (λ r. child r b) e

  pub role-pt :
      (f a b c : ℕ) → role f ≡ pd a b → v.present f c ≡ true → role (v.address f c) ≡ pt a b c
  role-pt f a b c e p =
      tree.links f c (subst (λ r. Leads In r c) (sym e) tt) p ∙ ap (λ r. child r c) e

-- the tables and their places, with the new table in the place `r`
abbrev pub assign_role : (ℕ → Role) → ℕ → Role → ℕ → Role
assign_role role new r g = if g == new then r else role g

module _ (In : ℕ → Type 0) (v v' : View) (role : ℕ → Role) (f i new : ℕ) (tree : IsTree In v role)
    (free : role new ≡ unused) (leads : Leads In (role f) i) (absent : v.present f i ≡ false)
    (adds : Adds v v' f i new) where
  pub ne_of_used : (g : ℕ) → role g ≢ unused → g ≢ new
  ne_of_used g used e = used (ap role e ∙ free)

  pub f-ne-new : f ≢ new
  f-ne-new = ne_of_used f (Leads-used In (role f) i leads)

  pub blank : (j : ℕ) → v'.present new j ≡ false
  blank j = let ne = f-ne-new in ground (arith, adds.present new j)

  -- an entry that is there stays, and one that is not is still not there or leads to the new table
  pub stays :
      (g j : ℕ)
      → g ≢ new
      → v.present g j ≡ true
      → (v'.present g j ≡ true) × (v'.address g j ≡ v.address g j)
  stays g j ne p = ground (arith, adds.present g j, adds.address g j, absent)

  fills :
      (g j : ℕ)
      → g ≢ new
      → v.present g j ≡ false
      → (v'.present g j ≡ false) ⊎ (v'.address g j ≡ new)
  fills g j ne p = ground (arith, adds.present g j, adds.address g j)

  Leads-assign :
      (g j : ℕ)
      → g ≢ new
      → Leads In (assign_role role new (child (role f) i) g) j
      → Leads In (role g) j
  Leads-assign g j ne = subst (λ r. Leads In r j) (ground arith)

  pub Adds-IsTree : IsTree In v' (assign_role role new (child (role f) i))
  Adds-IsTree = record {
    top =
        let ne = ne_of_used v.root (λ e. cc (sym tree.top ∙ e)) in
        ground (arith, adds.root, tree.top);
    links = λ g j h p. elim (ℕ_discrete g new) [
      | yes e ↦ cc (blank j, subst (λ n. v'.present n j ≡ true) e p)
      | no ne ↦
          let h' = Leads-assign g j ne h in
          elim (Bool-cases (v.present g j)) [
            | inl old ↦
                let link = tree.links g j h' old in
                let kept = (stays g j ne old).1 in
                let used =
                  ne_of_used (v.address g j) (λ e. child-used In (role g) j h' (sym link ∙ e)) in
                ground (arith, link, kept, used)
            | inr fresh ↦
                let here : (g ≡ f) × (j ≡ i) = ground (arith, adds.present g j) in
                let to : v'.address g j ≡ new = ground (arith, here, adds.address g j) in
                let same : child (role f) i ≡ child (role g) j =
                  ap₂ (λ h k. child (role h) k) (sym here.0) (sym here.1) in
                ground (arith, to, same)
          ]
    ];
  }

  -- the new table holds no page
  blank-frames :
      (b c d : ℕ)
      → (frame_in_pt v' new d ≡ none)
        × (frame_in_pd v' new c d ≡ none)
        × (frame_in_pdpt v' new b c d ≡ none)
  unfolding frame_in_pt frame_in_pd frame_in_pdpt
  blank-frames b c d = (rw (blank d), rw (blank c), rw (blank b))

  frame_in_pt-kept : (g x y z d : ℕ) → role g ≡ pt x y z → frame_in_pt v' g d ≡ frame_in_pt v g d
  unfolding frame_in_pt
  frame_in_pt-kept g x y z d e =
      let ne = ne_of_used g (λ u. cc (sym e ∙ u)) in
      let ne' : g ≢ f = λ u. Leads-ne-pt In (role f) i x y z leads (ap role (sym u) ∙ e) in
      ground (arith, adds.present g d, adds.address g d)

  frame_in_pd-kept : (g x y c d : ℕ) → role g ≡ pd x y → frame_in_pd v' g c d ≡ frame_in_pd v g c d
  unfolding frame_in_pd
  frame_in_pd-kept g x y c d e =
      let ne = ne_of_used g (λ u. cc (sym e ∙ u)) in
      elim (Bool-cases (v.present g c)) [
        | inl old ↦
            let kept = stays g c ne old in
            let below =
              frame_in_pt-kept (v.address g c) x y c d (role-pt In v role tree g x y c e old) in
            ground (arith, kept, below)
        | inr fresh ↦
            let filled = fills g c ne fresh in
            let none_there = (blank-frames 0 0 d).0 in ground (arith, filled, none_there)
      ]

  frame_in_pdpt-kept :
      (g x b c d : ℕ) → role g ≡ pdpt x → frame_in_pdpt v' g b c d ≡ frame_in_pdpt v g b c d
  unfolding frame_in_pdpt
  frame_in_pdpt-kept g x b c d e =
      let ne = ne_of_used g (λ u. cc (sym e ∙ u)) in
      elim (Bool-cases (v.present g b)) [
        | inl old ↦
            let kept = stays g b ne old in
            let below =
              frame_in_pd-kept (v.address g b) x b c d (role-pd In v role tree g x b e old) in
            ground (arith, kept, below)
        | inr fresh ↦
            let filled = fills g b ne fresh in
            let none_there = (blank-frames 0 c d).1 in ground (arith, filled, none_there)
      ]

  -- No page is mapped, unmapped or moved.
  pub Adds-frame_of : (a b c d : ℕ) → In a → frame_of v' a b c d ≡ frame_of v a b c d
  unfolding frame_of
  Adds-frame_of a b c d inside =
      let ne = ne_of_used v.root (λ u. cc (sym tree.top ∙ u)) in
      elim (Bool-cases (v.present v.root a)) [
        | inl old ↦
            let kept = stays v.root a ne old in
            let below =
              frame_in_pdpt-kept (v.address v.root a) a b c d
                (role-pdpt In v role tree a inside old) in
            ground (arith, adds.root, kept, below)
        | inr fresh ↦
            let filled = fills v.root a ne fresh in
            let none_there = (blank-frames b c d).2 in ground (arith, adds.root, filled, none_there)
      ]
