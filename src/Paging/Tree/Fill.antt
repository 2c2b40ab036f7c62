-- ===== src/Paging/Tree/Fill.antt =====
-- The tables on the way to the next page are put in place, from the top down.
use reaveros_iteration.Common.{
  ℕ, ◌+◌, ◌≤◌, ◌<◌, ◌≡◌, ◌≢◌, inl, inr, sym, ap, subst, ◌∙◌, true, false, arith,
}
use reaveros_iteration.Paging.Tree.{View, Role, unused, pdpt, pd, Leads, IsTree, Adds}
use reaveros_iteration.Paging.Tree.Grow.{role-pdpt, role-pd, stays, blank, f-ne-new, ne_of_used}
use reaveros_iteration.Paging.Tree.Maps.{Grows}
use reaveros_iteration.Paging.Tree.Progress.{
  Progress, AllDifferent, number, missing, missing_at-number, spare, grow,
}

-- the tables on the way to a page are there
abbrev pub HasPdpt : View → ℕ → Type 0
HasPdpt v a = v.present v.root a ≡ true

abbrev pub HasPd : View → ℕ → ℕ → Type 0
HasPd v a b = v.present (v.address v.root a) b ≡ true

abbrev pub HasPt : View → ℕ → ℕ → ℕ → Type 0
HasPt v a b c = v.present (v.address (v.address v.root a) b) c ≡ true

module _ (In : ℕ → Type 0) (v v' : View) (role : ℕ → Role) (f i new : ℕ) (tree : IsTree In v role)
    (free : role new ≡ unused) (leads : Leads In (role f) i) (absent : v.present f i ≡ false)
    (adds : Adds v v' f i new) where
  -- the entry leads to the new table, whose entries are absent
  added : (j : ℕ) → (v'.present f i ≡ true) × (v'.address f i ≡ new) × (v'.present new j ≡ false)
  added j =
      let ne = f-ne-new In v v' role f i new tree free leads absent adds in
      (
        ground (arith, adds.present f i),
        ground (arith, ne, adds.address f i),
        blank In v v' role f i new tree free leads absent adds j,
      )

  -- a table with a place that is there stays
  kept :
      (g j : ℕ)
      → role g ≢ unused
      → v.present g j ≡ true
      → (v'.present g j ≡ true) × (v'.address g j ≡ v.address g j)
  kept g j used =
      stays In v v' role f i new tree free leads absent adds g j
        (ne_of_used In v v' role f i new tree free leads absent adds g used)

module _ (In : ℕ → Type 0) (supply : ℕ → ℕ) (limit first last frame home : ℕ) (v₀ : View)
    (different : AllDifferent supply limit) (a b c d taken taken' : ℕ) (v v' : View)
    (p : Progress In supply limit first last frame home v₀ (number a b c d) taken v) (ia : In a)
    (ib : b < 512) (ic : c < 512) (id : d < 512) (more : number a b c d < last) where
  abbrev pub At : ℕ → View → Type 0
  At t v = Progress In supply limit first last frame home v₀ (number a b c d) t v

  room : missing v a b c ≢ 0 → p.role (supply taken) ≡ unused
  room = spare In supply limit first last frame home v₀ a b c d taken v p ib ic id more

  -- nothing changes
  stay : v' ≡ v → taken' ≡ taken → At taken' v'
  stay same as_many = subst (λ t. At t v') (sym as_many) (subst (At taken) (sym same) p)

  -- one table fewer is missing
  next :
      (f i : ℕ)
      → Leads In (p.role f) i
      → v.present f i ≡ false
      → Adds v v' f i (supply taken)
      → taken' ≡ taken + 1
      → missing v' a b c + 1 ≤ missing v a b c
      → At taken' v'
  next f i leads absent adds one_more fewer =
      let before = missing_at-number v a b c d ib ic id in
      let after = missing_at-number v' a b c d ib ic id in
      subst (λ t. At t v') (sym one_more)
        (grow In supply limit first last frame home v₀ (number a b c d) taken f i v v' p different
          more leads absent adds (omega (arith, before, after, fewer)))

  pub fill_pdpt : Grows supply v v' taken taken' v.root a → At taken' v' × HasPdpt v' a
  fill_pdpt step = elim step [
    | inl (there, same, as_many) ↦ (stay same as_many, subst (λ w. HasPdpt w a) (sym same) there)
    | inr (absent, adds, one_more) ↦
        let three : missing v a b c ≡ 3 = rw absent in
        let leads = subst (λ r. Leads In r a) (sym p.tree.top) ia in
        let (here, to, empty) =
          added In v v' p.role v.root a (supply taken) p.tree (room (omega (arith, three))) leads
            absent adds b in
        let has : HasPdpt v' a = rw (adds.root, here) in
        let two : missing v' a b c ≡ 2 = rw (adds.root, here, to, empty) in
        (next v.root a leads absent adds one_more (omega (arith, two, three)), has)
  ]

  pub fill_pd :
      (f : ℕ)
      → HasPdpt v a
      → v.address v.root a ≡ f
      → Grows supply v v' taken taken' f b
      → At taken' v' × HasPdpt v' a × HasPd v' a b
  fill_pd f p₄ way step = elim step [
    | inl (there, same, as_many) ↦ (
      stay same as_many,
      subst (λ w. HasPdpt w a) (sym same) p₄,
      subst (λ w. HasPd w a b) (sym same) (rw (way, there)),
    )
    | inr (absent, adds, one_more) ↦
        let two : missing v a b c ≡ 2 = rw (p₄, way, absent) in
        let place : p.role f ≡ pdpt a =
          ap p.role (sym way) ∙ role-pdpt In v p.role p.tree a ia p₄ in
        let leads = subst (λ r. Leads In r b) (sym place) tt in
        let free = room (omega (arith, two)) in
        let (here, to, empty) =
          added In v v' p.role f b (supply taken) p.tree free leads absent adds c in
        let (h₄, t₄) =
          kept In v v' p.role f b (supply taken) p.tree free leads absent adds v.root a
            (λ e. cc (sym p.tree.top ∙ e)) p₄ in
        let has : HasPd v' a b = rw (adds.root, t₄, way, here) in
        let one : missing v' a b c ≡ 1 = rw (adds.root, h₄, t₄, way, here, to, empty) in
        (next f b leads absent adds one_more (omega (arith, one, two)), rw (adds.root, h₄), has)
  ]

  pub fill_pt :
      (f : ℕ)
      → HasPdpt v a
      → HasPd v a b
      → v.address (v.address v.root a) b ≡ f
      → Grows supply v v' taken taken' f c
      → At taken' v' × HasPdpt v' a × HasPd v' a b × HasPt v' a b c
  fill_pt f p₄ p₃ way step = elim step [
    | inl (there, same, as_many) ↦ (
      stay same as_many,
      subst (λ w. HasPdpt w a) (sym same) p₄,
      subst (λ w. HasPd w a b) (sym same) p₃,
      subst (λ w. HasPt w a b c) (sym same) (rw (way, there)),
    )
    | inr (absent, adds, one_more) ↦
        let one : missing v a b c ≡ 1 = rw (p₄, p₃, way, absent) in
        let r₃ = role-pdpt In v p.role p.tree a ia p₄ in
        let place : p.role f ≡ pd a b =
          ap p.role (sym way) ∙ role-pd In v p.role p.tree (v.address v.root a) a b r₃ p₃ in
        let leads = subst (λ r. Leads In r c) (sym place) tt in
        let free = room (omega (arith, one)) in
        let (here, _, _) =
          added In v v' p.role f c (supply taken) p.tree free leads absent adds 0 in
        let (h₄, t₄) =
          kept In v v' p.role f c (supply taken) p.tree free leads absent adds v.root a
            (λ e. cc (sym p.tree.top ∙ e)) p₄ in
        let (h₃, t₃) =
          kept In v v' p.role f c (supply taken) p.tree free leads absent adds (v.address v.root a)
            b (λ e. cc (sym r₃ ∙ e)) p₃ in
        let none_left : missing v' a b c ≡ 0 = rw (adds.root, h₄, t₄, h₃, t₃, way, here) in
        (
          next f c leads absent adds one_more (omega (arith, one, none_left)),
          rw (adds.root, h₄),
          rw (adds.root, t₄, h₃),
          rw (adds.root, t₄, t₃, way, here),
        )
  ]
