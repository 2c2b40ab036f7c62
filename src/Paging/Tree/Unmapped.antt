-- ===== src/Paging/Tree/Unmapped.antt =====
-- Bodies that make pages absent unmap a range page by page.
use reaveros_iteration.Common.{
  ℕ, ◌+◌, ◌≤◌, ◌<◌, ◌≡◌, ◌≢◌, ◌⊎◌, inr, refl, sym, ap, subst, ◌∙◌, true, none, some, arith, ok,
  ℕ_discrete, page_down, page_up,
}
use reaveros_iteration.Paging.Walk.{Cursor, Bodies, cursor_of, walk}
use reaveros_iteration.Paging.Walk.Keeps.{Invariants, Keeps, page, cursor, IsCursor}
use reaveros_iteration.Paging.Walk.Rule.{walk-keeps}
use reaveros_iteration.Paging.Tree.{
  View, Role, IsTree, pml4, frame_of, frame_in_pt, frame_in_pd, frame_in_pdpt, Changes, Clears,
}
use reaveros_iteration.Paging.Tree.Grow.{role-pdpt, role-pd, role-pt}
use reaveros_iteration.Paging.Tree.Pages.{Changes-IsTree, Changes-frame_of-other, Changes-way}
use reaveros_iteration.Paging.Tree.Progress.{number, number-inj, outside_weaken, outside_ne}
use reaveros_iteration.Paging.Tree.Fill.{HasPdpt, HasPd, HasPt}
use reaveros_iteration.Paging.Tree.Goal.{Allowed}
use reaveros_iteration.Paging.Tree.Range.{IsRange, cursor_of-IsCursor, page_down-page, page_up-page}

-- Each page of the range is mapped.
abbrev pub AllMapped : (ℕ → Type 0) → ℕ → ℕ → View → Type 0
AllMapped In first last v =
    (a b c d : ℕ)
    → In a
    → b < 512
    → c < 512
    → d < 512
    → first ≤ number a b c d
    → number a b c d < last
    → frame_of v a b c d ≢ none

-- No page of the range is mapped, and all others are as they were.
abbrev pub Unmapped : (ℕ → Type 0) → ℕ → ℕ → View → View → Type 0
Unmapped In first last v v' =
    (a b c d : ℕ)
    → In a
    → b < 512
    → c < 512
    → d < 512
    → (first ≤ number a b c d → number a b c d < last → frame_of v' a b c d ≡ none)
      × ((number a b c d < first) ⊎ (last ≤ number a b c d)
          → frame_of v' a b c d ≡ frame_of v a b c d)

Clears-Changes : (v v' : View) (f d : ℕ) → Clears v v' f d → Changes v v' f d
Clears-Changes v v' f d clears = record {
  root = clears.root;
  others = λ g j ne. (ground (arith, clears.present g j), clears.address g j);
}

Clears-frame : (v v' : View) (f d : ℕ) → Clears v v' f d → frame_in_pt v' f d ≡ none
unfolding frame_in_pt
Clears-frame v v' f d clears = ground (arith, clears.present f d)

-- what the walk to a page that is mapped meets
found_on_the_way :
    (v : View) (a b c d : ℕ)
    → frame_of v a b c d ≢ none
    → HasPdpt v a
      × HasPd v a b
      × HasPt v a b c
      × (v.present (v.address (v.address (v.address v.root a) b) c) d ≡ true)
unfolding frame_of frame_in_pdpt frame_in_pd frame_in_pt
found_on_the_way v a b c d found =
    (ground (arith, found), ground (arith, found), ground (arith, found), ground (arith, found))

frame_at :
    (v : View) (a b c d : ℕ)
    → HasPdpt v a
    → HasPd v a b
    → HasPt v a b c
    → v.present (v.address (v.address (v.address v.root a) b) c) d ≡ true
    → frame_of v a b c d ≡ some (v.address (v.address (v.address (v.address v.root a) b) c) d)
unfolding frame_of frame_in_pdpt frame_in_pd frame_in_pt
frame_at v a b c d p₄ p₃ p₂ p₁ = rw (p₄, p₃, p₂, p₁)

module _ {S : Type 0} (bodies : Bodies S) (view : S → View) (sound : ℕ → S → Type 0) (home : ℕ)
    (In : ℕ → Type 0) (first last : ℕ) (v₀ : View) where
  open bodies use {at_pml4, at_pdpt, at_pd, at_page}

  -- What the four bodies do where the tables and the page are there; `sound n` is what they keep
  -- besides, before page `n`. The page has the frame that it had at first.
  pub record Removes : Type 0 where
    pub meets_pdpt : (n a : ℕ) (s : S) → sound n s → HasPdpt (view s) a → at_pml4 a s ≡ ok s
    pub meets_pd : (n a b : ℕ) (s : S) → sound n s → HasPd (view s) a b → at_pdpt a b s ≡ ok s
    pub meets_pt : (n a b c : ℕ) (s : S) → sound n s → HasPt (view s) a b c → at_pd a b c s ≡ ok s
    pub clears_page :
        (a b c d f : ℕ) (s : S)
        → In a
        → IsCursor (cursor a b c d)
        → first ≤ number a b c d
        → number a b c d < last
        → sound (number a b c d) s
        → f ≡ (view s).address ((view s).address ((view s).address (view s).root a) b) c
        → f ≢ home
        → (view s).present f d ≡ true
        → frame_of v₀ a b c d ≡ some ((view s).address f d)
        → (s' : S) × (at_page a b c d s ≡ ok s')
          × sound (number a b c d + 1) s'
          × Clears (view s) (view s') f d

module _ {S : Type 0} (bodies : Bodies S) (view : S → View) (sound : ℕ → S → Type 0) (home : ℕ)
    (In : ℕ → Type 0) (first last : ℕ) (v₀ : View)
    (removes : Removes bodies view sound home In first last v₀) (role : ℕ → Role)
    (at_home : role home ≡ pml4) (allowed : Allowed In first last)
    (mapped : AllMapped In first last v₀) where
  -- before page `n`
  abbrev pub Before : ℕ → S → Type 0
  Before n s = sound n s × (first ≤ n) × IsTree In (view s) role × Unmapped In first n v₀ (view s)

  abbrev pub so_far : Invariants S
  so_far = record {
    holds = Before;
    has_pdpt = λ a s. Unit {0};
    has_pd = λ a b s. Unit {0};
    has_pt = λ a b c s. Unit {0};
  }

  module _ (a b c d : ℕ) (s : S) (inside : IsCursor (cursor a b c d))
      (more : number a b c d < last) where
    allowed_here : first ≤ number a b c d → In a
    allowed_here lo = subst In (omega (arith, inside)) (allowed (number a b c d) lo more)

    -- the page is still mapped
    still : Before (number a b c d) s → frame_of (view s) a b c d ≢ none
    still (_, lo, _, far) gone =
        let ia = allowed_here lo in
        mapped a b c d ia inside.1 inside.2 inside.3 lo more
          (sym ((far a b c d ia inside.1 inside.2 inside.3).1 (inr (omega arith))) ∙ gone)

    pub clear :
        (before : Before (number a b c d) s)
        → (s' : S) × (bodies.at_page a b c d s ≡ ok s') × Before (number a b c d + 1) s'
    clear before =
        let (kept, lo, tree, far) = before in
        let v = view s in
        let (p₄, p₃, p₂, p₁) = found_on_the_way v a b c d (still before) in
        let ia = allowed_here lo in
        let f = v.address (v.address (v.address v.root a) b) c in
        let r₃ = role-pdpt In v role tree a ia p₄ in
        let r₂ = role-pd In v role tree (v.address v.root a) a b r₃ p₃ in
        let leaf = role-pt In v role tree (v.address (v.address v.root a) b) a b c r₂ p₂ in
        let as_before = (far a b c d ia inside.1 inside.2 inside.3).1 (inr (omega arith)) in
        let (s', run, sound', clears) =
          removes.clears_page a b c d f s ia inside lo more kept refl
            (λ e. cc (sym leaf ∙ ap role e ∙ at_home)) p₁
            (sym as_before ∙ frame_at v a b c d p₄ p₃ p₂ p₁) in
        let changes = Clears-Changes v (view s') f d clears in
        let (_, _, _, at) =
          Changes-way In v (view s') role f a b c d tree leaf changes ia p₄ p₃ p₂ refl in
        let here = at ∙ Clears-frame v (view s') f d clears in
        let other = Changes-frame_of-other In v (view s') role f a b c d tree leaf changes in
        (
          s',
          run,
          (
            sound',
            omega arith,
            Changes-IsTree In v (view s') role f a b c d tree leaf changes,
            λ a' b' c' d' ia' ib' ic' id'. (
              λ lo' hi'. elim (ℕ_discrete (number a' b' c' d') (number a b c d)) [
                | yes e ↦
                    let (ea, eb, ec, ed) =
                      number-inj a' b' c' d' a b c d ib' ic' id' inside.1 inside.2 inside.3 e in
                    rw (ea, eb, ec, ed, here)
                | no ne ↦
                    other a' b' c' d' ia' (λ (ea, eb, ec, ed). ne (rw (ea, eb, ec, ed)))
                    ∙ (far a' b' c' d' ia' ib' ic' id').0 lo' (omega arith)
              ],
              λ out.
                  other a' b' c' d' ia'
                    (λ (ea, eb, ec, ed). outside_ne out lo (rw (ea, eb, ec, ed)))
                  ∙ (far a' b' c' d' ia' ib' ic' id').1 (outside_weaken out),
            ),
          ),
        )

  module _ (end : Cursor) (until : page end ≡ last) where
    removes-Keeps : Keeps bodies end so_far
    removes-Keeps = record {
      keeps_pml4 = λ a b c d s inside lt before.
          let (p₄, _, _, _) =
            found_on_the_way (view s) a b c d
              (still a b c d s inside (omega (arith, until, lt)) before) in
          (s, removes.meets_pdpt (number a b c d) a s before.0 p₄, before, tt);
      keeps_pdpt = λ a b c d s inside lt before _.
          let (_, p₃, _, _) =
            found_on_the_way (view s) a b c d
              (still a b c d s inside (omega (arith, until, lt)) before) in
          (s, removes.meets_pd (number a b c d) a b s before.0 p₃, before, tt, tt);
      keeps_pd = λ a b c d s inside lt before _ _.
          let (_, _, p₂, _) =
            found_on_the_way (view s) a b c d
              (still a b c d s inside (omega (arith, until, lt)) before) in
          (s, removes.meets_pt (number a b c d) a b c s before.0 p₂, before, tt, tt, tt);
      keeps_page = λ a b c d s inside lt before _ _ _.
          let (s', run, after) = clear a b c d s inside (omega (arith, until, lt)) before in
          (s', run, after, tt, tt, tt);
    }

  -- The walk over a range returns, with every page of it absent.
  pub walk-Unmapped :
      (virtual_start virtual_end : ℕ) (s : S)
      → IsRange virtual_start virtual_end first last
      → virtual_start ≤ virtual_end
      → v₀ ≡ view s
      → sound first s
      → IsTree In v₀ role
      → (s' : S) × (walk bodies
            (cursor_of (page_up virtual_end))
            (cursor_of (page_down virtual_start))
            s
          ≡ ok s')
        × sound last s'
        × Unmapped In first last v₀ (view s')
  walk-Unmapped virtual_start virtual_end s range up same sound_s tree =
      let e = cursor_of (page_up virtual_end) in
      let c = cursor_of (page_down virtual_start) in
      let from : page c ≡ first = page_down-page virtual_start ∙ sym range.start in
      let until : page e ≡ last = page_up-page virtual_end range.low ∙ sym range.end in
      let before : Before first s = (
        sound_s,
        omega arith,
        subst (λ v. IsTree In v role) same tree,
        λ a b c d ia ib ic id.
            (λ lo hi. absurd (omega arith), λ out. ap (λ v. frame_of v a b c d) (sym same)),
      ) in
      let (s', run, (kept, _, _, after)) =
        walk-keeps bodies e so_far (removes-Keeps e until)
          (cursor_of-IsCursor (page_up virtual_end)) c s
          (cursor_of-IsCursor (page_down virtual_start))
          (omega (arith, from, until, range.start, range.end, range.block, range.low))
          (subst (λ n. Before n s) (sym from) before) in
      (
        s',
        run,
        subst (λ n. sound n s') until kept,
        subst (λ n. Unmapped In first n v₀ (view s')) until after,
      )
