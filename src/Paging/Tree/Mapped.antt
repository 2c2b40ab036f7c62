-- ===== src/Paging/Tree/Mapped.antt =====
-- Bodies that make tables and set pages, as `Maps` says, map a range page by page.
use reaveros_iteration.Common.{
  ℕ, ◌+◌, ◌-◌, ◌*◌, ◌≤◌, ◌<◌, ◌≡◌, ◌≢◌, ◌⊎◌, inl, inr, refl, sym, ap, subst, ◌∙◌, false, none, some,
  arith, ok,
}
use reaveros_iteration.Paging.Walk.{Cursor, Bodies}
use reaveros_iteration.Paging.Walk.Keeps.{Invariants, Keeps, page, cursor, IsCursor}
use reaveros_iteration.Paging.Tree.{View, Role, IsTree, HasTree, unused, pml4, frame_of}
use reaveros_iteration.Paging.Tree.Grow.{role-pdpt, role-pd, role-pt}
use reaveros_iteration.Paging.Tree.Maps.{Reading, Maps, Apart}
use reaveros_iteration.Paging.Tree.Progress.{
  Progress, AllDifferent, number, missing, missing_at-le, spare, place,
}
use reaveros_iteration.Paging.Tree.Fill.{HasPdpt, HasPd, HasPt, fill_pdpt, fill_pd, fill_pt}
use reaveros_iteration.Paging.Tree.Goal.{Clear, Allowed, Mapped, leaf_entry}

module _ {S : Type 0} (bodies : Bodies S) (end : Cursor) (r : Reading S) (In : ℕ → Type 0)
    (supply : ℕ → ℕ) (limit first last frame most home : ℕ) (v₀ : View) where
  -- before page `n`
  abbrev pub Before : ℕ → S → Type 0
  Before n s =
      r.sound s
      × (first ≤ n)
      × (r.physical s ≡ (frame + (n - first)) * 4096)
      × Progress In supply limit first last frame home v₀ n (r.taken s) (r.view s)

  abbrev pub so_far : Invariants S
  so_far = record {
    holds = Before;
    has_pdpt = λ a s. HasPdpt (r.view s) a;
    has_pd = λ a b s. HasPd (r.view s) a b;
    has_pt = λ a b c s. HasPt (r.view s) a b c;
  }

  -- before the first page, and after the last
  pub start-Before :
      (s : S) (role : ℕ → Role)
      → v₀ ≡ r.view s
      → IsTree In v₀ role
      → role home ≡ pml4
      → r.sound s
      → r.physical s ≡ frame * 4096
      → ((k : ℕ) → r.taken s ≤ k → k < limit → role (supply k) ≡ unused)
      → r.taken s + 3 * (last - first) ≤ limit
      → Before first s
  start-Before s role same tree at_home sound phys free room =
      let some_missing = missing_at-le v₀ first in
      (
        sound,
        omega arith,
        omega (arith, phys),
        subst (Progress In supply limit first last frame home v₀ first (r.taken s)) same (record {
          role = role;
          tree = tree;
          at_home = at_home;
          free = free;
          enough = omega (arith, room, some_missing);
          done = λ a b c d ia ib ic id lo hi. absurd (omega arith);
          rest = λ a b c d ia ib ic id out. refl;
        }),
      )

  pub Before-Mapped :
      (s : S)
      → Before last s
      → HasTree In home (r.view s) × r.sound s × Mapped In first last frame v₀ (r.view s)
  Before-Mapped s (sound, _, _, p) = (
    (p.role, p.tree, p.at_home),
    sound,
    λ a b c d ia ib ic id.
        (λ lo hi. p.done a b c d ia ib ic id lo hi, λ out. p.rest a b c d ia ib ic id out),
  )

  module _ (maps : Maps bodies r In supply most home) (different : AllDifferent supply limit)
      (allowed : Allowed In first last) (clear : Clear In first last frame v₀)
      (low : frame + (last - first) ≤ most) (until : page end ≡ last) where
    module _ (a b c d : ℕ) (s : S) (inside : IsCursor (cursor a b c d))
        (lt : page (cursor a b c d) < page end) where
      more : number a b c d < last
      more = omega (arith, until, lt)

      allowed_here : first ≤ number a b c d → In a
      allowed_here lo = subst In (omega (arith, inside)) (allowed (number a b c d) lo more)

      -- a new table for this page is not the PML4 in use
      apart :
          (f i : ℕ)
          (p : Progress In supply limit first last frame home v₀
            (number a b c d)
            (r.taken s)
            (r.view s))
          → ((r.view s).present f i ≡ false → missing (r.view s) a b c ≢ 0)
          → p.role f ≢ unused
          → Apart r supply home f i s
      apart f i p needs used absent =
          let free =
            spare In supply limit first last frame home v₀ a b c d (r.taken s) (r.view s) p inside.1
              inside.2 inside.3 more (needs absent) in
          (λ e. cc (sym free ∙ ap p.role e ∙ p.at_home), λ e. used (ap p.role (sym e) ∙ free))

      pub maps-pdpt :
          Before (number a b c d) s
          → (s' : S) × (bodies.at_pml4 a s ≡ ok s')
            × Before (number a b c d) s'
            × HasPdpt (r.view s') a
      maps-pdpt (sound, lo, phys, p) =
          let v = r.view s in
          let ia = allowed_here lo in
          let (s', run, (sound', phys', step)) = maps.makes_pdpt a s sound ia (
            apart v.root a p (λ absent e. let three : missing v a b c ≡ 3 = rw absent in cc)
              (λ e. cc (sym p.tree.top ∙ e))) in
          let (p', has) =
            fill_pdpt In supply limit first last frame home v₀ different a b c d (r.taken s)
              (r.taken s') v (r.view s') p ia inside.1 inside.2 inside.3 more step in
          (s', run, (sound', lo, phys' ∙ phys, p'), has)

      pub maps-pd :
          Before (number a b c d) s
          → HasPdpt (r.view s) a
          → (s' : S) × (bodies.at_pdpt a b s ≡ ok s')
            × Before (number a b c d) s'
            × HasPdpt (r.view s') a
            × HasPd (r.view s') a b
      maps-pd (sound, lo, phys, p) p₄ =
          let v = r.view s in
          let ia = allowed_here lo in
          let f = v.address v.root a in
          let r₃ = role-pdpt In v p.role p.tree a ia p₄ in
          let (s', run, (sound', phys', step)) =
            maps.makes_pd a b f s sound refl (λ e. cc (sym r₃ ∙ ap p.role e ∙ p.at_home))
              (apart f b p (λ absent e. let two : missing v a b c ≡ 2 = rw (p₄, absent) in cc)
                (λ e. cc (sym r₃ ∙ e))) in
          let (p', s₄, s₃) =
            fill_pd In supply limit first last frame home v₀ different a b c d (r.taken s)
              (r.taken s') v (r.view s') p ia inside.1 inside.2 inside.3 more f p₄ refl step in
          (s', run, (sound', lo, phys' ∙ phys, p'), s₄, s₃)

      pub maps-pt :
          Before (number a b c d) s
          → HasPdpt (r.view s) a
          → HasPd (r.view s) a b
          → (s' : S) × (bodies.at_pd a b c s ≡ ok s')
            × Before (number a b c d) s'
            × HasPdpt (r.view s') a
            × HasPd (r.view s') a b
            × HasPt (r.view s') a b c
      maps-pt (sound, lo, phys, p) p₄ p₃ =
          let v = r.view s in
          let ia = allowed_here lo in
          let f = v.address (v.address v.root a) b in
          let r₃ = role-pdpt In v p.role p.tree a ia p₄ in
          let r₂ = role-pd In v p.role p.tree (v.address v.root a) a b r₃ p₃ in
          let (s', run, (sound', phys', step)) =
            maps.makes_pt a b c f s sound refl (λ e. cc (sym r₂ ∙ ap p.role e ∙ p.at_home))
              (apart f c p (λ absent e. let one : missing v a b c ≡ 1 = rw (p₄, p₃, absent) in cc)
                (λ e. cc (sym r₂ ∙ e))) in
          let (p', s₄, s₃, s₂) =
            fill_pt In supply limit first last frame home v₀ different a b c d (r.taken s)
              (r.taken s') v (r.view s') p ia inside.1 inside.2 inside.3 more f p₄ p₃ refl step in
          (s', run, (sound', lo, phys' ∙ phys, p'), s₄, s₃, s₂)

      pub maps-page :
          Before (number a b c d) s
          → HasPdpt (r.view s) a
          → HasPd (r.view s) a b
          → HasPt (r.view s) a b c
          → (s' : S) × (bodies.at_page a b c d s ≡ ok s')
            × Before (number a b c d + 1) s'
            × HasPdpt (r.view s') a
            × HasPd (r.view s') a b
            × HasPt (r.view s') a b c
      maps-page (sound, lo, phys, p) p₄ p₃ p₂ =
          let v = r.view s in
          let ia = allowed_here lo in
          let f = v.address (v.address (v.address v.root a) b) c in
          let to = frame + (number a b c d - first) in
          let r₃ = role-pdpt In v p.role p.tree a ia p₄ in
          let r₂ = role-pd In v p.role p.tree (v.address v.root a) a b r₃ p₃ in
          let r₁ = role-pt In v p.role p.tree (v.address (v.address v.root a) b) a b c r₂ p₂ in
          let as_before = p.rest a b c d ia inside.1 inside.2 inside.3 (inr (omega arith)) in
          let found : (frame_of v a b c d ≡ none) ⊎ (frame_of v a b c d ≡ some to) =
            elim (clear a b c d ia inside.1 inside.2 inside.3 lo more) [
              | inl gone ↦ inl (as_before ∙ gone)
              | inr same ↦ inr (as_before ∙ same)
            ] in
          let (s', run, sound', phys', as_many, sets) =
            maps.sets_page a b c d f to s sound refl (λ e. cc (sym r₁ ∙ ap p.role e ∙ p.at_home))
              phys (omega (arith, more, low)) (leaf_entry v a b c d f to p₄ p₃ p₂ refl found) in
          let (p', s₄, s₃, s₂) =
            place In supply limit first last frame home v₀ a b c d (r.taken s) f v (r.view s') p ia
              inside.1 inside.2 inside.3 lo more p₄ p₃ p₂ refl sets in
          (
            s',
            run,
            (
              sound',
              omega arith,
              omega (arith, phys', lo),
              subst
                  (λ t.
                    Progress In supply limit first last frame home v₀ (number a b c d + 1) t
                      (r.view s'))
                  (sym as_many) p',
            ),
            s₄,
            s₃,
            s₂,
          )

    pub maps-Keeps : Keeps bodies end so_far
    maps-Keeps = record {
      keeps_pml4 = λ a b c d s inside lt before. maps-pdpt a b c d s inside lt before;
      keeps_pdpt = λ a b c d s inside lt before p₄. maps-pd a b c d s inside lt before p₄;
      keeps_pd = λ a b c d s inside lt before p₄ p₃. maps-pt a b c d s inside lt before p₄ p₃;
      keeps_page =
          λ a b c d s inside lt before p₄ p₃ p₂. maps-page a b c d s inside lt before p₄ p₃ p₂;
    }
