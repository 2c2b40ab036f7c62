-- ===== src/Paging/Walk/Rule.antt =====
-- An invariant rule for the page walk: what the bodies keep, page by page, holds at the end.
use reaveros_iteration.Common.{
  ℕ, zero, suc, ◌+◌, ◌≤◌, ◌<◌, ◌≡◌, refl, subst, ◌∙◌, inl, inr, false, arith, ok, leb, Bool-cases,
}
use reaveros_iteration.Paging.Walk.{Cursor, same_page, Bodies, walk_pd, walk_pdpt, walk_pml4, walk}
use reaveros_iteration.Paging.Walk.Keeps.{
  page, cursor, IsCursor, Invariants, Keeps, same_page-page, page-lt, past_pd, past_pdpt,
}
use reaveros_iteration.Paging.Walk.Inner.{EndOr, Returns, walk_pd-keeps}

module _ {S : Type 0} (bodies : Bodies S) (end : Cursor) where
  open bodies use {at_pml4, at_pdpt, at_pd}

  pub walk_pdpt-next :
      (fuel : ℕ) (c c' : Cursor) (s s₁ s₂ : S)
      → same_page c end ≡ false
      → leb 512 c.pdpte ≡ false
      → at_pdpt c.pml4e c.pdpte s ≡ ok s₁
      → walk_pd bodies end 513 c s₁ ≡ ok (c', s₂)
      → same_page c' end ≡ false
      → walk_pdpt bodies end (suc fuel) c s
        ≡ walk_pdpt bodies end fuel (record c' { pdpte = c'.pdpte + 1; pde = 0 }) s₂
  unfolding walk_pdpt
  walk_pdpt-next fuel c c' s s₁ s₂ more room run₁ run₂ more' = ground arith

  pub walk_pml4-next :
      (fuel : ℕ) (c c' : Cursor) (s s₁ s₂ : S)
      → same_page c end ≡ false
      → at_pml4 c.pml4e s ≡ ok s₁
      → walk_pdpt bodies end 513 c s₁ ≡ ok (c', s₂)
      → same_page c' end ≡ false
      → walk_pml4 bodies end (suc fuel) c s
        ≡ walk_pml4 bodies end fuel (record c' { pml4e = c'.pml4e + 1; pdpte = 0 }) s₂
  unfolding walk_pml4
  walk_pml4-next fuel c c' s s₁ s₂ more run₁ run₂ more' = ground arith

module _ {S : Type 0} (bodies : Bodies S) (end : Cursor) (inv : Invariants S)
    (keeps : Keeps bodies end inv) (inside : IsCursor end) where
  open inv use {holds, has_pdpt, has_pd, has_pt}

  walk_pdpt-keeps :
      (fuel a b c d : ℕ) (s : S)
      → a < 512
      → b ≤ 512
      → c < 512
      → d < 512
      → (b ≡ 512 → (c ≡ 0) × (d ≡ 0))
      → 512 < b + fuel
      → page (cursor a b c d) ≤ page end
      → holds (page (cursor a b c d)) s
      → has_pdpt a s
      → Returns bodies end inv keeps inside
          (walk_pdpt bodies end fuel (cursor a b c d) s)
          (λ r. EndOr bodies end inv keeps inside (cursor a 512 0 0) r (has_pdpt a r.1))
  unfolding walk_pdpt
  walk_pdpt-keeps zero a b c d s la lb lc ld start enough le h ha = absurd (omega arith)
  walk_pdpt-keeps (suc fuel) a b c d s la lb lc ld start enough le h ha =
      elim (Bool-cases (same_page (cursor a b c d) end)) [
        | inl done ↦ (
          (cursor a b c d, s),
          ground arith,
          inl (done, subst (λ n. holds n s) (same_page-page (cursor a b c d) end done) h),
        )
        | inr more ↦ elim (Bool-cases (leb 512 b)) [
          | inl full ↦
              let e : cursor a b c d ≡ cursor a 512 0 0 = ground (arith, start) in
              (
                (cursor a b c d, s),
                ground arith,
                inr (e, subst (λ t. page t ≤ page end) e le, subst (λ t. holds (page t) s) e h, ha),
              )
          | inr room ↦
              let lb' : b < 512 = ground arith in
              let lt = page-lt (cursor a b c d) end (la, lb', lc, ld) inside more le in
              let (s₁, run₁, h₁, ha₁, hb₁) = keeps.keeps_pdpt a b c d s (la, lb', lc, ld) lt h ha in
              let ((c', s₂), run₂, post) =
                walk_pd-keeps bodies end inv keeps inside 513 a b c d s₁ la lb' (omega arith) ld
                  (λ e. absurd (omega arith)) (omega arith) le h₁ ha₁ hb₁ in
              elim post [
                | inl (done, stop) ↦ ((c', s₂), ground (arith, run₁, run₂, done), inl (done, stop))
                | inr (e, le', h', (ha', _)) ↦
                    let (r, rest, post') =
                      walk_pdpt-keeps fuel a (b + 1) 0 0 s₂ la (omega arith) (omega arith)
                        (omega arith) (λ _. (refl, refl)) (omega arith) (omega (arith, le'))
                        (subst (λ n. holds n s₂) (omega arith) h') ha' in
                    (
                      r,
                      walk_pdpt-next bodies end fuel (cursor a b c d) (cursor a b 512 0) s s₁ s₂
                            more room run₁
                            (subst (λ t. walk_pd bodies end 513 (cursor a b c d) s₁ ≡ ok (t, s₂)) e
                              run₂)
                            (past_pd a b 0 end inside)
                          ∙ rest,
                      post',
                    )
              ]
        ]
      ]

  walk_pml4-keeps :
      (fuel a b c d : ℕ) (s : S)
      → b < 512
      → c < 512
      → d < 512
      → 512 < a + fuel
      → page (cursor a b c d) ≤ page end
      → holds (page (cursor a b c d)) s
      → (s' : S) × (walk_pml4 bodies end fuel (cursor a b c d) s ≡ ok s') × holds (page end) s'
  unfolding walk_pml4
  walk_pml4-keeps zero a b c d s lb lc ld enough le h = absurd (omega (arith, inside))
  walk_pml4-keeps (suc fuel) a b c d s lb lc ld enough le h =
      elim (Bool-cases (same_page (cursor a b c d) end)) [
        | inl done ↦
            (s, ground arith, subst (λ n. holds n s) (same_page-page (cursor a b c d) end done) h)
        | inr more ↦
            let la : a < 512 = omega (arith, inside) in
            let lt = page-lt (cursor a b c d) end (la, lb, lc, ld) inside more le in
            let (s₁, run₁, h₁, ha₁) = keeps.keeps_pml4 a b c d s (la, lb, lc, ld) lt h in
            let ((c', s₂), run₂, post) =
              walk_pdpt-keeps 513 a b c d s₁ la (omega arith) lc ld (λ e. absurd (omega arith))
                (omega arith) le h₁ ha₁ in
            elim post [
              | inl (done, stop) ↦ (s₂, ground (arith, run₁, run₂, done), stop)
              | inr (e, le', h', _) ↦
                  let (s', rest, stop) =
                    walk_pml4-keeps fuel (a + 1) 0 0 0 s₂ (omega arith) (omega arith) (omega arith)
                      (omega arith) (omega (arith, le'))
                      (subst (λ n. holds n s₂) (omega arith) h') in
                  (
                    s',
                    walk_pml4-next bodies end fuel (cursor a b c d) (cursor a 512 0 0) s s₁ s₂ more
                          run₁
                          (subst (λ t. walk_pdpt bodies end 513 (cursor a b c d) s₁ ≡ ok (t, s₂)) e
                            run₂)
                          (past_pdpt a 0 0 end inside)
                        ∙ rest,
                    stop,
                  )
            ]
      ]

  -- The loops end, with every page from the start to the end visited once, in order.
  pub walk-keeps :
      (c : Cursor) (s : S)
      → IsCursor c
      → page c ≤ page end
      → holds (page c) s
      → (s' : S) × (walk bodies end c s ≡ ok s') × holds (page end) s'
  unfolding walk
  walk-keeps c s hc le h =
      walk_pml4-keeps 513 c.pml4e c.pdpte c.pde c.pte s hc.1 hc.2 hc.3 (omega arith) le h
