-- ===== src/Paging/Walk/Inner.antt =====
-- The two inner loops of the page walk keep what their bodies keep.
use reaveros_iteration.Common.{
  ℕ, zero, suc, ◌+◌, ◌≤◌, ◌<◌, ◌≡◌, refl, ap, subst, ◌∙◌, ◌⊎◌, inl, inr, true, false, arith, Run,
  ok, leb, Bool-cases,
}
use reaveros_iteration.Paging.Walk.{Cursor, same_page, Bodies, walk_pt, walk_pd}
use reaveros_iteration.Paging.Walk.Keeps.{
  page, cursor, IsCursor, Invariants, Keeps, same_page-page, page-lt, past_pt,
}

module _ {S : Type 0} (bodies : Bodies S) (end : Cursor) where
  open bodies use {at_pml4, at_pdpt, at_pd}

  pub walk_pd-next :
      (fuel : ℕ) (c c' : Cursor) (s s₁ s₂ : S)
      → same_page c end ≡ false
      → leb 512 c.pde ≡ false
      → at_pd c.pml4e c.pdpte c.pde s ≡ ok s₁
      → walk_pt bodies end 513 c s₁ ≡ ok (c', s₂)
      → same_page c' end ≡ false
      → walk_pd bodies end (suc fuel) c s
        ≡ walk_pd bodies end fuel (record c' { pde = c'.pde + 1; pte = 0 }) s₂
  unfolding walk_pd
  walk_pd-next fuel c c' s s₁ s₂ more room run₁ run₂ more' = ground arith

module _ {S : Type 0} (bodies : Bodies S) (end : Cursor) (inv : Invariants S)
    (keeps : Keeps bodies end inv) (inside : IsCursor end) where
  open inv use {holds, has_pdpt, has_pd, has_pt}

  -- either the end is reached, or the table is walked through
  abbrev pub EndOr : Cursor → Cursor × S → Type 0 → Type 0
  EndOr c r tables =
      ((same_page r.0 end ≡ true) × holds (page end) r.1)
      ⊎ ((r.0 ≡ c) × (page c ≤ page end) × holds (page c) r.1 × tables)

  abbrev pub Returns : Run (Cursor × S) → (Cursor × S → Type 0) → Type 0
  Returns m post = (r : Cursor × S) × (m ≡ ok r) × post r

  pub walk_pt-keeps :
      (fuel a b c d : ℕ) (s : S)
      → a < 512
      → b < 512
      → c < 512
      → d ≤ 512
      → 512 < d + fuel
      → page (cursor a b c d) ≤ page end
      → holds (page (cursor a b c d)) s
      → has_pdpt a s
      → has_pd a b s
      → has_pt a b c s
      → Returns
          (walk_pt bodies end fuel (cursor a b c d) s)
          (λ r. EndOr (cursor a b c 512) r (has_pdpt a r.1 × has_pd a b r.1 × has_pt a b c r.1))
  unfolding walk_pt
  walk_pt-keeps zero a b c d s la lb lc ld enough le h ha hb hc = absurd (omega arith)
  walk_pt-keeps (suc fuel) a b c d s la lb lc ld enough le h ha hb hc =
      elim (Bool-cases (same_page (cursor a b c d) end)) [
        | inl done ↦ (
          (cursor a b c d, s),
          ground arith,
          inl (done, subst (λ n. holds n s) (same_page-page (cursor a b c d) end done) h),
        )
        | inr more ↦ elim (Bool-cases (leb 512 d)) [
          | inl full ↦
              let e : d ≡ 512 = ground arith in
              (
                (cursor a b c d, s),
                ground arith,
                inr (
                  ap (cursor a b c) e,
                  subst (λ n. page (cursor a b c n) ≤ page end) e le,
                  subst (λ n. holds (page (cursor a b c n)) s) e h,
                  (ha, hb, hc),
                ),
              )
          | inr room ↦
              let ld' : d < 512 = ground arith in
              let lt = page-lt (cursor a b c d) end (la, lb, lc, ld') inside more le in
              let (s', run, h', ha', hb', hc') =
                keeps.keeps_page a b c d s (la, lb, lc, ld') lt h ha hb hc in
              let (r, rest, post) =
                walk_pt-keeps fuel a b c (d + 1) s' la lb lc (omega arith) (omega arith)
                  (omega (arith, lt)) (subst (λ n. holds n s') (omega arith) h') ha' hb' hc' in
              (r, ground (arith, run, rest), post)
        ]
      ]

  pub walk_pd-keeps :
      (fuel a b c d : ℕ) (s : S)
      → a < 512
      → b < 512
      → c ≤ 512
      → d < 512
      → (c ≡ 512 → d ≡ 0)
      → 512 < c + fuel
      → page (cursor a b c d) ≤ page end
      → holds (page (cursor a b c d)) s
      → has_pdpt a s
      → has_pd a b s
      → Returns
          (walk_pd bodies end fuel (cursor a b c d) s)
          (λ r. EndOr (cursor a b 512 0) r (has_pdpt a r.1 × has_pd a b r.1))
  unfolding walk_pd
  walk_pd-keeps zero a b c d s la lb lc ld start enough le h ha hb = absurd (omega arith)
  walk_pd-keeps (suc fuel) a b c d s la lb lc ld start enough le h ha hb =
      elim (Bool-cases (same_page (cursor a b c d) end)) [
        | inl done ↦ (
          (cursor a b c d, s),
          ground arith,
          inl (done, subst (λ n. holds n s) (same_page-page (cursor a b c d) end done) h),
        )
        | inr more ↦ elim (Bool-cases (leb 512 c)) [
          | inl full ↦
              let e : cursor a b c d ≡ cursor a b 512 0 = ground (arith, start) in
              (
                (cursor a b c d, s),
                ground arith,
                inr (
                  e,
                  subst (λ t. page t ≤ page end) e le,
                  subst (λ t. holds (page t) s) e h,
                  (ha, hb),
                ),
              )
          | inr room ↦
              let lc' : c < 512 = ground arith in
              let lt = page-lt (cursor a b c d) end (la, lb, lc', ld) inside more le in
              let (s₁, run₁, h₁, ha₁, hb₁, hc₁) =
                keeps.keeps_pd a b c d s (la, lb, lc', ld) lt h ha hb in
              let ((c', s₂), run₂, post) =
                walk_pt-keeps 513 a b c d s₁ la lb lc' (omega arith) (omega arith) le h₁ ha₁ hb₁
                  hc₁ in
              elim post [
                | inl (done, stop) ↦ ((c', s₂), ground (arith, run₁, run₂, done), inl (done, stop))
                | inr (e, le', h', (ha', hb', _)) ↦
                    let (r, rest, post') =
                      walk_pd-keeps fuel a b (c + 1) 0 s₂ la lb (omega arith) (omega arith)
                        (λ _. refl) (omega arith) (omega (arith, le'))
                        (subst (λ n. holds n s₂) (omega arith) h') ha' hb' in
                    (
                      r,
                      walk_pd-next bodies end fuel (cursor a b c d) (cursor a b c 512) s s₁ s₂ more
                            room run₁
                            (subst (λ t. walk_pt bodies end 513 (cursor a b c d) s₁ ≡ ok (t, s₂)) e
                              run₂)
                            (past_pt a b c end inside)
                          ∙ rest,
                      post',
                    )
              ]
        ]
      ]
