-- ===== src/Paging/Walk/Keeps.antt =====
-- What an invariant rule for the page walk asks of the loop bodies, and cursors as page numbers.
use reaveros_iteration.Common.{ℕ, ◌+◌, ◌*◌, ◌≤◌, ◌<◌, ◌≡◌, true, false, arith, ok}
use reaveros_iteration.Paging.Walk.{Cursor, same_page, Bodies}

-- the page number that a cursor stands for
abbrev pub page : Cursor → ℕ
page c = ((c.pml4e * 512 + c.pdpte) * 512 + c.pde) * 512 + c.pte

abbrev pub cursor : ℕ → ℕ → ℕ → ℕ → Cursor
cursor a b c d = record { pml4e = a; pdpte = b; pde = c; pte = d }

abbrev pub IsCursor : Cursor → Type 0
IsCursor c = (c.pml4e < 512) × (c.pdpte < 512) × (c.pde < 512) × (c.pte < 512)

-- the invariant before page `n`, and what the heads of the loops establish for the tables on the way
pub record Invariants (S : Type 0) : Type 1 where
  pub holds : ℕ → S → Type 0
  pub has_pdpt : ℕ → S → Type 0
  pub has_pd : ℕ → ℕ → S → Type 0
  pub has_pt : ℕ → ℕ → ℕ → S → Type 0

module _ {S : Type 0} (bodies : Bodies S) (end : Cursor) (inv : Invariants S) where
  open bodies use {at_pml4, at_pdpt, at_pd, at_page}
  open inv use {holds, has_pdpt, has_pd, has_pt}

  -- each body returns and keeps the invariant, on the way to a page before the end
  pub record Keeps : Type 0 where
    pub keeps_pml4 :
        (a b c d : ℕ) (s : S)
        → IsCursor (cursor a b c d)
        → page (cursor a b c d) < page end
        → holds (page (cursor a b c d)) s
        → (s' : S) × (at_pml4 a s ≡ ok s') × holds (page (cursor a b c d)) s' × has_pdpt a s'
    pub keeps_pdpt :
        (a b c d : ℕ) (s : S)
        → IsCursor (cursor a b c d)
        → page (cursor a b c d) < page end
        → holds (page (cursor a b c d)) s
        → has_pdpt a s
        → (s' : S) × (at_pdpt a b s ≡ ok s')
          × holds (page (cursor a b c d)) s'
          × has_pdpt a s'
          × has_pd a b s'
    pub keeps_pd :
        (a b c d : ℕ) (s : S)
        → IsCursor (cursor a b c d)
        → page (cursor a b c d) < page end
        → holds (page (cursor a b c d)) s
        → has_pdpt a s
        → has_pd a b s
        → (s' : S) × (at_pd a b c s ≡ ok s')
          × holds (page (cursor a b c d)) s'
          × has_pdpt a s'
          × has_pd a b s'
          × has_pt a b c s'
    pub keeps_page :
        (a b c d : ℕ) (s : S)
        → IsCursor (cursor a b c d)
        → page (cursor a b c d) < page end
        → holds (page (cursor a b c d)) s
        → has_pdpt a s
        → has_pd a b s
        → has_pt a b c s
        → (s' : S) × (at_page a b c d s ≡ ok s')
          × holds (page (cursor a b c d) + 1) s'
          × has_pdpt a s'
          × has_pd a b s'
          × has_pt a b c s'

pub same_page-page : (c e : Cursor) → same_page c e ≡ true → page c ≡ page e
same_page-page c e h = ground arith

pub page-lt :
    (c e : Cursor)
    → IsCursor c
    → IsCursor e
    → same_page c e ≡ false
    → page c ≤ page e
    → page c < page e
page-lt c e hc he h le = ground arith

module _ (a b c : ℕ) (end : Cursor) (inside : IsCursor end) where
  pub past_pt : same_page (cursor a b c 512) end ≡ false
  past_pt = ground arith

  pub past_pd : same_page (cursor a b 512 0) end ≡ false
  past_pd = ground arith

  pub past_pdpt : same_page (cursor a 512 0 0) end ≡ false
  past_pdpt = ground arith
