-- ===== src/Paging/Walk.antt =====
-- The four nested loops that `map` and `unmap` share, in kernel/memory/x64paging.cpp and in
-- loader/booter/memory/x64paging.cpp, over what the loop bodies do.
pub mod Keeps
mod Inner
pub mod Rule
use reaveros_iteration.Common.{
  ℕ, zero, suc, ◌+◌, ◌*◌, ◌/◌, ◌%◌, ◌^◌, Bool, true, false, ◌&&◌, ◌||◌, Run, ok, out_of_fuel, ◌>>=◌,
  ◌==◌, leb, if◌then◌else◌,
}

-- `startpml4e`, `startpdpte`, `startpde` and `startpte`, and the same of the end
pub record Cursor : Type 0 where
  pub pml4e : ℕ
  pub pdpte : ℕ
  pub pde : ℕ
  pub pte : ℕ

-- `(address >> 39) & 511` and so on
abbrev pub cursor_of : ℕ → Cursor
cursor_of address = record {
  pml4e = address / 2 ^ 39 % 512;
  pdpte = address / 2 ^ 30 % 512;
  pde = address / 2 ^ 21 % 512;
  pte = address / 2 ^ 12 % 512;
}

-- `startpml4e == endpml4e && startpdpte == endpdpte && startpde == endpde && startpte == endpte`
abbrev pub same_page : Cursor → Cursor → Bool
same_page c e = c.pml4e == e.pml4e && (c.pdpte == e.pdpte && (c.pde == e.pde && c.pte == e.pte))

-- What the bodies do to a state, at the head of each loop and for each page.
pub record Bodies (S : Type 0) : Type 0 where
  pub at_pml4 : ℕ → S → Run S
  pub at_pdpt : ℕ → ℕ → S → Run S
  pub at_pd : ℕ → ℕ → ℕ → S → Run S
  pub at_page : ℕ → ℕ → ℕ → ℕ → S → Run S

module _ {S : Type 0} (bodies : Bodies S) (end : Cursor) where
  open bodies use {at_pml4, at_pdpt, at_pd, at_page}

  -- `while (!same && startpte < 512)`
  unfoldable pub walk_pt : ℕ → Cursor → S → Run (Cursor × S)
  walk_pt zero c s = out_of_fuel
  walk_pt (suc fuel) c s =
      if same_page c end || leb 512 c.pte
      then ok (c, s)
      else (at_page c.pml4e c.pdpte c.pde c.pte s >>= λ s'.
          walk_pt fuel (record c { pte = c.pte + 1 }) s')

  -- `while (!same && startpde < 512)`; at the end a loop returns, and so do those around it
  unfoldable pub walk_pd : ℕ → Cursor → S → Run (Cursor × S)
  walk_pd zero c s = out_of_fuel
  walk_pd (suc fuel) c s =
      if same_page c end || leb 512 c.pde
      then ok (c, s)
      else (at_pd c.pml4e c.pdpte c.pde s >>= λ s₁. walk_pt 513 c s₁ >>= λ (c', s₂).
          elim (same_page c' end) [
            | true ↦ ok (c', s₂)
            | false ↦ walk_pd fuel (record c' { pde = c'.pde + 1; pte = 0 }) s₂
          ])

  -- `while (!same && startpdpte < 512)`
  unfoldable pub walk_pdpt : ℕ → Cursor → S → Run (Cursor × S)
  walk_pdpt zero c s = out_of_fuel
  walk_pdpt (suc fuel) c s =
      if same_page c end || leb 512 c.pdpte
      then ok (c, s)
      else (at_pdpt c.pml4e c.pdpte s >>= λ s₁. walk_pd 513 c s₁ >>= λ (c', s₂).
          elim (same_page c' end) [
            | true ↦ ok (c', s₂)
            | false ↦ walk_pdpt fuel (record c' { pdpte = c'.pdpte + 1; pde = 0 }) s₂
          ])

  -- `while (!same)`
  unfoldable pub walk_pml4 : ℕ → Cursor → S → Run S
  walk_pml4 zero c s = out_of_fuel
  walk_pml4 (suc fuel) c s =
      if same_page c end
      then ok s
      else (at_pml4 c.pml4e s >>= λ s₁. walk_pdpt 513 c s₁ >>= λ (c', s₂). elim (same_page c' end) [
        | true ↦ ok s₂
        | false ↦ walk_pml4 fuel (record c' { pml4e = c'.pml4e + 1; pdpte = 0 }) s₂
      ])

  unfoldable pub walk : Cursor → S → Run S
  unfolding walk_pml4
  walk = walk_pml4 513
