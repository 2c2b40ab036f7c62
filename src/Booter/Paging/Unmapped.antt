-- ===== src/Booter/Paging/Unmapped.antt =====
-- `pml4::unmap` of loader/booter/memory/x64paging.cpp.
use reaveros_iteration.Common.{ℕ, ◌≤◌, ◌≡◌, refl, sym, false, arith, ok}
use reaveros_iteration.Paging.Tree.{View, HasTree, Clears}
use reaveros_iteration.Paging.Tree.Goal.{Allowed}
use reaveros_iteration.Paging.Tree.Range.{IsRange}
use reaveros_iteration.Paging.Tree.Unmapped.{AllMapped, Unmapped, Removes, walk-Unmapped}
use reaveros_iteration.Booter.Paging.{
  Space, set_entry, unmap_pml4, unmap_pdpt, unmap_pd, unmap_page, unmap_bodies, unmap,
}
use reaveros_iteration.Booter.Paging.Mapped.{view_of}

set_absent-Clears :
    (s : Space) (f d : ℕ)
    → Clears (view_of s) (view_of (set_entry s f d (record (s.table f d) { present = false }))) f d
set_absent-Clears s f d = record {
  root = refl;
  present = λ g j. ground arith;
  address = λ g j. ground arith;
}

unmap-Removes :
    (home : ℕ) (In : ℕ → Type 0) (first last : ℕ) (v₀ : View)
    → Removes unmap_bodies view_of (λ n s. Unit {0}) home In first last v₀
unfolding unmap_pml4 unmap_pdpt unmap_pd unmap_page
unmap-Removes home In first last v₀ = record {
  meets_pdpt = λ n a s _ there. rw there;
  meets_pd = λ n a b s _ there. rw there;
  meets_pt = λ n a b c s _ there. rw there;
  clears_page = λ a b c d f s ia inside lo more _ way ne there found. (
    set_entry s f d (record (s.table f d) { present = false }),
    rw (sym way, there),
    tt,
    set_absent-Clears s f d,
  );
}

-- unmap of a range of mapped pages
pub unmap-Unmapped_loader :
    (s : Space) (In : ℕ → Type 0) (virtual_start virtual_end first last : ℕ)
    → IsRange virtual_start virtual_end first last
    → virtual_start ≤ virtual_end
    → HasTree In s.root (view_of s)
    → Allowed In first last
    → AllMapped In first last (view_of s)
    → (s' : Space) × (unmap s virtual_start virtual_end ≡ ok s')
      × Unmapped In first last (view_of s) (view_of s')
unfolding unmap
unmap-Unmapped_loader s In virtual_start virtual_end first last range up (role, tree, home) allowed
      mapped =
    let (s', run, _, unmapped) =
      walk-Unmapped unmap_bodies view_of (λ n t. Unit {0}) s.root In first last (view_of s)
        (unmap-Removes s.root In first last (view_of s)) role home allowed mapped virtual_start
        virtual_end s range up refl tt tree in
    (s', run, unmapped)
