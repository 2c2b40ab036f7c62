-- ===== src/Paging/Unmapped.antt =====
-- `unmap` of kernel/memory/x64paging.cpp, on its own and after `map`.
use reaveros_iteration.Common.{
  zero, suc, List, ◌∷◌, some, ℕ, ◌+◌, ◌*◌, ◌≤◌, ◌<◌, ◌≡◌, ◌≢◌, inl, inr, refl, sym, subst, ◌∙◌,
  Bool, none, arith, ok, if◌then◌else◌, Bool-cases,
}
use reaveros_iteration.Paging.Walk.Keeps.{cursor, IsCursor}
use reaveros_iteration.Paging.Tree.{View, HasTree, Clears, frame_of}
use reaveros_iteration.Paging.Tree.Progress.{number}
use reaveros_iteration.Paging.Tree.Goal.{Allowed, Mapped}
use reaveros_iteration.Paging.Tree.Range.{IsRange}
use reaveros_iteration.Paging.Tree.Unmapped.{AllMapped, Unmapped, Removes, walk-Unmapped}
use reaveros_iteration.Paging.Tables.{Space}
use reaveros_iteration.Paging.Unmap.{
  push_frame, set_absent, unmap_pml4, unmap_pdpt, unmap_pd, unmap_page, unmap_bodies, unmap,
}
use reaveros_iteration.Paging.Reads.{view_of}

-- What `expect` says of the frames given back before each page of a range, it says after it.
abbrev pub GivesBack :
    (push : Bool) (In : ℕ → Type 0) (first last : ℕ) → View → (ℕ → List ℕ) → Type 0
GivesBack push In first last v expect =
    (a b c d g : ℕ)
    → In a
    → IsCursor (cursor a b c d)
    → first ≤ number a b c d
    → number a b c d < last
    → frame_of v a b c d ≡ some g
    → expect (number a b c d + 1)
      ≡ (if push then g * 4096 ∷ expect (number a b c d) else expect (number a b c d))

module _ (push foreign : Bool) where
  set_absent-Clears :
      (s : Space) (f d : ℕ)
      → f ≢ s.root
      → Clears (view_of foreign s) (view_of foreign (set_absent s f d)) f d
  set_absent-Clears s f d ne = record {
    root = ground arith;
    present = λ g j. ground arith;
    address = λ g j. ground arith;
  }

  -- the space after a page, which `push` leaves or adds to the frames that are given back
  abbrev after : Space → ℕ → ℕ → Space
  after s f d =
      if push
      then push_frame (set_absent s f d) ((s.table f d).address * 4096)
      else set_absent s f d

  after-view :
      (s : Space) (f d : ℕ) → view_of foreign (after s f d) ≡ view_of foreign (set_absent s f d)
  after-view s f d = elim (Bool-cases push) [ inl e ↦ rw e | inr e ↦ rw e ]

  after-pushed :
      {expected : List ℕ} (s : Space) (f d : ℕ)
      → s.pushed ≡ expected
      → (after s f d).pushed ≡ (if push then (s.table f d).address * 4096 ∷ expected else expected)
  after-pushed s f d e = elim (Bool-cases push) [ inl y ↦ rw (y, e) | inr y ↦ rw (y, e) ]

  unmap-Removes :
      (s₀ : Space) (In : ℕ → Type 0) (first last : ℕ) (v₀ : View) (expect : ℕ → List ℕ)
      → GivesBack push In first last v₀ expect
      → Removes
          (unmap_bodies push foreign)
          (view_of foreign)
          (λ n s. (s.root ≡ s₀.root) × (s.pushed ≡ expect n))
          s₀.root
          In
          first
          last
          v₀
  unfolding unmap_pml4 unmap_pdpt unmap_pd unmap_page
  unmap-Removes s₀ In first last v₀ expect gives = record {
    meets_pdpt = λ n a s same there. rw there;
    meets_pd = λ n a b s same there. rw there;
    meets_pt = λ n a b c s same there. rw there;
    clears_page = λ a b c d f s ia inside lo more same way ne there found.
        let clears = set_absent-Clears s f d (λ e. ne (e ∙ same.0)) in
        let next = gives a b c d (s.table f d).address ia inside lo more found in
        (
          after s f d,
          rw (sym way, there),
          (ground (arith, same.0), after-pushed s f d (same.1) ∙ sym next),
          subst (λ v. Clears (view_of foreign s) v f d) (sym (after-view s f d)) clears,
        );
  }

  -- unmap of a range of mapped pages
  pub unmap-Unmapped :
      (s : Space) (In : ℕ → Type 0) (virtual_start virtual_end first last : ℕ) (expect : ℕ → List ℕ)
      → IsRange virtual_start virtual_end first last
      → virtual_start ≤ virtual_end
      → HasTree In s.root (view_of foreign s)
      → Allowed In first last
      → AllMapped In first last (view_of foreign s)
      → s.pushed ≡ expect first
      → GivesBack push In first last (view_of foreign s) expect
      → (s' : Space) × (unmap push foreign s virtual_start virtual_end ≡ ok s')
        × (s'.pushed ≡ expect last)
        × Unmapped In first last (view_of foreign s) (view_of foreign s')
  unfolding unmap
  unmap-Unmapped s In virtual_start virtual_end first last expect range up (role, tree, home)
        allowed mapped start gives =
      let (s', run, kept, unmapped) =
        walk-Unmapped (unmap_bodies push foreign) (view_of foreign)
          (λ n t. (t.root ≡ s.root) × (t.pushed ≡ expect n)) s.root In first last
          (view_of foreign s) (unmap-Removes s In first last (view_of foreign s) expect gives) role
          home allowed mapped virtual_start virtual_end s range up refl (refl, start) tree in
      (s', run, kept.1, unmapped)

-- No page of the range is mapped.
abbrev pub Fresh : (ℕ → Type 0) → ℕ → ℕ → View → Type 0
Fresh In first last v =
    (a b c d : ℕ)
    → In a
    → b < 512
    → c < 512
    → d < 512
    → first ≤ number a b c d
    → number a b c d < last
    → frame_of v a b c d ≡ none

-- the same pages are mapped, to the same frames
abbrev pub SamePages : (ℕ → Type 0) → View → View → Type 0
SamePages In v v' =
    (a b c d : ℕ) → In a → b < 512 → c < 512 → d < 512 → frame_of v' a b c d ≡ frame_of v a b c d

-- the frames of `k` pages from `frame` on, given back one by one
abbrev pub give_back : Bool → (frame : ℕ) → List ℕ → ℕ → List ℕ
give_back push frame pushed zero = pushed
give_back push frame pushed (suc k) =
    if push
    then (frame + k) * 4096 ∷ give_back push frame pushed k
    else give_back push frame pushed k
