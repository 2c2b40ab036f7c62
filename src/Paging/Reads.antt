-- ===== src/Paging/Reads.antt =====
-- The kernel's page tables read as a view, and what the steps of `map` do to it.
use reaveros_iteration.Common.{
  ℕ, ◌*◌, ◌/◌, ◌%◌, ◌^◌, ◌<◌, ◌≡◌, ◌≢◌, ◌⊎◌, inl, inr, refl, sym, ap, subst, ◌∙◌, Bool, arith,
  Bool-cases,
}
use reaveros_iteration.Paging.Tree.{View, Adds, Sets}
use reaveros_iteration.Paging.Tree.Maps.{Reading, Makes, Apart}
use reaveros_iteration.Paging.Tables.{
  Space, assign, set_entry, set_rights, add_table, ensure_table, slot, pml4_of,
}
use reaveros_iteration.Paging.Map.{Mapping}

-- `(*pt)[startpte] = physical_start` and the rights
abbrev pub set_page : Space → ℕ → ℕ → ℕ → Bool → Bool → Space
set_page s f d to user read_write =
    set_rights (set_entry s f d (assign (s.table f d) (to * 4096))) f d user read_write

module _ (foreign : Bool) where
  -- the address space that is worked on
  abbrev pub view_of : Space → View
  view_of s = record {
    present = λ f i. (s.table f i).present;
    address = λ f i. (s.table f i).address;
    root = pml4_of s foreign;
  }

  -- the frames that `pmm::pop` will return
  abbrev pub frames : Space → ℕ → ℕ
  frames s k = s.supply k / 4096 % 2 ^ 40

  -- the supply, the PML4 in use and the one that is worked on are those of `s₀`
  abbrev pub Same : Space → Space → Type 0
  Same s₀ s = (s.supply ≡ s₀.supply) × (s.root ≡ s₀.root) × (pml4_of s foreign ≡ pml4_of s₀ foreign)

  abbrev pub reading : Space → Reading Mapping
  reading s₀ = record {
    view = λ m. view_of m.space;
    taken = λ m. m.space.popped;
    physical = λ m. m.physical;
    sound = λ m. Same s₀ m.space;
  }

  -- `f` and `i` name no entry that the processor uses to reach the tables
  abbrev pub Elsewhere : Space → ℕ → ℕ → Type 0
  Elsewhere s f i = (f ≢ s.root) ⊎ (i ≢ slot foreign)

  set_rights-view :
      (s : Space) (f i : ℕ) (user read_write : Bool)
      → view_of (set_rights s f i user read_write) ≡ view_of s
  set_rights-view s f i user read_write =
      let present : (g j : ℕ)
          → ((set_rights s f i user read_write).table g j).present ≡ (s.table g j).present =
        λ g j. ground arith in
      let address : (g j : ℕ)
          → ((set_rights s f i user read_write).table g j).address ≡ (s.table g j).address =
        λ g j. ground arith in
      λ k. record {
        present = λ g j. present g j k;
        address = λ g j. address g j k;
        root = address s.root (slot foreign) k;
      }

  add_table-Adds :
      (s : Space) (f i : ℕ)
      → Elsewhere s f i
      → frames s s.popped ≢ s.root
      → frames s s.popped ≢ f
      → Adds (view_of s) (view_of (add_table s f i)) f i (frames s s.popped)
  add_table-Adds s f i away ne ne' = record {
    root = ground (arith, away);
    present = λ g j. ground arith;
    address = λ g j n. ground arith;
  }

  pub ensure_table-Makes :
      (s₀ : Space) (m : Mapping) (f i : ℕ) (user read_write : Bool)
      → Same s₀ m.space
      → Elsewhere s₀ f i
      → Apart (reading s₀) (frames s₀) s₀.root f i m
      → Makes
          (reading s₀)
          (frames s₀)
          s₀.root
          f
          i
          m
          (record m { space = set_rights (ensure_table m.space f i) f i user read_write })
  ensure_table-Makes s₀ m f i user read_write (supply, root, top) away apart =
      let after : Space → Mapping = λ t. record m { space = set_rights t f i user read_write } in
      elim (Bool-cases (m.space.table f i).present) [
        | inl there ↦
            let e : ensure_table m.space f i ≡ m.space = rw there in
            let same = set_rights-view m.space f i user read_write in
            subst (λ t. Makes (reading s₀) (frames s₀) s₀.root f i m (after t)) (sym e)
              ((supply, root, ap (λ v. v.root) same ∙ top), refl, inl (there, same, refl))
        | inr absent ↦
            let e : ensure_table m.space f i ≡ add_table m.space f i = rw absent in
            let same = set_rights-view (add_table m.space f i) f i user read_write in
            let new : frames m.space m.space.popped ≡ frames s₀ m.space.popped =
              ap (λ (g : ℕ → ℕ). g m.space.popped / 4096 % 2 ^ 40) supply in
            let adds =
              add_table-Adds m.space f i (subst (λ t. (f ≢ t) ⊎ (i ≢ slot foreign)) (sym root) away)
                (λ h. (apart absent).0 (sym new ∙ h ∙ root))
                (λ h. (apart absent).1 (sym new ∙ h)) in
            let adds' =
              subst (λ n. Adds (view_of m.space) (view_of (add_table m.space f i)) f i n) new
                adds in
            subst (λ t. Makes (reading s₀) (frames s₀) s₀.root f i m (after t)) (sym e)
              (
                (supply, root, ap (λ v. v.root) same ∙ adds.root ∙ top),
                refl,
                inr (
                  absent,
                  subst (λ v. Adds (view_of m.space) v f i (frames s₀ m.space.popped)) (sym same)
                      adds',
                  refl,
                ),
              )
      ]

  pub set_page-Sets :
      (s : Space) (f d to : ℕ) (user read_write : Bool)
      → to < 2 ^ 40
      → f ≢ s.root
      → Sets (view_of s) (view_of (set_page s f d to user read_write)) f d to
  set_page-Sets s f d to user read_write low ne = record {
    root = ground arith;
    present = λ g j. ground arith;
    address = λ g j. ground arith;
  }
