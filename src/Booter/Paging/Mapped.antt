-- ===== src/Booter/Paging/Mapped.antt =====
-- `pml4::map` of loader/booter/memory/x64paging.cpp maps its range and nothing else.
use reaveros_iteration.Common.{
  page_down, ℕ, ◌+◌, ◌-◌, ◌*◌, ◌/◌, ◌%◌, ◌^◌, ◌≤◌, ◌<◌, ◌≡◌, inl, inr, refl, sym, subst, true,
  false, ok, arith, Bool-cases, page_down, add64, page_up, leb, ◌==◌, ◌&&◌, not,
}
use reaveros_iteration.Paging.Walk.{walk, cursor_of}
use reaveros_iteration.Paging.Tree.{View, Role, unused, IsTree, HasTree, Adds, Sets}
use reaveros_iteration.Paging.Tree.Maps.{Reading, Maps, Makes}
use reaveros_iteration.Paging.Tree.Progress.{AllDifferent}
use reaveros_iteration.Paging.Tree.Goal.{Clear, Allowed, Mapped}
use reaveros_iteration.Paging.Tree.Range.{IsRange, empty-Mapped, walk-Mapped}
use reaveros_iteration.Booter.Paging.{
  Space, entry_of, set_entry, add_table, ensure_table, Mapping, map_pml4, map_pdpt, map_pd,
  map_page, map_bodies, map, pdpt_of, pd_of, pt_of,
}

abbrev pub view_of : Space → View
view_of s = record {
  present = λ f i. (s.table f i).present;
  address = λ f i. (s.table f i).address;
  root = s.root;
}

-- the frames that `new` will return
abbrev pub frames : Space → ℕ → ℕ
frames s k = s.supply k / 4096 % 2 ^ 40

-- the supply is that of the space `s₀`
abbrev pub reading : Space → Reading Mapping
reading s₀ = record {
  view = λ m. view_of m.space;
  taken = λ m. m.space.taken;
  physical = λ m. m.physical;
  sound = λ m. m.space.supply ≡ s₀.supply;
}

add_table-Adds :
    (s : Space) (f i : ℕ) → Adds (view_of s) (view_of (add_table s f i)) f i (frames s s.taken)
add_table-Adds s f i = record {
  root = refl;
  present = λ g j. ground arith;
  address = λ g j ne. ground arith;
}

ensure_table-Makes :
    (s₀ : Space) (m : Mapping) (f i : ℕ)
    → m.space.supply ≡ s₀.supply
    → Makes (reading s₀) (frames s₀) s₀.root f i m (record m { space = ensure_table m.space f i })
ensure_table-Makes s₀ m f i same = elim (Bool-cases (m.space.table f i).present) [
  | inl there ↦
      let e : ensure_table m.space f i ≡ m.space = rw there in
      subst (λ t. Makes (reading s₀) (frames s₀) s₀.root f i m (record m { space = t })) (sym e)
        (same, refl, inl (there, refl, refl))
  | inr absent ↦
      let e : ensure_table m.space f i ≡ add_table m.space f i = rw absent in
      let adds =
        subst
          (λ (g : ℕ → ℕ).
            Adds (view_of m.space) (view_of (add_table m.space f i)) f i
              (g m.space.taken / 4096 % 2 ^ 40))
          same (add_table-Adds m.space f i) in
      subst (λ t. Makes (reading s₀) (frames s₀) s₀.root f i m (record m { space = t })) (sym e)
        (same, refl, inr (absent, adds, refl))
]

set_entry-Sets :
    (s : Space) (f d to : ℕ)
    → to < 2 ^ 40
    → Sets (view_of s) (view_of (set_entry s f d (entry_of (to * 4096)))) f d to
set_entry-Sets s f d to low = record {
  root = refl;
  present = λ g j. ground arith;
  address = λ g j. ground arith;
}

map_page-Sets :
    (a b c d f to : ℕ) (m : Mapping)
    → f ≡ pt_of m.space a b c
    → m.physical ≡ to * 4096
    → to < 2 ^ 40
    → ((m.space.table f d).present ≡ true → (m.space.table f d).address ≡ to)
    → map_page a b c d m
      ≡ ok (record {
        space = set_entry m.space f d (entry_of (to * 4096));
        virtual = add64 m.virtual 4096;
        physical = add64 m.physical 4096;
      })
unfolding map_page
map_page-Sets a b c d f to m way phys low fits =
    let e = m.space.table (pt_of m.space a b c) d in
    let fits' : e.present ≡ true → e.address ≡ to =
      subst (λ t. (m.space.table t d).present ≡ true → (m.space.table t d).address ≡ to) way fits in
    let guard : (e.present && not (m.physical == e.address * 4096)) ≡ false =
      ground (arith, fits', phys) in
    rw (guard, way, phys)

map-Maps :
    (In : ℕ → Type 0) (s₀ : Space) → Maps map_bodies (reading s₀) In (frames s₀) (2 ^ 40) s₀.root
unfolding map_pml4 map_pdpt map_pd
map-Maps In s₀ = record {
  makes_pdpt = λ a m sound ia apart. (_, refl, ensure_table-Makes s₀ m m.space.root a sound);
  makes_pd = λ a b f m sound way ne apart. (
    _,
    refl,
    subst
        (λ t.
          Makes (reading s₀) (frames s₀) s₀.root t b m
            (record m { space = ensure_table m.space (pdpt_of m.space a) b }))
        way (ensure_table-Makes s₀ m (pdpt_of m.space a) b sound),
  );
  makes_pt = λ a b c f m sound way ne apart. (
    _,
    refl,
    subst
        (λ t.
          Makes (reading s₀) (frames s₀) s₀.root t c m
            (record m { space = ensure_table m.space (pd_of m.space a b) c }))
        way (ensure_table-Makes s₀ m (pd_of m.space a b) c sound),
  );
  sets_page = λ a b c d f to m sound way ne phys low fits. (
    _,
    map_page-Sets a b c d f to m way phys low fits,
    sound,
    omega (arith, phys),
    refl,
    set_entry-Sets m.space f d to low,
  );
}

module _ (s : Space) (virtual_start virtual_end physical : ℕ) where
  map_empty :
      leb (page_up virtual_end) (page_down virtual_start) ≡ true
      → map s virtual_start virtual_end physical ≡ ok s
  unfolding map
  map_empty empty = rw empty

  map_walk :
      (m : Mapping)
      → leb (page_up virtual_end) (page_down virtual_start) ≡ false
      → walk map_bodies
          (cursor_of (page_up virtual_end))
          (cursor_of (page_down virtual_start))
          (record { space = s; virtual = page_down virtual_start; physical = physical })
        ≡ ok m
      → map s virtual_start virtual_end physical ≡ ok m.space
  unfolding map
  map_walk m more run = rw (more, run)

-- The loader's pml4::map of a range, to a physical address at the start of a page, that stays
-- within one block of 2^48 bytes and does not wrap around returns: afterwards the processor's walk
-- finds every page of the range at the frame that the range gives it, all other pages are as
-- before, and the tables still form a tree. Before, the tables form a tree, the pages that new will
-- return are different and unused, three for each page, the frame numbers fit in 40 bits, and a
-- page of the range is mapped only to the frame it is to get.
pub map-Mapped_loader :
    (s : Space) (In : ℕ → Type 0) (role : ℕ → Role)
    (limit virtual_start virtual_end frame first last : ℕ)
    → IsRange virtual_start virtual_end first last
    → IsTree In (view_of s) role
    → AllDifferent (frames s) limit
    → ((k : ℕ) → s.taken ≤ k → k < limit → role (frames s k) ≡ unused)
    → s.taken + 3 * (last - first) ≤ limit
    → frame + (last - first) ≤ 2 ^ 40
    → Allowed In first last
    → Clear In first last frame (view_of s)
    → (s' : Space) × (map s virtual_start virtual_end (frame * 4096) ≡ ok s')
      × HasTree In s.root (view_of s')
      × Mapped In first last frame (view_of s) (view_of s')
map-Mapped_loader s In role limit virtual_start virtual_end frame first last range tree different
      free room below allowed clear =
    elim (Bool-cases (leb (page_up virtual_end) (page_down virtual_start))) [
      | inl empty ↦ (
        s,
        map_empty s virtual_start virtual_end (frame * 4096) empty,
        (role, tree, tree.top),
        empty-Mapped virtual_start virtual_end first last range In frame (view_of s) empty,
      )
      | inr more ↦
          let (m, run, tree', _, mapped) =
            walk-Mapped virtual_start virtual_end first last range map_bodies (reading s) In
              (frames s) role limit frame (2 ^ 40) s.root
              (record { space = s; virtual = page_down virtual_start; physical = frame * 4096 })
              more (map-Maps In s) tree tree.top refl refl different free room below allowed
              clear in
          (m.space, map_walk s virtual_start virtual_end (frame * 4096) m more run, tree', mapped)
    ]
