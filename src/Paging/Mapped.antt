-- ===== src/Paging/Mapped.antt =====
-- `memory::x64::map` of kernel/memory/x64paging.cpp maps its range and nothing else.
use reaveros_iteration.Common.{
  ℕ, ◌+◌, ◌-◌, ◌*◌, ◌^◌, ◌≤◌, ◌<◌, ◌≡◌, inl, inr, refl, sym, subst, ◌∙◌, true, false, ok, arith,
  Bool-cases, page_down, add64, page_up, leb, ◌==◌, ◌&&◌, not,
}
use reaveros_iteration.Paging.Walk.{walk, cursor_of}
use reaveros_iteration.Paging.Tree.{Role, unused, pml4, IsTree, HasTree}
use reaveros_iteration.Paging.Tree.Maps.{Maps, Makes}
use reaveros_iteration.Paging.Tree.Progress.{AllDifferent}
use reaveros_iteration.Paging.Tree.Goal.{Clear, Allowed, Mapped}
use reaveros_iteration.Paging.Tree.Range.{IsRange, empty-Mapped, walk-Mapped}
use reaveros_iteration.Paging.Tables.{Space, Attributes, set_rights, ensure_table, pml4_of, pt_of}
use reaveros_iteration.Paging.Map.{
  Mapping, map_pml4, map_pdpt, map_pd, map_page, map_bodies, map, in_paging_area,
}
use reaveros_iteration.Paging.Reads.{
  set_page, view_of, frames, Same, reading, Elsewhere, ensure_table-Makes, set_page-Sets,
}

module _ (attrib : Attributes) where
  open attrib use {foreign, user, read_write}

  map_page-Sets :
      (a b c d f to : ℕ) (m : Mapping)
      → f ≡ pt_of m.space foreign a b c
      → m.physical ≡ to * 4096
      → ((m.space.table f d).present ≡ true → (m.space.table f d).address ≡ to)
      → map_page attrib a b c d m
        ≡ ok (record {
          space = set_page m.space f d to user read_write;
          virtual = add64 m.virtual 4096;
          physical = add64 m.physical 4096;
        })
  unfolding map_page
  map_page-Sets a b c d f to m way phys fits =
      let e = m.space.table (pt_of m.space foreign a b c) d in
      let fits' : e.present ≡ true → e.address ≡ to =
        subst (λ t. (m.space.table t d).present ≡ true → (m.space.table t d).address ≡ to) way
          fits in
      let guard : (e.present && not (m.physical == e.address * 4096)) ≡ false =
        ground (arith, fits', phys) in
      rw (guard, way, phys)

  map-Maps :
      (In : ℕ → Type 0) (s₀ : Space)
      → ((a : ℕ) → In a → Elsewhere foreign s₀ (pml4_of s₀ foreign) a)
      → Maps (map_bodies attrib) (reading foreign s₀) In (frames foreign s₀) (2 ^ 40) s₀.root
  unfolding map_pml4 map_pdpt map_pd
  map-Maps In s₀ away = record {
    makes_pdpt = λ a m sound ia apart.
        let f = pml4_of m.space foreign in
        (
          _,
          refl,
          ensure_table-Makes foreign s₀ m f a user read_write sound
              (subst (λ t. Elsewhere foreign s₀ t a) (sym sound.2) (away a ia)) apart,
        );
    makes_pd = λ a b f m sound way ne apart.
        let after : ℕ → Mapping =
          λ t. record m { space = set_rights (ensure_table m.space t b) t b user read_write } in
        (
          _,
          refl,
          subst (λ t. Makes (reading foreign s₀) (frames foreign s₀) s₀.root f b m (after t))
              (sym way) (ensure_table-Makes foreign s₀ m f b user read_write sound (inl ne) apart),
        );
    makes_pt = λ a b c f m sound way ne apart.
        let after : ℕ → Mapping =
          λ t. record m { space = set_rights (ensure_table m.space t c) t c user user } in
        (
          _,
          refl,
          subst (λ t. Makes (reading foreign s₀) (frames foreign s₀) s₀.root f c m (after t))
              (sym way) (ensure_table-Makes foreign s₀ m f c user user sound (inl ne) apart),
        );
    sets_page = λ a b c d f to m sound way ne phys low fits.
        let sets =
          set_page-Sets foreign m.space f d to user read_write low (λ e. ne (e ∙ sound.1)) in
        (
          _,
          map_page-Sets a b c d f to m way phys fits,
          (sound.0, sound.1, sets.root ∙ sound.2),
          omega (arith, phys),
          refl,
          sets,
        );
  }

  module _ (s : Space) (virtual_start virtual_end physical : ℕ)
      (allowed : in_paging_area virtual_start ≡ false) where
    map_empty :
        leb (page_up virtual_end) (page_down virtual_start) ≡ true
        → map attrib s virtual_start virtual_end physical ≡ ok s
    unfolding map
    map_empty empty = rw (allowed, empty)

    map_walk :
        (m : Mapping)
        → leb (page_up virtual_end) (page_down virtual_start) ≡ false
        → walk
            (map_bodies attrib)
            (cursor_of (page_up virtual_end))
            (cursor_of (page_down virtual_start))
            (record { space = s; virtual = page_down virtual_start; physical = physical })
          ≡ ok m
        → map attrib s virtual_start virtual_end physical ≡ ok m.space
    unfolding map
    map_walk m more run = rw (allowed, more, run)

  -- memory::x64::map of a range, to a physical address at the start of a page, that does not start
  -- in the paging area, stays within one block of 2^48 bytes and does not wrap around, returns, for
  -- the own or for the foreign address space: afterwards the processor's walk finds every page of
  -- the range at the frame that the range gives it, all other pages are as before, and the tables
  -- still form a tree. Before, the tables form a tree in which the PML4 entries used for paging are
  -- left out, the frames of the supply are different and unused, three for each page, the frame
  -- numbers fit in 40 bits, and a page of the range is mapped only to the frame it is to get.
  pub map-Mapped :
      (s : Space) (In : ℕ → Type 0) (role : ℕ → Role)
      (limit virtual_start virtual_end frame first last : ℕ)
      → in_paging_area virtual_start ≡ false
      → IsRange virtual_start virtual_end first last
      → IsTree In (view_of foreign s) role
      → role s.root ≡ pml4
      → ((a : ℕ) → In a → Elsewhere foreign s (pml4_of s foreign) a)
      → AllDifferent (frames foreign s) limit
      → ((k : ℕ) → s.popped ≤ k → k < limit → role (frames foreign s k) ≡ unused)
      → s.popped + 3 * (last - first) ≤ limit
      → frame + (last - first) ≤ 2 ^ 40
      → Allowed In first last
      → Clear In first last frame (view_of foreign s)
      → (s' : Space) × (map attrib s virtual_start virtual_end (frame * 4096) ≡ ok s')
        × HasTree In s.root (view_of foreign s')
        × Same foreign s s'
        × Mapped In first last frame (view_of foreign s) (view_of foreign s')
  map-Mapped s In role limit virtual_start virtual_end frame first last outside range tree home away
        different free room below allowed clear =
      elim (Bool-cases (leb (page_up virtual_end) (page_down virtual_start))) [
        | inl empty ↦ (
          s,
          map_empty s virtual_start virtual_end (frame * 4096) outside empty,
          (role, tree, home),
          (refl, refl, refl),
          empty-Mapped virtual_start virtual_end first last range In frame (view_of foreign s)
              empty,
        )
        | inr more ↦
            let (m, run, tree', same, mapped) =
              walk-Mapped virtual_start virtual_end first last range (map_bodies attrib)
                (reading foreign s) In (frames foreign s) role limit frame (2 ^ 40) s.root
                (record { space = s; virtual = page_down virtual_start; physical = frame * 4096 })
                more (map-Maps In s away) tree home (refl, refl, refl) refl different free room
                below allowed clear in
            (
              m.space,
              map_walk s virtual_start virtual_end (frame * 4096) outside m more run,
              tree',
              same,
              mapped,
            )
      ]
