-- ===== src/Paging/Map.antt =====
-- `memory::x64::map` of kernel/memory/x64paging.cpp.
use reaveros_iteration.Common.{
  ℕ, ◌+◌, ◌*◌, ◌^◌, Bool, not, ◌&&◌, Run, ok, panic, ◌>>=◌, ◌==◌, ltb, leb, if◌then◌else◌, add64,
  page_down, page_up,
}
use reaveros_iteration.Paging.Tables.{
  Space, Attributes, assign, set_entry, ensure_table, set_rights, pml4_of, pdpt_of, pd_of, pt_of,
}
use reaveros_iteration.Paging.Walk.{Bodies, cursor_of, walk}

-- the variables of the loops
pub record Mapping : Type 0 where
  pub space : Space
  pub virtual : ℕ
  pub physical : ℕ

-- the area of the paging structures, 2 * 512 GiB from 0xFFFF800000000000
abbrev pub in_paging_area : ℕ → Bool
in_paging_area v = leb 0xFFFF_8000_0000_0000 v && ltb v (0xFFFF_8000_0000_0000 + 2 ^ 40)

module _ (attrib : Attributes) where
  unfoldable pub map_pml4 : ℕ → Mapping → Run Mapping
  map_pml4 a m =
      let f = pml4_of m.space attrib.foreign in
      ok (record m {
        space = set_rights (ensure_table m.space f a) f a attrib.user attrib.read_write;
      })

  unfoldable pub map_pdpt : ℕ → ℕ → Mapping → Run Mapping
  map_pdpt a b m =
      let f = pdpt_of m.space attrib.foreign a in
      ok (record m {
        space = set_rights (ensure_table m.space f b) f b attrib.user attrib.read_write;
      })

  -- here `read_write` is set from `attrib.user`
  unfoldable pub map_pd : ℕ → ℕ → ℕ → Mapping → Run Mapping
  map_pd a b c m =
      let f = pd_of m.space attrib.foreign a b in
      ok (record m { space = set_rights (ensure_table m.space f c) f c attrib.user attrib.user })

  unfoldable pub map_page : ℕ → ℕ → ℕ → ℕ → Mapping → Run Mapping
  map_page a b c d m =
      let f = pt_of m.space attrib.foreign a b c in
      let e = m.space.table f d in
      if e.present && not (m.physical == e.address * 4096)
      then panic
      else ok (record {
        space =
            set_rights (set_entry m.space f d (assign e m.physical)) f d attrib.user
              attrib.read_write;
        virtual = add64 m.virtual 4096;
        physical = add64 m.physical 4096;
      })

  abbrev pub map_bodies : Bodies Mapping
  map_bodies = record { at_pml4 = map_pml4; at_pdpt = map_pdpt; at_pd = map_pd; at_page = map_page }

  unfoldable pub map : Space → ℕ → ℕ → ℕ → Run Space
  map s virtual_start virtual_end physical_start =
      if in_paging_area virtual_start
      then panic
      else let first = page_down virtual_start in
        let last = page_up virtual_end in
        if leb last first
        then ok s
        else (walk map_bodies (cursor_of last) (cursor_of first)
              (record { space = s; virtual = first; physical = physical_start })
            >>= λ m. ok m.space)
