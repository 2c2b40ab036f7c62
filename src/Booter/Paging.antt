-- ===== src/Booter/Paging.antt =====
-- `pml4::map` and `pml4::unmap` of loader/booter/memory/x64paging.cpp, with the entries of
-- loader/booter/memory/x64paging.h. A table is named by its frame number; the page that `new`
-- gives to it comes from `supply`. The bits that the code never writes are not modelled.
pub mod Mapped
pub mod Unmapped
use reaveros_iteration.Common.{
  ℕ, ◌+◌, ◌*◌, ◌/◌, ◌%◌, ◌^◌, Bool, true, false, not, ◌&&◌, Run, ok, panic, ◌>>=◌, ◌==◌, leb,
  if◌then◌else◌, add64, page_down, page_up,
}
use reaveros_iteration.Paging.Walk.{Bodies, cursor_of, walk}

pub record Entry : Type 0 where
  pub present : Bool
  pub read_write : Bool
  pub address : ℕ

-- The address space. `supply` are the addresses that the placement allocator will return, aligned
-- to a page, `taken` of them so far.
pub record Space : Type 0 where
  pub table : ℕ → ℕ → Entry
  pub root : ℕ
  pub supply : ℕ → ℕ
  pub taken : ℕ

-- `entry = addr`, for a page and for a table
abbrev pub entry_of : ℕ → Entry
entry_of addr = record { present = true; read_write = true; address = addr / 4096 % 2 ^ 40 }

abbrev pub set_entry : Space → ℕ → ℕ → Entry → Space
set_entry s f i e = record s {
  table = λ g j. if f == g then (if i == j then e else s.table g j) else s.table g j;
}

-- `default_allocator.align(4096); entry = new pdpt;`: the new table holds blank entries
abbrev pub add_table : Space → ℕ → ℕ → Space
add_table s f i =
    let addr = s.supply s.taken in
    let blank : Entry = record { present = false; read_write = false; address = 0 } in
    let s₁ = record s {
      table = λ g j. if addr / 4096 % 2 ^ 40 == g then blank else s.table g j;
      taken = s.taken + 1;
    } in
    set_entry s₁ f i (entry_of addr)

abbrev pub ensure_table : Space → ℕ → ℕ → Space
ensure_table s f i = if (s.table f i).present then s else add_table s f i

-- the tables that an index leads to
abbrev pub pdpt_of : Space → ℕ → ℕ
pdpt_of s a = (s.table s.root a).address

abbrev pub pd_of : Space → ℕ → ℕ → ℕ
pd_of s a b = (s.table (pdpt_of s a) b).address

abbrev pub pt_of : Space → ℕ → ℕ → ℕ → ℕ
pt_of s a b c = (s.table (pd_of s a b) c).address

pub record Mapping : Type 0 where
  pub space : Space
  pub virtual : ℕ
  pub physical : ℕ

unfoldable pub map_pml4 : ℕ → Mapping → Run Mapping
map_pml4 a m = ok (record m { space = ensure_table m.space m.space.root a })

unfoldable pub map_pdpt : ℕ → ℕ → Mapping → Run Mapping
map_pdpt a b m = ok (record m { space = ensure_table m.space (pdpt_of m.space a) b })

unfoldable pub map_pd : ℕ → ℕ → ℕ → Mapping → Run Mapping
map_pd a b c m = ok (record m { space = ensure_table m.space (pd_of m.space a b) c })

unfoldable pub map_page : ℕ → ℕ → ℕ → ℕ → Mapping → Run Mapping
map_page a b c d m =
    let f = pt_of m.space a b c in
    let e = m.space.table f d in
    if e.present && not (m.physical == e.address * 4096)
    then panic
    else ok (record {
      space = set_entry m.space f d (entry_of m.physical);
      virtual = add64 m.virtual 4096;
      physical = add64 m.physical 4096;
    })

abbrev pub map_bodies : Bodies Mapping
map_bodies = record { at_pml4 = map_pml4; at_pdpt = map_pdpt; at_pd = map_pd; at_page = map_page }

unfoldable pub map : Space → ℕ → ℕ → ℕ → Run Space
map s virtual_start virtual_end physical_start =
    let first = page_down virtual_start in
    let last = page_up virtual_end in
    if leb last first
    then ok s
    else (walk map_bodies (cursor_of last) (cursor_of first)
          (record { space = s; virtual = first; physical = physical_start })
        >>= λ m. ok m.space)

-- Each level that is not there is a panic; a page loses `present` alone.
unfoldable pub unmap_pml4 : ℕ → Space → Run Space
unmap_pml4 a s = if (s.table s.root a).present then ok s else panic

unfoldable pub unmap_pdpt : ℕ → ℕ → Space → Run Space
unmap_pdpt a b s = if (s.table (pdpt_of s a) b).present then ok s else panic

unfoldable pub unmap_pd : ℕ → ℕ → ℕ → Space → Run Space
unmap_pd a b c s = if (s.table (pd_of s a b) c).present then ok s else panic

unfoldable pub unmap_page : ℕ → ℕ → ℕ → ℕ → Space → Run Space
unmap_page a b c d s =
    let f = pt_of s a b c in
    let e = s.table f d in
    if e.present then ok (set_entry s f d (record e { present = false })) else panic

abbrev pub unmap_bodies : Bodies Space
unmap_bodies = record {
  at_pml4 = unmap_pml4;
  at_pdpt = unmap_pdpt;
  at_pd = unmap_pd;
  at_page = unmap_page;
}

-- `unmap` has no test of an empty range.
unfoldable pub unmap : Space → ℕ → ℕ → Run Space
unmap s virtual_start virtual_end =
    walk unmap_bodies (cursor_of (page_up virtual_end)) (cursor_of (page_down virtual_start)) s
