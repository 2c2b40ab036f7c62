-- ===== src/Tests/Tables.antt =====
-- Page tables of the kernel and of the boot loader, with ranges that are mapped and unmapped.
use reaveros_iteration.Common.{
  ℕ, ◌+◌, ◌-◌, ◌*◌, ◌/◌, ◌%◌, ◌^◌, ◌≤◌, ◌<◌, ◌≡◌, inl, inr, refl, subst, true, false, none, [],
  arith, ◌&&◌, ok, ◌==◌, if◌then◌else◌,
}
use reaveros_iteration.Paging.Tree.{Role, unused, pml4, IsTree, HasTree, Leads, frame_of}
use reaveros_iteration.Paging.Tree.Progress.{AllDifferent}
use reaveros_iteration.Paging.Tree.Goal.{Mapped}
use reaveros_iteration.Paging.Tree.Range.{IsRange}
use reaveros_iteration.Paging.Tables.{Attributes, blank_entry}
use reaveros_iteration.Paging.Map.{map}
use reaveros_iteration.Paging.Unmap.{get_physical_address}
use reaveros_iteration.Paging.Reads.{view_of, Same}
use reaveros_iteration.Paging.Mapped.{map-Mapped}
use reaveros_iteration.Paging.Found.{get_physical_address-map}
use reaveros_iteration.Paging.Unmapped.{Fresh}
use reaveros_iteration.Paging.Tables as Kernel
use reaveros_iteration.Booter.Paging as Loader
use reaveros_iteration.Booter.Paging.Mapped as Early

-- only the PML4 of frame 1, with its recursive entry
abbrev kernel_space : Kernel.Space
kernel_space = record {
  table = λ f i.
      if f == 1 && i == 256
      then record { present = true; read_write = true; user = false; address = 1 }
      else blank_entry;
  root = 1;
  supply = λ k. (k + 2) * 4096;
  popped = 0;
  pushed = [];
}

abbrev loader_space : Loader.Space
loader_space = record {
  table = λ f i. record { present = false; read_write = false; address = 0 };
  root = 1;
  supply = λ k. (k + 2) * 4096;
  taken = 0;
}

abbrev only_root : ℕ → Role
only_root f = if f == 1 then pml4 else unused

abbrev UserHalf : ℕ → Type 0
UserHalf a = a < 256

supply_lem : AllDifferent (λ k. (k + 2) * 4096 / 4096 % 2 ^ 40) 6
supply_lem j k lt lt' = λ e. omega arith

supply_unused : (k : ℕ) → 0 ≤ k → k < 6 → only_root ((k + 2) * 4096 / 4096 % 2 ^ 40) ≡ unused
supply_unused k _ lt = ground arith

loader_space-IsTree : IsTree UserHalf (Early.view_of loader_space) only_root
loader_space-IsTree = record { top = refl; links = λ f i h p. cc }

two_pages : IsRange 0x1000 0x3000 1 3
two_pages = record { start = refl; end = refl; block = refl; low = omega arith }

pages-UserHalf : (k : ℕ) → 1 ≤ k → k < 3 → UserHalf (k / 134217728)
pages-UserHalf k _ lt = omega arith

abbrev system : Attributes
system = record { user = false; read_write = true; foreign = false }

kernel_space-IsTree : IsTree UserHalf (view_of false kernel_space) only_root
kernel_space-IsTree = record {
  top = refl;
  links = λ f i h p.
      let at : (f ≡ 1) × (i ≡ 256) = ground arith in
      let inside : i < 256 = subst (λ g. Leads UserHalf (only_root g) i) at.0 h in
      absurd (omega (arith, at, inside));
}

kernel_space-Fresh : Fresh UserHalf 1 3 (view_of false kernel_space)
unfolding frame_of
kernel_space-Fresh a b c d ia ib ic id lo hi = ground arith

loader_space-frame_of : (a b c d : ℕ) → frame_of (Early.view_of loader_space) a b c d ≡ none
unfolding frame_of
loader_space-frame_of a b c d = refl

map-Mapped_loader_example :
    (s' : Loader.Space) × (Loader.map loader_space 0x1000 0x3000 (7 * 4096) ≡ ok s')
    × HasTree UserHalf 1 (Early.view_of s')
    × Mapped UserHalf 1 3 7 (Early.view_of loader_space) (Early.view_of s')
map-Mapped_loader_example =
    Early.map-Mapped_loader loader_space UserHalf only_root 6 0x1000 0x3000 7 1 3 two_pages
      loader_space-IsTree supply_lem supply_unused (omega arith) (omega arith) pages-UserHalf
      (λ a b c d ia ib ic id lo hi. inl (loader_space-frame_of a b c d))

map-Mapped_example :
    (s' : Kernel.Space) × (map system kernel_space 0x1000 0x3000 (7 * 4096) ≡ ok s')
    × HasTree UserHalf 1 (view_of false s')
    × Same false kernel_space s'
    × Mapped UserHalf 1 3 7 (view_of false kernel_space) (view_of false s')
map-Mapped_example =
    map-Mapped system kernel_space UserHalf only_root 6 0x1000 0x3000 7 1 3 refl two_pages
      kernel_space-IsTree refl (λ a inside. inr (λ e. omega arith)) supply_lem supply_unused
      (omega arith) (omega arith) pages-UserHalf
      (λ a b c d ia ib ic id lo hi. inl (kernel_space-Fresh a b c d ia ib ic id lo hi))

get_physical_address-map_example :
    (s' : Kernel.Space) × (map system kernel_space 0x1000 0x3000 (7 * 4096) ≡ ok s')
    × ((addr : ℕ)
        → 0x1000 ≤ addr
        → addr < 0x3000
        → get_physical_address s' addr false ≡ ok ((7 + (addr / 4096 - 0x1000 / 4096)) * 4096))
get_physical_address-map_example =
    get_physical_address-map system kernel_space UserHalf only_root 6 0x1000 0x3000 7 1 3 refl
      two_pages kernel_space-IsTree refl (λ a inside. inr (λ e. omega arith)) supply_lem
      supply_unused (omega arith) (omega arith) pages-UserHalf
      (λ a b c d ia ib ic id lo hi. inl (kernel_space-Fresh a b c d ia ib ic id lo hi))
