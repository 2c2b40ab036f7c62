-- ===== src/Paging/Tree.antt =====
-- Page tables as the processor reads them: which entries are present and where they lead. The
-- address spaces of the kernel and of the boot loader are both read this way.
pub mod Grow
pub mod Pages
pub mod Progress
pub mod Maps
pub mod Fill
pub mod Goal
pub mod Mapped
pub mod Range
pub mod Unmapped
use reaveros_iteration.Common.{
  ℕ, ◌≡◌, ◌≢◌, Bool, true, false, Option, none, some, ◌&&◌, ◌==◌, if◌then◌else◌,
}

pub record View : Type 0 where
  pub present : ℕ → ℕ → Bool
  pub address : ℕ → ℕ → ℕ
  pub root : ℕ

-- The processor's walk: the frame of the page with these indices, from each level on.
unfoldable pub frame_in_pt : View → ℕ → ℕ → Option ℕ
frame_in_pt v f d = if v.present f d then some (v.address f d) else none

unfoldable pub frame_in_pd : View → ℕ → ℕ → ℕ → Option ℕ
frame_in_pd v f c d = if v.present f c then frame_in_pt v (v.address f c) d else none

unfoldable pub frame_in_pdpt : View → ℕ → ℕ → ℕ → ℕ → Option ℕ
frame_in_pdpt v f b c d = if v.present f b then frame_in_pd v (v.address f b) c d else none

unfoldable pub frame_of : View → ℕ → ℕ → ℕ → ℕ → Option ℕ
frame_of v a b c d = if v.present v.root a then frame_in_pdpt v (v.address v.root a) b c d else none

-- the place of a frame in the tree; an `unused` one is no table of it
pub data Role : Type 0 where
  unused : Role
  pml4 : Role
  pdpt : ℕ → Role
  pd : ℕ → ℕ → Role
  pt : ℕ → ℕ → ℕ → Role

-- what entry `i` of such a table leads to
abbrev pub child : Role → ℕ → Role
child pml4 a = pdpt a
child (pdpt a) b = pd a b
child (pd a b) c = pt a b c
child (pt a b c) d = unused
child unused i = unused

-- The entries that lead to tables. Of the PML4 only those that `In` allows are considered, since
-- others may lead back to the PML4.
abbrev pub Leads : (ℕ → Type 0) → Role → ℕ → Type 0
Leads In pml4 a = In a
Leads In (pdpt a) b = Unit {0}
Leads In (pd a b) c = Unit {0}
Leads In (pt a b c) d = ⊥
Leads In unused i = ⊥

-- Every table has one place in the tree.
pub record IsTree (In : ℕ → Type 0) (v : View) (role : ℕ → Role) : Type 0 where
  pub top : role v.root ≡ pml4
  pub links :
      (f i : ℕ)
      → Leads In (role f) i
      → v.present f i ≡ true
      → role (v.address f i) ≡ child (role f) i

-- The tables are a tree, and `home`, the PML4 that the processor uses, is the root of one.
abbrev pub HasTree : (ℕ → Type 0) → ℕ → View → Type 0
HasTree In home v = (role : ℕ → Role) × IsTree In v role × (role home ≡ pml4)

-- entry `i` of `f` leads to the table `new`, which is empty; all else is as before
pub record Adds (v v' : View) (f i new : ℕ) : Type 0 where
  pub root : v'.root ≡ v.root
  pub present :
      (g j : ℕ)
      → v'.present g j
        ≡ (if g == f && j == i then true else if g == new then false else v.present g j)
  pub address :
      (g j : ℕ) → g ≢ new → v'.address g j ≡ (if g == f && j == i then new else v.address g j)

-- entry `i` of `f` leads to the frame `to`; all else is as before
pub record Sets (v v' : View) (f i to : ℕ) : Type 0 where
  pub root : v'.root ≡ v.root
  pub present : (g j : ℕ) → v'.present g j ≡ (if g == f && j == i then true else v.present g j)
  pub address : (g j : ℕ) → v'.address g j ≡ (if g == f && j == i then to else v.address g j)

-- nothing but entry `i` of `f` changes
pub record Changes (v v' : View) (f i : ℕ) : Type 0 where
  pub root : v'.root ≡ v.root
  pub others :
      (g j : ℕ)
      → ¬ ((g ≡ f) × (j ≡ i))
      → (v'.present g j ≡ v.present g j) × (v'.address g j ≡ v.address g j)

-- entry `i` of `f` is absent; all else is as before
pub record Clears (v v' : View) (f i : ℕ) : Type 0 where
  pub root : v'.root ≡ v.root
  pub present : (g j : ℕ) → v'.present g j ≡ (if g == f && j == i then false else v.present g j)
  pub address : (g j : ℕ) → v'.address g j ≡ v.address g j
