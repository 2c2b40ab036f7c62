-- ===== src/Paging/Recursive.antt =====
-- The recursive entry of the PML4: what the virtual addresses of `address_generator` lead to, and
-- `get_physical_address` against the processor's own walk.
use reaveros_iteration.Common.{
  ℕ, ◌+◌, ◌*◌, ◌/◌, ◌%◌, ◌^◌, ◌≡◌, ◌<◌, ◌≤◌, refl, Bool, true, false, none, some, arith, ok, panic,
}
use reaveros_iteration.Paging.Tables.{
  Space, Attributes, slot, pt_address, translate, pml4_of, pdpt_of, pd_of, pt_of,
}
use reaveros_iteration.Paging.Map.{map, in_paging_area}
use reaveros_iteration.Paging.Unmap.{get_physical_address}

pt_address-digits :
    (id a b c : ℕ)
    → id < 512
    → a < 512
    → b < 512
    → c < 512
    → (pt_address id a b c / 2 ^ 39 % 512 ≡ id)
      × (pt_address id a b c / 2 ^ 30 % 512 ≡ a)
      × (pt_address id a b c / 2 ^ 21 % 512 ≡ b)
      × (pt_address id a b c / 2 ^ 12 % 512 ≡ c)
unfolding pt_address
pt_address-digits id a b c hi ha hb hc = omega arith

-- the entry of the current PML4 for the address space that is worked on, and the entry of that
-- space's PML4 that leads back to itself
pub record IsRecursive (s : Space) (foreign : Bool) : Type 0 where
  pub reachable : (s.table s.root (slot foreign)).present ≡ true
  pub back : (s.table (pml4_of s foreign) 256).present ≡ true
  pub loops : (s.table (pml4_of s foreign) 256).address ≡ pml4_of s foreign

module _ (s : Space) (foreign : Bool) where
  translate-frames :
      (a b c f₃ f₂ f₁ : ℕ)
      → a < 512
      → b < 512
      → c < 512
      → (s.table s.root (slot foreign)).present ≡ true
      → ((s.table (pml4_of s foreign) a).present ≡ true)
        × ((s.table (pml4_of s foreign) a).address ≡ f₃)
      → ((s.table f₃ b).present ≡ true) × ((s.table f₃ b).address ≡ f₂)
      → ((s.table f₂ c).present ≡ true) × ((s.table f₂ c).address ≡ f₁)
      → translate s (pt_address (slot foreign) a b c) ≡ some f₁
  unfolding translate
  translate-frames a b c f₃ f₂ f₁ ha hb hc p₄ p₃ p₂ p₁ =
      let d = pt_address-digits (slot foreign) a b c (ground arith) ha hb hc in
      rw (d.0, d.1, d.2, d.3, p₃.1, p₂.1, p₁.1, p₄, p₃.0, p₂.0, p₁.0)

  -- Where the tables are present, each address that `address_generator` makes leads the processor
  -- to the table that it is meant for.
  pub pt_address-translate :
      (a b c : ℕ)
      → a < 512
      → b < 512
      → c < 512
      → IsRecursive s foreign
      → (s.table (pml4_of s foreign) a).present ≡ true
      → (s.table (pdpt_of s foreign a) b).present ≡ true
      → (s.table (pd_of s foreign a b) c).present ≡ true
      → (translate s (pt_address (slot foreign) 256 256 256) ≡ some (pml4_of s foreign))
        × (translate s (pt_address (slot foreign) 256 256 a) ≡ some (pdpt_of s foreign a))
        × (translate s (pt_address (slot foreign) 256 a b) ≡ some (pd_of s foreign a b))
        × (translate s (pt_address (slot foreign) a b c) ≡ some (pt_of s foreign a b c))
  pt_address-translate a b c ha hb hc rec p₃ p₂ p₁ =
      let f = pml4_of s foreign in
      let loop : ((s.table f 256).present ≡ true) × ((s.table f 256).address ≡ f) =
        (rec.back, rec.loops) in
      let small : 256 < 512 = omega arith in
      let top = rec.reachable in
      (
        translate-frames 256 256 256 f f f small small small top loop loop loop,
        translate-frames 256 256 a f f _ small small ha top loop loop (p₃, refl),
        translate-frames 256 a b f _ _ small ha hb top loop (p₃, refl) (p₂, refl),
        translate-frames a b c _ _ _ ha hb hc top (p₃, refl) (p₂, refl) (p₁, refl),
      )

-- Where the current PML4 leads to itself, `get_physical_address` returns the frame that the
-- processor finds, and panics where it finds none.
pub get_physical_address-translate :
    (s : Space) (addr : ℕ)
    → pml4_of s false ≡ s.root
    → get_physical_address s addr false
      ≡ elim (translate s addr) [ none ↦ panic | some f ↦ ok (f * 4096) ]
unfolding get_physical_address translate
get_physical_address-translate s addr h = ground arith

-- Where rounding up the end of a range wraps around, in the last page of the address space, `map`
-- reports no error and maps nothing.
pub map-top :
    (attrib : Attributes) (s : Space) (first last physical : ℕ)
    → in_paging_area first ≡ false
    → last < 2 ^ 64
    → 2 ^ 64 ≤ last + 4095
    → map attrib s first last physical ≡ ok s
unfolding map
map-top attrib s first last physical h small top = ground arith
