-- ===== src/Paging/Found.antt =====
-- `map` and `get_physical_address` of kernel/memory/x64paging.cpp together.
use reaveros_iteration.Common.{
  ℕ, ◌+◌, ◌-◌, ◌*◌, ◌/◌, ◌%◌, ◌^◌, ◌≤◌, ◌<◌, ◌≡◌, ◌∙◌, ap, subst, Bool, false, none, some, arith,
  ok, panic,
}
use reaveros_iteration.Paging.Tree.{
  View, Role, unused, pml4, IsTree, frame_of, frame_in_pdpt, frame_in_pd, frame_in_pt,
}
use reaveros_iteration.Paging.Tree.Progress.{AllDifferent, number}
use reaveros_iteration.Paging.Tree.Goal.{Clear, Allowed, Mapped}
use reaveros_iteration.Paging.Tree.Range.{IsRange}
use reaveros_iteration.Paging.Tables.{Space, Attributes, pml4_of}
use reaveros_iteration.Paging.Map.{map, in_paging_area}
use reaveros_iteration.Paging.Unmap.{get_physical_address}
use reaveros_iteration.Paging.Reads.{view_of, frames, Elsewhere}
use reaveros_iteration.Paging.Mapped.{map-Mapped}

-- `get_physical_address` is the walk over the tables of the address space it is asked about.
get_physical_address-frame_of :
    (s : Space) (addr : ℕ) (foreign : Bool)
    → get_physical_address s addr foreign
      ≡ elim (frame_of
          (view_of foreign s)
          (addr / 2 ^ 39 % 512)
          (addr / 2 ^ 30 % 512)
          (addr / 2 ^ 21 % 512)
          (addr / 2 ^ 12 % 512)) [ none ↦ panic | some f ↦ ok (f * 4096) ]
unfolding get_physical_address frame_of frame_in_pdpt frame_in_pd frame_in_pt
get_physical_address-frame_of s addr foreign = ground arith

address_number :
    (addr : ℕ)
    → number (addr / 2 ^ 39 % 512) (addr / 2 ^ 30 % 512) (addr / 2 ^ 21 % 512) (addr / 2 ^ 12 % 512)
      ≡ addr / 4096 % 2 ^ 36
address_number addr = omega arith

module _ {virtual_start virtual_end first last : ℕ}
    (range : IsRange virtual_start virtual_end first last) (addr : ℕ) (lo : virtual_start ≤ addr)
    (hi : addr < virtual_end) where
  number_in_range :
      (first ≤ addr / 4096 % 2 ^ 36)
      × (addr / 4096 % 2 ^ 36 < last)
      × (addr / 4096 % 2 ^ 36 - first ≡ addr / 4096 - virtual_start / 4096)
  number_in_range = omega (arith, range.start, range.end, range.block, range.low)

  frame_of-address :
      (In : ℕ → Type 0) (frame : ℕ) (v v' : View)
      → Mapped In first last frame v v'
      → Allowed In first last
      → frame_of v'
          (addr / 2 ^ 39 % 512)
          (addr / 2 ^ 30 % 512)
          (addr / 2 ^ 21 % 512)
          (addr / 2 ^ 12 % 512)
        ≡ some (frame + (addr / 4096 - virtual_start / 4096))
  frame_of-address In frame v v' mapped allowed =
      let at = address_number addr in
      let (from, until, offset) = number_in_range in
      let ia : In (addr / 2 ^ 39 % 512) =
        subst In (omega arith) (allowed (addr / 4096 % 2 ^ 36) from until) in
      (mapped (addr / 2 ^ 39 % 512) (addr / 2 ^ 30 % 512) (addr / 2 ^ 21 % 512)
          (addr / 2 ^ 12 % 512) ia (omega arith) (omega arith) (omega arith)).0
        (omega (arith, at, from)) (omega (arith, at, until))
      ∙ ap (λ n. some (frame + n)) (ap (λ n. n - first) at ∙ offset)

-- After map has returned, under the conditions on the tables, the frames and the range under which
-- it does its work, get_physical_address of every address of the range returns the address of the
-- frame that the range gives to its page.
pub get_physical_address-map :
    (attrib : Attributes) (s : Space) (In : ℕ → Type 0) (role : ℕ → Role)
    (limit virtual_start virtual_end frame first last : ℕ)
    → in_paging_area virtual_start ≡ false
    → IsRange virtual_start virtual_end first last
    → IsTree In (view_of attrib.foreign s) role
    → role s.root ≡ pml4
    → ((a : ℕ) → In a → Elsewhere attrib.foreign s (pml4_of s attrib.foreign) a)
    → AllDifferent (frames attrib.foreign s) limit
    → ((k : ℕ) → s.popped ≤ k → k < limit → role (frames attrib.foreign s k) ≡ unused)
    → s.popped + 3 * (last - first) ≤ limit
    → frame + (last - first) ≤ 2 ^ 40
    → Allowed In first last
    → Clear In first last frame (view_of attrib.foreign s)
    → (s' : Space) × (map attrib s virtual_start virtual_end (frame * 4096) ≡ ok s')
      × ((addr : ℕ)
          → virtual_start ≤ addr
          → addr < virtual_end
          → get_physical_address s' addr attrib.foreign
            ≡ ok ((frame + (addr / 4096 - virtual_start / 4096)) * 4096))
get_physical_address-map attrib s In role limit virtual_start virtual_end frame first last outside
      range tree home away different free room below allowed clear =
    let (s', run, _, _, mapped) =
      map-Mapped attrib s In role limit virtual_start virtual_end frame first last outside range
        tree home away different free room below allowed clear in
    (
      s',
      run,
      λ addr lo hi.
          get_physical_address-frame_of s' addr attrib.foreign
          ∙ ap (λ f. elim f [ none ↦ panic | some f ↦ ok (f * 4096) ])
              (frame_of-address range addr lo hi In frame (view_of attrib.foreign s)
                (view_of attrib.foreign s') mapped allowed),
    )
