-- ===== src/Paging/Tree/Range.antt =====
-- The range that `map` rounds to pages, and the walk over it.
use reaveros_iteration.Common.{
  ℕ, ◌+◌, ◌-◌, ◌*◌, ◌/◌, ◌%◌, ◌^◌, ◌≤◌, ◌<◌, ◌≡◌, refl, sym, subst, ◌∙◌, true, false, ok, arith,
  leb, page_down, page_up,
}
use reaveros_iteration.Paging.Walk.{Bodies, cursor_of, walk}
use reaveros_iteration.Paging.Walk.Keeps.{page, IsCursor}
use reaveros_iteration.Paging.Walk.Rule.{walk-keeps}
use reaveros_iteration.Paging.Tree.{View, Role, IsTree, HasTree, unused, pml4}
use reaveros_iteration.Paging.Tree.Maps.{Reading, Maps}
use reaveros_iteration.Paging.Tree.Progress.{AllDifferent, number}
use reaveros_iteration.Paging.Tree.Goal.{Clear, Allowed, Mapped}
use reaveros_iteration.Paging.Tree.Mapped.{start-Before, Before-Mapped, maps-Keeps, so_far}

-- The pages that a range covers, numbered within the 2^48 bytes that the range stays in.
pub record IsRange (virtual_start virtual_end first last : ℕ) : Type 0 where
  pub start : first ≡ virtual_start / 4096 % 2 ^ 36
  pub end : last ≡ (virtual_end + 4095) / 4096 % 2 ^ 36
  pub block : virtual_start / 2 ^ 48 ≡ (virtual_end + 4095) / 2 ^ 48
  pub low : virtual_end + 4095 < 2 ^ 64

pub cursor_of-IsCursor : (x : ℕ) → IsCursor (cursor_of x)
cursor_of-IsCursor x = (omega arith, omega arith, omega arith, omega arith)

pub page_down-page : (x : ℕ) → page (cursor_of (page_down x)) ≡ x / 4096 % 2 ^ 36
page_down-page x = omega arith

pub page_up-page :
    (x : ℕ) → x + 4095 < 2 ^ 64 → page (cursor_of (page_up x)) ≡ (x + 4095) / 4096 % 2 ^ 36
page_up-page x low = omega arith

module _ (virtual_start virtual_end first last : ℕ)
    (range : IsRange virtual_start virtual_end first last) where
  none_between :
      (n : ℕ) → leb (page_up virtual_end) (page_down virtual_start) ≡ true → first ≤ n → last ≤ n
  none_between n empty lo = ground (arith, range.start, range.end, range.block, range.low)

  -- An empty range maps nothing.
  pub empty-Mapped :
      (In : ℕ → Type 0) (frame : ℕ) (v : View)
      → leb (page_up virtual_end) (page_down virtual_start) ≡ true
      → Mapped In first last frame v v
  empty-Mapped In frame v empty a b c d ia ib ic id =
      (λ lo hi. absurd (omega (arith, none_between (number a b c d) empty lo)), λ out. refl)

  up_to : leb (page_up virtual_end) (page_down virtual_start) ≡ false → first ≤ last
  up_to more = ground (arith, range.start, range.end, range.block, range.low)

  -- The walk over a range that is not empty returns, with the range mapped.
  pub walk-Mapped :
      {S : Type 0} (bodies : Bodies S) (r : Reading S) (In : ℕ → Type 0) (supply : ℕ → ℕ)
      (role : ℕ → Role) (limit frame most home : ℕ) (s : S)
      → leb (page_up virtual_end) (page_down virtual_start) ≡ false
      → Maps bodies r In supply most home
      → IsTree In (r.view s) role
      → role home ≡ pml4
      → r.sound s
      → r.physical s ≡ frame * 4096
      → AllDifferent supply limit
      → ((k : ℕ) → r.taken s ≤ k → k < limit → role (supply k) ≡ unused)
      → r.taken s + 3 * (last - first) ≤ limit
      → frame + (last - first) ≤ most
      → Allowed In first last
      → Clear In first last frame (r.view s)
      → (s' : S) × (walk bodies
            (cursor_of (page_up virtual_end))
            (cursor_of (page_down virtual_start))
            s
          ≡ ok s')
        × HasTree In home (r.view s')
        × r.sound s'
        × Mapped In first last frame (r.view s) (r.view s')
  walk-Mapped bodies r In supply role limit frame most home s more maps tree at_home sound phys
        different free room below allowed clear =
      let v = r.view s in
      let e = cursor_of (page_up virtual_end) in
      let c = cursor_of (page_down virtual_start) in
      let from : page c ≡ first = page_down-page virtual_start ∙ sym range.start in
      let until : page e ≡ last = page_up-page virtual_end range.low ∙ sym range.end in
      let up = up_to more in
      let inv = so_far bodies e r In supply limit first last frame most home v in
      let before =
        start-Before bodies e r In supply limit first last frame most home v s role refl tree
          at_home sound phys free room in
      let keeps =
        maps-Keeps bodies e r In supply limit first last frame most home v maps different allowed
          clear below until in
      let (s', run, after) =
        walk-keeps bodies e inv keeps (cursor_of-IsCursor (page_up virtual_end)) c s
          (cursor_of-IsCursor (page_down virtual_start)) (omega (arith, from, until, up))
          (subst (λ n. inv.holds n s) (sym from) before) in
      let (tree', sound', mapped) =
        Before-Mapped bodies e r In supply limit first last frame most home v s'
          (subst (λ n. inv.holds n s') until after) in
      (s', run, tree', sound', mapped)
