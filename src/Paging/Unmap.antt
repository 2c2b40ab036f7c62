-- ===== src/Paging/Unmap.antt =====
-- `unmap`, `get_physical_address` and the operations on whole address spaces of
-- kernel/memory/x64paging.cpp.
use reaveros_iteration.Common.{
  ℕ, zero, suc, ◌*◌, ◌/◌, ◌%◌, ◌^◌, Bool, true, false, ◌∷◌, Run, ok, panic, out_of_fuel, ◌>>=◌,
  if◌then◌else◌, add64, page_down, page_up,
}
use reaveros_iteration.Paging.Tables.{
  Space, Attributes, assign, set_entry, pop_frame, clear_table, pml4_of, pdpt_of, pd_of, pt_of,
}
use reaveros_iteration.Paging.Walk.{Bodies, cursor_of, walk}
use reaveros_iteration.Paging.Map.{map}

-- `memory::pmm::push(frame)`
abbrev pub push_frame : Space → ℕ → Space
push_frame s addr = record s { pushed = addr ∷ s.pushed }

-- `entry.present = 0`
abbrev pub set_absent : Space → ℕ → ℕ → Space
set_absent s f i = set_entry s f i (record (s.table f i) { present = false })

module _ (push foreign : Bool) where
  unfoldable pub unmap_pml4 : ℕ → Space → Run Space
  unmap_pml4 a s = if (s.table (pml4_of s foreign) a).present then ok s else panic

  unfoldable pub unmap_pdpt : ℕ → ℕ → Space → Run Space
  unmap_pdpt a b s = if (s.table (pdpt_of s foreign a) b).present then ok s else panic

  unfoldable pub unmap_pd : ℕ → ℕ → ℕ → Space → Run Space
  unmap_pd a b c s = if (s.table (pd_of s foreign a b) c).present then ok s else panic

  unfoldable pub unmap_page : ℕ → ℕ → ℕ → ℕ → Space → Run Space
  unmap_page a b c d s =
      let f = pt_of s foreign a b c in
      let e = s.table f d in
      if e.present
      then (let s' = set_absent s f d in ok (if push then push_frame s' (e.address * 4096) else s'))
      else panic

  abbrev pub unmap_bodies : Bodies Space
  unmap_bodies = record {
    at_pml4 = unmap_pml4;
    at_pdpt = unmap_pdpt;
    at_pd = unmap_pd;
    at_page = unmap_page;
  }

  -- `unmap` has no test of an empty range.
  unfoldable pub unmap : Space → ℕ → ℕ → Run Space
  unmap s virtual_start virtual_end =
      walk unmap_bodies (cursor_of (page_up virtual_end)) (cursor_of (page_down virtual_start)) s

-- the four nested tests of `get_physical_address`
unfoldable pub get_physical_address : Space → ℕ → Bool → Run ℕ
get_physical_address s addr foreign =
    let a = addr / 2 ^ 39 % 512 in
    let b = addr / 2 ^ 30 % 512 in
    let c = addr / 2 ^ 21 % 512 in
    let d = addr / 2 ^ 12 % 512 in
    if (s.table (pml4_of s foreign) a).present
    then (if (s.table (pdpt_of s foreign a) b).present
        then (if (s.table (pd_of s foreign a b) c).present
            then (if (s.table (pt_of s foreign a b c) d).present
                then ok ((s.table (pt_of s foreign a b c) d).address * 4096)
                else panic)
            else panic)
        else panic)
    else panic

-- The slot for another address space is free, or the caller spins for it.
unfoldable pub set_foreign : Space → ℕ → Run Space
set_foreign s frame =
    if (s.table (pml4_of s false) 257).present
    then out_of_fuel
    else let f = pml4_of s false in
      let s₁ = set_entry s f 257 (assign (s.table f 257) frame) in
      let g = pdpt_of s₁ false 257 in ok (set_entry s₁ g 256 (assign (s₁.table g 256) frame))

unfoldable pub release_foreign : Space → Space
release_foreign s =
    let f = pml4_of s false in
    let s₁ = set_entry s f 257 (assign (s.table f 257) 0) in set_absent s₁ f 257

-- `for (startpml4e = 258; startpml4e < 512; ++startpml4e) gen[i] = current[i]`, by rounds left
unfoldable pub copy_kernel : ℕ → ℕ → Space → Space
copy_kernel zero i s = s
copy_kernel (suc k) i s =
    copy_kernel k (suc i) (set_entry s (pml4_of s true) i (s.table (pml4_of s false) i))

-- `memory::zero(temp, 4096)` writes the page that `temp` stands for; `temp` is already there.
unfoldable pub clone_kernel : Space → ℕ → Run (ℕ × Space)
unfolding copy_kernel set_foreign
clone_kernel s temp =
    let (frame, s₁) = pop_frame s in
    let system : Attributes = record { user = false; read_write = true; foreign = false } in
    map system s₁ temp (add64 temp 4096) frame >>= λ s₂.
    let s₃ = clear_table s₂ (frame / 4096 % 2 ^ 40) in
    unmap false false s₃ temp (add64 temp 4096) >>= λ s₄.
    set_foreign s₄ frame >>= λ s₅. ok (frame, copy_kernel 254 258 s₅)

-- `drop_bootloader_mapping`, its loops by the rounds that are left: a table is given back when the
-- entries that lead from it have been dropped
abbrev pub drop_entry : Space → ℕ → ℕ → Space
drop_entry s f i = set_absent (push_frame s ((s.table f i).address * 4096)) f i

unfoldable pub drop_pds : ℕ → ℕ → ℕ → ℕ → Space → Space
drop_pds zero a b c s = s
drop_pds (suc k) a b c s =
    let f = pd_of s false a b in
    drop_pds k a b (suc c) (if (s.table f c).present then drop_entry s f c else s)

unfoldable pub drop_pdpts : ℕ → ℕ → ℕ → Space → Space
drop_pdpts zero a b s = s
drop_pdpts (suc k) a b s =
    let f = pdpt_of s false a in
    drop_pdpts k a (suc b)
      (if (s.table f b).present then drop_entry (drop_pds 512 a b 0 s) f b else s)

unfoldable pub drop_pml4s : Bool → ℕ → ℕ → Space → Space
drop_pml4s push zero a s = s
drop_pml4s push (suc k) a s =
    let f = pml4_of s false in
    drop_pml4s push k (suc a) (
      if push
      then (if (s.table f a).present then drop_entry (drop_pdpts 512 a 0 s) f a else s)
      else set_absent s f a)

unfoldable pub drop_bootloader_mapping : Space → Bool → Space
drop_bootloader_mapping s push = drop_pml4s push 256 0 s
