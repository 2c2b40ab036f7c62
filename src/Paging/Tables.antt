-- ===== src/Paging/Tables.antt =====
-- The paging structures of kernel/memory/x64paging.h in physical memory, and `address_generator`
-- of kernel/memory/x64paging.cpp. A table is named by its frame number and holds 512 entries. The
-- bits that the code never writes, and bit 9, the lock of an entry, are not modelled.
use reaveros_iteration.Common.{
  ℕ, ◌+◌, ◌*◌, ◌/◌, ◌%◌, ◌^◌, Bool, true, false, ◌&&◌, Option, none, some, List, ◌==◌,
  if◌then◌else◌,
}

pub record Entry : Type 0 where
  pub present : Bool
  pub read_write : Bool
  pub user : Bool
  pub address : ℕ

abbrev pub blank_entry : Entry
blank_entry = record { present = false; read_write = false; user = false; address = 0 }

-- `memory::vm::attributes`
pub record Attributes : Type 0 where
  pub user : Bool
  pub read_write : Bool
  pub foreign : Bool

-- `supply` are the frames that `memory::pmm::pop` will return, by address and in order, `popped`
-- of them so far; `pushed` are those given to `memory::pmm::push`, the last one first.
pub record Space : Type 0 where
  pub table : ℕ → ℕ → Entry
  pub root : ℕ
  pub supply : ℕ → ℕ
  pub popped : ℕ
  pub pushed : List ℕ

-- `entry = addr` sets `present` and the 40 bits of the frame number, and leaves the rest
abbrev pub assign : Entry → ℕ → Entry
assign e addr = record e { present = true; address = addr / 4096 % 2 ^ 40 }

abbrev pub set_entry : Space → ℕ → ℕ → Entry → Space
set_entry s f i e = record s {
  table = λ g j. if f == g then (if i == j then e else s.table g j) else s.table g j;
}

-- `new (...) page_table{}`, and so on for the other tables
abbrev pub clear_table : Space → ℕ → Space
clear_table s f = record s { table = λ g j. if f == g then blank_entry else s.table g j }

-- `memory::pmm::pop()`
abbrev pub pop_frame : Space → ℕ × Space
pop_frame s = (s.supply s.popped, record s { popped = s.popped + 1 })

-- `entry = memory::pmm::pop(); new (...) pdpt{};`
abbrev pub add_table : Space → ℕ → ℕ → Space
add_table s f i =
    let (addr, s₁) = pop_frame s in
    let s₂ = set_entry s₁ f i (assign (s₁.table f i) addr) in clear_table s₂ (s₂.table f i).address

-- `if (!entry.present) { ... }`
abbrev pub ensure_table : Space → ℕ → ℕ → Space
ensure_table s f i = if (s.table f i).present then s else add_table s f i

-- `entry.user = user; entry.read_write = read_write;`
abbrev pub set_rights : Space → ℕ → ℕ → Bool → Bool → Space
set_rights s f i user read_write =
    set_entry s f i (record (s.table f i) { user = user; read_write = read_write })

-- `address_generator::pt`: entry `id` of the current PML4 leads to the PML4 that is worked on, and
-- entry 256 of that one to itself
abbrev pub slot : Bool → ℕ
slot foreign = if foreign then 257 else 256

unfoldable pub pt_address : ℕ → ℕ → ℕ → ℕ → ℕ
pt_address id pml4e pdpte pde =
    (0xFFFF_0000_0000_0000 + id * 2 ^ 39 + pml4e * 2 ^ 30 + pdpte * 2 ^ 21 + pde * 2 ^ 12) % 2 ^ 64

-- The frame that the processor finds at a virtual address.
unfoldable pub translate : Space → ℕ → Option ℕ
translate s addr =
    let e₄ = s.table s.root (addr / 2 ^ 39 % 512) in
    let e₃ = s.table e₄.address (addr / 2 ^ 30 % 512) in
    let e₂ = s.table e₃.address (addr / 2 ^ 21 % 512) in
    let e₁ = s.table e₂.address (addr / 2 ^ 12 % 512) in
    if e₄.present && (e₃.present && (e₂.present && e₁.present)) then some e₁.address else none

-- the frames of the tables that `gen.pml4()`, `gen.pdpt(a)`, `gen.pd(a, b)` and `gen.pt(a, b, c)`
-- stand for
abbrev pub pml4_of : Space → Bool → ℕ
pml4_of s foreign = (s.table s.root (slot foreign)).address

abbrev pub pdpt_of : Space → Bool → ℕ → ℕ
pdpt_of s foreign a = (s.table (pml4_of s foreign) a).address

abbrev pub pd_of : Space → Bool → ℕ → ℕ → ℕ
pd_of s foreign a b = (s.table (pdpt_of s foreign a) b).address

abbrev pub pt_of : Space → Bool → ℕ → ℕ → ℕ → ℕ
pt_of s foreign a b c = (s.table (pd_of s foreign a b) c).address
