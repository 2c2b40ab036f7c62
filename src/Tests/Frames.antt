-- ===== src/Tests/Frames.antt =====
-- Frame stacks of kernel/memory/stack.cpp and page tables of kernel/memory/x64paging.cpp.
use reaveros_iteration.Common.{
  ℕ, ◌+◌, ◌*◌, ◌≡◌, inl, inr, refl, true, false, none, some, [], arith, ap, ◌&&◌, Run, ok, panic,
  ◌==◌, if◌then◌else◌,
}
use reaveros_iteration.Pmm.FrameStack.{
  Chunk, FrameStack, Stacks, this_core, global_stack, get, write_chunk, pop_chunk, push_chunk, push,
  pop,
}
use reaveros_iteration.Pmm.RoundTrip.{HasRoom, pop-push}
use reaveros_iteration.Pmm.Boot.{Pmm}
use reaveros_iteration.Paging.Tables.{Entry, Space, pt_address, translate, blank_entry}
use reaveros_iteration.Paging.Unmap.{get_physical_address}
use reaveros_iteration.Paging.Recursive.{
  IsRecursive, pt_address-translate, get_physical_address-translate,
}
use reaveros_iteration.Paging.Walk.{Bodies, walk}
use reaveros_iteration.Paging.Walk.Keeps.{cursor, page, Invariants, Keeps}
use reaveros_iteration.Paging.Walk.Rule.{walk-keeps}

abbrev no_stack : FrameStack
no_stack = record { first = 0; last = 0; size = 0; balance = 0 }

-- a chunk with three frames at 4096, and an empty one behind it
abbrev chunks : ℕ → Chunk
chunks p =
    if p == 4096
    then record { prev = 0; next = 8192; size = 3; stack = λ i. i * 4096 }
    else record { prev = 4096; next = 0; size = 0; stack = λ i. 0 }

abbrev stacks : ℕ → Stacks
stacks last = record {
  chunks = chunks;
  lowest = 0xFFFF_FFFF_0000_0000;
  local = record { first = 4096; last = last; size = 3; balance = 5060 };
  global = no_stack;
}

abbrev idle : Stacks → Run Stacks
idle s = ok s

room : HasRoom (stacks 4096) this_core
room = record {
  first = ground arith;
  last = ground arith;
  room = ground arith;
  settled = inl (ground arith);
  balanced = inr (omega arith);
  counted = omega arith;
}

pop-push_example :
    (s₁ s₂ : Stacks) × (push (stacks 4096) this_core 0x5000 ≡ ok s₁)
    × ((get s₁ this_core).size ≡ 3 + 1)
    × (pop idle s₁ this_core ≡ ok (0x5000, s₂))
    × (get s₂ this_core ≡ get (stacks 4096) this_core)
    × ((p : ℕ)
        → ((s₂.chunks p).size ≡ (chunks p).size)
          × ((s₂.chunks p).next ≡ (chunks p).next)
          × ((s₂.chunks p).prev ≡ (chunks p).prev))
pop-push_example = pop-push idle (stacks 4096) this_core 0x5000 room (inl refl)

-- both chunks in the global stack, then the first one in that of the core
abbrev in_global : Stacks
in_global = record {
  chunks = chunks;
  lowest = 0xFFFF_FFFF_0000_0000;
  local = no_stack;
  global = record { first = 4096; last = 8192; size = 3; balance = 0 };
}

abbrev between : Stacks
between = record {
  chunks = write_chunk chunks 8192 (record (chunks 8192) { prev = 0 });
  lowest = 0xFFFF_FFFF_0000_0000;
  local = no_stack;
  global = record { first = 8192; last = 8192; size = 0; balance = 0 };
}

abbrev in_both : Stacks
in_both = record between { local = record { first = 4096; last = 4096; size = 3; balance = 0 } }

popped : pop_chunk in_global global_stack ≡ ok (4096, between)
unfolding pop_chunk
popped = refl

pushed : push_chunk between this_core 4096 ≡ ok in_both
unfolding push_chunk
pushed = refl

abbrev pmm : Pmm
pmm = record { available = 8; start = 0x200000; map = []; amount = 0; stacks = stacks 4096 }

abbrev to_frame : ℕ → Entry
to_frame f = record { present = true; read_write = true; user = false; address = f }

-- the first page of the address space at frame 9, and the recursive entry
abbrev space : Space
space = record {
  table = λ f i.
      if f == 1 && i == 256
      then to_frame 1
      else if i == 0
      then (if f == 4 then to_frame 9 else to_frame (f + 1))
      else blank_entry;
  root = 1;
  supply = λ i. (i + 16) * 4096;
  popped = 0;
  pushed = [];
}

space-IsRecursive : IsRecursive space false
space-IsRecursive = record { reachable = refl; back = refl; loops = refl }

pt_address-translate_example :
    (translate space (pt_address 256 256 256 256) ≡ some 1)
    × (translate space (pt_address 256 256 256 0) ≡ some 2)
    × (translate space (pt_address 256 256 0 0) ≡ some 3)
    × (translate space (pt_address 256 0 0 0) ≡ some 4)
pt_address-translate_example =
    pt_address-translate space false 0 0 0 (omega arith) (omega arith) (omega arith)
      space-IsRecursive refl refl refl

get_physical_address-translate_example :
    get_physical_address space 0x123 false
    ≡ elim (translate space 0x123) [ none ↦ panic | some f ↦ ok (f * 4096) ]
get_physical_address-translate_example = get_physical_address-translate space 0x123 refl

get_physical_address_runs : get_physical_address space 0x123 false ≡ ok 0x9000
unfolding get_physical_address
get_physical_address_runs = refl

-- bodies that count the pages
abbrev counting : Bodies ℕ
counting = record {
  at_pml4 = λ a n. ok n;
  at_pdpt = λ a b n. ok n;
  at_pd = λ a b c n. ok n;
  at_page = λ a b c d n. ok (n + 1);
}

abbrev counts : Invariants ℕ
counts = record {
  holds = λ n m. m ≡ n;
  has_pdpt = λ a m. Unit {0};
  has_pd = λ a b m. Unit {0};
  has_pt = λ a b c m. Unit {0};
}

counting-Keeps : Keeps counting (cursor 0 0 1 2) counts
counting-Keeps = record {
  keeps_pml4 = λ a b c d s inside lt h. (s, refl, h, tt);
  keeps_pdpt = λ a b c d s inside lt h p. (s, refl, h, tt, tt);
  keeps_pd = λ a b c d s inside lt h p q. (s, refl, h, tt, tt, tt);
  keeps_page = λ a b c d s inside lt h p q r. (s + 1, refl, ap (λ k. k + 1) h, tt, tt, tt);
}

walk-keeps_example :
    (n : ℕ) × (walk counting (cursor 0 0 1 2) (cursor 0 0 0 510) 510 ≡ ok n)
    × (n ≡ page (cursor 0 0 1 2))
walk-keeps_example =
    walk-keeps counting (cursor 0 0 1 2) counts counting-Keeps
      (omega arith, omega arith, omega arith, omega arith) (cursor 0 0 0 510) 510
      (omega arith, omega arith, omega arith, omega arith) (omega arith) refl
