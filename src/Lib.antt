-- ===== src/Lib.antt =====
-- ReaverOS: the kernel's containers, its scheduler, its physical and virtual memory, and the boot
-- loader's memory map and page tables; its interrupts, its timers, its clock and its locks; what it
-- reads from ACPI, and its console.
--
-- The boot loader (loader/booter) collects the firmware's memory map, takes memory from it, builds
-- page tables and starts the kernel. The kernel (kernel/) keeps free frames in stacks of chunks,
-- maps pages through a recursive entry of its PML4, and keeps its objects in a priority list, a
-- queue for threads and a hash map, all over one allocator of chained nodes.
--
-- Which file models what:
--   Common             numbers, Boolean tests, lists, machine words, and the result `Run` of kernel
--                      code: a value, `PANIC`, a null dereference, or a loop out of fuel
--   Utils/Nodes        `chained<T>` of kernel/utils/allocator.h: a memory of nodes by address
--   Utils/Allocator    `allocator` of the same file, `allocate_chained` of kernel/inc.h and
--                      `allocate_address_range` of kernel/memory/vm.cpp
--   Utils/PriorityList `priority_list` of kernel/utils/priority_list.h
--   Utils/Vfq          `variable_frequency_queue` of kernel/utils/vfq.h, over the priority list
--   Utils/HashMap      `hash_map` of kernel/utils/hash_map.h
--   Utils/Raf          `raf` of kernel/utils/raf.h and kernel/utils/raf.cpp
--   Paging             kernel/memory/x64paging.cpp: Walk has the four nested loops that `map` and
--                      `unmap` share, Map, Unmap and Recursive the rest; Tree has the walk of
--                      the processor, and what `map` and `unmap` do to the tables it goes through;
--                      Mapped, Found and Unmapped apply that to the kernel's code
--   Processor/Vectors  the interrupt vectors and handlers of kernel/processor/handlers.cpp
--   Processor/Routing  how an ISA input is routed: parts of kernel/processor/processor.cpp, of
--                      kernel/processor/handlers.cpp and kernel/processor/ioapic.h
--   Processor/Context  kernel/processor/context.cpp; Processor/Handle has `processor::handle` of
--                      kernel/processor/handlers.cpp, which saves and loads these contexts
--   Processor/Parallel `parallel_execute` of kernel/processor/ipi.cpp, with its handler on the other
--                      cores, as a step relation
--   Acpi               kernel/acpi/acpi.cpp and kernel/acpi/tables.h: Tables finds the tables, Madt
--                      has `parse_madt`, with the parts of kernel/processor/core.h, ioapic.h and
--                      interrupt_entry.h that it fills
--   Time/Lapic         kernel/time/lapic.cpp, with the divisor of kernel/processor/xapic.cpp and
--                      kernel/processor/x2apic.cpp
--   Time/Hpet          kernel/time/hpet.cpp: the comparators, their choice, and the inputs and vectors
--                      that they get, over Processor/Vectors and Processor/Routing
--   Screen/Console     `kernel_console` of kernel/screen/console.cpp
--   Utils/Locks        `spinlock` and `recursive_spinlock` of kernel/utils/spinlock.h and `bit_lock`
--                      of kernel/utils/locks.h, with the cores that use them as a step relation
--   Time/Timer         `real_timer` of kernel/time/timer.cpp, over the priority list
--   Time/Real          kernel/time/real.cpp: the time of day from the registers of the clock, `_update`
--                      and `now`
--   Pmm                `frame_stack` of kernel/memory/stack.cpp and kernel/memory/pmm.cpp
--   Booter/MemoryMap   `map` of loader/booter/memory/memmap.cpp
--   Booter/Paging      `pml4::map` and `pml4::unmap` of loader/booter/memory/x64paging.cpp, as
--                      further bodies of the loops in Paging/Walk
--   Scheduler          `scheduler::local` of kernel/scheduler/local.cpp, over the queues
--   Tests              small inputs, runs of the definitions on them, and the theorems at them
--
-- State is passed explicitly: an operation takes the memory, list, stacks or tables and returns the
-- new ones. Words of 64 bits are natural numbers with their wrap-around written out (`add64`,
-- `sub64`). A read or write through null is `fault`; other addresses always hold something. A
-- function's name is that of the method it models, and the parts of a long method have names of
-- their own, in the order of the code.
--
-- Fuel: a loop along `next` pointers takes fuel above the number of nodes; the four loops of a page
-- walk take 513 each, one more than a table has entries; `add_entry` takes fuel for the depth of
-- its calls of itself, and one unit is enough for an entry that overlaps none; the loop of the
-- frame stack constructor takes one more than the pages of a range; the loop of a timer that calls
-- due events takes more than the list has events, while none of them is periodic. A for loop with a
-- fixed number of rounds counts the rounds that are left. Each search of `allocate_isr` takes more
-- than the 224 vectors; a call of itself waits for the lock that it holds, and uses up any fuel; a
-- loop over the MADT more than its entries; the search for the RSDP more than 8192; the divisor of
-- the local timer more than 7; `print` more than the characters of the string.
--
-- Not modelled: the locks inside the operations (each of these runs alone, under its own lock) but
-- for that of `allocate_isr`, which calls itself under it; the target and delivery mode of an
-- interrupt, invalidation of the translation buffer, pixels and fonts, descriptor tables, the start
-- of the other processors and their set-up, which are writes of device registers; the PIT; the
-- devices behind `real_timer` (the scheduler's timer is a Boolean); the rose library and the
-- services, which are system calls in inline assembly. ACPI tables are read at their physical
-- addresses, without the mapping of their pages. What a handler does in `handle` is an argument,
-- and so is the version register of an I/O APIC. What the other cores do when a frame stack asks
-- them for chunks is an argument of `pop`. The pages that the loader's `new` gives to a table, and
-- the frames that the kernel's page tables get, come from a supply in the state.
pub mod Common
pub mod Utils
pub mod Paging
pub mod Booter
pub mod Pmm
pub mod Scheduler
pub mod Processor
pub mod Time
pub mod Acpi
pub mod Screen
mod Tests
