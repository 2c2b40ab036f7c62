-- ===== src/Tests/Interrupts.antt =====
-- Empty tables of vectors, two threads that interrupts switch between, and two cores that run one
-- function.
use reaveros_iteration.Common.{
  ℕ, ◌+◌, ◌≡◌, ◌<◌, ◌≤◌, refl, true, false, none, some, [], ◌∷◌, ok, out_of_fuel, Run, arith, ◌%◌,
  ◌==◌, if◌then◌else◌, ◌||◌, ◌&&◌, ◌≢◌, ◌*◌,
}
use reaveros_iteration.Processor.Vectors.{
  Interrupts, Given, store, allocate_isr, take_lock, free_isr, take_vectors, search_vectors,
  search_down, search_up, is_good, is_allocated, first_vector,
}
use reaveros_iteration.Utils.Locks.{exchange}
use reaveros_iteration.Processor.Vectors.Allocation.{Ends, allocate_isr-Gives}
use reaveros_iteration.Processor.Vectors.Release.{IsReturned, free_isr-allocate_isr}
use reaveros_iteration.Processor.Context.{IsrContext, SyscallContext, Context, save, load}
use reaveros_iteration.Processor.Handle.{Machine, running, ready, is_live, valid, handle}
use reaveros_iteration.Processor.Handle.Resuming.{IsSwitch, after_switch, handle-resumes}
use reaveros_iteration.Processor.Parallel.{
  State, all, idle, pending, running as running_there, gone, send, call_self, count_self, leave,
  take, finish, calls_self, is_sent, first_count, after_sending, Reach, start, more, Step,
  calls_here, counts_here, leaves, takes, finishes,
}
use reaveros_iteration.Processor.Parallel.Policies.{waits}
use reaveros_iteration.Processor.Parallel.Runs.{work, parallel_execute-calls, parallel_execute-ends}

abbrev no_vectors : Interrupts
no_vectors = record {
  handlers = λ i. if i == 40 then some 1 else (if i == 41 then some 2 else none);
  contexts = λ i. 0;
  allocated = λ i. false;
  owners = λ i. none;
}

allocate_isr-Gives_example :
    Ends 2 (some 5) no_vectors (allocate_isr 8 256 1 4 (some 5) false no_vectors)
allocate_isr-Gives_example =
    allocate_isr-Gives 2 8 256 1 (some 5) no_vectors (omega arith) (omega arith) (omega arith)
      (omega arith)

abbrev one_vector : Given
one_vector = record { vector = 48; count = 1; interrupts = take_vectors 1 none 16 no_vectors }

allocates_one : allocate_isr 8 256 1 1 none false no_vectors ≡ ok one_vector
unfolding allocate_isr take_lock exchange search_vectors search_down is_good is_allocated
    first_vector
allocates_one = refl

-- Every second vector is taken, so that a call for two vectors calls itself for one.
abbrev half_taken : Interrupts
half_taken = record no_vectors { allocated = λ i. i % 2 == 1 }

waits_for_itself : allocate_isr 8 256 1 2 none false half_taken ≡ out_of_fuel
unfolding allocate_isr take_lock exchange search_vectors search_down search_up is_good is_allocated
    first_vector
waits_for_itself = refl

free_isr-allocate_isr_example :
    (v : Interrupts) × (free_isr 48 (take_vectors 1 none 16 no_vectors) ≡ ok v)
    × IsReturned 48 no_vectors v
free_isr-allocate_isr_example =
    free_isr-allocate_isr 8 256 1 none no_vectors one_vector (omega arith) (omega arith)
      (omega arith) allocates_one

abbrev frame : (number cs : ℕ) → IsrContext
frame number cs = record {
  r15 = 15;
  r14 = 14;
  r13 = 13;
  r12 = 12;
  r11 = 11;
  r10 = 10;
  r9 = 9;
  r8 = 8;
  rbp = 7;
  rdi = 6;
  rsi = 5;
  rdx = 4;
  rcx = 3;
  rbx = 2;
  rax = 1;
  number = number;
  error = 0;
  rip = 100;
  cs = cs;
  rflags = 512;
  rsp = 200;
  ss = 35;
}

abbrev call_frame : SyscallContext
call_frame = record {
  r15 = 0;
  r14 = 0;
  r13 = 0;
  r12 = 0;
  rflags = 0;
  r10 = 0;
  r9 = 0;
  r8 = 0;
  rbp = 0;
  rdi = 0;
  rsi = 0;
  user_rsp = 0;
  user_rip = 0;
  rbx = 0;
  syscall_number = 0;
}

-- Handler 1 chooses the thread at 16, handler 2 that at 8.
abbrev choosing : ℕ → IsrContext → ℕ → Machine → Run (IsrContext × Machine)
choosing h x c m = ok (x, record m { current = if h == 1 then 16 else 8 })

abbrev second_context : Context
second_context = save (record (frame 0 27) { rip = 300 })

abbrev two_threads : Machine
two_threads = record {
  interrupts = no_vectors;
  threads = λ t.
      if t == 8
      then record { id = 1; status = running; context = none }
      else record { id = 2; status = ready; context = some second_context };
  current = 8;
  scheduling = true;
  is_in_interrupt = false;
  user_gs = true;
  told = [];
}

abbrev in_first : Machine
in_first = record two_threads { current = 16; is_in_interrupt = true }

abbrev between : Machine
between = after_switch choosing 8 (frame 40 8) in_first

abbrev in_second : Machine
in_second = record between { current = 8; is_in_interrupt = true; user_gs = false }

first-IsSwitch : IsSwitch choosing 8 16 (frame 40 8) second_context two_threads in_first
unfolding valid is_live
first-IsSwitch = record {
  h = 1;
  ready = refl;
  was = refl;
  numbered = λ e. omega arith;
  by_device = omega arith;
  registered = refl;
  returns = refl;
  chosen = refl;
  other = λ e. omega arith;
  live = refl;
  saved = refl;
}

second-IsSwitch : IsSwitch choosing 16 8 (frame 41 27) (save (frame 40 8)) between in_second
unfolding valid is_live
second-IsSwitch = record {
  h = 2;
  ready = refl;
  was = refl;
  numbered = λ e. omega arith;
  by_device = omega arith;
  registered = refl;
  returns = refl;
  chosen = refl;
  other = λ e. omega arith;
  live = refl;
  saved = refl;
}

handle-resumes_example :
    (handle choosing (frame 40 8) two_threads ≡ ok (load second_context (frame 40 8), between))
    × (handle choosing (frame 41 27) between
        ≡ ok (
          record (frame 40 8) { number = 41; error = 0 },
          after_switch choosing 16 (frame 41 27) in_second,
        ))
handle-resumes_example =
    handle-resumes choosing 8 16 16 (frame 40 8) (frame 41 27) second_context (save (frame 40 8))
      two_threads in_first between in_second (λ e. omega arith) first-IsSwitch (λ e. omega arith)
      second-IsSwitch refl

abbrev at_rest : State
at_rest = record {
  fptr = none;
  argument = 0;
  unfinished_cores = 0;
  phase = λ c. idle;
  caller = gone;
  calls = λ c. [];
}

waits_all : waits all ≡ true
unfolding waits
waits_all = refl

-- Core 0 calls function 7 on both of two cores.
abbrev sent : State
sent = send all 2 0 1 7 3 at_rest

abbrev taken : State
taken = record (call_self all 0 7 3 sent) {
  phase = store (call_self all 0 7 3 sent).phase 1 running_there;
  calls = store (call_self all 0 7 3 sent).calls 1 ((7, 3) ∷ []);
}

abbrev ended : State
ended = leave (finish 1 (count_self taken))

called_sent : Reach all 2 0 1 7 3 at_rest ended
unfolding send after_sending call_self take count_self finish leave is_sent first_count
called_sent =
    more
      (more (more (more (more start (calls_here refl)) (takes 1 refl refl)) (counts_here refl))
        (finishes 1 refl))
      (leaves refl refl)

parallel_execute-calls_example :
    ((c : ℕ) → ended.phase c ≡ pending → (s' : State) × (take c ended ≡ ok s'))
    × (ended.caller ≡ gone
        → (c : ℕ)
        → (ended.phase c ≡ idle)
          × (ended.calls c
              ≡ (if is_sent all 2 0 1 c || (c == 0 && calls_self all) then (7, 3) ∷ [] else [])))
parallel_execute-calls_example =
    parallel_execute-calls all 2 0 1 7 3 waits_all (omega arith) (omega arith) (omega arith)
      (record { quiet = λ c. refl; fresh = λ c. refl }) called_sent

parallel_execute-ends_example :
    (ended.caller ≢ gone → (s' : State) × Step all 2 0 1 7 3 ended s')
    × ((s' : State) → Step all 2 0 1 7 3 ended s' → work 2 s' < work 2 ended)
    × (work 2 ended ≤ 2 * 2 + 3)
parallel_execute-ends_example =
    parallel_execute-ends all 2 0 1 7 3 waits_all (omega arith) (omega arith) (omega arith)
      (record { quiet = λ c. refl; fresh = λ c. refl }) called_sent
