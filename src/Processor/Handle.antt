-- ===== src/Processor/Handle.antt =====
-- `processor::handle` of kernel/processor/handlers.cpp. What a handler does is the argument `run`;
-- the devices and the local APIC are the list of what they were told, the last first.
pub mod Resuming
use reaveros_iteration.Common.{
  ℕ, ◌+◌, ◌-◌, ◌%◌, ◌≡◌, ◌≢◌, ◌≤◌, refl, sym, ap, ◌∙◌, Bool, true, false, not, ◌&&◌, ◌||◌, Option,
  none, some, List, [], ◌∷◌, Run, ok, panic, fault, ◌>>=◌, ◌==◌, ltb, leb, if◌then◌else◌, arith,
}
use reaveros_iteration.Processor.Vectors.{Interrupts, store}
use reaveros_iteration.Processor.Context.{IsrContext, Context, save, load}

-- `mask_vector(v)` of the device that owns a vector, and `eoi(v)` of the local APIC
pub data Told : Type 0 where
  mask_vector : ℕ → ℕ → Told
  eoi : ℕ → Told

-- `thread_status` of kernel/scheduler/thread.h
pub data Status : Type 0 where
  invalid : Status
  init : Status
  running : Status
  ready : Status
  sleeping : Status
  waiting_ipc : Status
  waiting_mutex : Status
  waiting_semaphore : Status
  zombie : Status
  dead : Status

-- the fields of `thread` that the handler reads; the context may be missing
pub record Thread : Type 0 where
  pub id : ℕ
  pub status : Status
  pub context : Option Context

-- One core: `current` is the address of its thread, `user_gs` which of the two bases is in GS, and
-- `scheduling` is `scheduler::ready()`.
pub record Machine : Type 0 where
  pub interrupts : Interrupts
  pub threads : ℕ → Thread
  pub current : ℕ
  pub scheduling : Bool
  pub is_in_interrupt : Bool
  pub user_gs : Bool
  pub told : List Told

-- `scheduler::valid(t)`, where null is the address 0
unfoldable pub is_live : Status → Bool
is_live invalid = false
is_live zombie = false
is_live dead = false
is_live init = true
is_live running = true
is_live ready = true
is_live sleeping = true
is_live waiting_ipc = true
is_live waiting_mutex = true
is_live waiting_semaphore = true

unfoldable pub valid : Machine → ℕ → Bool
unfolding is_live
valid m t = not (t == 0) && is_live (m.threads t).status

-- `_gs_swapper`, which runs at both ends
abbrev pub swap : Bool → Machine → Machine
swap from_user m = record m { user_gs = if from_user then not m.user_gs else m.user_gs }

-- what a device interrupt tells its owner and the local APIC
abbrev pub tell : ℕ → Machine → Machine
tell number m = record m {
  told = elim (m.interrupts.owners (number - 32)) [
    | some owner ↦ eoi number ∷ (mask_vector owner number ∷ m.told)
    | none ↦ eoi number ∷ m.told
  ];
}

-- `interrupted_thread->save(context)`
abbrev pub save_thread : ℕ → IsrContext → Machine → Machine
save_thread t ctx m = record m {
  threads = store m.threads t (record (m.threads t) { context = some (save ctx) });
}

-- `current_thread()->load(context)`, which panics where the thread has no context
unfoldable pub load_thread : IsrContext → Machine → Run IsrContext
unfolding load
load_thread ctx m = elim ((m.threads m.current).context) [ some c ↦ ok (load c ctx) | none ↦ panic ]

-- the switch of the threads at the end
unfoldable pub switch : (tid interrupted : ℕ) → IsrContext → Machine → Run (IsrContext × Machine)
unfolding load_thread valid save
switch tid interrupted ctx m =
    if not (tid == 0) && not ((m.threads m.current).id == tid)
    then (let m₁ = if valid m interrupted then save_thread interrupted ctx m else m in
        load_thread ctx m₁ >>= λ ctx₁. ok (ctx₁, m₁))
    else ok (ctx, m)

module _ (run : ℕ → IsrContext → ℕ → Machine → Run (IsrContext × Machine)) where
  -- `if (handler) handler(context, c)`
  unfoldable pub call_handler : IsrContext → Machine → Run (IsrContext × Machine)
  call_handler ctx m = elim (m.interrupts.handlers ctx.number) [
    | some h ↦ run h ctx (m.interrupts.contexts ctx.number) m
    | none ↦ ok (ctx, m)
  ]

  -- the acknowledgement, or the panic of an exception in the kernel that has no handler
  unfoldable pub acknowledge : (has_handler : Bool) → IsrContext → Machine → Run Machine
  acknowledge has_handler ctx m =
      if leb 32 ctx.number
      then ok (tell ctx.number m)
      else (if ctx.cs % 4 == 0 && not has_handler then panic else ok m)

  -- from the call of the handler on, with what was read before it
  unfoldable pub handle_from :
      (tid interrupted : ℕ) → Bool → IsrContext → Machine → Run (IsrContext × Machine)
  unfolding call_handler acknowledge switch
  handle_from tid interrupted has_handler ctx m = do
    (ctx₁, m₁) ← call_handler ctx m
    m₂ ← acknowledge has_handler ctx₁ m₁
    (ctx₂, m₃) ← switch tid interrupted ctx₁ m₂
    ok (ctx₂, record m₃ { is_in_interrupt = false })

  unfoldable pub handle : IsrContext → Machine → Run (IsrContext × Machine)
  unfolding handle_from
  handle ctx m =
      let from_user = ctx.cs % 4 == 3 in
      let interrupted = if m.scheduling then m.current else 0 in
      let tid = if m.scheduling then (m.threads m.current).id else 0 in
      let has_handler : Bool = elim (m.interrupts.handlers ctx.number) [
        | some h ↦ true
        | none ↦ false
      ] in
      handle_from tid interrupted has_handler ctx
        (record (swap from_user m) { is_in_interrupt = true })
      >>= λ (ctx₁, m₁). ok (ctx₁, swap from_user m₁)
