-- ===== src/Pmm/Boot.antt =====
-- kernel/memory/pmm.cpp: the frames set aside for the boot, the stacks behind them, and the stack
-- constructor of kernel/memory/stack.cpp that reads the memory map.
use reaveros_iteration.Common.{
  ℕ, zero, suc, ◌+◌, ◌-◌, ◌*◌, ◌/◌, ◌^◌, ◌≡◌, ◌≤◌, ◌<◌, refl, sym, subst, arith, Bool, true, not,
  ◌&&◌, ◌||◌, List, [], ◌∷◌, Run, ok, panic, fault, out_of_fuel, ◌>>=◌, ◌==◌, ltb, leb,
  if◌then◌else◌, add64, page_up,
}
use reaveros_iteration.Pmm.FrameStack.{
  max, Stacks, this_core, global_stack, pop_chunk, push_chunk, push, pop as pop_stack,
}

-- `memory::map_entry`, of kernel/memory/map.h
pub record Region : Type 0 where
  pub base : ℕ
  pub length : ℕ
  pub type : ℕ

-- `_boot_frames_available`, `_boot_frames_start`, `_map`, `_amount`, and the stacks
pub record Pmm : Type 0 where
  pub available : ℕ
  pub start : ℕ
  pub map : List Region
  pub amount : ℕ
  pub stacks : Stacks

-- `for (frame = ...; frame < limit; frame += 4096) push(frame)`
unfoldable pub push_frames : ℕ → Stacks → ℕ → ℕ → Run Stacks
push_frames zero s frame limit = out_of_fuel
push_frames (suc fuel) s frame limit =
    if ltb frame limit
    then (push s global_stack frame >>= λ s'. push_frames fuel s' (add64 frame 4096) limit)
    else ok s

abbrev pub first_frame : ℕ → ℕ
first_frame base = if ltb base (1024 * 1024) then 1024 * 1024 else page_up base

-- `frame_stack(map, map_size)`
unfoldable pub push_regions : ℕ → Stacks → List Region → Run Stacks
unfolding push_frames
push_regions fuel s [] = ok s
push_regions fuel s (r ∷ rs) =
    let limit = add64 r.base r.length in
    (if r.type == 1 && (leb (1024 * 1024) r.base || ltb (1024 * 1024) limit)
      then push_frames fuel s (first_frame r.base) limit
      else ok s)
    >>= λ s'. push_regions fuel s' rs

-- `initialize(map, map_size)`; the start is the address of `_boot_frames`
unfoldable pub initialize : ℕ → Pmm → ℕ → List Region → Run Pmm
initialize fuel p start map = do
  s ← push_regions fuel p.stacks map
  ok (record p { start = start; map = map; stacks = s })

-- `while (amount--) core.frame_stack().push_chunk(global_stack->pop_chunk())`
unfoldable pub move_chunks : ℕ → Stacks → Run Stacks
unfolding pop_chunk push_chunk
move_chunks zero s = ok s
move_chunks (suc n) s = do
  (chunk, s₁) ← pop_chunk s global_stack
  s₂ ← push_chunk s₁ this_core chunk
  move_chunks n s₂

unfoldable pub ap_initialize : ℕ → Pmm → Run Pmm
ap_initialize cores p =
    let amount = if p.amount == 0 then p.stacks.global.size / (2 * cores * max) else p.amount in
    let s = p.stacks in
    let s₁ = record s { local = record (s.local) { balance = amount * 3 / 2 * max } } in
    move_chunks amount s₁ >>= λ s₂. ok (record p { amount = amount; stacks = s₂ })

-- `ready` is `processor::smp::ready()`; `others` is what the other cores do for `pop`
unfoldable pub pop : (Stacks → Run Stacks) → Bool → Pmm → Run (ℕ × Pmm)
pop others ready p =
    if p.available == 0
    then (pop_stack others p.stacks (if ready then this_core else global_stack) >>= λ (frame, s).
        ok (frame, record p { stacks = s }))
    else ok (add64 p.start ((8 - p.available) * 4096), record p { available = p.available - 1 })

unfoldable pub push_frame : Bool → Pmm → ℕ → Run Pmm
push_frame ready p frame = push p.stacks (if ready then this_core else global_stack) frame >>= λ s.
    ok (record p { stacks = s })

-- the sum that `boot_report` prints
unfoldable pub total_from : ℕ → List Region → ℕ
total_from total [] = total
total_from total (r ∷ rs) =
    total_from
      (if not (r.type == 6) && (not (r.type == 8) && not (r.type == 9))
        then add64 total r.length
        else total)
      rs

-- the frames from `frame` on, `n` of them
abbrev pub frames : ℕ → ℕ → List ℕ
frames zero frame = []
frames (suc n) frame = frame ∷ frames n (frame + 4096)

-- `push` on the global stack, for each frame in turn
unfoldable pub push_all : Stacks → List ℕ → Run Stacks
push_all s [] = ok s
push_all s (f ∷ fs) = push s global_stack f >>= λ s'. push_all s' fs

bind-cong :
    {A B : Type 0} (r : Run A) (f g : A → Run B) → ((a : A) → f a ≡ g a) → (r >>= f) ≡ (r >>= g)
bind-cong (ok a) f g h = h a
bind-cong panic f g h = refl
bind-cong fault f g h = refl
bind-cong out_of_fuel f g h = refl

-- The loop ends, with `frame` and every 4096th address after it below the limit pushed: each page
-- of the range, and a page that the limit cuts in two as well. The limit is not within a page of
-- 2^64.
pub push_frames-push_all :
    (n : ℕ) (s : Stacks) (frame limit : ℕ)
    → frame ≤ limit + 4095
    → limit + 4096 < 2 ^ 64
    → n ≡ (limit + 4095 - frame) / 4096
    → push_frames (n + 1) s frame limit ≡ push_all s (frames n frame)
unfolding push_frames push_all
push_frames-push_all zero s frame limit le room count =
    let done : limit ≤ frame = omega arith in ground arith
push_frames-push_all (suc n) s frame limit le room count =
    let more : frame < limit = omega arith in
    let next : add64 frame 4096 ≡ frame + 4096 = omega arith in
    let test : ltb frame limit ≡ true = ground arith in
    let cong =
      bind-cong (push s global_stack frame) (λ s'. push_frames (n + 1) s' (add64 frame 4096) limit)
        (λ s'. push_all s' (frames n (frame + 4096)))
        (λ s'.
          subst (λ f. push_frames (n + 1) s' f limit ≡ push_all s' (frames n (frame + 4096)))
            (sym next)
            (push_frames-push_all n s' (frame + 4096) limit (omega arith) room (omega arith))) in
    ground (arith, cong, test)

-- `pop`, `n` times
unfoldable pub pop_times : (Stacks → Run Stacks) → Bool → ℕ → Pmm → Run (List ℕ × Pmm)
pop_times others ready zero p = ok ([], p)
pop_times others ready (suc n) p = pop others ready p >>= λ (frame, p₁).
    pop_times others ready n p₁ >>= λ (rest, p₂). ok (frame ∷ rest, p₂)

-- While `n` boot frames are left, `n` times `pop` returns these, the lowest first, and the stacks
-- stay as they were.
pub pop_times-frames :
    (others : Stacks → Run Stacks) (ready : Bool) (n : ℕ) (p : Pmm)
    → n ≤ p.available
    → p.available ≤ 8
    → p.start + 8 * 4096 < 2 ^ 64
    → pop_times others ready n p
      ≡ ok (frames n (p.start + (8 - p.available) * 4096), record p { available = p.available - n })
unfolding pop_times pop
pop_times-frames others ready zero p le few room = ground arith
pop_times-frames others ready (suc n) p le few room =
    let p₁ : Pmm = record p { available = p.available - 1 } in
    let here : pop others ready p ≡ ok (p.start + (8 - p.available) * 4096, p₁) = ground arith in
    let rest = pop_times-frames others ready n p₁ (omega arith) (omega arith) room in
    let from : p.start + (8 - (p.available - 1)) * 4096
        ≡ p.start + (8 - p.available) * 4096 + 4096 =
      omega arith in
    let left : p.available - 1 - n ≡ p.available - suc n = omega arith in
    ground (arith, here, rest, from, left)
