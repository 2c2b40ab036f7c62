-- ===== src/Pmm/RoundTrip.antt =====
-- `push` and then `pop` of kernel/memory/stack.cpp.
use reaveros_iteration.Common.{
  ℕ, ◌+◌, ◌-◌, ◌≤◌, ◌<◌, ◌^◌, ◌≡◌, ◌≢◌, ◌⊎◌, refl, ap, ◌∙◌, false, arith, Run, ok, fault, ◌==◌,
  if◌then◌else◌,
}
use reaveros_iteration.Pmm.FrameStack.{
  max, Stacks, Which, this_core, global_stack, get, put, has_global, put_chunk, next_chunk,
  store_frame, rebalance, push, take_frame, touch_next, pop,
}

-- the last chunk has room, no new chunk is due, and the stack is not above its balance
pub record HasRoom (s : Stacks) (w : Which) : Type 0 where
  pub first : (get s w).first ≢ 0
  pub last : (get s w).last ≢ 0
  pub room : (s.chunks (get s w).last).size < max
  pub settled : ((s.chunks (get s w).last).size ≢ max - 100) ⊎ ((s.chunks (get s w).last).next ≢ 0)
  pub balanced : (has_global w ≡ false) ⊎ ((get s w).size + 1 ≤ (get s w).balance)
  pub counted : (get s w).size + 1 < 2 ^ 64

-- the lock behind the last chunk is not taken, or there is one to take
abbrev pub CanTouch : Stacks → Which → Type 0
CanTouch s w =
    let f = get s w in
    (f.last ≡ f.first) ⊎ (((s.chunks f.last).size ≢ max - 50) ⊎ ((s.chunks f.last).next ≢ 0))

-- the stack after `frame` has been put on its last chunk
unfoldable pub stored : Stacks → Which → ℕ → Stacks
stored s w frame =
    let f = get s w in
    let c = s.chunks f.last in
    let c' = record c {
      size = c.size + 1;
      stack = λ i. if i == c.size then frame else c.stack i;
    } in
    put (put_chunk s f.last c') w (record f { size = f.size + 1 })

-- and after it has been taken off again
unfoldable pub taken : Stacks → Which → ℕ → Stacks
unfolding stored
taken s w frame =
    let f = get s w in
    let s₁ = stored s w frame in
    put (put_chunk s₁ f.last (record (s₁.chunks f.last) { size = (s.chunks f.last).size })) w f

next_chunk-room :
    (s : Stacks) (w : Which)
    → (get s w).last ≢ 0
    → (s.chunks (get s w).last).size < max
    → next_chunk s w ≡ ok s
unfolding next_chunk
next_chunk-room s this_core l r = ground arith
next_chunk-room s global_stack l r = ground arith

store_frame-room :
    (s : Stacks) (w : Which) (frame : ℕ)
    → (get s w).last ≢ 0
    → (s.chunks (get s w).last).size < max
    → (get s w).size + 1 < 2 ^ 64
    → store_frame s w frame ≡ ok (stored s w frame)
unfolding store_frame stored
store_frame-room s this_core frame l r n = ground arith
store_frame-room s global_stack frame l r n = ground arith

rebalance-settled :
    (s : Stacks) (w : Which) (frame : ℕ)
    → (has_global w ≡ false) ⊎ ((get s w).size + 1 ≤ (get s w).balance)
    → rebalance (stored s w frame) w ≡ ok (stored s w frame)
unfolding rebalance stored
rebalance-settled s this_core frame b = ground arith
rebalance-settled s global_stack frame b = refl

take_frame-at :
    (s : Stacks) (w : Which) (n k : ℕ)
    → (get s w).last ≢ 0
    → (s.chunks (get s w).last).size ≡ n + 1
    → (get s w).size ≡ k + 1
    → n < max
    → k + 1 < 2 ^ 64
    → take_frame s w
      ≡ ok (
        (s.chunks (get s w).last).stack n,
        put
            (put_chunk s (get s w).last (record (s.chunks (get s w).last) { size = n }))
            w
            (record (get s w) { size = k }),
      )
unfolding take_frame
take_frame-at s this_core n k l c e r m = ground arith
take_frame-at s global_stack n k l c e r m = ground arith

-- the chunk that holds the frame
stored-size :
    (s : Stacks) (w : Which) (frame : ℕ)
    → ((stored s w frame).chunks (get s w).last).size ≡ (s.chunks (get s w).last).size + 1
unfolding stored
stored-size s this_core frame = ground arith
stored-size s global_stack frame = ground arith

stored-stack :
    (s : Stacks) (w : Which) (frame : ℕ)
    → ((stored s w frame).chunks (get s w).last).stack (s.chunks (get s w).last).size ≡ frame
unfolding stored
stored-stack s this_core frame = ground arith
stored-stack s global_stack frame = ground arith

take_frame-stored :
    (s : Stacks) (w : Which) (frame : ℕ)
    → (get s w).last ≢ 0
    → (s.chunks (get s w).last).size < max
    → (get s w).size + 1 < 2 ^ 64
    → take_frame (stored s w frame) w ≡ ok (frame, taken s w frame)
unfolding stored taken
take_frame-stored s this_core frame l r n =
    take_frame-at (stored s this_core frame) this_core (s.chunks s.local.last).size s.local.size l
      (stored-size s this_core frame) refl r n
    ∙ ap (λ x. ok (x, taken s this_core frame)) (stored-stack s this_core frame)
take_frame-stored s global_stack frame l r n =
    take_frame-at (stored s global_stack frame) global_stack (s.chunks s.global.last).size
      s.global.size l (stored-size s global_stack frame) refl r n
    ∙ ap (λ x. ok (x, taken s global_stack frame)) (stored-stack s global_stack frame)

touch_next-taken :
    (s : Stacks) (w : Which) (frame : ℕ)
    → (get s w).last ≢ 0
    → CanTouch s w
    → touch_next (taken s w frame) w ≡ ok tt
unfolding touch_next taken stored
touch_next-taken s this_core frame l t = ground arith
touch_next-taken s global_stack frame l t = ground arith

push-stored :
    (s : Stacks) (w : Which) (frame : ℕ) → HasRoom s w → push s w frame ≡ ok (stored s w frame)
unfolding push
push-stored s w frame h =
    let a = next_chunk-room s w h.last h.room in
    let b = store_frame-room s w frame h.last h.room h.counted in
    let d = rebalance-settled s w frame h.balanced in
    ground (arith, h.first, h.last, h.settled, a, b, d)

stored_count :
    (s : Stacks) (w : Which) (frame : ℕ) → (get (stored s w frame) w).size ≡ (get s w).size + 1
unfolding stored
stored_count s this_core frame = refl
stored_count s global_stack frame = refl

pop_taken :
    (others : Stacks → Run Stacks) (s : Stacks) (w : Which) (frame : ℕ)
    → HasRoom s w
    → CanTouch s w
    → pop others (stored s w frame) w ≡ ok (frame, taken s w frame)
unfolding pop
pop_taken others s w frame h t =
    let a = take_frame-stored s w frame h.last h.room h.counted in
    let b = touch_next-taken s w frame h.last t in
    let d = stored_count s w frame in ground (arith, h.counted, a, b, d)

taken_ends : (s : Stacks) (w : Which) (frame : ℕ) → get (taken s w frame) w ≡ get s w
unfolding taken
taken_ends s this_core frame = refl
taken_ends s global_stack frame = refl

taken_chunks :
    (s : Stacks) (w : Which) (frame p : ℕ)
    → (((taken s w frame).chunks p).size ≡ (s.chunks p).size)
      × (((taken s w frame).chunks p).next ≡ (s.chunks p).next)
      × (((taken s w frame).chunks p).prev ≡ (s.chunks p).prev)
unfolding taken stored
taken_chunks s this_core frame p = ground arith
taken_chunks s global_stack frame p = ground arith

-- frame_stack::pop undoes push on a stack that has a first and a last chunk, the last one with room
-- for a frame: push returns and counts the frame, pop returns the same frame, and the stack and the
-- sizes and links of all chunks are as before. With the size of the last chunk, either a further
-- chunk follows it or it is not at the size at which push makes the frame the next chunk, 100 below
-- the limit; also, it is the only chunk, or a chunk follows, or it is not 50 below the limit, where
-- pop locks the next. The stack has no global stack behind it, or stays within its balance, and its
-- size with the frame is below 2^64.
pub pop-push :
    (others : Stacks → Run Stacks) (s : Stacks) (w : Which) (frame : ℕ)
    → HasRoom s w
    → CanTouch s w
    → (s₁ s₂ : Stacks) × (push s w frame ≡ ok s₁)
      × ((get s₁ w).size ≡ (get s w).size + 1)
      × (pop others s₁ w ≡ ok (frame, s₂))
      × (get s₂ w ≡ get s w)
      × ((p : ℕ)
          → ((s₂.chunks p).size ≡ (s.chunks p).size)
            × ((s₂.chunks p).next ≡ (s.chunks p).next)
            × ((s₂.chunks p).prev ≡ (s.chunks p).prev))
pop-push others s w frame h t = (
  stored s w frame,
  taken s w frame,
  push-stored s w frame h,
  stored_count s w frame,
  pop_taken others s w frame h t,
  taken_ends s w frame,
  taken_chunks s w frame,
)

take_frame_empty :
    (s : Stacks) (w : Which)
    → (get s w).last ≢ 0
    → (s.chunks (get s w).last).size ≡ 0
    → take_frame s w ≡ fault
unfolding take_frame
take_frame_empty s this_core l e = ground arith
take_frame_empty s global_stack l e = ground arith

-- When the last chunk has become empty and the stack still holds frames in the chunks before it,
-- `pop` does not go back to those: it indexes the empty chunk below its start.
pub pop_empty_chunk :
    (others : Stacks → Run Stacks) (s : Stacks) (w : Which)
    → (get s w).last ≢ 0
    → (get s w).size ≢ 0
    → (s.chunks (get s w).last).size ≡ 0
    → pop others s w ≡ fault
unfolding pop
pop_empty_chunk others s w l n e =
    let a : take_frame s w ≡ fault = take_frame_empty s w l e in ground (arith, n, a)
