-- ===== src/Pmm/FrameStack.antt =====
-- `memory::pmm::frame_stack` of kernel/memory/stack.{h,cpp}: a chain of page-sized chunks that hold
-- the addresses of free frames. Locks are not modelled: each operation runs under its own locks.
use reaveros_iteration.Common.{
  ℕ, zero, suc, ◌+◌, ◌-◌, Bool, true, false, not, ◌&&◌, Run, ok, panic, fault, ◌>>=◌, ◌==◌, ltb,
  leb, if◌then◌else◌, add64, sub64,
}
use reaveros_iteration.Utils.Allocator.{allocate_address_range}

-- `509 - sizeof(utils::recursive_spinlock) / 8`, with 24 bytes for the lock
abbrev pub max : ℕ
max = 506

pub record Chunk : Type 0 where
  pub prev : ℕ
  pub next : ℕ
  pub size : ℕ
  pub stack : ℕ → ℕ

pub record FrameStack : Type 0 where
  pub first : ℕ
  pub last : ℕ
  pub size : ℕ
  pub balance : ℕ

-- The chunks by address, the lowest address that the kernel has handed out, the stack of this core
-- and the global one.
pub record Stacks : Type 0 where
  pub chunks : ℕ → Chunk
  pub lowest : ℕ
  pub local : FrameStack
  pub global : FrameStack

abbrev pub write_chunk : (ℕ → Chunk) → ℕ → Chunk → ℕ → Chunk
write_chunk m p c q = if p == q then c else m q

-- `*p`, a fault at null
abbrev pub chunk_at : Stacks → ℕ → Run Chunk
chunk_at s p = if p == 0 then fault else ok (s.chunks p)

abbrev pub put_chunk : Stacks → ℕ → Chunk → Stacks
put_chunk s p c = record s { chunks = write_chunk s.chunks p c }

-- which of the two stacks a method is called on; `_global` is null in the global one
pub data Which : Type 0 where
  this_core : Which
  global_stack : Which

abbrev pub get : Stacks → Which → FrameStack
get s this_core = s.local
get s global_stack = s.global

abbrev pub put : Stacks → Which → FrameStack → Stacks
put s this_core f = record s { local = f }
put s global_stack f = record s { global = f }

abbrev pub has_global : Which → Bool
has_global this_core = true
has_global global_stack = false

-- `allocate_chained<frame_stack_chunk>(frame)`: the frame itself holds the new chunk
abbrev pub new_chunk : Stacks → Run (ℕ × Stacks)
new_chunk s = do
  address ← allocate_address_range s.lowest 4096
  let empty : Chunk = record { prev = 0; next = 0; size = 0; stack = λ _. 0 }
  ok (address, put_chunk (record s { lowest = address }) address empty)

unfoldable pub pop_chunk : Stacks → Which → Run (ℕ × Stacks)
pop_chunk s w =
    let f = get s w in
    if f.first == f.last then panic else do
      c ← chunk_at s f.first
      let m =
          if c.next == 0
          then s.chunks
          else write_chunk s.chunks c.next (record (s.chunks c.next) { prev = 0 })
      let f' = record f { first = (m f.first).next; size = sub64 f.size (m f.first).size }
      ok (f.first, put (record s { chunks = m }) w f')

-- a full chunk goes to the front
unfoldable pub push_front : Stacks → Which → ℕ → Chunk → Run Stacks
push_front s w chunk c = do
  let f = get s w
  let s₁ = put_chunk s chunk (record c { prev = 0; next = f.first })
  head ← chunk_at s₁ f.first
  let s₂ = put_chunk s₁ f.first (record head { prev = chunk })
  ok (put s₂ w (record f { first = chunk; size = add64 f.size (s₂.chunks chunk).size }))

-- any other chunk goes behind the last one
unfoldable pub push_back : Stacks → Which → ℕ → Chunk → Run Stacks
push_back s w chunk c = do
  let f = get s w
  tail ← chunk_at s f.last
  let s₁ = put_chunk s chunk (record c { prev = f.last; next = tail.next })
  let s₂ = put_chunk s₁ f.last (record (s₁.chunks f.last) { next = chunk })
  ok (put s₂ w (record f { last = chunk; size = add64 f.size (s₂.chunks chunk).size }))

unfoldable pub push_chunk : Stacks → Which → ℕ → Run Stacks
unfolding push_front push_back
push_chunk s w chunk =
    let f = get s w in
    chunk_at s chunk >>= λ c.
    if f.first == 0
    then ok (put s w (record f { first = chunk; last = chunk; size = c.size }))
    else (if c.size == max then push_front s w chunk c else push_back s w chunk c)

-- `_last = _last->next`, if the last chunk is full
unfoldable pub next_chunk : Stacks → Which → Run Stacks
next_chunk s w =
    let f = get s w in
    chunk_at s f.last >>= λ c.
    ok (if c.size == max then put s w (record f { last = c.next }) else s)

-- `_last->stack[_last->size++] = frame; ++_size;`, a fault outside of the array
unfoldable pub store_frame : Stacks → Which → ℕ → Run Stacks
store_frame s w frame =
    let f = get s w in
    chunk_at s f.last >>= λ c.
    if leb max c.size
    then fault
    else let c' = record c {
      size = c.size + 1;
      stack = λ i. if i == c.size then frame else c.stack i;
    } in
      ok (put (put_chunk s f.last c') w (record f { size = add64 f.size 1 }))

-- `if (_global && _size > _balance) { ... }`
unfoldable pub rebalance : Stacks → Which → Run Stacks
rebalance s w =
    let f = get s w in
    if has_global w && ltb f.balance f.size
    then (pop_chunk s w >>= λ (chunk, s'). push_chunk s' global_stack chunk)
    else ok s

unfoldable pub push : Stacks → Which → ℕ → Run Stacks
push s w frame =
    let f = get s w in
    if f.first == 0
    then (new_chunk s >>= λ (p, s'). ok (put s' w (record f { first = p; last = p })))
    else (chunk_at s f.last >>= λ c.
        if c.size == max - 100 && c.next == 0
        then (new_chunk s >>= λ (p, s₁).
            let s₂ = put_chunk s₁ f.last (record (s₁.chunks f.last) { next = p }) in
            ok (put_chunk s₂ p (record (s₂.chunks p) { prev = f.last })))
        else (next_chunk s w >>= λ s₁. store_frame s₁ w frame >>= λ s₂. rebalance s₂ w))

-- `for (i = 0; i < 8 && _global->size() > max; ++i) push_chunk(_global->pop_chunk());`
unfoldable pub fetch_chunks : ℕ → Stacks → Run Stacks
unfolding pop_chunk push_chunk
fetch_chunks zero s = ok s
fetch_chunks (suc k) s =
    if ltb max s.global.size
    then (pop_chunk s global_stack >>= λ (chunk, s₁).
        push_chunk s₁ this_core chunk >>= λ s₂. fetch_chunks k s₂)
    else ok s

-- The head of `pop`. `others` is what the other cores do to the state when they are asked to give
-- chunks to the global stack.
unfoldable pub refill : (Stacks → Run Stacks) → Stacks → Which → Run Stacks
unfolding fetch_chunks
refill others s global_stack = panic
refill others s this_core =
    (if leb s.global.size max then others s else ok s) >>= λ s'. fetch_chunks 8 s'

-- `_last->stack[--_last->size]; --_size;`, a fault outside of the array
unfoldable pub take_frame : Stacks → Which → Run (ℕ × Stacks)
take_frame s w =
    let f = get s w in
    chunk_at s f.last >>= λ c.
    let i = sub64 c.size 1 in
    if leb max i
    then fault
    else ok (
      c.stack i,
      put (put_chunk s f.last (record c { size = i })) w (record f { size = sub64 f.size 1 }),
    )

-- the locks taken behind that: of the chunk behind the last one, which must not be null
unfoldable pub touch_next : Stacks → Which → Run (Unit {0})
touch_next s w =
    let f = get s w in
    chunk_at s f.last >>= λ c.
    if not (f.last == f.first) && c.size == max - 50
    then (if c.next == 0 then fault else ok tt)
    else ok tt

unfoldable pub pop : (Stacks → Run Stacks) → Stacks → Which → Run (ℕ × Stacks)
pop others s w = do
  s₁ ← (if (get s w).size == 0 then refill others s w else ok s)
  (frame, s₂) ← take_frame s₁ w
  _ ← touch_next s₂ w
  ok (frame, s₂)
