-- ===== src/Pmm/Chunks.antt =====
-- Chunks that `pop_chunk` and `push_chunk` of kernel/memory/stack.cpp move between two stacks.
use reaveros_iteration.Common.{ℕ, ◌+◌, ◌-◌, ◌^◌, ◌≡◌, ◌≤◌, ◌<◌, sym, ◌∙◌, ap, arith, ok}
use reaveros_iteration.Pmm.FrameStack.{Stacks, this_core, global_stack, pop_chunk, push_chunk}

pop_chunk-size :
    (s s₁ : Stacks) (chunk : ℕ)
    → pop_chunk s global_stack ≡ ok (chunk, s₁)
    → (s₁.chunks chunk).size ≤ s.global.size
    → s.global.size < 2 ^ 64
    → (s₁.global.size ≡ s.global.size - (s₁.chunks chunk).size) × (s₁.local ≡ s.local)
unfolding pop_chunk
pop_chunk-size s s₁ chunk run le small = ground arith

push_chunk-size :
    (s s₁ : Stacks) (chunk : ℕ)
    → push_chunk s this_core chunk ≡ ok s₁
    → (s.local.first ≡ 0 → s.local.size ≡ 0)
    → s.local.size + (s.chunks chunk).size < 2 ^ 64
    → (s₁.local.size ≡ s.local.size + (s.chunks chunk).size) × (s₁.global ≡ s.global)
unfolding push_chunk
push_chunk-size s s₁ chunk run empty small = ground arith

-- A chunk that goes from the global stack to that of a core takes as many frames off the one size
-- as it adds to the other, where the sizes count at least the frames of the chunk and do not wrap.
pub move_chunk-sizes :
    (s s₁ s₂ : Stacks) (chunk : ℕ)
    → pop_chunk s global_stack ≡ ok (chunk, s₁)
    → push_chunk s₁ this_core chunk ≡ ok s₂
    → (s₁.chunks chunk).size ≤ s.global.size
    → (s.local.first ≡ 0 → s.local.size ≡ 0)
    → s.local.size + s.global.size < 2 ^ 64
    → s₂.local.size + s₂.global.size ≡ s.local.size + s.global.size
move_chunk-sizes s s₁ s₂ chunk popped pushed le empty small =
    let (global, local) = pop_chunk-size s s₁ chunk popped le (omega arith) in
    let first = ap (λ f. f.first) local in
    let size = ap (λ f. f.size) local in
    let (local', global') =
      push_chunk-size s₁ s₂ chunk pushed (λ e. size ∙ empty (sym first ∙ e)) (omega arith) in
    omega (arith, global, size, local', ap (λ f. f.size) global')
