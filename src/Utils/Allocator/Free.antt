-- ===== src/Utils/Allocator/Free.antt =====
-- `allocate` and `free` on a free list that holds nodes.
use reaveros_iteration.Common.{ℕ, ◌+◌, ◌<◌, ◌^◌, ◌≡◌, ◌≢◌, sym, subst, [], ◌∷◌, arith, ok, add64}
use reaveros_iteration.Utils.Nodes.{Memory, write}
use reaveros_iteration.Utils.Nodes.Linked.{Cells, IsAway, Linked, Linked-frame, ne_of_near}
use reaveros_iteration.Utils.Allocator.{Allocator, free}

module _ {V : Type 0} where
  -- `p` is linked in behind the head `f` of the free list
  pub record Frees (m : Memory V) (a : Allocator) (fs : Cells V) (r : Memory V × Allocator)
      : Type 0 where
    pub chain : Linked r.0 r.1.free fs
    pub count : r.1.free_count ≡ a.free_count + 1
    pub same : (b : ℕ) → IsAway b fs → r.0 b ≡ m b

  -- `free` of a node outside of a free list that holds one links it in behind the head, counts it,
  -- and leaves the nodes outside of the new free list as they are.
  pub free-Frees :
      (m : Memory V) (a : Allocator) (p : ℕ) (v : V) (f : ℕ) (u : V) (fs : Cells V)
      → Linked m a.free ((f, u) ∷ fs)
      → p ≢ 0
      → IsAway p ((f, u) ∷ fs)
      → (m p).value ≡ v
      → a.free_count + 1 < 2 ^ 64
      → (r : Memory V × Allocator) × (free m a p ≡ ok r) × Frees m a ((f, u) ∷ (p, v) ∷ fs) r
  unfolding free
  free-Frees m a p v f u [] h real away here room =
      let m₁ = write m p (record (m p) { next = 0 }) in
      let m₂ = write m₁ p (record (m₁ p) { prev = f }) in
      let m₃ = write m₂ f (record (m₂ f) { next = p }) in
      let f≢p : f ≢ p = λ e. away.0 (sym e) in
      (
        (m₃, record a { free_count = add64 a.free_count 1 }),
        ground (arith, h, h.4),
        record {
          chain = (
            h.0,
            h.1,
            ground arith,
            (f≢p, tt),
            (ground arith, real, ground arith, tt, ground (arith, h.4)),
          );
          count = ground arith;
          same = λ b out. ground (arith, out.0, out.1.0);
        },
      )
  free-Frees m a p v f u ((g, w) ∷ gs) h real away here room =
      let m₁ = write m p (record (m p) { next = g }) in
      let m₂ = write m₁ p (record (m₁ p) { prev = f }) in
      let m₃ = write m₂ g (record (m₂ g) { prev = p }) in
      let m₄ = write m₃ f (record (m₃ f) { next = p }) in
      let f≢p : f ≢ p = λ e. away.0 (sym e) in
      let g≢p : g ≢ p = λ e. away.1.0 (sym e) in
      (
        (m₄, record a { free_count = add64 a.free_count 1 }),
        ground (arith, h, h.4, h.3.0),
        record {
          chain = (
            h.0,
            h.1,
            ground arith,
            (f≢p, h.3),
            (
              ground (arith, h.3.0),
              real,
              ground (arith, h.3.0),
              away.1,
              (
                ground (arith, h.3.0),
                h.4.1,
                ground (arith, h.4.2, h.3.0),
                h.4.3,
                subst (λ q. Linked m₄ q gs) (ground (arith, h.3.0))
                    (Linked-frame m m₄ (m g).next gs
                      (λ b near.
                        let b≢p = ne_of_near p b gs away.1.1 near in
                        let b≢f = ne_of_near f b gs h.3.1 near in
                        let b≢g = ne_of_near g b gs h.4.3 near in (ground arith, ground arith))
                      h.4.4),
              ),
            ),
          );
          count = ground arith;
          same = λ b out. ground (arith, out.0, out.1.0, out.1.1.0);
        },
      )
