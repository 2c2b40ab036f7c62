-- ===== src/Paging/Tree/Goal.antt =====
-- What mapping a range asks of the tables, and what it leaves.
use reaveros_iteration.Common.{ℕ, ◌+◌, ◌-◌, ◌/◌, ◌≤◌, ◌<◌, ◌≡◌, ◌⊎◌, true, none, some, arith}
use reaveros_iteration.Paging.Tree.{View, frame_of, frame_in_pt, frame_in_pd, frame_in_pdpt}
use reaveros_iteration.Paging.Tree.Progress.{number}
use reaveros_iteration.Paging.Tree.Fill.{HasPdpt, HasPd, HasPt}

-- Each page of the range may be in the address space only where the range maps it to.
abbrev pub Clear : (ℕ → Type 0) → ℕ → ℕ → ℕ → View → Type 0
Clear In first last frame v₀ =
    (a b c d : ℕ)
    → In a
    → b < 512
    → c < 512
    → d < 512
    → first ≤ number a b c d
    → number a b c d < last
    → (frame_of v₀ a b c d ≡ none) ⊎ (frame_of v₀ a b c d ≡ some (frame + (number a b c d - first)))

-- The entries of the PML4 for the range are among those that `In` allows.
abbrev pub Allowed : (ℕ → Type 0) → ℕ → ℕ → Type 0
Allowed In first last = (k : ℕ) → first ≤ k → k < last → In (k / 134217728)

-- The pages of the range are found at consecutive frames, and all others are as they were.
abbrev pub Mapped : (ℕ → Type 0) → ℕ → ℕ → ℕ → View → View → Type 0
Mapped In first last frame v v' =
    (a b c d : ℕ)
    → In a
    → b < 512
    → c < 512
    → d < 512
    → (first ≤ number a b c d
        → number a b c d < last
        → frame_of v' a b c d ≡ some (frame + (number a b c d - first)))
      × ((number a b c d < first) ⊎ (last ≤ number a b c d)
          → frame_of v' a b c d ≡ frame_of v a b c d)

-- the entry of a page whose tables are there
pub leaf_entry :
    (v : View) (a b c d f to : ℕ)
    → HasPdpt v a
    → HasPd v a b
    → HasPt v a b c
    → f ≡ v.address (v.address (v.address v.root a) b) c
    → (frame_of v a b c d ≡ none) ⊎ (frame_of v a b c d ≡ some to)
    → v.present f d ≡ true
    → v.address f d ≡ to
unfolding frame_of frame_in_pdpt frame_in_pd frame_in_pt
leaf_entry v a b c d f to p₄ p₃ p₂ way found there = ground (arith, p₄, p₃, p₂, way, found, there)
