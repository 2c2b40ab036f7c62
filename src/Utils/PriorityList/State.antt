-- ===== src/Utils/PriorityList/State.antt =====
-- What a priority list stands for: the addresses and payloads of its nodes, in order, beside the
-- nodes that its allocator holds free.
use reaveros_iteration.Common.{ℕ, ◌≡◌, ◌≢◌, sym, subst, [], ◌∷◌, length, ℕ_discrete}
use reaveros_iteration.Utils.Nodes.Linked.{Cells, IsAway, Linked, last_address, ne_of_near}
use reaveros_iteration.Utils.PriorityList.{PriorityList}

-- no address of one chain is in the other
abbrev pub Apart : {V : Type 0} → Cells V → Cells V → Type 0
Apart [] fs = Unit {0}
Apart ((a, _) ∷ xs) fs = IsAway a fs × Apart xs fs

-- `xs` are the nodes of the list, `fs` those of the free list
pub record IsList {V : Type 0} (l : PriorityList V) (xs fs : Cells V) : Type 0 where
  pub chain : Linked l.memory l.first xs
  pub spare : Linked l.memory l.pool.free fs
  pub apart : Apart xs fs
  pub ends : l.last ≡ last_address l.last xs
  pub counted : l.size ≡ length xs
  pub filled : l.pool.free_count ≢ 0

module _ {V : Type 0} where
  pub Apart-IsAway : (b : ℕ) (xs fs : Cells V) → Apart xs fs → ¬ IsAway b fs → IsAway b xs
  Apart-IsAway b [] fs h near = tt
  Apart-IsAway b ((a, v) ∷ xs) fs h near =
      (ne_of_near a b fs h.0 near, Apart-IsAway b xs fs h.1 near)

  pub Apart-uncons :
      (n : ℕ) (u : V) (xs fs : Cells V) → Apart xs ((n, u) ∷ fs) → IsAway n xs × Apart xs fs
  Apart-uncons n u [] fs h = (tt, tt)
  Apart-uncons n u ((a, v) ∷ xs) fs h =
      let rest = Apart-uncons n u xs fs h.1 in ((λ e. h.0.0 (sym e), rest.0), (h.0.1, rest.1))

  pub Apart-near : (b : ℕ) (xs fs : Cells V) → Apart xs fs → ¬ IsAway b xs → IsAway b fs
  Apart-near b [] fs h near = absurd (near tt)
  Apart-near b ((a, v) ∷ xs) fs h near = elim (ℕ_discrete b a) [
    | yes e ↦ subst (λ c. IsAway c fs) (sym e) h.0
    | no ne ↦ Apart-near b xs fs h.1 (λ out. near (ne, out))
  ]

  pub Apart-insert :
      (f : ℕ) (u : V) (a : ℕ) (v : V) (xs fs : Cells V)
      → Apart xs ((f, u) ∷ fs)
      → IsAway a xs
      → Apart xs ((f, u) ∷ (a, v) ∷ fs)
  Apart-insert f u a v [] fs h out = tt
  Apart-insert f u a v ((b, w) ∷ xs) fs h out =
      ((h.0.0, (λ e. out.0 (sym e), h.0.1)), Apart-insert f u a v xs fs h.1 out.1)
