-- ===== src/Paging/Tree/Maps.antt =====
-- What the bodies of `map` do to an address space that is read as a view.
use reaveros_iteration.Common.{ℕ, ◌+◌, ◌*◌, ◌<◌, ◌≡◌, ◌≢◌, ◌⊎◌, true, false, ok}
use reaveros_iteration.Paging.Walk.{Bodies}
use reaveros_iteration.Paging.Tree.{View, Adds, Sets}

-- how a state of the loops is read
pub record Reading (S : Type 0) : Type 1 where
  pub view : S → View
  pub taken : S → ℕ
  pub physical : S → ℕ
  pub sound : S → Type 0

-- Entry `i` of `f` leads to a table: nothing changes, or the next frame of the supply is added.
abbrev pub Grows : (ℕ → ℕ) → View → View → ℕ → ℕ → ℕ → ℕ → Type 0
Grows supply v v' taken taken' f i =
    ((v.present f i ≡ true) × (v' ≡ v) × (taken' ≡ taken))
    ⊎ ((v.present f i ≡ false) × Adds v v' f i (supply taken) × (taken' ≡ taken + 1))

module _ {S : Type 0} (r : Reading S) (supply : ℕ → ℕ) (home : ℕ) where
  abbrev pub Makes : ℕ → ℕ → S → S → Type 0
  Makes f i s s' =
      r.sound s'
      × (r.physical s' ≡ r.physical s)
      × Grows supply (r.view s) (r.view s') (r.taken s) (r.taken s') f i

  -- a new table is neither the PML4 in use nor the table that leads to it
  abbrev pub Apart : ℕ → ℕ → S → Type 0
  Apart f i s =
      (r.view s).present f i ≡ false → (supply (r.taken s) ≢ home) × (supply (r.taken s) ≢ f)

module _ {S : Type 0} (bodies : Bodies S) (r : Reading S) (In : ℕ → Type 0) (supply : ℕ → ℕ)
    (most home : ℕ) where
  open bodies use {at_pml4, at_pdpt, at_pd, at_page}

  -- What the four bodies do. Physical addresses are below `most`.
  pub record Maps : Type 0 where
    pub makes_pdpt :
        (a : ℕ) (s : S)
        → r.sound s
        → In a
        → Apart r supply home (r.view s).root a s
        → (s' : S) × (at_pml4 a s ≡ ok s') × Makes r supply home (r.view s).root a s s'
    pub makes_pd :
        (a b f : ℕ) (s : S)
        → r.sound s
        → (r.view s).address (r.view s).root a ≡ f
        → f ≢ home
        → Apart r supply home f b s
        → (s' : S) × (at_pdpt a b s ≡ ok s') × Makes r supply home f b s s'
    pub makes_pt :
        (a b c f : ℕ) (s : S)
        → r.sound s
        → (r.view s).address ((r.view s).address (r.view s).root a) b ≡ f
        → f ≢ home
        → Apart r supply home f c s
        → (s' : S) × (at_pd a b c s ≡ ok s') × Makes r supply home f c s s'
    pub sets_page :
        (a b c d f to : ℕ) (s : S)
        → r.sound s
        → f ≡ (r.view s).address ((r.view s).address ((r.view s).address (r.view s).root a) b) c
        → f ≢ home
        → r.physical s ≡ to * 4096
        → to < most
        → ((r.view s).present f d ≡ true → (r.view s).address f d ≡ to)
        → (s' : S) × (at_page a b c d s ≡ ok s')
          × r.sound s'
          × (r.physical s' ≡ (to + 1) * 4096)
          × (r.taken s' ≡ r.taken s)
          × Sets (r.view s) (r.view s') f d to
