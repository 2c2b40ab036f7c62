-- ===== src/Paging/Tree/Progress.antt =====
-- How far a range is mapped: the invariant of `map`, for any address space that is read as a view.
use reaveros_iteration.Common.{
  ℕ, ◌+◌, ◌-◌, ◌*◌, ◌/◌, ◌%◌, ◌≤◌, ◌<◌, ◌≡◌, ◌≢◌, ◌⊎◌, inl, inr, sym, ap, ◌∙◌, true, false, some,
  if◌then◌else◌, arith, ℕ_discrete,
}
use reaveros_iteration.Paging.Tree.{
  pml4, View, frame_of, Role, unused, pt, child, Leads, IsTree, Adds, Sets,
}
use reaveros_iteration.Paging.Tree.Grow.{
  assign_role, Adds-IsTree, Adds-frame_of, role-pdpt, role-pd, role-pt,
}
use reaveros_iteration.Paging.Tree.Pages.{
  Changes-IsTree, Changes-frame_of-other, Changes-way, Sets-Changes, Sets-frame,
}

abbrev pub number : ℕ → ℕ → ℕ → ℕ → ℕ
number a b c d = ((a * 512 + b) * 512 + c) * 512 + d

-- how many tables are not there yet on the way to a page
abbrev pub missing : View → ℕ → ℕ → ℕ → ℕ
missing v a b c =
    if v.present v.root a
    then (if v.present (v.address v.root a) b
        then (if v.present (v.address (v.address v.root a) b) c then 0 else 1)
        else 2)
    else 3

abbrev pub missing_at : View → ℕ → ℕ
missing_at v n = missing v (n / 134217728) (n / 262144 % 512) (n / 512 % 512)

missing-le : (v : View) (a b c : ℕ) → missing v a b c ≤ 3
missing-le v a b c = ground arith

pub missing_at-le : (v : View) (n : ℕ) → missing_at v n ≤ 3
missing_at-le v n = missing-le v (n / 134217728) (n / 262144 % 512) (n / 512 % 512)

pub missing_at-number :
    (v : View) (a b c d : ℕ)
    → b < 512
    → c < 512
    → d < 512
    → missing_at v (number a b c d) ≡ missing v a b c
missing_at-number v a b c d lb lc ld =
    let ea : number a b c d / 134217728 ≡ a = omega arith in
    let eb : number a b c d / 262144 % 512 ≡ b = omega arith in
    let ec : number a b c d / 512 % 512 ≡ c = omega arith in rw (ea, eb, ec)

pub number-inj :
    (a b c d a' b' c' d' : ℕ)
    → b < 512
    → c < 512
    → d < 512
    → b' < 512
    → c' < 512
    → d' < 512
    → number a b c d ≡ number a' b' c' d'
    → (a ≡ a') × (b ≡ b') × (c ≡ c') × (d ≡ d')
number-inj a b c d a' b' c' d' lb lc ld lb' lc' ld' e =
    (omega arith, omega arith, omega arith, omega arith)

module _ {first k n : ℕ} (out : (k < first) ⊎ (n + 1 ≤ k)) where
  pub outside_weaken : (k < first) ⊎ (n ≤ k)
  outside_weaken = elim out [ inl l ↦ inl l | inr r ↦ inr (omega arith) ]

  pub outside_ne : first ≤ n → k ≢ n
  outside_ne lo e = elim out [ inl l ↦ omega arith | inr r ↦ omega arith ]

-- the first `limit` frames of a supply are different
abbrev pub AllDifferent : (ℕ → ℕ) → ℕ → Type 0
AllDifferent supply limit = (j k : ℕ) → j < k → k < limit → supply j ≢ supply k

-- `supply` are the frames for new tables, `limit` of them, all different; `home` is the PML4 that
-- the processor uses.
module _ (In : ℕ → Type 0) (supply : ℕ → ℕ) (limit first last frame home : ℕ) (v₀ : View) where
  -- The pages from `first` to `n` are mapped to the frames from `frame` on, and all others are as
  -- in `v₀`. The tables are a tree, and enough frames are left for three new ones to each page.
  pub record Progress (n taken : ℕ) (v : View) : Type 0 where
    pub role : ℕ → Role
    pub tree : IsTree In v role
    pub at_home : role home ≡ pml4
    pub free : (k : ℕ) → taken ≤ k → k < limit → role (supply k) ≡ unused
    pub enough : taken + missing_at v n + 3 * (last - n) ≤ limit + 3
    pub done :
        (a b c d : ℕ)
        → In a
        → b < 512
        → c < 512
        → d < 512
        → first ≤ number a b c d
        → number a b c d < n
        → frame_of v a b c d ≡ some (frame + (number a b c d - first))
    pub rest :
        (a b c d : ℕ)
        → In a
        → b < 512
        → c < 512
        → d < 512
        → (number a b c d < first) ⊎ (n ≤ number a b c d)
        → frame_of v a b c d ≡ frame_of v₀ a b c d

  -- the next frame of the supply becomes a table on the way to page `n`
  pub grow :
      (n taken f i : ℕ) (v v' : View) (p : Progress n taken v)
      → AllDifferent supply limit
      → n < last
      → Leads In (p.role f) i
      → v.present f i ≡ false
      → Adds v v' f i (supply taken)
      → missing_at v' n + 1 ≤ missing_at v n
      → Progress n (taken + 1) v'
  grow n taken f i v v' p different inside leads absent adds less =
      let room : taken < limit = omega (arith, p.enough) in
      let free = p.free taken (omega arith) room in
      let new = supply taken in
      let same = Adds-frame_of In v v' p.role f i new p.tree free leads absent adds in
      record {
        role = assign_role p.role new (child (p.role f) i);
        tree = Adds-IsTree In v v' p.role f i new p.tree free leads absent adds;
        at_home =
            (let apart : home ≢ new = λ e. cc (sym p.at_home ∙ ap p.role e ∙ free) in
              ground (arith, p.at_home));
        free = λ k le lt.
            ground (arith, p.free k (omega arith) lt, different taken k (omega arith) lt);
        enough = omega (arith, p.enough);
        done = λ a b c d ia ib ic id lo hi. same a b c d ia ∙ p.done a b c d ia ib ic id lo hi;
        rest = λ a b c d ia ib ic id out. same a b c d ia ∙ p.rest a b c d ia ib ic id out;
      }

  -- a table that is missing has a frame left for it
  pub spare :
      (a b c d taken : ℕ) (v : View) (p : Progress (number a b c d) taken v)
      → b < 512
      → c < 512
      → d < 512
      → number a b c d < last
      → missing v a b c ≢ 0
      → p.role (supply taken) ≡ unused
  spare a b c d taken v p ib ic id more some_missing =
      let count = missing_at-number v a b c d ib ic id in
      p.free taken (omega arith) (omega (arith, p.enough, count, some_missing))

  -- page `n` is mapped
  pub place :
      (a b c d taken f : ℕ) (v v' : View) (p : Progress (number a b c d) taken v)
      → In a
      → b < 512
      → c < 512
      → d < 512
      → first ≤ number a b c d
      → number a b c d < last
      → v.present v.root a ≡ true
      → v.present (v.address v.root a) b ≡ true
      → v.present (v.address (v.address v.root a) b) c ≡ true
      → f ≡ v.address (v.address (v.address v.root a) b) c
      → Sets v v' f d (frame + (number a b c d - first))
      → Progress (number a b c d + 1) taken v'
        × (v'.present v'.root a ≡ true)
        × (v'.present (v'.address v'.root a) b ≡ true)
        × (v'.present (v'.address (v'.address v'.root a) b) c ≡ true)
  place a b c d taken f v v' p ia ib ic id lo hi p₄ p₃ p₂ way sets =
      let r₃ = role-pdpt In v p.role p.tree a ia p₄ in
      let r₂ = role-pd In v p.role p.tree (v.address v.root a) a b r₃ p₃ in
      let r₁ = role-pt In v p.role p.tree (v.address (v.address v.root a) b) a b c r₂ p₂ in
      let leaf : p.role f ≡ pt a b c = ap p.role way ∙ r₁ in
      let to = frame + (number a b c d - first) in
      let changes = Sets-Changes v v' f d to sets in
      let (s₄, s₃, s₂, at) =
        Changes-way In v v' p.role f a b c d p.tree leaf changes ia p₄ p₃ p₂ way in
      let here = at ∙ Sets-frame v v' f d to sets in
      let other = Changes-frame_of-other In v v' p.role f a b c d p.tree leaf changes in
      (
        record {
          role = p.role;
          tree = Changes-IsTree In v v' p.role f a b c d p.tree leaf changes;
          at_home = p.at_home;
          free = p.free;
          enough =
              let some_left = missing_at-le v' (number a b c d + 1) in
              omega (arith, p.enough, some_left);
          done = λ a' b' c' d' ia' ib' ic' id' lo' hi'.
              elim (ℕ_discrete (number a' b' c' d') (number a b c d)) [
                | yes e ↦
                    let (ea, eb, ec, ed) = number-inj a' b' c' d' a b c d ib' ic' id' ib ic id e in
                    rw (ea, eb, ec, ed, here)
                | no ne ↦
                    other a' b' c' d' ia' (λ (ea, eb, ec, ed). ne (rw (ea, eb, ec, ed)))
                    ∙ p.done a' b' c' d' ia' ib' ic' id' lo' (omega arith)
              ];
          rest = λ a' b' c' d' ia' ib' ic' id' out.
              other a' b' c' d' ia' (λ (ea, eb, ec, ed). outside_ne out lo (rw (ea, eb, ec, ed)))
              ∙ p.rest a' b' c' d' ia' ib' ic' id' (outside_weaken out);
        },
        s₄,
        s₃,
        s₂,
      )
