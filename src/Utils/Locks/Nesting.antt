-- ===== src/Utils/Locks/Nesting.antt =====
-- `recursive_spinlock` against how often each core has locked it.
use reaveros_iteration.Common.{
  ℕ, ◌+◌, ◌-◌, ◌^◌, ◌<◌, ◌≡◌, ◌≢◌, ◌↔◌, Bool, sym, ap, ◌∙◌, subst, true, false, ok, arith,
  ℕ_discrete, ◌==◌, if◌then◌else◌, add64, sub64,
}
use reaveros_iteration.Utils.Locks.{RecursiveSpinlock, try_lock, unlock_recursive}

-- `depth c` is how often core `c` has locked the lock and not unlocked it yet.
pub record Nested : Type 0 where
  pub spinlock : RecursiveSpinlock
  pub depth : ℕ → ℕ

abbrev pub set_depth : Nested → ℕ → ℕ → ℕ → ℕ
set_depth s c n d = if d == c then n else s.depth d

-- One core takes one step. No core nests 2^64 locks, and one unlocks only what it has locked.
pub data Step : Nested → Nested → Type 0 where
  enters :
      {s : Nested} (c : ℕ)
      → s.depth c + 1 < 2 ^ 64
      → (try_lock c s.spinlock).0 ≡ true
      → Step s
          (record { spinlock = (try_lock c s.spinlock).1; depth = set_depth s c (s.depth c + 1) })
  waits :
      {s : Nested} (c : ℕ)
      → (try_lock c s.spinlock).0 ≡ false
      → Step s (record s { spinlock = (try_lock c s.spinlock).1 })
  leaves :
      {s : Nested} (c : ℕ) (l : RecursiveSpinlock)
      → 0 < s.depth c
      → unlock_recursive c s.spinlock ≡ ok l
      → Step s (record { spinlock = l; depth = set_depth s c (s.depth c - 1) })

pub data Reach : Nested → Type 0 where
  unlocked : {s : Nested} → s.spinlock.count ≡ 0 → ((c : ℕ) → s.depth c ≡ 0) → Reach s
  later : {s t : Nested} → Reach s → Step s t → Reach t

ok-inj : {x y : RecursiveSpinlock} → ok x ≡ ok y → x ≡ y
ok-inj e = cc e

-- the count is the depth of the owner, and no other core has locked the lock
record Inv (s : Nested) : Type 0 where
  counted : s.spinlock.count ≡ s.depth s.spinlock.owner
  others : (c : ℕ) → c ≢ s.spinlock.owner → s.depth c ≡ 0
  bound : s.spinlock.count < 2 ^ 64

module _ (cpu : ℕ) (l : RecursiveSpinlock) where
  try_lock-unlocked :
      l.count ≡ 0 → try_lock cpu l ≡ (true, record { count = add64 l.count 1; owner = cpu })
  unfolding try_lock
  try_lock-unlocked e = ground arith

  try_lock-owner :
      l.count ≢ 0 → l.owner ≡ cpu → try_lock cpu l ≡ (true, record l { count = add64 l.count 1 })
  unfolding try_lock
  try_lock-owner ne e = ground arith

  try_lock-other : l.count ≢ 0 → l.owner ≢ cpu → try_lock cpu l ≡ (false, l)
  unfolding try_lock
  try_lock-other ne ne' = ground arith

  try_lock-failed : (try_lock cpu l).0 ≡ false → (try_lock cpu l).1 ≡ l
  unfolding try_lock
  try_lock-failed e = ground arith

  unlock_recursive-owner :
      l.count ≢ 0
      → l.owner ≡ cpu
      → unlock_recursive cpu l ≡ ok (record l { count = sub64 l.count 1 })
  unfolding unlock_recursive
  unlock_recursive-owner ne e = ground arith

module _ (s : Nested) (inv : Inv s) (c : ℕ) where
  -- a core that has locked the lock is its owner
  owner_of : 0 < s.depth c → (s.spinlock.count ≢ 0) × (s.spinlock.owner ≡ c)
  owner_of has = elim (ℕ_discrete c s.spinlock.owner) [
    | yes e ↦ ((λ z. omega (arith, inv.counted, ap s.depth e, has, z)), sym e)
    | no ne ↦ absurd (omega (arith, inv.others c ne, has))
  ]

  depth_zero : s.spinlock.count ≡ 0 → s.depth c ≡ 0
  depth_zero z = elim (ℕ_discrete c s.spinlock.owner) [
    | yes e ↦ ap s.depth e ∙ sym inv.counted ∙ z
    | no ne ↦ inv.others c ne
  ]

module _ (s : Nested) (inv : Inv s) (c : ℕ) where
  count_less : 0 < s.depth c → sub64 s.spinlock.count 1 ≡ s.depth c - 1
  count_less has =
      let mine = (owner_of s inv c has).1 in
      let here = ap s.depth mine in omega (arith, inv.counted, inv.bound, here, has)

  got_others_out : (try_lock c s.spinlock).0 ≡ true → (d : ℕ) → d ≢ c → s.depth d ≡ 0
  got_others_out got d ne = elim (ℕ_discrete s.spinlock.count 0) [
    | yes free ↦ depth_zero s inv d free
    | no taken ↦ elim (ℕ_discrete s.spinlock.owner c) [
      | yes mine ↦ inv.others d (λ e. ne (e ∙ mine))
      | no other ↦ cc (sym got ∙ ap (λ r. r.0) (try_lock-other c s.spinlock taken other))
    ]
  ]

  others_out_got : ((d : ℕ) → d ≢ c → s.depth d ≡ 0) → (try_lock c s.spinlock).0 ≡ true
  others_out_got out = elim (ℕ_discrete s.spinlock.count 0) [
    | yes free ↦ ap (λ r. r.0) (try_lock-unlocked c s.spinlock free)
    | no taken ↦ elim (ℕ_discrete s.spinlock.owner c) [
      | yes mine ↦ ap (λ r. r.0) (try_lock-owner c s.spinlock taken mine)
      | no other ↦ absurd (taken (inv.counted ∙ out s.spinlock.owner other))
    ]
  ]

after_lock-Inv :
    (s : Nested) (c : ℕ)
    → Inv s
    → s.depth c + 1 < 2 ^ 64
    → (try_lock c s.spinlock).0 ≡ true
    → Inv (record { spinlock = (try_lock c s.spinlock).1; depth = set_depth s c (s.depth c + 1) })
after_lock-Inv s c inv room got = elim (ℕ_discrete s.spinlock.count 0) [
  | yes free ↦
      let none_here = depth_zero s inv c free in
      subst
        (λ (r : Bool × RecursiveSpinlock).
          Inv (record { spinlock = r.1; depth = set_depth s c (s.depth c + 1) }))
        (sym (try_lock-unlocked c s.spinlock free))
        (record {
          counted = ground (arith, free, none_here);
          others = λ d ne. let zero_there = depth_zero s inv d free in ground (arith, zero_there);
          bound = omega arith;
        })
  | no taken ↦ elim (ℕ_discrete s.spinlock.owner c) [
    | yes mine ↦
        subst
          (λ (r : Bool × RecursiveSpinlock).
            Inv (record { spinlock = r.1; depth = set_depth s c (s.depth c + 1) }))
          (sym (try_lock-owner c s.spinlock taken mine))
          (record {
            counted = (let here = ap s.depth mine in ground (arith, inv.counted, here, room, mine));
            others = λ d ne. let zero_there = inv.others d ne in ground (arith, zero_there, mine);
            bound = omega arith;
          })
    | no other ↦ cc (sym got ∙ ap (λ r. r.0) (try_lock-other c s.spinlock taken other))
  ]
]

after_unlock-Inv :
    (s : Nested) (c : ℕ)
    → Inv s
    → 0 < s.depth c
    → Inv (record {
      spinlock = record s.spinlock { count = sub64 s.spinlock.count 1 };
      depth = set_depth s c (s.depth c - 1);
    })
after_unlock-Inv s c inv has =
    let (some_count, mine) = owner_of s inv c has in
    let here = ap s.depth mine in
    record {
      counted = ground (arith, inv.counted, inv.bound, here, has, mine);
      others = λ d ne. let zero_there = inv.others d ne in ground (arith, zero_there, mine);
      bound = omega arith;
    }

Step-Inv : {s t : Nested} → Inv s → Step s t → Inv t
Step-Inv inv (enters {s} c room got) = after_lock-Inv s c inv room got
Step-Inv inv (waits {s} c busy) =
    subst (λ t. Inv (record s { spinlock = t })) (sym (try_lock-failed c s.spinlock busy)) inv
Step-Inv inv (leaves {s} c l has run) =
    let (some_count, mine) = owner_of s inv c has in
    subst (λ t. Inv (record { spinlock = t; depth = set_depth s c (s.depth c - 1) }))
      (ok-inj (sym (unlock_recursive-owner c s.spinlock some_count mine) ∙ run))
      (after_unlock-Inv s c inv has)

Reach-Inv : {s : Nested} → Reach s → Inv s
Reach-Inv (unlocked {s} z none) = record {
  counted = z ∙ sym (none s.spinlock.owner);
  others = λ c _. none c;
  bound = omega (arith, z);
}
Reach-Inv (later r step) = Step-Inv (Reach-Inv r) step

-- In every reachable state of a recursive_spinlock, where no core nests 2^64 locks and a core
-- unlocks only what it has locked, a core gets the lock exactly if no other core has locked it, and
-- a core that has locked it unlocks it without a panic, which leaves the count one below its depth.
pub try_lock-unlock :
    (s : Nested) (c : ℕ)
    → Reach s
    → ((try_lock c s.spinlock).0 ≡ true ↔ ((d : ℕ) → d ≢ c → s.depth d ≡ 0))
      × (0 < s.depth c
          → (l : RecursiveSpinlock) × (unlock_recursive c s.spinlock ≡ ok l)
            × (l.count ≡ s.depth c - 1))
try_lock-unlock s c r =
    let inv = Reach-Inv r in
    (
      (got_others_out s inv c, others_out_got s inv c),
      λ has.
          let (some_count, mine) = owner_of s inv c has in
          (
            record s.spinlock { count = sub64 s.spinlock.count 1 },
            unlock_recursive-owner c s.spinlock some_count mine,
            count_less s inv c has,
          ),
    )
