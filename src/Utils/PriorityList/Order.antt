-- ===== src/Utils/PriorityList/Order.antt =====
-- Where `insert` of kernel/utils/priority_list.h puts a payload, against a sorted order.
use reaveros_iteration.Common.{
  ℕ, ◌+◌, ◌≡◌, ◌<◌, ◌^◌, Bool, true, false, [], ◌∷◌, ◌++◌, arith, ok, length,
}
use reaveros_iteration.Utils.Nodes.Linked.{Cells, last_value}
use reaveros_iteration.Utils.Allocator.{Layout}
use reaveros_iteration.Utils.PriorityList.{PriorityList, insert}
use reaveros_iteration.Utils.PriorityList.State.{IsList}
use reaveros_iteration.Utils.PriorityList.Insert.{place, insert-IsList}

module _ {V : Type 0} (less : V → V → Bool) where
  -- no payload is less than the one before it
  abbrev pub IsSorted : Cells V → Type 0
  IsSorted [] = Unit {0}
  IsSorted ((_, v) ∷ []) = Unit {0}
  IsSorted ((_, v) ∷ (b, u) ∷ xs) = (less u v ≡ false) × IsSorted ((b, u) ∷ xs)

  -- no payload is less than that of the first node
  abbrev pub AllFrom : V → Cells V → Type 0
  AllFrom v [] = Unit {0}
  AllFrom v ((_, u) ∷ xs) = (less u v ≡ false) × AllFrom v xs

  abbrev pub IsLeastFirst : Cells V → Type 0
  IsLeastFirst [] = Unit {0}
  IsLeastFirst ((_, v) ∷ xs) = AllFrom v xs

  AllFrom-snoc :
      (w : V) (n : ℕ) (v : V) (xs : Cells V)
      → AllFrom w xs
      → less v w ≡ false
      → AllFrom w (xs ++ (n, v) ∷ [])
  AllFrom-snoc w n v [] h k = (k, tt)
  AllFrom-snoc w n v (x ∷ xs) h k = (h.0, AllFrom-snoc w n v xs h.1 k)

  AllFrom-trans :
      (v w : V) (xs : Cells V)
      → ((a b c : V) → less a b ≡ true → less b c ≡ true → less a c ≡ true)
      → less v w ≡ true
      → AllFrom w xs
      → AllFrom v xs
  AllFrom-trans v w [] trans h k = tt
  AllFrom-trans v w ((_, u) ∷ xs) trans h k =
      (ground (arith, trans u v w, k.0), AllFrom-trans v w xs trans h k.1)

  pub place-IsLeastFirst :
      (n : ℕ) (v : V) (xs : Cells V)
      → ((a b c : V) → less a b ≡ true → less b c ≡ true → less a c ≡ true)
      → ((a : V) → less a a ≡ false)
      → IsLeastFirst xs
      → IsLeastFirst (place less n v xs)
  unfolding place
  place-IsLeastFirst n v [] trans irrefl h = tt
  place-IsLeastFirst n v ((a, w) ∷ xs) trans irrefl h =
      ground (arith, trans w v w, irrefl w, AllFrom-trans v w xs trans, AllFrom-snoc w n v xs h)

  -- Where the first node holds a least payload, it does so after `insert` too.
  pub insert-IsLeastFirst :
      (layout : Layout V) (l : PriorityList V) (v : V) (n : ℕ) (u : V) (xs fs : Cells V)
      → ((a b c : V) → less a b ≡ true → less b c ≡ true → less a c ≡ true)
      → ((a : V) → less a a ≡ false)
      → IsList l xs ((n, u) ∷ fs)
      → length xs + 1 < 2 ^ 64
      → IsLeastFirst xs
      → (r : PriorityList V) × (ys : Cells V) × (insert less layout l v ≡ ok r)
        × IsList r ys fs
        × IsLeastFirst ys
  insert-IsLeastFirst layout l v n u xs fs trans irrefl h room least =
      let (r, run, w) = insert-IsList less layout l v n u xs fs h room in
      (r, place less n v xs, run, w, place-IsLeastFirst n v xs trans irrefl least)

  -- The loop that looks for the place of a new payload stops at the first node: between the ends
  -- the payload always lands second. So a sorted list whose second payload is less than the new
  -- one, which is less than the last, does not stay sorted.
  pub insert-unsorted :
      (layout : Layout V) (l : PriorityList V) (v : V) (n : ℕ) (f : V) (a : ℕ) (w : V) (b : ℕ)
      (u : V) (ys fs : Cells V)
      → IsList l ((a, w) ∷ (b, u) ∷ ys) ((n, f) ∷ fs)
      → length ys + 3 < 2 ^ 64
      → IsSorted ((a, w) ∷ (b, u) ∷ ys)
      → less v w ≡ false
      → less u v ≡ true
      → less (last_value u ys) v ≡ false
      → less v (last_value u ys) ≡ true
      → let zs = (a, w) ∷ (n, v) ∷ (b, u) ∷ ys in
        (r : PriorityList V) × (insert less layout l v ≡ ok r) × IsList r zs fs × ¬ IsSorted zs
  unfolding place
  insert-unsorted layout l v n f a w b u ys fs h room sorted first second last before =
      let (r, run, p) =
        insert-IsList less layout l v n f ((a, w) ∷ (b, u) ∷ ys) fs h (omega arith) in
      let zs : place less n v ((a, w) ∷ (b, u) ∷ ys) ≡ (a, w) ∷ (n, v) ∷ (b, u) ∷ ys =
        ground arith in
      (r, run, rw zs at p, λ s. cc)
