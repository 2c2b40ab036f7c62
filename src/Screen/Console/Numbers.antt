-- ===== src/Screen/Console/Numbers.antt =====
-- Numbers on the console of kernel/screen/console.cpp: what is printed can be read back.
use native.Mathlib.Nat.{
  div-add-mod, pow-suc, mod-lt, mul-le-mul_right, mul-add-mod_self_left, mod-eq_of_lt, one-le-pow,
}
use reaveros_iteration.Common.{
  ℕ, zero, suc, ◌+◌, ◌-◌, ◌*◌, ◌/◌, ◌%◌, ◌^◌, ◌≡◌, ◌≢◌, ◌≤◌, ◌<◌, ◌⊎◌, inl, inr, refl, sym, ap, ◌∙◌,
  true, false, List, [], ◌∷◌, ◌++◌, ok, ◌==◌, ltb, leb, if◌then◌else◌, length, arith, ℕ_discrete,
  dec_lt,
}
use reaveros_iteration.Screen.Console.{
  Console, print_char, print_unsigned, print_signed, hex_digit, print_hex, print_pointer, emit,
}

-- characters put out one after the other
abbrev pub print_all : List ℕ → Console → Console
print_all [] s = s
print_all (c ∷ cs) s = print_all cs (print_char c s)

-- the number that decimal digits stand for, behind the number `n`
abbrev pub value_from : ℕ → List ℕ → ℕ
value_from n [] = n
value_from n (c ∷ cs) = value_from (n * 10 + (c - 0x30)) cs

abbrev pub AllDigits : List ℕ → Type 0
AllDigits [] = Unit
AllDigits (c ∷ cs) = (0x30 ≤ c) × (c ≤ 0x39) × AllDigits cs

-- decimal digits, of which the first is not a zero unless it is alone, and which stand for `t`
pub record IsDecimal (t : ℕ) (cs : List ℕ) : Type 0 where
  pub digits : AllDigits cs
  pub value : value_from 0 cs ≡ t
  pub first : ℕ
  pub others : List ℕ
  pub shape : cs ≡ first ∷ others
  pub no_zeros : first ≡ 0x30 → t ≡ 0

print_all-append :
    (cs ds : List ℕ) (s : Console) → print_all (cs ++ ds) s ≡ print_all ds (print_all cs s)
print_all-append [] ds s = refl
print_all-append (c ∷ cs) ds s = print_all-append cs ds (print_char c s)

value_from-append :
    (n : ℕ) (cs : List ℕ) (c : ℕ)
    → value_from n (cs ++ (c ∷ [])) ≡ value_from n cs * 10 + (c - 0x30)
value_from-append n [] c = refl
value_from-append n (d ∷ cs) c = value_from-append (n * 10 + (d - 0x30)) cs c

AllDigits-append :
    (cs : List ℕ) (c : ℕ) → AllDigits cs → 0x30 ≤ c → c ≤ 0x39 → AllDigits (cs ++ (c ∷ []))
AllDigits-append [] c all low high = (low, high, tt)
AllDigits-append (d ∷ cs) c (l, h, all) low high = (l, h, AllDigits-append cs c all low high)

one_digit : (t : ℕ) → t < 10 → IsDecimal t ((0x30 + t % 10) ∷ [])
one_digit t small = record {
  digits = (omega arith, omega arith, tt);
  value = omega arith;
  first = 0x30 + t % 10;
  others = [];
  shape = refl;
  no_zeros = λ e. omega arith;
}

IsDecimal-next :
    (t : ℕ) (cs : List ℕ)
    → t / 10 ≢ 0
    → IsDecimal (t / 10) cs
    → IsDecimal t (cs ++ ((0x30 + t % 10) ∷ []))
IsDecimal-next t cs some_left front = record {
  digits = AllDigits-append cs (0x30 + t % 10) front.digits (omega arith) (omega arith);
  value =
      value_from-append 0 cs (0x30 + t % 10)
      ∙ ap (λ (n : ℕ). n * 10 + (0x30 + t % 10 - 0x30)) front.value
      ∙ omega arith;
  first = front.first;
  others = front.others ++ ((0x30 + t % 10) ∷ []);
  shape = ap (λ (l : List ℕ). l ++ ((0x30 + t % 10) ∷ [])) front.shape;
  no_zeros = λ e. absurd (some_left (front.no_zeros e));
}

last_digit :
    (fuel t : ℕ) (s : Console)
    → t / 10 ≡ 0
    → print_unsigned (suc fuel) t s ≡ ok (print_char (0x30 + t % 10) s)
unfolding print_unsigned
last_digit fuel t s e = elim (ℕ_discrete t 0) [
  | yes none_left ↦ rw none_left refl
  | no some_left ↦
      let some_number : (t == 0) ≡ false = ground (arith, some_left) in rw (some_number, e) refl
]

further_digit :
    (fuel t : ℕ) (s : Console) (cs : List ℕ)
    → t / 10 ≢ 0
    → print_unsigned fuel (t / 10) s ≡ ok (print_all cs s)
    → print_unsigned (suc fuel) t s ≡ ok (print_all (cs ++ ((0x30 + t % 10) ∷ [])) s)
unfolding print_unsigned
further_digit fuel t s cs ne run =
    let some_left : (t / 10 == 0) ≡ false = ground (arith, ne) in
    let some_number : (t == 0) ≡ false = ground (arith, ne) in
    rw (some_number, some_left, run) (ap ok (sym (print_all-append cs ((0x30 + t % 10) ∷ []) s)))

-- The unsigned `_print_int` returns, and prints decimal digits that stand for the number, with no
-- zero in front.
pub print_unsigned-IsDecimal :
    (fuel t : ℕ) (s : Console)
    → t < 10 ^ suc fuel
    → (cs : List ℕ) × (print_unsigned (suc fuel) t s ≡ ok (print_all cs s)) × IsDecimal t cs
print_unsigned-IsDecimal zero t s fits =
    ((0x30 + t % 10) ∷ [], last_digit 0 t s (omega arith), one_digit t (omega arith))
print_unsigned-IsDecimal (suc fuel) t s fits = elim (ℕ_discrete (t / 10) 0) [
  | yes e ↦ ((0x30 + t % 10) ∷ [], last_digit (suc fuel) t s e, one_digit t (omega arith))
  | no ne ↦
      let (cs, run, front) =
        print_unsigned-IsDecimal fuel (t / 10) s (omega (arith, pow-suc 10 (suc fuel))) in
      (
        cs ++ ((0x30 + t % 10) ∷ []),
        further_digit (suc fuel) t s cs ne run,
        IsDecimal-next t cs ne front,
      )
]

-- _print_int of a signed type prints any value but the least as decimal digits that can be read
-- back as the value, without a zero in front, and with a minus before the digits of its negative if
-- it is negative; with more fuel than digits it returns.
pub print_signed-IsDecimal :
    (w fuel t : ℕ) (s : Console)
    → t < 2 ^ w
    → t ≢ 2 ^ (w - 1)
    → 2 ^ w ≤ 10 ^ suc fuel
    → ((t < 2 ^ (w - 1))
        × ((cs : List ℕ) × (print_signed w (suc fuel) t s ≡ ok (print_all cs s)) × IsDecimal t cs))
      ⊎ ((2 ^ (w - 1) < t)
          × ((cs : List ℕ) × (print_signed w (suc fuel) t s ≡ ok (print_all (0x2d ∷ cs) s))
              × IsDecimal (2 ^ w - t) cs))
unfolding print_signed
print_signed-IsDecimal w fuel t s inside other long =
    let not_least : (t == 2 ^ (w - 1)) ≡ false = ground (arith, other) in
    elim (dec_lt (2 ^ (w - 1)) t) [
      | yes negative ↦
          let test : ltb (2 ^ (w - 1)) t ≡ true = ground (arith, negative) in
          let (cs, run, good) =
            print_unsigned-IsDecimal fuel (2 ^ w - t) (print_char 0x2d s)
              (omega (arith, negative)) in
          inr (negative, (cs, rw (not_least, test) run, good))
      | no le ↦
          let test : ltb (2 ^ (w - 1)) t ≡ false = ground (arith, le) in
          let (cs, run, good) = print_unsigned-IsDecimal fuel t s (omega arith) in
          inl (omega (arith, other), (cs, rw (not_least, test) run, good))
    ]

-- the number that hexadecimal digits stand for, behind the number `n`
abbrev pub hex_value : ℕ → ℕ
hex_value c = if leb c 0x39 then c - 0x30 else c - 0x41 + 10

abbrev pub hex_from : ℕ → List ℕ → ℕ
hex_from n [] = n
hex_from n (c ∷ cs) = hex_from (n * 16 + hex_value c) cs

hex_value-hex_digit : (d : ℕ) → d < 16 → hex_value (hex_digit d) ≡ d
unfolding hex_digit
hex_value-hex_digit d small = ground arith

-- a digit and the digits below it
split_digit : (p v : ℕ) → 0 < p → v / p % 16 * p + v % p ≡ v % (p * 16)
split_digit p v pos =
    let outer = div-add-mod v p in
    let inner = div-add-mod (v / p) 16 in
    let rest = mod-lt v pos in
    let digit : v / p % 16 ≤ 15 = omega arith in
    let small : v / p % 16 * p + v % p < p * 16 = omega (arith, mul-le-mul_right p digit, rest) in
    let times : p * (v / p) ≡ p * 16 * (v / p / 16) + v / p % 16 * p =
      ap (λ (n : ℕ). p * n) (sym inner) ∙ omega arith in
    let whole : v ≡ p * 16 * (v / p / 16) + (v / p % 16 * p + v % p) =
      omega (arith, outer, times) in
    sym (
      ap (λ (n : ℕ). n % (p * 16)) whole
      ∙ mul-add-mod_self_left (p * 16) (v / p / 16) (v / p % 16 * p + v % p)
      ∙ mod-eq_of_lt small)

hex_lem :
    (k v n : ℕ) (s : Console)
    → (cs : List ℕ) × (print_hex k v s ≡ print_all cs s)
      × (length cs ≡ k)
      × (hex_from n cs ≡ n * 16 ^ k + v % 16 ^ k)
unfolding print_hex
hex_lem zero v n s = ([], refl, refl, omega arith)
hex_lem (suc k) v n s =
    let d = v / 16 ^ k % 16 in
    let (cs, run, long, value) = hex_lem k v (n * 16 + d) (print_char (hex_digit d) s) in
    let here : hex_value (hex_digit d) ≡ d = hex_value-hex_digit d (omega arith) in
    (
      hex_digit d ∷ cs,
      run,
      ap suc long,
      ap (λ (x : ℕ). hex_from (n * 16 + x) cs) here
          ∙ value
          ∙ (let split = split_digit (16 ^ k) v (one-le-pow k 16 (omega arith)) in
              let power : 16 ^ suc k ≡ 16 ^ k * 16 = pow-suc 16 k in
              rw power (omega (arith, split))),
    )

-- A pointer is printed as `0x` and sixteen hexadecimal digits, which stand for it.
pub print_pointer-digits :
    (v : ℕ) (s : Console)
    → v < 2 ^ 64
    → (cs : List ℕ) × (print_pointer v s ≡ print_all (0x30 ∷ 0x78 ∷ cs) s)
      × (length cs ≡ 16)
      × (hex_from 0 cs ≡ v)
unfolding print_pointer print_char
print_pointer-digits v s small =
    let (cs, run, long, value) = hex_lem 16 v 0 (emit 0x78 (emit 0x30 s)) in
    (cs, run, long, value ∙ omega arith)
