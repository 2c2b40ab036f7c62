-- ===== src/Screen/Console/Text.antt =====
-- Strings on the console of kernel/screen/console.cpp.
use reaveros_iteration.Common.{
  ℕ, zero, suc, ◌+◌, ◌*◌, ◌^◌, ◌≡◌, ◌≢◌, ◌<◌, refl, sym, ap, subst, ◌∙◌, true, false, ok, ◌==◌,
  arith,
}
use reaveros_iteration.Utils.Raf.{Bytes}
use reaveros_iteration.Screen.Console.{
  Console, set_color, show, emit, nibble_of, Color, read_color, close_color, escape, is_escape,
  print,
}

-- the first `n` characters of a string, each put out once and in order
unfoldable pub emit_all : (n : ℕ) → Bytes → ℕ → Console → Console
emit_all zero m str s = s
emit_all (suc n) m str s = emit_all n m (str + 1) (emit (m str) s)

-- print of a string that does not hold the start of a color returns, and prints each character of
-- it once and in order, and nothing behind its end.
pub print-emit_all :
    (n fuel : ℕ) (m : Bytes) (str : ℕ) (s : Console)
    → ((i : ℕ) → i < n → (m (str + i) ≢ 0) × (is_escape m (str + i) ≡ false))
    → m (str + n) ≡ 0
    → n < fuel
    → print fuel m str s ≡ ok (emit_all n m str s)
unfolding print emit_all
print-emit_all n zero m str s plain ends enough = absurd (omega arith)
print-emit_all zero (suc fuel) m str s plain ends enough =
    let same : str + 0 ≡ str = omega arith in
    let at_end : m str ≡ 0 = ap m (sym same) ∙ ends in ground (arith, at_end)
print-emit_all (suc n) (suc fuel) m str s plain ends enough =
    let same : str + 0 ≡ str = omega arith in
    let (some_char, no_color) = plain 0 (omega arith) in
    let here : (m str == 0) ≡ false = ground (arith, subst (λ (a : ℕ). m a ≢ 0) same some_char) in
    let start : is_escape m str ≡ false = subst (λ (a : ℕ). is_escape m a ≡ false) same no_color in
    rw (here, start)
      (print-emit_all n fuel m (str + 1) (emit (m str) s)
        (λ i lt. later i (plain (suc i) (omega arith)))
        (let next : str + 1 + n ≡ str + suc n = omega arith in ap m next ∙ ends) (omega arith))
  where
    later :
        (i : ℕ)
        → (m (str + suc i) ≢ 0) × (is_escape m (str + suc i) ≡ false)
        → (m (str + 1 + i) ≢ 0) × (is_escape m (str + 1 + i) ≡ false)
    later i p = let same : str + 1 + i ≡ str + suc i = omega arith in rw same p

-- the color that `k` digits stand for, the first of which has the bits from `16 ^ n` on
unfoldable pub color_from : (k : ℕ) → Bytes → (at n : ℕ) → ℕ
color_from zero m at n = 0
color_from (suc k) m at n = nibble_of (m at) * 16 ^ n + color_from k m (at + 1) (n + 1)

read_color-all :
    (k : ℕ) (m : Bytes) (c : Color)
    → ((i : ℕ) → i < k → m (c.str + i) ≢ 0)
    → read_color k m c ≡ record {
      str = c.str + k;
      color = c.color + color_from k m c.str c.nibble;
      nibble = c.nibble + k;
    }
unfolding read_color color_from
read_color-all zero m c digits =
    let e₁ : c.str ≡ c.str + 0 = omega arith in
    let e₂ : c.color ≡ c.color + 0 = omega arith in
    let e₃ : c.nibble ≡ c.nibble + 0 = omega arith in
    λ i. record { str = e₁ i; color = e₂ i; nibble = e₃ i }
read_color-all (suc k) m c digits =
    let same : c.str + 0 ≡ c.str = omega arith in
    let some_char : (m c.str == 0) ≡ false =
      ground (arith, subst (λ (a : ℕ). m a ≢ 0) same (digits 0 (omega arith))) in
    let more = nibble_of (m c.str) * 16 ^ c.nibble in
    let e₁ : c.str + 1 + k ≡ c.str + suc k = omega arith in
    let e₂ : c.color + more + color_from k m (c.str + 1) (c.nibble + 1)
        ≡ c.color + (more + color_from k m (c.str + 1) (c.nibble + 1)) =
      omega arith in
    let e₃ : c.nibble + 1 + k ≡ c.nibble + suc k = omega arith in
    rw some_char (
      read_color-all k m (record { str = c.str + 1; color = c.color + more; nibble = c.nibble + 1 })
        (λ i lt.
          let next : c.str + 1 + i ≡ c.str + suc i = omega arith in
          rw next (digits (suc i) (omega arith)))
      ∙ (λ i. record { str = e₁ i; color = e₂ i; nibble = e₃ i }))

close_color-set :
    (m : Bytes) (str : ℕ) (s : Console) (color : ℕ)
    → s.has_terminal ≡ true
    → m (str + 8) ≡ 0x7d
    → close_color m str s (record { str = str + 2 + 6; color = 0 + color; nibble = 0 + 6 })
      ≡ (str + 9, show (set_color color) s)
unfolding close_color
close_color-set m str s color term close =
    let at_end : str + 2 + 6 ≡ str + 8 = omega arith in
    let behind : str + 8 + 1 ≡ str + 9 = omega arith in
    let same : 0 + color ≡ color = omega arith in rw (at_end, close, behind, same, term) refl

escape-color :
    (m : Bytes) (str : ℕ) (s : Console)
    → s.has_terminal ≡ true
    → ((i : ℕ) → i < 6 → m (str + 2 + i) ≢ 0)
    → m (str + 8) ≡ 0x7d
    → escape m str s ≡ (str + 9, show (set_color (color_from 6 m (str + 2) 0)) s)
unfolding escape
escape-color m str s term digits close =
    ap (close_color m str s)
      (read_color-all 6 m (record { str = str + 2; color = 0; nibble = 0 }) digits)
    ∙ close_color-set m str s (color_from 6 m (str + 2) 0) term close

-- print of a color at the end of a string, on a terminal, sets the color whose lowest bits are the
-- first digit, then prints the byte at the end of the string and goes on with the byte behind it.
pub print-overrun :
    (fuel : ℕ) (m : Bytes) (str : ℕ) (s : Console)
    → s.has_terminal ≡ true
    → m str ≡ 0x5c
    → m (str + 1) ≡ 0x7b
    → ((i : ℕ) → i < 6 → m (str + 2 + i) ≢ 0)
    → m (str + 8) ≡ 0x7d
    → m (str + 9) ≡ 0
    → print (suc fuel) m str s
      ≡ print fuel m (str + 10) (emit 0 (show (set_color (color_from 6 m (str + 2) 0)) s))
unfolding print
print-overrun fuel m str s term slash brace digits close end =
    let start : is_escape m str ≡ true = ground (arith, slash, brace) in
    let some_char : (m str == 0) ≡ false = ground (arith, slash) in
    let next : str + 9 + 1 ≡ str + 10 = omega arith in
    rw (start, some_char, escape-color m str s term digits close, end, next) refl
