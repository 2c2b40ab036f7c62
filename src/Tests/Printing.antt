-- ===== src/Tests/Printing.antt =====
-- Strings and numbers on a console with a terminal and a parallel port.
use reaveros_iteration.Common.{
  ℕ, zero, suc, ◌+◌, ◌-◌, ◌^◌, ◌≡◌, ◌<◌, ◌≢◌, ◌⊎◌, refl, true, false, List, [], ◌∷◌, ok, get_or,
  arith,
}
use reaveros_iteration.Utils.Raf.{Bytes}
use reaveros_iteration.Screen.Console.{
  Console, set_color, is_escape, show, emit, print, print_signed,
}
use reaveros_iteration.Screen.Console.Text.{emit_all, color_from, print-emit_all, print-overrun}
use reaveros_iteration.Screen.Console.Numbers.{print_all, IsDecimal, print_signed-IsDecimal}

abbrev blank : Console
blank = record { has_terminal = true; has_port = true; shown = []; sent = [] }

-- "ab"
abbrev two_letters : Bytes
two_letters a = get_or (97 ∷ 98 ∷ []) a 0

-- "\{0000ff}", and a letter behind the end of the string
abbrev colored : Bytes
colored a = get_or (92 ∷ 123 ∷ 48 ∷ 48 ∷ 48 ∷ 48 ∷ 102 ∷ 102 ∷ 125 ∷ 0 ∷ 97 ∷ []) a 0

letters_plain :
    (i : ℕ) → i < 2 → (two_letters (0 + i) ≢ 0) × (is_escape two_letters (0 + i) ≡ false)
letters_plain zero lt = ((λ e. omega arith), refl)
letters_plain (suc zero) lt = ((λ e. omega arith), refl)
letters_plain (suc (suc i)) lt = absurd (omega arith)

digits_there : (i : ℕ) → i < 6 → colored (0 + 2 + i) ≢ 0
digits_there zero lt = λ e. omega arith
digits_there (suc zero) lt = λ e. omega arith
digits_there (suc (suc zero)) lt = λ e. omega arith
digits_there (suc (suc (suc zero))) lt = λ e. omega arith
digits_there (suc (suc (suc (suc zero)))) lt = λ e. omega arith
digits_there (suc (suc (suc (suc (suc zero))))) lt = λ e. omega arith
digits_there (suc (suc (suc (suc (suc (suc i)))))) lt = absurd (omega arith)

print-emit_all_example : print 3 two_letters 0 blank ≡ ok (emit_all 2 two_letters 0 blank)
print-emit_all_example = print-emit_all 2 3 two_letters 0 blank letters_plain refl (omega arith)

print-overrun_example :
    print 5 colored 0 blank
    ≡ print 4 colored 10 (emit 0 (show (set_color (color_from 6 colored 2 0)) blank))
print-overrun_example = print-overrun 4 colored 0 blank refl refl refl digits_there refl refl

-- -56 in 8 bits
print_signed-IsDecimal_example :
    ((200 < 2 ^ 7)
      × ((cs : List ℕ) × (print_signed 8 3 200 blank ≡ ok (print_all cs blank)) × IsDecimal 200 cs))
    ⊎ ((2 ^ 7 < 200)
        × ((cs : List ℕ) × (print_signed 8 3 200 blank ≡ ok (print_all (0x2d ∷ cs) blank))
            × IsDecimal (2 ^ 8 - 200) cs))
print_signed-IsDecimal_example =
    print_signed-IsDecimal 8 2 200 blank (omega arith) (λ e. omega arith) (omega arith)
