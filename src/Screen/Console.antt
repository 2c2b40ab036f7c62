-- ===== src/Screen/Console.antt =====
-- `kernel_console` of kernel/screen/console.cpp. What the terminal and the parallel port are given is
-- recorded, the last first; a string is the address of its first character in the memory.
pub mod Text
pub mod Numbers
use reaveros_iteration.Common.{
  ℕ, zero, suc, ◌+◌, ◌-◌, ◌*◌, ◌/◌, ◌%◌, ◌^◌, Bool, true, false, not, ◌&&◌, ◌||◌, List, ◌∷◌, Run,
  ok, fault, out_of_fuel, ◌>>=◌, ◌==◌, ltb, leb, if◌then◌else◌,
}
use reaveros_iteration.Utils.Raf.{Bytes}

pub data Shown : Type 0 where
  put_char : ℕ → Shown
  set_color : ℕ → Shown

-- whether there are a terminal and a parallel port, and what they have got
pub record Console : Type 0 where
  pub has_terminal : Bool
  pub has_port : Bool
  pub shown : List Shown
  pub sent : List ℕ

abbrev pub show : Shown → Console → Console
show o s = record s { shown = if s.has_terminal then o ∷ s.shown else s.shown }

abbrev pub send : ℕ → Console → Console
send c s = record s { sent = if s.has_port then c ∷ s.sent else s.sent }

-- one character of a string
abbrev pub emit : ℕ → Console → Console
emit c s = show (put_char c) (send c s)

-- `print(char)`
unfoldable pub print_char : ℕ → Console → Console
print_char c s = if c == 0 then show (put_char c) s else send c (show (put_char c) s)

-- the value of a digit of a color; any other character counts as no bits
unfoldable pub nibble_of : ℕ → ℕ
nibble_of c =
    if leb 0x30 c && leb c 0x39
    then c - 0x30
    else if leb 0x61 c && leb c 0x66
    then c - 0x61 + 10
    else if leb 0x41 c && leb c 0x46
    then c - 0x41 + 10
    else 0

-- where the loop over the digits of a color has come to
pub record Color : Type 0 where
  pub str : ℕ
  pub color : ℕ
  pub nibble : ℕ

-- `while (nibble != 6 && *str)`, by rounds left; the bits of the digits do not overlap.
unfoldable pub read_color : (rounds : ℕ) → Bytes → Color → Color
unfolding nibble_of
read_color zero m c = c
read_color (suc k) m c =
    let rest = read_color k m (record {
      str = c.str + 1;
      color = c.color + nibble_of (m c.str) * 16 ^ c.nibble;
      nibble = c.nibble + 1;
    }) in
    if m c.str == 0 then c else rest

-- what is done with the color `c` that has been read from `str` on
unfoldable pub close_color : Bytes → ℕ → Console → Color → ℕ × Console
close_color m str s c =
    if not (c.nibble == 6) || not (m c.str == 0x7d)
    then (str, s)
    else if s.has_terminal
    then (c.str + 1, show (set_color c.color) s)
    else (c.str, s)

-- `\{`, six digits and `}`: the address where the string goes on, and the console
unfoldable pub escape : Bytes → ℕ → Console → ℕ × Console
unfolding read_color close_color
escape m str s =
    close_color m str s (read_color 6 m (record { str = str + 2; color = 0; nibble = 0 }))

abbrev pub is_escape : Bytes → ℕ → Bool
is_escape m str = m str == 0x5c && m (str + 1) == 0x7b

-- `print(const char *)`; after a color, the next character is printed without a look at it.
unfoldable pub print : (fuel : ℕ) → Bytes → ℕ → Console → Run Console
unfolding escape
print zero m str s = out_of_fuel
print (suc fuel) m str s =
    let next = if is_escape m str then escape m str s else (str, s) in
    let rest = print fuel m (next.0 + 1) (emit (m next.0) next.1) in
    if m str == 0 then ok s else rest

-- `_print_int` of an unsigned type; the calls of itself are the fuel.
unfoldable pub print_unsigned : (fuel : ℕ) → ℕ → Console → Run Console
unfolding print_char
print_unsigned zero t s = out_of_fuel
print_unsigned (suc fuel) t s =
    let first = print_unsigned fuel (t / 10) s in
    if t == 0
    then ok (print_char 0x30 s)
    else if t / 10 == 0
    then ok (print_char (0x30 + t % 10) s)
    else first >>= λ s'. ok (print_char (0x30 + t % 10) s')

-- `_print_int` of a signed type of `w` bits, whose value is given as its bits. Minus the least value
-- is undefined.
unfoldable pub print_signed : (w fuel : ℕ) → ℕ → Console → Run Console
unfolding print_unsigned print_char
print_signed w fuel t s =
    if t == 2 ^ (w - 1)
    then fault
    else if ltb (2 ^ (w - 1)) t
    then print_unsigned fuel (2 ^ w - t) (print_char 0x2d s)
    else print_unsigned fuel t s

-- `"0123456789ABCDEF"[d]`
unfoldable pub hex_digit : ℕ → ℕ
hex_digit d = if ltb d 10 then 0x30 + d else 0x41 + (d - 10)

-- the loop of `print(void *)`, which prints 16 digits, and of `print(pci_vendor_t)`, which prints 4,
-- by rounds left
unfoldable pub print_hex : (rounds : ℕ) → ℕ → Console → Console
unfolding print_char hex_digit
print_hex zero v s = s
print_hex (suc k) v s = print_hex k v (print_char (hex_digit (v / 16 ^ k % 16)) s)

-- behind `print("0x")`
unfoldable pub print_pointer : ℕ → Console → Console
unfolding print_hex
print_pointer ptr s = print_hex 16 ptr (emit 0x78 (emit 0x30 s))

unfoldable pub print_vendor : ℕ → Console → Console
unfolding print_hex
print_vendor vendor s = print_hex 4 vendor (emit 0x78 (emit 0x30 s))
