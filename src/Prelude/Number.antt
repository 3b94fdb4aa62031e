-- ===== src/Prelude/Number.antt =====
-- Numbers in text, as the C and C++ libraries read and write them. ℤ is for the signed types.
use Prim.Native.Nat.{ℕ, zero, suc, ◌+◌, ◌-◌, ◌*◌, ◌/◌, ◌%◌, ◌^◌}
use mathlib.Core.Bool.{Bool, true, false, ◌&&◌, ◌||◌}
use mathlib.Core.List.{[], ◌∷◌}
use mathlib.Core.Option.{Option, none, some}
use c_cloud_storage.Prelude.Tests.{ltb, leb, ◌==◌, if◌then◌else◌}
use c_cloud_storage.Prelude.Text.{Bytes, is_digit, is_space}

-- `negsuc n` is -(n + 1).
pub data ℤ : Type 0 where
  pos : ℕ → ℤ
  negsuc : ℕ → ℤ

abbrev pub negate : ℕ → ℤ
negate zero = pos 0
negate (suc n) = negsuc n

abbrev pub is_negative : ℤ → Bool
is_negative (pos _) = false
is_negative (negsuc _) = true

abbrev pub is_zero : ℤ → Bool
is_zero (pos n) = n == 0
is_zero (negsuc _) = false

abbrev pub eq_ℤ : ℤ → ℤ → Bool
eq_ℤ (pos m) (pos n) = m == n
eq_ℤ (negsuc m) (negsuc n) = m == n
eq_ℤ _ _ = false

abbrev pub dec_value : ℕ → Option ℕ
dec_value c = if is_digit c then some (c - b'0') else none

abbrev pub hex_value : ℕ → Option ℕ
hex_value c =
    if is_digit c
    then some (c - b'0')
    else if leb b'a' c && leb c b'f'
    then some (c - b'a' + 10)
    else if leb b'A' c && leb c b'F'
    then some (c - b'A' + 10)
    else none

-- The digits at the front of a text, read in a base.
unfoldable pub parse_digits : (ℕ → Option ℕ) → ℕ → ℕ → Bytes → ℕ
parse_digits value base acc [] = acc
parse_digits value base acc (c ∷ s) = elim (value c) [
  | none ↦ acc
  | some d ↦ parse_digits value base (acc * base + d) s
]

unfoldable pub skip_spaces : Bytes → Bytes
skip_spaces [] = []
skip_spaces (c ∷ s) = let rest = skip_spaces s in if is_space c then rest else c ∷ s

-- Whether there is a minus sign, and what follows the sign.
unfoldable pub read_sign : Bytes → Bool × Bytes
read_sign [] = (false, [])
read_sign (c ∷ s) =
    if c == b'-' then (true, s) else if c == b'+' then (false, s) else (false, c ∷ s)

-- `0x` counts only before a digit.
unfoldable pub skip_0x : Bytes → Bytes
skip_0x (z ∷ x ∷ d ∷ s) =
    if z == b'0' && (x == b'x' || x == b'X')
    then (elim (hex_value d) [ none ↦ z ∷ x ∷ d ∷ s | some _ ↦ d ∷ s ])
    else z ∷ x ∷ d ∷ s
skip_0x s = s

abbrev pub size_max : ℕ
size_max = 2 ^ 64 - 1

-- `strtoul(s, nullptr, 16)`
unfoldable pub strtoul_16 : Bytes → ℕ
unfolding skip_spaces read_sign skip_0x parse_digits
strtoul_16 s =
    let (minus, digits) = read_sign (skip_spaces s) in
    let n = parse_digits hex_value 16 0 (skip_0x digits) in
    if ltb size_max n then size_max else if minus then (2 ^ 64 - n) % 2 ^ 64 else n

-- The decimal number at the front of a text with its sign; `none` if there is no digit.
unfoldable pub read_decimal : Bytes → Option ℤ
unfolding skip_spaces read_sign parse_digits
read_decimal s =
    let (minus, digits) = read_sign (skip_spaces s) in
    elim digits [
      | [] ↦ none
      | c ∷ r ↦
          if is_digit c
          then (let n = parse_digits dec_value 10 0 (c ∷ r) in
              some (if minus then negate n else pos n))
          else none
    ]

-- Whether the number is one of `bits + 1` bits, with its sign.
abbrev pub fits_in : ℕ → ℤ → Bool
fits_in bits (pos n) = ltb n (2 ^ bits)
fits_in bits (negsuc n) = ltb n (2 ^ bits)

-- `std::stoll`; `none` is an exception.
unfoldable pub stoll : Bytes → Option ℤ
unfolding read_decimal
stoll s = elim (read_decimal s) [ none ↦ none | some n ↦ if fits_in 63 n then some n else none ]

-- `std::stoi`
unfoldable pub stoi : Bytes → Option ℤ
unfolding read_decimal
stoi s = elim (read_decimal s) [ none ↦ none | some n ↦ if fits_in 31 n then some n else none ]

-- `atoll` of glibc, which stops at the ends of the range.
unfoldable pub atoll : Bytes → ℤ
unfolding read_decimal
atoll s = elim (read_decimal s) [
  | none ↦ pos 0
  | some (pos n) ↦ pos (if ltb n (2 ^ 63) then n else 2 ^ 63 - 1)
  | some (negsuc n) ↦ negsuc (if ltb n (2 ^ 63) then n else 2 ^ 63 - 1)
]

-- `static_cast<size_t>` of a 64-bit number
abbrev pub to_size : ℤ → ℕ
to_size (pos n) = n % 2 ^ 64
to_size (negsuc n) = 2 ^ 64 - 1 - n % 2 ^ 64

-- `std::to_string`, with fuel above the number.
unfoldable pub decimal_onto : ℕ → ℕ → Bytes → Bytes
decimal_onto zero n acc = acc
decimal_onto (suc fuel) n acc =
    let more = decimal_onto fuel (n / 10) ((b'0' + n % 10) ∷ acc) in
    if n / 10 == 0 then (b'0' + n % 10) ∷ acc else more

unfoldable pub decimal : ℕ → Bytes
unfolding decimal_onto
decimal n = decimal_onto (suc n) n []

unfoldable pub decimal_ℤ : ℤ → Bytes
unfolding decimal
decimal_ℤ (pos n) = decimal n
decimal_ℤ (negsuc n) = b'-' ∷ decimal (n + 1)
