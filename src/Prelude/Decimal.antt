-- ===== src/Prelude/Decimal.antt =====
-- Decimal numerals: what `std::to_string` writes is read back.
use Prim.Native.Nat.{ℕ, zero, suc, ◌+◌, ◌*◌, ◌<◌, ◌/◌, ◌%◌}
use mathlib.Core.Path.{◌≡◌, refl, ◌∙◌}
use mathlib.Core.Bool.{true, false}
use mathlib.Core.List.{[], ◌∷◌}
use native.Mathlib.Omega.{arith}
use c_cloud_storage.Prelude.Text.{Bytes, is_digit, is_empty}
use c_cloud_storage.Prelude.Number.{dec_value, parse_digits, decimal_onto, decimal}

abbrev pub AreDigits : Bytes → Type 0
AreDigits [] = Unit {0}
AreDigits (c ∷ s) = (is_digit c ≡ true) × AreDigits s

decimal_onto-AreDigits :
    (fuel n : ℕ) (acc : Bytes) → AreDigits acc → AreDigits (decimal_onto fuel n acc)
unfolding decimal_onto
decimal_onto-AreDigits zero n acc h = h
decimal_onto-AreDigits (suc fuel) n acc h =
    ground (arith, decimal_onto-AreDigits fuel (n / 10) ((b'0' + n % 10) ∷ acc))

pub decimal-AreDigits : (n : ℕ) → AreDigits (decimal n)
unfolding decimal
decimal-AreDigits n = decimal_onto-AreDigits (suc n) n [] tt

decimal_onto_nonempty :
    (fuel n c : ℕ) (acc : Bytes) → is_empty (decimal_onto fuel n (c ∷ acc)) ≡ false
unfolding decimal_onto
decimal_onto_nonempty zero n c acc = refl
decimal_onto_nonempty (suc fuel) n c acc =
    ground (arith, decimal_onto_nonempty fuel (n / 10) (b'0' + n % 10) (c ∷ acc))

pub decimal_nonempty : (n : ℕ) → is_empty (decimal n) ≡ false
unfolding decimal decimal_onto
decimal_nonempty n = ground (arith, decimal_onto_nonempty n (n / 10) (b'0' + n % 10) [])

parse_digits_digit :
    (d a : ℕ) (s : Bytes)
    → d < 10
    → parse_digits dec_value 10 a ((b'0' + d) ∷ s) ≡ parse_digits dec_value 10 (a * 10 + d) s
unfolding parse_digits
parse_digits_digit d a s h = ground arith

parse_digits-decimal_onto :
    (fuel n : ℕ) (acc : Bytes)
    → n < fuel
    → parse_digits dec_value 10 0 (decimal_onto fuel n acc) ≡ parse_digits dec_value 10 n acc
unfolding decimal_onto
parse_digits-decimal_onto zero n acc h = absurd (omega arith)
parse_digits-decimal_onto (suc fuel) n acc h = ground (
  arith,
  parse_digits-decimal_onto fuel (n / 10) ((b'0' + n % 10) ∷ acc),
  parse_digits_digit (n % 10) (n / 10) acc,
  parse_digits_digit (n % 10) 0 acc,
)

pub parse_digits-decimal : (n : ℕ) → parse_digits dec_value 10 0 (decimal n) ≡ n
unfolding decimal
parse_digits-decimal n =
    parse_digits-decimal_onto (suc n) n [] (omega arith) ∙ (unfold parse_digits in refl)
