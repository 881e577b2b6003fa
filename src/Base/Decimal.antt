-- ===== src/Base/Decimal.antt =====
-- Decimal numerals: `BigInt.prototype.toString` and the value of a run of digits.
use verilink.Base.Tests.{ltb, leb, if◌then◌else◌, Bool-cases}
use verilink.Base.Lists.{All, is_empty}
use Prim.Native.Nat.{ℕ, zero, suc, ◌+◌, ◌-◌, ◌*◌, ◌/◌, ◌%◌, ◌<◌}
use mathlib.Core.Path.{◌≡◌, refl, ap, ◌∙◌}
use mathlib.Core.Logic.{inl, inr}
use mathlib.Core.Bool.{Bool, true, false, ◌&&◌}
use mathlib.Core.List.{List, [], ◌∷◌}
use native.Mathlib.Omega.{arith}

unfoldable pub is_digit : ℕ → Bool
is_digit c = leb b'0' c && leb c b'9'

-- The value of a run of digits, read after a prefix of value `acc`.
unfoldable pub value_from : ℕ → List ℕ → ℕ
value_from acc [] = acc
value_from acc (c ∷ s) = value_from (acc * 10 + (c - b'0')) s

-- The numeral of `n` before `acc`; a number has fewer digits than its successor has units.
print_from : ℕ → ℕ → List ℕ → List ℕ
print_from zero n acc = acc
print_from (suc fuel) n acc =
    let more = print_from fuel (n / 10) ((b'0' + n % 10) ∷ acc) in
    if ltb n 10 then (b'0' + n) ∷ acc else more

unfoldable pub to_decimal : ℕ → List ℕ
unfolding print_from
to_decimal n = print_from (suc n) n []

value_from-print_from :
    (fuel n : ℕ) (acc : List ℕ) → n < fuel → value_from 0 (print_from fuel n acc) ≡ value_from n acc
unfolding value_from print_from
value_from-print_from zero n acc h = elim h [ ]
value_from-print_from (suc fuel) n acc h = elim (Bool-cases (ltb n 10)) [
  | inl e ↦ rw e (ap (λ m. value_from m acc) (omega arith))
  | inr e ↦ rw e (
      value_from-print_from fuel (n / 10) ((b'0' + n % 10) ∷ acc) (ground arith)
      ∙ ap (λ m. value_from m acc) (omega arith))
]

-- Reading the numeral of a number gives the number.
pub value-to_decimal : (n : ℕ) → value_from 0 (to_decimal n) ≡ n
unfolding to_decimal value_from
value-to_decimal n = value_from-print_from (suc n) n [] (omega arith)

abbrev pub IsDigit : ℕ → Type 0
IsDigit c = is_digit c ≡ true

print_from-IsDigit :
    (fuel n : ℕ) (acc : List ℕ) → All IsDigit acc → All IsDigit (print_from fuel n acc)
unfolding print_from is_digit
print_from-IsDigit zero n acc h = h
print_from-IsDigit (suc fuel) n acc h =
    ground (arith, print_from-IsDigit fuel (n / 10) ((b'0' + n % 10) ∷ acc))

pub to_decimal-IsDigit : (n : ℕ) → All IsDigit (to_decimal n)
unfolding to_decimal
to_decimal-IsDigit n = print_from-IsDigit (suc n) n [] tt

print_from-is_empty :
    (fuel n : ℕ) (acc : List ℕ) → is_empty acc ≡ false → is_empty (print_from fuel n acc) ≡ false
unfolding print_from
print_from-is_empty zero n acc h = h
print_from-is_empty (suc fuel) n acc h =
    ground (arith, print_from-is_empty fuel (n / 10) ((b'0' + n % 10) ∷ acc) refl)

pub to_decimal-is_empty : (n : ℕ) → is_empty (to_decimal n) ≡ false
unfolding to_decimal print_from
to_decimal-is_empty n = ground (arith, print_from-is_empty n (n / 10) ((b'0' + n % 10) ∷ []) refl)
