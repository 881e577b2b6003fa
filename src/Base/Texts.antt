-- ===== src/Base/Texts.antt =====
-- Text: equality of native strings, their size in bytes, and the code points of a literal.
use Prim.Native.Nat.{ℕ}
use Prim.Native.Char.{code}
use Prim.Native.String
use Prim.Native.String.{String}
use native.Mathlib.Omega.{arith}
use mathlib.Core.Path.{◌≡◌, refl}
use mathlib.Core.Bool.{Bool, true, false, ◌&&◌}
use verilink.Base.Tests.{◌==◌}
use mathlib.Core.List.{List, [], ◌∷◌}
pub use text.Mathlib.Text.{◌==◌ as str_eq, starts_with}
pub use text.Mathlib.TextEquality.{eq_iff}
pub use text.Mathlib.TextPositions.{eq_refl}

-- `Buffer.byteLength(s)`: the bytes of the UTF-8 encoding.
abbrev pub byte_length : String → ℕ
byte_length s = String.len s

-- `Array.prototype.includes` on strings.
abbrev pub includes : List String → String → Bool
includes [] s = false
includes (x ∷ xs) s = mathlib.Core.Bool.◌||◌ (str_eq x s) (includes xs s)

-- The code points of a text. `String` has its own `[]` and `∷`.
abbrev pub codes : String → List ℕ
codes String.[] = []
codes (String.◌∷◌ c s) = code c ∷ codes s

-- Equality of texts as code points.
abbrev pub texts_eq : List ℕ → List ℕ → Bool
texts_eq [] [] = true
texts_eq [] (d ∷ ds) = false
texts_eq (c ∷ cs) [] = false
texts_eq (c ∷ cs) (d ∷ ds) = (c == d) && texts_eq cs ds

pub texts_eq-path : (s t : List ℕ) → texts_eq s t ≡ true → s ≡ t
texts_eq-path [] [] h = refl
texts_eq-path [] (d ∷ t) h = absurd cc
texts_eq-path (c ∷ s) [] h = absurd cc
texts_eq-path (c ∷ s) (d ∷ t) h = ground (arith, texts_eq-path s t)

pub texts_eq_refl : (s : List ℕ) → texts_eq s s ≡ true
texts_eq_refl [] = refl
texts_eq_refl (c ∷ s) = ground (arith, texts_eq_refl s)
