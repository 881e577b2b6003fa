-- ===== src/Base/Patterns.antt =====
-- The regular expressions that the services share, on the code points of a text.
use verilink.Base.Tests.{leb, ◌==◌}
use Prim.Native.Nat.{ℕ, zero, suc}
use mathlib.Core.Bool.{Bool, true, false, ◌&&◌, ◌||◌}
use mathlib.Core.List.{List, [], ◌∷◌, ◌++◌}

-- `[0-9a-f]` under the flag `i`.
abbrev pub is_hex : ℕ → Bool
is_hex c = (leb 48 c && leb c 57) || (leb 97 c && leb c 102) || (leb 65 c && leb c 70)

pub data Slot : Type 0 where
  hex dash : Slot

abbrev pub fits : Slot → ℕ → Bool
fits hex c = is_hex c
fits dash c = c == 45

abbrev pub hexes : ℕ → List Slot
hexes zero = []
hexes (suc n) = hex ∷ hexes n

abbrev pub matches : List Slot → List ℕ → Bool
matches [] [] = true
matches [] (c ∷ cs) = false
matches (p ∷ ps) [] = false
matches (p ∷ ps) (c ∷ cs) = fits p c && matches ps cs

abbrev pub uuid_slots : List Slot
uuid_slots =
    hexes 8 ++ (dash ∷ hexes 4) ++ (dash ∷ hexes 4) ++ (dash ∷ hexes 4) ++ (dash ∷ hexes 12)

unfoldable pub is_uuid : List ℕ → Bool
is_uuid s = matches uuid_slots s

unfoldable pub is_sha256_hex : List ℕ → Bool
is_sha256_hex s = matches (hexes 64) s
