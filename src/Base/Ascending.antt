-- ===== src/Base/Ascending.antt =====
-- Lists of numbers that never fall.
use verilink.Base.Lists.{All, All-append}
use Prim.Native.Nat.{ℕ, ◌≤◌}
use mathlib.Core.List.{List, [], ◌∷◌, ◌++◌}
use native.Mathlib.Omega.{arith}

abbrev pub IsAscending : List ℕ → Type 0
IsAscending [] = Unit
IsAscending (x ∷ xs) = All (λ y. x ≤ y) xs × IsAscending xs

pub All-prefix {ℓ} : {A : Type ℓ} (P : A → Type 0) (xs ys : List A) → All P (xs ++ ys) → All P xs
All-prefix P [] ys h = tt
All-prefix P (x ∷ xs) ys h = (h.0, All-prefix P xs ys h.1)

All-suffix {ℓ} : {A : Type ℓ} (P : A → Type 0) (xs ys : List A) → All P (xs ++ ys) → All P ys
All-suffix P [] ys h = h
All-suffix P (x ∷ xs) ys h = All-suffix P xs ys h.1

pub All-le : (x y : ℕ) (ys : List ℕ) → x ≤ y → All (λ z. y ≤ z) ys → All (λ z. x ≤ z) ys
All-le x y [] h k = tt
All-le x y (z ∷ ys) h k = (omega arith, All-le x y ys h k.1)

All-without {ℓ} :
    {A : Type ℓ} (P : A → Type 0) (xs ys zs : List A) → All P (xs ++ (ys ++ zs)) → All P (xs ++ zs)
All-without P [] ys zs h = All-suffix P ys zs h
All-without P (x ∷ xs) ys zs h = (h.0, All-without P xs ys zs h.1)

pub IsAscending-prefix : (xs ys : List ℕ) → IsAscending (xs ++ ys) → IsAscending xs
IsAscending-prefix [] ys h = tt
IsAscending-prefix (x ∷ xs) ys h = (All-prefix (λ y. x ≤ y) xs ys h.0, IsAscending-prefix xs ys h.1)

pub IsAscending-suffix : (xs ys : List ℕ) → IsAscending (xs ++ ys) → IsAscending ys
IsAscending-suffix [] ys h = h
IsAscending-suffix (x ∷ xs) ys h = IsAscending-suffix xs ys h.1

-- A part in the middle is left out.
pub IsAscending-without :
    (xs ys zs : List ℕ) → IsAscending (xs ++ (ys ++ zs)) → IsAscending (xs ++ zs)
IsAscending-without [] ys zs h = IsAscending-suffix ys zs h
IsAscending-without (x ∷ xs) ys zs h =
    (All-without (λ y. x ≤ y) xs ys zs h.0, IsAscending-without xs ys zs h.1)

-- The last number gives way to numbers from it on.
pub IsAscending-on :
    (xs ys : List ℕ) (last : ℕ)
    → IsAscending (xs ++ last ∷ [])
    → All (λ y. last ≤ y) ys
    → IsAscending ys
    → IsAscending (xs ++ ys)
IsAscending-on [] ys last h k a = a
IsAscending-on (x ∷ xs) ys last h k a = (
  All-append (λ y. x ≤ y) xs ys (All-prefix (λ y. x ≤ y) xs (last ∷ []) h.0)
      (All-le x last ys (All-suffix (λ y. x ≤ y) xs (last ∷ []) h.0).0 k),
  IsAscending-on xs ys last h.1 k a,
)

-- A number at least as great as all comes last.
pub IsAscending-snoc :
    (xs : List ℕ) (m : ℕ) → IsAscending xs → All (λ x. x ≤ m) xs → IsAscending (xs ++ m ∷ [])
IsAscending-snoc [] m h k = (tt, tt)
IsAscending-snoc (x ∷ xs) m h k =
    (All-append (λ y. x ≤ y) xs (m ∷ []) h.0 (k.0, tt), IsAscending-snoc xs m h.1 k.1)
