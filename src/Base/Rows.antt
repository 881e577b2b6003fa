-- ===== src/Base/Rows.antt =====
-- Rows of a table with a unique key, and checks that end a transaction.
use mathlib.Core.Path.{◌≡◌, refl}
use mathlib.Core.Bool.{Bool, true, false}
use mathlib.Core.Option.{Option, none, some}
use mathlib.Core.List.{List, [], ◌∷◌, ◌++◌}
use mathlib.Core.Logic.{◌⊎◌, inl, inr}
use native.Mathlib.Omega.{arith}
use verilink.Base.Tests.{if◌then◌else◌, Bool-cases, Option-cases}
use verilink.Base.Lists.{any, find, find-append}

-- `INSERT ... ON CONFLICT DO NOTHING`, where `same` finds the rows with the key of the new one.
abbrev pub insert_new {ℓ} : {A : Type ℓ} → (A → Bool) → A → List A → List A
insert_new same x rows = if any same rows then rows else rows ++ (x ∷ [])

-- A chain of statements of which one may throw, and end the transaction.
infixl 5 ◌>>=◌ ◌>>◌
abbrev pub ◌>>=◌ {ℓ κ} : {A : Type ℓ} {B : Type κ} → Option A → (A → Option B) → Option B
none >>= f = none
some a >>= f = f a

abbrev pub ◌>>◌ {ℓ} : {B : Type ℓ} → Option (Unit {0}) → Option B → Option B
m >> k = m >>= λ _. k

-- `if (b) throw ...`
abbrev pub throw_if : Bool → Option (Unit {0})
throw_if true = none
throw_if false = some tt

pub >>=-eq-some {ℓ κ} :
    {A : Type ℓ} {B : Type κ} (m : Option A) (f : A → Option B) (b : B)
    → (m >>= f) ≡ some b
    → (a : A) × (m ≡ some a) × (f a ≡ some b)
>>=-eq-some none f b h = cc
>>=-eq-some (some a) f b h = (a, refl, h)

pub throw_if-eq-some {ℓ} :
    {B : Type ℓ} (t : Bool) (k : Option B) (b : B)
    → (throw_if t >> k) ≡ some b
    → (t ≡ false) × (k ≡ some b)
throw_if-eq-some true k b h = cc
throw_if-eq-some false k b h = (refl, h)

module _ {ℓ} {A : Type ℓ} where
  pub any-append_new :
      (p : A → Bool) (xs : List A) (x : A) → p x ≡ true → any p (xs ++ (x ∷ [])) ≡ true
  any-append_new p [] x h = rw h refl
  any-append_new p (y ∷ xs) x h = ground (arith, any-append_new p xs x h)

  pub find-append_old :
      (p : A → Bool) (xs ys : List A) (r : A) → find p xs ≡ some r → find p (xs ++ ys) ≡ some r
  find-append_old p [] ys r h = absurd cc
  find-append_old p (x ∷ xs) ys r h = elim (Bool-cases (p x)) [
    | inl e ↦ rw e (rw e at h)
    | inr e ↦ rw e (find-append_old p xs ys r (rw e at h))
  ]

  pub any-append_old : (p : A → Bool) (xs ys : List A) → any p xs ≡ true → any p (xs ++ ys) ≡ true
  any-append_old p [] ys h = absurd cc
  any-append_old p (x ∷ xs) ys h = ground (arith, any-append_old p xs ys)

  -- The rows after an insertion: the new row is there or was, and no old row is lost.
  pub any-insert_new :
      (same : A → Bool) (x : A) (rows : List A)
      → same x ≡ true
      → any same (insert_new same x rows) ≡ true
  any-insert_new same x rows h = elim (Bool-cases (any same rows)) [
    | inl e ↦ rw e e
    | inr e ↦ rw e (any-append_new same rows x h)
  ]

  pub insert_new-old :
      (same : A → Bool) (x : A) (rows : List A)
      → any same rows ≡ true
      → insert_new same x rows ≡ rows
  insert_new-old same x rows h = rw h refl

  pub find-insert_new_old :
      (p same : A → Bool) (x : A) (rows : List A) (r : A)
      → find p rows ≡ some r
      → find p (insert_new same x rows) ≡ some r
  find-insert_new_old p same x rows r h = elim (Bool-cases (any same rows)) [
    | inl e ↦ rw e h
    | inr e ↦ rw e (find-append_old p rows (x ∷ []) r h)
  ]

  pub any-insert_new_old :
      (p same : A → Bool) (x : A) (rows : List A)
      → any p rows ≡ true
      → any p (insert_new same x rows) ≡ true
  any-insert_new_old p same x rows h = elim (Bool-cases (any same rows)) [
    | inl e ↦ rw e h
    | inr e ↦ rw e (any-append_old p rows (x ∷ []) h)
  ]

  pub any-find : (p : A → Bool) (rows : List A) → find p rows ≡ none → any p rows ≡ false
  any-find p [] h = refl
  any-find p (x ∷ rows) h = elim (Bool-cases (p x)) [
    | inl e ↦ absurd (some_none (rw e at h))
    | inr e ↦ rw e (any-find p rows (rw e at h))
  ]
    where
      some_none : some x ≡ none → ⊥
      some_none q = cc

  pub any-find_row :
      (p : A → Bool) (rows : List A) (r : A) → find p rows ≡ some r → any p rows ≡ true
  any-find_row p [] r h = absurd cc
  any-find_row p (x ∷ rows) r h = elim (Bool-cases (p x)) [
    | inl e ↦ rw e refl
    | inr e ↦ rw e (any-find_row p rows r (rw e at h))
  ]

  -- The row with the key, after an insertion: the old one if there was one, else the new one.
  pub find-insert_new :
      (same : A → Bool) (x : A) (rows : List A)
      → same x ≡ true
      → (r : A) × (find same (insert_new same x rows) ≡ some r)
        × ((find same rows ≡ some r) ⊎ ((find same rows ≡ none) × (r ≡ x)))
  find-insert_new same x rows h = elim (Option-cases (find same rows)) [
    | inl e ↦ (x, rw (any-find same rows e) (find-append same rows x e h), inr (e, refl))
    | inr (r, e) ↦ (r, find-insert_new_old same same x rows r e, inl e)
  ]

-- What holds of every result of a chain.
pub >>=-All {ℓ κ μ} :
    {A : Type ℓ} {B : Type κ} (Q : B → Type μ) (m : Option A) (f : A → Option B)
    → ((a : A) → m ≡ some a → (b : B) → f a ≡ some b → Q b)
    → (b : B) → (m >>= f) ≡ some b
    → Q b
>>=-All Q none f g b h = absurd cc
>>=-All Q (some a) f g b h = g a refl b h
