-- ===== src/Graph/Grouping/Groups.antt =====
-- The groups of observationGrouping.ts (control-plane/src/domains/graph): what a row that is added
-- leaves of them.
use verilink.Base.{
  ◌≡◌, ◌≢◌, ap, sym, ◌∙◌, ◌⊎◌, inl, inr, true, false, some, List, [], ◌∷◌, ◌++◌, arith, All, Any,
  Any-append_left, Any-append_right, All-append, Bool-cases,
}
use verilink.Base.Texts.{eq_iff, eq_refl, texts_eq-path, texts_eq_refl}
use verilink.Graph.Grouping.{GroupableAttestation, Key, same_key, key_of, Group, add_to_group}

-- The rows of a group have its key, and a property besides.
abbrev pub IsUniform : (GroupableAttestation → Type 0) → Group → Type 0
IsUniform P g = All (λ x. (key_of x ≡ some g.key) × P x) g.rows

abbrev pub Holds : GroupableAttestation → Group → Type 0
Holds x g = Any (λ y. y ≡ x) g.rows

-- No two groups have one key.
abbrev pub IsDistinct : List Group → Type 0
IsDistinct [] = Unit
IsDistinct (g ∷ gs) = All (λ h. h.key ≢ g.key) gs × IsDistinct gs

same_key-path : (a b : Key) → same_key a b ≡ true → a ≡ b
same_key-path a b h = ground (
  arith,
  eq_iff a.issuer_id b.issuer_id,
  eq_iff a.subject_id b.subject_id,
  texts_eq-path a.observation_id b.observation_id,
)

same_key_refl : (a : Key) → same_key a a ≡ true
same_key_refl a =
    ground (arith, eq_refl a.issuer_id, eq_refl a.subject_id, texts_eq_refl a.observation_id)

differs : (a b : Key) → same_key a b ≡ false → b ≢ a
differs a b h e = false_true (sym h ∙ ap (same_key a) e ∙ same_key_refl a)
  where
    false_true : false ≡ true → ⊥
    false_true q = cc

pub add_to_group-IsUniform :
    (P : GroupableAttestation → Type 0) (k : Key) (row : GroupableAttestation) (gs : List Group)
    → key_of row ≡ some k
    → P row
    → All (IsUniform P) gs
    → All (IsUniform P) (add_to_group k row gs)
unfolding add_to_group
add_to_group-IsUniform P k row [] e p u = (((e, p), tt), tt)
add_to_group-IsUniform P k row (g ∷ gs) e p u = elim (Bool-cases (same_key g.key k)) [
  | inl s ↦ rw s (
    All-append (λ x. (key_of x ≡ some g.key) × P x) g.rows (row ∷ []) u.0
        ((e ∙ ap some (sym (same_key-path g.key k s)), p), tt),
    u.1,
  )
  | inr s ↦ rw s (u.0, add_to_group-IsUniform P k row gs e p u.1)
]

add_to_group-avoids :
    (j k : Key) (row : GroupableAttestation) (gs : List Group)
    → k ≢ j
    → All (λ h. h.key ≢ j) gs
    → All (λ h. h.key ≢ j) (add_to_group k row gs)
unfolding add_to_group
add_to_group-avoids j k row [] n a = (n, tt)
add_to_group-avoids j k row (g ∷ gs) n a = elim (Bool-cases (same_key g.key k)) [
  | inl s ↦ rw s a
  | inr s ↦ rw s (a.0, add_to_group-avoids j k row gs n a.1)
]

pub add_to_group-IsDistinct :
    (k : Key) (row : GroupableAttestation) (gs : List Group)
    → IsDistinct gs
    → IsDistinct (add_to_group k row gs)
unfolding add_to_group
add_to_group-IsDistinct k row [] d = (tt, tt)
add_to_group-IsDistinct k row (g ∷ gs) d = elim (Bool-cases (same_key g.key k)) [
  | inl s ↦ rw s d
  | inr s ↦ rw s (
    add_to_group-avoids g.key k row gs (differs g.key k s) d.0,
    add_to_group-IsDistinct k row gs d.1,
  )
]

pub add_to_group-keeps :
    (k : Key) (row : GroupableAttestation) (gs : List Group) (x : GroupableAttestation)
    → Any (Holds x) gs ⊎ (row ≡ x)
    → Any (Holds x) (add_to_group k row gs)
unfolding add_to_group
add_to_group-keeps k row [] x (inl h) = elim h [ ]
add_to_group-keeps k row [] x (inr e) = inl (inl e)
add_to_group-keeps k row (g ∷ gs) x h = elim (Bool-cases (same_key g.key k)) [
  | inl s ↦ rw s (joined h)
  | inr s ↦ rw s (passed (add_to_group-keeps k row gs x) h)
]
  where
    joined :
        Any (Holds x) (g ∷ gs) ⊎ (row ≡ x)
        → Any (λ y. y ≡ x) (g.rows ++ (row ∷ [])) ⊎ Any (Holds x) gs
    joined (inl (inl here)) = inl (Any-append_left (λ y. y ≡ x) g.rows (row ∷ []) here)
    joined (inl (inr there)) = inr there
    joined (inr e) = inl (Any-append_right (λ y. y ≡ x) g.rows (row ∷ []) (inl e))

    passed :
        (Any (Holds x) gs ⊎ (row ≡ x) → Any (Holds x) (add_to_group k row gs))
        → Any (Holds x) (g ∷ gs) ⊎ (row ≡ x)
        → Holds x g ⊎ Any (Holds x) (add_to_group k row gs)
    passed rec (inl (inl here)) = inl here
    passed rec (inl (inr there)) = inr (rec (inl there))
    passed rec (inr e) = inr (rec (inr e))
