-- ===== src/Graph/Grouping/Representatives.antt =====
-- The representatives that observationGrouping.ts (control-plane/src/domains/graph) takes of the
-- groups: one for each, of its key, that covers its rows.
use verilink.Base.{
  ◌≡◌, ◌≢◌, refl, sym, ◌∙◌, ◌⊎◌, inl, inr, Bool, true, not, none, some, List, [], ◌∷◌, All, Any,
  subst, is_some, some_inj,
}
use verilink.Graph.Grouping.{
  GroupableAttestation, Key, key_of, Group, comes_before, first_sorted, representatives,
}
use verilink.Graph.Grouping.Best.{Tops, first_sorted-Tops, first_sorted-All}
use verilink.Graph.Grouping.Groups.{IsUniform, Holds, IsDistinct}

-- Whether a row is of no observation.
abbrev pub is_unpaired : GroupableAttestation → Bool
is_unpaired x = not (is_some (key_of x))

-- No two rows are of one observation.
abbrev pub AreDistinct : List GroupableAttestation → Type 0
AreDistinct [] = Unit
AreDistinct (r ∷ rs) = All (λ x. key_of x ≢ key_of r) rs × AreDistinct rs

-- A row is of no observation, or some row of its observation is at least as restricted, and as late
-- if equally restricted.
abbrev pub IsCovered : List GroupableAttestation → GroupableAttestation → Type 0
IsCovered rs x =
    (key_of x ≡ none)
    ⊎ ((k : Key) × (key_of x ≡ some k)
        × Any (λ r. (key_of r ≡ some k) × (comes_before r x ≡ true)) rs)

abbrev pub IsAmong : List GroupableAttestation → GroupableAttestation → Type 0
IsAmong rows x = Any (λ y. y ≡ x) rows

abbrev pub IsPaired : GroupableAttestation → Type 0
IsPaired r = (k : Key) × (key_of r ≡ some k)

-- What a group adds to the representatives: nothing if it is empty, and else one row, with the
-- group's key and the property of its rows, that comes before each of them.
abbrev pub Adds : (GroupableAttestation → Type 0) → Group → List Group → Type 0
Adds P g gs =
    ((g.rows ≡ []) × (representatives (g ∷ gs) ≡ representatives gs))
    ⊎ ((r : GroupableAttestation) × (representatives (g ∷ gs) ≡ r ∷ representatives gs)
        × (key_of r ≡ some g.key)
        × P r
        × Tops r g.rows)

representatives-Adds :
    (P : GroupableAttestation → Type 0) (g : Group) (gs : List Group) → IsUniform P g → Adds P g gs
unfolding representatives
representatives-Adds P g gs u = by_rows g.rows refl
  where
    by_rows : (rows : List GroupableAttestation) → g.rows ≡ rows → Adds P g gs
    by_rows [] e = inl (e, rw (representatives, e) refl)
    by_rows (r ∷ rs) e =
        let (key, own) =
          first_sorted-All (λ x. (key_of x ≡ some g.key) × P x) r rs
            (subst (All (λ x. (key_of x ≡ some g.key) × P x)) e u) in
        inr (
          first_sorted r rs,
          rw (representatives, e) refl,
          key,
          own,
          subst (Tops (first_sorted r rs)) (sym e) (first_sorted-Tops r rs),
        )

-- The representatives of groups whose rows have a property.
pub representatives-All :
    (P : GroupableAttestation → Type 0) (gs : List Group)
    → All (IsUniform P) gs
    → All (λ r. IsPaired r × P r) (representatives gs)
unfolding representatives
representatives-All P [] u = tt
representatives-All P (g ∷ gs) u =
    let rest = representatives-All P gs u.1 in
    elim (representatives-Adds P g gs u.0) [
      | inl (_, e) ↦ subst (All (λ r. IsPaired r × P r)) (sym e) rest
      | inr (r, e, key, own, _) ↦
          subst (All (λ r. IsPaired r × P r)) (sym e) (((g.key, key), own), rest)
    ]

representatives-avoids :
    (P : GroupableAttestation → Type 0) (k : Key) (gs : List Group)
    → All (λ h. h.key ≢ k) gs
    → All (IsUniform P) gs
    → All (λ r. key_of r ≢ some k) (representatives gs)
unfolding representatives
representatives-avoids P k [] a u = tt
representatives-avoids P k (g ∷ gs) a u =
    let rest = representatives-avoids P k gs a.1 u.1 in
    elim (representatives-Adds P g gs u.0) [
      | inl (_, e) ↦ subst (All (λ r. key_of r ≢ some k)) (sym e) rest
      | inr (r, e, key, _, _) ↦
          subst (All (λ r. key_of r ≢ some k)) (sym e) (λ h. a.0 (some_inj (sym key ∙ h)), rest)
    ]

pub representatives-AreDistinct :
    (P : GroupableAttestation → Type 0) (gs : List Group)
    → All (IsUniform P) gs
    → IsDistinct gs
    → AreDistinct (representatives gs)
unfolding representatives
representatives-AreDistinct P [] u d = tt
representatives-AreDistinct P (g ∷ gs) u d =
    let rest = representatives-AreDistinct P gs u.1 d.1 in
    elim (representatives-Adds P g gs u.0) [
      | inl (_, e) ↦ subst AreDistinct (sym e) rest
      | inr (r, e, key, _, _) ↦ subst AreDistinct (sym e) (
        subst (λ o. All (λ x. key_of x ≢ o) (representatives gs)) (sym key)
            (representatives-avoids P g.key gs d.0 u.1),
        rest,
      )
    ]

-- What holds of all rows holds of each.
each :
    (P : GroupableAttestation → Type 0) (ys : List GroupableAttestation) (x : GroupableAttestation)
    → All P ys
    → IsAmong ys x
    → P x
each P [] x p h = elim h [ ]
each P (y ∷ ys) x p (inl e) = subst P e p.0
each P (y ∷ ys) x p (inr h) = each P ys x p.1 h

IsCovered-later :
    (r : GroupableAttestation) (rs : List GroupableAttestation) (x : GroupableAttestation)
    → IsCovered rs x
    → IsCovered (r ∷ rs) x
IsCovered-later r rs x (inl e) = inl e
IsCovered-later r rs x (inr (k, e, found)) = inr (k, e, inr found)

IsCovered-here :
    (P : GroupableAttestation → Type 0) (g : Group) (gs : List Group) (x : GroupableAttestation)
    → IsUniform P g
    → Holds x g
    → IsCovered (representatives (g ∷ gs)) x
IsCovered-here P g gs x u h = elim (representatives-Adds P g gs u) [
  | inl (none_left, _) ↦ absurd (nowhere (subst (λ rows. IsAmong rows x) none_left h))
  | inr (r, e, key, _, tops) ↦
      subst (λ rs. IsCovered rs x) (sym e)
        (inr (
          g.key,
          (each (λ y. (key_of y ≡ some g.key) × P y) g.rows x u h).0,
          inl (key, each (λ y. comes_before r y ≡ true) g.rows x tops h),
        ))
]
  where
    nowhere : IsAmong [] x → ⊥
    nowhere z = z

pub representatives-IsCovered :
    (P : GroupableAttestation → Type 0) (gs : List Group) (x : GroupableAttestation)
    → All (IsUniform P) gs
    → Any (Holds x) gs
    → IsCovered (representatives gs) x
representatives-IsCovered P [] x u h = elim h [ ]
representatives-IsCovered P (g ∷ gs) x u (inl here) = IsCovered-here P g gs x u.0 here
representatives-IsCovered P (g ∷ gs) x u (inr there) =
    let rest = representatives-IsCovered P gs x u.1 there in
    elim (representatives-Adds P g gs u.0) [
      | inl (_, e) ↦ subst (λ rs. IsCovered rs x) (sym e) rest
      | inr (r, e, _, _, _) ↦
          subst (λ rs. IsCovered rs x) (sym e) (IsCovered-later r (representatives gs) x rest)
    ]
