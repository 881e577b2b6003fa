-- ===== src/Graph/Grouping/Cover.antt =====
-- Every observation has one representative, and a row without an observation stands for itself.
use verilink.Base.{
  ◌≡◌, refl, ap, sym, ◌∙◌, ◌⊎◌, inl, inr, none, List, [], ◌∷◌, ◌++◌, All, Any, Option-cases, subst,
  keep, append_assoc, append-nil,
}
use verilink.Graph.Grouping.{
  GroupableAttestation, Key, key_of, add_to_group, representatives, Split, place, place_all,
  group_attestations_for_scoring,
}
use verilink.Graph.Grouping.Groups.{
  IsUniform, Holds, IsDistinct, add_to_group-IsUniform, add_to_group-IsDistinct, add_to_group-keeps,
}
use verilink.Graph.Grouping.Representatives.{
  is_unpaired, AreDistinct, IsCovered, IsAmong, IsPaired, representatives-All,
  representatives-AreDistinct, representatives-IsCovered,
}

-- The result is the rows without an observation, as they stand, and one given row for each
-- observation that a row has.
pub record Represents (rows result : List GroupableAttestation) : Type 0 where
  pub chosen : List GroupableAttestation
  pub parts : result ≡ keep is_unpaired rows ++ chosen
  pub given : All (λ r. IsPaired r × IsAmong rows r) chosen
  pub distinct : AreDistinct chosen
  pub covers : All (IsCovered chosen) rows

-- What the loop keeps: the groups' rows have a property of all rows, and no two groups one key.
abbrev IsSound : (GroupableAttestation → Type 0) → Split → Type 0
IsSound P s = All (IsUniform P) s.groups × IsDistinct s.groups

place-IsSound :
    (P : GroupableAttestation → Type 0) (row : GroupableAttestation) (s : Split)
    → P row
    → IsSound P s
    → IsSound P (place row s)
unfolding place
place-IsSound P row s p h = elim (Option-cases (key_of row)) [
  | inl e ↦ rw (place, e) h
  | inr (k, e) ↦
      rw (place, e)
        (
          add_to_group-IsUniform P k row s.groups e p h.0,
          add_to_group-IsDistinct k row s.groups h.1,
        )
]

place_all-IsSound :
    (P : GroupableAttestation → Type 0) (rows : List GroupableAttestation) (s : Split)
    → All P rows
    → IsSound P s
    → IsSound P (place_all rows s)
unfolding place_all
place_all-IsSound P [] s p h = h
place_all-IsSound P (row ∷ rows) s p h =
    place_all-IsSound P rows (place row s) p.1 (place-IsSound P row s p.0 h)

-- Where a row is after it was placed.
abbrev IsPlaced : GroupableAttestation → Split → Type 0
IsPlaced x s = (key_of x ≡ none) ⊎ Any (Holds x) s.groups

place-IsPlaced :
    (row : GroupableAttestation) (s : Split) (x : GroupableAttestation)
    → IsPlaced x s ⊎ (row ≡ x)
    → IsPlaced x (place row s)
unfolding place
place-IsPlaced row s x h = elim (Option-cases (key_of row)) [
  | inl e ↦ rw (place, e) (alone e h)
  | inr (k, e) ↦ rw (place, e) (grouped k h)
]
  where
    alone : key_of row ≡ none → IsPlaced x s ⊎ (row ≡ x) → IsPlaced x s
    alone e (inl p) = p
    alone e (inr same) = inl (subst (λ y. key_of y ≡ none) same e)

    grouped :
        (k : Key)
        → IsPlaced x s ⊎ (row ≡ x)
        → (key_of x ≡ none) ⊎ Any (Holds x) (add_to_group k row s.groups)
    grouped k (inl (inl e)) = inl e
    grouped k (inl (inr there)) = inr (add_to_group-keeps k row s.groups x (inl there))
    grouped k (inr e) = inr (add_to_group-keeps k row s.groups x (inr e))

place_all-IsPlaced :
    (rows : List GroupableAttestation) (s : Split) (x : GroupableAttestation)
    → IsPlaced x s ⊎ IsAmong rows x
    → IsPlaced x (place_all rows s)
unfolding place_all
place_all-IsPlaced [] s x (inl h) = h
place_all-IsPlaced [] s x (inr h) = elim h [ ]
place_all-IsPlaced (row ∷ rows) s x (inl h) =
    place_all-IsPlaced rows (place row s) x (inl (place-IsPlaced row s x (inl h)))
place_all-IsPlaced (row ∷ rows) s x (inr (inl e)) =
    place_all-IsPlaced rows (place row s) x (inl (place-IsPlaced row s x (inr e)))
place_all-IsPlaced (row ∷ rows) s x (inr (inr h)) = place_all-IsPlaced rows (place row s) x (inr h)

-- The rows without an observation, in the order in which they come.
place_all-unpaired :
    (rows : List GroupableAttestation) (s : Split)
    → (place_all rows s).unpaired ≡ s.unpaired ++ keep is_unpaired rows
unfolding place_all place
place_all-unpaired [] s = sym (append-nil s.unpaired)
place_all-unpaired (row ∷ rows) s = elim (Option-cases (key_of row)) [
  | inl e ↦
      place_all-unpaired rows (place row s)
      ∙ rw (place, e) (append_assoc s.unpaired (row ∷ []) (keep is_unpaired rows))
  | inr (k, e) ↦ place_all-unpaired rows (place row s) ∙ rw (place, e) refl
]

-- Rows are among themselves, and a list that has each of some rows covers them.
All-among :
    (P : GroupableAttestation → Type 0) (rows : List GroupableAttestation)
    → ((x : GroupableAttestation) → IsAmong rows x → P x)
    → All P rows
All-among P [] f = tt
All-among P (row ∷ rows) f = (f row (inl refl), All-among P rows (λ x h. f x (inr h)))

-- The result is the rows without an observation, in their order and each as often as it came, then
-- one given row for each observation that a given row has, no two of one observation; the row
-- chosen is at least as restricted as every row of its observation, and at least as late as those
-- that are equally restricted. So no row without an observation is collapsed, no observation counts
-- twice or is lost, and a copy for participants wins over a public one.
pub group_attestations_for_scoring-Represents :
    (rows : List GroupableAttestation) → Represents rows (group_attestations_for_scoring rows)
unfolding group_attestations_for_scoring
group_attestations_for_scoring-Represents rows =
    let start : Split = record { unpaired = []; groups = [] } in
    let s = place_all rows start in
    let (uniform, distinct) =
      place_all-IsSound (IsAmong rows) rows start (All-among (IsAmong rows) rows (λ x h. h))
        (tt, tt) in
    record {
      chosen = representatives s.groups;
      parts = ap (λ u. u ++ representatives s.groups) (place_all-unpaired rows start);
      given = representatives-All (IsAmong rows) s.groups uniform;
      distinct = representatives-AreDistinct (IsAmong rows) s.groups uniform distinct;
      covers = All-among (IsCovered (representatives s.groups)) rows (λ x h.
          elim (place_all-IsPlaced rows start x (inr h)) [
            | inl e ↦ inl e
            | inr grouped ↦ representatives-IsCovered (IsAmong rows) s.groups x uniform grouped
          ]);
    }
