-- ===== src/Graph/Grouping.antt =====
-- control-plane/src/domains/graph/observationGrouping.ts: the rows of one observation, which the
-- issuer may have submitted under both visibilities, count as one. Ids hold no NUL, so the joined
-- key is the record of its parts. Texts of observation ids are code units.
pub mod Best
pub mod Groups
pub mod Representatives
pub mod Cover
use verilink.Base.{
  ℕ, Bool, true, false, not, ◌&&◌, ◌||◌, Option, none, some, List, [], ◌∷◌, ◌++◌, String,
  if◌then◌else◌, leb, ltb, ◌==◌, is_empty,
}
use verilink.Base.Int.{ℤ}
use verilink.Base.Texts.{str_eq, texts_eq}
use verilink.Sync.LastEventId.{Text, trim}

-- The columns of a row that the grouping carries along.
pub record Columns : Type 0 where
  pub trust_delta : ℤ
  pub expires_at : Option ℕ
  pub attestation_type : String

pub record GroupableAttestation : Type 0 where
  pub id : String
  pub issuer_id : String
  pub subject_id : String
  pub observation_id : Option Text
  pub visibility : String
  pub issued_at : ℕ
  pub columns : Columns

unfoldable pub visibility_rank : String → ℕ
visibility_rank v = if str_eq v "participants" then 2 else 1

pub record Key : Type 0 where
  pub issuer_id : String
  pub subject_id : String
  pub observation_id : Text

abbrev pub same_key : Key → Key → Bool
same_key a b =
    str_eq a.issuer_id b.issuer_id
    && str_eq a.subject_id b.subject_id
    && texts_eq a.observation_id b.observation_id

abbrev pub key_with : GroupableAttestation → Text → Option Key
key_with row oid =
    if is_empty oid
    then none
    else some
        (record { issuer_id = row.issuer_id; subject_id = row.subject_id; observation_id = oid })

-- The key of a row, none where it stands for itself.
unfoldable pub key_of : GroupableAttestation → Option Key
unfolding trim
key_of row = elim row.observation_id [ none ↦ none | some o ↦ key_with row (trim o) ]

-- The groups in the order of their first rows.
pub record Group : Type 0 where
  pub key : Key
  pub rows : List GroupableAttestation

unfoldable pub add_to_group : Key → GroupableAttestation → List Group → List Group
add_to_group k row [] = record { key = k; rows = row ∷ [] } ∷ []
add_to_group k row (g ∷ gs) =
    let rest = add_to_group k row gs in
    if same_key g.key k then record g { rows = g.rows ++ (row ∷ []) } ∷ gs else g ∷ rest

-- The comparison of the sort: whether `a` may stand before `b`.
unfoldable pub comes_before : GroupableAttestation → GroupableAttestation → Bool
unfolding visibility_rank
comes_before a b =
    let rank_a = visibility_rank a.visibility in
    let rank_b = visibility_rank b.visibility in
    ltb rank_b rank_a || ((rank_a == rank_b) && leb b.issued_at a.issued_at)

-- The first of the sorted list: the first row that no other has to precede.
unfoldable pub first_sorted :
    GroupableAttestation → List GroupableAttestation → GroupableAttestation
unfolding comes_before
first_sorted row [] = row
first_sorted row (r ∷ rs) = first_sorted (if comes_before row r then row else r) rs

-- One representative for each group.
unfoldable pub representatives : List Group → List GroupableAttestation
unfolding first_sorted
representatives [] = []
representatives (g ∷ gs) =
    let rest = representatives gs in elim g.rows [ [] ↦ rest | r ∷ rs ↦ first_sorted r rs ∷ rest ]

-- The loop over the rows.
pub record Split : Type 0 where
  pub unpaired : List GroupableAttestation
  pub groups : List Group

unfoldable pub place : GroupableAttestation → Split → Split
unfolding key_of add_to_group
place row s = elim (key_of row) [
  | none ↦ record s { unpaired = s.unpaired ++ (row ∷ []) }
  | some k ↦ record s { groups = add_to_group k row s.groups }
]

unfoldable pub place_all : List GroupableAttestation → Split → Split
unfolding place
place_all [] s = s
place_all (row ∷ rows) s = place_all rows (place row s)

unfoldable pub group_attestations_for_scoring :
    List GroupableAttestation → List GroupableAttestation
unfolding place_all representatives
group_attestations_for_scoring rows =
    let s = place_all rows (record { unpaired = []; groups = [] }) in
    s.unpaired ++ representatives s.groups
