-- ===== src/Graph/Grouping/Best.antt =====
-- The comparison of observationGrouping.ts (control-plane/src/domains/graph), and the first of a
-- sorted list.
use verilink.Base.{
  ℕ, ◌≡◌, sym, inl, inr, true, false, ◌&&◌, ◌||◌, List, [], ◌∷◌, arith, if◌then◌else◌, All,
  Bool-cases, ltb, leb, ◌==◌, subst,
}
use verilink.Graph.Grouping.{GroupableAttestation, visibility_rank, comes_before, first_sorted}

comes_before_trans :
    (a b c : GroupableAttestation)
    → comes_before a b ≡ true
    → comes_before b c ≡ true
    → comes_before a c ≡ true
unfolding comes_before
comes_before_trans a b c h k =
    by_rank (visibility_rank a.visibility) (visibility_rank b.visibility)
      (visibility_rank c.visibility) h k
  where
    by_rank :
        (x y z : ℕ)
        → (ltb y x || ((x == y) && leb b.issued_at a.issued_at)) ≡ true
        → (ltb z y || ((y == z) && leb c.issued_at b.issued_at)) ≡ true
        → (ltb z x || ((x == z) && leb c.issued_at a.issued_at)) ≡ true
    by_rank x y z h k = ground arith

comes_before_refl : (a : GroupableAttestation) → comes_before a a ≡ true
unfolding comes_before
comes_before_refl a = ground arith

comes_before_total :
    (a b : GroupableAttestation) → comes_before a b ≡ false → comes_before b a ≡ true
unfolding comes_before
comes_before_total a b h = by_rank (visibility_rank a.visibility) (visibility_rank b.visibility) h
  where
    by_rank :
        (x y : ℕ)
        → (ltb y x || ((x == y) && leb b.issued_at a.issued_at)) ≡ false
        → (ltb x y || ((y == x) && leb a.issued_at b.issued_at)) ≡ true
    by_rank x y h = ground arith

-- A row that may stand before each of some rows.
abbrev pub Tops : GroupableAttestation → List GroupableAttestation → Type 0
Tops t rs = All (λ x. comes_before t x ≡ true) rs

pub first_sorted-Tops :
    (row : GroupableAttestation) (rs : List GroupableAttestation)
    → Tops (first_sorted row rs) (row ∷ rs)
unfolding first_sorted
first_sorted-Tops row [] = (comes_before_refl row, tt)
first_sorted-Tops row (r ∷ rs) = elim (Bool-cases (comes_before row r)) [
  | inl e ↦
      let (own, others) = first_sorted-Tops row rs in
      subst (λ b. Tops (first_sorted (if b then row else r) rs) (row ∷ r ∷ rs)) (sym e)
        (own, (comes_before_trans (first_sorted row rs) row r own e, others))
  | inr e ↦
      let (own, others) = first_sorted-Tops r rs in
      subst (λ b. Tops (first_sorted (if b then row else r) rs) (row ∷ r ∷ rs)) (sym e)
        (
          comes_before_trans (first_sorted r rs) r row own (comes_before_total row r e),
          (own, others),
        )
]

-- What holds of all rows holds of the first of the sorted list.
pub first_sorted-All :
    (P : GroupableAttestation → Type 0) (row : GroupableAttestation)
    (rs : List GroupableAttestation)
    → All P (row ∷ rs)
    → P (first_sorted row rs)
unfolding first_sorted
first_sorted-All P row [] a = a.0
first_sorted-All P row (r ∷ rs) a = elim (Bool-cases (comes_before row r)) [
  | inl e ↦ rw e (first_sorted-All P row rs (a.0, a.1.1))
  | inr e ↦ rw e (first_sorted-All P r rs a.1)
]
