-- ===== src/Graph/Loader/Closed.antt =====
-- The graph holds the principals of its roots and attestations, and all that the tables select.
use verilink.Base.{
  ℕ, ◌≡◌, refl, ◌⊎◌, sym, ap, subst, inl, inr, Bool, true, false, ◌&&◌, ◌||◌, Option, none, some,
  List, [], ◌∷◌, ◌++◌, String, arith, Bool-cases, if_both, if◌then◌else◌, any, keep, map, is_empty,
  All, All-append,
}
use verilink.Base.Texts.{str_eq, eq_iff, eq_refl}
use verilink.Graph.Grouping.{
  GroupableAttestation, Group, Split, key_of, add_to_group, first_sorted, comes_before,
  representatives, place, place_all, group_attestations_for_scoring,
}
use verilink.Graph.Grouping
use verilink.Graph.Loader.{
  PrincipalRow, Snapshot, GraphPrincipal, GraphRoot, AttestationGraph, is_active_row, is_active_id,
  is_eligible, graph_root, root_rows, counts, attestation_rows, has_root, is_needed,
  graph_principal, graph_principals, has_principal, load_attestation_graph,
}

-- What every row has, every representative has.
module _ (Q : GroupableAttestation → Type 0) where
  abbrev AllGroups : List Group → Type 0
  AllGroups gs = All (λ g. All Q g.rows) gs

  add_to_group-All :
      (k : Grouping.Key) (row : GroupableAttestation) (gs : List Group)
      → Q row
      → AllGroups gs
      → AllGroups (add_to_group k row gs)
  unfolding add_to_group
  add_to_group-All k row [] q h = ((q, tt), tt)
  add_to_group-All k row (g ∷ gs) q h =
      if_both AllGroups (Grouping.same_key g.key k) _ _
        (All-append Q g.rows (row ∷ []) h.0 (q, tt), h.1) (h.0, add_to_group-All k row gs q h.1)

  first_sorted-All :
      (row : GroupableAttestation) (rows : List GroupableAttestation)
      → Q row
      → All Q rows
      → Q (first_sorted row rows)
  unfolding first_sorted
  first_sorted-All row [] q h = q
  first_sorted-All row (r ∷ rs) q h =
      first_sorted-All (if comes_before row r then row else r) rs
        (if_both Q (comes_before row r) row r q h.0) h.1

  representative-All :
      (rows : List GroupableAttestation) (rest : List GroupableAttestation)
      → All Q rows
      → All Q rest
      → All Q (elim rows [ [] ↦ rest | r ∷ rs ↦ first_sorted r rs ∷ rest ])
  representative-All [] rest h k = k
  representative-All (r ∷ rs) rest h k = (first_sorted-All r rs h.0 h.1, k)

  representatives-All : (gs : List Group) → AllGroups gs → All Q (representatives gs)
  unfolding representatives
  representatives-All [] h = tt
  representatives-All (g ∷ gs) h =
      representative-All g.rows (representatives gs) h.0 (representatives-All gs h.1)

  abbrev AllSplit : Split → Type 0
  AllSplit s = All Q s.unpaired × AllGroups s.groups

  place-All : (row : GroupableAttestation) (s : Split) → Q row → AllSplit s → AllSplit (place row s)
  unfolding place
  place-All row s q h = by_key (key_of row)
    where
      by_key :
          (k : Option Grouping.Key)
          → AllSplit (elim k [
            | none ↦ record s { unpaired = s.unpaired ++ (row ∷ []) }
            | some k ↦ record s { groups = add_to_group k row s.groups }
          ])
      by_key none = (All-append Q s.unpaired (row ∷ []) h.0 (q, tt), h.1)
      by_key (some k) = (h.0, add_to_group-All k row s.groups q h.1)

  place_all-All :
      (rows : List GroupableAttestation) (s : Split)
      → All Q rows
      → AllSplit s
      → AllSplit (place_all rows s)
  unfolding place_all
  place_all-All [] s r h = h
  place_all-All (row ∷ rows) s r h = place_all-All rows (place row s) r.1 (place-All row s r.0 h)

  group-All :
      (rows : List GroupableAttestation) → All Q rows → All Q (group_attestations_for_scoring rows)
  unfolding group_attestations_for_scoring
  group-All rows h =
      let s = place_all rows (record { unpaired = []; groups = [] }) in
      let (u, g) = place_all-All rows (record { unpaired = []; groups = [] }) h (tt, tt) in
      All-append Q s.unpaired (representatives s.groups) u (representatives-All s.groups g)

All-map {ℓ κ} :
    {A : Type ℓ} {B : Type κ} (Q : B → Type 0) (f : A → B) (p : A → Bool) (xs : List A)
    → ((x : A) → p x ≡ true → Q (f x))
    → All Q (map f (keep p xs))
All-map Q f p [] h = tt
All-map Q f p (x ∷ xs) h = elim (Bool-cases (p x)) [
  | inl e ↦ rw e (h x e, All-map Q f p xs h)
  | inr e ↦ rw e (All-map Q f p xs h)
]

keep-All {ℓ} : {A : Type ℓ} (p : A → Bool) (xs : List A) → All (λ x. p x ≡ true) xs → keep p xs ≡ xs
keep-All p [] h = refl
keep-All p (x ∷ xs) h = rw h.0 (ap (◌∷◌ x) (keep-All p xs h.1))

-- A test that each element passes with itself is passed by some element.
any_self {ℓ} :
    {A : Type ℓ} (f : A → A → Bool) (xs : List A)
    → ((x : A) → f x x ≡ true)
    → All (λ x. any (f x) xs ≡ true) xs
any_self f [] r = tt
any_self f (x ∷ xs) r = (rw (r x) refl, later xs (any_self f xs r))
  where
    later :
        (ys : List _) → All (λ y. any (f y) xs ≡ true) ys → All (λ y. any (f y) (x ∷ xs) ≡ true) ys
    later [] h = tt
    later (y ∷ ys) h = (ground arith, later ys h.1)

All-both {ℓ} :
    {A : Type ℓ} (Q R S : A → Type 0) (xs : List A)
    → ((x : A) → Q x → R x → S x)
    → All Q xs
    → All R xs
    → All S xs
All-both Q R S [] f h k = tt
All-both Q R S (x ∷ xs) f h k = (f x h.0 k.0, All-both Q R S xs f h.1 k.1)

-- An active principal that is needed is in the graph.
graph_principals-has :
    (s : Snapshot) (roots : List GraphRoot) (needed : String → Bool) (ps : List PrincipalRow)
    (id : String)
    → is_active_id ps id ≡ true
    → needed id ≡ true
    → has_principal (map (graph_principal s roots) (keep (λ p. needed p.id && p.is_active) ps)) id
      ≡ true
unfolding graph_principal
graph_principals-has s roots needed [] id a n = absurd (cc)
graph_principals-has s roots needed (p ∷ ps) id a n =
    let kept = keep (λ p. needed p.id && p.is_active) ps in
    elim (Bool-cases (is_active_row id p)) [
      | inl e ↦
          let same : p.id ≡ id = ground (arith, eq_iff p.id id) in
          let active : p.is_active ≡ true = ground arith in
          let found : str_eq p.id id ≡ true = ground arith in
          rw (subst (λ j. needed j ≡ true) (sym same) n, active, found) refl
      | inr e ↦
          let a' : is_active_id ps id ≡ true = ground arith in
          let rest = graph_principals-has s roots needed ps id a' n in
          if_both (λ l. has_principal (map (graph_principal s roots) l) id ≡ true)
            (needed p.id && p.is_active) (p ∷ kept) kept (ground arith) rest
    ]

-- What the engine is given is whole: the tables' roots and the representatives of the tables'
-- attestations, each with its principals.
pub record IsWhole (now : ℕ) (s : Snapshot) (g : AttestationGraph) : Type 0 where
  pub roots : g.roots ≡ root_rows s
  pub attestations : g.attestations ≡ attestation_rows s now
  pub rooted : All (λ r. has_principal g.principals r.id ≡ true) g.roots
  pub ended :
      All
        (λ a.
          (has_principal g.principals a.issuer_id && has_principal g.principals a.subject_id)
          ≡ true)
        g.attestations
  pub marked :
      All
        (λ p.
          (p.is_bootstrap ≡ has_root g.roots p.id)
          × ((p.is_bootstrap ≡ false) ⊎ (p.trust_weight ≡ 100)))
        g.principals

abbrev HasEnds : Snapshot → GroupableAttestation → Type 0
HasEnds s a =
    (is_active_id s.principals a.issuer_id ≡ true) × (is_active_id s.principals a.subject_id ≡ true)

attestation_rows-HasEnds : (s : Snapshot) (now : ℕ) → All (HasEnds s) (attestation_rows s now)
unfolding attestation_rows counts
attestation_rows-HasEnds s now = group-All (HasEnds s) _ (
    All-map (HasEnds s) (λ r. r.attestation) (counts s now) s.attestations
      (λ r h. (ground arith, ground arith)))

root_rows-active : (s : Snapshot) → All (λ r. is_active_id s.principals r.id ≡ true) (root_rows s)
unfolding root_rows is_eligible
root_rows-active s =
    All-map (λ r. is_active_id s.principals r.id ≡ true) graph_root (is_eligible s)
      s.bootstrap_issuers (λ b h. ground arith)

mark_rows :
    (s : Snapshot) (roots : List GraphRoot) (p : PrincipalRow → Bool) (ps : List PrincipalRow)
    → All
        (λ p.
          (p.is_bootstrap ≡ has_root roots p.id)
          × ((p.is_bootstrap ≡ false) ⊎ (p.trust_weight ≡ 100)))
        (map (graph_principal s roots) (keep p ps))
unfolding graph_principal
mark_rows s roots p ps = All-map _ (graph_principal s roots) p ps (λ x h.
    (refl, elim (Bool-cases (has_root roots x.id)) [ inl e ↦ inr (rw e refl) | inr e ↦ inl e ]))

is_empty-nil {ℓ} : {A : Type ℓ} (xs : List A) → is_empty xs ≡ true → xs ≡ []
is_empty-nil [] h = refl
is_empty-nil (x ∷ xs) h = absurd (cc)

-- An attestation's two ends are ends of the attestations.
ends_needed :
    (a : GroupableAttestation) (bs : List GroupableAttestation)
    → any (λ b. str_eq b.issuer_id a.issuer_id && str_eq b.subject_id a.subject_id) bs ≡ true
    → (any (λ b. str_eq b.issuer_id a.issuer_id || str_eq b.subject_id a.issuer_id) bs ≡ true)
      × (any (λ b. str_eq b.issuer_id a.subject_id || str_eq b.subject_id a.subject_id) bs ≡ true)
ends_needed a [] h = absurd (cc)
ends_needed a (b ∷ bs) h =
    elim (Bool-cases (str_eq b.issuer_id a.issuer_id && str_eq b.subject_id a.subject_id)) [
      | inl e ↦ (ground arith, ground arith)
      | inr e ↦ let (i, j) = ends_needed a bs (ground arith) in (ground arith, ground arith)
    ]

-- The general case, in which the filters of the end drop nothing.
module _ (now : ℕ) (s : Snapshot) where
  abbrev rs : List GraphRoot
  rs = root_rows s

  abbrev atts : List GroupableAttestation
  atts = attestation_rows s now

  abbrev ps : List GraphPrincipal
  ps = graph_principals s rs atts

  every_root : All (λ r. has_principal ps r.id ≡ true) rs
  unfolding graph_principals is_needed
  every_root =
      All-both _ _ _ rs
        (λ r a n. graph_principals-has s rs (is_needed rs atts) s.principals r.id a (ground arith))
        (root_rows-active s) (any_self (λ r q. str_eq q.id r.id) rs (λ r. eq_refl r.id))

  needed_by_end :
      (id : String)
      → any (λ a. str_eq a.issuer_id id || str_eq a.subject_id id) atts ≡ true
      → is_needed rs atts id ≡ true
  unfolding is_needed
  needed_by_end id h = ground arith

  every_end : All (λ a. (has_principal ps a.issuer_id && has_principal ps a.subject_id) ≡ true) atts
  unfolding graph_principals is_needed
  every_end =
      All-both (HasEnds s)
        (λ a.
          any (λ b. str_eq b.issuer_id a.issuer_id && str_eq b.subject_id a.subject_id) atts ≡ true)
        (λ a. (has_principal ps a.issuer_id && has_principal ps a.subject_id) ≡ true) atts
        (λ a (i, j) n.
          let (ni, nj) = ends_needed a atts n in
          let test = is_needed rs atts in
          let hi =
            graph_principals-has s rs test s.principals a.issuer_id i
              (needed_by_end a.issuer_id ni) in
          let hj =
            graph_principals-has s rs test s.principals a.subject_id j
              (needed_by_end a.subject_id nj) in
          rw (hi, hj) refl)
        (attestation_rows-HasEnds s now)
        (any_self (λ a b. str_eq b.issuer_id a.issuer_id && str_eq b.subject_id a.subject_id) atts
          (λ a. rw (eq_refl a.issuer_id, eq_refl a.subject_id) refl))

  every_mark :
      All
        (λ p.
          (p.is_bootstrap ≡ has_root rs p.id) × ((p.is_bootstrap ≡ false) ⊎ (p.trust_weight ≡ 100)))
        ps
  unfolding graph_principals
  every_mark = mark_rows s rs (λ p. is_needed rs atts p.id && p.is_active) s.principals

  whole : IsWhole now s (record {
    principals = ps;
    roots = keep (λ r. has_principal ps r.id) rs;
    attestations = keep (λ a. has_principal ps a.issuer_id && has_principal ps a.subject_id) atts;
    network_score_count = s.network_score_count;
  })
  whole =
      let er = keep-All (λ r. has_principal ps r.id) rs every_root in
      let ea =
        keep-All (λ a. has_principal ps a.issuer_id && has_principal ps a.subject_id) atts
          every_end in
      record {
        roots = er;
        attestations = ea;
        rooted = subst (All (λ r. has_principal ps r.id ≡ true)) (sym er) every_root;
        ended =
            subst
              (All (λ a. (has_principal ps a.issuer_id && has_principal ps a.subject_id) ≡ true))
              (sym ea) every_end;
        marked =
            subst
              (λ l.
                All
                  (λ p.
                    (p.is_bootstrap ≡ has_root l p.id)
                    × ((p.is_bootstrap ≡ false) ⊎ (p.trust_weight ≡ 100)))
                  ps)
              (sym er) every_mark;
      }

  -- The graph of a snapshot has exactly the eligible roots and the representatives of the counting
  -- attestations: the last filters drop nothing. The ends of its attestations and its roots are
  -- among its principals, of which those and only those marked as bootstrap are its roots, with the
  -- full weight.
  pub load_attestation_graph-IsWhole : IsWhole now s (load_attestation_graph now s)
  unfolding load_attestation_graph
  load_attestation_graph-IsWhole = elim (Bool-cases (is_empty rs && is_empty atts)) [
    | inl e ↦
        let r : rs ≡ [] = is_empty-nil rs (ground arith) in
        let a : atts ≡ [] = is_empty-nil atts (ground arith) in
        rw (e, load_attestation_graph)
          (record { roots = sym r; attestations = sym a; rooted = tt; ended = tt; marked = tt })
    | inr e ↦ rw (e, load_attestation_graph) whole
  ]
