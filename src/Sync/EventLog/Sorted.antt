-- ===== src/Sync/EventLog/Sorted.antt =====
-- The versions of a poll's events rise, whatever the order of the table.
use verilink.Base.{
  ℕ, zero, suc, ◌≤◌, Bool, true, Option, List, [], ◌∷◌, ◌++◌, max, String, arith, Bool-cases,
  if_both, leb, All, All-le, All-append, take, keep, IsAscending, IsAscending-on, IsAscending-snoc,
  ◌≡◌, inl, inr,
}
use verilink.Sync.EventLog.{
  SyncEvent, is_selected, get_high_water_version, insert, order, get_poll_batch_with_high_water,
}

module _ {P : Type 0} where
  abbrev pub versions : List (SyncEvent P) → List ℕ
  versions [] = []
  versions (e ∷ es) = e.sync_version ∷ versions es

  All-insert :
      (Q : ℕ → Type 0) (r : SyncEvent P) (rows : List (SyncEvent P))
      → Q r.sync_version
      → All Q (versions rows)
      → All Q (versions (insert r rows))
  unfolding insert
  All-insert Q r [] q h = (q, tt)
  All-insert Q r (s ∷ rows) q h =
      if_both (λ l. All Q (versions l)) (leb r.sync_version s.sync_version) (r ∷ s ∷ rows)
        (s ∷ insert r rows) (q, h) (h.0, All-insert Q r rows q h.1)

  All-order :
      (Q : ℕ → Type 0) (rows : List (SyncEvent P))
      → All Q (versions rows)
      → All Q (versions (order rows))
  unfolding order
  All-order Q [] h = tt
  All-order Q (r ∷ rows) h = All-insert Q r (order rows) h.0 (All-order Q rows h.1)

  insert-IsAscending :
      (r : SyncEvent P) (rows : List (SyncEvent P))
      → IsAscending (versions rows)
      → IsAscending (versions (insert r rows))
  unfolding insert
  insert-IsAscending r [] h = (tt, tt)
  insert-IsAscending r (s ∷ rows) h = elim (Bool-cases (leb r.sync_version s.sync_version)) [
    | inl e ↦
        let below : r.sync_version ≤ s.sync_version = ground arith in
        rw e ((below, All-le r.sync_version s.sync_version (versions rows) below h.0), h)
    | inr e ↦ rw e (
      All-insert (λ v. s.sync_version ≤ v) r rows (ground arith) h.0,
      insert-IsAscending r rows h.1,
    )
  ]

  order-IsAscending : (rows : List (SyncEvent P)) → IsAscending (versions (order rows))
  unfolding order
  order-IsAscending [] = tt
  order-IsAscending (r ∷ rows) = insert-IsAscending r (order rows) (order-IsAscending rows)

  All-keep :
      (Q : ℕ → Type 0) (p : SyncEvent P → Bool) (rows : List (SyncEvent P))
      → ((r : SyncEvent P) → p r ≡ true → Q r.sync_version)
      → All Q (versions (keep p rows))
  All-keep Q p [] h = tt
  All-keep Q p (r ∷ rows) h = elim (Bool-cases (p r)) [
    | inl e ↦ rw e (h r e, All-keep Q p rows h)
    | inr e ↦ rw e (All-keep Q p rows h)
  ]

  All-take :
      (Q : ℕ → Type 0) (n : ℕ) (rows : List (SyncEvent P))
      → All Q (versions rows)
      → All Q (versions (take n rows))
  All-take Q zero rows h = tt
  All-take Q (suc n) [] h = tt
  All-take Q (suc n) (r ∷ rows) h = (h.0, All-take Q n rows h.1)

  take-IsAscending :
      (n : ℕ) (rows : List (SyncEvent P))
      → IsAscending (versions rows)
      → IsAscending (versions (take n rows))
  take-IsAscending zero rows h = tt
  take-IsAscending (suc n) [] h = tt
  take-IsAscending (suc n) (r ∷ rows) h =
      (All-take (λ v. r.sync_version ≤ v) n rows h.0, take-IsAscending n rows h.1)

  keep_below_high_water :
      (p : SyncEvent P → Bool) (m : ℕ) (rows : List (SyncEvent P))
      → get_high_water_version rows ≤ m
      → All (λ v. v ≤ m) (versions (keep p rows))
  unfolding get_high_water_version
  keep_below_high_water p m [] h = tt
  keep_below_high_water p m (r ∷ rows) h =
      if_both (λ l. All (λ v. v ≤ m) (versions l)) (p r) (r ∷ keep p rows) (keep p rows)
        (omega arith, keep_below_high_water p m rows (omega arith))
        (keep_below_high_water p m rows (omega arith))

  -- The events of a poll rise, above the last version and up to the high-water version.
  pub poll-IsAscending :
      (table : List (SyncEvent P)) (last : ℕ) (tenant : Option String) (limit : ℕ) (xs : List ℕ)
      → IsAscending (xs ++ last ∷ [])
      → let b = get_poll_batch_with_high_water table last tenant limit in
        IsAscending (xs ++ (versions b.events ++ max last b.high_water ∷ []))
  unfolding get_poll_batch_with_high_water
  poll-IsAscending table last tenant limit xs h =
      let kept = keep (is_selected last tenant) table in
      let hw = get_high_water_version table in
      let vs = versions (take limit (order kept)) in
      let above : All (λ v. last ≤ v) vs =
        All-take (λ v. last ≤ v) limit (order kept)
          (All-order (λ v. last ≤ v) kept
            (All-keep (λ v. last ≤ v) (is_selected last tenant) table (λ r e. ground arith))) in
      let below : All (λ v. v ≤ max last hw) vs =
        All-take (λ v. v ≤ max last hw) limit (order kept)
          (All-order (λ v. v ≤ max last hw) kept
            (keep_below_high_water (is_selected last tenant) (max last hw) table (omega arith))) in
      IsAscending-on xs (vs ++ max last hw ∷ []) last h
        (All-append (λ v. last ≤ v) vs (max last hw ∷ []) above (omega arith, tt))
        (IsAscending-snoc vs (max last hw)
          (take-IsAscending limit (order kept) (order-IsAscending kept)) below)
