-- ===== src/Sync/EventLog/Order.antt =====
-- Versions: each append takes the next one, so the table stays in order and rows above a version
-- are the ones appended after it.
use verilink.Base.{
  ℕ, ◌+◌, ◌<◌, ◌≤◌, ◌≡◌, refl, Bool, List, [], ◌∷◌, ◌++◌, String, arith, keep, max, Bool-cases, inl,
  inr, ltb, ◌&&◌,
}
use verilink.Sync.EventLog.{
  SyncEvent, Opts, or_null, get_high_water_version, append_event_with_client, insert, order,
}

module _ {P : Type 0} where
  -- The versions rise along the table, and all lie above `n`.
  abbrev pub Rises : ℕ → List (SyncEvent P) → Type 0
  Rises n [] = Unit {0}
  Rises n (r ∷ rs) = (n < r.sync_version) × Rises r.sync_version rs

  Rises-mono : (m n : ℕ) (rows : List (SyncEvent P)) → m ≤ n → Rises n rows → Rises m rows
  Rises-mono m n [] h k = tt
  Rises-mono m n (r ∷ rs) h k = (omega arith, k.1)

  high_water_bound :
      (n : ℕ) (r : SyncEvent P) (rows : List (SyncEvent P))
      → Rises n rows
      → get_high_water_version rows < r.sync_version
      → n < r.sync_version
      → Rises n (rows ++ r ∷ [])
  unfolding get_high_water_version
  high_water_bound n r [] k h b = (b, tt)
  high_water_bound n r (s ∷ ss) k h b =
      (k.0, high_water_bound s.sync_version r ss k.1 (omega arith) (omega arith))

  high_water-append :
      (rows : List (SyncEvent P)) (r : SyncEvent P)
      → get_high_water_version (rows ++ r ∷ []) ≡ max (get_high_water_version rows) r.sync_version
  unfolding get_high_water_version
  high_water-append [] r = omega arith
  high_water-append (s ∷ ss) r = omega (arith, high_water-append ss r)

  -- An append keeps the versions rising, and returns the greatest of them.
  append-Rises :
      (table : List (SyncEvent P)) (t : String) (p : P) (o : Opts)
      → Rises 0 table
      → Rises 0 (append_event_with_client table t p o).0
        × (get_high_water_version (append_event_with_client table t p o).0
            ≡ get_high_water_version table + 1)
        × ((append_event_with_client table t p o).1 ≡ get_high_water_version table + 1)
  unfolding append_event_with_client
  append-Rises table t p o k =
      let r : SyncEvent P = record {
        sync_version = get_high_water_version table + 1;
        event_type = t;
        principal_id = or_null o.principal_id;
        tenant_id = or_null o.tenant_id;
        payload = p;
      } in
      (
        high_water_bound 0 r table k (omega arith) (omega arith),
        omega (arith, high_water-append table r),
        refl,
      )

  insert_first :
      (r : SyncEvent P) (rows : List (SyncEvent P))
      → Rises r.sync_version rows
      → insert r rows ≡ r ∷ rows
  unfolding insert
  insert_first r [] k = refl
  insert_first r (s ∷ ss) k = ground arith

  -- A table in order is read as it stands.
  pub order-Rises : (n : ℕ) (rows : List (SyncEvent P)) → Rises n rows → order rows ≡ rows
  unfolding order
  order-Rises n [] k = refl
  order-Rises n (r ∷ rs) k = rw (order-Rises r.sync_version rs k.1) (insert_first r rs k.1)

  pub Rises-keep :
      (p : SyncEvent P → Bool) (n : ℕ) (rows : List (SyncEvent P))
      → Rises n rows
      → Rises n (keep p rows)
  Rises-keep p n [] k = tt
  Rises-keep p n (r ∷ rs) k = elim (Bool-cases (p r)) [
    | inl e ↦ rw e (k.0, Rises-keep p r.sync_version rs k.1)
    | inr e ↦
        rw e (
          Rises-mono n r.sync_version (keep p rs) (omega arith)
            (Rises-keep p r.sync_version rs k.1))
  ]

  -- Rows that follow a table in order lie above its high-water version.
  pub Rises-append :
      (n : ℕ) (rows fresh : List (SyncEvent P))
      → Rises n (rows ++ fresh)
      → Rises n rows × Rises (max n (get_high_water_version rows)) fresh
  unfolding get_high_water_version
  Rises-append n [] fresh k = (tt, Rises-mono (max n 0) n fresh (omega arith) k)
  Rises-append n (r ∷ rs) fresh k =
      let (left, right) = Rises-append r.sync_version rs fresh k.1 in
      ((k.0, left), Rises-mono _ _ fresh (omega arith) right)

  -- No row of a table lies above its high-water version.
  pub keep_above :
      (p : SyncEvent P → Bool) (n : ℕ) (rows : List (SyncEvent P))
      → get_high_water_version rows ≤ n
      → keep (λ r. ltb n r.sync_version && p r) rows ≡ []
  unfolding get_high_water_version
  keep_above p n [] h = refl
  keep_above p n (r ∷ rs) h = ground (arith, keep_above p n rs)

  -- Above the bound of its rows, a table has them all selected.
  pub keep_below :
      (p : SyncEvent P → Bool) (c n : ℕ) (rows : List (SyncEvent P))
      → Rises n rows
      → c ≤ n
      → keep (λ r. ltb c r.sync_version && p r) rows ≡ keep p rows
  keep_below p c n [] k h = refl
  keep_below p c n (r ∷ rs) k h = ground (arith, keep_below p c r.sync_version rs k.1)
