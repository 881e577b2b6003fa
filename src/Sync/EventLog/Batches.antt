-- ===== src/Sync/EventLog/Batches.antt =====
-- What a stream sees of the table, over its first batch and a poll.
use verilink.Base.{
  ℕ, ◌+◌, ◌<◌, ◌≤◌, ◌≡◌, refl, ap, ◌∙◌, Bool, false, Option, none, List, [], ◌++◌, String, arith,
  keep, keep-append, take, take_all, length, length-take, max,
}
use verilink.Sync.EventLog.{
  SyncEvent, or_null, is_visible, is_selected, get_high_water_version, order, get_events_since,
  get_initial_batch_with_high_water, get_poll_batch_with_high_water,
}
use verilink.Sync.EventLog.Order.{
  Rises, order-Rises, Rises-keep, Rises-append, keep_above, keep_below,
}

module _ {P : Type 0} where
  -- Without a limit the selected rows are read in the order of the table.
  get_events_since_all :
      (table : List (SyncEvent P)) (since : ℕ) (tenant : Option String)
      → Rises 0 table
      → get_events_since table since tenant none ≡ keep (is_selected since tenant) table
  unfolding get_events_since
  get_events_since_all table since tenant k =
      order-Rises 0 (keep (is_selected since tenant) table)
        (Rises-keep (is_selected since tenant) 0 table k)

  poll_events :
      (table : List (SyncEvent P)) (since : ℕ) (tenant : Option String) (limit : ℕ)
      → (get_poll_batch_with_high_water table since tenant limit).events
        ≡ take limit (get_events_since table since tenant none)
  unfolding get_poll_batch_with_high_water get_events_since
  poll_events table since tenant limit = refl

  -- The rows above the high-water version of an earlier state are those appended since.
  since_high_water :
      (table fresh : List (SyncEvent P)) (since : ℕ) (tenant : Option String)
      → Rises 0 (table ++ fresh)
      → since ≤ get_high_water_version table
      → get_events_since (table ++ fresh) since tenant none
        ≡ get_events_since table since tenant none
          ++ get_events_since (table ++ fresh) (get_high_water_version table) tenant none
  since_high_water table fresh since tenant k h =
      let p : SyncEvent P → Bool = λ r. is_visible (or_null tenant) r.tenant_id in
      let hw = get_high_water_version table in
      let (kt, kf) = Rises-append 0 table fresh k in
      let all = keep_below p since (max 0 hw) fresh kf (omega arith) in
      let new = keep_below p hw (max 0 hw) fresh kf (omega arith) in
      get_events_since_all (table ++ fresh) since tenant k
      ∙ keep-append (is_selected since tenant) table fresh
      ∙ rw (
        get_events_since_all table since tenant kt,
        get_events_since_all (table ++ fresh) hw tenant k,
        keep-append (is_selected hw tenant) table fresh,
        keep_above p hw table (omega arith),
        all,
        new,
      )

  initial_events :
      (table : List (SyncEvent P)) (since : ℕ) (tenant : Option String) (batch : ℕ)
      → (get_initial_batch_with_high_water table since tenant batch).backlog_exceeded ≡ false
      → ((get_initial_batch_with_high_water table since tenant batch).events
          ≡ get_events_since table since tenant none)
        × ((get_initial_batch_with_high_water table since tenant batch).high_water
            ≡ get_high_water_version table)
  unfolding get_initial_batch_with_high_water get_events_since
  initial_events table since tenant batch b =
      let all = order (keep (is_selected since tenant) table) in
      let short : length all ≤ batch = ground (arith, length-take (batch + 1) all) in
      (rw b (take_all (batch + 1) all (omega arith)), refl)

  -- A stream that starts from `since`, at or below the high-water version, and whose backlog fits
  -- its first batch, has after a poll that its limit does not cut all visible events above `since`,
  -- each once and in order, whatever was appended between the two.
  pub initial-poll_complete :
      (table fresh : List (SyncEvent P)) (since : ℕ) (tenant : Option String) (batch limit : ℕ)
      → Rises 0 (table ++ fresh)
      → since ≤ get_high_water_version table
      → (get_initial_batch_with_high_water table since tenant batch).backlog_exceeded ≡ false
      → length (get_events_since (table ++ fresh) (get_high_water_version table) tenant none)
        ≤ limit
      → (get_initial_batch_with_high_water table since tenant batch).events
          ++ (get_poll_batch_with_high_water
              (table ++ fresh)
              (get_initial_batch_with_high_water table since tenant batch).high_water
              tenant
              limit).events
        ≡ get_events_since (table ++ fresh) since tenant none
  initial-poll_complete table fresh since tenant batch limit k h b l =
      let (events, high_water) = initial_events table since tenant batch b in
      rw (
        events,
        high_water,
        poll_events (table ++ fresh) (get_high_water_version table) tenant limit,
        take_all limit _ l,
        ← since_high_water table fresh since tenant k h,
      )

  nothing_above :
      (table : List (SyncEvent P)) (since : ℕ) (tenant : Option String) (limit : ℕ)
      → Rises 0 table
      → get_events_since table
          (get_poll_batch_with_high_water table since tenant limit).high_water
          tenant
          none
        ≡ []
  unfolding get_poll_batch_with_high_water
  nothing_above table since tenant limit k =
      get_events_since_all table (get_high_water_version table) tenant k
      ∙ keep_above (λ r. is_visible (or_null tenant) r.tenant_id) (get_high_water_version table)
          table (omega arith)

  -- When more events than the limit are visible above `since`, the events of the poll and those
  -- above the high-water version that the poll reports are fewer than the visible ones: a stream
  -- that goes on from that version never sees the others.
  pub poll_skips :
      (table : List (SyncEvent P)) (since : ℕ) (tenant : Option String) (limit : ℕ)
      → Rises 0 table
      → limit < length (get_events_since table since tenant none)
      → length (get_poll_batch_with_high_water table since tenant limit).events
          + length (
              get_events_since table
                (get_poll_batch_with_high_water table since tenant limit).high_water
                tenant
                none)
        < length (get_events_since table since tenant none)
  poll_skips table since tenant limit k h = omega (
    arith,
    ap length (poll_events table since tenant limit),
    length-take limit (get_events_since table since tenant none),
    ap length (nothing_above table since tenant limit k),
  )
