-- ===== src/Collector/Results.antt =====
-- collector.go: what holds of a collector after any sequence of calls.
use go_clockwork.Prelude.{
  ℕ, ◌+◌, ◌<◌, ◌≡◌, ◌≢◌, ◌↔◌, refl, ◌∙◌, true, false, List, [], if◌then◌else◌, arith, Bool-cases,
  inl, inr, length, Grows, Text, ℤ, pos, negsuc, pos_part, is_pos, ◌≤ℤ◌, count_of, lookup,
}
use go_clockwork.Runtime.{Runtime}
use go_clockwork.Config.{Config, normalize}
use go_clockwork.Config.Normalize.{normalize-IsNormal}
use go_clockwork.Collector.{Collector, CollectorLimits, new_collector, limits_from_config}
use go_clockwork.Collector.Calls.{Call, run_calls, event_count}
use go_clockwork.Collector.Snapshot.{get_metadata}
use go_clockwork.Collector.Quiet.{exceeds, dropped_events}
use go_clockwork.Collector.Sound.{Sound, IsBounded, AreShort}
use go_clockwork.Collector.Invariant.{run_calls-Sound}

-- The limit on texts that a new collector works with.
abbrev pub string_limit : CollectorLimits → ℕ
string_limit l = pos_part (if is_pos l.max_string_len then l.max_string_len else pos 2048)

limit_lem :
    (max : ℤ)
    → ((if is_pos max then max else pos 2048)
        ≡ pos (pos_part (if is_pos max then max else pos 2048)))
      × (0 < pos_part (if is_pos max then max else pos 2048))
limit_lem max = ground arith

exceeds_zero : (max : ℤ) → exceeds max (pos 0) ≡ false
exceeds_zero (pos n) = ground arith
exceeds_zero (negsuc n) = refl

le_of_exceeds : (max m : ℤ) → is_pos max ≡ true → exceeds max m ≡ false → m ≤ℤ max
le_of_exceeds max m p h = ground arith

module _ {F O : Type 0} (rt : Runtime F O) (id : Text) (now : ℤ) (alloc : ℕ) (method uri : Text)
    (limits : CollectorLimits) (calls : List (Call F O)) where
  -- A new collector after a sequence of calls.
  unfoldable pub collected : Collector F O
  collected = run_calls rt calls (new_collector id now alloc method uri limits)

  collected-Sound :
      Sound
        (string_limit limits)
        (event_count calls)
        (new_collector id now alloc method uri limits)
        collected
  unfolding collected new_collector
  collected-Sound =
      let (same, positive) = limit_lem limits.max_string_len in
      run_calls-Sound (string_limit limits) positive rt calls
        (new_collector id now alloc method uri limits)
        (elim (Bool-cases (is_pos limits.max_string_len)) [
          | inl set ↦ rw set (ground arith)
          | inr unset ↦ rw unset
        ])

  collected-IsBounded : IsBounded collected
  unfolding new_collector
  collected-IsBounded =
      let start : Collector F O = new_collector id now alloc method uri limits in
      collected-Sound.bounded (record {
        databases = exceeds_zero start.limits.max_db_queries;
        caches = exceeds_zero start.limits.max_cache_queries;
        logs = exceeds_zero start.limits.max_logs;
        events = exceeds_zero start.limits.max_timeline_event;
        payload = exceeds_zero start.limits.max_request_bytes;
      })

  -- After any sequence of calls on a new collector, every text in its queries, cache operations and log
  -- entries (their fields and frames included), and the name and the description of each timeline
  -- event, but not its colour, is within the limit on texts, which is 2048 bytes where none is set. A
  -- log entry has at most 20 fields and 12 frames.
  pub collected-AreShort : AreShort (string_limit limits) collected
  unfolding new_collector
  collected-AreShort =
      collected-Sound.short (record { databases = tt; caches = tt; logs = tt; events = tt })

  -- No event is lost silently. After any sequence of calls on a new collector, its log entries, its
  -- timeline events (a query or a cache operation is counted by its event) and the counts of the
  -- buckets database, cache, logs, timeline and payload add up to the number of calls that record
  -- something.
  pub collected_counted :
      length collected.log_entries
        + length collected.timeline_events
        + dropped_events collected.dropped
      ≡ event_count calls
  unfolding new_collector count_of lookup
  collected_counted = omega (arith, collected-Sound.counted)

  -- After any sequence of calls on a new collector, its metadata is marked as truncated exactly when
  -- its counts of dropped events are not empty.
  pub get_metadata-truncated_iff :
      ((get_metadata rt collected).truncated ≡ true) ↔ ((get_metadata rt collected).dropped ≢ [])
  unfolding get_metadata new_collector
  get_metadata-truncated_iff =
      let honest = collected-Sound.honest (record { unmarked = λ e. refl; marked = λ e. cc }) in
      (
        honest.marked,
        λ h. elim (Bool-cases collected.truncated) [
          | inl flag ↦ flag
          | inr flag ↦ absurd (h (honest.unmarked flag))
        ],
      )

-- In a collector that the service makes, whatever the configuration says and whatever is called, the
-- numbers of queries, of cache operations, of log entries and of timeline events stay within the limits
-- of the configuration, and so does `usedBytes`, the collector's own estimate of what it holds.
pub collected-within_limits :
    {F O : Type 0} (rt : Runtime F O) (id : Text) (now : ℤ) (alloc : ℕ) (method uri : Text)
    (cfg : Config) (calls : List (Call F O))
    → let n = normalize cfg in
      let c = collected rt id now alloc method uri (limits_from_config n) calls in
      (pos (length c.database_queries) ≤ℤ n.max_database_queries)
      × (pos (length c.cache_queries) ≤ℤ n.max_cache_queries)
      × (pos (length c.log_entries) ≤ℤ n.max_log_entries)
      × (pos (length c.timeline_events) ≤ℤ n.max_timeline_events)
      × (c.used_bytes ≤ℤ n.max_request_payload_bytes)
unfolding limits_from_config new_collector
collected-within_limits rt id now alloc method uri cfg calls =
    let n = normalize cfg in
    let l = limits_from_config n in
    let normal = normalize-IsNormal cfg in
    let c = collected rt id now alloc method uri l calls in
    let b = collected-IsBounded rt id now alloc method uri l calls in
    let same : (collected rt id now alloc method uri l calls).limits ≡ l =
      (collected-Sound rt id now alloc method uri l calls).limits
      ∙ rw normal.max_string_length refl in
    (
      le_of_exceeds n.max_database_queries (pos (length c.database_queries))
          normal.max_database_queries (rw same at b.databases),
      le_of_exceeds n.max_cache_queries (pos (length c.cache_queries)) normal.max_cache_queries
          (rw same at b.caches),
      le_of_exceeds n.max_log_entries (pos (length c.log_entries)) normal.max_log_entries
          (rw same at b.logs),
      le_of_exceeds n.max_timeline_events (pos (length c.timeline_events))
          normal.max_timeline_events (rw same at b.events),
      le_of_exceeds n.max_request_payload_bytes c.used_bytes normal.max_request_payload_bytes
          (rw same at b.payload),
    )

-- What is recorded stays, in its order: further calls on a collector with a positive limit on texts
-- only append to the four lists.
pub run_calls-Grows :
    {F O : Type 0} (n : ℕ) (rt : Runtime F O) (calls : List (Call F O)) (c : Collector F O)
    → 0 < n
    → c.limits.max_string_len ≡ pos n
    → Grows c.database_queries (run_calls rt calls c).database_queries
      × Grows c.cache_queries (run_calls rt calls c).cache_queries
      × Grows c.log_entries (run_calls rt calls c).log_entries
      × Grows c.timeline_events (run_calls rt calls c).timeline_events
run_calls-Grows n rt calls c positive h =
    let s = run_calls-Sound n positive rt calls c h in
    (s.databases_grow, s.caches_grow, s.logs_grow, s.events_grow)
