-- ===== src/Collector/Quiet.antt =====
-- collector.go: the steps of a method that leave all that is recorded alone. They may mark the record as
-- truncated, count what is dropped and reserve bytes.
use go_clockwork.Prelude.{
  ℕ, ◌+◌, ◌≤◌, ◌<◌, ◌≡◌, ◌≢◌, refl, subst, ◌∙◌, inl, inr, Bool, true, false, ◌&&◌, [],
  if◌then◌else◌, arith, Bool-cases, length, length-take, leb, Text, text_eq, Map, count_of,
  count_of-increment, increment-ne-nil, ℤ, pos, is_pos, ltb_ℤ, add_int,
}
use go_clockwork.Collector.{
  Collector, truncate, within_limit, drop_event, reserve, reserve_bytes, is_full, strings_bucket,
  payload_bucket, database_bucket, cache_bucket, logs_bucket, timeline_bucket,
}

-- A limit is set and exceeded.
abbrev pub exceeds : ℤ → ℤ → Bool
exceeds max n = is_pos max && ltb_ℤ max n

-- The five buckets that count what is not recorded.
abbrev pub dropped_events : Map ℕ → ℕ
dropped_events m =
    count_of database_bucket m
    + count_of cache_bucket m
    + count_of logs_bucket m
    + count_of timeline_bucket m
    + count_of payload_bucket m

-- How many of the five buckets a bucket is.
abbrev pub weight : Text → ℕ
weight b =
    (if text_eq b database_bucket then 1 else 0)
    + (if text_eq b cache_bucket then 1 else 0)
    + (if text_eq b logs_bucket then 1 else 0)
    + (if text_eq b timeline_bucket then 1 else 0)
    + (if text_eq b payload_bucket then 1 else 0)

-- The flag is set exactly when something is counted as dropped.
pub record IsHonest (flag : Bool) (dropped : Map ℕ) : Type 0 where
  pub unmarked : flag ≡ false → dropped ≡ []
  pub marked : flag ≡ true → dropped ≢ []

-- `d` records what `c` records, and counts `k` more events as dropped.
pub record Quiet {F O : Type 0} (k : ℕ) (c d : Collector F O) : Type 0 where
  pub limits : d.limits ≡ c.limits
  pub database_queries : d.database_queries ≡ c.database_queries
  pub cache_queries : d.cache_queries ≡ c.cache_queries
  pub log_entries : d.log_entries ≡ c.log_entries
  pub timeline_events : d.timeline_events ≡ c.timeline_events
  pub payload :
      exceeds c.limits.max_request_bytes c.used_bytes ≡ false
      → exceeds d.limits.max_request_bytes d.used_bytes ≡ false
  pub honest : IsHonest c.truncated c.dropped → IsHonest d.truncated d.dropped
  pub counted : dropped_events d.dropped ≡ k + dropped_events c.dropped

module _ {F O : Type 0} where
  pub Quiet-refl : (c : Collector F O) → Quiet 0 c c
  Quiet-refl c = record {
    limits = refl;
    database_queries = refl;
    cache_queries = refl;
    log_entries = refl;
    timeline_events = refl;
    payload = λ h. h;
    honest = λ h. h;
    counted = omega arith;
  }

  pub Quiet-trans :
      {j k : ℕ} {c d e : Collector F O} → Quiet j c d → Quiet k d e → Quiet (j + k) c e
  Quiet-trans q r = record {
    limits = r.limits ∙ q.limits;
    database_queries = r.database_queries ∙ q.database_queries;
    cache_queries = r.cache_queries ∙ q.cache_queries;
    log_entries = r.log_entries ∙ q.log_entries;
    timeline_events = r.timeline_events ∙ q.timeline_events;
    payload = λ h. r.payload (q.payload h);
    honest = λ h. r.honest (q.honest h);
    counted = omega (arith, q.counted, r.counted);
  }

  pub drop_event-Quiet : (b : Text) (c : Collector F O) → Quiet (weight b) c (drop_event b c)
  unfolding drop_event
  drop_event-Quiet b c = record {
    limits = refl;
    database_queries = refl;
    cache_queries = refl;
    log_entries = refl;
    timeline_events = refl;
    payload = λ h. h;
    honest = λ h. record { unmarked = λ e. cc; marked = λ e. increment-ne-nil b c.dropped };
    counted = ground (
      arith,
      count_of-increment b database_bucket c.dropped,
      count_of-increment b cache_bucket c.dropped,
      count_of-increment b logs_bucket c.dropped,
      count_of-increment b timeline_bucket c.dropped,
      count_of-increment b payload_bucket c.dropped,
    );
  }

  -- `truncate` records nothing, and its result is no longer than the limit.
  pub truncate-Quiet : (v : Text) (c : Collector F O) → Quiet 0 c (truncate v c).1
  unfolding truncate text_eq
  truncate-Quiet v c = elim (Bool-cases (within_limit v c.limits.max_string_len)) [
    | inl short ↦ rw short (Quiet-refl c)
    | inr long ↦ rw long (drop_event-Quiet strings_bucket c)
  ]

  pub truncate-le :
      (n : ℕ) (v : Text) (c : Collector F O)
      → c.limits.max_string_len ≡ pos n
      → 0 < n
      → length (truncate v c).0 ≤ n
  unfolding truncate
  truncate-le n v c h p = rw h (ground (arith, length-take n v))

  -- Reserving bytes keeps the payload within its limit, and a refusal is counted.
  reserve_bytes-Quiet :
      (estimate : ℕ) (c : Collector F O)
      → let r = reserve_bytes estimate c in Quiet (if r.0 then 0 else 1) c r.1
  unfolding reserve_bytes text_eq
  reserve_bytes-Quiet estimate c =
      let needed : ℕ = if leb estimate 0 then 1 else estimate in
      let used = add_int c.used_bytes (pos needed) in
      elim (Bool-cases (is_pos c.limits.max_request_bytes)) [
        | inr unlimited ↦ rw unlimited (Quiet-refl c)
        | inl limited ↦ elim (Bool-cases (ltb_ℤ c.limits.max_request_bytes used)) [
          | inl over ↦ rw (limited, over) (drop_event-Quiet payload_bucket c)
          | inr fits ↦
              rw (limited, fits)
                (record {
                  limits = refl;
                  database_queries = refl;
                  cache_queries = refl;
                  log_entries = refl;
                  timeline_events = refl;
                  payload = λ _. ground arith;
                  honest = λ h. h;
                  counted = omega arith;
                })
        ]
      ]

  reserve-cases :
      (b : Text) (max : ℤ) (current estimate : ℕ) (c : Collector F O)
      → weight b ≡ 1
      → let r = reserve b max current estimate c in
        Quiet (if r.0 then 0 else 1) c r.1 × (r.0 ≡ true → is_full max current ≡ false)
  unfolding reserve
  reserve-cases b max current estimate c w = elim (Bool-cases (is_full max current)) [
    | inl full ↦ rw full (subst (λ k. Quiet k c (drop_event b c)) w (drop_event-Quiet b c), λ e. cc)
    | inr room ↦ rw room (reserve_bytes-Quiet estimate c, λ e. refl)
  ]

  -- A reservation that succeeds drops nothing and leaves room in its bucket; one that is refused is
  -- counted once.
  pub reserve-Quiet :
      (b : Text) (max : ℤ) (current estimate : ℕ) (c : Collector F O)
      → weight b ≡ 1
      → let r = reserve b max current estimate c in
        (r.0 ≡ true → Quiet 0 c r.1 × (is_full max current ≡ false)) × (r.0 ≡ false → Quiet 1 c r.1)
  reserve-Quiet b max current estimate c w =
      let r = reserve b max current estimate c in
      let (q, room) = reserve-cases b max current estimate c w in
      (
        λ e. (subst (λ (t : Bool). Quiet (if t then 0 else 1) c r.1) e q, room e),
        λ e. subst (λ (t : Bool). Quiet (if t then 0 else 1) c r.1) e q,
      )

  -- A method that sets other fields records nothing.
  pub setter-Quiet :
      (c d : Collector F O)
      → d.limits ≡ c.limits
      → (d.database_queries ≡ c.database_queries)
        × (d.cache_queries ≡ c.cache_queries)
        × (d.log_entries ≡ c.log_entries)
        × (d.timeline_events ≡ c.timeline_events)
      → d.used_bytes ≡ c.used_bytes
      → d.truncated ≡ c.truncated
      → d.dropped ≡ c.dropped
      → Quiet 0 c d
  setter-Quiet c d limits recorded used flag counts = record {
    limits = limits;
    database_queries = recorded.0;
    cache_queries = recorded.1;
    log_entries = recorded.2;
    timeline_events = recorded.3;
    payload = λ h. rw (limits, used) h;
    honest = λ h. rw (flag, counts) h;
    counted = rw counts (omega arith);
  }
