-- ===== src/Collector/Sound.antt =====
-- collector.go: what every method keeps, and how much it records.
use go_clockwork.Prelude.{
  ℕ, ◌+◌, ◌≡◌, ap, ◌∙◌, false, arith, length, All, Grows, Grows-of_eq, Grows-trans, pos,
}
use go_clockwork.Collector.{Collector}
use go_clockwork.Collector.Quiet.{Quiet, IsHonest, exceeds, dropped_events}
use go_clockwork.Collector.Truncates.{IsShortQuery, IsShortCacheQuery, IsShortEntry, IsShortEvent}

-- No limit is exceeded.
pub record IsBounded {F O : Type 0} (c : Collector F O) : Type 0 where
  pub databases : exceeds c.limits.max_db_queries (pos (length c.database_queries)) ≡ false
  pub caches : exceeds c.limits.max_cache_queries (pos (length c.cache_queries)) ≡ false
  pub logs : exceeds c.limits.max_logs (pos (length c.log_entries)) ≡ false
  pub events : exceeds c.limits.max_timeline_event (pos (length c.timeline_events)) ≡ false
  pub payload : exceeds c.limits.max_request_bytes c.used_bytes ≡ false

-- Every text that is recorded is within the limit `n`.
pub record AreShort {F O : Type 0} (n : ℕ) (c : Collector F O) : Type 0 where
  pub databases : All (IsShortQuery n) c.database_queries
  pub caches : All (IsShortCacheQuery n) c.cache_queries
  pub logs : All (IsShortEntry n) c.log_entries
  pub events : All (IsShortEvent n) c.timeline_events

-- The events that are recorded, a query by its event on the timeline, and those counted as dropped.
abbrev pub tally : {F O : Type 0} → Collector F O → ℕ
tally c = length c.log_entries + length c.timeline_events + dropped_events c.dropped

-- From `c` to `d` the limits stay, nothing recorded is lost or moved, and `k` more events are recorded
-- or counted as dropped.
pub record Sound {F O : Type 0} (n k : ℕ) (c d : Collector F O) : Type 0 where
  pub limits : d.limits ≡ c.limits
  pub bounded : IsBounded c → IsBounded d
  pub short : AreShort n c → AreShort n d
  pub honest : IsHonest c.truncated c.dropped → IsHonest d.truncated d.dropped
  pub counted : tally d ≡ k + tally c
  pub databases_grow : Grows c.database_queries d.database_queries
  pub caches_grow : Grows c.cache_queries d.cache_queries
  pub logs_grow : Grows c.log_entries d.log_entries
  pub events_grow : Grows c.timeline_events d.timeline_events

module _ {F O : Type 0} {n : ℕ} where
  pub Sound-trans :
      {j k : ℕ} {c d e : Collector F O} → Sound n j c d → Sound n k d e → Sound n (j + k) c e
  Sound-trans s t = record {
    limits = t.limits ∙ s.limits;
    bounded = λ h. t.bounded (s.bounded h);
    short = λ h. t.short (s.short h);
    honest = λ h. t.honest (s.honest h);
    counted = omega (arith, s.counted, t.counted);
    databases_grow = Grows-trans _ _ _ s.databases_grow t.databases_grow;
    caches_grow = Grows-trans _ _ _ s.caches_grow t.caches_grow;
    logs_grow = Grows-trans _ _ _ s.logs_grow t.logs_grow;
    events_grow = Grows-trans _ _ _ s.events_grow t.events_grow;
  }

  pub Quiet-Sound : {k : ℕ} {c d : Collector F O} → Quiet k c d → Sound n k c d
  Quiet-Sound {k} {c} {d} q = record {
    limits = q.limits;
    bounded = λ b. record {
      databases = rw (q.limits, q.database_queries) b.databases;
      caches = rw (q.limits, q.cache_queries) b.caches;
      logs = rw (q.limits, q.log_entries) b.logs;
      events = rw (q.limits, q.timeline_events) b.events;
      payload = q.payload b.payload;
    };
    short = λ h. record {
      databases = rw q.database_queries h.databases;
      caches = rw q.cache_queries h.caches;
      logs = rw q.log_entries h.logs;
      events = rw q.timeline_events h.events;
    };
    honest = q.honest;
    counted = omega (arith, q.counted, ap length q.log_entries, ap length q.timeline_events);
    databases_grow = Grows-of_eq _ _ q.database_queries;
    caches_grow = Grows-of_eq _ _ q.cache_queries;
    logs_grow = Grows-of_eq _ _ q.log_entries;
    events_grow = Grows-of_eq _ _ q.timeline_events;
  }
