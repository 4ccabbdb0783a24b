-- ===== src/Collector/Pushes.antt =====
-- collector.go: appending a record where there is room for it.
use go_clockwork.Prelude.{
  ℕ, ◌≡◌, refl, false, List, [], ◌∷◌, ◌++◌, arith, length, length-append, All-append, Grows-refl, ℤ,
  pos,
}
use go_clockwork.Metadata.{DatabaseQuery, CacheQuery, LogEntry, TimelineEvent}
use go_clockwork.Collector.{Collector, is_full, push_timeline}
use go_clockwork.Collector.Methods.{push_database_query, push_cache_query, push_log_entry}
use go_clockwork.Collector.Quiet.{exceeds}
use go_clockwork.Collector.Truncates.{IsShortQuery, IsShortCacheQuery, IsShortEntry, IsShortEvent}
use go_clockwork.Collector.Sound.{Sound}

-- One more record where there is room for it does not exceed the limit.
pub room-append :
    {A : Type 0} (max : ℤ) (xs : List A) (x : A)
    → is_full max (length xs) ≡ false
    → exceeds max (pos (length (xs ++ x ∷ []))) ≡ false
room-append max xs x h = ground (arith, length-append xs (x ∷ []))

module _ {F O : Type 0} {n : ℕ} where
  pub push_database_query-Sound :
      (x : DatabaseQuery F) (c : Collector F O)
      → IsShortQuery n x
      → is_full c.limits.max_db_queries (length c.database_queries) ≡ false
      → Sound n 0 c (push_database_query x c)
  unfolding push_database_query
  push_database_query-Sound x c short room = record {
    limits = refl;
    bounded = λ b. record {
      databases = room-append c.limits.max_db_queries c.database_queries x room;
      caches = b.caches;
      logs = b.logs;
      events = b.events;
      payload = b.payload;
    };
    short = λ h. record {
      databases = All-append (IsShortQuery n) c.database_queries (x ∷ []) h.databases (short, tt);
      caches = h.caches;
      logs = h.logs;
      events = h.events;
    };
    honest = λ h. h;
    counted = omega arith;
    databases_grow = (x ∷ [], refl);
    caches_grow = Grows-refl _;
    logs_grow = Grows-refl _;
    events_grow = Grows-refl _;
  }

  pub push_cache_query-Sound :
      (x : CacheQuery F) (c : Collector F O)
      → IsShortCacheQuery n x
      → is_full c.limits.max_cache_queries (length c.cache_queries) ≡ false
      → Sound n 0 c (push_cache_query x c)
  unfolding push_cache_query
  push_cache_query-Sound x c short room = record {
    limits = refl;
    bounded = λ b. record {
      databases = b.databases;
      caches = room-append c.limits.max_cache_queries c.cache_queries x room;
      logs = b.logs;
      events = b.events;
      payload = b.payload;
    };
    short = λ h. record {
      databases = h.databases;
      caches = All-append (IsShortCacheQuery n) c.cache_queries (x ∷ []) h.caches (short, tt);
      logs = h.logs;
      events = h.events;
    };
    honest = λ h. h;
    counted = omega arith;
    databases_grow = Grows-refl _;
    caches_grow = (x ∷ [], refl);
    logs_grow = Grows-refl _;
    events_grow = Grows-refl _;
  }

  pub push_log_entry-Sound :
      (x : LogEntry F O) (c : Collector F O)
      → IsShortEntry n x
      → is_full c.limits.max_logs (length c.log_entries) ≡ false
      → Sound n 1 c (push_log_entry x c)
  unfolding push_log_entry
  push_log_entry-Sound x c short room = record {
    limits = refl;
    bounded = λ b. record {
      databases = b.databases;
      caches = b.caches;
      logs = room-append c.limits.max_logs c.log_entries x room;
      events = b.events;
      payload = b.payload;
    };
    short = λ h. record {
      databases = h.databases;
      caches = h.caches;
      logs = All-append (IsShortEntry n) c.log_entries (x ∷ []) h.logs (short, tt);
      events = h.events;
    };
    honest = λ h. h;
    counted = omega (arith, length-append c.log_entries (x ∷ []));
    databases_grow = Grows-refl _;
    caches_grow = Grows-refl _;
    logs_grow = (x ∷ [], refl);
    events_grow = Grows-refl _;
  }

  pub push_timeline-Sound :
      (x : TimelineEvent F) (c : Collector F O)
      → IsShortEvent n x
      → is_full c.limits.max_timeline_event (length c.timeline_events) ≡ false
      → Sound n 1 c (push_timeline x c)
  unfolding push_timeline
  push_timeline-Sound x c short room = record {
    limits = refl;
    bounded = λ b. record {
      databases = b.databases;
      caches = b.caches;
      logs = b.logs;
      events = room-append c.limits.max_timeline_event c.timeline_events x room;
      payload = b.payload;
    };
    short = λ h. record {
      databases = h.databases;
      caches = h.caches;
      logs = h.logs;
      events = All-append (IsShortEvent n) c.timeline_events (x ∷ []) h.events (short, tt);
    };
    honest = λ h. h;
    counted = omega (arith, length-append c.timeline_events (x ∷ []));
    databases_grow = Grows-refl _;
    caches_grow = Grows-refl _;
    logs_grow = Grows-refl _;
    events_grow = (x ∷ [], refl);
  }
