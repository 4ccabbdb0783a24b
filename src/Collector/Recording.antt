-- ===== src/Collector/Recording.antt =====
-- collector.go: every method that records an event is sound.
use go_clockwork.Prelude.{
  ℕ, ◌+◌, ◌*◌, ◌<◌, ◌≡◌, refl, ap, ◌∙◌, subst, Bool, true, false, List, if◌then◌else◌, length, Text,
  text_eq, Map, ℤ, ◌>>=◌,
}
use go_clockwork.Metadata.{Value, LogTraceFrame}
use go_clockwork.Runtime.{Runtime}
use go_clockwork.Frames.{Frame}
use go_clockwork.Collector.{
  Collector, is_full, truncate, drop_event, reserve, record_event, append_timeline, timeline_event,
  database_bucket, cache_bucket, logs_bucket, timeline_bucket,
}
use go_clockwork.Collector.Methods.{
  set_response_data, add_database_query_detailed, add_cache_query, add_log_entry_with_trace,
  add_timeline_event,
}
use go_clockwork.Collector.Quiet.{
  Quiet, Quiet-trans, setter-Quiet, reserve-Quiet, drop_event-Quiet, weight,
}
use go_clockwork.Collector.Truncates.{
  HasLimit, Quiet-HasLimit, truncate-Truncates, new_database_query-Truncates,
  new_cache_query-Truncates,
}
use go_clockwork.Collector.Entries.{new_log_entry-Truncates}
use go_clockwork.Collector.Sound.{Sound, Sound-trans, Quiet-Sound}
use go_clockwork.Collector.Pushes.{
  push_database_query-Sound, push_cache_query-Sound, push_log_entry-Sound, push_timeline-Sound,
}

weights :
    (weight database_bucket ≡ 1)
    × (weight cache_bucket ≡ 1)
    × (weight logs_bucket ≡ 1)
    × (weight timeline_bucket ≡ 1)
unfolding text_eq
weights = (refl, refl, refl, refl)

module _ {F O : Type 0} {n : ℕ} where
  Sound-if :
      (b : Bool) (k : ℕ) (c d e : Collector F O)
      → (b ≡ true → Sound n k c d)
      → (b ≡ false → Sound n k c e)
      → Sound n k c (if b then d else e)
  Sound-if true k c d e p q = p refl
  Sound-if _ k c d e p q = q refl

module _ {F O : Type 0} (n : ℕ) (positive : 0 < n) (rt : Runtime F O) where
  record_event-Sound :
      (name description : Text) (start end : F) (color : Text) (c : Collector F O)
      → HasLimit n c
      → is_full c.limits.max_timeline_event (length c.timeline_events) ≡ false
      → Sound n 1 c (record_event rt name description start end color c).1
  unfolding record_event ◌>>=◌ timeline_event
  record_event-Sound name description start end color c h room =
      let t = truncate-Truncates {F = F} {O = O} n positive name in
      let u = truncate-Truncates {F = F} {O = O} n positive description in
      let c1 = (truncate name c).1 in
      let q1 = t.quiet c h in
      let h1 = Quiet-HasLimit n q1 h in
      let q2 = Quiet-trans q1 (u.quiet c1 h1) in
      Sound-trans (Quiet-Sound q2) (
        push_timeline-Sound _ _ (t.result c h, u.result c1 h1)
          (rw (q2.limits, q2.timeline_events) room))

  pub append_timeline-Sound :
      (name description : Text) (start end : F) (color : Text) (c : Collector F O)
      → HasLimit n c
      → Sound n 1 c (append_timeline rt name description start end color c)
  unfolding append_timeline
  append_timeline-Sound name description start end color c h =
      Sound-if (is_full c.limits.max_timeline_event (length c.timeline_events)) 1 c _ _
        (λ _. Quiet-Sound (
          subst (λ k. Quiet k c (drop_event timeline_bucket c)) weights.3
            (drop_event-Quiet timeline_bucket c)))
        (record_event-Sound name description start end color c h)

  pub add_database_query_detailed-Sound :
      (query : Text) (duration : ℤ) (connection : Text) (slow : Bool) (model file : Text)
      (line now : ℤ) (stack : List Frame) (c : Collector F O)
      → HasLimit n c
      → Sound n 1 c (
          add_database_query_detailed rt query duration connection slow model file line now stack c)
  unfolding add_database_query_detailed
  add_database_query_detailed-Sound query duration connection slow model file line now stack c h =
      let size = length query + 64 in
      let max = c.limits.max_db_queries in
      let used = length c.database_queries in
      let p = (reserve database_bucket max used size c).1 in
      let (taken, refused) = reserve-Quiet database_bucket max used size c weights.0 in
      let t =
        new_database_query-Truncates n positive rt query duration connection slow model file line
          now stack in
      Sound-if (reserve database_bucket max used size c).0 1 c _ _
        (λ e.
          let (q, room) = taken e in
          let h1 = Quiet-HasLimit n q h in
          let q2 = Quiet-trans q (t.quiet p h1) in
          let pushed =
            push_database_query-Sound _ _ (t.result p h1)
              (rw (q2.limits, q2.database_queries) room) in
          Sound-trans (Quiet-Sound q2) (
            Sound-trans pushed (
              append_timeline-Sound _ _ _ _ _ _
                (ap (λ l. l.max_string_len) pushed.limits ∙ Quiet-HasLimit n q2 h))))
        (λ e. Quiet-Sound (refused e))

  pub add_cache_query-Sound :
      (cache_type key : Text) (duration now : ℤ) (c : Collector F O)
      → HasLimit n c
      → Sound n 1 c (add_cache_query rt cache_type key duration now c)
  unfolding add_cache_query
  add_cache_query-Sound cache_type key duration now c h =
      let size = length key + 48 in
      let max = c.limits.max_cache_queries in
      let used = length c.cache_queries in
      let p = (reserve cache_bucket max used size c).1 in
      let (taken, refused) = reserve-Quiet cache_bucket max used size c weights.1 in
      let t = new_cache_query-Truncates n positive rt cache_type key duration now in
      Sound-if (reserve cache_bucket max used size c).0 1 c _ _
        (λ e.
          let (q, room) = taken e in
          let h1 = Quiet-HasLimit n q h in
          let q2 = Quiet-trans q (t.quiet p h1) in
          let pushed =
            push_cache_query-Sound _ _ (t.result p h1) (rw (q2.limits, q2.cache_queries) room) in
          Sound-trans (Quiet-Sound q2) (
            Sound-trans pushed (
              append_timeline-Sound _ _ _ _ _ _
                (ap (λ l. l.max_string_len) pushed.limits ∙ Quiet-HasLimit n q2 h))))
        (λ e. Quiet-Sound (refused e))

  pub add_log_entry_with_trace-Sound :
      (level message : Text) (fields : Map (Value F O)) (trace : List LogTraceFrame) (now : ℤ)
      (stack : List Frame) (c : Collector F O)
      → HasLimit n c
      → Sound n 1 c (add_log_entry_with_trace rt level message fields trace now stack c)
  unfolding add_log_entry_with_trace
  add_log_entry_with_trace-Sound level message fields trace now stack c h =
      let size = length message + 96 + length trace * 64 in
      let max = c.limits.max_logs in
      let used = length c.log_entries in
      let p = (reserve logs_bucket max used size c).1 in
      let (taken, refused) = reserve-Quiet logs_bucket max used size c weights.2 in
      let t = new_log_entry-Truncates n positive rt level message fields trace now stack in
      Sound-if (reserve logs_bucket max used size c).0 1 c _ _
        (λ e.
          let (q, room) = taken e in
          let h1 = Quiet-HasLimit n q h in
          let q2 = Quiet-trans q (t.quiet p h1) in
          Sound-trans (Quiet-Sound q2)
            (push_log_entry-Sound _ _ (t.result p h1) (rw (q2.limits, q2.log_entries) room)))
        (λ e. Quiet-Sound (refused e))

  pub add_timeline_event-Sound :
      (name description : Text) (start end : ℤ) (color : Text) (c : Collector F O)
      → HasLimit n c
      → Sound n 1 c (add_timeline_event rt name description start end color c)
  unfolding add_timeline_event
  add_timeline_event-Sound name description start end color c h =
      let size = length name + length description + 32 in
      let max = c.limits.max_timeline_event in
      let used = length c.timeline_events in
      let (taken, refused) = reserve-Quiet timeline_bucket max used size c weights.3 in
      Sound-if (reserve timeline_bucket max used size c).0 1 c _ _
        (λ e.
          let (q, room) = taken e in
          Sound-trans (Quiet-Sound q) (append_timeline-Sound _ _ _ _ _ _ (Quiet-HasLimit n q h)))
        (λ e. Quiet-Sound (refused e))

  pub set_response_data-Sound :
      (status duration now : ℤ) (alloc : ℕ) (c : Collector F O)
      → HasLimit n c
      → Sound n 1 c (set_response_data rt status duration now alloc c)
  unfolding set_response_data
  set_response_data-Sound status duration now alloc c h =
      Sound-trans
        (Quiet-Sound (
          setter-Quiet c
            (record c {
              response_status = status;
              response_time = now;
              response_duration = duration;
              memory_usage_end = alloc;
            })
            refl (refl, refl, refl, refl) refl refl refl))
        (append_timeline-Sound _ _ _ _ _ _ h)
