-- ===== src/Collector/Invariant.antt =====
-- collector.go: every method that changes a collector is sound, and so is a sequence of calls.
use go_clockwork.Prelude.{ℕ, ◌<◌, refl, ap, ◌∙◌, List, [], ◌∷◌, Text}
use go_clockwork.Metadata.{Value}
use go_clockwork.Runtime.{Runtime}
use go_clockwork.Collector.{Collector, truncate}
use go_clockwork.Collector.Methods.{set_headers, set_url, set_controller, set_trace, set_user_data}
use go_clockwork.Collector.Calls.{Call, apply_call, run_calls, events_of, event_count}
use go_clockwork.Collector.Quiet.{Quiet, Quiet-refl, Quiet-trans, setter-Quiet}
use go_clockwork.Collector.Truncates.{HasLimit, Quiet-HasLimit, truncate-Truncates}
use go_clockwork.Collector.Sound.{Sound, Sound-trans, Quiet-Sound}
use go_clockwork.Collector.Recording.{
  add_database_query_detailed-Sound, add_cache_query-Sound, add_log_entry_with_trace-Sound,
  add_timeline_event-Sound, set_response_data-Sound,
}

module _ {F O : Type 0} (n : ℕ) (positive : 0 < n) (rt : Runtime F O) where
  set_text-Quiet :
      (v : Text) (c d : Collector F O) → HasLimit n c → Quiet 0 (truncate v c).1 d → Quiet 0 c d
  set_text-Quiet v c d h q =
      Quiet-trans ((truncate-Truncates {F = F} {O = O} n positive v).quiet c h) q

  set_trace-Quiet :
      (trace_id span_id : Text) (c : Collector F O)
      → HasLimit n c
      → Quiet 0 c (set_trace trace_id span_id c)
  unfolding set_trace
  set_trace-Quiet trace_id span_id c h =
      let t = truncate trace_id c in
      let d : Collector F O = record t.1 { trace_id = t.0 } in
      let s = truncate span_id d in
      let q =
        set_text-Quiet trace_id c d h
          (setter-Quiet t.1 d refl (refl, refl, refl, refl) refl refl refl) in
      Quiet-trans q (
        set_text-Quiet span_id d (record s.1 { span_id = s.0 }) (Quiet-HasLimit n q h)
          (setter-Quiet s.1 (record s.1 { span_id = s.0 }) refl (refl, refl, refl, refl) refl refl
            refl))

  set_user_data-Quiet :
      (key : Text) (value : Value F O) (c : Collector F O) → Quiet 0 c (set_user_data key value c)
  unfolding set_user_data
  set_user_data-Quiet [] value c = Quiet-refl c
  set_user_data-Quiet (k ∷ key) value c =
      setter-Quiet c (set_user_data (k ∷ key) value c) refl (refl, refl, refl, refl) refl refl refl

  -- Every method is sound, and offers one event for recording or none.
  pub apply_call-Sound :
      (call : Call F O) (c : Collector F O)
      → HasLimit n c
      → Sound n (events_of call) c (apply_call rt call c)
  unfolding apply_call set_headers set_url set_controller
  apply_call-Sound (Call.sets_headers headers) c h =
      Quiet-Sound
        (setter-Quiet c (set_headers headers c) refl (refl, refl, refl, refl) refl refl refl)
  apply_call-Sound (Call.sets_url url) c h = Quiet-Sound (
      set_text-Quiet url c (set_url url c) h
        (setter-Quiet _ (set_url url c) refl (refl, refl, refl, refl) refl refl refl))
  apply_call-Sound (Call.sets_controller controller) c h = Quiet-Sound (
      set_text-Quiet controller c (set_controller controller c) h
        (setter-Quiet _ (set_controller controller c) refl (refl, refl, refl, refl) refl refl refl))
  apply_call-Sound (Call.sets_trace trace_id span_id) c h =
      Quiet-Sound (set_trace-Quiet trace_id span_id c h)
  apply_call-Sound (Call.sets_user_data key value) c h =
      Quiet-Sound (set_user_data-Quiet key value c)
  apply_call-Sound (Call.sets_response_data status duration now alloc) c h =
      set_response_data-Sound n positive rt status duration now alloc c h
  apply_call-Sound
        (Call.adds_database_query query duration connection slow model file line now stack) c h =
      add_database_query_detailed-Sound n positive rt query duration connection slow model file line
        now stack c h
  apply_call-Sound (Call.adds_cache_query cache_type key duration now) c h =
      add_cache_query-Sound n positive rt cache_type key duration now c h
  apply_call-Sound (Call.adds_log_entry level message fields trace now stack) c h =
      add_log_entry_with_trace-Sound n positive rt level message fields trace now stack c h
  apply_call-Sound (Call.adds_timeline_event name description start end color) c h =
      add_timeline_event-Sound n positive rt name description start end color c h

  pub run_calls-Sound :
      (calls : List (Call F O)) (c : Collector F O)
      → HasLimit n c
      → Sound n (event_count calls) c (run_calls rt calls c)
  unfolding run_calls
  run_calls-Sound [] c h = Quiet-Sound (Quiet-refl c)
  run_calls-Sound (call ∷ calls) c h =
      let s = apply_call-Sound call c h in
      Sound-trans s
        (run_calls-Sound calls (apply_call rt call c) (ap (λ l. l.max_string_len) s.limits ∙ h))
