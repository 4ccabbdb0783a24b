-- ===== src/Service/Requests.antt =====
-- clockwork.go: log lines that are recorded for active requests, and the completion of a request.
use go_clockwork.Prelude.{
  ℕ, Bool, true, false, Option, none, some, List, [], ◌∷◌, if◌then◌else◌, Text, is_empty, Map,
  lookup, ℤ,
}
use go_clockwork.Metadata.{Value, LogTraceFrame}
use go_clockwork.Runtime.{Runtime}
use go_clockwork.Frames.{Frame}
use go_clockwork.Storage.{Result, ok}
use go_clockwork.Collector.{Collector}
use go_clockwork.Collector.Methods.{set_response_data, add_log_entry_with_trace}
use go_clockwork.Collector.Calls.{run_calls}
use go_clockwork.Collector.Snapshot.{get_metadata}
use go_clockwork.Service.{World, DataSource, unregister_trace, save_metadata, call_on, at, is_one}

module _ {F O : Type 0} (rt : Runtime F O) where
  -- The loop over the data sources in `CompleteRequest`.
  unfoldable pub resolve : List (DataSource F O) → Collector F O → Collector F O
  resolve [] c = c
  resolve (source ∷ sources) c = resolve sources (run_calls rt (source c) c)

  -- What `CompleteRequest` does with the collector.
  unfoldable pub finish : List (DataSource F O) → ℤ → ℤ → ℤ → ℕ → Collector F O → Collector F O
  unfolding resolve
  finish sources status duration now alloc c =
      resolve sources (set_response_data rt status duration now alloc c)

module _ {F O S : Type 0} (rt : Runtime F O) where
  -- `RecordLogForTraceWithTrace`
  unfoldable pub record_log_for_trace :
      Text
      → Text
      → Text
      → Map (Value F O)
      → List LogTraceFrame
      → ℤ
      → List Frame
      → World F O S
      → World F O S
  record_log_for_trace trace_id level message fields trace now stack w =
      if is_empty trace_id then w else elim (lookup trace_id w.service.active_by_trace) [
        | none ↦ w
        | some p ↦ call_on p (add_log_entry_with_trace rt level message fields trace now stack) w
      ]

  -- `RecordLogForSingleActiveWithTrace`: `Range` stops at the first entry that it meets.
  unfoldable pub record_log_for_single_active :
      Text
      → Text
      → Map (Value F O)
      → List LogTraceFrame
      → ℤ
      → List Frame
      → World F O S
      → Bool × World F O S
  record_log_for_single_active level message fields trace now stack w =
      if is_one w.service.active_count
      then elim w.service.active_by_trace [
        | [] ↦ (false, w)
        | entry ∷ _ ↦ (
          true,
          call_on entry.1 (add_log_entry_with_trace rt level message fields trace now stack) w,
        )
      ]
      else (false, w)

  -- `RecordLogForTrace`
  unfoldable pub record_plain_log_for_trace :
      Text → Text → Text → Map (Value F O) → ℤ → List Frame → World F O S → World F O S
  unfolding record_log_for_trace
  record_plain_log_for_trace trace_id level message fields now stack w =
      record_log_for_trace trace_id level message fields [] now stack w

  -- `RecordLogForSingleActive`
  unfoldable pub record_plain_log_for_single_active :
      Text → Text → Map (Value F O) → ℤ → List Frame → World F O S → Bool × World F O S
  unfolding record_log_for_single_active
  record_plain_log_for_single_active level message fields now stack w =
      record_log_for_single_active level message fields [] now stack w

  -- `CompleteRequest` for the collector at a pointer.
  unfoldable pub complete_at :
      ℤ → ℕ → Option (Collector F O) → World F O S → Result (Unit {0}) × World F O S
  complete_at now p none w = (ok tt, w)
  complete_at now p (some c) w =
      let metadata = get_metadata rt c in
      save_metadata now (some metadata) (unregister_trace metadata.trace_id w)

  -- `CompleteRequest`. A nil collector is ignored; a pointer always points to a collector.
  unfoldable pub complete_request :
      Option ℕ → ℤ → ℤ → ℤ → ℕ → World F O S → Result (Unit {0}) × World F O S
  unfolding complete_at
  complete_request none status duration now alloc w = (ok tt, w)
  complete_request (some p) status duration now alloc w =
      let w' = call_on p (finish rt w.service.data_sources status duration now alloc) w in
      complete_at now p (at p w'.heap) w'
