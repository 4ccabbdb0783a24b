-- ===== src/Service.antt =====
-- clockwork.go: the service that makes the collectors, finds them by trace and stores their metadata.
-- Collectors are shared by pointers, so they stand on a heap and a pointer is an index into it. The
-- service itself is not nil; `none` is a nil collector or a nil storage. Each method is one step.
pub mod Requests
pub mod Traces
pub mod Actions
pub mod Counted
pub mod Logs
pub mod Complete
pub mod Races
use go_clockwork.Prelude.{
  ℕ, zero, suc, ◌+◌, ◌==◌, Bool, true, false, not, ◌&&◌, Option, none, some, List, [], ◌∷◌, ◌++◌,
  if◌then◌else◌, length, Text, is_empty, Map, lookup, insert, delete, ℤ, pos, negsuc, is_pos,
  add_int,
}
use go_clockwork.Config.{Config, normalize}
use go_clockwork.Metadata.{Metadata, Value, LogTraceFrame}
use go_clockwork.Runtime.{Runtime}
use go_clockwork.Frames.{Frame}
use go_clockwork.Storage.{Storage, Result, ok, err, Error}
use go_clockwork.Collector.{Collector, new_collector, limits_from_config}
use go_clockwork.Collector.Methods.{set_response_data, add_log_entry_with_trace}
use go_clockwork.Collector.Calls.{Call, run_calls}
use go_clockwork.Collector.Snapshot.{get_metadata}

-- `DataSource`: the calls that `Resolve` makes on a collector that it may read.
abbrev pub DataSource : Type 0 → Type 0 → Type 0
DataSource F O = Collector F O → List (Call F O)

-- `Clockwork`
pub record Clockwork (F O S : Type 0) : Type 0 where
  pub config : Config
  pub storage : Option (Storage S (Metadata F O))
  pub data_sources : List (DataSource F O)
  pub active_by_trace : Map ℕ
  pub active_count : ℤ

-- The service, the collectors on the heap and the state of the storage.
pub record World (F O S : Type 0) : Type 0 where
  pub service : Clockwork F O S
  pub heap : List (Collector F O)
  pub stored : S

-- What the loop of `runCleanup` waits for: a tick of its clock, at a time, or the end.
pub data Signal : Type 0 where
  tick : ℤ → Signal
  stop : Signal

-- The object at a pointer, and the heap after a method call on it.
unfoldable pub at : {A : Type 0} → ℕ → List A → Option A
at p [] = none
at zero (c ∷ heap) = some c
at (suc p) (c ∷ heap) = at p heap

unfoldable pub modify : {A : Type 0} → ℕ → (A → A) → List A → List A
modify p f [] = []
modify zero f (c ∷ heap) = f c ∷ heap
modify (suc p) f (c ∷ heap) = c ∷ modify p f heap

-- The test `activeCount != 1`.
abbrev pub is_one : ℤ → Bool
is_one (pos n) = n == 1
is_one (negsuc n) = false

module _ {F O S : Type 0} where
  -- `NewClockwork`
  unfoldable pub new_clockwork : Config → Option (Storage S (Metadata F O)) → Clockwork F O S
  new_clockwork cfg storage = record {
    config = normalize cfg;
    storage = storage;
    data_sources = [];
    active_by_trace = [];
    active_count = pos 0;
  }

  -- `IsEnabled`
  abbrev pub is_enabled : World F O S → Bool
  is_enabled w = w.service.config.enabled

  -- `SaveMetadata`: a disabled service, or one without storage, stores nothing.
  unfoldable pub save_in :
      ℤ
      → Option (Metadata F O)
      → Option (Storage S (Metadata F O))
      → World F O S
      → Result (Unit {0}) × World F O S
  save_in now metadata none w = (ok tt, w)
  save_in now none (some storage) w = (ok tt, w)
  save_in now (some m) (some storage) w =
      let r = storage.store now (some m) w.stored in (r.0, record w { stored = r.1 })

  unfoldable pub save_metadata :
      ℤ → Option (Metadata F O) → World F O S → Result (Unit {0}) × World F O S
  unfolding save_in
  save_metadata now metadata w =
      if is_enabled w then save_in now metadata w.service.storage w else (ok tt, w)

  -- `GetMetadata`
  unfoldable pub find_metadata : Text → World F O S → Result (Metadata F O)
  find_metadata id w = elim w.service.storage [
    | none ↦ err Error.storage_not_configured
    | some storage ↦ storage.get id w.stored
  ]

  -- `ListMetadata`
  unfoldable pub list_metadata : ℤ → World F O S → Result (List (Metadata F O))
  list_metadata limit w = elim w.service.storage [
    | none ↦ err Error.storage_not_configured
    | some storage ↦ storage.list limit w.stored
  ]

  -- `Cleanup`
  unfoldable pub clean_in :
      ℤ → Option (Storage S (Metadata F O)) → World F O S → Result (Unit {0}) × World F O S
  clean_in now none w = (ok tt, w)
  clean_in now (some storage) w =
      let r = storage.cleanup now w.service.config.request_retention_time w.stored in
      (r.0, record w { stored = r.1 })

  unfoldable pub cleanup : ℤ → World F O S → Result (Unit {0}) × World F O S
  unfolding clean_in
  cleanup now w = clean_in now w.service.storage w

  -- The loop of `runCleanup`, of what its `select` receives.
  unfoldable pub cleanup_rounds : List Signal → World F O S → World F O S
  unfolding cleanup
  cleanup_rounds [] w = w
  cleanup_rounds (Signal.tick now ∷ signals) w = cleanup_rounds signals (cleanup now w).1
  cleanup_rounds (Signal.stop ∷ signals) w = w

  -- `StartCleanupLoop`
  unfoldable pub start_cleanup_loop : List Signal → World F O S → World F O S
  unfolding cleanup_rounds
  start_cleanup_loop signals w =
      if is_pos w.service.config.cleanup_interval then cleanup_rounds signals w else w

  -- `NewCollector` of the service: the pointer to a new collector.
  unfoldable pub allocate_collector : Text → ℤ → ℕ → Text → Text → World F O S → ℕ × World F O S
  allocate_collector id now alloc method uri w = (
    length w.heap,
    record w {
      heap =
          w.heap
          ++ new_collector id now alloc method uri (limits_from_config w.service.config) ∷ [];
    },
  )

  -- `RegisterDataSource`; a nil source is ignored.
  unfoldable pub register_data_source : Option (DataSource F O) → World F O S → World F O S
  register_data_source none w = w
  register_data_source (some source) w = record w {
    service = record w.service { data_sources = w.service.data_sources ++ source ∷ [] };
  }

  -- `LoadOrStore`, with the count of the entries.
  unfoldable pub load_or_store : Text → ℕ → Option ℕ → World F O S → World F O S
  load_or_store trace_id p (some _) w = w
  load_or_store trace_id p none w = record w {
    service = record w.service {
      active_by_trace = insert trace_id p w.service.active_by_trace;
      active_count = add_int w.service.active_count (pos 1);
    };
  }

  -- `RegisterTrace`: an empty id and a nil collector are ignored, and a trace that is active keeps its
  -- collector.
  unfoldable pub register_trace : Text → Option ℕ → World F O S → World F O S
  unfolding load_or_store
  register_trace trace_id none w = w
  register_trace trace_id (some p) w =
      if is_empty trace_id
      then w
      else load_or_store trace_id p (lookup trace_id w.service.active_by_trace) w

  -- `LoadAndDelete`, with the count of the entries.
  unfoldable pub load_and_delete : Text → Option ℕ → World F O S → World F O S
  load_and_delete trace_id none w = w
  load_and_delete trace_id (some _) w = record w {
    service = record w.service {
      active_by_trace = delete trace_id w.service.active_by_trace;
      active_count = add_int w.service.active_count (negsuc 0);
    };
  }

  -- `unregisterTrace`
  unfoldable pub unregister_trace : Text → World F O S → World F O S
  unfolding load_and_delete
  unregister_trace trace_id w =
      if is_empty trace_id
      then w
      else load_and_delete trace_id (lookup trace_id w.service.active_by_trace) w

  -- `HasActiveTraces`
  unfoldable pub has_active_traces : World F O S → Bool
  has_active_traces w = is_pos w.service.active_count

  -- The heap after a method call on the collector at a pointer.
  abbrev pub call_on : ℕ → (Collector F O → Collector F O) → World F O S → World F O S
  call_on p f w = record w { heap = modify p f w.heap }
