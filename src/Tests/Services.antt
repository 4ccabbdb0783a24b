-- ===== src/Tests/Services.antt =====
-- clockwork.go on small inputs.
use go_clockwork.Prelude.{
  ◌≡◌, ◌≢◌, ◌↔◌, refl, true, some, List, [], ◌∷◌, arith, length, text_eq, codes, lookup, ℤ, pos,
  ◌>>=◌, if◌then◌else◌, ◌==◌, increment, count_of, insert, add_int, wrap64, quot, signed,
}
use go_clockwork.Config.{Config, default_config, normalize}
use go_clockwork.Metadata.{Metadata}
use go_clockwork.Storage.{ok, Codec}
use go_clockwork.MemoryStorage.{InMemoryStorage, new_in_memory_storage}
use go_clockwork.MemoryStorage.Store.{new_in_memory_storage-IsValid}
use go_clockwork.Collector.{
  Collector, new_collector, limits_from_config, truncate, drop_event, append_timeline, record_event,
  push_timeline, timeline_event,
}
use go_clockwork.Collector.Methods.{add_log_entry_with_trace, set_trace, set_response_data}
use go_clockwork.Collector.Snapshot.{get_metadata}
use go_clockwork.Service.{
  World, new_clockwork, find_metadata, register_trace, unregister_trace, load_or_store,
  has_active_traces, at, modify, allocate_collector,
}
use go_clockwork.Service.Actions.{Action, act, run_actions}
use go_clockwork.Service.Requests.{
  complete_request, finish, resolve, record_log_for_trace, record_log_for_single_active,
}
use go_clockwork.Service.Counted.{served, has_active_traces_iff}
use go_clockwork.Service.Logs.{
  record_log_for_trace-register_trace, record_log_for_single_active_iff, is_only,
}
use go_clockwork.Service.Traces.{holder}
use mathlib.Core.Option.{map as option_map}
use go_clockwork.Service.Complete.{
  memory_storage, complete_request_traces, complete_request_long_trace,
  complete_request-find_metadata,
}
use go_clockwork.Tests.Sample.{machine}

abbrev codec : Codec (Metadata ℤ (Unit {0}))
codec = record { id_of = λ m. m.id; marshal = λ m. some (codes "{}") }

abbrev Stored : Type 0
Stored = InMemoryStorage (Metadata ℤ (Unit {0}))

-- Texts of at most four bytes.
abbrev short : Config
short = record default_config { max_string_length = pos 4 }

abbrev request : Collector ℤ (Unit {0})
request = new_collector (codes "id") (pos 1) 0 (codes "GET") (codes "/") (limits_from_config short)

-- A service with two requests: one of a short trace and one of a long one.
abbrev world : World ℤ (Unit {0}) Stored
world = record {
  service = record (new_clockwork short (some (memory_storage codec))) {
    active_by_trace = (codes "abc", 0) ∷ (codes "abcdef", 1) ∷ [];
    active_count = pos 2;
  };
  heap =
      set_trace (codes "abc") (codes "s") request
      ∷ set_trace (codes "abcdef") (codes "s") request
      ∷ [];
  stored = new_in_memory_storage (pos 2) (pos 100);
}

program : Unit {0}
unfolding new_clockwork normalize default_config limits_from_config new_collector set_trace
    set_response_data truncate drop_event append_timeline record_event push_timeline timeline_event
    ◌>>=◌ increment count_of insert lookup text_eq add_int wrap64 signed quot finish resolve served
    run_actions act register_trace load_or_store has_active_traces at modify allocate_collector
    get_metadata
program = tt

short_trace :
    (finish machine []
      (pos 200)
      (pos 5)
      (pos 6)
      0
      (set_trace (codes "abc") (codes "s") request)).trace_id
    ≡ codes "abc"
unfolding program
short_trace = refl

complete_request_traces_example :
    lookup
      (codes "abcdef")
      (complete_request machine
        (some 0)
        (pos 200)
        (pos 5)
        (pos 6)
        0
        world).1.service.active_by_trace
    ≡ some 1
unfolding program
complete_request_traces_example =
    complete_request_traces machine 0 (pos 200) (pos 5) (pos 6) 0 world
      (set_trace (codes "abc") (codes "s") request) (codes "abcdef") refl (λ e. ground arith)

complete_request_long_trace_example :
    lookup
      (codes "abcdef")
      (complete_request machine
        (some 1)
        (pos 200)
        (pos 5)
        (pos 6)
        0
        world).1.service.active_by_trace
    ≡ some 1
unfolding program
complete_request_long_trace_example =
    complete_request_long_trace machine 4 1 (pos 200) (pos 5) (pos 6) 0 world request
      (codes "abcdef") (codes "s") (omega arith) refl (omega arith) refl refl

complete_request-find_metadata_example :
    let m = get_metadata machine (
      finish machine []
        (pos 200)
        (pos 5)
        (pos 6)
        0
        (set_trace (codes "abc") (codes "s") request)) in
    let after = complete_request machine (some 0) (pos 200) (pos 5) (pos 6) 0 world in
    (after.0 ≡ ok tt) × (find_metadata m.id after.1 ≡ ok m)
unfolding program
complete_request-find_metadata_example =
    complete_request-find_metadata machine codec 2 100 0 (pos 200) (pos 5) (pos 6) 0 world
      (set_trace (codes "abc") (codes "s") request) (codes "{}") refl refl
      (new_in_memory_storage-IsValid (pos 2) (pos 100)) refl (λ e. ground arith) refl (omega arith)
      (omega arith)

-- Two requests start, each with a trace, and one of them is completed.
abbrev actions : List (Action ℤ (Unit {0}))
actions =
    Action.makes_collector (codes "one") (pos 1) 0 (codes "GET") (codes "/a")
    ∷ Action.registers_trace (codes "abc") (some 0)
    ∷ Action.makes_collector (codes "two") (pos 2) 0 (codes "GET") (codes "/b")
    ∷ Action.registers_trace (codes "def") (some 1)
    ∷ Action.registers_trace (codes "def") (some 0)
    ∷ []

abbrev busy : World ℤ (Unit {0}) Stored
busy =
    served machine short (some (memory_storage codec)) (new_in_memory_storage (pos 2) (pos 100))
      actions

busy_traces : busy.service.active_by_trace ≡ (codes "abc", 0) ∷ (codes "def", 1) ∷ []
unfolding program
busy_traces = refl

has_active_traces_iff_example :
    (has_active_traces busy ≡ true) ↔ (busy.service.active_by_trace ≢ [])
has_active_traces_iff_example =
    has_active_traces_iff machine short (some (memory_storage codec))
      (new_in_memory_storage (pos 2) (pos 100)) actions (omega arith)

record_log_for_single_active_iff_example :
    let log = add_log_entry_with_trace machine (codes "info") (codes "hello") [] [] (pos 9) [] in
    let r =
      record_log_for_single_active machine (codes "info") (codes "hello") [] [] (pos 9) [] busy in
    ((r.0 ≡ true) ↔ (length busy.service.active_by_trace ≡ 1))
    × (at 0 r.1.heap ≡ (
        if is_only 0 busy.service.active_by_trace
        then option_map log (at 0 busy.heap)
        else at 0 busy.heap))
record_log_for_single_active_iff_example =
    record_log_for_single_active_iff machine (codes "info") (codes "hello") [] [] (pos 9) [] short
      (some (memory_storage codec)) (new_in_memory_storage (pos 2) (pos 100)) actions 0
      (omega arith)

record_log_for_trace-register_trace_example :
    let record_for = λ (w : World ℤ (Unit {0}) Stored).
      record_log_for_trace machine
        (codes "abc")
        (codes "info")
        (codes "hello")
        []
        []
        (pos 9)
        []
        w in
    let log = add_log_entry_with_trace machine (codes "info") (codes "hello") [] [] (pos 9) [] in
    (at 0 (record_for (register_trace (codes "abc") (some 1) busy)).heap ≡ (
      if text_eq (codes "abc") (codes "abc")
      then (if 0 == holder (lookup (codes "abc") busy.service.active_by_trace) 1
          then option_map log (at 0 busy.heap)
          else at 0 busy.heap)
      else at 0 (record_for busy).heap))
    × (at 0 (record_for (unregister_trace (codes "abc") busy)).heap ≡ (
        if text_eq (codes "abc") (codes "abc")
        then at 0 busy.heap
        else at 0 (record_for busy).heap))
record_log_for_trace-register_trace_example =
    record_log_for_trace-register_trace machine (codes "info") (codes "hello") [] [] (pos 9) []
      (codes "abc") (codes "abc") 1 0 busy (λ e. ground arith)
