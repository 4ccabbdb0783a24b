-- ===== src/Tests/Racing.antt =====
-- clockwork.go: interleavings of two requests.
use go_clockwork.Prelude.{
  ◌≡◌, ◌≢◌, ◌↔◌, ◌+◌, refl, true, false, none, List, [], ◌∷◌, arith, length, text_eq, codes, lookup,
  insert, delete, ℤ, pos, sub_ℕ, add_int, wrap64, signed,
}
use go_clockwork.Config.{default_config, normalize}
use go_clockwork.Service.{new_clockwork, has_active_traces}
use go_clockwork.Service.Requests.{record_log_for_single_active}
use go_clockwork.Service.Races.{
  Race, Event, store_trace, delete_trace, add_count, step, run_events, new_race,
}
use go_clockwork.Service.Races.Counting.{active_count-run_events}
use go_clockwork.Service.Races.Settling.{to_finish, has_active_traces-to_finish}
use go_clockwork.Tests.Sample.{machine}

program : Unit {0}
unfolding text_eq lookup insert delete add_int wrap64 signed normalize default_config new_clockwork
    has_active_traces record_log_for_single_active store_trace delete_trace add_count step
    run_events new_race
program = tt

abbrev start : Race ℤ (Unit {0}) (Unit {0})
start = new_race default_config none tt

-- The second request has stored its trace and not yet counted it.
abbrev two_requests : List Event
two_requests = Event.stores (codes "a") 0 ∷ Event.counts_stored ∷ Event.stores (codes "b") 1 ∷ []

abbrev late : Race ℤ (Unit {0}) (Unit {0})
late = run_events two_requests start

-- A log line without a trace is recorded although two traces are active.
single_active_of_two :
    (late.world.service.active_by_trace ≡ (codes "a", 0) ∷ (codes "b", 1) ∷ [])
    × ((record_log_for_single_active machine
          (codes "info")
          (codes "x")
          []
          []
          (pos 9)
          []
          late.world).0
        ≡ true)
unfolding program
single_active_of_two = (refl, refl)

active_count-run_events_example :
    late.world.service.active_count
    ≡ sub_ℕ (length late.world.service.active_by_trace + late.deleting) late.storing
active_count-run_events_example =
    active_count-run_events default_config none tt two_requests (omega arith)

-- Another request with the trace of the second one is completed before that is counted.
abbrev three_requests : List Event
three_requests =
    Event.stores (codes "a") 0
    ∷ Event.counts_stored
    ∷ Event.stores (codes "b") 1
    ∷ Event.stores (codes "b") 2
    ∷ Event.deletes (codes "b")
    ∷ Event.counts_deleted
    ∷ []

abbrev missed : Race ℤ (Unit {0}) (Unit {0})
missed = run_events three_requests start

-- A trace is active, and HasActiveTraces denies it.
no_active_trace :
    (missed.world.service.active_by_trace ≡ (codes "a", 0) ∷ [])
    × (has_active_traces missed.world ≡ false)
unfolding program
no_active_trace = (refl, refl)

has_active_traces-to_finish_example :
    let w = (run_events (to_finish missed) missed).world in
    (w.service.active_by_trace ≡ missed.world.service.active_by_trace)
    × (w.service.active_count ≡ pos (length missed.world.service.active_by_trace))
    × ((has_active_traces w ≡ true) ↔ (missed.world.service.active_by_trace ≢ []))
has_active_traces-to_finish_example =
    has_active_traces-to_finish default_config none tt three_requests (omega arith)
