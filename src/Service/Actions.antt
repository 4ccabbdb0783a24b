-- ===== src/Service/Actions.antt =====
-- clockwork.go: the methods of the service that change state, as data, to speak of any sequence of them.
use go_clockwork.Prelude.{ℕ, Option, List, [], ◌∷◌, Text, Map, ℤ}
use go_clockwork.Metadata.{Metadata, Value, LogTraceFrame}
use go_clockwork.Runtime.{Runtime}
use go_clockwork.Frames.{Frame}
use go_clockwork.Collector.Calls.{Call, apply_call}
use go_clockwork.Service.{
  World, DataSource, save_metadata, cleanup, allocate_collector, register_data_source,
  register_trace, call_on,
}
use go_clockwork.Service.Requests.{
  record_log_for_trace, record_log_for_single_active, complete_request,
}

-- A call of a method of `Clockwork`, or of a method of a collector that a pointer leads to, with its
-- arguments and what it reads of the machine.
pub data Action (F O : Type 0) : Type 0 where
  saves_metadata : ℤ → Option (Metadata F O) → Action F O
  cleans : ℤ → Action F O
  makes_collector : Text → ℤ → ℕ → Text → Text → Action F O
  registers_source : Option (DataSource F O) → Action F O
  registers_trace : Text → Option ℕ → Action F O
  logs_for_trace :
      Text → Text → Text → Map (Value F O) → List LogTraceFrame → ℤ → List Frame → Action F O
  logs_for_single_active :
      Text → Text → Map (Value F O) → List LogTraceFrame → ℤ → List Frame → Action F O
  completes_request : Option ℕ → ℤ → ℤ → ℤ → ℕ → Action F O
  calls_collector : ℕ → Call F O → Action F O

module _ {F O S : Type 0} (rt : Runtime F O) where
  -- The world after one call; what the call returns is left out.
  unfoldable pub act : Action F O → World F O S → World F O S
  act (Action.saves_metadata now m) w = (save_metadata now m w).1
  act (Action.cleans now) w = (cleanup now w).1
  act (Action.makes_collector id now alloc method uri) w =
      (allocate_collector id now alloc method uri w).1
  act (Action.registers_source source) w = register_data_source source w
  act (Action.registers_trace trace_id p) w = register_trace trace_id p w
  act (Action.logs_for_trace trace_id level message fields trace now stack) w =
      record_log_for_trace rt trace_id level message fields trace now stack w
  act (Action.logs_for_single_active level message fields trace now stack) w =
      (record_log_for_single_active rt level message fields trace now stack w).1
  act (Action.completes_request p status duration now alloc) w =
      (complete_request rt p status duration now alloc w).1
  act (Action.calls_collector p call) w = call_on p (apply_call rt call) w

  -- A sequence of calls, first one first.
  unfoldable pub run_actions : List (Action F O) → World F O S → World F O S
  run_actions [] w = w
  run_actions (action ∷ actions) w = run_actions actions (act action w)
