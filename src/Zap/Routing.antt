-- ===== src/Zap/Routing.antt =====
-- integrations/zap/zap.go: which collector a log line reaches.
use go_clockwork.Prelude.{
  All, ◌++◌, ◌≤◌, ℕ, ◌<◌, ◌^◌, ◌≡◌, ◌≢◌, ◌==◌, true, Option, some, List, [], ◌∷◌, if◌then◌else◌,
  arith, length, Text, Map, lookup, ℤ,
}
use mathlib.Core.Option.{map as option_map}
use go_clockwork.Metadata.{Metadata, Value}
use go_clockwork.Runtime.{Runtime}
use go_clockwork.Frames.{Frame}
use go_clockwork.Config.{Config}
use go_clockwork.Storage.{Storage}
use go_clockwork.Collector.Methods.{add_log_entry_with_trace}
use go_clockwork.Service.{at, has_active_traces}
use go_clockwork.Service.Actions.{Action}
use go_clockwork.Service.Counted.{served, has_active_traces_iff}
use go_clockwork.Service.Logs.{at-record_log_for_trace}
use go_clockwork.Zap.{Field, Formats, Under, Core, context_fields, write}
use go_clockwork.Zap.TraceId.{NamesTrace, trace_of_first, is_empty_of_ne}
use go_clockwork.Zap.Context.{IsContext, lookup-context_fields}
use go_clockwork.Zap.Stack.{Entry, build_log_trace}

lookup_filled : (k : Text) (p : ℕ) (m : Map ℕ) → lookup k m ≡ some p → m ≢ []
unfolding lookup
lookup_filled k p [] h = cc
lookup_filled k p (e ∷ m) h = ground arith

-- After any sequence of fewer than 2^63 calls on a new service, for a line with at most 20 fields, those
-- of the core included: if the first string field trace_id, looked for in the fields of the core and then
-- in those of the line, has a text that is not empty and is the id of an active trace, then the line is
-- handed to the collector of that trace, and no other collector changes. The context that goes with it
-- has under each key the last value of that key among the fields in this order, without trace_id, and
-- under "logger" and "time" the name of the logger, if it is not empty, and the time, if there is one.
pub at-write :
    {F O S U E : Type 0} (rt : Runtime F O) (formats : Formats F O) (under : Under O U E)
    (cfg : Config) (storage : Option (Storage S (Metadata F O))) (start : S)
    (actions : List (Action F O)) (entry : Entry) (fields : List (Field O)) (now : ℤ)
    (stack : List Frame) (core : Core O U) (front rest : List (Field O)) (f : Field O) (p q : ℕ)
    → length actions < 2 ^ 63
    → length (core.fields ++ fields) ≤ 20
    → core.fields ++ fields ≡ front ++ (f ∷ rest)
    → All (λ g. NamesTrace g → ⊥) front
    → NamesTrace f
    → f.string ≢ []
    → let w = served rt cfg storage start actions in
      lookup f.string w.service.active_by_trace ≡ some p
      → (context : Map (Value F O)) × IsContext formats entry (core.fields ++ fields) context
        × (at q (write rt formats under entry fields now stack core w).2.heap ≡ (
            if q == p
            then option_map
                (add_log_entry_with_trace rt
                  (formats.level_name entry.level)
                  entry.message
                  context
                  (build_log_trace entry)
                  now
                  stack)
                (at q w.heap)
            else at q w.heap))
unfolding write
at-write rt formats under cfg storage start actions entry fields now stack core front rest f p q few
      short split others names named active =
    let w = served rt cfg storage start actions in
    let filled : w.service.active_by_trace ≢ [] =
      lookup_filled f.string p w.service.active_by_trace active in
    let on : has_active_traces w ≡ true =
      (has_active_traces_iff rt cfg storage start actions few).1 filled in
    let found =
      trace_of_first core.underlying core.fields fields front rest f split others names named in
    let context = context_fields formats entry fields core in
    (
      context,
      λ k. lookup-context_fields formats k entry fields core short,
      rw (on, found, is_empty_of_ne f.string named)
          (at-record_log_for_trace rt (formats.level_name entry.level) entry.message context
            (build_log_trace entry) now stack f.string p q w active named),
    )
