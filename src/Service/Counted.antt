-- ===== src/Service/Counted.antt =====
-- clockwork.go: the count of active traces after any sequence of calls, and the two methods that rely
-- on it.
use go_clockwork.Collector.Methods.{add_log_entry_with_trace}
use go_clockwork.Prelude.{
  both_branches, ℕ, suc, ◌+◌, ◌<◌, ◌^◌, ◌≡◌, ◌≢◌, ◌↔◌, refl, sym, ap, ◌∙◌, subst, Bool, true, false,
  Option, none, some, Option-cases, inl, inr, List, [], ◌∷◌, arith, length, Text, is_empty, Map,
  lookup, ℤ, pos, is_pos,
}
use go_clockwork.Metadata.{Metadata, Value, LogTraceFrame}
use go_clockwork.Runtime.{Runtime}
use go_clockwork.Frames.{Frame}
use go_clockwork.Config.{Config}
use go_clockwork.Storage.{Storage, Result}
use go_clockwork.Collector.Snapshot.{get_metadata}
use go_clockwork.Service.{
  World, new_clockwork, save_metadata, save_in, cleanup, clean_in, is_enabled, allocate_collector,
  register_data_source, unregister_trace, has_active_traces, call_on, at, is_one,
}
use go_clockwork.Service.Requests.{
  record_log_for_trace, record_log_for_single_active, complete_request, complete_at, finish,
}
use go_clockwork.Service.Traces.{IsCounted, register_trace-IsCounted, unregister_trace-IsCounted}
use go_clockwork.Service.Actions.{Action, act, run_actions}

module _ {F O S : Type 0} where
  -- The active traces and their count are as they were.
  pub record SameTraces (w w' : World F O S) : Type 0 where
    pub traces : w'.service.active_by_trace ≡ w.service.active_by_trace
    pub count : w'.service.active_count ≡ w.service.active_count

  SameTraces-refl : {w : World F O S} → SameTraces w w
  SameTraces-refl = record { traces = refl; count = refl }

  IsCounted-of_same :
      (k : ℕ) (w w' : World F O S) → SameTraces w w' → IsCounted k w → IsCounted k w'
  IsCounted-of_same k w w' same c = record {
    unique = rw same.traces c.unique;
    counted = same.count ∙ c.counted ∙ ap (λ m. pos (length m)) (sym same.traces);
    few = rw same.traces c.few;
  }

  IsCounted-after :
      (k : ℕ) (w w' : World F O S) → SameTraces w w' → IsCounted k w → IsCounted (suc k) w'
  IsCounted-after k w w' same c =
      let d = IsCounted-of_same k w w' same c in
      record { unique = d.unique; counted = d.counted; few = omega (arith, d.few) }

  save_in-SameTraces :
      (now : ℤ) (m : Option (Metadata F O)) (storage : Option (Storage S (Metadata F O)))
      (w : World F O S)
      → SameTraces w (save_in now m storage w).1
  unfolding save_in
  save_in-SameTraces now m none w = SameTraces-refl
  save_in-SameTraces now none (some storage) w = SameTraces-refl
  save_in-SameTraces now (some m) (some storage) w = record { traces = refl; count = refl }

  pub save_metadata-SameTraces :
      (now : ℤ) (m : Option (Metadata F O)) (w : World F O S)
      → SameTraces w (save_metadata now m w).1
  unfolding save_metadata
  save_metadata-SameTraces now m w =
      both_branches (λ (r : Result (Unit {0}) × World F O S). SameTraces w r.1) (is_enabled w)
        (save_in-SameTraces now m w.service.storage w) SameTraces-refl

  clean_in-SameTraces :
      (now : ℤ) (storage : Option (Storage S (Metadata F O))) (w : World F O S)
      → SameTraces w (clean_in now storage w).1
  unfolding clean_in
  clean_in-SameTraces now none w = SameTraces-refl
  clean_in-SameTraces now (some storage) w = record { traces = refl; count = refl }

  cleanup-SameTraces : (now : ℤ) (w : World F O S) → SameTraces w (cleanup now w).1
  unfolding cleanup
  cleanup-SameTraces now w = clean_in-SameTraces now w.service.storage w

module _ {F O S : Type 0} (rt : Runtime F O) where
  log_for_trace-SameTraces :
      (trace_id level message : Text) (fields : Map (Value F O)) (trace : List LogTraceFrame)
      (now : ℤ) (stack : List Frame) (w : World F O S)
      → SameTraces w (record_log_for_trace rt trace_id level message fields trace now stack w)
  unfolding record_log_for_trace
  log_for_trace-SameTraces trace_id level message fields trace now stack w =
      both_branches (SameTraces w) (is_empty trace_id) SameTraces-refl
        (elim (lookup trace_id w.service.active_by_trace)
          as (λ found. SameTraces w (elim found [
            | none ↦ w
            | some p ↦
                call_on p (add_log_entry_with_trace rt level message fields trace now stack) w
          ])) [ none ↦ SameTraces-refl | some p ↦ record { traces = refl; count = refl } ])

  log_for_single_active-SameTraces :
      (level message : Text) (fields : Map (Value F O)) (trace : List LogTraceFrame) (now : ℤ)
      (stack : List Frame) (w : World F O S)
      → SameTraces w (record_log_for_single_active rt level message fields trace now stack w).1
  unfolding record_log_for_single_active
  log_for_single_active-SameTraces level message fields trace now stack w =
      let log = add_log_entry_with_trace rt level message fields trace now stack in
      both_branches (λ (r : Bool × World F O S). SameTraces w r.1) (is_one w.service.active_count)
        (elim w.service.active_by_trace
          as (λ traces.
            SameTraces w
              (elim traces as (λ x. Bool × World F O S) [
                | [] ↦ (false, w)
                | entry ∷ _ ↦ (true, call_on entry.1 log w)
              ]).1) [
                | [] ↦ SameTraces-refl
                | entry ∷ rest ↦ record { traces = refl; count = refl }
              ])
        SameTraces-refl

  complete_request-IsCounted :
      (k : ℕ) (p : Option ℕ) (status duration now : ℤ) (alloc : ℕ) (w : World F O S)
      → k < 2 ^ 63
      → IsCounted k w
      → IsCounted k (complete_request rt p status duration now alloc w).1
  unfolding complete_request complete_at
  complete_request-IsCounted k none status duration now alloc w h c = c
  complete_request-IsCounted k (some p) status duration now alloc w h c =
      let w' = call_on p (finish rt w.service.data_sources status duration now alloc) w in
      let c' : IsCounted k w' =
        IsCounted-of_same k w w' (record { traces = refl; count = refl }) c in
      elim (Option-cases (at p w'.heap)) [
        | inl missing ↦ rw (missing, complete_at) c'
        | inr (collector, found) ↦
            let id = (get_metadata rt collector).trace_id in
            rw (found, complete_at)
              (IsCounted-of_same k _ _
                (save_metadata-SameTraces now (some (get_metadata rt collector))
                  (unregister_trace id w'))
                (unregister_trace-IsCounted k id w' h c'))
      ]

  act-IsCounted :
      (k : ℕ) (action : Action F O) (w : World F O S)
      → suc k < 2 ^ 63
      → IsCounted k w
      → IsCounted (suc k) (act rt action w)
  unfolding act
  act-IsCounted k (Action.saves_metadata now m) w h c =
      IsCounted-after k w _ (save_metadata-SameTraces now m w) c
  act-IsCounted k (Action.cleans now) w h c = IsCounted-after k w _ (cleanup-SameTraces now w) c
  act-IsCounted k (Action.makes_collector id now alloc method uri) w h c =
      unfold allocate_collector in IsCounted-after k w _ (record { traces = refl; count = refl }) c
  act-IsCounted k (Action.registers_source none) w h c =
      unfold register_data_source in IsCounted-after k w _ SameTraces-refl c
  act-IsCounted k (Action.registers_source (some source)) w h c =
      unfold register_data_source in
      IsCounted-after k w _ (record { traces = refl; count = refl }) c
  act-IsCounted k (Action.registers_trace trace_id p) w h c =
      register_trace-IsCounted k trace_id p w h c
  act-IsCounted k (Action.logs_for_trace trace_id level message fields trace now stack) w h c =
      IsCounted-after k w _
        (log_for_trace-SameTraces trace_id level message fields trace now stack w) c
  act-IsCounted k (Action.logs_for_single_active level message fields trace now stack) w h c =
      IsCounted-after k w _
        (log_for_single_active-SameTraces level message fields trace now stack w) c
  act-IsCounted k (Action.completes_request p status duration now alloc) w h c =
      IsCounted-after k _ _ SameTraces-refl
        (complete_request-IsCounted k p status duration now alloc w (omega arith) c)
  act-IsCounted k (Action.calls_collector p call) w h c =
      IsCounted-after k w _ (record { traces = refl; count = refl }) c

  run_actions-IsCounted :
      (k : ℕ) (actions : List (Action F O)) (w : World F O S)
      → length actions + k < 2 ^ 63
      → IsCounted k w
      → IsCounted (length actions + k) (run_actions rt actions w)
  unfolding run_actions
  run_actions-IsCounted k [] w h c = record {
    unique = c.unique;
    counted = c.counted;
    few = omega (arith, c.few);
  }
  run_actions-IsCounted k (action ∷ actions) w h c =
      let shifted : length actions + suc k ≡ length (action ∷ actions) + k = omega arith in
      subst (λ n. IsCounted n (run_actions rt actions (act rt action w))) shifted
        (run_actions-IsCounted (suc k) actions (act rt action w) (omega (arith, shifted))
          (act-IsCounted k action w (omega arith) c))

module _ {F O S : Type 0} (rt : Runtime F O) (cfg : Config)
    (storage : Option (Storage S (Metadata F O))) (start : S) (actions : List (Action F O)) where
  -- A new service after a sequence of calls.
  unfoldable pub served : World F O S
  served =
      run_actions rt actions
        (record { service = new_clockwork cfg storage; heap = []; stored = start })

  -- After fewer than 2^63 calls, the counter is the number of active traces.
  pub served-IsCounted : length actions < 2 ^ 63 → IsCounted (length actions) served
  unfolding served new_clockwork
  served-IsCounted few =
      let plus_zero : length actions + 0 ≡ length actions = omega arith in
      subst (λ n. IsCounted n served) plus_zero
        (run_actions-IsCounted rt 0 actions _ (omega arith)
          (record { unique = tt; counted = refl; few = omega arith }))

  -- After any sequence of fewer than 2^63 calls on a new service, `HasActiveTraces` says whether a
  -- trace is active.
  pub has_active_traces_iff :
      length actions < 2 ^ 63
      → (has_active_traces served ≡ true) ↔ (served.service.active_by_trace ≢ [])
  unfolding has_active_traces
  has_active_traces_iff few =
      let counted = (served-IsCounted few).counted in
      elim served.service.active_by_trace
          as (λ m.
            served.service.active_count ≡ pos (length m)
            → (is_pos served.service.active_count ≡ true) ↔ (m ≢ [])) [
              | [] ↦ λ h. ground arith
              | entry ∷ m ↦ λ h. ground arith
            ]
        counted
