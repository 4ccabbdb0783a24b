-- ===== src/Service/Logs.antt =====
-- clockwork.go: which collector a log line reaches that is recorded for a trace or for the only active
-- request.
use go_clockwork.Prelude.{
  sym, none, Option-cases, Bool-cases, inl, inr, is_empty, text_eq, text_eq_iff, ◌∙◌, ℕ, zero, suc,
  ◌<◌, ◌^◌, ◌≡◌, ◌≢◌, ◌↔◌, ◌==◌, refl, Bool, true, false, Option, some, List, [], ◌∷◌,
  if◌then◌else◌, arith, length, Text, Map, lookup, ℤ, pos,
}
use mathlib.Core.Option.{map as option_map}
use go_clockwork.Metadata.{Metadata, Value, LogTraceFrame}
use go_clockwork.Runtime.{Runtime}
use go_clockwork.Frames.{Frame}
use go_clockwork.Config.{Config}
use go_clockwork.Storage.{Storage}
use go_clockwork.Collector.Methods.{add_log_entry_with_trace}
use go_clockwork.Service.{World, call_on, at, modify, is_one, register_trace, unregister_trace}
use go_clockwork.Service.Traces.{
  holder, lookup-register_trace, lookup-unregister_trace, heap-register_trace,
  heap-unregister_trace,
}
use go_clockwork.Service.Requests.{record_log_for_trace, record_log_for_single_active}
use go_clockwork.Service.Actions.{Action}
use go_clockwork.Service.Counted.{served, served-IsCounted}

at-modify :
    {A : Type 0} (p q : ℕ) (f : A → A) (heap : List A)
    → at q (modify p f heap) ≡ (if q == p then option_map f (at q heap) else at q heap)
unfolding at modify
at-modify p q f [] = ground arith
at-modify zero zero f (a ∷ heap) = refl
at-modify zero (suc q) f (a ∷ heap) = ground arith
at-modify (suc p) zero f (a ∷ heap) = ground arith
at-modify (suc p) (suc q) f (a ∷ heap) = ground (arith, at-modify p q f heap)

-- A collector after a method that was called on the one at this pointer, if any.
abbrev reached : {A : Type 0} → (A → A) → ℕ → Option ℕ → Option A → Option A
reached f q none x = x
reached f q (some p) x = if q == p then option_map f x else x

-- The collector of the only active trace.
abbrev pub is_only : ℕ → Map ℕ → Bool
is_only q [] = false
is_only q ((k, p) ∷ []) = q == p
is_only q (a ∷ b ∷ traces) = false

is_empty_other : (t other : Text) → t ≢ [] → text_eq t other ≡ true → is_empty other ≡ false
is_empty_other t [] named equal = absurd (named (ground (arith, text_eq_iff t [])))
is_empty_other t (b ∷ other) named equal = refl

module _ {F O S : Type 0} (rt : Runtime F O) (level message : Text) (fields : Map (Value F O))
    (trace : List LogTraceFrame) (now : ℤ) (stack : List Frame) where
  -- The collectors before and after a line that is recorded for a trace.
  at-record_log_for_trace_all :
      (trace_id : Text) (q : ℕ) (w : World F O S)
      → let log = add_log_entry_with_trace rt level message fields trace now stack in
        at q (record_log_for_trace rt trace_id level message fields trace now stack w).heap
        ≡ reached log q
            (if is_empty trace_id then none else lookup trace_id w.service.active_by_trace)
            (at q w.heap)
  unfolding record_log_for_trace
  at-record_log_for_trace_all [] q w = refl
  at-record_log_for_trace_all (b ∷ t) q w =
      let log = add_log_entry_with_trace rt level message fields trace now stack in
      elim (Option-cases (lookup (b ∷ t) w.service.active_by_trace)) [
        | inl absent ↦ rw absent refl
        | inr (p, active) ↦ rw active (at-modify p q log w.heap)
      ]

  pub at-record_log_for_trace :
      (trace_id : Text) (p q : ℕ) (w : World F O S)
      → lookup trace_id w.service.active_by_trace ≡ some p
      → trace_id ≢ []
      → let log = add_log_entry_with_trace rt level message fields trace now stack in
        at q (record_log_for_trace rt trace_id level message fields trace now stack w).heap
        ≡ (if q == p then option_map log (at q w.heap) else at q w.heap)
  at-record_log_for_trace [] p q w active named = absurd (named refl)
  at-record_log_for_trace (b ∷ trace_id) p q w active named =
      at-record_log_for_trace_all (b ∷ trace_id) q w ∙ rw active refl

  -- What the registration of a trace changes for the log lines that are recorded for a trace id. Once a
  -- trace with an id is registered, a line for it is handed to the collector that was registered first,
  -- and to no other collector; once it is unregistered, a line for it reaches no collector. Lines for
  -- every other id go where they went before.
  pub record_log_for_trace-register_trace :
      (trace_id other : Text) (p q : ℕ) (w : World F O S)
      → trace_id ≢ []
      → let log = add_log_entry_with_trace rt level message fields trace now stack in
        let record_for = λ (w : World F O S).
          record_log_for_trace rt other level message fields trace now stack w in
        (at q (record_for (register_trace trace_id (some p) w)).heap ≡ (
          if text_eq trace_id other
          then (if q == holder (lookup trace_id w.service.active_by_trace) p
              then option_map log (at q w.heap)
              else at q w.heap)
          else at q (record_for w).heap))
        × (at q (record_for (unregister_trace trace_id w)).heap
            ≡ (if text_eq trace_id other then at q w.heap else at q (record_for w).heap))
  record_log_for_trace-register_trace trace_id other p q w named =
      let registered = register_trace trace_id (some p) w in
      let unregistered = unregister_trace trace_id w in
      elim (Bool-cases (text_eq trace_id other)) [
        | inl equal ↦
            let known = is_empty_other trace_id other named equal in
            rw equal (
              at-record_log_for_trace_all other q registered
                  ∙ rw
                      (
                        known,
                        lookup-register_trace trace_id other p w named,
                        equal,
                        heap-register_trace trace_id p w,
                      )
                      refl,
              at-record_log_for_trace_all other q unregistered
                  ∙ rw
                      (
                        known,
                        lookup-unregister_trace trace_id other w named,
                        equal,
                        heap-unregister_trace trace_id w,
                      )
                      refl,
            )
        | inr distinct ↦ rw distinct (
          at-record_log_for_trace_all other q registered
              ∙ rw
                  (
                    lookup-register_trace trace_id other p w named,
                    distinct,
                    heap-register_trace trace_id p w,
                  )
                  (sym (at-record_log_for_trace_all other q w)),
          at-record_log_for_trace_all other q unregistered
              ∙ rw
                  (
                    lookup-unregister_trace trace_id other w named,
                    distinct,
                    heap-unregister_trace trace_id w,
                  )
                  (sym (at-record_log_for_trace_all other q w)),
        )
      ]

  -- After any sequence of fewer than 2^63 calls on a new service, the fallback for log lines without
  -- a trace answers true exactly when one trace is active. Then it hands the line to the collector of
  -- that trace, and all other collectors stay as they are; otherwise all of them stay as they are.
  pub record_log_for_single_active_iff :
      (cfg : Config) (storage : Option (Storage S (Metadata F O))) (start : S)
      (actions : List (Action F O)) (q : ℕ)
      → length actions < 2 ^ 63
      → let w = served rt cfg storage start actions in
        let log = add_log_entry_with_trace rt level message fields trace now stack in
        let r = record_log_for_single_active rt level message fields trace now stack w in
        ((r.0 ≡ true) ↔ (length w.service.active_by_trace ≡ 1))
        × (at q r.1.heap ≡ (
            if is_only q w.service.active_by_trace
            then option_map log (at q w.heap)
            else at q w.heap))
  unfolding record_log_for_single_active
  record_log_for_single_active_iff cfg storage start actions q few =
      let w = served rt cfg storage start actions in
      let log = add_log_entry_with_trace rt level message fields trace now stack in
      elim w.service.active_by_trace
          as (λ traces.
            w.service.active_count ≡ pos (length traces)
            → let r =
                (if is_one w.service.active_count
                  then elim traces as (λ x. Bool × World F O S) [
                    | [] ↦ (false, w)
                    | entry ∷ _ ↦ (true, call_on entry.1 log w)
                  ]
                  else (false, w)) in
              ((r.0 ≡ true) ↔ (length traces ≡ 1))
              × (at q r.1.heap
                  ≡ (if is_only q traces then option_map log (at q w.heap) else at q w.heap))) [
                    | [] ↦ λ h. rw h (ground arith, refl)
                    | (k, p) ∷ [] ↦ λ h. rw h (ground arith, at-modify p q log w.heap)
                    | a ∷ b ∷ rest ↦ λ h.
                        let several : is_one (pos (suc (suc (length rest)))) ≡ false =
                          ground arith in
                        rw (h, several) (ground arith, refl)
                  ]
        (served-IsCounted rt cfg storage start actions few).counted
