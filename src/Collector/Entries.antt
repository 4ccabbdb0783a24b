-- ===== src/Collector/Entries.antt =====
-- collector.go: the log entry that AddLogEntryWithTrace builds is cut to the limits in every part.
use go_clockwork.Prelude.{
  ℕ, zero, suc, ◌≤◌, ◌<◌, List, [], ◌∷◌, arith, Bool-cases, inl, inr, length, leb, All, Text,
  text_eq, is_empty, Map, insert, ℤ, State, ◌>>=◌, pure, length-insert-le,
}
use go_clockwork.Metadata.{Value, NumberKind, LogTraceFrame}
use go_clockwork.Runtime.{Runtime}
use go_clockwork.Frames.{Frame}
use go_clockwork.Collector.{Collector, log_context_bucket}
use go_clockwork.Collector.Sanitize.{
  as_text, sanitize_number, sanitize_value, context_loop, stop_context, sanitize_context,
  sanitize_frame, trace_loop, sanitize_trace, captured_frame, capture_loop,
  capture_current_stack_trace,
}
use go_clockwork.Collector.Methods.{log_trace, new_log_entry}
use go_clockwork.Collector.Quiet.{drop_event-Quiet}
use go_clockwork.Collector.Truncates.{
  IsShort, IsShortFrame, IsShortValue, IsShortField, IsShortEntry, Truncates, Truncates-pure,
  Truncates->>=, Truncates-if, truncate-Truncates,
}

-- The frames of an entry: at most `k`, each short.
abbrev pub AreShortFrames : ℕ → ℕ → List LogTraceFrame → Type 0
AreShortFrames n k frames = All (IsShortFrame n) frames × (length frames ≤ k)

module _ {F O : Type 0} (n : ℕ) where
  abbrev AreShortFields : Map (Value F O) → Type 0
  AreShortFields fields = All (IsShortField n) fields × (length fields ≤ 20)

  insert-All :
      (k : Text) (v : Value F O) (m : Map (Value F O))
      → IsShort n k
      → IsShortValue n v
      → All (IsShortField n) m
      → All (IsShortField n) (insert k v m)
  unfolding insert
  insert-All k v [] hk hv h = ((hk, hv), tt)
  insert-All k v ((j, w) ∷ m) hk hv (hj, h) = elim (Bool-cases (text_eq j k)) [
    | inl same ↦ rw same ((hj.0, hv), h)
    | inr other ↦ rw other (hj, insert-All k v m hk hv h)
  ]

  module _ (positive : 0 < n) where
    module _ (rt : Runtime F O) where
      as_text-Truncates : (v : Value F O) → Truncates n (IsShortValue n) (as_text rt v)
      unfolding as_text
      as_text-Truncates v =
          Truncates->>= n _ _ _ _ (truncate-Truncates n positive _)
            λ s hs. Truncates-pure n _ (Value.text s) hs

      sanitize_number-Truncates :
          (k : NumberKind) (m : ℤ)
          → Truncates n (IsShortValue n) (sanitize_number rt k (Value.number k m))
      unfolding sanitize_number
      sanitize_number-Truncates NumberKind.int8 m = as_text-Truncates _
      sanitize_number-Truncates NumberKind.int16 m = as_text-Truncates _
      sanitize_number-Truncates NumberKind.uint8 m = as_text-Truncates _
      sanitize_number-Truncates NumberKind.uint16 m = as_text-Truncates _
      sanitize_number-Truncates NumberKind.int m = Truncates-pure n _ _ tt
      sanitize_number-Truncates NumberKind.int32 m = Truncates-pure n _ _ tt
      sanitize_number-Truncates NumberKind.int64 m = Truncates-pure n _ _ tt
      sanitize_number-Truncates NumberKind.uint m = Truncates-pure n _ _ tt
      sanitize_number-Truncates NumberKind.uint32 m = Truncates-pure n _ _ tt
      sanitize_number-Truncates NumberKind.uint64 m = Truncates-pure n _ _ tt

      sanitize_value-Truncates :
          (v : Value F O) → Truncates n (IsShortValue n) (sanitize_value rt v)
      unfolding sanitize_value
      sanitize_value-Truncates (Value.text s) =
          Truncates->>= n _ _ _ _ (truncate-Truncates n positive s)
            λ t ht. Truncates-pure n _ (Value.text t) ht
      sanitize_value-Truncates (Value.number k m) = sanitize_number-Truncates k m
      sanitize_value-Truncates (Value.float32 x) = Truncates-pure n _ _ tt
      sanitize_value-Truncates (Value.float64 x) = Truncates-pure n _ _ tt
      sanitize_value-Truncates (Value.boolean b) = Truncates-pure n _ _ tt
      sanitize_value-Truncates (Value.other o) = as_text-Truncates _

      stop_context-Truncates :
          (out : Map (Value F O))
          → AreShortFields out
          → Truncates n AreShortFields (stop_context rt out)
      unfolding stop_context text_eq
      stop_context-Truncates out h = record {
        quiet = λ c _. drop_event-Quiet log_context_bucket c;
        result = λ c _. h;
      }

      context_loop-Truncates :
          (fields out : Map (Value F O))
          → AreShortFields out
          → Truncates n AreShortFields (context_loop rt fields out)
      unfolding context_loop
      context_loop-Truncates [] out h = Truncates-pure n _ out h
      context_loop-Truncates ((k, v) ∷ fields) out h = elim (Bool-cases (leb 20 (length out))) [
        | inl enough ↦ rw enough (stop_context-Truncates out h)
        | inr room ↦ rw room (
            Truncates->>= n _ _ _ _ (truncate-Truncates n positive k) λ key hk.
              Truncates->>= n _ _ _ _ (sanitize_value-Truncates v) λ value hv.
                context_loop-Truncates fields (insert key value out) (
                  insert-All key value out hk hv h.0,
                  ground (arith, length-insert-le key value out, h.1),
                ))
      ]

      sanitize_context-Truncates :
          (fields : Map (Value F O)) → Truncates n AreShortFields (sanitize_context rt fields)
      unfolding sanitize_context
      sanitize_context-Truncates fields = context_loop-Truncates fields [] (tt, omega arith)

    sanitize_frame-Truncates :
        (f : LogTraceFrame) → Truncates {F = F} {O = O} n (IsShortFrame n) (sanitize_frame f)
    unfolding sanitize_frame
    sanitize_frame-Truncates f =
        Truncates->>= n _ _ _ _ (truncate-Truncates n positive f.call) λ call hc.
          Truncates->>= n _ _ _ _ (truncate-Truncates n positive f.file)
            λ file hf. Truncates-pure n _ _ (hc, hf)

    -- One more frame.
    more_frames-Truncates :
        (k : ℕ) (m : State (Collector F O) LogTraceFrame)
        (rest : State (Collector F O) (List LogTraceFrame))
        → Truncates n (IsShortFrame n) m
        → Truncates n (AreShortFrames n k) rest
        → Truncates n (AreShortFrames n (suc k)) (do g ← m; gs ← rest; pure (g ∷ gs))
    more_frames-Truncates k m rest tm tr = Truncates->>= n _ _ _ _ tm λ g hg.
        Truncates->>= n _ _ _ _ tr λ gs hgs. Truncates-pure n _ (g ∷ gs) ((hg, hgs.0), omega arith)

    trace_loop-Truncates :
        (k : ℕ) (frames : List LogTraceFrame)
        → Truncates {F = F} {O = O} n (AreShortFrames n k) (trace_loop k frames)
    unfolding trace_loop
    trace_loop-Truncates zero frames = Truncates-pure n _ [] (tt, omega arith)
    trace_loop-Truncates (suc k) [] = Truncates-pure n _ [] (tt, omega arith)
    trace_loop-Truncates (suc k) (f ∷ frames) =
        more_frames-Truncates k _ _ (sanitize_frame-Truncates f) (trace_loop-Truncates k frames)

    captured_frame-Truncates :
        (f : Frame) → Truncates {F = F} {O = O} n (IsShortFrame n) (captured_frame f)
    unfolding captured_frame
    captured_frame-Truncates f =
        Truncates->>= n _ _ _ _ (truncate-Truncates n positive f.function) λ call hc.
          Truncates->>= n _ _ _ _ (truncate-Truncates n positive f.file)
            λ file hf. Truncates-pure n _ _ (hc, hf)

    capture_loop-Truncates :
        (k : ℕ) (frames : List Frame)
        → Truncates {F = F} {O = O} n (AreShortFrames n k) (capture_loop k frames)
    unfolding capture_loop
    capture_loop-Truncates k [] = Truncates-pure n _ [] (tt, omega arith)
    capture_loop-Truncates zero (f ∷ frames) = Truncates-pure n _ [] (tt, omega arith)
    capture_loop-Truncates (suc k) (f ∷ frames) =
        Truncates-if n _ (is_empty f.file) _ _ (capture_loop-Truncates (suc k) frames) (
          more_frames-Truncates k _ _ (captured_frame-Truncates f)
            (capture_loop-Truncates k frames))

    log_trace-Truncates :
        (trace : List LogTraceFrame) (stack : List Frame)
        → Truncates {F = F} {O = O} n (AreShortFrames n 12) (log_trace trace stack)
    unfolding log_trace sanitize_trace capture_current_stack_trace
    log_trace-Truncates trace stack =
        Truncates->>= n _ _ _ _ (trace_loop-Truncates 12 trace) λ given h.
          Truncates-if n _ (is_empty given) _ _ (capture_loop-Truncates 12 stack)
            (Truncates-pure n _ given h)

    -- Every text of a new log entry is within the limit, and so are its fields and its frames.
    pub new_log_entry-Truncates :
        (rt : Runtime F O) (level message : Text) (fields : Map (Value F O))
        (trace : List LogTraceFrame) (now : ℤ) (stack : List Frame)
        → Truncates n (IsShortEntry n) (new_log_entry rt level message fields trace now stack)
    unfolding new_log_entry
    new_log_entry-Truncates rt level message fields trace now stack =
        Truncates->>= n _ _ _ _ (log_trace-Truncates trace stack) λ frames hf.
          Truncates->>= n _ _ _ _ (truncate-Truncates n positive level) λ l hl.
            Truncates->>= n _ _ _ _ (truncate-Truncates n positive message) λ m hm.
              Truncates->>= n _ _ _ _ (sanitize_context-Truncates rt fields) λ context hc.
                Truncates-pure n _ _ (record {
                  level = hl;
                  message = hm;
                  context = hc.0;
                  few_fields = hc.1;
                  trace = hf.0;
                  few_frames = hf.1;
                })
