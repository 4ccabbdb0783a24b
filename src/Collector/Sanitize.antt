-- ===== src/Collector/Sanitize.antt =====
-- collector.go: the fields and the stack of a log entry, cut to the limits.
use go_clockwork.Prelude.{
  ℕ, zero, suc, List, [], ◌∷◌, if◌then◌else◌, leb, length, Text, is_empty, trim_space, Map, insert,
  State, pure, ◌>>=◌,
}
use go_clockwork.Metadata.{Value, NumberKind, LogTraceFrame}
use go_clockwork.Runtime.{Runtime}
use go_clockwork.Frames.{Frame, is_vendor_path}
use go_clockwork.Collector.{Collector, truncate, drop_event, log_context_bucket}

-- `maxLogTraceFrames`
abbrev pub max_log_trace_frames : ℕ
max_log_trace_frames = 12

module _ {F O : Type 0} (rt : Runtime F O) where
  -- A value in the form of its text, which `toCompactString` trims.
  unfoldable pub as_text : Value F O → State (Collector F O) (Value F O)
  as_text v = do s ← truncate (trim_space (rt.sprint v)); pure (Value.text s)

  -- The cases of the type switch in `sanitizeContext`.
  unfoldable pub sanitize_number : NumberKind → Value F O → State (Collector F O) (Value F O)
  sanitize_number NumberKind.int v = pure v
  sanitize_number NumberKind.int32 v = pure v
  sanitize_number NumberKind.int64 v = pure v
  sanitize_number NumberKind.uint v = pure v
  sanitize_number NumberKind.uint32 v = pure v
  sanitize_number NumberKind.uint64 v = pure v
  sanitize_number NumberKind.int8 v = as_text v
  sanitize_number NumberKind.int16 v = as_text v
  sanitize_number NumberKind.uint8 v = as_text v
  sanitize_number NumberKind.uint16 v = as_text v

  unfoldable pub sanitize_value : Value F O → State (Collector F O) (Value F O)
  sanitize_value (Value.text s) = do t ← truncate s; pure (Value.text t)
  sanitize_value (Value.number k n) = sanitize_number k (Value.number k n)
  sanitize_value (Value.float32 x) = pure (Value.float32 x)
  sanitize_value (Value.float64 x) = pure (Value.float64 x)
  sanitize_value (Value.boolean b) = pure (Value.boolean b)
  sanitize_value (Value.other o) = as_text (Value.other o)

  -- The `break` of `sanitizeContext`, when enough fields are taken.
  unfoldable pub stop_context : Map (Value F O) → State (Collector F O) (Map (Value F O))
  stop_context out c = (out, drop_event log_context_bucket c)

  -- The loop of `sanitizeContext`, over the fields in the order in which the map yields them.
  unfoldable pub context_loop :
      Map (Value F O) → Map (Value F O) → State (Collector F O) (Map (Value F O))
  context_loop [] out = pure out
  context_loop ((k, v) ∷ fields) out =
      let next = λ (key : Text) (value : Value F O). context_loop fields (insert key value out) in
      if leb 20 (length out)
      then stop_context out
      else (do key ← truncate k; value ← sanitize_value v; next key value)

  -- `sanitizeContext`; a nil map is an empty one.
  unfoldable pub sanitize_context : Map (Value F O) → State (Collector F O) (Map (Value F O))
  sanitize_context fields = context_loop fields []

module _ {F O : Type 0} where
  -- A frame with its texts truncated.
  unfoldable pub sanitize_frame : LogTraceFrame → State (Collector F O) LogTraceFrame
  sanitize_frame f = do
    call ← truncate f.call
    file ← truncate f.file
    pure (record { call = call; file = file; line = f.line; is_vendor = f.is_vendor })

  -- The loop of `sanitizeTrace`, with the number of frames that it may still take.
  unfoldable pub trace_loop : ℕ → List LogTraceFrame → State (Collector F O) (List LogTraceFrame)
  trace_loop zero frames = pure []
  trace_loop (suc n) [] = pure []
  trace_loop (suc n) (f ∷ frames) = do
    g ← sanitize_frame f
    rest ← trace_loop n frames
    pure (g ∷ rest)

  -- `sanitizeTrace`
  unfoldable pub sanitize_trace : List LogTraceFrame → State (Collector F O) (List LogTraceFrame)
  sanitize_trace = trace_loop max_log_trace_frames

  -- A frame of the running program with its texts truncated.
  unfoldable pub captured_frame : Frame → State (Collector F O) LogTraceFrame
  captured_frame f = do
    call ← truncate f.function
    file ← truncate f.file
    pure (record { call = call; file = file; line = f.line; is_vendor = is_vendor_path f.file })

  -- The loop of `captureCurrentStackTrace`, with the number of frames that it may still take; a frame
  -- without a file is passed over.
  unfoldable pub capture_loop : ℕ → List Frame → State (Collector F O) (List LogTraceFrame)
  capture_loop n [] = pure []
  capture_loop zero (f ∷ frames) = pure []
  capture_loop (suc n) (f ∷ frames) =
      let skipped = capture_loop (suc n) frames in
      let taken = capture_loop n frames in
      if is_empty f.file then skipped else (do g ← captured_frame f; rest ← taken; pure (g ∷ rest))

  -- `captureCurrentStackTrace`, of the frames of the running program.
  unfoldable pub capture_current_stack_trace :
      List Frame → State (Collector F O) (List LogTraceFrame)
  capture_current_stack_trace = capture_loop max_log_trace_frames
