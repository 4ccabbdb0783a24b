-- ===== src/Zap/Stack.antt =====
-- integrations/zap/zap.go: the frames of a log entry, from its caller and from the text of its stack.
use go_clockwork.Prelude.{
  ℕ, zero, suc, ◌==◌, Bool, false, not, ◌&&◌, ◌||◌, Option, none, some, List, [], ◌∷◌, ◌++◌,
  if◌then◌else◌, ltb, length, Text, codes, text_eq, is_empty, trim_space, trim_suffix, split_on,
  split_last, atoi, ℤ, pos, negsuc,
}
use go_clockwork.Metadata.{LogTraceFrame}
use go_clockwork.Frames.{is_vendor_path}

-- `zapcore.Entry`; a zero time is `none`.
pub record Entry : Type 0 where
  pub level : ℤ
  pub time : Option ℤ
  pub logger_name : Text
  pub message : Text
  pub caller_defined : Bool
  pub caller_file : Text
  pub caller_line : ℤ
  pub stack : Text

-- `maxLogTraceFrames`
abbrev pub max_frames : ℕ
max_frames = 12

abbrev pub with_line : Text → Option ℤ → Option (Text × ℤ)
with_line file none = none
with_line file (some line) = some (file, line)

abbrev pub parse_parts : Option (Text × Text) → Option (Text × ℤ)
parse_parts none = none
parse_parts (some (file, line)) = if is_empty line then none else with_line file (atoi line)

-- `parseFileLine`
unfoldable pub parse_file_line : Text → Option (Text × ℤ)
unfolding split_last trim_suffix atoi
parse_file_line line =
    if is_empty line then none else parse_parts (split_last b':' (trim_suffix (codes ")") line))

-- A frame of the stack.
abbrev pub parsed_frame : Text → Text → ℤ → LogTraceFrame
parsed_frame call file line = record {
  call = call;
  file = file;
  line = line;
  is_vendor = is_vendor_path file;
}

-- The loop of `parseZapStack`, with the number of frames that it may still take.
unfoldable pub stack_loop : ℕ → List Text → List LogTraceFrame
unfolding trim_space parse_file_line
stack_loop room [] = []
stack_loop room (first ∷ []) = []
stack_loop zero (first ∷ second ∷ lines) = []
stack_loop (suc room) (first ∷ second ∷ lines) =
    let skipped = stack_loop (suc room) (second ∷ lines) in
    let behind = stack_loop room lines in
    let found : List LogTraceFrame = elim (parse_file_line (trim_space second)) [
      | none ↦ skipped
      | some (file, line) ↦ parsed_frame (trim_space first) file line ∷ behind
    ] in
    if is_empty (trim_space first) then skipped else found

-- `parseZapStack`
unfoldable pub parse_zap_stack : Text → List LogTraceFrame
unfolding stack_loop split_on
parse_zap_stack stack =
    let text = trim_space stack in
    if is_empty text then [] else stack_loop max_frames (split_on b'\n' text)

abbrev pub int_eq : ℤ → ℤ → Bool
int_eq (pos m) (pos n) = m == n
int_eq (pos m) (negsuc n) = false
int_eq (negsuc m) (pos n) = false
int_eq (negsuc m) (negsuc n) = m == n

-- `isSameFrame`
unfoldable pub is_same_frame : LogTraceFrame → List LogTraceFrame → Bool
is_same_frame f [] = false
is_same_frame f (g ∷ frames) =
    (text_eq g.file f.file && int_eq g.line f.line && text_eq g.call f.call)
    || is_same_frame f frames

-- The loop of `buildLogTrace`.
unfoldable pub merge_loop : List LogTraceFrame → List LogTraceFrame → List LogTraceFrame
unfolding is_same_frame
merge_loop [] frames = frames
merge_loop (f ∷ parsed) frames =
    let next = merge_loop parsed (if is_same_frame f frames then frames else frames ++ f ∷ []) in
    if ltb (length frames) max_frames then next else frames

-- The frame of the caller, which `buildLogTrace` starts with.
abbrev pub caller_frame : Entry → LogTraceFrame
caller_frame entry = record {
  call = [];
  file = entry.caller_file;
  line = entry.caller_line;
  is_vendor = is_vendor_path entry.caller_file;
}

abbrev pub has_caller : Entry → Bool
has_caller entry = entry.caller_defined && not (is_empty entry.caller_file)

-- `buildLogTrace`
unfoldable pub build_log_trace : Entry → List LogTraceFrame
unfolding merge_loop parse_zap_stack
build_log_trace entry =
    merge_loop (parse_zap_stack entry.stack)
      (if has_caller entry then caller_frame entry ∷ [] else [])
