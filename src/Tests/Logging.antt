-- ===== src/Tests/Logging.antt =====
-- integrations/zap/zap.go on small inputs.
use go_clockwork.Prelude.{
  Map, ◌++◌, ℕ, suc, ◌≡◌, refl, true, false, none, some, List, [], ◌∷◌, Text, arith, text_eq, codes,
  lookup, ℤ, pos, trim_space, trim_left, trim_right, trim_suffix, split_on, split_last, atoi,
  unsigned, has_prefix, contains, insert, add_int, wrap64, signed,
}
use go_clockwork.Config.{default_config, normalize}
use go_clockwork.Metadata.{LogTraceFrame, Value}
use go_clockwork.Frames.{is_vendor_path}
use go_clockwork.Collector.{new_collector, limits_from_config}
use go_clockwork.Service.{
  World, new_clockwork, register_trace, load_or_store, at, allocate_collector,
}
use go_clockwork.Service.Actions.{Action, act, run_actions}
use go_clockwork.Service.Counted.{served}
use go_clockwork.Zap.{
  FieldType, Content, Field, Formats, Under, Core, find_trace_id, append_fields, context_fields,
  trace_of, write,
}
use go_clockwork.Zap.Stack.{
  Entry, parse_file_line, stack_loop, parse_zap_stack, is_same_frame, merge_loop, build_log_trace,
}
use go_clockwork.Zap.Lines.{parse_file_line_digits}
use go_clockwork.Zap.Distinct.{IsTrace, build_log_trace-IsTrace}
use go_clockwork.Zap.Context.{IsContext}
use mathlib.Core.Option.{map as option_map}
use go_clockwork.Collector.Methods.{add_log_entry_with_trace}
use go_clockwork.Zap.Routing.{at-write}
use go_clockwork.Tests.Sample.{machine}

program : Unit {0}
unfolding text_eq lookup insert trim_space trim_left trim_right trim_suffix split_on split_last atoi
    unsigned has_prefix contains is_vendor_path parse_file_line stack_loop parse_zap_stack
    is_same_frame merge_loop build_log_trace find_trace_id append_fields context_fields trace_of
    new_clockwork normalize default_config limits_from_config new_collector register_trace
    load_or_store at allocate_collector act run_actions served add_int wrap64 signed
program = tt

parse_file_line_digits_example :
    (parse_file_line (codes "/app/a.go:17") ≡ some (codes "/app/a.go", pos 17))
    × (parse_file_line (codes "/app/a.go:17)") ≡ some (codes "/app/a.go", pos 17))
parse_file_line_digits_example =
    parse_file_line_digits (codes "/app/a.go") b'1' (codes "7") refl (omega arith)

abbrev entry : Entry
entry = record {
  level = pos 1;
  time = none;
  logger_name = [];
  message = codes "hello";
  caller_defined = true;
  caller_file = codes "/app/a.go";
  caller_line = pos 17;
  stack = codes "main.run\n\t/app/a.go:17\nmain.main\n\t/app/b.go:3\nmain.main\n\t/app/b.go:3";
}

abbrev frame : Text → Text → ℤ → LogTraceFrame
frame call file line = record { call = call; file = file; line = line; is_vendor = false }

frames :
    build_log_trace entry
    ≡ frame [] (codes "/app/a.go") (pos 17)
      ∷ frame (codes "main.run") (codes "/app/a.go") (pos 17)
      ∷ frame (codes "main.main") (codes "/app/b.go") (pos 3)
      ∷ []
unfolding program
frames = refl

build_log_trace-IsTrace_example : IsTrace (build_log_trace entry)
build_log_trace-IsTrace_example = build_log_trace-IsTrace entry

abbrev formats : Formats ℤ (Unit {0})
formats = record {
  float64_from_bits = λ n. n;
  to_float32 = λ n. n;
  duration_text = λ n. codes "duration";
  utc_text = λ n. codes "utc";
  local_text = λ l n. codes "local";
  sprint = λ c. codes "printed";
  level_name = λ n. codes "warn";
}

abbrev under : Under (Unit {0}) ℕ (Unit {0})
under = record {
  enabled = λ level n. true;
  with_fields = λ fields n. n;
  write = λ e fields n. (tt, suc n);
  sync = λ n. (tt, n);
}

abbrev text_field : Text → Text → Field (Unit {0})
text_field key value = record {
  key = key;
  type = FieldType.string_type;
  string = value;
  integer = pos 0;
  content = Content.nothing;
}

abbrev trace_field : Field (Unit {0})
trace_field = record {
  key = codes "trace_id";
  type = FieldType.string_type;
  string = codes "abc";
  integer = pos 0;
  content = Content.nothing;
}

abbrev actions : List (Action ℤ (Unit {0}))
actions =
    Action.makes_collector (codes "one") (pos 1) 0 (codes "GET") (codes "/a")
    ∷ Action.makes_collector (codes "two") (pos 2) 0 (codes "GET") (codes "/b")
    ∷ Action.registers_trace (codes "abc") (some 1)
    ∷ []

abbrev world : World ℤ (Unit {0}) (Unit {0})
world = served machine default_config none tt actions

registered : lookup (codes "abc") world.service.active_by_trace ≡ some 1
unfolding program
registered = refl

-- A core with a field, and one field behind the trace id with the same key.
abbrev core : Core (Unit {0}) ℕ
core = record { underlying = 0; fields = text_field (codes "k") (codes "v") ∷ trace_field ∷ [] }

at-write_example :
    (context : Map (Value ℤ (Unit {0}))) × IsContext formats entry
      (core.fields ++ (text_field (codes "k") (codes "w") ∷ []))
      context
    × (at 1
          (write machine formats under entry
            (text_field (codes "k") (codes "w") ∷ [])
            (pos 9)
            []
            core
            world).2.heap
        ≡ option_map
            (add_log_entry_with_trace machine
              (formats.level_name entry.level)
              entry.message
              context
              (build_log_trace entry)
              (pos 9)
              [])
            (at 1 world.heap))
unfolding program
at-write_example =
    at-write machine formats under default_config none tt actions entry
      (text_field (codes "k") (codes "w") ∷ []) (pos 9) [] core
      (text_field (codes "k") (codes "v") ∷ []) (text_field (codes "k") (codes "w") ∷ [])
      trace_field 1 1 (omega arith) (omega arith) refl ((λ n. ground (arith, n.0)), tt) (refl, refl)
      (λ e. ground arith) registered
