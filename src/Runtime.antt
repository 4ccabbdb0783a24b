-- ===== src/Runtime.antt =====
-- What the program uses of the machine and of package fmt: the arithmetic of float64, and the text
-- that `fmt.Sprintf("%v", x)` gives for a value. Nothing is assumed of them.
use go_clockwork.Prelude.{Bool, Text, ℤ, pos, quot, wrap64}
use go_clockwork.Metadata.{Value}

pub record Runtime (F O : Type 0) : Type 0 where
  -- float64(x) of an int64
  pub of_int : ℤ → F
  pub add : F → F → F
  pub sub : F → F → F
  pub div : F → F → F
  pub ltf : F → F → Bool
  pub sprint : Value F O → Text

module _ {F O : Type 0} (rt : Runtime F O) where
  -- `durationMs`, of a duration in nanoseconds.
  pub duration_ms : ℤ → F
  duration_ms d = rt.div (rt.of_int (quot d 1000)) (rt.of_int (pos 1000))

  -- `unixFromTime`, of a time in nanoseconds since 1970; `UnixNano` is an int64.
  pub unix_from_time : ℤ → F
  unix_from_time t = rt.div (rt.of_int (wrap64 t)) (rt.of_int (pos 1_000_000_000))
