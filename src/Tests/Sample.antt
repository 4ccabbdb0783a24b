-- ===== src/Tests/Sample.antt =====
-- A machine for the tests: whole numbers for float64, and a number for the text of a value.
use go_clockwork.Prelude.{codes, ℤ, ltb_ℤ, ◌-ℤ◌, add_int}
use go_clockwork.Runtime.{Runtime}

abbrev pub machine : Runtime ℤ (Unit {0})
machine = record {
  of_int = λ n. n;
  add = λ a b. add_int a b;
  sub = λ a b. a -ℤ b;
  div = λ a b. a;
  ltf = λ a b. ltb_ℤ a b;
  sprint = λ v. codes " printed ";
}
