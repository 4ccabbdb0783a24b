-- ===== src/Tests/Caching.antt =====
-- The packages cache and sql under integrations on small inputs.
use go_clockwork.Prelude.{
  ℕ, ◌≡◌, refl, true, false, none, some, List, [], ◌∷◌, ◌==◌, if◌then◌else◌, Text, text_eq, codes,
  Map, lookup, insert, delete, ℤ, pos,
}
use go_clockwork.Config.{default_config, normalize}
use go_clockwork.Collector.{new_collector, limits_from_config}
use go_clockwork.Collector.Calls.{Call}
use go_clockwork.Service.{World, new_clockwork}
use go_clockwork.Integrations.Cache.{Cache, Timing, Operation, Reply, run_wrapped}
use go_clockwork.Integrations.Recorded.{
  do_plain, run_plain, event_of, recorded, call_in, run_wrapped-run_plain,
}
use go_clockwork.Integrations.Sql.{new_observer}
use go_clockwork.Tests.Sample.{machine}

program : Unit {0}
unfolding text_eq lookup insert delete new_clockwork normalize default_config limits_from_config
    new_collector do_plain run_plain event_of recorded call_in new_observer
program = tt

-- A cache of numbers that refuses to store 0.
abbrev numbers : Cache (Map ℕ) ℕ
numbers = record {
  get = λ key m. elim (lookup key m) [ none ↦ ((0, false), m) | some n ↦ ((n, true), m) ];
  set = λ key n ttl m. if n == 0 then (some (codes "zero"), m) else (none, insert key n m);
  delete = λ key m. (none, delete key m);
}

abbrev world : World ℤ (Unit {0}) (Unit {0})
world = record {
  service = new_clockwork default_config none;
  heap =
      new_collector (codes "id") (pos 1) 0 (codes "GET") (codes "/")
        (limits_from_config default_config)
      ∷ [];
  stored = tt;
}

abbrev timing : Timing
timing = record { duration = pos 2; now = pos 3 }

abbrev operations : List (Operation ℕ × Timing)
operations =
    (Operation.gets (codes "a"), timing)
    ∷ (Operation.sets (codes "a") 5 (pos 0), timing)
    ∷ (Operation.sets (codes "b") 0 (pos 0), timing)
    ∷ (Operation.gets (codes "a"), timing)
    ∷ (Operation.deletes (codes "a"), timing)
    ∷ []

abbrev replies : List (Reply ℕ)
replies =
    Reply.got 0 false
    ∷ Reply.set_done none
    ∷ Reply.set_done (some (codes "zero"))
    ∷ Reply.got 5 true
    ∷ Reply.deleted none
    ∷ []

abbrev query : Text → Call ℤ (Unit {0})
query cache_type = Call.adds_cache_query cache_type (codes "a") (pos 2) (pos 3)

abbrev queries : List (Call ℤ (Unit {0}))
queries =
    query (codes "miss") ∷ query (codes "write") ∷ query (codes "hit") ∷ query (codes "delete") ∷ []

run_wrapped-run_plain_example :
    run_wrapped machine numbers (some 0) operations [] world
    ≡ (replies, [], call_in machine (some 0) queries world)
unfolding program
run_wrapped-run_plain_example = run_wrapped-run_plain machine numbers (some 0) operations [] world

observers :
    (new_observer world (pos 7) ≡ some (record { slow_query_threshold = pos 7 }))
    × (new_observer world (pos 0) ≡ some (record { slow_query_threshold = pos 100_000_000 }))
unfolding program
observers = (refl, refl)
