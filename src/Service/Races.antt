-- ===== src/Service/Races.antt =====
-- clockwork.go: RegisterTrace and unregisterTrace when goroutines run at once. Each has two atomic steps,
-- one on the map of active traces and one on their counter, and steps of others may come between them.
pub mod Counting
pub mod Settling
use go_clockwork.Prelude.{
  ℕ, zero, suc, ◌+◌, ◌-◌, ◌*◌, ◌≤◌, ◌<◌, ◌^◌, ◌≡◌, ◌≢◌, ◌↔◌, refl, sym, ap, subst, ◌∙◌, Bool, true,
  false, Option, none, some, List, [], ◌∷◌, ◌++◌, if◌then◌else◌, arith, length, length-append, Text,
  is_empty, lookup, insert, delete, ℤ, pos, negsuc, sub_ℕ, ◌+ℤ◌, add_int, wrap64, wrap64_pos,
  signed, is_pos, Option-cases, Bool-cases, inl, inr,
}
use go_clockwork.Config.{Config}
use go_clockwork.Metadata.{Metadata}
use go_clockwork.Storage.{Storage}
use go_clockwork.Service.{World, new_clockwork, has_active_traces}
use go_clockwork.Service.Traces.{
  Unique, insert-Unique, length-insert_new, delete-Unique, length-delete,
}

-- The service, and how many goroutines have stored a trace, or deleted one, without having counted it.
pub record Race (F O S : Type 0) : Type 0 where
  pub world : World F O S
  pub storing : ℕ
  pub deleting : ℕ

-- The atomic steps: `LoadOrStore` and `LoadAndDelete` of a trace id that is not empty, and the two `Add`.
pub data Event : Type 0 where
  stores : Text → ℕ → Event
  counts_stored : Event
  deletes : Text → Event
  counts_deleted : Event

module _ {F O S : Type 0} where
  -- `LoadOrStore` of `RegisterTrace`: only who has stored goes on to `Add(1)`.
  unfoldable pub store_trace : Text → ℕ → Option ℕ → Race F O S → Race F O S
  store_trace trace_id p (some _) r = r
  store_trace trace_id p none r = record r {
    world = record r.world {
      service = record r.world.service {
        active_by_trace = insert trace_id p r.world.service.active_by_trace;
      };
    };
    storing = suc r.storing;
  }

  -- `LoadAndDelete` of `unregisterTrace`: only who has deleted goes on to `Add(-1)`.
  unfoldable pub delete_trace : Text → Option ℕ → Race F O S → Race F O S
  delete_trace trace_id none r = r
  delete_trace trace_id (some _) r = record r {
    world = record r.world {
      service = record r.world.service {
        active_by_trace = delete trace_id r.world.service.active_by_trace;
      };
    };
    deleting = suc r.deleting;
  }

  -- `Add` on the counter.
  unfoldable pub add_count : ℤ → World F O S → World F O S
  add_count n w = record w {
    service = record w.service { active_count = add_int w.service.active_count n };
  }

  -- A step of one goroutine; nobody counts who has nothing to count.
  unfoldable pub step : Event → Race F O S → Race F O S
  unfolding store_trace delete_trace add_count
  step (Event.stores trace_id p) r =
      if is_empty trace_id
      then r
      else store_trace trace_id p (lookup trace_id r.world.service.active_by_trace) r
  step (Event.deletes trace_id) r =
      if is_empty trace_id
      then r
      else delete_trace trace_id (lookup trace_id r.world.service.active_by_trace) r
  step Event.counts_stored r = elim r.storing [
    | zero ↦ r
    | suc n ↦ record r { world = add_count (pos 1) r.world; storing = n }
  ]
  step Event.counts_deleted r = elim r.deleting [
    | zero ↦ r
    | suc n ↦ record r { world = add_count (negsuc 0) r.world; deleting = n }
  ]

  -- An interleaving, first step first.
  unfoldable pub run_events : List Event → Race F O S → Race F O S
  unfolding step
  run_events [] r = r
  run_events (event ∷ events) r = run_events events (step event r)

  -- A new service, of which no method has begun.
  unfoldable pub new_race : Config → Option (Storage S (Metadata F O)) → S → Race F O S
  unfolding new_clockwork
  new_race cfg storage start = record {
    world = record { service = new_clockwork cfg storage; heap = []; stored = start };
    storing = 0;
    deleting = 0;
  }
