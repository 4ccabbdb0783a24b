-- ===== src/Service/Races/Counting.antt =====
-- clockwork.go: what the counter of active traces says in every interleaving.
use go_clockwork.Prelude.{
  ℕ, zero, suc, ◌+◌, ◌-◌, ◌≤◌, ◌<◌, ◌^◌, ◌≡◌, refl, sym, ap, subst, ◌∙◌, Option, none, some, List,
  [], ◌∷◌, arith, length, Text, is_empty, lookup, insert, delete, pos, negsuc, sub_ℕ, ◌+ℤ◌, add_int,
  wrap64, wrap64_pos, both_branches,
}
use go_clockwork.Config.{Config}
use go_clockwork.Metadata.{Metadata}
use go_clockwork.Storage.{Storage}
use go_clockwork.Service.{new_clockwork}
use go_clockwork.Service.Traces.{
  Unique, insert-Unique, length-insert_new, delete-Unique, length-delete,
}
use go_clockwork.Service.Races.{
  Race, Event, store_trace, delete_trace, add_count, step, run_events, new_race,
}

sub_ℕ-suc : (a b : ℕ) → sub_ℕ (suc a) (suc b) ≡ sub_ℕ a b
sub_ℕ-suc a b = ground arith

wrap64_negsuc : (n : ℕ) → n < 2 ^ 63 → wrap64 (negsuc n) ≡ negsuc n
unfolding wrap64
wrap64_negsuc n h = ground arith

wrap64_sub : (a b : ℕ) → a < 2 ^ 63 → b < 2 ^ 63 → wrap64 (sub_ℕ a b) ≡ sub_ℕ a b
wrap64_sub a b ha hb = ground (arith, wrap64_pos (a - b), wrap64_negsuc (b - a - 1))

add_one : (a b : ℕ) → a < 2 ^ 63 → b < 2 ^ 63 → add_int (sub_ℕ a (suc b)) (pos 1) ≡ sub_ℕ a b
unfolding add_int
add_one a b ha hb =
    let exact : sub_ℕ a (suc b) +ℤ pos 1 ≡ sub_ℕ a b = ground arith in
    ap wrap64 exact ∙ wrap64_sub a b ha hb

take_one : (a b : ℕ) → a < 2 ^ 63 → b < 2 ^ 63 → add_int (sub_ℕ (suc a) b) (negsuc 0) ≡ sub_ℕ a b
unfolding add_int
take_one a b ha hb =
    let exact : sub_ℕ (suc a) b +ℤ negsuc 0 ≡ sub_ℕ a b = ground arith in
    ap wrap64 exact ∙ wrap64_sub a b ha hb

-- The counter is behind the map by what is stored and deleted and not yet counted; all these are at most
-- `k`.
pub record IsExact {F O S : Type 0} (k : ℕ) (r : Race F O S) : Type 0 where
  pub unique : Unique r.world.service.active_by_trace
  pub counted :
      r.world.service.active_count
      ≡ sub_ℕ (length r.world.service.active_by_trace + r.deleting) r.storing
  pub few : length r.world.service.active_by_trace + r.deleting ≤ k
  pub begun : r.storing ≤ k

module _ {F O S : Type 0} where
  IsExact-later : (k : ℕ) (r : Race F O S) → IsExact k r → IsExact (suc k) r
  IsExact-later k r e = record {
    unique = e.unique;
    counted = e.counted;
    few = omega (arith, e.few);
    begun = omega (arith, e.begun);
  }

  store_trace-IsExact :
      (k : ℕ) (trace_id : Text) (p : ℕ) (found : Option ℕ) (r : Race F O S)
      → lookup trace_id r.world.service.active_by_trace ≡ found
      → IsExact k r
      → IsExact (suc k) (store_trace trace_id p found r)
  unfolding store_trace
  store_trace-IsExact k trace_id p (some q) r h e = IsExact-later k r e
  store_trace-IsExact k trace_id p none r h e =
      let m = r.world.service.active_by_trace in
      let grown : length (insert trace_id p m) ≡ suc (length m) =
        length-insert_new trace_id p m h in
      record {
        unique = insert-Unique trace_id p m e.unique;
        counted =
            e.counted
            ∙ sym (sub_ℕ-suc (length m + r.deleting) r.storing)
            ∙ ap (λ n. sub_ℕ n (suc r.storing)) (omega (arith, grown));
        few = omega (arith, grown, e.few);
        begun = omega (arith, e.begun);
      }

  delete_trace-IsExact :
      (k : ℕ) (trace_id : Text) (found : Option ℕ) (r : Race F O S)
      → lookup trace_id r.world.service.active_by_trace ≡ found
      → IsExact k r
      → IsExact (suc k) (delete_trace trace_id found r)
  unfolding delete_trace
  delete_trace-IsExact k trace_id none r h e = IsExact-later k r e
  delete_trace-IsExact k trace_id (some p) r h e =
      let m = r.world.service.active_by_trace in
      let shrunk : suc (length (delete trace_id m)) ≡ length m =
        length-delete trace_id p m e.unique h in
      record {
        unique = delete-Unique trace_id m e.unique;
        counted = e.counted ∙ ap (λ n. sub_ℕ n r.storing) (omega (arith, shrunk));
        few = omega (arith, shrunk, e.few);
        begun = omega (arith, e.begun);
      }

  count_stored-IsExact :
      (k storing : ℕ) (r : Race F O S)
      → suc k < 2 ^ 63
      → r.storing ≡ storing
      → IsExact k r
      → IsExact (suc k) (elim storing [
        | zero ↦ r
        | suc n ↦ record r { world = add_count (pos 1) r.world; storing = n }
      ])
  unfolding add_count
  count_stored-IsExact k zero r h is e = IsExact-later k r e
  count_stored-IsExact k (suc n) r h is e =
      let a = length r.world.service.active_by_trace + r.deleting in
      record {
        unique = e.unique;
        counted =
            ap (λ c. add_int c (pos 1)) (e.counted ∙ ap (sub_ℕ a) is)
            ∙ add_one a n (omega (arith, e.few)) (omega (arith, e.begun, is));
        few = omega (arith, e.few);
        begun = omega (arith, e.begun, is);
      }

  count_deleted-IsExact :
      (k deleting : ℕ) (r : Race F O S)
      → suc k < 2 ^ 63
      → r.deleting ≡ deleting
      → IsExact k r
      → IsExact (suc k) (elim deleting [
        | zero ↦ r
        | suc n ↦ record r { world = add_count (negsuc 0) r.world; deleting = n }
      ])
  unfolding add_count
  count_deleted-IsExact k zero r h is e = IsExact-later k r e
  count_deleted-IsExact k (suc n) r h is e =
      let a = length r.world.service.active_by_trace in
      record {
        unique = e.unique;
        counted =
            ap (λ c. add_int c (negsuc 0))
              (e.counted ∙ ap (λ d. sub_ℕ d r.storing) (omega (arith, is)))
            ∙ take_one (a + n) r.storing (omega (arith, e.few, is)) (omega (arith, e.begun));
        few = omega (arith, e.few, is);
        begun = omega (arith, e.begun);
      }

  step-IsExact :
      (k : ℕ) (event : Event) (r : Race F O S)
      → suc k < 2 ^ 63
      → IsExact k r
      → IsExact (suc k) (step event r)
  unfolding step
  step-IsExact k (Event.stores trace_id p) r h e =
      both_branches (IsExact (suc k)) (is_empty trace_id) (IsExact-later k r e)
        (store_trace-IsExact k trace_id p _ r refl e)
  step-IsExact k (Event.deletes trace_id) r h e =
      both_branches (IsExact (suc k)) (is_empty trace_id) (IsExact-later k r e)
        (delete_trace-IsExact k trace_id _ r refl e)
  step-IsExact k Event.counts_stored r h e = count_stored-IsExact k r.storing r h refl e
  step-IsExact k Event.counts_deleted r h e = count_deleted-IsExact k r.deleting r h refl e

  pub run_events-IsExact :
      (k : ℕ) (events : List Event) (r : Race F O S)
      → length events + k < 2 ^ 63
      → IsExact k r
      → IsExact (length events + k) (run_events events r)
  unfolding run_events
  run_events-IsExact k [] r h e = record {
    unique = e.unique;
    counted = e.counted;
    few = omega (arith, e.few);
    begun = omega (arith, e.begun);
  }
  run_events-IsExact k (event ∷ events) r h e =
      let shifted : length events + suc k ≡ length (event ∷ events) + k = omega arith in
      subst (λ n. IsExact n (run_events events (step event r))) shifted
        (run_events-IsExact (suc k) events (step event r) (omega (arith, shifted))
          (step-IsExact k event r (omega arith) e))

  pub new_race-IsExact :
      (cfg : Config) (storage : Option (Storage S (Metadata F O))) (start : S)
      → IsExact 0 (new_race cfg storage start)
  unfolding new_race new_clockwork
  new_race-IsExact cfg storage start = record {
    unique = tt;
    counted = refl;
    few = omega arith;
    begun = omega arith;
  }

  -- In every interleaving of fewer than 2^63 atomic steps on a new service, the counter is the number of
  -- active traces and of those deleted but not yet counted, less the stored ones not yet counted.
  pub active_count-run_events :
      (cfg : Config) (storage : Option (Storage S (Metadata F O))) (start : S) (events : List Event)
      → length events < 2 ^ 63
      → let r = run_events events (new_race cfg storage start) in
        r.world.service.active_count
        ≡ sub_ℕ (length r.world.service.active_by_trace + r.deleting) r.storing
  active_count-run_events cfg storage start events few =
      (run_events-IsExact 0 events (new_race cfg storage start) (omega arith)
        (new_race-IsExact cfg storage start)).counted
