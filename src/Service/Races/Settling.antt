-- ===== src/Service/Races/Settling.antt =====
-- clockwork.go: once the goroutines that are under way have counted, the counter is right.
use go_clockwork.Prelude.{
  ℕ, zero, suc, ◌+◌, ◌<◌, ◌^◌, ◌≡◌, ◌≢◌, ◌↔◌, refl, sym, ap, subst, ◌∙◌, true, Option, List, [],
  ◌∷◌, ◌++◌, arith, length, length-append, Map, pos, is_pos,
}
use go_clockwork.Config.{Config}
use go_clockwork.Metadata.{Metadata}
use go_clockwork.Storage.{Storage}
use go_clockwork.Service.{has_active_traces}
use go_clockwork.Service.Races.{Race, Event, add_count, step, run_events, new_race}
use go_clockwork.Service.Races.Counting.{IsExact, run_events-IsExact, new_race-IsExact}

abbrev pub repeat : ℕ → Event → List Event
repeat zero event = []
repeat (suc n) event = event ∷ repeat n event

length-repeat : (n : ℕ) (event : Event) → length (repeat n event) ≡ n
length-repeat zero event = refl
length-repeat (suc n) event = ap suc (length-repeat n event)

is_pos-length : (m : Map ℕ) → (is_pos (pos (length m)) ≡ true) ↔ (m ≢ [])
is_pos-length [] = ground arith
is_pos-length (entry ∷ m) = ground arith

module _ {F O S : Type 0} where
  -- What the goroutines that are under way still do, those that have stored first.
  abbrev pub to_finish : Race F O S → List Event
  to_finish r = repeat r.storing Event.counts_stored ++ repeat r.deleting Event.counts_deleted

  run_events-append :
      (events more : List Event) (r : Race F O S)
      → run_events (events ++ more) r ≡ run_events more (run_events events r)
  unfolding run_events
  run_events-append [] more r = refl
  run_events-append (event ∷ events) more r = run_events-append events more (step event r)

  -- The traces that are active, and how many goroutines have still to count.
  record HasLeft (m : Map ℕ) (up down : ℕ) (r : Race F O S) : Type 0 where
    traces : r.world.service.active_by_trace ≡ m
    storing : r.storing ≡ up
    deleting : r.deleting ≡ down

  count_all_deleted :
      (n storing : ℕ) (m : Map ℕ) (r : Race F O S)
      → HasLeft m storing n r
      → HasLeft m storing 0 (run_events (repeat n Event.counts_deleted) r)
  unfolding run_events step add_count
  count_all_deleted zero storing m r h = h
  count_all_deleted (suc n) storing m r h =
      count_all_deleted n storing m (step Event.counts_deleted r)
        (rw h.deleting (record { traces = h.traces; storing = h.storing; deleting = refl }))

  count_all_stored :
      (n deleting : ℕ) (m : Map ℕ) (r : Race F O S)
      → HasLeft m n deleting r
      → HasLeft m 0 deleting (run_events (repeat n Event.counts_stored) r)
  unfolding run_events step add_count
  count_all_stored zero deleting m r h = h
  count_all_stored (suc n) deleting m r h =
      count_all_stored n deleting m (step Event.counts_stored r)
        (rw h.storing (record { traces = h.traces; storing = refl; deleting = h.deleting }))

  finished :
      (r : Race F O S) → HasLeft r.world.service.active_by_trace 0 0 (run_events (to_finish r) r)
  finished r =
      let m = r.world.service.active_by_trace in
      let stored = repeat r.storing Event.counts_stored in
      subst (HasLeft m 0 0)
        (sym (run_events-append stored (repeat r.deleting Event.counts_deleted) r))
        (count_all_deleted r.deleting 0 m (run_events stored r) (
          count_all_stored r.storing r.deleting m r
            (record { traces = refl; storing = refl; deleting = refl })))

  exact_when_finished :
      (k : ℕ) (m : Map ℕ) (r : Race F O S)
      → IsExact k r
      → HasLeft m 0 0 r
      → r.world.service.active_count ≡ pos (length m)
  exact_when_finished k m r e h = e.counted ∙ rw (h.traces, h.storing, h.deleting) (ground arith)

  -- From every state that an interleaving of fewer than 2^61 atomic steps reaches, the goroutines that are
  -- under way can finish without the others, and then the counter is the number of the traces that were
  -- active in that state, and HasActiveTraces says whether there is one.
  pub has_active_traces-to_finish :
      (cfg : Config) (storage : Option (Storage S (Metadata F O))) (start : S) (events : List Event)
      → length events < 2 ^ 61
      → let r = run_events events (new_race cfg storage start) in
        let w = (run_events (to_finish r) r).world in
        (w.service.active_by_trace ≡ r.world.service.active_by_trace)
        × (w.service.active_count ≡ pos (length r.world.service.active_by_trace))
        × ((has_active_traces w ≡ true) ↔ (r.world.service.active_by_trace ≢ []))
  unfolding has_active_traces
  has_active_traces-to_finish cfg storage start events few =
      let r = run_events events (new_race cfg storage start) in
      let e =
        run_events-IsExact 0 events (new_race cfg storage start) (omega arith)
          (new_race-IsExact cfg storage start) in
      let done = finished r in
      let size : length (to_finish r) ≡ r.storing + r.deleting =
        length-append (repeat r.storing Event.counts_stored) _
        ∙ rw
            (
              length-repeat r.storing Event.counts_stored,
              length-repeat r.deleting Event.counts_deleted,
            )
            refl in
      let count =
        exact_when_finished _ r.world.service.active_by_trace (run_events (to_finish r) r)
          (run_events-IsExact (length events + 0) (to_finish r) r
            (omega (arith, size, e.few, e.begun)) e)
          done in
      (
        done.traces,
        count,
        subst (λ n. (is_pos n ≡ true) ↔ (r.world.service.active_by_trace ≢ [])) (sym count)
            (is_pos-length r.world.service.active_by_trace),
      )
