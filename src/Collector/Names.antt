-- ===== src/Collector/Names.antt =====
-- collector.go: the methods that leave the id and the trace of a collector alone.
use go_clockwork.Prelude.{
  ℕ, zero, suc, ◌<◌, ◌≡◌, ◌≢◌, refl, ◌∙◌, [], ◌∷◌, arith, length, Text, ℤ, pos, both_branches,
  ◌>>=◌,
}
use go_clockwork.Runtime.{Runtime}
use go_clockwork.Collector.{
  Collector, truncate, append_timeline, record_event, push_timeline, drop_event, is_full,
  within_limit, strings_bucket, timeline_bucket,
}
use go_clockwork.Collector.Methods.{set_trace, set_response_data}

-- The id and the trace id stay.
pub record SameNames {F O : Type 0} (c d : Collector F O) : Type 0 where
  pub id : d.id ≡ c.id
  pub trace_id : d.trace_id ≡ c.trace_id

module _ {F O : Type 0} where
  SameNames-trans : {c d e : Collector F O} → SameNames c d → SameNames d e → SameNames c e
  SameNames-trans s t = record { id = t.id ∙ s.id; trace_id = t.trace_id ∙ s.trace_id }

  drop_event-SameNames : (b : Text) (c : Collector F O) → SameNames c (drop_event b c)
  unfolding drop_event
  drop_event-SameNames b c = record { id = refl; trace_id = refl }

  truncate-SameNames : (v : Text) (c : Collector F O) → SameNames c (truncate v c).1
  unfolding truncate
  truncate-SameNames v c =
      both_branches (λ (r : Text × Collector F O). SameNames c r.1)
        (within_limit v c.limits.max_string_len) (record { id = refl; trace_id = refl })
        (drop_event-SameNames strings_bucket c)

module _ {F O : Type 0} (rt : Runtime F O) where
  append_timeline-SameNames :
      (name description : Text) (start end : F) (color : Text) (c : Collector F O)
      → SameNames c (append_timeline rt name description start end color c)
  unfolding append_timeline record_event ◌>>=◌ push_timeline
  append_timeline-SameNames name description start end color c =
      both_branches (SameNames c) (is_full c.limits.max_timeline_event (length c.timeline_events))
        (drop_event-SameNames timeline_bucket c)
        (let s =
            SameNames-trans (truncate-SameNames name c)
              (truncate-SameNames description (truncate name c).1) in
          record { id = s.id; trace_id = s.trace_id })

  pub set_response_data-SameNames :
      (status duration now : ℤ) (alloc : ℕ) (c : Collector F O)
      → SameNames c (set_response_data rt status duration now alloc c)
  unfolding set_response_data
  set_response_data-SameNames status duration now alloc c =
      let s = append_timeline-SameNames _ _ _ _ _ _ in record { id = s.id; trace_id = s.trace_id }

module _ {F O : Type 0} where
  pub set_trace-trace_id :
      (trace_id span_id : Text) (c : Collector F O)
      → (set_trace trace_id span_id c).trace_id ≡ (truncate trace_id c).0
  unfolding set_trace
  set_trace-trace_id trace_id span_id c =
      (truncate-SameNames span_id
        (record (truncate trace_id c).1 { trace_id = (truncate trace_id c).0 })).trace_id

  -- A text that is not empty stays so.
  pub truncate-named :
      (n : ℕ) (v : Text) (c : Collector F O)
      → c.limits.max_string_len ≡ pos n
      → 0 < n
      → v ≢ []
      → (truncate v c).0 ≢ []
  unfolding truncate
  truncate-named n [] c h p named = absurd (named refl)
  truncate-named zero (b ∷ v) c h p named = absurd (omega arith)
  truncate-named (suc n) (b ∷ v) c h p named = rw h (ground arith)
