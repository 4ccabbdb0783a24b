-- ===== src/Service/Traces.antt =====
-- clockwork.go: the count of active traces is right, and what follows for the fallback of log lines
-- without a trace.
use go_clockwork.Prelude.{
  ℕ, suc, ◌≤◌, ◌<◌, ◌^◌, ◌≡◌, ◌≢◌, refl, sym, ap, Option, none, some, Option-cases, Bool-cases, inl,
  inr, [], ◌∷◌, if◌then◌else◌, arith, length, Text, text_eq, text_eq_iff, is_empty, Map, lookup,
  insert, delete, lookup-insert, lookup-delete, pos, negsuc, add_int, add_int_pos,
}
use go_clockwork.Service.{World, register_trace, load_or_store, unregister_trace, load_and_delete}

-- No trace stands twice.
abbrev pub Unique : Map ℕ → Type 0
Unique [] = Unit {0}
Unique ((k, p) ∷ m) = (lookup k m ≡ none) × Unique m

pub insert-Unique : (k : Text) (p : ℕ) (m : Map ℕ) → Unique m → Unique (insert k p m)
unfolding insert lookup
insert-Unique k p [] u = (refl, tt)
insert-Unique k p ((j, q) ∷ m) (h, u) =
    ground (arith, insert-Unique k p m u, lookup-insert k j p m, text_eq_iff k j, text_eq_iff j k)

pub length-insert_new :
    (k : Text) (p : ℕ) (m : Map ℕ) → lookup k m ≡ none → length (insert k p m) ≡ suc (length m)
unfolding insert lookup
length-insert_new k p [] h = refl
length-insert_new k p ((j, q) ∷ m) h = ground (arith, length-insert_new k p m)

pub delete-Unique : (k : Text) (m : Map ℕ) → Unique m → Unique (delete k m)
unfolding delete
delete-Unique k [] u = tt
delete-Unique k ((j, q) ∷ m) (h, u) = ground (arith, delete-Unique k m u, lookup-delete k j m)

length-delete_absent : (k : Text) (m : Map ℕ) → lookup k m ≡ none → length (delete k m) ≡ length m
unfolding delete lookup
length-delete_absent k [] h = refl
length-delete_absent k ((j, q) ∷ m) h = ground (arith, length-delete_absent k m)

pub length-delete :
    (k : Text) (p : ℕ) (m : Map ℕ)
    → Unique m
    → lookup k m ≡ some p
    → suc (length (delete k m)) ≡ length m
unfolding delete lookup
length-delete k p [] u h = cc
length-delete k p ((j, q) ∷ m) (a, u) h =
    ground (arith, length-delete k p m u, length-delete_absent k m, text_eq_iff j k)

pred_int : (n : ℕ) → suc n < 2 ^ 63 → add_int (pos (suc n)) (negsuc 0) ≡ pos n
unfolding add_int
pred_int n h = ground arith

-- The counter is the number of active traces, which is at most `k`.
pub record IsCounted {F O S : Type 0} (k : ℕ) (w : World F O S) : Type 0 where
  pub unique : Unique w.service.active_by_trace
  pub counted : w.service.active_count ≡ pos (length w.service.active_by_trace)
  pub few : length w.service.active_by_trace ≤ k

-- The holder of a trace after a registration: the first one stays.
abbrev pub holder : Option ℕ → ℕ → ℕ
holder none p = p
holder (some first) p = first

module _ {F O S : Type 0} where
  -- To register a trace keeps the count right, below the largest int64.
  pub register_trace-IsCounted :
      (k : ℕ) (trace_id : Text) (collector : Option ℕ) (w : World F O S)
      → suc k < 2 ^ 63
      → IsCounted k w
      → IsCounted (suc k) (register_trace trace_id collector w)
  unfolding register_trace
  register_trace-IsCounted k trace_id none w h c = record {
    unique = c.unique;
    counted = c.counted;
    few = omega arith;
  }
  register_trace-IsCounted k trace_id (some p) w h c =
      let m = w.service.active_by_trace in
      let same : IsCounted (suc k) w = record {
        unique = c.unique;
        counted = c.counted;
        few = omega (arith, c.few);
      } in
      elim (Bool-cases (is_empty trace_id)) [
        | inl empty ↦ rw empty same
        | inr named ↦ elim (Option-cases (lookup trace_id m)) [
          | inr (q, active) ↦ rw (named, active, load_or_store) same
          | inl absent ↦
              let grown = length-insert_new trace_id p m absent in
              rw (named, absent, load_or_store)
                (record {
                  unique = insert-Unique trace_id p m c.unique;
                  counted =
                      rw (c.counted, add_int_pos (length m) 1 (omega (arith, c.few)))
                        (ap pos (omega (arith, grown)));
                  few = omega (arith, grown, c.few);
                })
        ]
      ]

  pub unregister_trace-IsCounted :
      (k : ℕ) (trace_id : Text) (w : World F O S)
      → k < 2 ^ 63
      → IsCounted k w
      → IsCounted k (unregister_trace trace_id w)
  unfolding unregister_trace
  unregister_trace-IsCounted k trace_id w h c =
      let m = w.service.active_by_trace in
      elim (Bool-cases (is_empty trace_id)) [
        | inl empty ↦ rw empty c
        | inr named ↦ elim (Option-cases (lookup trace_id m)) [
          | inl absent ↦ rw (named, absent, load_and_delete) c
          | inr (p, active) ↦
              let shrunk = length-delete trace_id p m c.unique active in
              rw (named, active, load_and_delete)
                (record {
                  unique = delete-Unique trace_id m c.unique;
                  counted =
                      rw (c.counted, sym shrunk)
                        (pred_int (length (delete trace_id m)) (omega (arith, shrunk, c.few)));
                  few = omega (arith, shrunk, c.few);
                })
        ]
      ]

  -- What an unregistered trace leaves: itself gone, every other trace as it was.
  pub lookup-unregister_trace :
      (trace_id other : Text) (w : World F O S)
      → trace_id ≢ []
      → lookup other (unregister_trace trace_id w).service.active_by_trace
        ≡ (if text_eq trace_id other then none else lookup other w.service.active_by_trace)
  unfolding unregister_trace
  lookup-unregister_trace [] other w h = absurd (h refl)
  lookup-unregister_trace (b ∷ t) other w h =
      elim (Option-cases (lookup (b ∷ t) w.service.active_by_trace)) [
        | inl absent ↦ rw (absent, load_and_delete) (ground (arith, text_eq_iff (b ∷ t) other))
        | inr (p, active) ↦
            rw (active, load_and_delete) (lookup-delete (b ∷ t) other w.service.active_by_trace)
      ]

  pub lookup-register_trace :
      (trace_id other : Text) (p : ℕ) (w : World F O S)
      → trace_id ≢ []
      → lookup other (register_trace trace_id (some p) w).service.active_by_trace ≡ (
          if text_eq trace_id other
          then some (holder (lookup trace_id w.service.active_by_trace) p)
          else lookup other w.service.active_by_trace)
  unfolding register_trace
  lookup-register_trace [] other p w h = absurd (h refl)
  lookup-register_trace (b ∷ t) other p w h =
      elim (Option-cases (lookup (b ∷ t) w.service.active_by_trace)) [
        | inl absent ↦
            rw (absent, load_or_store) (lookup-insert (b ∷ t) other p w.service.active_by_trace)
        | inr (q, active) ↦ rw (active, load_or_store) (ground (arith, text_eq_iff (b ∷ t) other))
      ]

  -- The collectors themselves stay as they are.
  pub heap-register_trace :
      (trace_id : Text) (p : ℕ) (w : World F O S)
      → (register_trace trace_id (some p) w).heap ≡ w.heap
  unfolding register_trace
  heap-register_trace trace_id p w = elim (Bool-cases (is_empty trace_id)) [
    | inl empty ↦ rw empty refl
    | inr named ↦ elim (Option-cases (lookup trace_id w.service.active_by_trace)) [
      | inl absent ↦ rw (named, absent, load_or_store) refl
      | inr (q, active) ↦ rw (named, active, load_or_store) refl
    ]
  ]

  pub heap-unregister_trace :
      (trace_id : Text) (w : World F O S) → (unregister_trace trace_id w).heap ≡ w.heap
  unfolding unregister_trace
  heap-unregister_trace trace_id w = elim (Bool-cases (is_empty trace_id)) [
    | inl empty ↦ rw empty refl
    | inr named ↦ elim (Option-cases (lookup trace_id w.service.active_by_trace)) [
      | inl absent ↦ rw (named, absent, load_and_delete) refl
      | inr (q, active) ↦ rw (named, active, load_and_delete) refl
    ]
  ]
