-- ===== src/Collector/Truncates.antt =====
-- collector.go: what a method builds from texts that it truncates. Building it records nothing and
-- drops no event, and every text in it is within the limit.
use go_clockwork.Prelude.{
  ℕ, ◌≤◌, ◌<◌, ◌≡◌, ap, ◌∙◌, Bool, true, List, if◌then◌else◌, length, All, Text, ℤ, pos, State,
  ◌>>=◌, pure,
}
use go_clockwork.Metadata.{Value, LogTraceFrame, DatabaseQuery, CacheQuery, LogEntry, TimelineEvent}
use go_clockwork.Runtime.{Runtime}
use go_clockwork.Frames.{Frame}
use go_clockwork.Collector.{Collector, truncate}
use go_clockwork.Collector.Methods.{new_database_query, new_cache_query}
use go_clockwork.Collector.Quiet.{Quiet, Quiet-refl, Quiet-trans, truncate-Quiet, truncate-le}

-- The texts of each kind of record, against a limit on their length.
abbrev pub IsShort : ℕ → Text → Type 0
IsShort n s = length s ≤ n

abbrev pub IsShortQuery : {F : Type 0} → ℕ → DatabaseQuery F → Type 0
IsShortQuery n q = IsShort n q.query × IsShort n q.connection × IsShort n q.model × IsShort n q.file

abbrev pub IsShortCacheQuery : {F : Type 0} → ℕ → CacheQuery F → Type 0
IsShortCacheQuery n q = IsShort n q.type × IsShort n q.key

abbrev pub IsShortFrame : ℕ → LogTraceFrame → Type 0
IsShortFrame n f = IsShort n f.call × IsShort n f.file

abbrev pub IsShortValue : {F O : Type 0} → ℕ → Value F O → Type 0
IsShortValue n (Value.text s) = IsShort n s
IsShortValue n (Value.number k m) = Unit {0}
IsShortValue n (Value.float32 x) = Unit {0}
IsShortValue n (Value.float64 x) = Unit {0}
IsShortValue n (Value.boolean b) = Unit {0}
IsShortValue n (Value.other o) = ⊥

abbrev pub IsShortField : {F O : Type 0} → ℕ → Text × Value F O → Type 0
IsShortField n f = IsShort n f.0 × IsShortValue n f.1

-- A log entry: at most 20 fields and 12 frames too.
pub record IsShortEntry {F O : Type 0} (n : ℕ) (e : LogEntry F O) : Type 0 where
  pub level : IsShort n e.level
  pub message : IsShort n e.message
  pub context : All (IsShortField n) e.context
  pub few_fields : length e.context ≤ 20
  pub trace : All (IsShortFrame n) e.trace
  pub few_frames : length e.trace ≤ 12

-- The colour of an event is not truncated.
abbrev pub IsShortEvent : {F : Type 0} → ℕ → TimelineEvent F → Type 0
IsShortEvent n e = IsShort n e.name × IsShort n e.description

abbrev pub HasLimit : {F O : Type 0} → ℕ → Collector F O → Type 0
HasLimit n c = c.limits.max_string_len ≡ pos n

module _ {F O : Type 0} (n : ℕ) where
  -- From any collector with the limit `n`, the action is quiet and its result has the property.
  pub record Truncates {A : Type 0} (P : A → Type 0) (m : State (Collector F O) A) : Type 0 where
    pub quiet : (c : Collector F O) → HasLimit n c → Quiet 0 c (m c).1
    pub result : (c : Collector F O) → HasLimit n c → P (m c).0

  pub Quiet-HasLimit : {k : ℕ} {c d : Collector F O} → Quiet k c d → HasLimit n c → HasLimit n d
  Quiet-HasLimit q h = ap (λ l. l.max_string_len) q.limits ∙ h

  pub Truncates-pure : {A : Type 0} (P : A → Type 0) (a : A) → P a → Truncates P (pure a)
  unfolding pure
  Truncates-pure P a p = record { quiet = λ c h. Quiet-refl c; result = λ c h. p }

  pub Truncates->>= :
      {A B : Type 0} (P : A → Type 0) (Q : B → Type 0) (m : State (Collector F O) A)
      (f : A → State (Collector F O) B)
      → Truncates P m
      → ((a : A) → P a → Truncates Q (f a))
      → Truncates Q (m >>= f)
  unfolding ◌>>=◌
  Truncates->>= P Q m f tm tf = record {
    quiet = λ c h.
        let q = tm.quiet c h in
        Quiet-trans q ((tf (m c).0 (tm.result c h)).quiet (m c).1 (Quiet-HasLimit q h));
    result = λ c h. (tf (m c).0 (tm.result c h)).result (m c).1 (Quiet-HasLimit (tm.quiet c h) h);
  }

  -- A choice between two actions.
  pub Truncates-if :
      {A : Type 0} (P : A → Type 0) (b : Bool) (m k : State (Collector F O) A)
      → Truncates P m
      → Truncates P k
      → Truncates P (if b then m else k)
  Truncates-if P true m k tm tk = tm
  Truncates-if P _ m k tm tk = tk

  module _ (positive : 0 < n) where
    pub truncate-Truncates : (v : Text) → Truncates (IsShort n) (truncate v)
    truncate-Truncates v = record {
      quiet = λ c h. truncate-Quiet v c;
      result = λ c h. truncate-le n v c h positive;
    }

    module _ (rt : Runtime F O) where
      pub new_database_query-Truncates :
          (query : Text) (duration : ℤ) (connection : Text) (slow : Bool) (model file : Text)
          (line now : ℤ) (stack : List Frame)
          → Truncates
              (IsShortQuery n)
              (new_database_query rt query duration connection slow model file line now stack)
      unfolding new_database_query
      new_database_query-Truncates query duration connection slow model file line now stack =
          Truncates->>= _ _ _ _ (truncate-Truncates query) λ q hq.
            Truncates->>= _ _ _ _ (truncate-Truncates connection) λ k hk.
              Truncates->>= _ _ _ _ (truncate-Truncates _) λ m hm.
                Truncates->>= _ _ _ _ (truncate-Truncates _)
                  λ f hf. Truncates-pure _ _ (hq, hk, hm, hf)

      pub new_cache_query-Truncates :
          (cache_type key : Text) (duration now : ℤ)
          → Truncates (IsShortCacheQuery n) (new_cache_query rt cache_type key duration now)
      unfolding new_cache_query
      new_cache_query-Truncates cache_type key duration now =
          Truncates->>= _ _ _ _ (truncate-Truncates cache_type) λ t ht.
            Truncates->>= _ _ _ _ (truncate-Truncates key) λ k hk. Truncates-pure _ _ (ht, hk)
