-- ===== src/Integrations/Recorded.antt =====
-- integrations/cache/cache.go: the wrapped cache answers like the cache alone, and what it records.
use go_clockwork.Prelude.{
  ℕ, zero, suc, ◌≡◌, refl, sym, ap, ◌∙◌, Bool, true, false, Option, none, some, List, [], ◌∷◌, ◌++◌,
  if◌then◌else◌, Text, codes,
}
use go_clockwork.Runtime.{Runtime}
use go_clockwork.Collector.{Collector}
use go_clockwork.Collector.Calls.{Call, run_calls, apply_call}
use go_clockwork.Service.{World, call_on, modify}
use go_clockwork.Integrations.Cache.{
  Cache, Timing, Operation, Reply, observe, observe_success, wrapped_get, wrapped_set,
  wrapped_delete, do_wrapped, run_wrapped,
}

modify-modify :
    {A : Type 0} (p : ℕ) (f g : A → A) (heap : List A)
    → modify p g (modify p f heap) ≡ modify p (λ a. g (f a)) heap
unfolding modify
modify-modify p f g [] = refl
modify-modify zero f g (a ∷ heap) = refl
modify-modify (suc p) f g (a ∷ heap) = ap (λ rest. a ∷ rest) (modify-modify p f g heap)

modify_same : {A : Type 0} (p : ℕ) (heap : List A) → modify p (λ a. a) heap ≡ heap
unfolding modify
modify_same p [] = refl
modify_same zero (a ∷ heap) = refl
modify_same (suc p) (a ∷ heap) = ap (λ rest. a ∷ rest) (modify_same p heap)

module _ {S V : Type 0} (cache : Cache S V) where
  -- An operation on the cache alone.
  unfoldable pub do_plain : Operation V → S → Reply V × S
  do_plain (Operation.gets key) s = let r = cache.get key s in (Reply.got r.0.0 r.0.1, r.1)
  do_plain (Operation.sets key value ttl) s =
      let r = cache.set key value ttl s in (Reply.set_done r.0, r.1)
  do_plain (Operation.deletes key) s = let r = cache.delete key s in (Reply.deleted r.0, r.1)

  unfoldable pub run_plain : List (Operation V × Timing) → S → List (Reply V) × S
  unfolding do_plain
  run_plain [] s = ([], s)
  run_plain ((op, timing) ∷ ops) s =
      let r = do_plain op s in let rest = run_plain ops r.1 in (r.0 ∷ rest.0, rest.1)

-- The name under which an answered operation is recorded, and its key: a hit or a miss for each `Get`, and
-- the others only if they did not fail.
unfoldable pub event_of : {V : Type 0} → Operation V → Reply V → Option (Text × Text)
event_of (Operation.gets key) (Reply.got value true) = some (codes "hit", key)
event_of (Operation.gets key) (Reply.got value false) = some (codes "miss", key)
event_of (Operation.sets key value ttl) (Reply.set_done failed) = elim failed [
  | none ↦ some (codes "write", key)
  | some error ↦ none
]
event_of (Operation.deletes key) (Reply.deleted failed) = elim failed [
  | none ↦ some (codes "delete", key)
  | some error ↦ none
]
event_of _ _ = none

abbrev call_of : {F O : Type 0} → Timing → Option (Text × Text) → List (Call F O)
call_of timing none = []
call_of timing (some (cache_type, key)) =
    Call.adds_cache_query cache_type key timing.duration timing.now ∷ []

-- The calls that record a sequence of operations with their answers.
unfoldable pub recorded :
    {F O V : Type 0} → List (Operation V × Timing) → List (Reply V) → List (Call F O)
unfolding event_of
recorded [] replies = []
recorded (op ∷ ops) [] = []
recorded ((op, timing) ∷ ops) (reply ∷ replies) =
    call_of timing (event_of op reply) ++ recorded ops replies

module _ {F O : Type 0} (rt : Runtime F O) where
  run_calls-append :
      (calls more : List (Call F O)) (c : Collector F O)
      → run_calls rt (calls ++ more) c ≡ run_calls rt more (run_calls rt calls c)
  unfolding run_calls
  run_calls-append [] more c = refl
  run_calls-append (call ∷ calls) more c = run_calls-append calls more (apply_call rt call c)

module _ {F O W : Type 0} (rt : Runtime F O) where
  -- Calls on the collector of a context, if there is one.
  unfoldable pub call_in : Option ℕ → List (Call F O) → World F O W → World F O W
  call_in none calls w = w
  call_in (some p) calls w = call_on p (run_calls rt calls) w

  call_in-nil : (context : Option ℕ) (w : World F O W) → call_in context [] w ≡ w
  unfolding call_in run_calls
  call_in-nil none w = refl
  call_in-nil (some p) w = ap (λ heap. record w { heap = heap }) (modify_same p w.heap)

  call_in-append :
      (context : Option ℕ) (calls more : List (Call F O)) (w : World F O W)
      → call_in context more (call_in context calls w) ≡ call_in context (calls ++ more) w
  unfolding call_in
  call_in-append none calls more w = refl
  call_in-append (some p) calls more w =
      ap (λ heap. record w { heap = heap })
        (modify-modify p (run_calls rt calls) (run_calls rt more) w.heap
          ∙ ap (λ f. modify p f w.heap) (λ i c. sym (run_calls-append rt calls more c) i))

module _ {F O W : Type 0} (rt : Runtime F O) (context : Option ℕ) (key : Text) (timing : Timing)
    (w : World F O W) where
  observe_lem :
      (cache_type : Text)
      → observe rt context cache_type key timing w
        ≡ call_in rt context (call_of timing (some (cache_type, key))) w
  unfolding observe call_in run_calls apply_call
  observe_lem cache_type =
      elim context
        as (λ k.
          observe rt k cache_type key timing w
          ≡ call_in rt k (call_of timing (some (cache_type, key))) w) [
            | none ↦ refl
            | some p ↦ refl
          ]

  observe_get :
      {V : Type 0} (value : V) (found : Bool)
      → observe rt context (if found then codes "hit" else codes "miss") key timing w
        ≡ call_in rt context
            (call_of timing (event_of (Operation.gets key) (Reply.got value found)))
            w
  unfolding event_of
  observe_get value true = observe_lem (codes "hit")
  observe_get value false = observe_lem (codes "miss")

  -- Only what succeeded is recorded.
  observe_success_lem :
      (failed : Option Text) (cache_type : Text)
      → observe_success rt failed context cache_type key timing w
        ≡ call_in rt context
            (call_of timing (elim failed [ none ↦ some (cache_type, key) | some error ↦ none ]))
            w
  unfolding observe_success
  observe_success_lem none cache_type = observe_lem cache_type
  observe_success_lem (some error) cache_type = sym (call_in-nil rt context w)

module _ {F O S V W : Type 0} (rt : Runtime F O) (cache : Cache S V) (context : Option ℕ) where
  do_wrapped_lem :
      (op : Operation V) (timing : Timing) (s : S) (w : World F O W)
      → let plain = do_plain cache op s in
        do_wrapped rt cache context op timing s w
        ≡ (plain.0, plain.1, call_in rt context (call_of timing (event_of op plain.0)) w)
  unfolding do_wrapped wrapped_get wrapped_set wrapped_delete do_plain event_of
  do_wrapped_lem (Operation.gets key) timing s w =
      let r = cache.get key s in
      ap (λ v. (Reply.got r.0.0 r.0.1, r.1, v)) (observe_get rt context key timing w r.0.0 r.0.1)
  do_wrapped_lem (Operation.sets key value ttl) timing s w =
      let r = cache.set key value ttl s in
      ap (λ v. (Reply.set_done r.0, r.1, v))
        (observe_success_lem rt context key timing w r.0 (codes "write"))
  do_wrapped_lem (Operation.deletes key) timing s w =
      let r = cache.delete key s in
      ap (λ v. (Reply.deleted r.0, r.1, v))
        (observe_success_lem rt context key timing w r.0 (codes "delete"))

  -- Any sequence of operations on a wrapped cache gives the answers of the cache alone and leaves it in
  -- the same state. The collector of the context, if there is one, has recorded each `Get` as a hit or a
  -- miss and each write and deletion that did not fail, in order, and nothing else of the service changes.
  pub run_wrapped-run_plain :
      (ops : List (Operation V × Timing)) (s : S) (w : World F O W)
      → let plain = run_plain cache ops s in
        run_wrapped rt cache context ops s w
        ≡ (plain.0, plain.1, call_in rt context (recorded ops plain.0) w)
  unfolding run_wrapped run_plain recorded
  run_wrapped-run_plain [] s w = ap (λ v. ([], s, v)) (sym (call_in-nil rt context w))
  run_wrapped-run_plain ((op, timing) ∷ ops) s w =
      let plain = do_plain cache op s in
      let w' = call_in rt context (call_of timing (event_of op plain.0)) w in
      ap
        (λ (r : Reply V × S × World F O W).
          let rest = run_wrapped rt cache context ops r.1 r.2 in (r.0 ∷ rest.0, rest.1, rest.2))
        (do_wrapped_lem op timing s w)
      ∙ ap (λ (rest : List (Reply V) × S × World F O W). (plain.0 ∷ rest.0, rest.1, rest.2))
          (run_wrapped-run_plain ops plain.1 w')
      ∙ ap (λ v. (plain.0 ∷ (run_plain cache ops plain.1).0, (run_plain cache ops plain.1).1, v))
          (call_in-append rt context (call_of timing (event_of op plain.0))
            (recorded ops (run_plain cache ops plain.1).0) w)
