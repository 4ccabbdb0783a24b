-- ===== src/Integrations/Cache.antt =====
-- integrations/cache/cache.go: a cache that records its operations with the collector of the context. The
-- wrapped cache is a parameter, with a state of its own; an error is the text of it.
use go_clockwork.Prelude.{ℕ, Bool, Option, none, some, List, [], ◌∷◌, if◌then◌else◌, Text, codes, ℤ}
use go_clockwork.Runtime.{Runtime}
use go_clockwork.Collector.Methods.{add_cache_query}
use go_clockwork.Service.{World, call_on}

-- `Cache`: `Get` gives a value and whether it was found.
pub record Cache (S V : Type 0) : Type 0 where
  pub get : Text → S → (V × Bool) × S
  pub set : Text → V → ℤ → S → Option Text × S
  pub delete : Text → S → Option Text × S

-- How long an operation took, and when it is recorded.
pub record Timing : Type 0 where
  pub duration : ℤ
  pub now : ℤ

-- The operations of a cache, and what they answer.
pub data Operation (V : Type 0) : Type 0 where
  gets : Text → Operation V
  sets : Text → V → ℤ → Operation V
  deletes : Text → Operation V

pub data Reply (V : Type 0) : Type 0 where
  got : V → Bool → Reply V
  set_done : Option Text → Reply V
  deleted : Option Text → Reply V

module _ {F O W : Type 0} (rt : Runtime F O) where
  -- `AddCacheQuery` on the collector of the context, if there is one.
  unfoldable pub observe : Option ℕ → Text → Text → Timing → World F O W → World F O W
  observe none cache_type key timing w = w
  observe (some p) cache_type key timing w =
      call_on p (add_cache_query rt cache_type key timing.duration timing.now) w

  -- A failed operation is not recorded.
  unfoldable pub observe_success :
      Option Text → Option ℕ → Text → Text → Timing → World F O W → World F O W
  unfolding observe
  observe_success none context cache_type key timing w = observe context cache_type key timing w
  observe_success (some error) context cache_type key timing w = w

-- `Wrapper`, made by `Wrap` from a cache that is not nil. A method takes the collector of its context, the
-- state of the cache and the world.
module _ {F O S V W : Type 0} (rt : Runtime F O) (underlying : Cache S V) where
  unfoldable pub wrapped_get :
      Option ℕ → Text → Timing → S → World F O W → (V × Bool) × S × World F O W
  unfolding observe
  wrapped_get context key timing s w =
      let r = underlying.get key s in
      (r.0, r.1, observe rt context (if r.0.1 then codes "hit" else codes "miss") key timing w)

  unfoldable pub wrapped_set :
      Option ℕ → Text → V → ℤ → Timing → S → World F O W → Option Text × S × World F O W
  unfolding observe_success
  wrapped_set context key value ttl timing s w =
      let r = underlying.set key value ttl s in
      (r.0, r.1, observe_success rt r.0 context (codes "write") key timing w)

  unfoldable pub wrapped_delete :
      Option ℕ → Text → Timing → S → World F O W → Option Text × S × World F O W
  unfolding observe_success
  wrapped_delete context key timing s w =
      let r = underlying.delete key s in
      (r.0, r.1, observe_success rt r.0 context (codes "delete") key timing w)

  -- An operation on the wrapped cache, and on the cache alone.
  unfoldable pub do_wrapped :
      Option ℕ → Operation V → Timing → S → World F O W → Reply V × S × World F O W
  unfolding wrapped_get wrapped_set wrapped_delete
  do_wrapped context (Operation.gets key) timing s w =
      let r = wrapped_get context key timing s w in (Reply.got r.0.0 r.0.1, r.1, r.2)
  do_wrapped context (Operation.sets key value ttl) timing s w =
      let r = wrapped_set context key value ttl timing s w in (Reply.set_done r.0, r.1, r.2)
  do_wrapped context (Operation.deletes key) timing s w =
      let r = wrapped_delete context key timing s w in (Reply.deleted r.0, r.1, r.2)

  -- A sequence of operations, first one first.
  unfoldable pub run_wrapped :
      Option ℕ → List (Operation V × Timing) → S → World F O W → List (Reply V) × S × World F O W
  unfolding do_wrapped
  run_wrapped context [] s w = ([], s, w)
  run_wrapped context ((op, timing) ∷ ops) s w =
      let r = do_wrapped context op timing s w in
      let rest = run_wrapped context ops r.1 r.2 in (r.0 ∷ rest.0, rest.1, rest.2)
