-- ===== src/Tests/RedisServer.antt =====
-- storage/redis/redis.go on a small server.
use go_clockwork.Prelude.{
  Bool-cases, inl, inr, ◌≡◌, refl, ap, ◌∙◌, false, Option, none, some, List, [], ◌∷◌, arith, Text,
  codes, text_eq, text_eq_iff, pos, Map, lookup, insert, lookup-insert,
}
use go_clockwork.Storage.{ok}
use go_clockwork.Backend.{stores, lists, stored, listed}
use go_clockwork.Redis
use go_clockwork.Redis.{Command, sets, pushes, trims, expires}
use go_clockwork.Redis.Laws.{
  Item, absent, item_after, item_after_all, succeeds, fetched, ranged, IsHealthy,
}
use go_clockwork.Redis.Refinement.{redis_run-spec_run}
use go_clockwork.Tests.Remote.{note, view, codec, decoder, faithful, calls}

abbrev contents : Option Item → Item
contents none = absent
contents (some x) = x

abbrev item_at : Text → Map Item → Item
item_at k server = contents (lookup k server)

-- The key that a command changes.
abbrev key : Command → Text
key (sets k v ttl) = k
key (pushes k item) = k
key (trims k start stop) = k
key (expires k ttl) = k

abbrev execute : Command → Map Item → Map Item
execute c server = insert (key c) (item_after (key c) c (item_at (key c) server)) server

abbrev execute_all : List Command → Map Item → Map Item
execute_all [] server = server
execute_all (c ∷ cs) server = execute_all cs (execute c server)

abbrev redis : Redis.Client (Map Item)
redis = record {
  exec = λ cs server. (succeeds (λ k. item_at k server) cs, execute_all cs server);
  get = λ k server. fetched (item_at k server);
  lrange = λ k start stop server. ranged start stop (item_at k server);
}

item_after_other :
    (k : Text) (c : Command) (x : Item) → text_eq (key c) k ≡ false → item_after k c x ≡ x
item_after_other k (sets j v ttl) x other = rw other refl
item_after_other k (pushes j item) x other = rw other refl
item_after_other k (trims j start stop) x other = rw other refl
item_after_other k (expires j ttl) x other = rw other refl

item_at-execute :
    (k : Text) (c : Command) (server : Map Item)
    → item_at k (execute c server) ≡ item_after k c (item_at k server)
item_at-execute k c server = elim (Bool-cases (text_eq (key c) k)) [
  | inl same ↦
      let here : key c ≡ k = ground (arith, text_eq_iff (key c) k) in
      ap contents (lookup-insert (key c) k (item_after (key c) c (item_at (key c) server)) server)
      ∙ rw (same, here) refl
  | inr other ↦
      ap contents (lookup-insert (key c) k (item_after (key c) c (item_at (key c) server)) server)
      ∙ rw (other, item_after_other k c (item_at k server) other) refl
]

item_at-execute_all :
    (k : Text) (cs : List Command) (server : Map Item)
    → item_at k (execute_all cs server) ≡ item_after_all k cs (item_at k server)
item_at-execute_all k [] server = refl
item_at-execute_all k (c ∷ cs) server =
    item_at-execute_all k cs (execute c server)
    ∙ ap (item_after_all k cs) (item_at-execute k c server)

redis-IsHealthy : IsHealthy redis item_at
redis-IsHealthy = record {
  accepts = λ cs server. refl;
  items = item_at-execute_all;
  get = λ k server. refl;
  lrange = λ k start stop server. refl;
}

abbrev redis_settings : Redis.Settings
redis_settings = record {
  prefix = codes "x";
  index_key = codes "x:index";
  max_entries = pos 2;
  ttl = pos 60;
}

-- An id that is stored twice is listed twice.
redis_replies :
    (Redis.Spec.run codec decoder redis redis_settings
      (stores (some note) ∷ stores (some note) ∷ lists (pos 0) ∷ [])
      []).0
    ≡ stored (ok tt) ∷ stored (ok tt) ∷ listed (ok (note ∷ note ∷ [])) ∷ []
unfolding Redis.Spec.run Redis.Spec.step Redis.store Redis.store_payload Redis.pipeline Redis.list
    Redis.listed_ids Redis.list_limit Redis.collect Redis.readable text_eq lookup insert
redis_replies = refl

redis_run-spec_run_example :
    (Redis.Spec.run codec decoder redis redis_settings calls []).0
    ≡ (Redis.Spec.spec_run codec view (pos 2) calls []).0
unfolding lookup
redis_run-spec_run_example =
    redis_run-spec_run codec decoder redis redis_settings view item_at [] calls redis-IsHealthy
      (λ m payload h. faithful.unmarshal m payload h) (record { index_key = refl; ttl = refl }) refl
      (λ k. refl)
