-- ===== src/Tests/Completing.antt =====
-- clockwork.go on top of storage/memcache/memcache.go on a small server.
use go_clockwork.Prelude.{◌≡◌, refl, some, [], ◌∷◌, arith, Text, codes, pos, ℤ, Map, lookup}
use go_clockwork.Config.{default_config, normalize}
use go_clockwork.Metadata.{Metadata}
use go_clockwork.Storage.{ok, Codec, Decoder}
use go_clockwork.Collector.{Collector, new_collector, limits_from_config}
use go_clockwork.Collector.Snapshot.{get_metadata}
use go_clockwork.Service.{World, new_clockwork, find_metadata, at}
use go_clockwork.Service.Requests.{complete_request}
use go_clockwork.Memcache.{memcache_storage, load_index, fetched_index}
use go_clockwork.Memcache.Laws.{IsFaithful}
use go_clockwork.Memcache.Completion.{complete_request-memcache_storage}
use go_clockwork.Tests.Remote.{
  join, split, servers, servers-IsHealthy, settings, settings-IsMade, ids_settings, legal_a,
}
use go_clockwork.Tests.Sample.{machine}

abbrev request : Collector ℤ (Unit {0})
request =
    new_collector (codes "id") (pos 1) 0 (codes "GET") (codes "/")
      (limits_from_config default_config)

-- What is read back of every record.
abbrev blank : Metadata ℤ (Unit {0})
blank = get_metadata machine request

abbrev codec : Codec (Metadata ℤ (Unit {0}))
codec = record { id_of = λ m. codes "a"; marshal = λ m. some (codes "n") }

abbrev decoder : Decoder (Metadata ℤ (Unit {0}))
decoder = record {
  unmarshal = λ t. some blank;
  marshal_ids = λ ids. some (join ids);
  unmarshal_ids = λ t. some (split [] t);
}

faithful : IsFaithful codec decoder (λ m. blank) settings 300
faithful = record { marshal_ids = ids_settings; unmarshal = λ m payload h. refl }

abbrev world : World ℤ (Unit {0}) (Map Text)
world = record {
  service = new_clockwork default_config (some (memcache_storage codec decoder servers settings));
  heap = request ∷ [];
  stored = [];
}

complete_request-memcache_storage_example :
    let after = complete_request machine (some 0) (pos 200) (pos 5) (pos 6) 0 world in
    (after.0 ≡ ok tt) × (find_metadata (codes "a") after.1 ≡ ok blank)
unfolding new_clockwork normalize default_config at lookup load_index fetched_index
complete_request-memcache_storage_example =
    complete_request-memcache_storage machine codec decoder servers settings (λ m. blank) 300 0
      (pos 200) (pos 5) (pos 6) 0 world request (codes "n") [] servers-IsHealthy faithful
      settings-IsMade (record { index = refl; records = λ k hk. refl; unique = tt; ids = tt }) refl
      refl refl refl legal_a refl (omega arith)
