-- ===== src/Memcache/Completion.antt =====
-- clockwork.go on top of storage/memcache/memcache.go: a completed request is found on the servers.
use go_clockwork.Prelude.{
  ◌≤◌, length, ℕ, zero, suc, ◌≡◌, ap, ◌∙◌, true, false, some, ◌∷◌, if_true, arith, Text,
  text_eq_iff, is_empty, ℤ, pos, negsuc, is_pos, Map, lookup, delete, take,
}
use go_clockwork.Runtime.{Runtime}
use go_clockwork.Metadata.{Metadata}
use go_clockwork.Storage.{ok, Codec, Decoder}
use go_clockwork.Backend.{found}
use go_clockwork.Collector.{Collector}
use go_clockwork.Collector.Snapshot.{get_metadata}
use go_clockwork.Service.{World, find_metadata, at}
use go_clockwork.Service.Requests.{complete_request, finish}
use go_clockwork.Service.Complete.{complete_request_found}
use go_clockwork.Memcache.{Client, Settings, req_key, store, get, memcache_storage}
use go_clockwork.Memcache.Laws.{IsHealthy, IsFaithful, IsId, IsMade}
use go_clockwork.Memcache.Spec.{put}
use go_clockwork.Memcache.Represents.{Represents, fetched-answer}
use go_clockwork.Memcache.Stores.{store-Represents}

lookup_head : {A : Type 0} (k : Text) (a : A) (m : Map A) → lookup k ((k, a) ∷ m) ≡ some a
unfolding lookup
lookup_head k a m = ground (arith, text_eq_iff k k)

lookup-put :
    {M : Type 0} (codec : Codec M) (view : M → M) (max : ℤ) (m : M) (es : Map M)
    → lookup (codec.id_of m) (put codec view max m es) ≡ some (view m)
lookup-put codec view (pos zero) m es = lookup_head (codec.id_of m) (view m) _
lookup-put codec view (pos (suc n)) m es =
    let id = codec.id_of m in
    let rest = delete id es in
    let positive : is_pos (pos (suc n)) ≡ true = ground arith in
    ap (lookup id) (if_true (is_pos (pos (suc n))) ((id, view m) ∷ take n rest) _ positive)
    ∙ lookup_head id (view m) (take n rest)
lookup-put codec view (negsuc n) m es = lookup_head (codec.id_of m) (view m) _

-- When an enabled service with memcached storage completes a request, on healthy servers that hold some
-- records, with settings as New makes them of a legal prefix and a time to live of at most thirty days,
-- and the metadata has an ASCII id whose key the client takes, can be encoded, and fits on the servers, as
-- does the index, then no error is returned and the metadata of the collector, with what the data sources
-- added, is found under its id as the encoding reads it back.
pub complete_request-memcache_storage :
    {F O S : Type 0} (rt : Runtime F O) (codec : Codec (Metadata F O))
    (decoder : Decoder (Metadata F O)) (client : Client S) (s : Settings)
    (view : Metadata F O → Metadata F O) (room p : ℕ) (status duration now : ℤ) (alloc : ℕ)
    (w : World F O S) (c : Collector F O) (payload : Text) (es : Map (Metadata F O))
    → IsHealthy client room
    → IsFaithful codec decoder view s room
    → IsMade s
    → Represents codec decoder client s view es w.stored
    → w.service.config.enabled ≡ true
    → w.service.storage ≡ some (memcache_storage codec decoder client s)
    → at p w.heap ≡ some c
    → let m = get_metadata rt (finish rt w.service.data_sources status duration now alloc c) in
      is_empty (codec.id_of m) ≡ false
      → IsId s (codec.id_of m)
      → codec.marshal m ≡ some payload
      → length payload ≤ room
      → let after = complete_request rt (some p) status duration now alloc w in
        (after.0 ≡ ok tt) × (find_metadata (codec.id_of m) after.1 ≡ ok (view m))
unfolding memcache_storage get
complete_request-memcache_storage rt codec decoder client s view room p status duration now alloc w
      c payload es healthy faithful made r enabled configured live named plain encoded fits =
    let m = get_metadata rt (finish rt w.service.data_sources status duration now alloc c) in
    let id = codec.id_of m in
    let (accepted, after) =
      store-Represents codec decoder client s view room healthy faithful made m payload es w.stored
        r named plain encoded fits in
    let servers = (store codec decoder client s (some m) w.stored).1 in
    complete_request_found rt p status duration now alloc w c
      (memcache_storage codec decoder client s) id (view m) enabled configured live accepted
      (fetched-answer codec decoder client s view id (client.get (req_key s id) servers)
          (lookup id (put codec view s.max_entries m es)) (after.records id plain)
        ∙ ap (found id) (lookup-put codec view s.max_entries m es))
