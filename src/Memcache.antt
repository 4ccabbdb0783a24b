-- ===== src/Memcache.antt =====
-- storage/memcache/memcache.go: the storage on memcached servers. The client is outside the program: it
-- is a record of the three calls that the code makes, over a state that stands for the servers. The
-- mutex makes a Store one step.
pub mod Laws
pub mod Spec
pub mod Index
pub mod Represents
pub mod Stores
pub mod Refinement
pub mod Completion
use go_clockwork.Prelude.{
  ℕ, Bool, true, false, Option, none, some, List, [], ◌∷◌, ◌++◌, if◌then◌else◌, length, take, drop,
  Text, codes, text_eq, is_empty, trim_space, ℤ, pos, is_pos, ltb_ℤ, pos_part,
}
use go_clockwork.Backend.{Fetch, hit, miss, failed}
use go_clockwork.Storage.{Error, Result, ok, err, Codec, Decoder, Storage}

-- `memcache.Client`; `true` is a nil error.
pub record Client (S : Type 0) : Type 0 where
  pub get : Text → S → Fetch
  pub set : Text → Text → ℤ → S → Bool × S
  pub delete : Text → S → Bool × S

-- `Config`; the TTL is in nanoseconds.
pub record Config : Type 0 where
  pub endpoints : List Text
  pub prefix : Text
  pub ttl : ℤ
  pub max_entries : ℤ

-- `Storage`, without its client and its mutex.
pub record Settings : Type 0 where
  pub prefix : Text
  pub index_key : Text
  pub max_entries : ℤ
  pub ttl_seconds : ℤ

-- The loop over the endpoints in `New`.
unfoldable pub trimmed_endpoints : List Text → List Text
trimmed_endpoints [] = []
trimmed_endpoints (endpoint ∷ endpoints) =
    let rest = trimmed_endpoints endpoints in
    if is_empty (trim_space endpoint) then rest else trim_space endpoint ∷ rest

-- `New`; `seconds` is `int32(d.Seconds())`, which goes by way of float64.
unfoldable pub new_memcache : (ℤ → ℤ) → Config → Result Settings
unfolding trimmed_endpoints trim_space
new_memcache seconds cfg =
    let ttl = seconds cfg.ttl in
    let given = trim_space cfg.prefix in
    let prefix = if is_empty given then codes "clockwork" else given in
    if is_empty (trimmed_endpoints cfg.endpoints)
    then err Error.endpoint_required
    else ok (record {
      prefix = prefix;
      index_key = prefix ++ codes ":index";
      max_entries = cfg.max_entries;
      ttl_seconds = if is_pos ttl then ttl else pos 3600;
    })

-- `reqKey`
abbrev pub req_key : Settings → Text → Text
req_key s id = s.prefix ++ (codes ":req:" ++ id)

-- The loop of `prependUnique`.
abbrev pub others : Text → List Text → List Text
others id [] = []
others id (v ∷ ids) = let rest = others id ids in if text_eq v id then rest else v ∷ rest

-- `prependUnique`, with the id first.
abbrev pub prepend_unique : Text → List Text → List Text
prepend_unique id ids = id ∷ others id ids

-- `ids[:maxEntries]` and `ids[maxEntries:]`, if there are more ids than that.
unfoldable pub kept_ids : ℤ → List Text → List Text
kept_ids max ids = if is_pos max then take (pos_part max) ids else ids

unfoldable pub evicted_ids : ℤ → List Text → List Text
evicted_ids max ids = if is_pos max then drop (pos_part max) ids else []

module _ {M S : Type 0} (codec : Codec M) (decoder : Decoder M) (client : Client S)
    (s : Settings) where
  -- `loadIndexLocked`
  unfoldable pub decode_index : Option (List Text) → Result (List Text)
  decode_index none = err Error.unmarshal_index
  decode_index (some ids) = ok ids

  unfoldable pub fetched_index : Fetch → Result (List Text)
  unfolding decode_index
  fetched_index miss = ok []
  fetched_index failed = err (Error.client_failed (codes "memcache get index"))
  fetched_index (hit value) = decode_index (decoder.unmarshal_ids value)

  unfoldable pub load_index : S → Result (List Text)
  unfolding fetched_index
  load_index servers = fetched_index (client.get s.index_key servers)

  -- `saveIndexLocked`
  unfoldable pub save_encoded : Option Text → S → Result (Unit {0}) × S
  save_encoded none servers = (err Error.marshal_index, servers)
  save_encoded (some payload) servers =
      let r = client.set s.index_key payload s.ttl_seconds servers in
      (if r.0 then ok tt else err (Error.client_failed (codes "memcache set index")), r.1)

  unfoldable pub save_index : List Text → S → Result (Unit {0}) × S
  unfolding save_encoded
  save_index ids servers = save_encoded (decoder.marshal_ids ids) servers

  -- The loop that deletes the evicted records; the errors are ignored.
  unfoldable pub delete_evicted : List Text → S → S
  delete_evicted [] servers = servers
  delete_evicted (id ∷ ids) servers = delete_evicted ids (client.delete (req_key s id) servers).1

  -- `Store` behind `saveIndexLocked`, and behind `loadIndexLocked`.
  unfoldable pub store_saved : List Text → Result (Unit {0}) × S → Result (Unit {0}) × S
  unfolding delete_evicted
  store_saved evicted (err e, servers) = (err e, servers)
  store_saved evicted (ok u, servers) = (ok tt, delete_evicted evicted servers)

  unfoldable pub store_indexed : Text → Result (List Text) → S → Result (Unit {0}) × S
  unfolding save_index store_saved kept_ids evicted_ids
  store_indexed id (err e) servers = (err e, servers)
  store_indexed id (ok ids) servers =
      let all = prepend_unique id ids in
      store_saved (evicted_ids s.max_entries all) (save_index (kept_ids s.max_entries all) servers)

  -- `Store` behind `json.Marshal`.
  unfoldable pub store_payload : M → Option Text → S → Result (Unit {0}) × S
  unfolding load_index store_indexed
  store_payload m none servers = (err Error.marshal_metadata, servers)
  store_payload m (some payload) servers =
      let r = client.set (req_key s (codec.id_of m)) payload s.ttl_seconds servers in
      let stored = store_indexed (codec.id_of m) (load_index r.1) r.1 in
      if r.0 then stored else (err (Error.client_failed (codes "memcache set metadata")), r.1)

  -- `Store`
  unfoldable pub store : Option M → S → Result (Unit {0}) × S
  unfolding store_payload
  store none servers = (err Error.metadata_nil, servers)
  store (some m) servers =
      if is_empty (codec.id_of m)
      then (err Error.metadata_id_empty, servers)
      else store_payload m (codec.marshal m) servers

  -- `Get` behind the client.
  unfoldable pub decode_metadata : Option M → Result M
  decode_metadata none = err Error.unmarshal_metadata
  decode_metadata (some m) = ok m

  unfoldable pub fetched_metadata : Text → Fetch → Result M
  unfolding decode_metadata
  fetched_metadata id miss = err (Error.metadata_not_found id)
  fetched_metadata id failed = err (Error.client_failed (codes "memcache get metadata"))
  fetched_metadata id (hit value) = decode_metadata (decoder.unmarshal value)

  -- `Get`
  unfoldable pub get : Text → S → Result M
  unfolding fetched_metadata
  get id servers = fetched_metadata id (client.get (req_key s id) servers)

  -- The loop of `List`: a record that cannot be fetched or decoded is passed over.
  unfoldable pub readable : Fetch → Option M
  readable (hit value) = decoder.unmarshal value
  readable miss = none
  readable failed = none

  unfoldable pub collect : S → List Text → List M
  unfolding readable
  collect servers [] = []
  collect servers (id ∷ ids) =
      let rest = collect servers ids in
      elim (readable (client.get (req_key s id) servers)) [ none ↦ rest | some m ↦ m ∷ rest ]

  -- How many ids `List` visits.
  unfoldable pub listed_ids : ℤ → List Text → List Text
  listed_ids limit ids =
      if is_pos limit
      then (if ltb_ℤ (pos (length ids)) limit then ids else take (pos_part limit) ids)
      else ids

  -- `List` behind `loadIndexLocked`, and `List`.
  unfoldable pub list_indexed : ℤ → Result (List Text) → S → Result (List M)
  unfolding collect listed_ids
  list_indexed limit (err e) servers = err e
  list_indexed limit (ok ids) servers = ok (collect servers (listed_ids limit ids))

  unfoldable pub list : ℤ → S → Result (List M)
  unfolding load_index list_indexed
  list limit servers = list_indexed limit (load_index servers) servers

  -- `Cleanup`: nothing, as the servers drop what is too old.
  unfoldable pub cleanup : S → Result (Unit {0}) × S
  cleanup servers = (ok tt, servers)

  -- The methods as a backend of the service.
  unfoldable pub memcache_storage : Storage S M
  unfolding store get list cleanup
  memcache_storage = record {
    store = λ now m servers. store m servers;
    get = get;
    list = list;
    cleanup = λ now max_age servers. cleanup servers;
  }
