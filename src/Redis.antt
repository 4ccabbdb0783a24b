-- ===== src/Redis.antt =====
-- storage/redis/redis.go: the storage on a Redis server. The client is outside the program: it is a
-- record of the calls that the code makes, over a state that stands for the server. A pipeline is the
-- list of its commands, which `Exec` sends.
pub mod Spec
pub mod Laws
pub mod Refinement
use go_clockwork.Prelude.{
  ℕ, ◌-◌, Bool, Option, none, some, List, [], ◌∷◌, ◌++◌, if◌then◌else◌, Text, codes, is_empty,
  trim_space, ℤ, pos, is_pos, pos_part,
}
use go_clockwork.Backend.{Fetch, hit, miss, failed}
use go_clockwork.Storage.{Error, Result, ok, err, Codec, Decoder, Storage}

-- The commands of the pipeline. The bounds of a trim are not negative in the program.
pub data Command : Type 0 where
  sets : Text → Text → ℤ → Command
  pushes : Text → Text → Command
  trims : Text → ℕ → ℕ → Command
  expires : Text → ℤ → Command

-- `redis.Client`: `Exec` of a pipeline (`true` is a nil error), `Get` and `LRange`.
pub record Client (S : Type 0) : Type 0 where
  pub exec : List Command → S → Bool × S
  pub get : Text → S → Fetch
  pub lrange : Text → ℕ → ℕ → S → Option (List Text)

-- `Config`, without what only the client reads.
pub record Config : Type 0 where
  pub endpoint : Text
  pub prefix : Text
  pub ttl : ℤ
  pub max_entries : ℤ

-- `Storage`, without its client.
pub record Settings : Type 0 where
  pub prefix : Text
  pub index_key : Text
  pub max_entries : ℤ
  pub ttl : ℤ

-- An hour, in nanoseconds.
abbrev pub hour : ℤ
hour = pos 3_600_000_000_000

-- `New`
unfoldable pub new_redis : Config → Result Settings
unfolding trim_space
new_redis cfg =
    let given = trim_space cfg.prefix in
    let prefix = if is_empty given then codes "clockwork" else given in
    if is_empty (trim_space cfg.endpoint)
    then err Error.endpoint_required
    else ok (record {
      prefix = prefix;
      index_key = prefix ++ codes ":index";
      max_entries = cfg.max_entries;
      ttl = if is_pos cfg.ttl then cfg.ttl else hour;
    })

-- `reqKey`
abbrev pub req_key : Settings → Text → Text
req_key s id = s.prefix ++ (codes ":req:" ++ id)

-- The pipeline of `Store`.
unfoldable pub pipeline : Settings → Text → Text → List Command
pipeline s id payload =
    let rest = expires s.index_key s.ttl ∷ [] in
    sets (req_key s id) payload s.ttl
    ∷ pushes s.index_key id
    ∷ (if is_pos s.max_entries
        then trims s.index_key 0 (pos_part s.max_entries - 1) ∷ rest
        else rest)

module _ {M S : Type 0} (codec : Codec M) (decoder : Decoder M) (client : Client S)
    (s : Settings) where
  -- `Store` behind `json.Marshal`.
  unfoldable pub store_payload : M → Option Text → S → Result (Unit {0}) × S
  store_payload m none server = (err Error.marshal_metadata, server)
  store_payload m (some payload) server =
      let r = client.exec (pipeline s (codec.id_of m) payload) server in
      (if r.0 then ok tt else err (Error.client_failed (codes "redis store metadata")), r.1)

  -- `Store`
  unfoldable pub store : Option M → S → Result (Unit {0}) × S
  unfolding store_payload
  store none server = (err Error.metadata_nil, server)
  store (some m) server =
      if is_empty (codec.id_of m)
      then (err Error.metadata_id_empty, server)
      else store_payload m (codec.marshal m) server

  -- `Get` behind the client.
  unfoldable pub decode_metadata : Option M → Result M
  decode_metadata none = err Error.unmarshal_metadata
  decode_metadata (some m) = ok m

  unfoldable pub fetched_metadata : Text → Fetch → Result M
  unfolding decode_metadata
  fetched_metadata id miss = err (Error.metadata_not_found id)
  fetched_metadata id failed = err (Error.client_failed (codes "redis get metadata"))
  fetched_metadata id (hit value) = decode_metadata (decoder.unmarshal value)

  -- `Get`
  unfoldable pub get : Text → S → Result M
  unfolding fetched_metadata
  get id server = fetched_metadata id (client.get (req_key s id) server)

  -- The loop of `List`: a record that cannot be fetched or decoded is passed over.
  unfoldable pub readable : Fetch → Option M
  readable (hit value) = decoder.unmarshal value
  readable miss = none
  readable failed = none

  unfoldable pub collect : S → List Text → List M
  unfolding readable
  collect server [] = []
  collect server (id ∷ ids) =
      let rest = collect server ids in
      elim (readable (client.get (req_key s id) server)) [ none ↦ rest | some m ↦ m ∷ rest ]

  -- The limit of `List`.
  unfoldable pub list_limit : ℤ → ℕ
  list_limit limit =
      if is_pos limit
      then pos_part limit
      else (if is_pos s.max_entries then pos_part s.max_entries else 50)

  unfoldable pub listed_ids : Option (List Text) → S → Result (List M)
  unfolding collect
  listed_ids none server = err (Error.client_failed (codes "redis list index"))
  listed_ids (some ids) server = ok (collect server ids)

  -- `List`
  unfoldable pub list : ℤ → S → Result (List M)
  unfolding list_limit listed_ids
  list limit server = listed_ids (client.lrange s.index_key 0 (list_limit limit - 1) server) server

  -- `Cleanup`: nothing, as the server drops what is too old.
  unfoldable pub cleanup : S → Result (Unit {0}) × S
  cleanup server = (ok tt, server)

  -- The methods as a backend of the service.
  unfoldable pub redis_storage : Storage S M
  unfolding store get list cleanup
  redis_storage = record {
    store = λ now m server. store m server;
    get = get;
    list = list;
    cleanup = λ now max_age server. cleanup server;
  }
