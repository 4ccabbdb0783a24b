-- ===== src/Middleware/Completion.antt =====
-- middleware/http/http.go: what a captured request leaves in the storage, and the way back to it by the
-- metadata route.
use go_clockwork.Prelude.{
  ℕ, ◌+◌, ◌<◌, ◌≤◌, ◌^◌, ◌≡◌, ◌≢◌, refl, sym, ap, subst, ◌∙◌, true, false, Option, none, some, [],
  length, Text, codes, lookup, ℤ, both_branches, if_true, if_false, not, ◌||◌,
}
use go_clockwork.Runtime.{Runtime}
use go_clockwork.Metadata.{Metadata}
use go_clockwork.Storage.{Storage, Result, ok, Codec}
use go_clockwork.MemoryStorage.{InMemoryStorage}
use go_clockwork.MemoryStorage.Store.{IsValid}
use go_clockwork.Collector.{Collector}
use go_clockwork.Collector.Snapshot.{get_metadata}
use go_clockwork.Helpers.{
  Header, should_skip_path, should_capture, canonical_header_key, new_request_capture,
}
use go_clockwork.Service.{
  World, is_enabled, allocate_collector, save_metadata, save_in, find_metadata, unregister_trace,
  call_on, at,
}
use go_clockwork.Service.Requests.{complete_request, finish}
use go_clockwork.Service.Complete.{
  memory_storage, unregister_trace-SameBackend, complete_request_lem,
  complete_request-find_metadata,
}
use go_clockwork.Middleware.{Incoming, Reads, Writer, Handler}
use go_clockwork.Middleware.Http.{http_handled, http_captured, http_serve}
use go_clockwork.Middleware.Lookup.{answer_of, shown, http_metadata}
use go_clockwork.Middleware.Paths.{IsPlain, metadata_path, http_metadata-metadata_path}

module _ {F O S : Type 0} (rt : Runtime F O) where
  save_in-config :
      (now : ℤ) (m : Option (Metadata F O)) (storage : Option (Storage S (Metadata F O)))
      (w : World F O S)
      → (save_in now m storage w).1.service.config ≡ w.service.config
  unfolding save_in
  save_in-config now m none w = refl
  save_in-config now none (some storage) w = refl
  save_in-config now (some m) (some storage) w = refl

  save_metadata-config :
      (now : ℤ) (m : Option (Metadata F O)) (w : World F O S)
      → (save_metadata now m w).1.service.config ≡ w.service.config
  unfolding save_metadata
  save_metadata-config now m w =
      both_branches (λ (r : Result (Unit {0}) × World F O S). r.1.service.config ≡ w.service.config)
        (is_enabled w) (save_in-config now m w.service.storage w) refl

  complete_request-config :
      (p : ℕ) (status duration now : ℤ) (alloc : ℕ) (w : World F O S) (c : Collector F O)
      → at p w.heap ≡ some c
      → (complete_request rt (some p) status duration now alloc w).1.service.config
        ≡ w.service.config
  complete_request-config p status duration now alloc w c found =
      let f = finish rt w.service.data_sources status duration now alloc in
      ap (λ r. r.1.service.config) (complete_request_lem rt p status duration now alloc w c found)
      ∙ save_metadata-config now (some (get_metadata rt (f c)))
          (unregister_trace (f c).trace_id (call_on p f w))
      ∙ (unregister_trace-SameBackend (f c).trace_id (call_on p f w)).config

  new_request_capture-asked :
      (req : Incoming) (reads : Reads) (w : World F O S)
      → is_enabled w ≡ true
      → should_skip_path req.path ≡ false
      → should_capture req.headers w.service.config.header_name ≡ true
      → let made = allocate_collector reads.id reads.start reads.start_alloc req.method req.uri w in
        new_request_capture req.method req.path req.uri req.headers reads.id reads.start
          reads.start_alloc w
        ≡ (some made.0, made.1)
  unfolding new_request_capture
  new_request_capture-asked req reads w enabled kept asked =
      let both : (should_skip_path req.path
            || not (should_capture req.headers w.service.config.header_name))
          ≡ false =
        rw (kept, asked) refl in
      if_true (is_enabled w) _ _ enabled ∙ if_false _ _ _ both

  -- An enabled service captures the requests that ask for it, but those to be skipped.
  http_serve-captured :
      (req : Incoming) (reads : Reads) (next : Handler F O S) (r : Writer) (w : World F O S)
      → is_enabled w ≡ true
      → should_skip_path req.path ≡ false
      → should_capture req.headers w.service.config.header_name ≡ true
      → let made = allocate_collector reads.id reads.start reads.start_alloc req.method req.uri w in
        http_serve rt (some req) reads next r w ≡ http_captured rt made.0 req reads next r made.1
  unfolding http_serve
  http_serve-captured req reads next r w enabled kept asked =
      if_true (is_enabled w) _ _ enabled
      ∙ ap
          (λ (found : Option ℕ × World F O S). elim found.0 as (λ x. Writer × World F O S) [
            | none ↦ next none r w
            | some p ↦ http_captured rt p req reads next r found.1
          ])
          (new_request_capture-asked req reads w enabled kept asked)

module _ {F O : Type 0} (rt : Runtime F O) (codec : Codec (Metadata F O)) where
  -- For an enabled service with an in-memory storage: a request that asks to be captured, and is not to be
  -- skipped, can be looked up as soon as it is answered. The handler may do anything that leaves the
  -- configuration, the storage and its validity as they are, and its collector on the heap. If the id is
  -- not empty, has neither a slash nor a space and is that of the completed metadata, and the metadata can
  -- be encoded and fits in the storage without an overflow of its byte count, then a GET request for the
  -- path of the id, without the header for ids, is answered with that metadata.
  pub http_metadata-http_serve :
      (entry_cap byte_cap : ℕ) (req : Incoming) (reads : Reads)
      (next : Handler F O (InMemoryStorage (Metadata F O))) (r : Writer)
      (w : World F O (InMemoryStorage (Metadata F O))) (headers : Header) (c : Collector F O)
      (payload : Text)
      → is_enabled w ≡ true
      → should_skip_path req.path ≡ false
      → should_capture req.headers w.service.config.header_name ≡ true
      → lookup (canonical_header_key w.service.config.id_header) headers ≡ none
      → IsPlain reads.id
      → reads.id ≢ []
      → let made = allocate_collector reads.id reads.start reads.start_alloc req.method req.uri w in
        let served = http_handled made.0 req reads next r made.1 in
        served.1.service.config ≡ w.service.config
        → served.1.service.storage ≡ some (memory_storage codec)
        → IsValid entry_cap byte_cap served.1.stored
        → at made.0 served.1.heap ≡ some c
        → let m = get_metadata rt (
            finish rt served.1.service.data_sources served.0.status reads.duration reads.end
              reads.end_alloc c) in
          codec.id_of m ≡ reads.id
          → codec.marshal m ≡ some payload
          → byte_cap + length payload < 2 ^ 63
          → length payload ≤ byte_cap
          → http_metadata
              (codes "GET")
              headers
              (metadata_path reads.id)
              (http_serve rt (some req) reads next r w).1
            ≡ shown m
  unfolding http_captured answer_of
  http_metadata-http_serve entry_cap byte_cap req reads next r w headers c payload enabled kept
        asked absent plain named config storage valid found own encoded fits small =
      let made = allocate_collector reads.id reads.start reads.start_alloc req.method req.uri w in
      let served = http_handled made.0 req reads next r made.1 in
      let after =
        (complete_request rt (some made.0) served.0.status reads.duration reads.end reads.end_alloc
          served.1).1 in
      let same : after.service.config ≡ w.service.config =
        complete_request-config rt made.0 served.0.status reads.duration reads.end reads.end_alloc
          served.1 c found
        ∙ config in
      let m = get_metadata rt (
        finish rt served.1.service.data_sources served.0.status reads.duration reads.end
          reads.end_alloc c) in
      let stored =
        (complete_request-find_metadata rt codec entry_cap byte_cap made.0 served.0.status
          reads.duration reads.end reads.end_alloc served.1 c payload
          (ap (λ k. k.enabled) config ∙ enabled) storage valid found
          (λ nameless. named (sym own ∙ nameless)) encoded fits small).1 in
      ap (λ x. http_metadata (codes "GET") headers (metadata_path reads.id) x.1)
        (http_serve-captured rt req reads next r w enabled kept asked)
      ∙ http_metadata-metadata_path reads.id headers after (ap (λ k. k.enabled) same ∙ enabled)
          (subst (λ k. lookup (canonical_header_key k.id_header) headers ≡ none) (sym same) absent)
          plain named
      ∙ ap (answer_of true) (subst (λ id. find_metadata id after ≡ ok m) own stored)
