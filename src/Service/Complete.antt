-- ===== src/Service/Complete.antt =====
-- clockwork.go: what CompleteRequest leaves of the trace of a request, and what is found in the storage
-- afterwards.
use go_clockwork.Prelude.{
  ℕ, zero, suc, ◌+◌, ◌<◌, ◌≤◌, ◌^◌, ◌≡◌, ◌≢◌, refl, ap, ◌∙◌, true, false, Option, none, some,
  Bool-cases, inl, inr, List, [], ◌∷◌, if◌then◌else◌, arith, length, Text, text_eq, text_eq_iff,
  is_empty, lookup, ℤ, pos, both_branches,
}
use go_clockwork.Metadata.{Metadata}
use go_clockwork.Runtime.{Runtime}
use go_clockwork.Storage.{Storage, ok, Codec}
use go_clockwork.MemoryStorage.{InMemoryStorage, store, get, list, cleanup}
use go_clockwork.MemoryStorage.Store.{IsValid, store-Stored}
use go_clockwork.MemoryStorage.Reads.{get-store_self}
use go_clockwork.Collector.{Collector, truncate}
use go_clockwork.Collector.Quiet.{truncate-le}
use go_clockwork.Collector.Methods.{set_trace}
use go_clockwork.Collector.Names.{set_response_data-SameNames, set_trace-trace_id, truncate-named}
use go_clockwork.Collector.Snapshot.{get_metadata}
use go_clockwork.Service.{
  World, save_metadata, save_in, find_metadata, unregister_trace, load_and_delete, call_on, at,
  modify,
}
use go_clockwork.Service.Requests.{complete_request, complete_at, finish, resolve}
use go_clockwork.Service.Traces.{lookup-unregister_trace}
use go_clockwork.Service.Counted.{save_metadata-SameTraces}

-- The in-memory storage as a backend of the service; its Cleanup always returns nil.
unfoldable pub memory_storage : {M : Type 0} → Codec M → Storage (InMemoryStorage M) M
memory_storage codec = record {
  store = store codec;
  get = get;
  list = list;
  cleanup = λ now max_age s. (ok tt, cleanup now max_age s);
}

at-modify :
    {A : Type 0} (p : ℕ) (f : A → A) (heap : List A) (a : A)
    → at p heap ≡ some a
    → at p (modify p f heap) ≡ some (f a)
unfolding at modify
at-modify p f [] a h = cc
at-modify zero f (b ∷ heap) a h = ground arith
at-modify (suc p) f (b ∷ heap) a h = at-modify p f heap a h

module _ {F O S : Type 0} (rt : Runtime F O) where
  -- `CompleteRequest` of a collector: its data sources are read, its trace is dropped, and its
  -- metadata is saved.
  pub complete_request_lem :
      (p : ℕ) (status duration now : ℤ) (alloc : ℕ) (w : World F O S) (c : Collector F O)
      → at p w.heap ≡ some c
      → let c' = finish rt w.service.data_sources status duration now alloc c in
        complete_request rt (some p) status duration now alloc w
        ≡ save_metadata now (some (get_metadata rt c')) (
            unregister_trace c'.trace_id
              (call_on p (finish rt w.service.data_sources status duration now alloc) w))
  unfolding complete_request complete_at get_metadata
  complete_request_lem p status duration now alloc w c h =
      rw (at-modify p (finish rt w.service.data_sources status duration now alloc) w.heap c h) refl

  -- When a request is completed and its collector then names a trace, that trace is no longer active,
  -- and every other trace is as it was.
  pub complete_request_traces :
      (p : ℕ) (status duration now : ℤ) (alloc : ℕ) (w : World F O S) (c : Collector F O)
      (other : Text)
      → at p w.heap ≡ some c
      → let c' = finish rt w.service.data_sources status duration now alloc c in
        c'.trace_id ≢ []
        → lookup other
            (complete_request rt (some p) status duration now alloc w).1.service.active_by_trace
          ≡ (if text_eq c'.trace_id other then none else lookup other w.service.active_by_trace)
  complete_request_traces p status duration now alloc w c other h named =
      let f = finish rt w.service.data_sources status duration now alloc in
      let id = (f c).trace_id in
      ap (λ r. lookup other r.1.service.active_by_trace)
        (complete_request_lem p status duration now alloc w c h)
      ∙ ap (lookup other)
          (save_metadata-SameTraces now (some (get_metadata rt (f c)))
            (unregister_trace id (call_on p f w))).traces
      ∙ lookup-unregister_trace id other (call_on p f w) named

  -- Without data sources, a trace id that is longer than the limit on texts stays active when its
  -- request is completed: the collector knows only its beginning, and that is what CompleteRequest
  -- removes.
  pub complete_request_long_trace :
      (n p : ℕ) (status duration now : ℤ) (alloc : ℕ) (w : World F O S) (c : Collector F O)
      (trace_id span_id : Text)
      → 0 < n
      → c.limits.max_string_len ≡ pos n
      → n < length trace_id
      → w.service.data_sources ≡ []
      → at p w.heap ≡ some (set_trace trace_id span_id c)
      → lookup trace_id
          (complete_request rt (some p) status duration now alloc w).1.service.active_by_trace
        ≡ lookup trace_id w.service.active_by_trace
  unfolding finish resolve
  complete_request_long_trace n p status duration now alloc w c trace_id span_id positive limit long
        no_sources found =
      let c' =
        finish rt w.service.data_sources status duration now alloc (set_trace trace_id span_id c) in
      let short : c'.trace_id ≡ (truncate trace_id c).0 = rw no_sources (
        (set_response_data-SameNames rt status duration now alloc
          (set_trace trace_id span_id c)).trace_id
        ∙ set_trace-trace_id trace_id span_id c) in
      let at_most = truncate-le n trace_id c limit positive in
      let filled : trace_id ≢ [] = λ e. omega (arith, ap length e) in
      let different : text_eq c'.trace_id trace_id ≡ false =
        elim (Bool-cases (text_eq c'.trace_id trace_id)) [
          | inl same ↦ absurd (
              omega (
                arith,
                at_most,
                ap length short,
                ap length ((text_eq_iff c'.trace_id trace_id).0 same),
              ))
          | inr different ↦ different
        ] in
      complete_request_traces p status duration now alloc w (set_trace trace_id span_id c) trace_id
        found (rw short (truncate-named n trace_id c limit positive filled))
      ∙ rw different refl

module _ {F O S : Type 0} where
  save_metadata_stores :
      (now : ℤ) (m : Metadata F O) (storage : Storage S (Metadata F O)) (w : World F O S)
      → w.service.config.enabled ≡ true
      → w.service.storage ≡ some storage
      → save_metadata now (some m) w ≡ (
        (storage.store now (some m) w.stored).0,
        record w { stored = (storage.store now (some m) w.stored).1 },
      )
  unfolding save_metadata save_in
  save_metadata_stores now m storage w enabled configured = rw (enabled, configured) refl

  find_metadata_gets :
      (id : Text) (storage : Storage S (Metadata F O)) (w : World F O S)
      → w.service.storage ≡ some storage
      → find_metadata id w ≡ storage.get id w.stored
  unfolding find_metadata
  find_metadata_gets id storage w configured = rw configured refl

  -- To unregister a trace leaves the storage and the configuration alone.
  pub record SameBackend (w w' : World F O S) : Type 0 where
    pub config : w'.service.config ≡ w.service.config
    pub storage : w'.service.storage ≡ w.service.storage
    pub stored : w'.stored ≡ w.stored

  load_and_delete-SameBackend :
      (trace_id : Text) (found : Option ℕ) (w : World F O S)
      → SameBackend w (load_and_delete trace_id found w)
  unfolding load_and_delete
  load_and_delete-SameBackend trace_id none w = record {
    config = refl;
    storage = refl;
    stored = refl;
  }
  load_and_delete-SameBackend trace_id (some p) w = record {
    config = refl;
    storage = refl;
    stored = refl;
  }

  pub unregister_trace-SameBackend :
      (trace_id : Text) (w : World F O S) → SameBackend w (unregister_trace trace_id w)
  unfolding unregister_trace
  unregister_trace-SameBackend trace_id w =
      both_branches (SameBackend w) (is_empty trace_id)
        (record { config = refl; storage = refl; stored = refl })
        (load_and_delete-SameBackend trace_id (lookup trace_id w.service.active_by_trace) w)

-- What a storage accepts and gives back, the service finds when the request is completed.
pub complete_request_found :
    {F O S : Type 0} (rt : Runtime F O) (p : ℕ) (status duration now : ℤ) (alloc : ℕ)
    (w : World F O S) (c : Collector F O) (storage : Storage S (Metadata F O)) (id : Text)
    (read : Metadata F O)
    → w.service.config.enabled ≡ true
    → w.service.storage ≡ some storage
    → at p w.heap ≡ some c
    → let m = get_metadata rt (finish rt w.service.data_sources status duration now alloc c) in
      let r = storage.store now (some m) w.stored in
      r.0 ≡ ok tt
      → storage.get id r.1 ≡ ok read
      → let after = complete_request rt (some p) status duration now alloc w in
        (after.0 ≡ ok tt) × (find_metadata id after.1 ≡ ok read)
complete_request_found rt p status duration now alloc w c storage id read enabled configured live
      accepted got =
    let f = finish rt w.service.data_sources status duration now alloc in
    let m = get_metadata rt (f c) in
    let w' = unregister_trace (f c).trace_id (call_on p f w) in
    let same = unregister_trace-SameBackend (f c).trace_id (call_on p f w) in
    let completed =
      complete_request_lem rt p status duration now alloc w c live
      ∙ save_metadata_stores now m storage w' (ap (λ k. k.enabled) same.config ∙ enabled)
          (same.storage ∙ configured) in
    (
      ap (λ r. r.0) completed ∙ ap (λ s. (storage.store now (some m) s).0) same.stored ∙ accepted,
      ap (λ r. find_metadata id r.1) completed
          ∙ find_metadata_gets id storage
              (record w' { stored = (storage.store now (some m) w'.stored).1 })
              (same.storage ∙ configured)
          ∙ ap (λ s. storage.get id (storage.store now (some m) s).1) same.stored
          ∙ got,
    )

module _ {F O : Type 0} (rt : Runtime F O) (codec : Codec (Metadata F O)) where
  -- When an enabled service with a valid in-memory storage completes a request and the metadata has
  -- an id, can be encoded, and fits in the storage without an overflow of its byte count, then no
  -- error is returned and the metadata of the collector, with what the data sources added, is found
  -- under its id.
  pub complete_request-find_metadata :
      (entry_cap byte_cap p : ℕ) (status duration now : ℤ) (alloc : ℕ)
      (w : World F O (InMemoryStorage (Metadata F O))) (c : Collector F O) (payload : Text)
      → w.service.config.enabled ≡ true
      → w.service.storage ≡ some (memory_storage codec)
      → IsValid entry_cap byte_cap w.stored
      → at p w.heap ≡ some c
      → let m = get_metadata rt (finish rt w.service.data_sources status duration now alloc c) in
        codec.id_of m ≢ []
        → codec.marshal m ≡ some payload
        → byte_cap + length payload < 2 ^ 63
        → length payload ≤ byte_cap
        → let after = complete_request rt (some p) status duration now alloc w in
          (after.0 ≡ ok tt) × (find_metadata (codec.id_of m) after.1 ≡ ok m)
  unfolding memory_storage
  complete_request-find_metadata entry_cap byte_cap p status duration now alloc w c payload enabled
        configured valid found named encoded fits small =
      let m = get_metadata rt (finish rt w.service.data_sources status duration now alloc c) in
      complete_request_found rt p status duration now alloc w c (memory_storage codec)
        (codec.id_of m) m enabled configured found
        (store-Stored codec entry_cap byte_cap now m payload w.stored valid named encoded fits).0
        (get-store_self codec entry_cap byte_cap now m payload w.stored valid named encoded fits
          small)
