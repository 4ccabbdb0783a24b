-- ===== src/Redis/Refinement.antt =====
-- storage/redis/redis.go: on a healthy server, the storage keeps its promise.
use go_clockwork.Prelude.{
  ℕ, zero, suc, ◌-◌, ◌≡◌, refl, ap, ap₂, ◌∙◌, true, false, none, some, List, [], ◌∷◌, arith, take,
  take_nil, Text, ℤ, pos, negsuc, is_pos, pos_part, is_empty, Map, lookup, Option-cases, inl, inr,
  ◌⊎◌,
}
use go_clockwork.Storage.{ok, Codec, Decoder}
use go_clockwork.Backend.{Call, stores, gets, lists, Reply, got, listed, found, answer}
use go_clockwork.Redis.{
  Client, Settings, req_key, pipeline, store_payload, store, fetched_metadata, decode_metadata, get,
  readable, collect, list_limit, listed_ids, list,
}
use go_clockwork.Redis.Spec.{
  step, run, logged_ids, newest_records, kept, shown, spec_step, spec_run,
}
use go_clockwork.Redis.Laws.{
  Item, absent, item_after_all, as_list, IsHealthy, IsFaithful, IsMade, fetched,
  item_after-pipeline, index_after-pipeline, succeeds-pipeline, ranged-as_list,
}

take-take : {A : Type 0} (n : ℕ) (xs : List A) → take n (take (suc n) xs) ≡ take n xs
take-take zero xs = refl
take-take (suc n) [] = refl
take-take (suc n) (x ∷ xs) = ap (◌∷◌ x) (take-take n xs)

kept-kept :
    (max : ℤ) (id : Text) (ids : List Text) → kept max (id ∷ kept max ids) ≡ kept max (id ∷ ids)
kept-kept (negsuc n) id ids = refl
kept-kept (pos zero) id ids = refl
kept-kept (pos (suc n)) id ids =
    let positive : is_pos (pos (suc n)) ≡ true = ground arith in
    rw positive (ap (◌∷◌ id) (take-take n ids))

is_empty-cases : (t : Text) → (is_empty t ≡ true) ⊎ (is_empty t ≡ false)
is_empty-cases [] = inl refl
is_empty-cases (c ∷ t) = inr refl

module _ {M S : Type 0} (codec : Codec M) (decoder : Decoder M) (client : Client S) (s : Settings)
    (view : M → M) (item_at : Text → S → Item) (healthy : IsHealthy client item_at)
    (faithful : IsFaithful codec decoder view) (made : IsMade s) where
  -- The server holds this log.
  record Represents (log : Map M) (server : S) : Type 0 where
    index : item_at s.index_key server ≡ as_list (kept s.max_entries (logged_ids log))
    records :
        (k : Text) → answer decoder (fetched (item_at (req_key s k) server)) ≡ some (lookup k log)

  readable-Represents :
      (k : Text) (log : Map M) (server : S)
      → Represents log server
      → readable codec decoder client s (client.get (req_key s k) server) ≡ lookup k log
  unfolding readable
  readable-Represents k log server r =
      rw (healthy.get (req_key s k) server) (ground (arith, r.records k))

  get-Represents :
      (k : Text) (log : Map M) (server : S)
      → Represents log server
      → get codec decoder client s k server ≡ found k (lookup k log)
  unfolding get fetched_metadata decode_metadata
  get-Represents k log server r =
      rw (healthy.get (req_key s k) server) (ground (arith, r.records k))

  collect-Represents :
      (ids : List Text) (log : Map M) (server : S)
      → Represents log server
      → collect codec decoder client s server ids ≡ newest_records log ids
  unfolding collect newest_records
  collect-Represents [] log server r = refl
  collect-Represents (k ∷ ids) log server r =
      ground (arith, readable-Represents k log server r, collect-Represents ids log server r)

  list-Represents :
      (limit : ℤ) (log : Map M) (server : S)
      → Represents log server
      → list codec decoder client s limit server
        ≡ ok (
            newest_records log
              (take (shown s.max_entries limit) (kept s.max_entries (logged_ids log))))
  unfolding list listed_ids list_limit
  list-Represents limit log server r =
      let n = shown s.max_entries limit in
      let size : suc (n - 1) - 0 ≡ n = ground arith in
      let ids = kept s.max_entries (logged_ids log) in
      rw (healthy.lrange s.index_key 0 (n - 1) server, r.index, ranged-as_list (n - 1) ids, size)
        (ap ok (collect-Represents (take n ids) log server r))

  stored-Represents :
      (m : M) (payload : Text) (log : Map M) (server : S)
      → Represents log server
      → codec.marshal m ≡ some payload
      → Represents
          ((codec.id_of m, view m) ∷ log)
          (client.exec (pipeline s (codec.id_of m) payload) server).1
  unfolding lookup
  stored-Represents m payload log server r encoded =
      let id = codec.id_of m in
      record {
        index =
            healthy.items s.index_key (pipeline s id payload) server
            ∙ ap (item_after_all s.index_key (pipeline s id payload)) r.index
            ∙ index_after-pipeline s id payload (kept s.max_entries (logged_ids log)) made
            ∙ ap as_list (kept-kept s.max_entries id (logged_ids log));
        records = λ k.
            ap (λ v. answer decoder (fetched v))
              (healthy.items (req_key s k) (pipeline s id payload) server
                ∙ item_after-pipeline s k id payload (item_at (req_key s k) server) made)
            ∙ ground (arith, r.records k, faithful m payload encoded);
      }

  record Agrees (a : Reply M × S) (b : Reply M × Map M) : Type 0 where
    reply : a.0 ≡ b.0
    records : Represents b.1 a.1

  accepted-Agrees :
      (m : M) (payload : Text) (log : Map M) (server : S)
      → Represents log server
      → is_empty (codec.id_of m) ≡ false
      → codec.marshal m ≡ some payload
      → Agrees
          (step codec decoder client s (stores (some m)) server)
          (spec_step codec view s.max_entries (stores (some m)) log)
  unfolding step spec_step store
  accepted-Agrees m payload log server r named encoded =
      rw
        (
          named,
          encoded,
          store_payload,
          healthy.accepts (pipeline s (codec.id_of m) payload) server
              ∙ succeeds-pipeline s (codec.id_of m) payload (kept s.max_entries (logged_ids log))
                  (λ k. item_at k server) made r.index,
        )
        (record { reply = refl; records = stored-Represents m payload log server r encoded })

  store-Agrees :
      (m : M) (log : Map M) (server : S)
      → Represents log server
      → Agrees
          (step codec decoder client s (stores (some m)) server)
          (spec_step codec view s.max_entries (stores (some m)) log)
  unfolding step spec_step store
  store-Agrees m log server r = elim (is_empty-cases (codec.id_of m)) [
    | inl unnamed ↦ rw unnamed (record { reply = refl; records = r })
    | inr named ↦ elim (Option-cases (codec.marshal m)) [
      | inl failure ↦ rw (named, failure, store_payload) (record { reply = refl; records = r })
      | inr (payload, encoded) ↦ accepted-Agrees m payload log server r named encoded
    ]
  ]

  step-Agrees :
      (c : Call M) (log : Map M) (server : S)
      → Represents log server
      → Agrees (step codec decoder client s c server) (spec_step codec view s.max_entries c log)
  unfolding step spec_step store
  step-Agrees (stores none) log server r = record { reply = refl; records = r }
  step-Agrees (stores (some m)) log server r = store-Agrees m log server r
  step-Agrees (gets id) log server r = record {
    reply = ap got (get-Represents id log server r);
    records = r;
  }
  step-Agrees (lists limit) log server r = record {
    reply = ap listed (list-Represents limit log server r);
    records = r;
  }

  run-Agrees :
      (cs : List (Call M)) (log : Map M) (server : S)
      → Represents log server
      → (run codec decoder client s cs server).0 ≡ (spec_run codec view s.max_entries cs log).0
  unfolding run spec_run
  run-Agrees [] log server r = refl
  run-Agrees (c ∷ cs) log server r =
      let a = step-Agrees c log server r in
      ap₂ ◌∷◌ a.reply (
        run-Agrees cs (spec_step codec view s.max_entries c log).1
          (step codec decoder client s c server).1 a.records)

-- The storage on Redis refines its specification. On a healthy server that holds nothing at the keys of
-- the storage, with the settings that New makes and records that can be read back, every sequence of
-- Store, Get and List gets exactly the replies of the log: Get finds the newest record of an id, also of
-- one that the index has dropped, and List shows the newest entries of the log, an id as often as it was
-- stored. Strings and lists are in one space of keys, and a command on an item of the wrong kind fails.
pub redis_run-spec_run :
    {M S : Type 0} (codec : Codec M) (decoder : Decoder M) (client : Client S) (s : Settings)
    (view : M → M) (item_at : Text → S → Item) (server : S) (cs : List (Call M))
    → IsHealthy client item_at
    → IsFaithful codec decoder view
    → IsMade s
    → item_at s.index_key server ≡ absent
    → ((k : Text) → item_at (req_key s k) server ≡ absent)
    → (run codec decoder client s cs server).0 ≡ (spec_run codec view s.max_entries cs []).0
unfolding lookup
redis_run-spec_run codec decoder client s view item_at server cs healthy faithful made no_index
      no_records =
    run-Agrees codec decoder client s view item_at healthy faithful made cs [] server (record {
      index = no_index ∙ ground (arith, take_nil {A = Text} (pos_part s.max_entries));
      records = λ k. rw (no_records k) refl;
    })
