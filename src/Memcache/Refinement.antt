-- ===== src/Memcache/Refinement.antt =====
-- storage/memcache/memcache.go: on healthy servers, the storage keeps its promise.
use go_clockwork.Prelude.{
  ℕ, ◌≤◌, length, All, ◌≡◌, refl, ap, ap₂, true, false, none, some, List, [], ◌∷◌, Text,
  Option-cases, inl, inr, is_empty, ◌⊎◌, Map, lookup,
}
use go_clockwork.Backend.{miss, Call, stores, gets, lists, Reply, stored, got, listed}
use go_clockwork.Storage.{Codec, Decoder}
use go_clockwork.Memcache.{
  Client, Settings, req_key, load_index, fetched_index, store_payload, store, get,
}
use go_clockwork.Memcache.Laws.{IsHealthy, IsFaithful, IsId, IsMade}
use go_clockwork.Memcache.Spec.{step, run, spec_step, spec_run}
use go_clockwork.Memcache.Represents.{Represents, fetched-answer, list-Represents}
use go_clockwork.Memcache.Stores.{store-Represents}

is_empty-cases : (t : Text) → (is_empty t ≡ true) ⊎ (is_empty t ≡ false)
is_empty-cases [] = inl refl
is_empty-cases (c ∷ t) = inr refl

-- A call with an id whose key the client takes, and with a record for which the servers have room.
abbrev pub IsUsable : {M : Type 0} → Codec M → Settings → ℕ → Call M → Type 0
IsUsable codec s room (stores none) = Unit {0}
IsUsable codec s room (stores (some m)) =
    IsId s (codec.id_of m)
    × ((payload : Text) → codec.marshal m ≡ some payload → length payload ≤ room)
IsUsable codec s room (gets id) = IsId s id
IsUsable codec s room (lists limit) = Unit {0}

module _ {M S : Type 0} (codec : Codec M) (decoder : Decoder M) (client : Client S) (s : Settings)
    (view : M → M) (room : ℕ) (healthy : IsHealthy client room)
    (faithful : IsFaithful codec decoder view s room) (made : IsMade s) where
  -- A call gets the reply of the list of records and leaves the servers in its state.
  record Agrees (a : Reply M × S) (b : Reply M × Map M) : Type 0 where
    reply : a.0 ≡ b.0
    records : Represents codec decoder client s view b.1 a.1

  accepted-Agrees :
      (m : M) (payload : Text) (es : Map M) (servers : S)
      → Represents codec decoder client s view es servers
      → is_empty (codec.id_of m) ≡ false
      → codec.marshal m ≡ some payload
      → IsUsable codec s room (stores (some m))
      → Agrees
          (step codec decoder client s (stores (some m)) servers)
          (spec_step codec view s.max_entries (stores (some m)) es)
  unfolding step spec_step
  accepted-Agrees m payload es servers r named encoded (plain, fits) =
      let (accepted, after) =
        store-Represents codec decoder client s view room healthy faithful made m payload es servers
          r named plain encoded (fits payload encoded) in
      rw (named, encoded) (record { reply = ap stored accepted; records = after })

  store-Agrees :
      (m : M) (es : Map M) (servers : S)
      → Represents codec decoder client s view es servers
      → IsUsable codec s room (stores (some m))
      → Agrees
          (step codec decoder client s (stores (some m)) servers)
          (spec_step codec view s.max_entries (stores (some m)) es)
  unfolding step spec_step store
  store-Agrees m es servers r usable = elim (is_empty-cases (codec.id_of m)) [
    | inl unnamed ↦ rw unnamed (record { reply = refl; records = r })
    | inr named ↦ elim (Option-cases (codec.marshal m)) [
      | inl failure ↦ rw (named, failure, store_payload) (record { reply = refl; records = r })
      | inr (payload, encoded) ↦ accepted-Agrees m payload es servers r named encoded usable
    ]
  ]

  step-Agrees :
      (c : Call M) (es : Map M) (servers : S)
      → Represents codec decoder client s view es servers
      → IsUsable codec s room c
      → Agrees (step codec decoder client s c servers) (spec_step codec view s.max_entries c es)
  unfolding step spec_step store get
  step-Agrees (stores none) es servers r usable = record { reply = refl; records = r }
  step-Agrees (stores (some m)) es servers r usable = store-Agrees m es servers r usable
  step-Agrees (gets id) es servers r usable = record {
    reply = ap got (
        fetched-answer codec decoder client s view id (client.get (req_key s id) servers)
          (lookup id es) (r.records id usable));
    records = r;
  }
  step-Agrees (lists limit) es servers r usable = record {
    reply = ap listed (list-Represents codec decoder client s view limit es servers r);
    records = r;
  }

  run-Agrees :
      (cs : List (Call M)) (es : Map M) (servers : S)
      → Represents codec decoder client s view es servers
      → All (IsUsable codec s room) cs
      → ((run codec decoder client s cs servers).0 ≡ (spec_run codec view s.max_entries cs es).0)
        × Represents codec decoder client s view
            (spec_run codec view s.max_entries cs es).1
            (run codec decoder client s cs servers).1
  unfolding run spec_run
  run-Agrees [] es servers r usable = (refl, r)
  run-Agrees (c ∷ cs) es servers r (hc, usable) =
      let a = step-Agrees c es servers r hc in
      let (replies, after) =
        run-Agrees cs (spec_step codec view s.max_entries c es).1
          (step codec decoder client s c servers).1 a.records usable in
      (ap₂ ◌∷◌ a.reply replies, after)

-- The storage on memcached refines its specification. On servers that are healthy and hold nothing at its
-- keys, with settings as New makes them of a legal prefix and a time to live of at most thirty days, and
-- for calls with ASCII ids whose keys the client takes and with records and an index that fit and can be
-- read back, every sequence of Store, Get and List gets exactly the replies of a list of records, newest
-- first, without repeated ids and of at most as many entries as the limit says.
pub memcache_run-spec_run :
    {M S : Type 0} (codec : Codec M) (decoder : Decoder M) (client : Client S) (s : Settings)
    (view : M → M) (room : ℕ) (servers : S) (cs : List (Call M))
    → IsHealthy client room
    → IsFaithful codec decoder view s room
    → IsMade s
    → All (IsUsable codec s room) cs
    → client.get s.index_key servers ≡ miss
    → ((k : Text) → IsId s k → client.get (req_key s k) servers ≡ miss)
    → (run codec decoder client s cs servers).0 ≡ (spec_run codec view s.max_entries cs []).0
unfolding load_index lookup
memcache_run-spec_run codec decoder client s view room servers cs healthy faithful made usable
      no_index no_records =
    (run-Agrees codec decoder client s view room healthy faithful made cs [] servers
      (record {
        index = rw (no_index, fetched_index) refl;
        records = λ k hk. rw (no_records k hk) refl;
        unique = tt;
        ids = tt;
      })
      usable).0
