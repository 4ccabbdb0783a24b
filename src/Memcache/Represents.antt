-- ===== src/Memcache/Represents.antt =====
-- storage/memcache/memcache.go: servers that hold a list of records, and what Get and List find there.
use go_clockwork.Prelude.{
  ℕ, zero, suc, ◌<◌, ◌≡◌, refl, sym, ap, ◌∙◌, true, Option, some, List, [], ◌∷◌, arith, All, length,
  take, Text, text_eq_iff, ℤ, pos, is_pos, ltb_ℤ, pos_part, Bool-cases, inl, inr, Map, lookup,
}
use go_clockwork.Backend.{Fetch, hit, miss, failed, found, answer}
use go_clockwork.Storage.{ok, Codec, Decoder}
use go_clockwork.Memcache.{
  Client, Settings, req_key, load_index, fetched_metadata, decode_metadata, readable, collect,
  listed_ids, list_indexed, list,
}
use go_clockwork.Memcache.Laws.{IsId, is_in}
use go_clockwork.Memcache.Index.{All-is_in, keys, values, take-keys, AreUnique}
use go_clockwork.Memcache.Spec.{newest}

module _ {M S : Type 0} (codec : Codec M) (decoder : Decoder M) (client : Client S) (s : Settings)
    (view : M → M) where
  -- The servers hold these ids and records.
  pub record Represents (es : Map M) (servers : S) : Type 0 where
    pub index : load_index codec decoder client s servers ≡ ok (keys es)
    pub records :
        (k : Text)
        → IsId s k
        → answer decoder (client.get (req_key s k) servers) ≡ some (lookup k es)
    pub unique : AreUnique es
    pub ids : All (IsId s) (keys es)

  pub fetched-answer :
      (id : Text) (f : Fetch) (o : Option M)
      → answer decoder f ≡ some o
      → fetched_metadata codec decoder client s id f ≡ found id o
  unfolding fetched_metadata decode_metadata
  fetched-answer id miss o h = ground arith
  fetched-answer id failed o h = ground arith
  fetched-answer id (hit value) o h = ground arith

  readable-answer :
      (f : Fetch) (o : Option M) → answer decoder f ≡ some o → readable codec decoder client s f ≡ o
  unfolding readable
  readable-answer miss o h = ground arith
  readable-answer failed o h = ground arith
  readable-answer (hit value) o h = ground arith

  -- Every record of a list is found on the servers.
  abbrev Reads : S → Map M → Type 0
  Reads servers [] = Unit {0}
  Reads servers ((k, m) ∷ es) =
      (readable codec decoder client s (client.get (req_key s k) servers) ≡ some m)
      × Reads servers es

  reads_all :
      (servers : S) (es : Map M)
      → AreUnique es
      → ((k : Text)
          → is_in k (keys es) ≡ true
          → readable codec decoder client s (client.get (req_key s k) servers) ≡ lookup k es)
      → Reads servers es
  unfolding lookup is_in
  reads_all servers [] u h = tt
  reads_all servers ((j, m) ∷ es) (new, u) h = (
    h j (ground (arith, text_eq_iff j j)) ∙ ground (arith, text_eq_iff j j),
    reads_all servers es u (λ k within. h k (ground arith) ∙ ground (arith, text_eq_iff j k)),
  )

  Reads-take : (n : ℕ) (servers : S) (es : Map M) → Reads servers es → Reads servers (take n es)
  Reads-take zero servers es h = tt
  Reads-take (suc n) servers [] h = tt
  Reads-take (suc n) servers ((j, m) ∷ es) (read, h) = (read, Reads-take n servers es h)

  collect-keys :
      (servers : S) (es : Map M)
      → Reads servers es
      → collect codec decoder client s servers (keys es) ≡ values es
  unfolding collect
  collect-keys servers [] h = refl
  collect-keys servers ((j, m) ∷ es) (read, h) =
      rw (read, collect) (ap (◌∷◌ m) (collect-keys servers es h))

  take-values : (n : ℕ) (es : Map M) → values (take n es) ≡ take n (values es)
  take-values zero es = refl
  take-values (suc n) [] = refl
  take-values (suc n) ((j, m) ∷ es) = ap (◌∷◌ m) (take-values n es)

  length-keys : (es : Map M) → length (keys es) ≡ length (values es)
  length-keys [] = refl
  length-keys (e ∷ es) = ap suc (length-keys es)

  take_all : (n : ℕ) (ids : List M) → length ids < n → take n ids ≡ ids
  take_all zero ids h = absurd (omega arith)
  take_all (suc n) [] h = refl
  take_all (suc n) (j ∷ ids) h = ap (◌∷◌ j) (take_all n ids (omega arith))

  -- List on servers that hold these records.
  pub list-Represents :
      (limit : ℤ) (es : Map M) (servers : S)
      → Represents es servers
      → list codec decoder client s limit servers ≡ ok (newest limit (values es))
  unfolding list list_indexed listed_ids
  list-Represents limit es servers r =
      let reads = reads_all servers es r.unique (λ k within.
        readable-answer (client.get (req_key s k) servers) (lookup k es)
          (r.records k (All-is_in (IsId s) k (keys es) r.ids within))) in
      let n = pos_part limit in
      let whole = collect-keys servers es reads in
      let part =
        ap (collect codec decoder client s servers) (take-keys n es)
        ∙ collect-keys servers (take n es) (Reads-take n servers es reads)
        ∙ take-values n es in
      rw r.index (
        ap ok (elim (Bool-cases (is_pos limit)) [
          | inr all ↦ rw all whole
          | inl some_of ↦ elim (Bool-cases (ltb_ℤ (pos (length (keys es))) limit)) [
            | inl few ↦
                let short : length (values es) < n = ground (arith, length-keys es) in
                rw (some_of, few) (whole ∙ sym (take_all n (values es) short))
            | inr many ↦ rw (some_of, many) part
          ]
        ]))
