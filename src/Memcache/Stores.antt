-- ===== src/Memcache/Stores.antt =====
-- storage/memcache/memcache.go: what a Store leaves on the servers.
use go_clockwork.Prelude.{
  ℕ, ◌≤◌, length, All, ◌≡◌, refl, sym, ap, ap₂, ◌∙◌, subst, Bool, false, some, List, ◌∷◌,
  if◌then◌else◌, arith, Text, text_eq, text_eq_iff, is_empty, Map, lookup, delete, lookup-delete,
}
use go_clockwork.Backend.{hit}
use go_clockwork.Storage.{ok, Codec, Decoder}
use go_clockwork.Memcache.{
  Client, Settings, req_key, kept_ids, evicted_ids, load_index, fetched_index, decode_index,
  save_index, save_encoded, delete_evicted, store_saved, store_indexed, store_payload, store,
}
use go_clockwork.Memcache.Laws.{
  IsHealthy, IsFaithful, IsKey, IsId, IsMade, text_eq-req_key, index_key_apart, req_key_apart,
  get-delete_evicted, get_index-delete_evicted,
}
use go_clockwork.Memcache.Index.{
  keys, AreUnique, others-keys, is_in-delete, delete-AreUnique, kept, kept_ids-keys, kept-AreUnique,
  lookup-kept, All-kept, All-delete, All-evicted_ids, kept-IsWithin,
}
use go_clockwork.Memcache.Spec.{put}
use go_clockwork.Memcache.Represents.{Represents}

module _ {M S : Type 0} (codec : Codec M) (decoder : Decoder M) (client : Client S) (s : Settings)
    (view : M → M) (room : ℕ) (healthy : IsHealthy client room)
    (faithful : IsFaithful codec decoder view s room) (made : IsMade s) where
  -- The servers after the first write, after the second one, and after the deletions.
  abbrev with_record : Text → Text → S → S
  with_record id payload servers = (client.set (req_key s id) payload s.ttl_seconds servers).1

  abbrev with_index : Text → Text → Text → S → S
  with_index id payload index servers =
      (client.set s.index_key index s.ttl_seconds (with_record id payload servers)).1

  get-with_index :
      (id payload index : Text) (servers : S) (k : Text)
      → IsKey (req_key s id)
      → length payload ≤ room
      → length index ≤ room
      → client.get (req_key s k) (with_index id payload index servers)
        ≡ (if text_eq id k then hit payload else client.get (req_key s k) servers)
  get-with_index id payload index servers k legal fits small = ground (
    arith,
    healthy.get-set s.index_key (req_key s k) index s.ttl_seconds (with_record id payload servers)
        made.is_key made.ttl small,
    healthy.get-set (req_key s id) (req_key s k) payload s.ttl_seconds servers legal made.ttl fits,
    text_eq-req_key s id k,
    req_key_apart s k made,
  )

  load-with_record :
      (id payload : Text) (servers : S)
      → IsKey (req_key s id)
      → length payload ≤ room
      → load_index codec decoder client s (with_record id payload servers)
        ≡ load_index codec decoder client s servers
  unfolding load_index
  load-with_record id payload servers legal fits = ap (fetched_index codec decoder client s) (
      healthy.get-set (req_key s id) s.index_key payload s.ttl_seconds servers legal made.ttl fits
      ∙ ap (λ (b : Bool). if b then hit payload else client.get s.index_key servers)
          (index_key_apart s id made))

  save_index_lem :
      (ids : List Text) (index : Text) (servers : S)
      → decoder.marshal_ids ids ≡ some index
      → length index ≤ room
      → save_index codec decoder client s ids servers
        ≡ (ok tt, (client.set s.index_key index s.ttl_seconds servers).1)
  unfolding save_index
  save_index_lem ids index servers written small =
      rw
        (
          written,
          save_encoded,
          healthy.accepts s.index_key index s.ttl_seconds servers made.is_key made.ttl small,
        )
        refl

  store_indexed_lem :
      (id index : Text) (es : Map M) (m : M) (servers : S)
      → decoder.marshal_ids (keys (kept s.max_entries ((id, m) ∷ delete id es))) ≡ some index
      → length index ≤ room
      → store_indexed codec decoder client s id (ok (keys es)) servers ≡ (
        ok tt,
        delete_evicted codec decoder client s
            (evicted_ids s.max_entries (keys ((id, m) ∷ delete id es)))
            (client.set s.index_key index s.ttl_seconds servers).1,
      )
  unfolding store_indexed store_saved
  store_indexed_lem id index es m servers written small =
      let all : Map M = (id, m) ∷ delete id es in
      ap₂ (store_saved codec decoder client s)
        (ap (λ ids. evicted_ids s.max_entries (id ∷ ids)) (others-keys id es))
        (ap (λ ids. save_index codec decoder client s (kept_ids s.max_entries (id ∷ ids)) servers)
            (others-keys id es)
          ∙ ap (λ ids. save_index codec decoder client s ids servers)
              (kept_ids-keys s.max_entries all)
          ∙ save_index_lem (keys (kept s.max_entries all)) index servers written small)

  store_lem :
      (m : M) (payload : Text) (servers : S)
      → is_empty (codec.id_of m) ≡ false
      → codec.marshal m ≡ some payload
      → IsKey (req_key s (codec.id_of m))
      → length payload ≤ room
      → let after = with_record (codec.id_of m) payload servers in
        store codec decoder client s (some m) servers
        ≡ store_indexed codec decoder client s
            (codec.id_of m)
            (load_index codec decoder client s after)
            after
  unfolding store
  store_lem m payload servers named encoded legal fits =
      rw
        (
          named,
          encoded,
          store_payload,
          healthy.accepts (req_key s (codec.id_of m)) payload s.ttl_seconds servers legal made.ttl
              fits,
        )
        refl

  -- The servers after a Store that keeps the ids `ids`, which are those of `all`.
  stored-Represents :
      (m : M) (payload index : Text) (es : Map M) (servers : S)
      → Represents codec decoder client s view es servers
      → IsId s (codec.id_of m)
      → codec.marshal m ≡ some payload
      → length payload ≤ room
      → decoder.unmarshal_ids index ≡ some (keys (put codec view s.max_entries m es))
      → length index ≤ room
      → Represents codec decoder client s view (put codec view s.max_entries m es) (
          delete_evicted codec decoder client s
            (evicted_ids s.max_entries (keys ((codec.id_of m, view m) ∷ delete (codec.id_of m) es)))
            (with_index (codec.id_of m) payload index servers))
  unfolding load_index lookup
  stored-Represents m payload index es servers r plain encoded fits read small =
      let id = codec.id_of m in
      let all : Map M = (id, view m) ∷ delete id es in
      let evicted = evicted_ids s.max_entries (keys all) in
      let after = with_index id payload index servers in
      let ids : All (IsId s) (keys all) = (plain, All-delete (IsId s) id es r.ids) in
      let gone = All-evicted_ids (IsId s) s.max_entries (keys all) ids in
      let fresh : AreUnique all = (
        ground (arith, is_in-delete id id es, text_eq_iff id id),
        delete-AreUnique id es r.unique,
      ) in
      let at_index : client.get s.index_key (delete_evicted codec decoder client s evicted after)
          ≡ hit index =
        get_index-delete_evicted codec decoder client room healthy s evicted after made gone
        ∙ healthy.get-set s.index_key s.index_key index s.ttl_seconds
            (with_record id payload servers) made.is_key made.ttl small
        ∙ ap
            (λ (b : Bool).
              if b then hit index else client.get s.index_key (with_record id payload servers))
            ((text_eq_iff s.index_key s.index_key).1 refl) in
      record {
        index =
            ap (fetched_index codec decoder client s) at_index
            ∙ rw (fetched_index, read, decode_index) refl;
        records = λ k hk. ground (
          arith,
          get-delete_evicted codec decoder client room healthy s k evicted after gone,
          get-with_index id payload index servers k plain.1 fits small,
          lookup-kept k s.max_entries all fresh,
          lookup-delete id k es,
          r.records k hk,
          faithful.unmarshal m payload encoded,
        );
        unique = kept-AreUnique s.max_entries all fresh;
        ids = All-kept (IsId s) s.max_entries all ids;
      }

  -- Store of a record on servers that hold these records.
  pub store-Represents :
      (m : M) (payload : Text) (es : Map M) (servers : S)
      → Represents codec decoder client s view es servers
      → is_empty (codec.id_of m) ≡ false
      → IsId s (codec.id_of m)
      → codec.marshal m ≡ some payload
      → length payload ≤ room
      → let r = store codec decoder client s (some m) servers in
        (r.0 ≡ ok tt)
        × Represents codec decoder client s view (put codec view s.max_entries m es) r.1
  store-Represents m payload es servers r named plain encoded fits =
      let id = codec.id_of m in
      let after = with_record id payload servers in
      let all : Map M = (id, view m) ∷ delete id es in
      let ids = All-kept (IsId s) s.max_entries all (plain, All-delete (IsId s) id es r.ids) in
      let (index, written, read, small) =
        faithful.marshal_ids (keys (put codec view s.max_entries m es)) ids
          (kept-IsWithin s.max_entries all) in
      let whole =
        store_lem m payload servers named encoded plain.1 fits
        ∙ ap (λ ids. store_indexed codec decoder client s id ids after)
            (load-with_record id payload servers plain.1 fits ∙ r.index)
        ∙ store_indexed_lem id index es (view m) after written small in
      (
        ap (λ x. x.0) whole,
        subst (λ x. Represents codec decoder client s view (put codec view s.max_entries m es) x.1)
            (sym whole)
            (stored-Represents m payload index es servers r plain encoded fits read small),
      )
