-- ===== src/Tests/Remote.antt =====
-- storage/memcache/memcache.go on a small server.
use go_clockwork.Prelude.{
  ℕ, ◌≤◌, length, length-append, ◌≡◌, refl, sym, ap, ◌∙◌, true, false, Option, none, some, List, [],
  ◌∷◌, ◌++◌, append_assoc, append-nil, if◌then◌else◌, arith, All, Text, codes, text_eq, pos, ◌==◌,
  Map, lookup, insert, delete, lookup-insert, lookup-delete,
}
use go_clockwork.Storage.{Error, ok, err, Codec, Decoder}
use go_clockwork.Backend.{Fetch, hit, miss, Call, stores, gets, lists, stored, got, listed}
use go_clockwork.Memcache
use go_clockwork.Memcache.Refinement.{memcache_run-spec_run}

-- Two records. A poster does not survive the encoding: it is read back as a note.
pub data Document : Type 0 where
  note : Document
  poster : Document

abbrev pub view : Document → Document
view note = note
view poster = note

abbrev pub codec : Codec Document
codec = record {
  id_of = λ m. elim m [ note ↦ codes "a" | poster ↦ codes "b" ];
  marshal = λ m. elim m [ note ↦ some (codes "n") | poster ↦ some (codes "p") ];
}

-- The ids with a byte behind each that is not ASCII.
abbrev pub join : List Text → Text
join [] = []
join (id ∷ ids) = id ++ (200 ∷ join ids)

abbrev pub split : Text → Text → List Text
split word [] = []
split word (c ∷ t) =
    let rest = split (if c == 200 then [] else word ++ c ∷ []) t in
    if c == 200 then word ∷ rest else rest

abbrev pub decoder : Decoder Document
decoder = record {
  unmarshal = λ t. some note;
  marshal_ids = λ ids. some (join ids);
  unmarshal_ids = λ t. some (split [] t);
}

split-append :
    (id word t : Text)
    → Memcache.Laws.IsAscii id
    → split word (id ++ (200 ∷ t)) ≡ (word ++ id) ∷ split [] t
split-append [] word t h = ap (λ w. w ∷ split [] t) (sym (append-nil word))
split-append (c ∷ id) word t (small, h) =
    let other : (c == 200) ≡ false = ground arith in
    rw other (
      split-append id (word ++ c ∷ []) t h
      ∙ ap (λ w. w ∷ split [] t) (append_assoc word (c ∷ []) id))

pub split-join : (ids : List Text) → All Memcache.Laws.IsAscii ids → split [] (join ids) ≡ ids
split-join [] h = refl
split-join (id ∷ ids) (plain, h) =
    split-append id [] (join ids) plain ∙ ap (◌∷◌ id) (split-join ids h)

abbrev item : Option Text → Fetch
item none = miss
item (some v) = hit v

abbrev pub servers : Memcache.Client (Map Text)
servers = record {
  get = λ k m. item (lookup k m);
  set = λ k v ttl m. (true, insert k v m);
  delete = λ k m. (true, delete k m);
}

pub servers-IsHealthy : Memcache.Laws.IsHealthy servers 300
servers-IsHealthy = record {
  accepts = λ k v ttl m hk relative fits. refl;
  get-set = λ k j v ttl m hk relative fits. ground (arith, lookup-insert k j v m);
  get-delete = λ k j m hk. ground (arith, lookup-delete k j m);
}

-- Room for one record.
abbrev pub settings : Memcache.Settings
settings = record {
  prefix = codes "x";
  index_key = codes "x:index";
  max_entries = pos 1;
  ttl_seconds = pos 60;
}

pub settings-IsMade : Memcache.Laws.IsMade settings
settings-IsMade = record {
  index_key = refl;
  is_key = (omega arith, (refl, (refl, (refl, (refl, (refl, (refl, (refl, tt))))))));
  ttl = (refl, omega arith);
}

-- What is read back of an index, and that there is room for it.
pub ids_settings :
    (ids : List Text)
    → All (Memcache.Laws.IsId settings) ids
    → Memcache.Laws.IsWithin (pos 1) (length ids)
    → (payload : Text) × (some (join ids) ≡ some payload)
      × (some (split [] payload) ≡ some ids)
      × (length payload ≤ 300)
ids_settings [] h within = ([], refl, refl, omega arith)
ids_settings (id ∷ []) ((plain, (short, bytes)), rest) within =
    let size = length-append id (200 ∷ []) in
    (join (id ∷ []), refl, ap some (split-join (id ∷ []) (plain, tt)), omega (arith, size))
ids_settings (i ∷ j ∷ ids) h within = let few = within refl in absurd (omega arith)

pub faithful : Memcache.Laws.IsFaithful codec decoder view settings 300
faithful = record {
  marshal_ids = ids_settings;
  unmarshal =
      λ m payload h. elim m as (λ d. some note ≡ some (view d)) [ note ↦ refl | poster ↦ refl ];
}

pub legal_a : Memcache.Laws.IsId settings (codes "a")
legal_a =
    ((omega arith, tt), (omega arith, (refl, (refl, (refl, (refl, (refl, (refl, (refl, tt)))))))))

legal_b : Memcache.Laws.IsId settings (codes "b")
legal_b =
    ((omega arith, tt), (omega arith, (refl, (refl, (refl, (refl, (refl, (refl, (refl, tt)))))))))

abbrev pub calls : List (Call Document)
calls =
    stores (some note)
    ∷ stores (some note)
    ∷ lists (pos 0)
    ∷ stores (some poster)
    ∷ gets (codes "a")
    ∷ gets (codes "b")
    ∷ lists (pos 5)
    ∷ []

memcache_program : Unit {0}
unfolding Memcache.Spec.run Memcache.Spec.step Memcache.store Memcache.store_payload
    Memcache.store_indexed Memcache.store_saved Memcache.delete_evicted Memcache.save_index
    Memcache.save_encoded Memcache.load_index Memcache.fetched_index Memcache.decode_index
    Memcache.kept_ids Memcache.evicted_ids Memcache.get Memcache.fetched_metadata
    Memcache.decode_metadata Memcache.list Memcache.list_indexed Memcache.listed_ids
    Memcache.collect Memcache.readable text_eq lookup insert delete
memcache_program = tt

memcache_replies :
    (Memcache.Spec.run codec decoder servers settings calls []).0
    ≡ stored (ok tt)
      ∷ stored (ok tt)
      ∷ listed (ok (note ∷ []))
      ∷ stored (ok tt)
      ∷ got (err (Error.metadata_not_found (codes "a")))
      ∷ got (ok note)
      ∷ listed (ok (note ∷ []))
      ∷ []
unfolding memcache_program
memcache_replies = refl

one_byte : (c : ℕ) (payload : Text) → some (c ∷ []) ≡ some payload → length payload ≤ 300
one_byte c payload h = ground arith

usable : All (Memcache.Refinement.IsUsable codec settings 300) calls
usable =
    let fits : Memcache.Refinement.IsUsable codec settings 300 (stores (some note)) =
      (legal_a, one_byte 110) in
    (fits, (fits, (tt, ((legal_b, one_byte 112), (legal_a, (legal_b, (tt, tt)))))))

memcache_run-spec_run_example :
    (Memcache.Spec.run codec decoder servers settings calls []).0
    ≡ (Memcache.Spec.spec_run codec view (pos 1) calls []).0
unfolding lookup
memcache_run-spec_run_example =
    memcache_run-spec_run codec decoder servers settings view 300 [] calls servers-IsHealthy
      faithful settings-IsMade usable refl (λ k hk. refl)
