-- ===== src/Tests/Memory.antt =====
-- storage_memory.go and config.go on small inputs.
use go_clockwork.Prelude.{
  ◌+◌, ◌<◌, ◌^◌, ◌≡◌, ◌≢◌, refl, Option, none, some, List, [], ◌∷◌, arith, length, Text, codes, pos,
  negsuc, take, text_eq, lookup, insert, delete, add_int, sub_int, ◌-ℤ◌, ◌⊎◌, keep, map,
}
use mathlib.Core.List.{reverse}
use go_clockwork.Storage.{Error, ok, err, Codec}
use go_clockwork.MemoryStorage.{
  InMemoryStorage, new_in_memory_storage, new_storage, store, get, list, cleanup, store_payload,
  evict, evict_loop, replace_existing, remove_element, push_back, unlink, collect, cleanup_loop,
}
use go_clockwork.MemoryStorage.Spec.{
  Call, Reply, stores, gets, lists, cleans, stored, got, listed, cleaned, step, run, spec_step,
  spec_run,
}
use go_clockwork.MemoryStorage.Store.{
  IsValid, Stored, effective, entry_of, new_in_memory_storage-IsValid, new_storage-IsValid,
  store-Stored,
}
use go_clockwork.MemoryStorage.Window.{newest}
use go_clockwork.MemoryStorage.Eviction.{Evicted, evict_loop-Evicted}
use go_clockwork.MemoryStorage.Refinement.{run-spec_run, entries_of}
use go_clockwork.MemoryStorage.Reads.{
  get-store_self, get-store_other, get-store_oversized, list-take, metadata_of,
}
use go_clockwork.MemoryStorage.Cleanup.{cleanup-IsValid, is_recent}
use go_clockwork.Config.{Config, default_config, normalize}
use go_clockwork.Config.Normalize.{IsNormal, normalize-IsNormal}

program : Unit {0}
unfolding new_in_memory_storage store get list cleanup store_payload evict evict_loop
    replace_existing remove_element push_back unlink collect cleanup_loop step run spec_step
    spec_run text_eq lookup insert delete add_int sub_int newest
program = tt

-- Four records: two that can be stored, one that cannot be encoded and one without an id.
data Document : Type 0 where
  note : Document
  album : Document
  broken : Document
  unnamed : Document

abbrev id_of : Document → Text
id_of note = codes "a"
id_of album = codes "b"
id_of broken = codes "c"
id_of unnamed = []

abbrev marshal : Document → Option Text
marshal note = some (codes "12")
marshal album = some (codes "123456")
marshal broken = none
marshal unnamed = some (codes "1")

abbrev codec : Codec Document
codec = record { id_of = id_of; marshal = marshal }

-- Room for two records and six bytes.
abbrev fresh : InMemoryStorage Document
fresh = new_in_memory_storage (pos 2) (pos 6)

abbrev calls : List (Call Document)
calls =
    stores (pos 1) (some note)
    ∷ gets (codes "a")
    ∷ stores (pos 2) (some album)
    ∷ gets (codes "a")
    ∷ stores (pos 3) (some broken)
    ∷ stores (pos 4) (some unnamed)
    ∷ stores (pos 5) none
    ∷ lists (pos 0)
    ∷ cleans (pos 10) (pos 3)
    ∷ lists (pos 9)
    ∷ []

abbrev replies : List (Reply Document)
replies =
    stored (ok tt)
    ∷ got (ok note)
    ∷ stored (ok tt)
    ∷ got (err (Error.metadata_not_found (codes "a")))
    ∷ stored (err Error.marshal_metadata)
    ∷ stored (err Error.metadata_id_empty)
    ∷ stored (err Error.metadata_nil)
    ∷ listed (ok (album ∷ []))
    ∷ cleaned
    ∷ listed (ok [])
    ∷ []

run_calls : (run codec calls fresh).0 ≡ replies
unfolding program
run_calls = refl

small_documents :
    (m : Document) (payload : Text)
    → marshal m ≡ some payload
    → effective 67108864 (pos 6) + length payload < 2 ^ 63
small_documents note payload h = ground arith
small_documents album payload h = ground arith
small_documents broken payload h = ground arith
small_documents unnamed payload h = ground arith

run-spec_run_example :
    ((run codec calls fresh).0 ≡ (spec_run codec 2 6 calls []).0)
    × (entries_of (run codec calls fresh).1.entries ≡ (spec_run codec 2 6 calls []).1)
run-spec_run_example = run-spec_run codec (pos 2) (pos 6) calls small_documents

-- The storage with one note.
abbrev one_note : InMemoryStorage Document
one_note = (store codec (pos 1) (some note) fresh).1

note_named : id_of note ≢ []
note_named = λ e. cc

album_named : id_of album ≢ []
album_named = λ e. cc

fresh-IsValid : IsValid 2 6 fresh
fresh-IsValid = new_in_memory_storage-IsValid (pos 2) (pos 6)

store-Stored_example :
    ((store codec (pos 1) (some note) fresh).0 ≡ ok tt)
    × Stored 2 6
        (entry_of codec (pos 1) note (codes "12"))
        fresh
        (store codec (pos 1) (some note) fresh).1
store-Stored_example =
    store-Stored codec 2 6 (pos 1) note (codes "12") fresh fresh-IsValid note_named refl
      (omega arith)

one_note-IsValid : IsValid 2 6 one_note
one_note-IsValid = store-Stored_example.1.valid

get-store_self_example : get (codes "a") one_note ≡ ok note
get-store_self_example =
    get-store_self codec 2 6 (pos 1) note (codes "12") fresh fresh-IsValid note_named refl
      (omega arith) (omega arith)

get-store_other_example :
    (get (codes "a") (store codec (pos 2) (some album) one_note).1 ≡ get (codes "a") one_note)
    ⊎ (get (codes "a") (store codec (pos 2) (some album) one_note).1
        ≡ err (Error.metadata_not_found (codes "a")))
get-store_other_example =
    get-store_other codec 2 6 (pos 2) album (codes "123456") one_note one_note-IsValid album_named
      refl (omega arith) (codes "a") (λ e. ground arith)

-- Room for two records and four bytes: an album is too large.
abbrev narrow : InMemoryStorage Document
narrow = (store codec (pos 1) (some note) (new_in_memory_storage (pos 2) (pos 4))).1

narrow-IsValid : IsValid 2 4 narrow
narrow-IsValid =
    (store-Stored codec 2 4 (pos 1) note (codes "12") (new_in_memory_storage (pos 2) (pos 4))
      (new_in_memory_storage-IsValid (pos 2) (pos 4)) note_named refl (omega arith)).1.valid

get-store_oversized_example :
    get (codes "a") (store codec (pos 2) (some album) narrow).1
    ≡ err (Error.metadata_not_found (codes "a"))
get-store_oversized_example =
    get-store_oversized codec 2 4 (pos 2) album (codes "123456") narrow narrow-IsValid album_named
      refl (omega arith) (omega arith) (codes "a")

list-take_example :
    list (pos 1) one_note
    ≡ ok (take (effective 2 (pos 1)) (map metadata_of (reverse one_note.entries)))
list-take_example = list-take 2 6 (pos 1) one_note one_note-IsValid

cleanup-IsValid_example :
    IsValid 2 6 (cleanup (pos 10) (pos 3) one_note)
    × ((cleanup (pos 10) (pos 3) one_note).entries
        ≡ keep (is_recent (pos 10 -ℤ pos 3)) one_note.entries)
cleanup-IsValid_example = cleanup-IsValid 2 6 (pos 10) (pos 3) one_note one_note-IsValid

-- A configuration without names or limits.
abbrev blank : Config
blank = record default_config {
  header_name = [];
  max_requests = pos 0;
  max_string_length = negsuc 4;
}

normalize-blank : normalize blank ≡ default_config
unfolding normalize default_config
normalize-blank = refl

normalize-IsNormal_example : IsNormal (normalize blank)
normalize-IsNormal_example = normalize-IsNormal blank

new_storage-IsValid_example : IsValid {M = Document} 200 67108864 (new_storage blank)
unfolding normalize default_config
new_storage-IsValid_example = new_storage-IsValid blank

evict_loop-Evicted_example : Evicted 2 6 one_note (evict_loop 1 one_note)
unfolding program
evict_loop-Evicted_example =
    evict_loop-Evicted 2 6 1 one_note.entries one_note refl (omega arith)
      one_note-IsValid.consistent one_note-IsValid.limits
