-- ===== src/MemoryStorage/Store.antt =====
-- storage_memory.go: Store and Get.
use go_clockwork.Prelude.{
  ℕ, ◌+◌, ◌≤◌, ◌<◌, ◌^◌, ◌≡◌, ◌≢◌, refl, true, false, none, some, [], ◌∷◌, ◌++◌, if◌then◌else◌,
  arith, Text, ap, ◌∙◌, ℤ, pos, negsuc, pos_part, ap₂, le_refl, length, lookup, is_empty, is_pos,
}
use go_clockwork.Storage.{Error, ok, err, Codec}
use go_clockwork.MemoryStorage.{
  Entry, InMemoryStorage, replace_existing, push_back, evict, store, store_payload,
  new_in_memory_storage, new_storage,
}
use go_clockwork.Config.{Config, normalize}
use go_clockwork.Config.Normalize.{normalize-IsNormal}
use go_clockwork.MemoryStorage.Elements.{find, without, sizes, sizes-without-le, find-without_self}
use go_clockwork.MemoryStorage.Window.{newest, newest-fits}
use go_clockwork.MemoryStorage.Invariant.{
  IsConsistent, push_back-IsConsistent, replace_existing_lem,
}
use go_clockwork.MemoryStorage.Eviction.{HasLimits, evict_loop-Evicted}

-- A limit as the constructor reads it.
abbrev pub effective : ℕ → ℤ → ℕ
effective default limit = pos_part (if is_pos limit then limit else pos default)

pub effective_lem :
    (default : ℕ) (limit : ℤ)
    → 0 < default
    → ((if is_pos limit then limit else pos default) ≡ pos (effective default limit))
      × (0 < effective default limit)
effective_lem default (pos n) h = ground arith
effective_lem default (negsuc n) h = (refl, h)

if_true :
    (limit : ℤ) (default : ℕ)
    → is_pos limit ≡ true
    → (if is_pos limit then limit else pos default) ≡ limit
if_true limit default h = rw h

module _ {M : Type 0} where
  -- The invariant: the storage is consistent and within its limits.
  pub record IsValid (entry_cap byte_cap : ℕ) (s : InMemoryStorage M) : Type 0 where
    pub consistent : IsConsistent s
    pub limits : HasLimits entry_cap byte_cap s
    pub few : length s.entries ≤ entry_cap
    pub small : sizes s.entries ≤ byte_cap

  -- A new storage is empty and valid; a limit that is not positive is replaced by its default, 200
  -- entries or 64 MiB.
  pub new_in_memory_storage-IsValid :
      (max_entries max_bytes : ℤ)
      → IsValid
          (effective 200 max_entries)
          (effective 67108864 max_bytes)
          (new_in_memory_storage max_entries max_bytes)
  unfolding new_in_memory_storage
  new_in_memory_storage-IsValid max_entries max_bytes =
      let (entries_limit, entry_cap_pos) = effective_lem 200 max_entries (omega arith) in
      let (bytes_limit, byte_cap_pos) = effective_lem 67108864 max_bytes (omega arith) in
      record {
        consistent = record {
          indexed = λ k. unfold lookup in refl;
          distinct = tt;
          ordered = omega arith;
          counted = refl;
          representable = omega arith;
        };
        limits = record {
          entries_limit = entries_limit;
          bytes_limit = bytes_limit;
          entry_cap_pos = entry_cap_pos;
          byte_cap_pos = byte_cap_pos;
        };
        few = omega arith;
        small = omega arith;
      }

  -- The storage that is made from a configuration is valid for the limits of the normalised one.
  pub new_storage-IsValid :
      (cfg : Config)
      → let n = normalize cfg in
        IsValid (pos_part n.max_requests) (pos_part n.max_storage_bytes) (new_storage cfg)
  unfolding new_storage
  new_storage-IsValid cfg =
      let n = normalize cfg in
      let normal = normalize-IsNormal cfg in
      rw
        (
          ap pos_part (if_true n.max_requests 200 normal.max_requests),
          ap pos_part (if_true n.max_storage_bytes 67108864 normal.max_storage_bytes),
        )
        at (new_in_memory_storage-IsValid n.max_requests n.max_storage_bytes)

  -- What `Store` leaves behind when it stores an entry of the size of its payload.
  pub record Stored (entry_cap byte_cap : ℕ) (entry : Entry M) (s t : InMemoryStorage M)
      : Type 0 where
    pub valid : IsValid entry_cap byte_cap t
    pub window :
        t.entries
        ≡ newest entry_cap byte_cap
            (without entry.id s.entries ++ record { handle = s.next_handle; entry = entry } ∷ [])

  push_back-entries :
      (entry : Entry M) (s : InMemoryStorage M)
      → (push_back entry s).entries
        ≡ s.entries ++ record { handle = s.next_handle; entry = entry } ∷ []
  unfolding push_back
  push_back-entries entry s = refl

  push_back-HasLimits :
      (entry_cap byte_cap : ℕ) (entry : Entry M) (s : InMemoryStorage M)
      → HasLimits entry_cap byte_cap s
      → HasLimits entry_cap byte_cap (push_back entry s)
  unfolding push_back
  push_back-HasLimits entry_cap byte_cap entry s l = ground arith

  store_entry-Stored :
      (entry_cap byte_cap : ℕ) (entry : Entry M) (s : InMemoryStorage M)
      → IsValid entry_cap byte_cap s
      → byte_cap + entry.bytes < 2 ^ 63
      → Stored entry_cap byte_cap entry s (evict (push_back entry (replace_existing entry.id s)))
  unfolding evict
  store_entry-Stored entry_cap byte_cap entry s v h =
      let (consistent, kept, same_entries, same_bytes, same_next) =
        replace_existing_lem entry.id s v.consistent in
      let shrunk = ap sizes kept in
      let pushed =
        push_back-IsConsistent entry (replace_existing entry.id s) consistent
          (ap (find entry.id) kept ∙ find-without_self entry.id s.entries)
          (omega (arith, sizes-without-le entry.id s.entries)) in
      let e =
        evict_loop-Evicted entry_cap byte_cap _ _ (push_back entry (replace_existing entry.id s))
          refl (le_refl _) pushed
          (push_back-HasLimits entry_cap byte_cap entry (replace_existing entry.id s) (record {
            entries_limit = same_entries ∙ v.limits.entries_limit;
            bytes_limit = same_bytes ∙ v.limits.bytes_limit;
            entry_cap_pos = v.limits.entry_cap_pos;
            byte_cap_pos = v.limits.byte_cap_pos;
          })) in
      let window =
        e.window
        ∙ ap (newest entry_cap byte_cap) (
            push_back-entries entry (replace_existing entry.id s)
            ∙ ap₂ (λ es n. es ++ record { handle = n; entry = entry } ∷ []) kept same_next) in
      let (few, small) =
        newest-fits entry_cap byte_cap
          (without entry.id s.entries ++ record { handle = s.next_handle; entry = entry } ∷ []) in
      record {
        valid = record {
          consistent = e.consistent;
          limits = e.limits;
          few = rw window few;
          small = rw window small;
        };
        window = window;
      }

pub is_empty_of_ne : (t : Text) → t ≢ [] → is_empty t ≡ false
is_empty_of_ne [] h = absurd (h refl)
is_empty_of_ne (c ∷ t) h = refl

module _ {M : Type 0} (codec : Codec M) where
  -- The entry that `Store` makes of a record.
  abbrev pub entry_of : ℤ → M → Text → Entry M
  entry_of now m payload = record {
    id = codec.id_of m;
    metadata = m;
    created_at = now;
    bytes = length payload;
  }

  -- In a valid storage, a record with an id that can be encoded is stored if its size and the limit
  -- of bytes together do not overflow an int64: the error is nil, the storage stays valid, and it
  -- holds the newest entries that fit, the new one last and no older one of its id.
  pub store-Stored :
      (entry_cap byte_cap : ℕ) (now : ℤ) (m : M) (payload : Text) (s : InMemoryStorage M)
      → IsValid entry_cap byte_cap s
      → codec.id_of m ≢ []
      → codec.marshal m ≡ some payload
      → byte_cap + length payload < 2 ^ 63
      → ((store codec now (some m) s).0 ≡ ok tt)
        × Stored entry_cap byte_cap (entry_of now m payload) s (store codec now (some m) s).1
  unfolding store
  store-Stored entry_cap byte_cap now m payload s v named encoded fits =
      rw (is_empty_of_ne (codec.id_of m) named, encoded, store_payload)
        (refl, store_entry-Stored entry_cap byte_cap (entry_of now m payload) s v fits)

  -- `Store` refuses a nil record, an empty id and a record that cannot be encoded, each with its
  -- error, and changes nothing then.
  pub store_refused :
      (now : ℤ) (s : InMemoryStorage M)
      → (store codec now none s ≡ (err Error.metadata_nil, s))
        × ((m : M)
            → codec.id_of m ≡ []
            → store codec now (some m) s ≡ (err Error.metadata_id_empty, s))
        × ((m : M)
            → codec.id_of m ≢ []
            → codec.marshal m ≡ none
            → store codec now (some m) s ≡ (err Error.marshal_metadata, s))
  unfolding store
  store_refused now s =
      (refl, λ m e. rw e, λ m named e. rw (is_empty_of_ne (codec.id_of m) named, e))
