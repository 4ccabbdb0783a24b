-- ===== src/MemoryStorage.antt =====
-- storage_memory.go: the bounded in-memory storage, a `container/list` of entries with a map from
-- ids to list elements. An element is a pointer in the source, so it carries an identity here.
-- Times are nanoseconds; the clock is an argument. The mutex makes each method one step.
use go_clockwork.Prelude.{
  ℕ, zero, suc, ◌*◌, Bool, ◌&&◌, ◌||◌, Option, none, some, List, [], ◌∷◌, ◌++◌, if◌then◌else◌, ◌==◌,
  length, Text, is_empty, Map, lookup, insert, delete, ℤ, pos, negsuc, is_pos, ltb_ℤ, add_int,
  sub_int, ◌-ℤ◌,
}
pub mod Elements
pub mod Window
pub mod Invariant
pub mod Eviction
pub mod Store
pub mod Reads
pub mod Cleanup
pub mod Spec
pub mod Refinement
use mathlib.Core.List.{reverse}
use go_clockwork.Config.{Config, normalize}
use go_clockwork.Storage.{Error, Result, ok, err, Codec}

-- `memoryEntry`; `bytes` is a length, so it is not negative.
pub record Entry (M : Type 0) : Type 0 where
  pub id : Text
  pub metadata : M
  pub created_at : ℤ
  pub bytes : ℕ

-- `list.Element`
pub record Element (M : Type 0) : Type 0 where
  pub handle : ℕ
  pub entry : Entry M

-- `InMemoryStorage`. `next_handle` is the identity of the next element that is allocated.
pub record InMemoryStorage (M : Type 0) : Type 0 where
  pub entries : List (Element M)
  pub by_id : Map (Element M)
  pub max_entries : ℤ
  pub max_bytes : ℤ
  pub total_bytes : ℤ
  pub next_handle : ℕ

-- `if s.totalBytes < 0 { s.totalBytes = 0 }`
abbrev clamp : ℤ → ℤ
clamp (pos n) = pos n
clamp (negsuc n) = pos 0

module _ {M : Type 0} where
  -- `NewInMemoryStorage`
  unfoldable pub new_in_memory_storage : ℤ → ℤ → InMemoryStorage M
  new_in_memory_storage max_entries max_bytes = record {
    entries = [];
    by_id = [];
    max_entries = if is_pos max_entries then max_entries else pos 200;
    max_bytes = if is_pos max_bytes then max_bytes else pos (64 * 1024 * 1024);
    total_bytes = pos 0;
    next_handle = 0;
  }

  -- `NewStorage`
  unfoldable pub new_storage : Config → InMemoryStorage M
  new_storage cfg =
      let n = normalize cfg in new_in_memory_storage n.max_requests n.max_storage_bytes

  -- `entries.Remove(elem)`: nothing happens if the element is not in the list.
  unfoldable pub unlink : ℕ → List (Element M) → List (Element M)
  unlink h [] = []
  unlink h (e ∷ es) = if e.handle == h then es else e ∷ unlink h es

  -- `removeElementLocked`
  unfoldable pub remove_element : Element M → InMemoryStorage M → InMemoryStorage M
  remove_element e s = record s {
    by_id = delete e.entry.id s.by_id;
    total_bytes = clamp (sub_int s.total_bytes (pos e.entry.bytes));
    entries = unlink e.handle s.entries;
  }

  -- The condition of the loop in `evictLocked`.
  abbrev pub over_limit : InMemoryStorage M → Bool
  over_limit s =
      ltb_ℤ s.max_entries (pos (length s.entries))
      || (is_pos s.max_bytes && ltb_ℤ s.max_bytes s.total_bytes)

  -- The loop of `evictLocked`, on fuel.
  unfoldable pub evict_loop : ℕ → InMemoryStorage M → InMemoryStorage M
  evict_loop zero s = s
  evict_loop (suc fuel) s =
      let next : InMemoryStorage M = elim s.entries [
        | [] ↦ s
        | e ∷ _ ↦ evict_loop fuel (remove_element e s)
      ] in
      if over_limit s then next else s

  -- `evictLocked`: a round removes an element, so the list's length bounds the rounds.
  unfoldable pub evict : InMemoryStorage M → InMemoryStorage M
  unfolding evict_loop
  evict s = evict_loop (length s.entries) s

  -- `if existing, ok := s.byID[id]; ok { removeElementLocked(existing) }`
  unfoldable pub replace_existing : Text → InMemoryStorage M → InMemoryStorage M
  unfolding remove_element
  replace_existing id s = elim (lookup id s.by_id) [ none ↦ s | some e ↦ remove_element e s ]

  -- `PushBack`, with the map and the byte count.
  unfoldable pub push_back : Entry M → InMemoryStorage M → InMemoryStorage M
  push_back entry s =
      let e : Element M = record { handle = s.next_handle; entry = entry } in
      record s {
        entries = s.entries ++ e ∷ [];
        by_id = insert entry.id e s.by_id;
        total_bytes = add_int s.total_bytes (pos entry.bytes);
        next_handle = suc s.next_handle;
      }

  module _ (codec : Codec M) where
    -- `Store` behind `json.Marshal`.
    unfoldable pub store_payload :
        ℤ → M → Option Text → InMemoryStorage M → Result (Unit {0}) × InMemoryStorage M
    unfolding evict replace_existing push_back
    store_payload now m none s = (err Error.marshal_metadata, s)
    store_payload now m (some payload) s =
        let entry : Entry M = record {
          id = codec.id_of m;
          metadata = m;
          created_at = now;
          bytes = length payload;
        } in
        (ok tt, evict (push_back entry (replace_existing (codec.id_of m) s)))

    -- `Store` at the time `now`.
    unfoldable pub store : ℤ → Option M → InMemoryStorage M → Result (Unit {0}) × InMemoryStorage M
    unfolding store_payload
    store now none s = (err Error.metadata_nil, s)
    store now (some m) s =
        if is_empty (codec.id_of m)
        then (err Error.metadata_id_empty, s)
        else store_payload now m (codec.marshal m) s

  -- `Get`
  unfoldable pub get : Text → InMemoryStorage M → Result M
  get id s = elim (lookup id s.by_id) [
    | none ↦ err (Error.metadata_not_found id)
    | some e ↦ ok e.entry.metadata
  ]

  -- The loop of `List`, from the back of the list.
  unfoldable pub collect : ℤ → List (Element M) → List M → List M
  collect limit [] out = out
  collect limit (e ∷ es) out =
      if ltb_ℤ (pos (length out)) limit
      then collect limit es (out ++ e.entry.metadata ∷ [])
      else out

  -- `List`
  unfoldable pub list : ℤ → InMemoryStorage M → Result (List M)
  unfolding collect
  list limit s =
      let limit' = if is_pos limit then limit else s.max_entries in
      ok (collect limit' (reverse s.entries) [])

  -- The loop of `Cleanup`: `next` is read before the element is removed, so the loop visits the
  -- elements that the list held at its start.
  unfoldable pub cleanup_loop : ℤ → List (Element M) → InMemoryStorage M → InMemoryStorage M
  unfolding remove_element
  cleanup_loop cutoff [] s = s
  cleanup_loop cutoff (e ∷ es) s =
      cleanup_loop cutoff es (if ltb_ℤ e.entry.created_at cutoff then remove_element e s else s)

  -- `Cleanup` at the time `now`.
  unfoldable pub cleanup : ℤ → ℤ → InMemoryStorage M → InMemoryStorage M
  unfolding cleanup_loop
  cleanup now max_age s = if is_pos max_age then cleanup_loop (now -ℤ max_age) s.entries s else s
