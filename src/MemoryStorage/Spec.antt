-- ===== src/MemoryStorage/Spec.antt =====
-- What the in-memory storage promises, without list elements, identities, map and byte counter: a
-- list of entries, oldest first, without repeated ids and within two limits.
use go_clockwork.Prelude.{
  ℕ, ◌+◌, not, ◌&&◌, Option, none, some, List, [], ◌∷◌, ◌++◌, map, take, keep, if◌then◌else◌, Text,
  text_eq, ℤ, is_pos, is_empty, ltb_ℤ, ◌-ℤ◌, length, leb,
}
use mathlib.Core.List.{reverse}
use go_clockwork.Storage.{Error, Result, ok, err, Codec}
use go_clockwork.MemoryStorage.{Entry, InMemoryStorage, store, get, list, cleanup}
use go_clockwork.MemoryStorage.Store.{effective, entry_of}

-- The calls of the `Storage` interface, each with the time at which it is made where it matters.
pub data Call (M : Type 0) : Type 0 where
  stores : ℤ → Option M → Call M
  gets : Text → Call M
  lists : ℤ → Call M
  cleans : ℤ → ℤ → Call M

pub data Reply (M : Type 0) : Type 0 where
  stored : Result (Unit {0}) → Reply M
  got : Result M → Reply M
  listed : Result (List M) → Reply M
  cleaned : Reply M

module _ {M : Type 0} (codec : Codec M) where
  -- One call on the storage of the program.
  unfoldable pub step : Call M → InMemoryStorage M → Reply M × InMemoryStorage M
  step (stores now m) s = (stored (store codec now m s).0, (store codec now m s).1)
  step (gets id) s = (got (get id s), s)
  step (lists limit) s = (listed (list limit s), s)
  step (cleans now max_age) s = (cleaned, cleanup now max_age s)

  unfoldable pub run : List (Call M) → InMemoryStorage M → List (Reply M) × InMemoryStorage M
  unfolding step
  run [] s = ([], s)
  run (c ∷ cs) s = let after = step c s in let rest = run cs after.1 in (after.0 ∷ rest.0, rest.1)

module _ {M : Type 0} where
  abbrev pub find_entry : Text → List (Entry M) → Option (Entry M)
  find_entry k [] = none
  find_entry k (e ∷ es) = if text_eq e.id k then some e else find_entry k es

  abbrev pub total : List (Entry M) → ℕ
  total [] = 0
  total (e ∷ es) = e.bytes + total es

  -- The longest end of the list within the limits.
  abbrev pub shrink : ℕ → ℕ → List (Entry M) → List (Entry M)
  shrink entry_cap byte_cap [] = []
  shrink entry_cap byte_cap (e ∷ es) =
      if leb (length (e ∷ es)) entry_cap && leb (total (e ∷ es)) byte_cap
      then e ∷ es
      else shrink entry_cap byte_cap es

  abbrev pub found_entry : Text → Option (Entry M) → Result M
  found_entry k none = err (Error.metadata_not_found k)
  found_entry k (some e) = ok e.metadata

  abbrev pub read_metadata : Entry M → M
  read_metadata e = e.metadata

module _ {M : Type 0} (codec : Codec M) (entry_cap byte_cap : ℕ) where
  -- The list after a `Store` of an entry.
  abbrev pub put : Entry M → List (Entry M) → List (Entry M)
  put entry es =
      shrink entry_cap byte_cap (keep (λ e. not (text_eq e.id entry.id)) es ++ entry ∷ [])

  spec_store_payload : ℤ → M → Option Text → List (Entry M) → Reply M × List (Entry M)
  spec_store_payload now m none es = (stored (err Error.marshal_metadata), es)
  spec_store_payload now m (some payload) es =
      (stored (ok tt), put (entry_of codec now m payload) es)

  -- One call as the interface promises it.
  unfoldable pub spec_step : Call M → List (Entry M) → Reply M × List (Entry M)
  unfolding spec_store_payload
  spec_step (stores now none) es = (stored (err Error.metadata_nil), es)
  spec_step (stores now (some m)) es =
      if is_empty (codec.id_of m)
      then (stored (err Error.metadata_id_empty), es)
      else spec_store_payload now m (codec.marshal m) es
  spec_step (gets id) es = (got (found_entry id (find_entry id es)), es)
  spec_step (lists limit) es =
      (listed (ok (take (effective entry_cap limit) (map read_metadata (reverse es)))), es)
  spec_step (cleans now max_age) es = (
    cleaned,
    if is_pos max_age then keep (λ e. not (ltb_ℤ e.created_at (now -ℤ max_age))) es else es,
  )

  unfoldable pub spec_run : List (Call M) → List (Entry M) → List (Reply M) × List (Entry M)
  unfolding spec_step
  spec_run [] es = ([], es)
  spec_run (c ∷ cs) es =
      let after = spec_step c es in let rest = spec_run cs after.1 in (after.0 ∷ rest.0, rest.1)
