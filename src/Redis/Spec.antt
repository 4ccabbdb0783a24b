-- ===== src/Redis/Spec.antt =====
-- What the storage on Redis promises: a log of ids and records, newest first. A Store of an id that is in
-- the log adds a second entry, and a listing shows the newest record of the id for both.
use go_clockwork.Prelude.{
  ℕ, Option, none, some, List, [], ◌∷◌, if◌then◌else◌, take, Text, is_empty, ℤ, is_pos, pos_part,
  Map, lookup,
}
use go_clockwork.Storage.{Error, ok, err, Codec, Decoder}
use go_clockwork.Backend.{Call, stores, gets, lists, Reply, stored, got, listed, found}
use go_clockwork.Redis.{Client, Settings, store, get, list}

module _ {M S : Type 0} (codec : Codec M) (decoder : Decoder M) (client : Client S)
    (s : Settings) where
  -- One call on the storage of the program.
  unfoldable pub step : Call M → S → Reply M × S
  step (stores m) server =
      (stored (store codec decoder client s m server).0, (store codec decoder client s m server).1)
  step (gets id) server = (got (get codec decoder client s id server), server)
  step (lists limit) server = (listed (list codec decoder client s limit server), server)

  unfoldable pub run : List (Call M) → S → List (Reply M) × S
  unfolding step
  run [] server = ([], server)
  run (c ∷ cs) server =
      let after = step c server in let rest = run cs after.1 in (after.0 ∷ rest.0, rest.1)

module _ {M : Type 0} where
  abbrev pub logged_ids : Map M → List Text
  logged_ids [] = []
  logged_ids ((k, m) ∷ log) = k ∷ logged_ids log

  -- The newest record of each id of a list.
  unfoldable pub newest_records : Map M → List Text → List M
  newest_records log [] = []
  newest_records log (k ∷ ids) =
      let rest = newest_records log ids in elim (lookup k log) [ none ↦ rest | some m ↦ m ∷ rest ]

-- The ids that the index keeps: the newest ones, as many as the limit says, or all.
abbrev pub kept : ℤ → List Text → List Text
kept max ids = if is_pos max then take (pos_part max) ids else ids

-- How many entries a listing shows.
abbrev pub shown : ℤ → ℤ → ℕ
shown max limit = if is_pos limit then pos_part limit else (if is_pos max then pos_part max else 50)

module _ {M : Type 0} (codec : Codec M) (view : M → M) (max_entries : ℤ) where
  spec_store : M → Option Text → Map M → Reply M × Map M
  spec_store m none log = (stored (err Error.marshal_metadata), log)
  spec_store m (some payload) log = (stored (ok tt), (codec.id_of m, view m) ∷ log)

  -- One call as the storage promises it.
  unfoldable pub spec_step : Call M → Map M → Reply M × Map M
  unfolding spec_store
  spec_step (stores none) log = (stored (err Error.metadata_nil), log)
  spec_step (stores (some m)) log =
      if is_empty (codec.id_of m)
      then (stored (err Error.metadata_id_empty), log)
      else spec_store m (codec.marshal m) log
  spec_step (gets id) log = (got (found id (lookup id log)), log)
  spec_step (lists limit) log = (
    listed (
        ok (
          newest_records log (take (shown max_entries limit) (kept max_entries (logged_ids log))))),
    log,
  )

  unfoldable pub spec_run : List (Call M) → Map M → List (Reply M) × Map M
  unfolding spec_step
  spec_run [] log = ([], log)
  spec_run (c ∷ cs) log =
      let after = spec_step c log in let rest = spec_run cs after.1 in (after.0 ∷ rest.0, rest.1)
