-- ===== src/Memcache/Spec.antt =====
-- What the storage on memcached promises, without servers, keys and an index: a list of ids and records,
-- newest first, without repeated ids. A record is kept as JSON gives it back.
use go_clockwork.Prelude.{
  Option, none, some, List, [], ◌∷◌, if◌then◌else◌, take, Text, is_empty, ℤ, is_pos, pos_part, Map,
  lookup, delete,
}
use go_clockwork.Storage.{Error, ok, err, Codec, Decoder}
use go_clockwork.Backend.{Call, stores, gets, lists, Reply, stored, got, listed, found}
use go_clockwork.Memcache.{Client, Settings, store, get, list}
use go_clockwork.Memcache.Index.{values, kept}

module _ {M S : Type 0} (codec : Codec M) (decoder : Decoder M) (client : Client S)
    (s : Settings) where
  -- One call on the storage of the program.
  unfoldable pub step : Call M → S → Reply M × S
  step (stores m) servers = (
    stored (store codec decoder client s m servers).0,
    (store codec decoder client s m servers).1,
  )
  step (gets id) servers = (got (get codec decoder client s id servers), servers)
  step (lists limit) servers = (listed (list codec decoder client s limit servers), servers)

  unfoldable pub run : List (Call M) → S → List (Reply M) × S
  unfolding step
  run [] servers = ([], servers)
  run (c ∷ cs) servers =
      let after = step c servers in let rest = run cs after.1 in (after.0 ∷ rest.0, rest.1)

module _ {M : Type 0} where
  -- The newest ones, as many as the limit says, or all.
  abbrev pub newest : ℤ → List M → List M
  newest limit ms = if is_pos limit then take (pos_part limit) ms else ms

module _ {M : Type 0} (codec : Codec M) (view : M → M) (max_entries : ℤ) where
  abbrev pub put : M → Map M → Map M
  put m es = kept max_entries ((codec.id_of m, view m) ∷ delete (codec.id_of m) es)

  spec_store : M → Option Text → Map M → Reply M × Map M
  spec_store m none es = (stored (err Error.marshal_metadata), es)
  spec_store m (some payload) es = (stored (ok tt), put m es)

  -- One call as the interface promises it.
  unfoldable pub spec_step : Call M → Map M → Reply M × Map M
  unfolding spec_store
  spec_step (stores none) es = (stored (err Error.metadata_nil), es)
  spec_step (stores (some m)) es =
      if is_empty (codec.id_of m)
      then (stored (err Error.metadata_id_empty), es)
      else spec_store m (codec.marshal m) es
  spec_step (gets id) es = (got (found id (lookup id es)), es)
  spec_step (lists limit) es = (listed (ok (newest limit (values es))), es)

  unfoldable pub spec_run : List (Call M) → Map M → List (Reply M) × Map M
  unfolding spec_step
  spec_run [] es = ([], es)
  spec_run (c ∷ cs) es =
      let after = spec_step c es in let rest = spec_run cs after.1 in (after.0 ∷ rest.0, rest.1)
