-- ===== src/Storage.antt =====
-- storage.go: what every storage backend works with. The errors of the backends, and what a
-- backend uses of a metadata record: its ID field and its JSON encoding.
use go_clockwork.Prelude.{Text, Option, List, ℤ}

-- The errors by their texts in the source; a text that ends in `: %s` carries the id, and the operation
-- of a client that failed carries the text in front of the client's error.
pub data Error : Type 0 where
  metadata_nil : Error
  metadata_id_empty : Error
  marshal_metadata : Error
  metadata_not_found : Text → Error
  storage_not_configured : Error
  unmarshal_metadata : Error
  marshal_index : Error
  unmarshal_index : Error
  endpoint_required : Error
  client_failed : Text → Error

-- `(A, error)`
pub data Result {ℓ} (A : Type ℓ) : Type ℓ where
  ok : A → Result A
  err : Error → Result A

-- `encoding/json` is outside the program: `none` is an error of `json.Marshal`.
pub record Codec (M : Type 0) : Type 0 where
  pub id_of : M → Text
  pub marshal : M → Option Text

-- What a remote backend uses besides: `json.Unmarshal` of a record, and the encoding of a list of ids.
pub record Decoder (M : Type 0) : Type 0 where
  pub unmarshal : Text → Option M
  pub marshal_ids : List Text → Option Text
  pub unmarshal_ids : Text → Option (List Text)

-- `Storage`: the operations of a backend with a state of type `S`. The times are those of the calls.
pub record Storage (S M : Type 0) : Type 0 where
  pub store : ℤ → Option M → S → Result (Unit {0}) × S
  pub get : Text → S → Result M
  pub list : ℤ → S → Result (List M)
  pub cleanup : ℤ → ℤ → S → Result (Unit {0}) × S
