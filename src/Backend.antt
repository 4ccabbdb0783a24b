-- ===== src/Backend.antt =====
-- What the storages on remote servers share: the answers of a client, the calls of the `Storage`
-- interface as data, and keys with a common prefix.
use go_clockwork.Prelude.{
  ◌≡◌, refl, Option, none, some, List, [], ◌∷◌, ◌++◌, arith, Text, text_eq, ℤ,
}
use go_clockwork.Storage.{Error, Result, ok, err, Decoder}

-- What `Get` of the client gives: the value of a key, the error for a missing key, or another error.
pub data Fetch : Type 0 where
  hit : Text → Fetch
  miss : Fetch
  failed : Fetch

-- The calls of the `Storage` interface; Cleanup does nothing.
pub data Call (M : Type 0) : Type 0 where
  stores : Option M → Call M
  gets : Text → Call M
  lists : ℤ → Call M

pub data Reply (M : Type 0) : Type 0 where
  stored : Result (Unit {0}) → Reply M
  got : Result M → Reply M
  listed : Result (List M) → Reply M

abbrev pub found : {M : Type 0} → Text → Option M → Result M
found id none = err (Error.metadata_not_found id)
found id (some m) = ok m

pub text_eq-append : (p a b : Text) → text_eq (p ++ a) (p ++ b) ≡ text_eq a b
unfolding text_eq
text_eq-append [] a b = refl
text_eq-append (c ∷ p) a b = ground (arith, text_eq-append p a b)

-- What the answer to a request for a record tells: `none` if it tells nothing.
abbrev pub answer : {M : Type 0} → Decoder M → Fetch → Option (Option M)
answer decoder miss = some none
answer decoder failed = none
answer decoder (hit value) = elim (decoder.unmarshal value) [ none ↦ none | some m ↦ some (some m) ]
