-- ===== src/Redis/Laws.antt =====
-- What the storage on Redis relies on: a server that answers and keeps what is stored, with the
-- documented effect of each command, and records that can be read back.
use go_clockwork.Prelude.{
  ℕ, suc, ◌-◌, Bool, false, not, ◌&&◌, ◌≡◌, true, Option, none, some, List, [], ◌∷◌, ◌++◌, drop,
  take, if◌then◌else◌, arith, Text, codes, text_eq, text_eq_iff, refl, ◌⊎◌, inl, inr, ℤ, pos,
  negsuc, is_pos, pos_part, zero, take_nil,
}
use go_clockwork.Storage.{Codec, Decoder}
use go_clockwork.Backend.{Fetch, hit, miss, failed, text_eq-append}
use go_clockwork.Redis.{Command, sets, pushes, trims, expires, Client, Settings, req_key, pipeline}
use go_clockwork.Redis.Spec.{kept}

-- What stands at a key: nothing, a string, or a list that is not empty. All keys are in one space.
pub data Item : Type 0 where
  absent : Item
  string : Text → Item
  list_of : List Text → Item

abbrev pub as_list : List Text → Item
as_list [] = absent
as_list (item ∷ items) = list_of (item ∷ items)

-- LPUSH and LTRIM are errors on a string, which stays.
abbrev pub pushed : Text → Item → Item
pushed item absent = list_of (item ∷ [])
pushed item (string v) = string v
pushed item (list_of l) = list_of (item ∷ l)

abbrev pub trimmed : ℕ → ℕ → Item → Item
trimmed start stop absent = absent
trimmed start stop (string v) = string v
trimmed start stop (list_of l) = as_list (take (suc stop - start) (drop start l))

abbrev pub is_string : Item → Bool
is_string absent = false
is_string (string v) = true
is_string (list_of l) = false

-- The item at a key after a command: SET replaces an item of any kind, and EXPIRE deletes it if the
-- time to live is not positive.
abbrev pub item_after : Text → Command → Item → Item
item_after k (sets j payload ttl) x = if text_eq j k then string payload else x
item_after k (pushes j item) x = if text_eq j k then pushed item x else x
item_after k (trims j start stop) x = if text_eq j k then trimmed start stop x else x
item_after k (expires j ttl) x = if text_eq j k && not (is_pos ttl) then absent else x

abbrev pub item_after_all : Text → List Command → Item → Item
item_after_all k [] x = x
item_after_all k (c ∷ cs) x = item_after_all k cs (item_after k c x)

-- A command fails on an item of the wrong kind.
abbrev pub fails : (Text → Item) → Command → Bool
fails items (sets j payload ttl) = false
fails items (pushes j item) = is_string (items j)
fails items (trims j start stop) = is_string (items j)
fails items (expires j ttl) = false

-- A pipeline has no error if none of its commands fails; each one is executed in any case.
abbrev pub succeeds : (Text → Item) → List Command → Bool
succeeds items [] = true
succeeds items (c ∷ cs) = not (fails items c) && succeeds (λ k. item_after k c (items k)) cs

-- `GET` of a list is an error, and `LRANGE` of a string.
abbrev pub fetched : Item → Fetch
fetched absent = miss
fetched (string v) = hit v
fetched (list_of l) = failed

abbrev pub ranged : ℕ → ℕ → Item → Option (List Text)
ranged start stop absent = some []
ranged start stop (string v) = none
ranged start stop (list_of l) = some (take (suc stop - start) (drop start l))

-- The server answers, has room, and no key gets too old. `item_at` is what it holds.
pub record IsHealthy {S : Type 0} (client : Client S) (item_at : Text → S → Item) : Type 0 where
  pub accepts :
      (cs : List Command) (server : S)
      → (client.exec cs server).0 ≡ succeeds (λ k. item_at k server) cs
  pub items :
      (k : Text) (cs : List Command) (server : S)
      → item_at k (client.exec cs server).1 ≡ item_after_all k cs (item_at k server)
  pub get : (k : Text) (server : S) → client.get k server ≡ fetched (item_at k server)
  pub lrange :
      (k : Text) (start stop : ℕ) (server : S)
      → client.lrange k start stop server ≡ ranged start stop (item_at k server)

-- JSON gives `view m` for a record `m`.
abbrev pub IsFaithful : {M : Type 0} → Codec M → Decoder M → (M → M) → Type 0
IsFaithful {M} codec decoder view =
    (m : M) (payload : Text)
    → codec.marshal m ≡ some payload
    → decoder.unmarshal payload ≡ some (view m)

-- The settings as `New` makes them.
pub record IsMade (s : Settings) : Type 0 where
  pub index_key : s.index_key ≡ s.prefix ++ codes ":index"
  pub ttl : is_pos s.ttl ≡ true

pushed-as_list : (id : Text) (l : List Text) → pushed id (as_list l) ≡ as_list (id ∷ l)
pushed-as_list id [] = refl
pushed-as_list id (x ∷ l) = refl

is_string-as_list : (l : List Text) → is_string (as_list l) ≡ false
is_string-as_list [] = refl
is_string-as_list (x ∷ l) = refl

pub ranged-as_list :
    (stop : ℕ) (l : List Text) → ranged 0 stop (as_list l) ≡ some (take (suc stop - 0) l)
ranged-as_list stop [] = rw (take_nil {A = Text} (suc stop - 0)) refl
ranged-as_list stop (x ∷ l) = refl

max-cases :
    (max : ℤ)
    → (is_pos max ≡ false) ⊎ ((is_pos max ≡ true) × (suc (pos_part max - 1) - 0 ≡ pos_part max))
max-cases (negsuc n) = inl refl
max-cases (pos zero) = inl refl
max-cases (pos (suc n)) = inr (ground arith, omega arith)

module _ (s : Settings) where
  text_eq-req_key : (a b : Text) → text_eq (req_key s a) (req_key s b) ≡ text_eq a b
  unfolding text_eq
  text_eq-req_key a b = text_eq-append s.prefix (codes ":req:" ++ a) (codes ":req:" ++ b)

  -- The keys of records and the key of the index do not collide.
  index_key_apart : (a : Text) → IsMade s → text_eq (req_key s a) s.index_key ≡ false
  unfolding text_eq
  index_key_apart a made =
      rw made.index_key (text_eq-append s.prefix (codes ":req:" ++ a) (codes ":index"))

  req_key_apart : (a : Text) → IsMade s → text_eq s.index_key (req_key s a) ≡ false
  unfolding text_eq
  req_key_apart a made =
      rw made.index_key (text_eq-append s.prefix (codes ":index") (codes ":req:" ++ a))

  -- The item at the key of a record after the pipeline of a Store.
  pub item_after-pipeline :
      (k id payload : Text) (x : Item)
      → IsMade s
      → item_after_all (req_key s k) (pipeline s id payload) x
        ≡ (if text_eq id k then string payload else x)
  unfolding pipeline
  item_after-pipeline k id payload x made =
      ground (arith, text_eq-req_key id k, req_key_apart k made, made.ttl)

  text_eq_self : text_eq s.index_key s.index_key ≡ true
  text_eq_self = ground (arith, text_eq_iff s.index_key s.index_key)

  -- The index after the pipeline of a Store.
  pub index_after-pipeline :
      (id payload : Text) (l : List Text)
      → IsMade s
      → item_after_all s.index_key (pipeline s id payload) (as_list l)
        ≡ as_list (kept s.max_entries (id ∷ l))
  unfolding pipeline
  index_after-pipeline id payload l made = elim (max-cases s.max_entries) [
    | inl unbounded ↦
        rw (unbounded, made.ttl, index_key_apart id made, text_eq_self) (pushed-as_list id l)
    | inr (bounded, size) ↦
        rw (bounded, made.ttl, index_key_apart id made, text_eq_self, pushed-as_list id l, size)
          refl
  ]

  -- No command of the pipeline fails on an index that is a list.
  pub succeeds-pipeline :
      (id payload : Text) (l : List Text) (items : Text → Item)
      → IsMade s
      → items s.index_key ≡ as_list l
      → succeeds items (pipeline s id payload) ≡ true
  unfolding pipeline
  succeeds-pipeline id payload l items made at_index = elim (max-cases s.max_entries) [
    | inl unbounded ↦
        rw (unbounded, index_key_apart id made, at_index) (ground (arith, is_string-as_list l))
    | inr (bounded, size) ↦
        rw
          (
            bounded,
            index_key_apart id made,
            at_index,
            is_string-as_list l,
            text_eq_self,
            pushed-as_list id l,
          )
          refl
  ]
