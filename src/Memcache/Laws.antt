-- ===== src/Memcache/Laws.antt =====
-- What the storage on memcached relies on: servers that answer and keep what is stored, an encoding of
-- ids and records that can be read back, and keys that do not collide.
use go_clockwork.Prelude.{
  ℕ, ◌≤◌, ◌==◌, ◌&&◌, not, ltb, length, is_pos, pos_part, ◌<◌, ◌≡◌, refl, ap, ◌∙◌, Bool, true,
  false, some, List, [], ◌∷◌, ◌++◌, if◌then◌else◌, arith, All, Text, codes, text_eq, ℤ, ◌||◌,
}
use go_clockwork.Storage.{Codec, Decoder}
use go_clockwork.Backend.{hit, miss, text_eq-append}
use go_clockwork.Memcache.{Client, Settings, req_key, delete_evicted}

-- A key that the client takes: at most 250 bytes, no spaces, no control bytes.
abbrev pub is_key_byte : ℕ → Bool
is_key_byte c = ltb 32 c && not (c == 127)

abbrev pub IsKey : Text → Type 0
IsKey k = (length k ≤ 250) × All (λ c. is_key_byte c ≡ true) k

-- A time to live that is relative to the present: up to thirty days, in seconds.
abbrev pub IsRelative : ℤ → Type 0
IsRelative ttl = (is_pos ttl ≡ true) × (pos_part ttl ≤ 2_592_000)

-- The servers answer, have room for values of up to `room` bytes, and no item gets too old. What the
-- documentation of the client excludes is excluded here: other keys, and other times to live.
pub record IsHealthy {S : Type 0} (client : Client S) (room : ℕ) : Type 0 where
  pub accepts :
      (k v : Text) (ttl : ℤ) (servers : S)
      → IsKey k
      → IsRelative ttl
      → length v ≤ room
      → (client.set k v ttl servers).0 ≡ true
  pub get-set :
      (k j v : Text) (ttl : ℤ) (servers : S)
      → IsKey k
      → IsRelative ttl
      → length v ≤ room
      → client.get j (client.set k v ttl servers).1
        ≡ (if text_eq k j then hit v else client.get j servers)
  pub get-delete :
      (k j : Text) (servers : S)
      → IsKey k
      → client.get j (client.delete k servers).1
        ≡ (if text_eq k j then miss else client.get j servers)

abbrev pub IsAscii : Text → Type 0
IsAscii t = All (λ c. c < 128) t

-- An id that is ASCII and whose key the client takes.
abbrev pub IsId : Settings → Text → Type 0
IsId s id = IsAscii id × IsKey (req_key s id)

-- So many ids as an index may hold, if its size has a limit. Without one, an index of any size would have
-- to fit on the servers.
abbrev pub IsWithin : ℤ → ℕ → Type 0
IsWithin max n = is_pos max ≡ true → n ≤ pos_part max

-- JSON reads back an index of ASCII ids, for which the servers have room, and gives `view m` for a
-- record `m`.
pub record IsFaithful {M : Type 0} (codec : Codec M) (decoder : Decoder M) (view : M → M)
    (s : Settings) (room : ℕ) : Type 0 where
  pub marshal_ids :
      (ids : List Text)
      → All (IsId s) ids
      → IsWithin s.max_entries (length ids)
      → (payload : Text) × (decoder.marshal_ids ids ≡ some payload)
        × (decoder.unmarshal_ids payload ≡ some ids)
        × (length payload ≤ room)
  pub unmarshal :
      (m : M) (payload : Text)
      → codec.marshal m ≡ some payload
      → decoder.unmarshal payload ≡ some (view m)

-- The settings as `New` makes them of a prefix that keys can have, and of a time to live of at most
-- thirty days.
pub record IsMade (s : Settings) : Type 0 where
  pub index_key : s.index_key ≡ s.prefix ++ codes ":index"
  pub is_key : IsKey s.index_key
  pub ttl : IsRelative s.ttl_seconds

module _ (s : Settings) where
  pub text_eq-req_key : (a b : Text) → text_eq (req_key s a) (req_key s b) ≡ text_eq a b
  unfolding text_eq
  text_eq-req_key a b = text_eq-append s.prefix (codes ":req:" ++ a) (codes ":req:" ++ b)

  pub index_key_apart : (a : Text) → IsMade s → text_eq (req_key s a) s.index_key ≡ false
  unfolding text_eq
  index_key_apart a made =
      rw made.index_key (text_eq-append s.prefix (codes ":req:" ++ a) (codes ":index"))

  pub req_key_apart : (a : Text) → IsMade s → text_eq s.index_key (req_key s a) ≡ false
  unfolding text_eq
  req_key_apart a made =
      rw made.index_key (text_eq-append s.prefix (codes ":index") (codes ":req:" ++ a))

-- Membership of an id.
unfoldable pub is_in : Text → List Text → Bool
is_in k [] = false
is_in k (j ∷ ids) = text_eq j k || is_in k ids

module _ {M S : Type 0} (codec : Codec M) (decoder : Decoder M) (client : Client S) (room : ℕ)
    (healthy : IsHealthy client room) (s : Settings) where
  -- What the deletion of evicted records leaves.
  pub get-delete_evicted :
      (k : Text) (ids : List Text) (servers : S)
      → All (IsId s) ids
      → client.get (req_key s k) (delete_evicted codec decoder client s ids servers)
        ≡ (if is_in k ids then miss else client.get (req_key s k) servers)
  unfolding delete_evicted is_in
  get-delete_evicted k [] servers plain = refl
  get-delete_evicted k (j ∷ ids) servers (hj, plain) = ground (
    arith,
    get-delete_evicted k ids (client.delete (req_key s j) servers).1 plain,
    healthy.get-delete (req_key s j) (req_key s k) servers hj.1,
    text_eq-req_key s j k,
  )

  pub get_index-delete_evicted :
      (ids : List Text) (servers : S)
      → IsMade s
      → All (IsId s) ids
      → client.get s.index_key (delete_evicted codec decoder client s ids servers)
        ≡ client.get s.index_key servers
  unfolding delete_evicted
  get_index-delete_evicted [] servers made plain = refl
  get_index-delete_evicted (j ∷ ids) servers made (hj, plain) =
      get_index-delete_evicted ids (client.delete (req_key s j) servers).1 made plain
      ∙ healthy.get-delete (req_key s j) s.index_key servers hj.1
      ∙ ap (λ (b : Bool). if b then miss else client.get s.index_key servers)
          (index_key_apart s j made)
