-- ===== src/Middleware/Paths.antt =====
-- The metadata routes: the ids that the paths under /__clockwork name.
use go_clockwork.Prelude.{
  ℕ, ◌++◌, ◌==◌, ◌≡◌, ◌≢◌, refl, ◌∙◌, Bool, true, not, ◌||◌, [], ◌∷◌, if_true, arith, All, Text,
  codes, text_eq, is_space, trim_left, trim_right, trim_space, trim_suffix, split_on, lookup, none,
}
use go_clockwork.Helpers.{Header, clockwork_path, canonical_header_key}
use go_clockwork.Service.{World, is_enabled, find_metadata}
use go_clockwork.Middleware.Lookup.{
  answer_id, answer_of, handle_metadata, header_id, header_value, third_segment, path_id,
  http_metadata_id, http_metadata,
}

-- Neither a slash nor a space.
abbrev pub is_plain : ℕ → Bool
is_plain c = not (is_space c || c == b'/')

abbrev pub IsPlain : Text → Type 0
IsPlain = All (λ c. is_plain c ≡ true)

trim_right_plain : (s : Text) → IsPlain s → trim_right is_space s ≡ s
unfolding trim_right
trim_right_plain [] h = refl
trim_right_plain (c ∷ s) (hc, h) = rw (trim_right_plain s h) (ground (arith, hc))

trim_left_plain : (s : Text) → IsPlain s → trim_left is_space s ≡ s
unfolding trim_left
trim_left_plain [] h = refl
trim_left_plain (c ∷ s) (hc, h) = ground (arith, hc)

trim_space_plain : (s : Text) → IsPlain s → trim_space s ≡ s
unfolding trim_space
trim_space_plain s h = rw (trim_left_plain s h) (trim_right_plain s h)

trim_suffix_plain : (s : Text) → IsPlain s → trim_suffix (codes "/") s ≡ s
unfolding trim_suffix text_eq
trim_suffix_plain [] h = refl
trim_suffix_plain (c ∷ s) (hc, h) = rw (trim_suffix_plain s h) (ground (arith, hc))

split_on_plain : (s : Text) → IsPlain s → split_on b'/' s ≡ s ∷ []
unfolding split_on
split_on_plain [] h = refl
split_on_plain (c ∷ s) (hc, h) = rw (split_on_plain s h) (ground (arith, hc))

-- The path of the metadata route for an id.
abbrev pub metadata_path : Text → Text
metadata_path id = clockwork_path ++ b'/' ∷ id

trim_metadata_path :
    (id : Text)
    → IsPlain id
    → id ≢ []
    → trim_space (trim_suffix (codes "/") (metadata_path id)) ≡ metadata_path id
unfolding trim_suffix text_eq trim_space trim_left trim_right
trim_metadata_path [] h named = absurd (named refl)
trim_metadata_path (c ∷ id) h named =
    rw (trim_suffix_plain (c ∷ id) h) (rw (trim_right_plain (c ∷ id) h) refl)

-- An id that is not empty and has neither a slash nor a space is found in its path.
pub path_id-metadata_path : (id : Text) → IsPlain id → id ≢ [] → path_id (metadata_path id) ≡ id
unfolding path_id third_segment split_on text_eq
path_id-metadata_path id h named =
    rw (trim_metadata_path id h named) (rw (split_on_plain id h) (trim_space_plain id h))

header_id_nil : (name : Text) → header_id name [] ≡ []
unfolding header_id trim_space trim_left trim_right
header_id_nil [] = refl
header_id_nil (c ∷ name) = refl

http_metadata_id_absent :
    (name : Text) (headers : Header) (path : Text)
    → lookup (canonical_header_key name) headers ≡ none
    → http_metadata_id name headers path ≡ path_id path
unfolding http_metadata_id header_value
http_metadata_id_absent name headers path absent = rw absent (rw (header_id_nil name) refl)

module _ {F O S : Type 0} where
  answer_id_named :
      (id : Text) (w : World F O S)
      → id ≢ []
      → answer_id true id w ≡ answer_of true (find_metadata id w)
  unfolding answer_id
  answer_id_named [] w named = absurd (named refl)
  answer_id_named (c ∷ id) w named = refl

  -- A GET request for the path of such an id, without the header for ids, is answered with what is found
  -- under the id.
  pub http_metadata-metadata_path :
      (id : Text) (headers : Header) (w : World F O S)
      → is_enabled w ≡ true
      → lookup (canonical_header_key w.service.config.id_header) headers ≡ none
      → IsPlain id
      → id ≢ []
      → http_metadata (codes "GET") headers (metadata_path id) w
        ≡ answer_of true (find_metadata id w)
  unfolding http_metadata handle_metadata text_eq
  http_metadata-metadata_path id headers w enabled absent h named =
      rw (http_metadata_id_absent w.service.config.id_header headers (metadata_path id) absent) (
        rw (path_id-metadata_path id h named)
          (if_true (is_enabled w) _ _ enabled ∙ answer_id_named id w named))
