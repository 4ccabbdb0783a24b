-- ===== src/Middleware/Lookup.antt =====
-- The metadata routes of the packages under middleware: which id a request asks for, and what it is
-- answered. The body of an answer is the value that is encoded; how a framework writes it is outside the
-- program.
use go_clockwork.Prelude.{
  Bool, true, false, Option, none, some, List, [], ◌∷◌, if◌then◌else◌, Text, codes, text_eq,
  is_empty, trim_space, trim_suffix, split_on, lookup, ℤ, pos,
}
use go_clockwork.Metadata.{Metadata}
use go_clockwork.Storage.{Result, ok, err}
use go_clockwork.Helpers.{Header, canonical_header_key}
use go_clockwork.Service.{World, is_enabled, find_metadata}

abbrev first_text : Option (List Text) → Text
first_text none = []
first_text (some []) = []
first_text (some (value ∷ values)) = value

-- `Header.Get`
unfoldable pub header_value : Text → Header → Text
unfolding canonical_header_key lookup
header_value name headers = first_text (lookup (canonical_header_key name) headers)

-- The id in a header, if the header has a name.
unfoldable pub header_id : Text → Text → Text
unfolding trim_space
header_id name value = if is_empty name then [] else trim_space value

-- `segments[2]`, if there are three segments and the second one is `__clockwork`.
unfoldable pub third_segment : List Text → Text
unfolding text_eq trim_space
third_segment (first ∷ second ∷ third ∷ more) =
    if text_eq second (codes "__clockwork") then trim_space third else []
third_segment _ = []

unfoldable pub path_id : Text → Text
unfolding third_segment split_on trim_suffix trim_space
path_id path =
    let p = trim_space (trim_suffix (codes "/") path) in
    if is_empty p then [] else third_segment (split_on b'/' p)

-- `resolveMetadataID` of net/http: the header, or the path.
unfoldable pub http_metadata_id : Text → Header → Text → Text
unfolding header_id header_value path_id
http_metadata_id name headers path =
    let id = header_id name (header_value name headers) in if is_empty id then path_id path else id

-- `resolveMetadataID` of Chi: the header, the parameter of the route, or the path. `none` is a request
-- without a route context.
unfoldable pub chi_metadata_id : Text → Header → Option Text → Text → Text
unfolding header_id header_value path_id trim_space
chi_metadata_id name headers none path =
    let id = header_id name (header_value name headers) in if is_empty id then path_id path else id
chi_metadata_id name headers (some param) path =
    let id = header_id name (header_value name headers) in
    let given = trim_space param in
    if is_empty id then (if is_empty given then path_id path else given) else id

-- `resolveMetadataID` of Gin, Echo and Fiber, of the value of the header and the parameter of the route.
unfoldable pub param_metadata_id : Text → Text → Text → Text
unfolding header_id trim_space
param_metadata_id name value param =
    let id = header_id name value in if is_empty id then trim_space param else id

-- The body of an answer: the page of net/http, a message, or the metadata.
pub data Body (F O : Type 0) : Type 0 where
  page : Body F O
  message : Text → Body F O
  shows : Metadata F O → Body F O

-- An answer: its status, whether it has the version header, and its body.
pub record Answer (F O : Type 0) : Type 0 where
  pub status : ℤ
  pub has_version : Bool
  pub body : Body F O

module _ {F O : Type 0} where
  abbrev pub refusal : ℤ → Bool → Text → Answer F O
  refusal status versioned text = record {
    status = status;
    has_version = versioned;
    body = Body.message text;
  }

  abbrev pub shown : Metadata F O → Answer F O
  shown m = record { status = pos 200; has_version = true; body = Body.shows m }

  -- The answer for an id that is looked up; a refusal has the version header only if `versioned`.
  unfoldable pub answer_of : Bool → Result (Metadata F O) → Answer F O
  answer_of versioned (ok m) = shown m
  answer_of versioned (err e) = refusal (pos 404) versioned (codes "metadata not found")

module _ {F O S : Type 0} where
  unfoldable pub answer_id : Bool → Text → World F O S → Answer F O
  unfolding answer_of
  answer_id versioned id w =
      if is_empty id
      then refusal (pos 400) versioned (codes "metadata id is required")
      else answer_of versioned (find_metadata id w)

  -- What `MetadataHandler` of net/http and of Chi does with the method and the id of a request.
  unfoldable pub handle_metadata : Text → Text → World F O S → Answer F O
  unfolding answer_id text_eq
  handle_metadata method id w =
      if is_enabled w
      then (if text_eq method (codes "GET")
          then answer_id true id w
          else refusal (pos 405) false (codes "method not allowed"))
      else record { status = pos 404; has_version = false; body = Body.page }

  -- `MetadataHandler` of net/http.
  unfoldable pub http_metadata : Text → Header → Text → World F O S → Answer F O
  unfolding handle_metadata http_metadata_id
  http_metadata method headers path w =
      handle_metadata method (http_metadata_id w.service.config.id_header headers path) w

  -- `MetadataHandler` of Chi.
  unfoldable pub chi_metadata : Text → Header → Option Text → Text → World F O S → Answer F O
  unfolding handle_metadata chi_metadata_id
  chi_metadata method headers param path w =
      handle_metadata method (chi_metadata_id w.service.config.id_header headers param path) w

  -- The handler that Gin, Echo and Fiber register for GET /__clockwork/:id, of the value of the header
  -- and the parameter of the route.
  unfoldable pub param_metadata : Text → Text → World F O S → Answer F O
  unfolding answer_id param_metadata_id
  param_metadata value param w =
      answer_id false (param_metadata_id w.service.config.id_header value param) w
