-- ===== src/Helpers.antt =====
-- middleware_helpers.go: what the middleware of every framework shares. A header is a map from names in
-- canonical form to lists of values, as in net/http.
pub mod Headers
pub mod Capture
use go_clockwork.Prelude.{
  ℕ, ◌+◌, ◌-◌, ◌==◌, Bool, true, false, not, ◌&&◌, ◌||◌, Option, none, some, List, [], ◌∷◌, ◌++◌,
  map, if◌then◌else◌, leb, Text, codes, text_eq, is_empty, to_lower, to_lower_byte, to_upper_byte,
  trim_space, trim_suffix, has_prefix, contains, Map, lookup, insert, ℤ,
}
use go_clockwork.Service.{World, is_enabled, allocate_collector}

-- strings.HasSuffix, with the suffix first.
unfoldable pub has_suffix : Text → Text → Bool
has_suffix suffix [] = is_empty suffix
has_suffix suffix (c ∷ s) = text_eq suffix (c ∷ s) || has_suffix suffix s

abbrev pub favicon : Text
favicon = codes "/favicon.ico"

abbrev pub clockwork_path : Text
clockwork_path = codes "/__clockwork"

-- The normalised path that `ShouldSkipPath` looks at.
unfoldable pub trimmed_path : Text → Text
trimmed_path path =
    let p = trim_space (trim_suffix (codes "/") path) in if is_empty p then codes "/" else p

-- `ShouldSkipPath`
unfoldable pub should_skip_path : Text → Bool
should_skip_path path =
    let p = trimmed_path path in
    if text_eq (to_lower p) favicon || has_suffix favicon (to_lower p)
    then true
    else has_prefix clockwork_path p

-- Whether a byte may stand in the name of a header: a letter, a digit or one of these marks.
abbrev pub is_mark : ℕ → Text → Bool
is_mark c [] = false
is_mark c (m ∷ marks) = (c == m) || is_mark c marks

abbrev pub is_token_byte : ℕ → Bool
is_token_byte c =
    let l = to_lower_byte c in
    (leb b'a' l && leb l b'z') || (leb b'0' c && leb c b'9') || is_mark c (codes "!#$%&'*+-.^_`|~")

unfoldable pub is_token : Text → Bool
is_token [] = true
is_token (c ∷ s) = is_token_byte c && is_token s

-- http.CanonicalHeaderKey: a letter at the start or behind a dash is made a capital, every other one
-- small; a name with a byte that may not stand in it is left as it is.
unfoldable pub canonical_loop : Bool → Text → Text
canonical_loop first [] = []
canonical_loop first (c ∷ s) =
    (if first then to_upper_byte c else to_lower_byte c) ∷ canonical_loop (c == b'-') s

unfoldable pub canonical_header_key : Text → Text
unfolding is_token
canonical_header_key name = if is_token name then canonical_loop true name else name

-- `http.Header`
abbrev pub Header : Type 0
Header = Map (List Text)

-- `ShouldCapture`
unfoldable pub should_capture : Header → Text → Bool
should_capture headers name =
    if is_empty name
    then false
    else elim (lookup (canonical_header_key name) headers) [ none ↦ false | some values ↦ true ]

-- What `BuildRequestURL` reads of a request: whether its URL is absolute, the texts that net/url gives
-- for the URL and for its path with the query, the first X-Forwarded-Proto, the host, and whether the
-- connection is encrypted.
pub record Request : Type 0 where
  pub is_absolute : Bool
  pub url : Text
  pub request_uri : Text
  pub forwarded_proto : Text
  pub host : Text
  pub has_tls : Bool

-- `BuildRequestURL`; `none` is a nil request or a request without a URL.
unfoldable pub build_request_url : Option Request → Text
build_request_url none = []
build_request_url (some req) =
    let scheme =
      if is_empty req.forwarded_proto
      then (if req.has_tls then codes "https" else codes "http")
      else req.forwarded_proto in
    if req.is_absolute
    then req.url
    else if is_empty req.host
    then req.url
    else scheme ++ codes "://" ++ req.host ++ req.request_uri

-- `safeHeaderNames`
abbrev pub safe_header_names : List Text
safe_header_names =
    codes "Content-Type"
    ∷ codes "Accept"
    ∷ codes "User-Agent"
    ∷ codes "Accept-Language"
    ∷ codes "Accept-Encoding"
    ∷ codes "X-Request-ID"
    ∷ codes "X-City-ID"
    ∷ codes "X-Stage"
    ∷ codes "X-App-Version"
    ∷ codes "Origin"
    ∷ codes "Referer"
    ∷ []

unfoldable pub is_among : List Text → Text → Bool
is_among [] name = false
is_among (safe ∷ names) name = text_eq safe name || is_among names name

-- The loop of `ExtractSafeHeaders`, over the headers in the order in which the map yields them.
unfoldable pub safe_loop : Header → Map Text → Map Text
safe_loop [] safe = safe
safe_loop ((key, []) ∷ headers) safe = safe_loop headers safe
safe_loop ((key, value ∷ values) ∷ headers) safe =
    let skipped = safe_loop headers safe in
    let taken = safe_loop headers (insert key value safe) in
    if is_among safe_header_names key then taken else skipped

-- `ExtractSafeHeaders`
unfoldable pub extract_safe_headers : Header → Map Text
extract_safe_headers headers = safe_loop headers []

-- What OpenTelemetry gives for the span of a context: whether it is valid, and its ids.
pub record SpanContext : Type 0 where
  pub is_valid : Bool
  pub trace_id : Text
  pub span_id : Text

-- `TraceFromContext`
unfoldable pub trace_from_context : SpanContext → Text × Text
trace_from_context span = if span.is_valid then (span.trace_id, span.span_id) else ([], [])

module _ {F O S : Type 0} where
  -- `NewRequestCapture`, for a service that is not nil: the pointer to a new collector, or `none`.
  unfoldable pub new_request_capture :
      Text → Text → Text → Header → Text → ℤ → ℕ → World F O S → Option ℕ × World F O S
  new_request_capture method path uri headers id now alloc w =
      let made = allocate_collector id now alloc method uri w in
      if is_enabled w
      then (if should_skip_path path || not (should_capture headers w.service.config.header_name)
          then (none, w)
          else (some made.0, made.1))
      else (none, w)
