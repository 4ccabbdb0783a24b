-- ===== src/Middleware/Fiber.antt =====
-- middleware/fiber/fiber.go: the middleware for Fiber. The error of the handler is a part of what the
-- handler gives, and is passed on.
use go_clockwork.Prelude.{
  ℕ, not, ◌||◌, Option, none, some, List, [], ◌∷◌, ◌++◌, if◌then◌else◌, Text, codes, text_eq,
  trim_space, is_empty, insert, lookup,
}
use go_clockwork.Runtime.{Runtime}
use go_clockwork.Helpers.{
  Header, canonical_header_key, extract_safe_headers, should_skip_path, should_capture, SpanContext,
}
use go_clockwork.Service.{World, is_enabled, allocate_collector}
use go_clockwork.Service.Requests.{complete_request}
use go_clockwork.Middleware.{Reads, Writer, Handler, mark, prepare, name_controller}
use go_clockwork.Middleware.Echo.{status_or_ok}

-- What the middleware reads of Fiber's context: `raw_headers` are those that `VisitAll` visits.
pub record FiberRequest : Type 0 where
  pub method : Text
  pub path : Text
  pub raw_headers : List (Text × Text)
  pub forwarded_proto : Text
  pub protocol : Text
  pub hostname : Text
  pub original_url : Text
  pub span : SpanContext

abbrev values_at : Option (List Text) → List Text
values_at none = []
values_at (some values) = values

-- `h.Add`
unfoldable pub add_header : Text → Text → Header → Header
unfolding canonical_header_key lookup insert
add_header name value h =
    let key = canonical_header_key name in insert key (values_at (lookup key h) ++ value ∷ []) h

-- The loop of `requestHeadersToHTTP`, and the function.
unfoldable pub headers_loop : List (Text × Text) → Header → Header
unfolding add_header
headers_loop [] h = h
headers_loop ((name, value) ∷ raw) h = headers_loop raw (add_header name value h)

unfoldable pub request_headers : FiberRequest → Header
unfolding headers_loop
request_headers req = headers_loop req.raw_headers []

-- `buildRequestURL`
unfoldable pub fiber_url : FiberRequest → Text
unfolding text_eq
fiber_url req =
    let scheme =
      if is_empty req.forwarded_proto
      then (if text_eq req.protocol (codes "https") then codes "https" else codes "http")
      else req.forwarded_proto in
    if is_empty req.hostname
    then []
    else scheme ++ (codes "://" ++ (req.hostname ++ req.original_url))

module _ {F O S : Type 0} (rt : Runtime F O) where
  -- A captured request: `p` is its new collector.
  unfoldable pub fiber_captured :
      ℕ → Text → FiberRequest → Reads → Handler F O S → Writer → World F O S → Writer × World F O S
  unfolding fiber_url request_headers trim_space
  fiber_captured p route req reads next r w =
      let ready =
        prepare p (extract_safe_headers (request_headers req)) (fiber_url req) req.span w in
      let served = next (some p) (mark w.service.config.id_header reads.id r) ready in
      let named = name_controller p (trim_space route) served.1 in
      (
        served.0,
        (complete_request rt (some p) (status_or_ok served.0.status) reads.duration reads.end
            reads.end_alloc named).1,
      )

  -- `Middleware`, for a service that is not nil.
  unfoldable pub fiber_serve :
      Text → FiberRequest → Reads → Handler F O S → Writer → World F O S → Writer × World F O S
  unfolding fiber_captured request_headers
  fiber_serve route req reads next r w =
      let made = allocate_collector reads.id reads.start reads.start_alloc req.method req.path w in
      if is_enabled w
      then (if should_skip_path req.path
            || not (should_capture (request_headers req) w.service.config.header_name)
          then next none r w
          else fiber_captured made.0 route req reads next r made.1)
      else next none r w
