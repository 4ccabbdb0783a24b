-- ===== src/Middleware/Echo.antt =====
-- middleware/echo/echo.go: the middleware for Echo. The route is the path of Echo's context; the error of
-- the handler is a part of what the handler gives, and is passed on.
use go_clockwork.Prelude.{
  ℕ, ◌==◌, not, ◌||◌, Option, none, some, [], if◌then◌else◌, Text, trim_space, is_empty, ℤ, pos,
  negsuc,
}
use go_clockwork.Runtime.{Runtime}
use go_clockwork.Helpers.{extract_safe_headers, build_request_url, should_skip_path, should_capture}
use go_clockwork.Service.{World, is_enabled, allocate_collector}
use go_clockwork.Service.Requests.{complete_request}
use go_clockwork.Middleware.{Incoming, Reads, Writer, Handler, mark, prepare, name_controller}

-- A status that is not set is 200.
abbrev pub status_or_ok : ℤ → ℤ
status_or_ok (pos n) = if n == 0 then pos 200 else pos n
status_or_ok (negsuc n) = negsuc n

-- A route of spaces is none.
abbrev pub echo_controller : Text → Text
echo_controller route = if is_empty (trim_space route) then [] else route

module _ {F O S : Type 0} (rt : Runtime F O) where
  -- A captured request: `p` is its new collector.
  unfoldable pub echo_captured :
      ℕ → Text → Incoming → Reads → Handler F O S → Writer → World F O S → Writer × World F O S
  echo_captured p route req reads next r w =
      let ready =
        prepare p (extract_safe_headers req.headers) (build_request_url (some req.target)) req.span
          w in
      let served = next (some p) (mark w.service.config.id_header reads.id r) ready in
      let named = name_controller p (echo_controller route) served.1 in
      (
        served.0,
        (complete_request rt (some p) (status_or_ok served.0.status) reads.duration reads.end
            reads.end_alloc named).1,
      )

  -- `Middleware`, for a service that is not nil; a nil request is passed on.
  unfoldable pub echo_serve :
      Text → Option Incoming → Reads → Handler F O S → Writer → World F O S → Writer × World F O S
  unfolding echo_captured
  echo_serve route none reads next r w = next none r w
  echo_serve route (some req) reads next r w =
      let made = allocate_collector reads.id reads.start reads.start_alloc req.method req.uri w in
      if is_enabled w
      then (if should_skip_path req.path
            || not (should_capture req.headers w.service.config.header_name)
          then next none r w
          else echo_captured made.0 route req reads next r made.1)
      else next none r w
