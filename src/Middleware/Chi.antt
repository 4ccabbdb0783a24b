-- ===== src/Middleware/Chi.antt =====
-- middleware/chi/chi.go: the middleware for Chi. The pattern of the route is that of Chi's route context.
use go_clockwork.Prelude.{
  ℕ, not, ◌||◌, Option, none, some, [], if◌then◌else◌, Text, trim_space, pos,
}
use go_clockwork.Runtime.{Runtime}
use go_clockwork.Helpers.{extract_safe_headers, build_request_url, should_skip_path, should_capture}
use go_clockwork.Service.{World, is_enabled, allocate_collector}
use go_clockwork.Service.Requests.{complete_request}
use go_clockwork.Middleware.{Incoming, Reads, Writer, Handler, mark, prepare, name_controller}

-- `resolveControllerName`; `none` is a request without a route context.
unfoldable pub chi_controller : Option Text → Text
unfolding trim_space
chi_controller none = []
chi_controller (some pattern) = trim_space pattern

module _ {F O S : Type 0} (rt : Runtime F O) where
  -- A captured request: `p` is its new collector.
  unfoldable pub chi_captured :
      ℕ
      → Option Text
      → Incoming
      → Reads
      → Handler F O S
      → Writer
      → World F O S
      → Writer × World F O S
  unfolding chi_controller
  chi_captured p route req reads next r w =
      let ready =
        prepare p (extract_safe_headers req.headers) (build_request_url (some req.target)) req.span
          w in
      let served =
        next (some p) (mark w.service.config.id_header reads.id (record r { status = pos 200 }))
          ready in
      let named = name_controller p (chi_controller route) served.1 in
      (
        served.0,
        (complete_request rt (some p) served.0.status reads.duration reads.end reads.end_alloc
            named).1,
      )

  -- `Middleware`, for a service and a handler that are not nil; a nil request is passed on.
  unfoldable pub chi_serve :
      Option Text
      → Option Incoming
      → Reads
      → Handler F O S
      → Writer
      → World F O S
      → Writer × World F O S
  unfolding chi_captured
  chi_serve route none reads next r w = next none r w
  chi_serve route (some req) reads next r w =
      let made = allocate_collector reads.id reads.start reads.start_alloc req.method req.uri w in
      if is_enabled w
      then (if should_skip_path req.path
            || not (should_capture req.headers w.service.config.header_name)
          then next none r w
          else chi_captured made.0 route req reads next r made.1)
      else next none r w
