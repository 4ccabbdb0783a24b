-- ===== src/Middleware/Http.antt =====
-- middleware/http/http.go: the middleware for net/http.
use go_clockwork.Prelude.{ℕ, Option, none, some, if◌then◌else◌, pos}
use go_clockwork.Runtime.{Runtime}
use go_clockwork.Helpers.{extract_safe_headers, build_request_url, new_request_capture}
use go_clockwork.Service.{World, is_enabled}
use go_clockwork.Service.Requests.{complete_request}
use go_clockwork.Middleware.{Incoming, Reads, Writer, Handler, mark, prepare}

module _ {F O S : Type 0} where
  -- A captured request until its handler is done: `p` is its new collector.
  unfoldable pub http_handled :
      ℕ → Incoming → Reads → Handler F O S → Writer → World F O S → Writer × World F O S
  http_handled p req reads next r w =
      let url = build_request_url (some req.target) in
      next (some p) (mark w.service.config.id_header reads.id (record r { status = pos 200 }))
        (prepare p (extract_safe_headers req.headers) url req.span w)

module _ {F O S : Type 0} (rt : Runtime F O) where
  unfoldable pub http_captured :
      ℕ → Incoming → Reads → Handler F O S → Writer → World F O S → Writer × World F O S
  unfolding http_handled
  http_captured p req reads next r w =
      let served = http_handled p req reads next r w in
      (
        served.0,
        (complete_request rt (some p) served.0.status reads.duration reads.end reads.end_alloc
            served.1).1,
      )

  -- `Middleware`, for a service and a handler that are not nil; a nil request is passed on.
  unfoldable pub http_serve :
      Option Incoming → Reads → Handler F O S → Writer → World F O S → Writer × World F O S
  unfolding http_captured
  http_serve none reads next r w = next none r w
  http_serve (some req) reads next r w =
      let capture =
        new_request_capture req.method req.path req.uri req.headers reads.id reads.start
          reads.start_alloc w in
      if is_enabled w
      then elim capture.0 [
        | none ↦ next none r w
        | some p ↦ http_captured p req reads next r capture.1
      ]
      else next none r w
