-- ===== src/Middleware/Agreement.antt =====
-- The packages under middleware against each other: where Chi does what net/http does, and Fiber what Echo
-- does.
use go_clockwork.Prelude.{
  ℕ, ◌≡◌, refl, sym, ap, ◌∙◌, Bool, true, false, not, ◌||◌, Option, none, some, [], if◌then◌else◌,
  Text, trim_space,
}
use go_clockwork.Runtime.{Runtime}
use go_clockwork.Helpers.{build_request_url, should_skip_path, should_capture, new_request_capture}
use go_clockwork.Service.{World, is_enabled, allocate_collector}
use go_clockwork.Middleware.{Incoming, Reads, Writer, Handler, name_controller}
use go_clockwork.Middleware.Http.{http_handled, http_captured, http_serve}
use go_clockwork.Middleware.Chi.{chi_controller, chi_captured, chi_serve}
use go_clockwork.Middleware.Echo.{echo_controller, echo_captured, echo_serve}
use go_clockwork.Middleware.Fiber.{
  FiberRequest, request_headers, fiber_url, fiber_captured, fiber_serve,
}

-- To look at the pointer of a capture is to make its tests.
capture_tests :
    {X W : Type 0} (enabled skipped : Bool) (made : ℕ × W) (w : W) (captured : ℕ → W → X)
    (passed : X)
    → let capture : Option ℕ × W =
        (if enabled then (if skipped then (none, w) else (some made.0, made.1)) else (none, w)) in
      (if enabled then elim capture.0 [ none ↦ passed | some p ↦ captured p capture.1 ] else passed)
      ≡ (if enabled then (if skipped then passed else captured made.0 made.1) else passed)
capture_tests true true made w captured passed = refl
capture_tests true false made w captured passed = refl
capture_tests false skipped made w captured passed = refl

module _ {F O S : Type 0} (rt : Runtime F O) (reads : Reads) (next : Handler F O S) (r : Writer)
    (w : World F O S) where
  chi_captured_lem :
      (p : ℕ) (route : Option Text) (req : Incoming) (w' : World F O S)
      → chi_controller route ≡ []
      → chi_captured rt p route req reads next r w' ≡ http_captured rt p req reads next r w'
  unfolding chi_captured http_captured http_handled name_controller
  chi_captured_lem p route req w' unrouted = rw unrouted refl

  -- Without a pattern of the route, the middleware for Chi gives the same response, and leaves the service
  -- and the world the same, as the one for net/http, for every request and handler.
  pub chi_serve-http_serve :
      (route : Option Text) (req : Option Incoming)
      → chi_controller route ≡ []
      → chi_serve rt route req reads next r w ≡ http_serve rt req reads next r w
  unfolding chi_serve http_serve new_request_capture
  chi_serve-http_serve route none unrouted = refl
  chi_serve-http_serve route (some req) unrouted =
      let made = allocate_collector reads.id reads.start reads.start_alloc req.method req.uri w in
      let skipped =
        should_skip_path req.path
        || not (should_capture req.headers w.service.config.header_name) in
      let passed = next none r w in
      ap (λ captured. if is_enabled w then (if skipped then passed else captured) else passed)
        (chi_captured_lem made.0 route req made.1 unrouted)
      ∙ sym (
          capture_tests (is_enabled w) skipped made w
            (λ p w'. http_captured rt p req reads next r w') passed)

  fiber_captured_lem :
      (p : ℕ) (route path : Text) (raw : FiberRequest) (req : Incoming) (w' : World F O S)
      → trim_space path ≡ echo_controller route
      → request_headers raw ≡ req.headers
      → fiber_url raw ≡ build_request_url (some req.target)
      → raw.span ≡ req.span
      → fiber_captured rt p path raw reads next r w' ≡ echo_captured rt p route req reads next r w'
  unfolding fiber_captured echo_captured
  fiber_captured_lem p route path raw req w' named headers url span =
      rw (named, headers, url, span) refl

  -- Of a request that Fiber and Echo describe alike, with the same headers, path, URL and span, and whose
  -- URI is its path, the two middlewares give the same response and leave the service and the world the
  -- same.
  pub fiber_serve-echo_serve :
      (route path : Text) (raw : FiberRequest) (req : Incoming)
      → trim_space path ≡ echo_controller route
      → request_headers raw ≡ req.headers
      → fiber_url raw ≡ build_request_url (some req.target)
      → raw.span ≡ req.span
      → raw.method ≡ req.method
      → raw.path ≡ req.path
      → req.uri ≡ req.path
      → fiber_serve rt path raw reads next r w ≡ echo_serve rt route (some req) reads next r w
  unfolding fiber_serve echo_serve
  fiber_serve-echo_serve route path raw req named headers url span method place uri =
      let made = allocate_collector reads.id reads.start reads.start_alloc raw.method raw.path w in
      let skipped =
        should_skip_path raw.path
        || not (should_capture (request_headers raw) w.service.config.header_name) in
      let passed = next none r w in
      ap (λ captured. if is_enabled w then (if skipped then passed else captured) else passed)
        (fiber_captured_lem made.0 route path raw req made.1 named headers url span)
      ∙ rw (headers, method, place ∙ sym uri, uri) refl
