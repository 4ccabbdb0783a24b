-- ===== src/Tests/Helping.antt =====
-- middleware_helpers.go on small inputs.
use go_clockwork.Prelude.{
  ℕ, ◌≡◌, refl, true, false, none, some, [], ◌∷◌, arith, codes, lookup, insert, text_eq, has_prefix,
  trim_space, trim_suffix, trim_left, trim_right, pos,
}
use go_clockwork.Config.{default_config, normalize}
use go_clockwork.Collector.{new_collector, limits_from_config}
use go_clockwork.Service.{World, new_clockwork, allocate_collector, is_enabled, at}
use go_clockwork.Helpers.{
  Header, Request, has_suffix, trimmed_path, should_skip_path, canonical_header_key, is_token,
  canonical_loop, should_capture, build_request_url, is_among, safe_loop, extract_safe_headers,
  new_request_capture,
}
use go_clockwork.Helpers.Headers.{lookup-extract_safe_headers, extract_safe_headers_ids}
use go_clockwork.Helpers.Capture.{new_request_capture_own, new_request_capture_new}

program : Unit {0}
unfolding trim_suffix has_suffix trimmed_path should_skip_path canonical_header_key is_token
    canonical_loop should_capture build_request_url is_among safe_loop extract_safe_headers
    new_request_capture text_eq has_prefix trim_space trim_left trim_right lookup insert
    new_clockwork normalize default_config allocate_collector at limits_from_config new_collector
program = tt

skipped_paths :
    (should_skip_path (codes "/static/Favicon.ico") ≡ true)
    × (should_skip_path (codes "/__clockwork/latest") ≡ true)
    × (should_skip_path (codes "/users/") ≡ false)
    × (should_skip_path [] ≡ false)
unfolding program
skipped_paths = (refl, refl, refl, refl)

abbrev headers : Header
headers =
    (codes "X-Request-Id", codes "7" ∷ [])
    ∷ (codes "Accept", codes "a" ∷ codes "b" ∷ [])
    ∷ (codes "Cookie", codes "secret" ∷ [])
    ∷ (codes "X-Clockwork", codes "1" ∷ [])
    ∷ []

safe_headers : extract_safe_headers headers ≡ (codes "Accept", codes "a") ∷ []
unfolding program
safe_headers = refl

abbrev request : Request
request = record {
  is_absolute = false;
  url = codes "/a?b";
  request_uri = codes "/a?b";
  forwarded_proto = [];
  host = codes "h";
  has_tls = true;
}

request_url : build_request_url (some request) ≡ codes "https://h/a?b"
unfolding program
request_url = refl

lookup-extract_safe_headers_example :
    lookup (codes "Accept") (extract_safe_headers headers) ≡ some (codes "a")
unfolding program
lookup-extract_safe_headers_example =
    lookup-extract_safe_headers (codes "Accept") headers (refl, (refl, (refl, (refl, tt))))

extract_safe_headers_ids_example :
    let safe = extract_safe_headers headers in
    (lookup (codes "X-Request-ID") safe ≡ none)
    × (lookup (codes "X-Request-Id") safe ≡ none)
    × (lookup (codes "X-City-ID") safe ≡ none)
    × (lookup (codes "X-City-Id") safe ≡ none)
unfolding program
extract_safe_headers_ids_example =
    extract_safe_headers_ids headers (refl, (refl, (refl, (refl, tt))))
      (refl, (refl, (refl, (refl, tt))))

abbrev idle : World ℕ ℕ (Unit {0})
idle = record { service = new_clockwork default_config none; heap = []; stored = tt }

-- One request is under way.
abbrev busy : World ℕ ℕ (Unit {0})
busy = (allocate_collector (codes "one") (pos 1) 0 (codes "GET") (codes "/a") idle).1

new_request_capture_own_example :
    new_request_capture
      (codes "GET")
      (codes "/__clockwork/x")
      (codes "/")
      headers
      (codes "two")
      (pos 2)
      0
      busy
    ≡ (none, busy)
new_request_capture_own_example =
    new_request_capture_own (codes "GET") (codes "/") (codes "two") (pos 2) 0 headers busy
      (codes "/x")

new_request_capture_new_example :
    let after =
      (new_request_capture
        (codes "GET")
        (codes "/b")
        (codes "/b")
        headers
        (codes "two")
        (pos 2)
        0
        busy).1 in
    (is_enabled busy ≡ true)
    × (should_skip_path (codes "/b") ≡ false)
    × (should_capture headers busy.service.config.header_name ≡ true)
    × (at 1 after.heap
        ≡ some (
            new_collector
              (codes "two")
              (pos 2)
              0
              (codes "GET")
              (codes "/b")
              (limits_from_config busy.service.config)))
    × (at 0 after.heap ≡ at 0 busy.heap)
unfolding program
new_request_capture_new_example =
    new_request_capture_new (codes "GET") (codes "/b") (codes "two") (pos 2) 0 headers busy
      (codes "/b") 1 0 refl (omega arith)
