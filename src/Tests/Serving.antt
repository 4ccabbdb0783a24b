-- ===== src/Tests/Serving.antt =====
-- The packages under middleware on small inputs.
use go_clockwork.Prelude.{
  ◌≡◌, refl, true, false, some, [], ◌∷◌, arith, text_eq, codes, lookup, ℤ, pos, ◌>>=◌, increment,
  count_of, insert, add_int, wrap64, quot, signed, delete, has_prefix, trim_space, trim_suffix,
  trim_left, trim_right, split_on, split_last, replace_all,
}
use go_clockwork.Config.{default_config, normalize}
use go_clockwork.Metadata.{Metadata}
use go_clockwork.Storage.{Codec}
use go_clockwork.MemoryStorage.{InMemoryStorage, new_in_memory_storage}
use go_clockwork.MemoryStorage.Store.{new_in_memory_storage-IsValid}
use go_clockwork.Collector.{
  Collector, new_collector, limits_from_config, truncate, drop_event, append_timeline, record_event,
  push_timeline, timeline_event,
}
use go_clockwork.Collector.Methods.{
  set_trace, set_headers, set_url, set_controller, set_response_data,
}
use go_clockwork.Collector.Snapshot.{get_metadata}
use go_clockwork.Helpers.{
  Header, Request, SpanContext, trace_from_context, has_suffix, trimmed_path, should_skip_path,
  canonical_header_key, is_token, canonical_loop, should_capture, build_request_url, is_among,
  safe_loop, extract_safe_headers, new_request_capture,
}
use go_clockwork.Service.{
  World, new_clockwork, find_metadata, register_trace, load_or_store, at, modify,
  allocate_collector,
}
use go_clockwork.Service.Requests.{finish, resolve}
use go_clockwork.Service.Complete.{memory_storage}
use go_clockwork.Middleware.{
  write_header, Incoming, Reads, Writer, Handler, prepare, name_controller,
}
use go_clockwork.Middleware.Http.{http_handled, http_serve}
use go_clockwork.Middleware.Chi.{chi_controller, chi_serve}
use go_clockwork.Middleware.Echo.{echo_serve}
use go_clockwork.Middleware.Gin.{compact_handler_name, gin_controller, gin_skipped}
use go_clockwork.Middleware.Fiber.{
  FiberRequest, add_header, headers_loop, request_headers, fiber_url, fiber_serve,
}
use go_clockwork.Middleware.Lookup.{
  http_metadata, chi_metadata, param_metadata, shown, refusal, answer_id, answer_of,
  handle_metadata, header_id, header_value, http_metadata_id, chi_metadata_id, param_metadata_id,
  path_id, third_segment,
}
use go_clockwork.Middleware.Paths.{metadata_path}
use go_clockwork.Middleware.Completion.{http_metadata-http_serve}
use go_clockwork.Middleware.Agreement.{chi_serve-http_serve, fiber_serve-echo_serve}
use go_clockwork.Tests.Sample.{machine}

program : Unit {0}
unfolding trim_suffix has_suffix trimmed_path should_skip_path canonical_header_key is_token
    canonical_loop should_capture build_request_url is_among safe_loop extract_safe_headers
    new_request_capture text_eq has_prefix trim_space trim_left trim_right lookup insert delete
    new_clockwork normalize default_config allocate_collector at modify limits_from_config
    new_collector set_trace set_headers set_url set_controller set_response_data truncate drop_event
    append_timeline record_event push_timeline timeline_event ◌>>=◌ increment count_of add_int
    wrap64 signed quot finish resolve register_trace load_or_store get_metadata trace_from_context
    prepare name_controller http_handled chi_controller compact_handler_name gin_controller
    gin_skipped split_on split_last replace_all add_header headers_loop request_headers fiber_url
    http_metadata chi_metadata param_metadata answer_id answer_of handle_metadata header_id
    header_value http_metadata_id chi_metadata_id param_metadata_id path_id third_segment
    find_metadata
program = tt

abbrev codec : Codec (Metadata ℤ (Unit {0}))
codec = record { id_of = λ m. m.id; marshal = λ m. some (codes "{}") }

abbrev Stored : Type 0
Stored = InMemoryStorage (Metadata ℤ (Unit {0}))

abbrev world : World ℤ (Unit {0}) Stored
world = record {
  service = new_clockwork default_config (some (memory_storage codec));
  heap = [];
  stored = new_in_memory_storage (pos 2) (pos 100);
}

abbrev asking : Header
asking = (codes "X-Clockwork", codes "1" ∷ []) ∷ []

abbrev target : Request
target = record {
  is_absolute = false;
  url = codes "/a";
  request_uri = codes "/a";
  forwarded_proto = [];
  host = codes "h";
  has_tls = false;
}

abbrev span : SpanContext
span = record { is_valid = true; trace_id = codes "t"; span_id = codes "s" }

abbrev incoming : Incoming
incoming = record {
  method = codes "GET";
  path = codes "/a";
  uri = codes "/a";
  headers = asking;
  target = target;
  span = span;
}

abbrev reads : Reads
reads = record {
  id = codes "id-7";
  start = pos 1;
  start_alloc = 0;
  duration = pos 5;
  end = pos 6;
  end_alloc = 0;
  stack = [];
}

-- A handler that answers 404.
abbrev handler : Handler ℤ (Unit {0}) Stored
handler p r w = (write_header (pos 404) r, w)

abbrev writer : Writer
writer = record { headers = []; status = pos 0 }

abbrev made : Collector ℤ (Unit {0})
made =
    new_collector (codes "id-7") (pos 1) 0 (codes "GET") (codes "/a")
      (limits_from_config default_config)

abbrev ready : Collector ℤ (Unit {0})
ready = set_trace (codes "t") (codes "s") (set_url (codes "http://h/a") (set_headers [] made))

http_metadata-http_serve_example :
    http_metadata
      (codes "GET")
      []
      (metadata_path (codes "id-7"))
      (http_serve machine (some incoming) reads handler writer world).1
    ≡ shown (get_metadata machine (finish machine [] (pos 404) (pos 5) (pos 6) 0 ready))
unfolding program
http_metadata-http_serve_example =
    http_metadata-http_serve machine codec 2 100 incoming reads handler writer world [] ready
      (codes "{}") refl refl refl refl (refl, (refl, (refl, (refl, tt)))) (λ e. ground arith) refl
      refl (new_in_memory_storage-IsValid (pos 2) (pos 100)) refl refl refl (omega arith)
      (omega arith)

chi_serve-http_serve_example :
    chi_serve machine (some (codes " ")) (some incoming) reads handler writer world
    ≡ http_serve machine (some incoming) reads handler writer world
unfolding program
chi_serve-http_serve_example =
    chi_serve-http_serve machine reads handler writer world (some (codes " ")) (some incoming) refl

abbrev raw : FiberRequest
raw = record {
  method = codes "GET";
  path = codes "/a";
  raw_headers = (codes "x-clockwork", codes "1") ∷ [];
  forwarded_proto = [];
  protocol = codes "http";
  hostname = codes "h";
  original_url = codes "/a";
  span = span;
}

fiber_serve-echo_serve_example :
    fiber_serve machine (codes "/:x ") raw reads handler writer world
    ≡ echo_serve machine (codes "/:x") (some incoming) reads handler writer world
unfolding program
fiber_serve-echo_serve_example =
    fiber_serve-echo_serve machine reads handler writer world (codes "/:x") (codes "/:x ") raw
      incoming refl refl refl refl refl refl refl

handler_names :
    (compact_handler_name (codes "example.com/app/users.(*API).List-fm") ≡ codes "users.API.List")
    × (compact_handler_name (codes "main.run") ≡ codes "main.run")
    × (compact_handler_name (codes "main.main.func1.2") ≡ codes "main.func1.2")
    × (gin_controller (codes "a/b.c") (codes " /x ") ≡ codes "b.c [/x]")
    × (gin_controller [] (codes "/x") ≡ codes "/x")
unfolding program
handler_names = (refl, refl, refl, refl, refl)

refusals :
    (http_metadata (codes "POST") [] (codes "/__clockwork/a") world
      ≡ refusal (pos 405) false (codes "method not allowed"))
    × (http_metadata (codes "GET") [] (codes "/__clockwork/") world
        ≡ refusal (pos 400) true (codes "metadata id is required"))
    × (param_metadata (codes " ") (codes " ") world
        ≡ refusal (pos 400) false (codes "metadata id is required"))
    × (chi_metadata_id (codes "X") [] (some (codes " a ")) [] ≡ codes "a")
unfolding program
refusals = (refl, refl, refl, refl)
