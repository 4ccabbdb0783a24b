-- ===== src/Middleware.antt =====
-- The packages under middleware: what they share. A handler is a function of the collector in its
-- context, the response writer and the world; the frameworks are outside the program, and what they say
-- of a request is in the request.
pub mod Http
pub mod Chi
pub mod Gin
pub mod Echo
pub mod Fiber
pub mod Lookup
pub mod Agreement
pub mod Completion
pub mod Paths
use go_clockwork.Prelude.{
  ℕ, Option, none, some, List, [], ◌∷◌, ◌++◌, if◌then◌else◌, Text, codes, is_empty, trim_space, Map,
  insert, lookup, delete, ℤ, pos,
}
use go_clockwork.Runtime.{Runtime}
use go_clockwork.Metadata.{Metadata}
use go_clockwork.Frames.{Frame}
use go_clockwork.Collector.Methods.{set_headers, set_url, set_controller, set_trace}
use go_clockwork.Helpers.{
  Header, Request, extract_safe_headers, canonical_header_key, SpanContext, trace_from_context,
}
use go_clockwork.Service.{World, register_trace, call_on}

-- What a middleware reads of an incoming request. `target` is what its URL is built from, and `span`
-- is the span of its context.
pub record Incoming : Type 0 where
  pub method : Text
  pub path : Text
  pub uri : Text
  pub headers : Header
  pub target : Request
  pub span : SpanContext

-- What a middleware reads of the machine: the id of the new collector, the clock, the memory and the
-- stack at the start and at the end, and the time that the handler took.
pub record Reads : Type 0 where
  pub id : Text
  pub start : ℤ
  pub start_alloc : ℕ
  pub duration : ℤ
  pub end : ℤ
  pub end_alloc : ℕ
  pub stack : List Frame

-- A response: its headers, as `Header()` gives them also when they have been written, and its status.
pub record Writer : Type 0 where
  pub headers : Map Text
  pub status : ℤ

abbrev pub Handler : Type 0 → Type 0 → Type 0 → Type 0
Handler F O S = Option ℕ → Writer → World F O S → Writer × World F O S

-- `Header().Set` and `Header().Del`
abbrev pub set_header : Text → Text → Writer → Writer
set_header name value r = record r { headers = insert (canonical_header_key name) value r.headers }

abbrev pub delete_header : Text → Writer → Writer
delete_header name r = record r { headers = delete (canonical_header_key name) r.headers }

-- `WriteHeader` of the responseWriter that net/http and Chi hand to the next handler.
abbrev pub write_header : ℤ → Writer → Writer
write_header status r = record r { status = status }

-- `ProtocolVersion`
abbrev pub protocol_version : Text
protocol_version = codes "5.3.5"

abbrev pub version_header : Text
version_header = codes "X-Clockwork-Version"

-- The two headers of a captured request.
abbrev pub mark : Text → Text → Writer → Writer
mark id_header id r = set_header version_header protocol_version (set_header id_header id r)

module _ {F O S : Type 0} where
  -- What every middleware does with a new collector: headers, URL and trace.
  unfoldable pub prepare : ℕ → Map Text → Text → SpanContext → World F O S → World F O S
  prepare p headers url span w =
      let trace = trace_from_context span in
      let described = call_on p (set_url url) (call_on p (set_headers headers) w) in
      register_trace trace.0 (some p) (call_on p (set_trace trace.0 trace.1) described)

  -- The controller, if there is one.
  unfoldable pub name_controller : ℕ → Text → World F O S → World F O S
  name_controller p controller w =
      if is_empty controller then w else call_on p (set_controller controller) w
