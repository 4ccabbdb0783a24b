-- ===== src/Middleware/Gin.antt =====
-- middleware/gin/gin.go: the middleware for Gin. The name of the handler and the route are those of Gin's
-- context; the warning that is logged when the metadata cannot be saved is left out.
use go_clockwork.Prelude.{
  ℕ, Option, none, some, List, [], ◌∷◌, ◌++◌, if◌then◌else◌, Text, codes, trim_space, trim_suffix,
  split_on, split_last, replace_all, is_empty, ℤ, quot,
}
use mathlib.Core.List.{reverse}
use go_clockwork.Runtime.{Runtime}
use go_clockwork.Metadata.{Value, NumberKind}
use go_clockwork.Helpers.{
  extract_safe_headers, build_request_url, should_skip_path, should_capture, trace_from_context,
}
use go_clockwork.Collector.Methods.{set_headers, set_url, set_trace, add_log_entry}
use go_clockwork.Service.{World, is_enabled, allocate_collector, call_on, register_trace}
use go_clockwork.Service.Requests.{complete_request}
use go_clockwork.Middleware.{
  Incoming, Reads, Writer, Handler, mark, delete_header, version_header, name_controller,
}

abbrev first_part : List Text → Text
first_part [] = []
first_part (part ∷ parts) = part

-- The parts of a name that stay: the first one and the last two.
abbrev join_parts : Text → List Text → List Text → Text
join_parts whole parts (last ∷ second ∷ third ∷ more) =
    first_part parts ++ (codes "." ++ (second ++ (codes "." ++ last)))
join_parts whole parts (last ∷ second ∷ []) = second ++ (codes "." ++ last)
join_parts whole parts _ = whole

-- The name behind the last slash, if something stands there.
abbrev behind_slash : Text → Option (Text × Text) → Text
behind_slash whole none = whole
behind_slash whole (some (front, back)) = if is_empty back then whole else back

-- `compactHandlerName`
unfoldable pub compact_handler_name : Text → Text
unfolding trim_suffix split_last replace_all split_on
compact_handler_name full =
    let short = trim_suffix (codes "-fm") full in
    let name = behind_slash short (split_last b'/' short) in
    let plain =
      replace_all (codes "(.") (codes ".")
        (replace_all (codes ")") [] (replace_all (codes "(*") [] name)) in
    let parts = split_on b'.' plain in
    if is_empty full then [] else join_parts plain parts (reverse parts)

-- `resolveControllerName`, of the name of the handler and the route.
unfoldable pub gin_controller : Text → Text → Text
unfolding compact_handler_name trim_space
gin_controller handler_name full_path =
    let handler = compact_handler_name (trim_space handler_name) in
    let route = trim_space full_path in
    if is_empty handler
    then route
    else if is_empty route
    then handler
    else handler ++ (codes " [" ++ (route ++ codes "]"))

-- When the two log lines of a captured request are recorded.
pub record LogTimes : Type 0 where
  pub enabled_at : ℤ
  pub completed_at : ℤ

module _ {F O S : Type 0} (rt : Runtime F O) where
  unfoldable pub gin_enabled_log : ℕ → Incoming → Reads → LogTimes → World F O S → World F O S
  gin_enabled_log p req reads times = call_on p (
      add_log_entry rt (codes "info") (codes "clockwork capture enabled")
        ((codes "method", Value.text req.method) ∷ (codes "uri", Value.text req.uri) ∷ [])
        times.enabled_at reads.stack)

  -- `Milliseconds` of a duration in nanoseconds rounds towards 0.
  unfoldable pub gin_completed_log : ℕ → ℤ → Reads → LogTimes → World F O S → World F O S
  gin_completed_log p status reads times = call_on p (
      add_log_entry rt (codes "info") (codes "request completed")
        ((codes "status", Value.number NumberKind.int status)
          ∷ (codes "duration_ms", Value.number NumberKind.int64 (quot reads.duration 1_000_000))
          ∷ [])
        times.completed_at reads.stack)

  -- `SetHeaders`, `SetURL`, the log line, and the trace of a captured request.
  unfoldable pub gin_prepare : ℕ → Incoming → Reads → LogTimes → World F O S → World F O S
  unfolding gin_enabled_log
  gin_prepare p req reads times w =
      let described =
        call_on p (set_url (build_request_url (some req.target)))
          (call_on p (set_headers (extract_safe_headers req.headers)) w) in
      let logged = gin_enabled_log p req reads times described in
      let trace = trace_from_context req.span in
      register_trace trace.0 (some p) (call_on p (set_trace trace.0 trace.1) logged)

  -- A captured request: `p` is its new collector.
  unfoldable pub gin_captured :
      ℕ
      → Text
      → Text
      → Incoming
      → Reads
      → LogTimes
      → Handler F O S
      → Writer
      → World F O S
      → Writer × World F O S
  unfolding gin_prepare gin_completed_log gin_controller
  gin_captured p handler_name full_path req reads times next r w =
      let ready = gin_prepare p req reads times w in
      let served = next (some p) (mark w.service.config.id_header reads.id r) ready in
      let named = name_controller p (gin_controller handler_name full_path) served.1 in
      let logged = gin_completed_log p served.0.status reads times named in
      (
        served.0,
        (complete_request rt (some p) served.0.status reads.duration reads.end reads.end_alloc
            logged).1,
      )

  -- A skipped request loses the two headers that its handler may have set.
  unfoldable pub gin_skipped : Handler F O S → Writer → World F O S → Writer × World F O S
  gin_skipped next r w =
      let served = next none r w in
      (delete_header version_header (delete_header w.service.config.id_header served.0), served.1)

  -- `Middleware`, for a service that is not nil; a nil request is passed on.
  unfoldable pub gin_serve :
      Text
      → Text
      → Option Incoming
      → Reads
      → LogTimes
      → Handler F O S
      → Writer
      → World F O S
      → Writer × World F O S
  unfolding gin_captured gin_skipped
  gin_serve handler_name full_path none reads times next r w = next none r w
  gin_serve handler_name full_path (some req) reads times next r w =
      let made = allocate_collector reads.id reads.start reads.start_alloc req.method req.uri w in
      if is_enabled w
      then (if should_skip_path req.path
          then gin_skipped next r w
          else if should_capture req.headers w.service.config.header_name
          then gin_captured made.0 handler_name full_path req reads times next r made.1
          else next none r w)
      else next none r w
