-- ===== src/Helpers/Capture.antt =====
-- middleware_helpers.go: which requests are captured.
use go_clockwork.Prelude.{
  ℕ, zero, suc, ◌<◌, ◌≡◌, refl, ap, subst, ◌∙◌, Bool, true, false, not, ◌||◌, Option, none, some,
  List, [], ◌∷◌, ◌++◌, if◌then◌else◌, arith, both_branches, length, All, Text, codes, text_eq,
  is_space, to_lower, trim_left, trim_right, trim_space, trim_suffix, has_prefix, ℤ,
}
use go_clockwork.Collector.{Collector, new_collector, limits_from_config}
use go_clockwork.Service.{World, is_enabled, allocate_collector, at}
use go_clockwork.Helpers.{
  Header, trimmed_path, should_skip_path, should_capture, has_suffix, favicon, clockwork_path,
  new_request_capture,
}

-- The bytes in front of the end that is trimmed stay.
trim_right_prefix :
    (p : ℕ → Bool) (front s : Text)
    → All (λ c. p c ≡ false) front
    → trim_right p (front ++ s) ≡ front ++ trim_right p s
unfolding trim_right
trim_right_prefix p [] s h = refl
trim_right_prefix p (c ∷ front) s (hc, h) = ground (arith, trim_right_prefix p front s h)

has_prefix-append : (front s : Text) → has_prefix front (front ++ s) ≡ true
unfolding has_prefix
has_prefix-append [] s = refl
has_prefix-append (c ∷ front) s = ground (arith, has_prefix-append front s)

clockwork_path_bytes : All (λ c. is_space c ≡ false) clockwork_path
clockwork_path_bytes = (
  refl,
  (refl, (refl, (refl, (refl, (refl, (refl, (refl, (refl, (refl, (refl, (refl, tt))))))))))),
)

trimmed_clockwork_path :
    (rest : Text)
    → trimmed_path (clockwork_path ++ rest)
      ≡ clockwork_path ++ trim_right is_space (trim_suffix (codes "/") rest)
unfolding trimmed_path trim_suffix text_eq trim_space trim_left
trimmed_clockwork_path rest =
    rw
      (trim_right_prefix is_space clockwork_path (trim_suffix (codes "/") rest)
        clockwork_path_bytes)
      refl

-- Every path under /__clockwork is skipped.
skip_clockwork : (rest : Text) → should_skip_path (clockwork_path ++ rest) ≡ true
unfolding should_skip_path
skip_clockwork rest =
    let path = clockwork_path ++ rest in
    let own : has_prefix clockwork_path (trimmed_path path) ≡ true =
      rw (trimmed_clockwork_path rest)
        (has_prefix-append clockwork_path (trim_right is_space (trim_suffix (codes "/") rest))) in
    both_branches (λ b. b ≡ true)
      (text_eq (to_lower (trimmed_path path)) favicon
        || has_suffix favicon (to_lower (trimmed_path path)))
      refl own

at-append_last : {A : Type 0} (heap : List A) (a : A) → at (length heap) (heap ++ a ∷ []) ≡ some a
unfolding at
at-append_last [] a = refl
at-append_last (b ∷ heap) a = at-append_last heap a

at-append :
    {A : Type 0} (q : ℕ) (heap : List A) (a : A)
    → q < length heap
    → at q (heap ++ a ∷ []) ≡ at q heap
unfolding at
at-append q [] a h = absurd (omega arith)
at-append zero (b ∷ heap) a h = refl
at-append (suc q) (b ∷ heap) a h = at-append q heap a (omega arith)

-- The three tests of `NewRequestCapture`.
captured_lem :
    {W : Type 0} (enabled skip asked : Bool) (made : ℕ × W) (w : W) (p : ℕ)
    → (if◌then◌else◌ {A = Option ℕ × W} enabled
        (if skip || not asked then (none, w) else (some made.0, made.1))
        (none, w)).0
      ≡ some p
    → (enabled ≡ true) × (skip ≡ false) × (asked ≡ true) × (made.0 ≡ p)
captured_lem false skip asked made w p h = ground arith
captured_lem true true asked made w p h = ground arith
captured_lem true false false made w p h = ground arith
captured_lem true false true made w p h = (refl, refl, refl, ground arith)

module _ {F O S : Type 0} (method uri id : Text) (now : ℤ) (alloc : ℕ) (headers : Header)
    (w : World F O S) where
  -- The requests of the browser tools to the service itself are never captured: for a path under
  -- /__clockwork no collector is made, whatever the headers and the configuration are.
  pub new_request_capture_own :
      (rest : Text)
      → new_request_capture method (clockwork_path ++ rest) uri headers id now alloc w ≡ (none, w)
  unfolding new_request_capture
  new_request_capture_own rest =
      rw (skip_clockwork rest)
        (both_branches (λ (r : Option ℕ × World F O S). r ≡ (none, w)) (is_enabled w) refl refl)

  -- A request is captured only if the service is enabled, the path is not to be skipped and the
  -- header is present. It gets a new collector with the limits of the service, and the collectors of
  -- the other requests stay as they are.
  pub new_request_capture_new :
      (path : Text) (p q : ℕ)
      → (new_request_capture method path uri headers id now alloc w).0 ≡ some p
      → q < length w.heap
      → let after = (new_request_capture method path uri headers id now alloc w).1 in
        (is_enabled w ≡ true)
        × (should_skip_path path ≡ false)
        × (should_capture headers w.service.config.header_name ≡ true)
        × (at p after.heap
            ≡ some (new_collector id now alloc method uri (limits_from_config w.service.config)))
        × (at q after.heap ≡ at q w.heap)
  unfolding new_request_capture allocate_collector
  new_request_capture_new path p q h live =
      let made = allocate_collector id now alloc method uri w in
      let asked = should_capture headers w.service.config.header_name in
      let (on, kept, present, place) =
        captured_lem (is_enabled w) (should_skip_path path) asked made w p h in
      let c : Collector F O =
        new_collector id now alloc method uri (limits_from_config w.service.config) in
      let after : (new_request_capture method path uri headers id now alloc w).1.heap
          ≡ w.heap ++ c ∷ [] =
        rw (on, kept, present) refl in
      (
        on,
        kept,
        present,
        ap (at p) after
            ∙ subst (λ n. at n (w.heap ++ c ∷ []) ≡ some c) place (at-append_last w.heap c),
        ap (at q) after ∙ at-append q w.heap c live,
      )
