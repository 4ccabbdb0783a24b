-- ===== src/Zap/Distinct.antt =====
-- integrations/zap/zap.go: the frames of a log entry.
use go_clockwork.Prelude.{
  ◌≤◌, ◌≡◌, false, List, [], ◌∷◌, ◌++◌, length, length-append, All, All-append, true, text_eq_iff,
  ℤ, pos, negsuc, Bool-cases, inl, inr, if◌then◌else◌, arith, ltb, both_branches,
}
use go_clockwork.Metadata.{LogTraceFrame}
use go_clockwork.Zap.Stack.{
  Entry, max_frames, int_eq, is_same_frame, merge_loop, caller_frame, has_caller, build_log_trace,
  parse_zap_stack,
}

-- Two frames differ in their call, their file or their line.
abbrev pub Differ : LogTraceFrame → LogTraceFrame → Type 0
Differ f g = (f.call ≡ g.call) × (f.file ≡ g.file) × (f.line ≡ g.line) → ⊥

-- Every two frames differ.
abbrev pub AreDistinct : List LogTraceFrame → Type 0
AreDistinct [] = Unit {0}
AreDistinct (f ∷ frames) = All (Differ f) frames × AreDistinct frames

AreDistinct-append :
    (frames : List LogTraceFrame) (f : LogTraceFrame)
    → AreDistinct frames
    → All (λ g. Differ g f) frames
    → AreDistinct (frames ++ f ∷ [])
AreDistinct-append [] f d new = (tt, tt)
AreDistinct-append (g ∷ frames) f (others, d) (hg, new) =
    (All-append (Differ g) frames (f ∷ []) others (hg, tt), AreDistinct-append frames f d new)

int_eq_refl : (n : ℤ) → int_eq n n ≡ true
int_eq_refl (pos n) = ground arith
int_eq_refl (negsuc n) = ground arith

same_head :
    (f g : LogTraceFrame) (frames : List LogTraceFrame)
    → (f.call ≡ g.call) × (f.file ≡ g.file) × (f.line ≡ g.line)
    → is_same_frame g (f ∷ frames) ≡ true
unfolding is_same_frame
same_head f g frames (call, file, line) =
    rw (call, file, line)
      (ground (arith, text_eq_iff g.call g.call, text_eq_iff g.file g.file, int_eq_refl g.line))

same_later :
    (f g : LogTraceFrame) (frames : List LogTraceFrame)
    → is_same_frame g (f ∷ frames) ≡ false
    → is_same_frame g frames ≡ false
unfolding is_same_frame
same_later f g frames h = ground (arith, h)

-- A frame that the program does not find among others differs from each of them.
differs :
    (f : LogTraceFrame) (frames : List LogTraceFrame)
    → is_same_frame f frames ≡ false
    → All (λ g. Differ g f) frames
differs f [] h = tt
differs f (g ∷ frames) h = (
  λ same. ground (arith, same_head g f frames same, h),
  differs f frames (same_later g f frames h),
)

-- At most twelve frames, and every two of them differ.
pub record IsTrace (frames : List LogTraceFrame) : Type 0 where
  pub few : length frames ≤ 12
  pub distinct : AreDistinct frames

merge_loop-IsTrace :
    (parsed frames : List LogTraceFrame) → IsTrace frames → IsTrace (merge_loop parsed frames)
unfolding merge_loop
merge_loop-IsTrace [] frames t = t
merge_loop-IsTrace (f ∷ parsed) frames t = elim (Bool-cases (ltb (length frames) max_frames)) [
  | inr full ↦ rw full t
  | inl room ↦ rw room (
      merge_loop-IsTrace parsed (if is_same_frame f frames then frames else frames ++ f ∷ [])
        (elim (Bool-cases (is_same_frame f frames)) [
          | inl same ↦ rw same t
          | inr new ↦ rw new (record {
            few = ground (arith, length-append frames (f ∷ []));
            distinct = AreDistinct-append frames f t.distinct (differs f frames new);
          })
        ]))
]

-- The frames of a log entry: at most twelve, and every two of them differ in call, file or line, whatever
-- the text of the stack is.
pub build_log_trace-IsTrace : (entry : Entry) → IsTrace (build_log_trace entry)
unfolding build_log_trace is_same_frame
build_log_trace-IsTrace entry =
    merge_loop-IsTrace (parse_zap_stack entry.stack)
      (if has_caller entry then caller_frame entry ∷ [] else [])
      (both_branches IsTrace (has_caller entry) {x = caller_frame entry ∷ []} {y = []}
        (record { few = omega arith; distinct = (tt, tt) })
        (record { few = omega arith; distinct = tt }))
