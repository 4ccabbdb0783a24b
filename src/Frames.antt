-- ===== src/Frames.antt =====
-- collector.go: stack frames and vendored paths. The frames that `runtime.Callers` and
-- `runtime.CallersFrames` yield are an argument; `more` is false at the last one.
use go_clockwork.Prelude.{
  Bool, false, ◌||◌, List, [], ◌∷◌, if◌then◌else◌, Text, codes, is_empty, contains, to_lower, ℤ,
  pos,
}

-- `runtime.Frame`
pub record Frame : Type 0 where
  pub function : Text
  pub file : Text
  pub line : ℤ

-- `isVendorPath`
unfoldable pub is_vendor_path : Text → Bool
unfolding contains
is_vendor_path path =
    if is_empty path
    then false
    else contains (codes "/vendor/") (to_lower path) || contains (codes "/pkg/mod/") (to_lower path)

-- `callerOutsidePackage`: the file and line of the first frame outside the package.
unfoldable pub caller_outside_package : List Frame → Text × ℤ
unfolding contains
caller_outside_package [] = ([], pos 0)
caller_outside_package (f ∷ frames) =
    let rest = caller_outside_package frames in
    if is_empty f.file
    then rest
    else if contains (codes "go-clockwork") f.file
    then rest
    else (f.file, f.line)
