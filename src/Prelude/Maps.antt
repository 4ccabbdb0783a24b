-- ===== src/Prelude/Maps.antt =====
-- Go maps with string keys, as association lists in an order of iteration.
use Prim.Native.Nat.{ℕ, suc, ◌+◌, ◌≤◌}
use mathlib.Core.Path.{◌≡◌, refl}
use mathlib.Core.Logic.{◌≢◌}
use mathlib.Core.List.{List, [], ◌∷◌}
use mathlib.Core.Option.{Option, none, some}
use native.Mathlib.Omega.{arith}
use go_clockwork.Prelude.Tests.{if◌then◌else◌}
use go_clockwork.Prelude.Lists.{length}
use go_clockwork.Prelude.Texts.{Text, text_eq, text_eq_iff}

abbrev pub Map : Type 0 → Type 0
Map V = List (Text × V)

module _ {V : Type 0} where
  -- `m[k]` with its second result.
  unfoldable pub lookup : Text → Map V → Option V
  lookup k [] = none
  lookup k ((j, v) ∷ m) = if text_eq j k then some v else lookup k m

  -- `m[k] = v`
  unfoldable pub insert : Text → V → Map V → Map V
  insert k v [] = (k, v) ∷ []
  insert k v ((j, w) ∷ m) = if text_eq j k then (j, v) ∷ m else (j, w) ∷ insert k v m

  -- `delete(m, k)`
  unfoldable pub delete : Text → Map V → Map V
  delete k [] = []
  delete k ((j, v) ∷ m) = let rest = delete k m in if text_eq j k then rest else (j, v) ∷ rest

  pub lookup-insert :
      (k j : Text) (v : V) (m : Map V)
      → lookup j (insert k v m) ≡ (if text_eq k j then some v else lookup j m)
  unfolding lookup insert
  lookup-insert k j v [] = refl
  lookup-insert k j v ((i, w) ∷ m) =
      ground (arith, text_eq_iff k j, text_eq_iff i k, text_eq_iff i j, lookup-insert k j v m)

  pub lookup-delete :
      (k j : Text) (m : Map V) → lookup j (delete k m) ≡ (if text_eq k j then none else lookup j m)
  unfolding lookup delete
  lookup-delete k j [] = ground arith
  lookup-delete k j ((i, w) ∷ m) =
      ground (arith, text_eq_iff k j, text_eq_iff i k, text_eq_iff i j, lookup-delete k j m)

  pub length-insert-le : (k : Text) (v : V) (m : Map V) → length (insert k v m) ≤ length m + 1
  unfolding insert
  length-insert-le k v [] = omega arith
  length-insert-le k v ((j, w) ∷ m) = ground (arith, length-insert-le k v m)

-- `m[k]` of a map of counters, which is 0 for a missing key.
unfoldable pub count_of : Text → Map ℕ → ℕ
unfolding lookup
count_of k m = elim (lookup k m) [ none ↦ 0 | some n ↦ n ]

-- `m[k]++`
unfoldable pub increment : Text → Map ℕ → Map ℕ
unfolding count_of insert
increment k m = insert k (suc (count_of k m)) m

pub count_of-increment :
    (k j : Text) (m : Map ℕ)
    → count_of j (increment k m) ≡ (if text_eq k j then suc (count_of j m) else count_of j m)
unfolding count_of increment
count_of-increment k j m = ground (arith, lookup-insert k j (suc (count_of k m)) m, text_eq_iff k j)

pub increment-ne-nil : (k : Text) (m : Map ℕ) → increment k m ≢ []
unfolding increment insert
increment-ne-nil k [] = λ e. cc
increment-ne-nil k ((j, n) ∷ m) = ground arith
