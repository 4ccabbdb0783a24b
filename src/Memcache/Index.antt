-- ===== src/Memcache/Index.antt =====
-- The list of ids and records that the storage on memcached stands for, newest first, and its ids.
use go_clockwork.Prelude.{
  ◌≤◌, length, true, subst, Bool-cases, inl, inr, ℕ, zero, suc, ◌≡◌, refl, sym, ap, ◌∙◌,
  both_branches, false, none, List, [], ◌∷◌, if◌then◌else◌, arith, take, drop, is_pos, pos_part, ℤ,
  Text, text_eq, text_eq_iff, Map, lookup, delete, All,
}
use go_clockwork.Memcache.{others, kept_ids, evicted_ids}
use go_clockwork.Memcache.Laws.{is_in, IsWithin}

is_in-drop :
    (k : Text) (n : ℕ) (ids : List Text) → is_in k ids ≡ false → is_in k (drop n ids) ≡ false
unfolding is_in
is_in-drop k zero ids h = h
is_in-drop k (suc n) [] h = refl
is_in-drop k (suc n) (j ∷ ids) h = ground (arith, is_in-drop k n ids)

is_in-take :
    (k : Text) (n : ℕ) (ids : List Text) → is_in k ids ≡ false → is_in k (take n ids) ≡ false
unfolding is_in
is_in-take k zero ids h = refl
is_in-take k (suc n) [] h = refl
is_in-take k (suc n) (j ∷ ids) h = ground (arith, is_in-take k n ids)

module _ {V : Type 0} where
  abbrev pub keys : Map V → List Text
  keys [] = []
  keys ((k, v) ∷ es) = k ∷ keys es

  abbrev pub values : Map V → List V
  values [] = []
  values ((k, v) ∷ es) = v ∷ values es

  -- No id stands twice.
  abbrev pub AreUnique : Map V → Type 0
  AreUnique [] = Unit {0}
  AreUnique ((k, v) ∷ es) = (is_in k (keys es) ≡ false) × AreUnique es

  pub others-keys : (k : Text) (es : Map V) → others k (keys es) ≡ keys (delete k es)
  unfolding delete
  others-keys k [] = refl
  others-keys k ((j, v) ∷ es) = ground (arith, others-keys k es)

  pub is_in-delete :
      (k j : Text) (es : Map V)
      → is_in j (keys (delete k es)) ≡ (if text_eq k j then false else is_in j (keys es))
  unfolding is_in delete
  is_in-delete k j [] = ground arith
  is_in-delete k j ((i, v) ∷ es) =
      ground (arith, is_in-delete k j es, text_eq_iff k j, text_eq_iff i k, text_eq_iff i j)

  pub delete-AreUnique : (k : Text) (es : Map V) → AreUnique es → AreUnique (delete k es)
  unfolding delete
  delete-AreUnique k [] u = tt
  delete-AreUnique k ((j, v) ∷ es) (h, u) =
      ground (arith, delete-AreUnique k es u, is_in-delete k j es)

  pub take-keys : (n : ℕ) (es : Map V) → take n (keys es) ≡ keys (take n es)
  take-keys zero es = refl
  take-keys (suc n) [] = refl
  take-keys (suc n) ((k, v) ∷ es) = ap (◌∷◌ k) (take-keys n es)

  take-AreUnique : (n : ℕ) (es : Map V) → AreUnique es → AreUnique (take n es)
  take-AreUnique zero es u = tt
  take-AreUnique (suc n) [] u = tt
  take-AreUnique (suc n) ((k, v) ∷ es) (h, u) =
      (ap (is_in k) (sym (take-keys n es)) ∙ is_in-take k n (keys es) h, take-AreUnique n es u)

  lookup_absent : (k : Text) (es : Map V) → is_in k (keys es) ≡ false → lookup k es ≡ none
  unfolding is_in lookup
  lookup_absent k [] h = refl
  lookup_absent k ((j, v) ∷ es) h = ground (arith, lookup_absent k es)

  lookup-take :
      (k : Text) (n : ℕ) (es : Map V)
      → AreUnique es
      → lookup k (take n es) ≡ (if is_in k (drop n (keys es)) then none else lookup k es)
  unfolding is_in lookup
  lookup-take k zero es u = ground (arith, lookup_absent k es)
  lookup-take k (suc n) [] u = refl
  lookup-take k (suc n) ((j, v) ∷ es) (h, u) =
      ground (arith, lookup-take k n es u, text_eq_iff j k, is_in-drop j n (keys es) h)

  -- The newest entries, as many as the limit says.
  abbrev pub kept : ℤ → Map V → Map V
  kept max es = if is_pos max then take (pos_part max) es else es

  pub kept_ids-keys : (max : ℤ) (es : Map V) → kept_ids max (keys es) ≡ keys (kept max es)
  unfolding kept_ids
  kept_ids-keys max es = ground (arith, take-keys (pos_part max) es)

  pub kept-AreUnique : (max : ℤ) (es : Map V) → AreUnique es → AreUnique (kept max es)
  kept-AreUnique max es u = ground (arith, take-AreUnique (pos_part max) es u)

  pub lookup-kept :
      (k : Text) (max : ℤ) (es : Map V)
      → AreUnique es
      → lookup k (kept max es) ≡ (if is_in k (evicted_ids max (keys es)) then none else lookup k es)
  unfolding evicted_ids is_in
  lookup-kept k max es u = ground (arith, lookup-take k (pos_part max) es u)

  module _ (P : Text → Type 0) where
    All-take : (n : ℕ) (es : Map V) → All P (keys es) → All P (keys (take n es))
    All-take zero es h = tt
    All-take (suc n) [] h = tt
    All-take (suc n) ((k, v) ∷ es) (hk, h) = (hk, All-take n es h)

    pub All-kept : (max : ℤ) (es : Map V) → All P (keys es) → All P (keys (kept max es))
    All-kept max es h =
        both_branches (λ (xs : Map V). All P (keys xs)) (is_pos max) (All-take (pos_part max) es h)
          h

    pub All-delete : (k : Text) (es : Map V) → All P (keys es) → All P (keys (delete k es))
    unfolding delete
    All-delete k [] h = tt
    All-delete k ((j, v) ∷ es) (hj, h) =
        both_branches (λ (xs : Map V). All P (keys xs)) (text_eq j k) (All-delete k es h)
          (hj, All-delete k es h)

  length-take-keys : (n : ℕ) (es : Map V) → length (keys (take n es)) ≤ n
  length-take-keys zero es = omega arith
  length-take-keys (suc n) [] = omega arith
  length-take-keys (suc n) ((k, v) ∷ es) = omega (arith, length-take-keys n es)

  pub kept-IsWithin : (max : ℤ) (es : Map V) → IsWithin max (length (keys (kept max es)))
  kept-IsWithin max es positive = rw positive (length-take-keys (pos_part max) es)

module _ (P : Text → Type 0) where
  All-drop : (n : ℕ) (ids : List Text) → All P ids → All P (drop n ids)
  All-drop zero ids h = h
  All-drop (suc n) [] h = tt
  All-drop (suc n) (k ∷ ids) (hk, h) = All-drop n ids h

  pub All-evicted_ids : (max : ℤ) (ids : List Text) → All P ids → All P (evicted_ids max ids)
  unfolding evicted_ids
  All-evicted_ids max ids h = both_branches (All P) (is_pos max) (All-drop (pos_part max) ids h) tt

  pub All-is_in : (k : Text) (ids : List Text) → All P ids → is_in k ids ≡ true → P k
  unfolding is_in
  All-is_in k [] h within = ground arith
  All-is_in k (j ∷ ids) (hj, h) within = elim (Bool-cases (text_eq j k)) [
    | inl same ↦ subst P ((text_eq_iff j k).0 same) hj
    | inr other ↦ All-is_in k ids h (ground (arith, other, within))
  ]
