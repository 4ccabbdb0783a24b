-- ===== src/MemoryStorage/Elements.antt =====
-- storage_memory.go: the element list, its identities and its ids.
use go_clockwork.Prelude.{
  ℕ, suc, ◌+◌, ◌≤◌, ◌≡◌, refl, Bool, not, Option, none, some, List, [], ◌∷◌, ◌++◌, if◌then◌else◌,
  arith, Text, text_eq, text_eq_iff, keep,
}
use go_clockwork.MemoryStorage.{Element, unlink}

module _ {M : Type 0} where
  -- The element with an id.
  abbrev pub find : Text → List (Element M) → Option (Element M)
  find k [] = none
  find k (e ∷ es) = if text_eq e.entry.id k then some e else find k es

  -- No id stands twice.
  abbrev pub Distinct : List (Element M) → Type 0
  Distinct [] = Unit {0}
  Distinct (e ∷ es) = (find e.entry.id es ≡ none) × Distinct es

  -- Identities rise along the list, from `lo` on and below `hi`.
  abbrev pub Between : ℕ → ℕ → List (Element M) → Type 0
  Between lo hi [] = lo ≤ hi
  Between lo hi (e ∷ es) = (lo ≤ e.handle) × Between (suc e.handle) hi es

  abbrev pub other_id : Text → Element M → Bool
  other_id k e = not (text_eq e.entry.id k)

  -- The list without the elements of an id.
  abbrev pub without : Text → List (Element M) → List (Element M)
  without k es = keep (other_id k) es

  -- The sum of the sizes.
  abbrev pub sizes : List (Element M) → ℕ
  sizes [] = 0
  sizes (e ∷ es) = e.entry.bytes + sizes es

  pub find-id :
      (k : Text) (es : List (Element M)) (e : Element M) → find k es ≡ some e → e.entry.id ≡ k
  find-id k [] e h = cc
  find-id k (x ∷ es) e h = ground (arith, text_eq_iff x.entry.id k, find-id k es e)

  pub find-without_self : (k : Text) (es : List (Element M)) → find k (without k es) ≡ none
  find-without_self k [] = refl
  find-without_self k (e ∷ es) = ground (arith, find-without_self k es)

  pub find-without :
      (k j : Text) (es : List (Element M))
      → find j (without k es) ≡ (if text_eq k j then none else find j es)
  find-without k j [] = ground arith
  find-without k j (e ∷ es) = ground (
    arith,
    find-without k j es,
    text_eq_iff e.entry.id k,
    text_eq_iff e.entry.id j,
    text_eq_iff k j,
  )

  pub without_absent : (k : Text) (es : List (Element M)) → find k es ≡ none → without k es ≡ es
  without_absent k [] h = refl
  without_absent k (e ∷ es) h = ground (arith, without_absent k es)

  pub without-Distinct : (k : Text) (es : List (Element M)) → Distinct es → Distinct (without k es)
  without-Distinct k [] d = tt
  without-Distinct k (e ∷ es) (h, d) =
      ground (arith, without-Distinct k es d, find-without k e.entry.id es)

  Between-mono :
      (lo lo' hi : ℕ) (es : List (Element M)) → lo ≤ lo' → Between lo' hi es → Between lo hi es
  Between-mono lo lo' hi [] h b = omega arith
  Between-mono lo lo' hi (e ∷ es) h (p, b) = (omega arith, b)

  pub without-Between :
      (k : Text) (lo hi : ℕ) (es : List (Element M))
      → Between lo hi es
      → Between lo hi (without k es)
  without-Between k lo hi [] b = b
  without-Between k lo hi (e ∷ es) (p, b) = ground (
    arith,
    without-Between k (suc e.handle) hi es b,
    Between-mono lo (suc e.handle) hi (without k es),
  )

  pub find-handle :
      (k : Text) (lo hi : ℕ) (es : List (Element M)) (e : Element M)
      → Between lo hi es
      → find k es ≡ some e
      → lo ≤ e.handle
  find-handle k lo hi [] e b h = cc
  find-handle k lo hi (x ∷ es) e (p, b) h = ground (arith, find-handle k (suc x.handle) hi es e b)

  -- To unlink the element of an id is to drop that id.
  pub unlink-without :
      (k : Text) (lo hi : ℕ) (es : List (Element M)) (e : Element M)
      → Between lo hi es
      → Distinct es
      → find k es ≡ some e
      → unlink e.handle es ≡ without k es
  unfolding unlink
  unlink-without k lo hi [] e b d h = cc
  unlink-without k lo hi (x ∷ es) e (p, b) (q, d) h = ground (
    arith,
    unlink-without k (suc x.handle) hi es e b d,
    find-handle k (suc x.handle) hi es e b,
    text_eq_iff x.entry.id k,
    without_absent k es,
  )

  pub sizes-without :
      (k : Text) (es : List (Element M)) (e : Element M)
      → Distinct es
      → find k es ≡ some e
      → sizes (without k es) + e.entry.bytes ≡ sizes es
  sizes-without k [] e d h = cc
  sizes-without k (x ∷ es) e (q, d) h =
      ground (arith, sizes-without k es e d, text_eq_iff x.entry.id k, without_absent k es)

  pub sizes-without-le : (k : Text) (es : List (Element M)) → sizes (without k es) ≤ sizes es
  sizes-without-le k [] = omega arith
  sizes-without-le k (e ∷ es) = ground (arith, sizes-without-le k es)

  pub find-append_last :
      (k : Text) (es : List (Element M)) (e : Element M)
      → find e.entry.id es ≡ none
      → find k (es ++ e ∷ []) ≡ (if text_eq e.entry.id k then some e else find k es)
  find-append_last k [] e h = refl
  find-append_last k (x ∷ es) e h = ground (
    arith,
    find-append_last k es e,
    text_eq_iff x.entry.id k,
    text_eq_iff e.entry.id k,
    text_eq_iff x.entry.id e.entry.id,
  )

  pub append_last-Distinct :
      (es : List (Element M)) (e : Element M)
      → find e.entry.id es ≡ none
      → Distinct es
      → Distinct (es ++ e ∷ [])
  append_last-Distinct [] e h d = (refl, tt)
  append_last-Distinct (x ∷ es) e h (q, d) = ground (
    arith,
    append_last-Distinct es e,
    find-append_last x.entry.id es e,
    text_eq_iff e.entry.id x.entry.id,
    text_eq_iff x.entry.id e.entry.id,
  )

  pub append_last-Between :
      (lo hi : ℕ) (es : List (Element M)) (e : Element M)
      → e.handle ≡ hi
      → Between lo hi es
      → Between lo (suc hi) (es ++ e ∷ [])
  append_last-Between lo hi [] e h b = omega arith
  append_last-Between lo hi (x ∷ es) e h (p, b) =
      (p, append_last-Between (suc x.handle) hi es e h b)

  pub sizes-append : (xs ys : List (Element M)) → sizes (xs ++ ys) ≡ sizes xs + sizes ys
  sizes-append [] ys = omega arith
  sizes-append (x ∷ xs) ys = omega (arith, sizes-append xs ys)
