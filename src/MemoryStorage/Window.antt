-- ===== src/MemoryStorage/Window.antt =====
-- The part of a list, oldest element first, that stays when the oldest elements are evicted until
-- the limits of storage_memory.go are met.
use go_clockwork.Prelude.{
  ℕ, ◌≤◌, ◌<◌, ◌≡◌, refl, ap, Bool, true, ◌&&◌, ◌⊎◌, Bool-cases, inl, inr, none, some, List, [],
  ◌∷◌, ◌++◌, if◌then◌else◌, arith, Text, leb, length, length-append, text_eq_iff,
}
use go_clockwork.MemoryStorage.{Element}
use go_clockwork.MemoryStorage.Elements.{find, sizes, Distinct, find-append_last, sizes-append}

module _ {M : Type 0} (entry_cap byte_cap : ℕ) where
  abbrev pub fits : List (Element M) → Bool
  fits es = leb (length es) entry_cap && leb (sizes es) byte_cap

  -- The longest end of the list that fits.
  unfoldable pub newest : List (Element M) → List (Element M)
  newest [] = []
  newest (e ∷ es) = let rest = newest es in if fits (e ∷ es) then e ∷ es else rest

  pub newest-fits :
      (es : List (Element M)) → (length (newest es) ≤ entry_cap) × (sizes (newest es) ≤ byte_cap)
  unfolding newest
  newest-fits [] = (omega arith, omega arith)
  newest-fits (e ∷ es) = ground (arith, newest-fits es)

  -- What is dropped stands in front.
  pub newest-suffix : (es : List (Element M)) → (old : List (Element M)) × (es ≡ old ++ newest es)
  unfolding newest
  newest-suffix [] = ([], refl)
  newest-suffix (e ∷ es) =
      let (old, h) = newest-suffix es in
      elim (Bool-cases (fits (e ∷ es))) [
        | inl within ↦ ([], rw within)
        | inr over ↦ (e ∷ old, rw over (ap (◌∷◌ e) h))
      ]

  -- No longer end fits.
  pub newest-longest :
      (old new : List (Element M)) → fits new ≡ true → length new ≤ length (newest (old ++ new))
  unfolding newest
  newest-longest [] [] h = omega arith
  newest-longest [] (e ∷ new) h = ground arith
  newest-longest (e ∷ old) new h = ground (arith, newest-longest old new h, length-append old new)

  -- An element is kept with all that it held, or not at all.
  pub find-newest :
      (k : Text) (es : List (Element M))
      → Distinct es
      → (find k (newest es) ≡ find k es) ⊎ (find k (newest es) ≡ none)
  unfolding newest
  find-newest k [] d = inl refl
  find-newest k (e ∷ es) (q, d) = ground (arith, find-newest k es d, text_eq_iff e.entry.id k)

  -- The newest element stays if it fits by itself.
  pub find-newest_last :
      (es : List (Element M)) (e : Element M)
      → 0 < entry_cap
      → e.entry.bytes ≤ byte_cap
      → find e.entry.id es ≡ none
      → find e.entry.id (newest (es ++ e ∷ [])) ≡ some e
  unfolding newest
  find-newest_last [] e p q h = ground (arith, text_eq_iff e.entry.id e.entry.id)
  find-newest_last (x ∷ es) e p q h = ground (
    arith,
    find-newest_last es e p q,
    find-append_last e.entry.id es e,
    text_eq_iff e.entry.id e.entry.id,
  )

  -- An element that is over the limit by itself leaves nothing.
  pub newest_oversized :
      (es : List (Element M)) (e : Element M)
      → byte_cap < e.entry.bytes
      → newest (es ++ e ∷ []) ≡ []
  unfolding newest
  newest_oversized [] e h = ground arith
  newest_oversized (x ∷ es) e h = ground (arith, newest_oversized es e h, sizes-append es (e ∷ []))
