-- ===== src/MemoryStorage/Cleanup.antt =====
-- storage_memory.go: Cleanup drops exactly the entries that are older than the cutoff.
use go_clockwork.Prelude.{
  le_trans, ℕ, ◌≤◌, ◌≡◌, refl, Bool, not, none, some, List, [], ◌∷◌, ◌++◌, inl, inr, Bool-cases,
  sym, append_assoc, keep, keep-append, length-keep-le, if◌then◌else◌, arith, Text, text_eq_iff, ap,
  ap₂, subst, ◌∙◌, ℤ, is_pos, ltb_ℤ, ◌-ℤ◌,
}
use go_clockwork.MemoryStorage.{Element, InMemoryStorage, remove_element, cleanup, cleanup_loop}
use go_clockwork.MemoryStorage.Elements.{find, Distinct, without, other_id, sizes, without_absent}
use go_clockwork.MemoryStorage.Invariant.{IsConsistent, remove_element_lem}
use go_clockwork.MemoryStorage.Eviction.{HasLimits, remove_element-HasLimits}
use go_clockwork.MemoryStorage.Store.{IsValid}

module _ {M : Type 0} where
  -- Not created before the cutoff.
  abbrev pub is_recent : ℤ → Element M → Bool
  is_recent cutoff e = not (ltb_ℤ e.entry.created_at cutoff)

  find-append_absent :
      (k : Text) (xs ys : List (Element M))
      → find k (xs ++ ys) ≡ none
      → (find k xs ≡ none) × (find k ys ≡ none)
  find-append_absent k [] ys h = (refl, h)
  find-append_absent k (x ∷ xs) ys h = ground (arith, find-append_absent k xs ys)

  -- Around an element of a list without repeated ids no other element has its id.
  Distinct-middle :
      (xs : List (Element M)) (e : Element M) (ys : List (Element M))
      → Distinct (xs ++ e ∷ ys)
      → (find e.entry.id xs ≡ none) × (find e.entry.id ys ≡ none)
  Distinct-middle [] e ys (h, d) = (refl, h)
  Distinct-middle (x ∷ xs) e ys (h, d) = ground (
    arith,
    Distinct-middle xs e ys d,
    find-append_absent x.entry.id xs (e ∷ ys) h,
    text_eq_iff x.entry.id e.entry.id,
    text_eq_iff e.entry.id x.entry.id,
  )

  find-middle :
      (xs : List (Element M)) (e : Element M) (ys : List (Element M))
      → find e.entry.id xs ≡ none
      → find e.entry.id (xs ++ e ∷ ys) ≡ some e
  find-middle [] e ys h = ground (arith, text_eq_iff e.entry.id e.entry.id)
  find-middle (x ∷ xs) e ys h = ground (arith, find-middle xs e ys)

  without-middle :
      (xs : List (Element M)) (e : Element M) (ys : List (Element M))
      → find e.entry.id xs ≡ none
      → find e.entry.id ys ≡ none
      → without e.entry.id (xs ++ e ∷ ys) ≡ xs ++ ys
  without-middle xs e ys hx hy =
      keep-append (other_id e.entry.id) xs (e ∷ ys)
      ∙ ap₂ ◌++◌ (without_absent e.entry.id xs hx)
          (ground (arith, text_eq_iff e.entry.id e.entry.id, without_absent e.entry.id ys hy))

  -- What `Cleanup` leaves of a list that it has walked up to `done`.
  pub record Cleaned (entry_cap byte_cap : ℕ) (es : List (Element M)) (t : InMemoryStorage M)
      : Type 0 where
    pub consistent : IsConsistent t
    pub limits : HasLimits entry_cap byte_cap t
    pub left : t.entries ≡ es

  cleanup_loop-Cleaned :
      (entry_cap byte_cap : ℕ) (cutoff : ℤ) (done rest : List (Element M)) (s : InMemoryStorage M)
      → s.entries ≡ done ++ rest
      → IsConsistent s
      → HasLimits entry_cap byte_cap s
      → Cleaned entry_cap byte_cap
          (done ++ keep (is_recent cutoff) rest)
          (cleanup_loop cutoff rest s)
  unfolding cleanup_loop
  cleanup_loop-Cleaned entry_cap byte_cap cutoff done [] s h v l = record {
    consistent = v;
    limits = l;
    left = h;
  }
  cleanup_loop-Cleaned entry_cap byte_cap cutoff done (e ∷ rest) s h v l =
      elim (Bool-cases (ltb_ℤ e.entry.created_at cutoff)) [
        | inl old ↦
            let (front, back) = Distinct-middle done e rest (subst Distinct h v.distinct) in
            let removed =
              remove_element_lem e s v (ap (find e.entry.id) h ∙ find-middle done e rest front) in
            rw old (
              cleanup_loop-Cleaned entry_cap byte_cap cutoff done rest (remove_element e s)
                (removed.1 ∙ ap (without e.entry.id) h ∙ without-middle done e rest front back)
                removed.0 (remove_element-HasLimits entry_cap byte_cap e s l))
        | inr recent ↦ rw recent (
            subst (λ es. Cleaned entry_cap byte_cap es (cleanup_loop cutoff rest s))
              (append_assoc done (e ∷ []) (keep (is_recent cutoff) rest))
              (cleanup_loop-Cleaned entry_cap byte_cap cutoff (done ++ e ∷ []) rest s
                (h ∙ sym (append_assoc done (e ∷ []) rest)) v l))
      ]

  sizes-keep-le : (p : Element M → Bool) (es : List (Element M)) → sizes (keep p es) ≤ sizes es
  sizes-keep-le p [] = omega arith
  sizes-keep-le p (e ∷ es) = ground (arith, sizes-keep-le p es)

  -- `Cleanup` keeps a valid storage valid. With a positive age it drops exactly the entries that were
  -- created before `now - max_age` and keeps the order of the others; otherwise it changes nothing.
  pub cleanup-IsValid :
      (entry_cap byte_cap : ℕ) (now max_age : ℤ) (s : InMemoryStorage M)
      → IsValid entry_cap byte_cap s
      → IsValid entry_cap byte_cap (cleanup now max_age s)
        × ((cleanup now max_age s).entries
            ≡ (if is_pos max_age then keep (is_recent (now -ℤ max_age)) s.entries else s.entries))
  unfolding cleanup
  cleanup-IsValid entry_cap byte_cap now max_age s v = elim (Bool-cases (is_pos max_age)) [
    | inl aged ↦
        let cutoff = now -ℤ max_age in
        let c =
          cleanup_loop-Cleaned entry_cap byte_cap cutoff [] s.entries s refl v.consistent
            v.limits in
        rw aged (
          record {
            consistent = c.consistent;
            limits = c.limits;
            few = rw c.left (le_trans (length-keep-le (is_recent cutoff) s.entries) v.few);
            small = rw c.left (le_trans (sizes-keep-le (is_recent cutoff) s.entries) v.small);
          },
          c.left,
        )
    | inr off ↦ rw off (v, refl)
  ]
