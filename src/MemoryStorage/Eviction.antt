-- ===== src/MemoryStorage/Eviction.antt =====
-- storage_memory.go: the loop of evictLocked ends within its fuel and keeps the newest entries.
use go_clockwork.Prelude.{
  ℕ, zero, suc, ◌≤◌, ◌<◌, ◌≡◌, refl, true, false, not, List, [], ◌∷◌, inl, inr, Bool-cases, arith,
  text_eq_iff, ap, ◌∙◌, pos, length, sym, subst,
}
use go_clockwork.MemoryStorage.{Element, InMemoryStorage, remove_element, over_limit, evict_loop}
use go_clockwork.MemoryStorage.Window.{fits, newest}
use go_clockwork.MemoryStorage.Elements.{without_absent, find, Distinct, without}
use go_clockwork.MemoryStorage.Invariant.{IsConsistent, remove_element_lem}

module _ {M : Type 0} where
  -- The limits as the constructor sets them: positive values of int and int64.
  pub record HasLimits (entry_cap byte_cap : ℕ) (s : InMemoryStorage M) : Type 0 where
    pub entries_limit : s.max_entries ≡ pos entry_cap
    pub bytes_limit : s.max_bytes ≡ pos byte_cap
    pub entry_cap_pos : 0 < entry_cap
    pub byte_cap_pos : 0 < byte_cap

  over_limit-fits :
      (entry_cap byte_cap : ℕ) (s : InMemoryStorage M)
      → IsConsistent s
      → HasLimits entry_cap byte_cap s
      → over_limit s ≡ not (fits entry_cap byte_cap s.entries)
  over_limit-fits entry_cap byte_cap s v l =
      rw (l.entries_limit, l.bytes_limit, v.counted) (ground arith)

  evict_loop_fits :
      (fuel : ℕ) (s : InMemoryStorage M) → over_limit s ≡ false → evict_loop fuel s ≡ s
  unfolding evict_loop
  evict_loop_fits zero s h = refl
  evict_loop_fits (suc fuel) s h = rw h

  evict_loop_over :
      (fuel : ℕ) (s : InMemoryStorage M) (e : Element M) (es : List (Element M))
      → s.entries ≡ e ∷ es
      → over_limit s ≡ true
      → evict_loop (suc fuel) s ≡ evict_loop fuel (remove_element e s)
  unfolding evict_loop
  evict_loop_over fuel s e es p h = rw h (ground arith)

  -- What the loop of `evictLocked` leaves behind.
  pub record Evicted (entry_cap byte_cap : ℕ) (s t : InMemoryStorage M) : Type 0 where
    pub consistent : IsConsistent t
    pub limits : HasLimits entry_cap byte_cap t
    pub window : t.entries ≡ newest entry_cap byte_cap s.entries

  newest_of_fits :
      (entry_cap byte_cap : ℕ) (es : List (Element M))
      → fits entry_cap byte_cap es ≡ true
      → newest entry_cap byte_cap es ≡ es
  unfolding newest
  newest_of_fits entry_cap byte_cap [] h = refl
  newest_of_fits entry_cap byte_cap (e ∷ es) h = rw h

  -- Within the limits nothing is evicted.
  evict_loop-Evicted_of_fits :
      (entry_cap byte_cap fuel : ℕ) (s : InMemoryStorage M)
      → IsConsistent s
      → HasLimits entry_cap byte_cap s
      → fits entry_cap byte_cap s.entries ≡ true
      → Evicted entry_cap byte_cap s (evict_loop fuel s)
  evict_loop-Evicted_of_fits entry_cap byte_cap fuel s v l within =
      rw (evict_loop_fits fuel s (over_limit-fits entry_cap byte_cap s v l ∙ ap not within))
        (record {
          consistent = v;
          limits = l;
          window = sym (newest_of_fits entry_cap byte_cap s.entries within);
        })

  -- To remove the oldest element is to take the tail.
  remove_front :
      (e : Element M) (es : List (Element M)) (s : InMemoryStorage M)
      → s.entries ≡ e ∷ es
      → IsConsistent s
      → IsConsistent (remove_element e s) × ((remove_element e s).entries ≡ es)
  remove_front e es s p v =
      let d = subst Distinct p v.distinct in
      let removed =
        remove_element_lem e s v
          (ap (find e.entry.id) p ∙ ground (arith, text_eq_iff e.entry.id e.entry.id)) in
      (
        removed.0,
        removed.1
            ∙ ap (without e.entry.id) p
            ∙ ground (arith, text_eq_iff e.entry.id e.entry.id, without_absent e.entry.id es d.0),
      )

  pub remove_element-HasLimits :
      (entry_cap byte_cap : ℕ) (e : Element M) (s : InMemoryStorage M)
      → HasLimits entry_cap byte_cap s
      → HasLimits entry_cap byte_cap (remove_element e s)
  unfolding remove_element
  remove_element-HasLimits entry_cap byte_cap e s l = ground arith

  newest_over :
      (entry_cap byte_cap : ℕ) (e : Element M) (es : List (Element M))
      → fits entry_cap byte_cap (e ∷ es) ≡ false
      → newest entry_cap byte_cap (e ∷ es) ≡ newest entry_cap byte_cap es
  unfolding newest
  newest_over entry_cap byte_cap e es h = rw h

  -- With as much fuel as there are entries, the loop of evictLocked on a consistent storage with
  -- positive limits ends and keeps exactly the newest entries that fit; the storage stays consistent.
  pub evict_loop-Evicted :
      (entry_cap byte_cap fuel : ℕ) (es : List (Element M)) (s : InMemoryStorage M)
      → s.entries ≡ es
      → length es ≤ fuel
      → IsConsistent s
      → HasLimits entry_cap byte_cap s
      → Evicted entry_cap byte_cap s (evict_loop fuel s)
  evict_loop-Evicted entry_cap byte_cap fuel [] s p h v l =
      evict_loop-Evicted_of_fits entry_cap byte_cap fuel s v l
        (ap (fits entry_cap byte_cap) p ∙ ground arith)
  evict_loop-Evicted entry_cap byte_cap zero (e ∷ es) s p h v l = absurd (omega arith)
  evict_loop-Evicted entry_cap byte_cap (suc fuel) (e ∷ es) s p h v l =
      elim (Bool-cases (fits entry_cap byte_cap s.entries)) [
        | inl within ↦ evict_loop-Evicted_of_fits entry_cap byte_cap (suc fuel) s v l within
        | inr over ↦
            let over' = over_limit-fits entry_cap byte_cap s v l ∙ ap not over in
            let front = remove_front e es s p v in
            let rest =
              evict_loop-Evicted entry_cap byte_cap fuel es (remove_element e s) front.1
                (omega arith) front.0 (remove_element-HasLimits entry_cap byte_cap e s l) in
            rw (evict_loop_over fuel s e es p over') (record {
              consistent = rest.consistent;
              limits = rest.limits;
              window =
                  rest.window
                  ∙ ap (newest entry_cap byte_cap) front.1
                  ∙ sym (
                      newest_over entry_cap byte_cap e es
                        (sym (ap (fits entry_cap byte_cap) p) ∙ over))
                  ∙ sym (ap (newest entry_cap byte_cap) p);
            })
      ]
