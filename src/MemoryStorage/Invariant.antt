-- ===== src/MemoryStorage/Invariant.antt =====
-- storage_memory.go: what holds of the storage between two calls, and that every method keeps it.
use go_clockwork.Prelude.{
  ◌+◌, ◌<◌, ◌^◌, ◌≡◌, refl, none, some, [], ◌∷◌, inl, inr, Option-cases, arith, Text, ap, pos,
  lookup, lookup-insert, lookup-delete, add_int_pos, sub_int_pos, sym, subst,
}
use go_clockwork.MemoryStorage.{
  Entry, Element, InMemoryStorage, remove_element, replace_existing, push_back,
}
use go_clockwork.MemoryStorage.Window.{fits}
use go_clockwork.MemoryStorage.Elements.{
  without_absent, find, Distinct, Between, without, sizes, unlink-without, sizes-without,
  without-Distinct, without-Between, find-without, find-id, find-append_last, append_last-Distinct,
  append_last-Between, sizes-append,
}

module _ {M : Type 0} where
  -- The map, the list and the byte count agree; no id is stored twice; the limits are the positive
  -- int64 values that the constructor sets.
  pub record IsConsistent (s : InMemoryStorage M) : Type 0 where
    pub indexed : (k : Text) → lookup k s.by_id ≡ find k s.entries
    pub distinct : Distinct s.entries
    pub ordered : Between 0 s.next_handle s.entries
    pub counted : s.total_bytes ≡ pos (sizes s.entries)
    pub representable : sizes s.entries < 2 ^ 63

  -- What `removeElementLocked` does to a consistent storage.
  pub remove_element_lem :
      (e : Element M) (s : InMemoryStorage M)
      → IsConsistent s
      → find e.entry.id s.entries ≡ some e
      → IsConsistent (remove_element e s)
        × ((remove_element e s).entries ≡ without e.entry.id s.entries)
  unfolding remove_element
  remove_element_lem e s v h =
      let k = e.entry.id in
      let unlinked = unlink-without k 0 s.next_handle s.entries e v.ordered v.distinct h in
      let total = sizes-without k s.entries e v.distinct h in
      (
        record {
          indexed = λ j.
              rw (unlinked, lookup-delete k j s.by_id, find-without k j s.entries, v.indexed j);
          distinct = rw unlinked (without-Distinct k s.entries v.distinct);
          ordered = rw unlinked (without-Between k 0 s.next_handle s.entries v.ordered);
          counted =
              rw
                (
                  unlinked,
                  v.counted,
                  sub_int_pos (sizes s.entries) e.entry.bytes (omega arith) v.representable,
                )
                (ap pos (omega arith));
          representable = rw unlinked (omega (arith, v.representable));
        },
        unlinked,
      )

  -- Removing an element leaves the limits and the next identity alone.
  pub remove_element-limits :
      (e : Element M) (s : InMemoryStorage M)
      → ((remove_element e s).max_entries ≡ s.max_entries)
        × ((remove_element e s).max_bytes ≡ s.max_bytes)
        × ((remove_element e s).next_handle ≡ s.next_handle)
  unfolding remove_element
  remove_element-limits e s = (refl, refl, refl)

  -- The end of `Store`, before the eviction.
  pub push_back-IsConsistent :
      (entry : Entry M) (s : InMemoryStorage M)
      → IsConsistent s
      → find entry.id s.entries ≡ none
      → sizes s.entries + entry.bytes < 2 ^ 63
      → IsConsistent (push_back entry s)
  unfolding push_back
  push_back-IsConsistent entry s v h fits =
      let e : Element M = record { handle = s.next_handle; entry = entry } in
      let total = sizes-append s.entries (e ∷ []) in
      record {
        indexed = λ j.
            rw (lookup-insert entry.id j e s.by_id, find-append_last j s.entries e h, v.indexed j);
        distinct = append_last-Distinct s.entries e h v.distinct;
        ordered = append_last-Between 0 s.next_handle s.entries e refl v.ordered;
        counted =
            rw (v.counted, add_int_pos (sizes s.entries) entry.bytes fits) (ap pos (omega arith));
        representable = omega arith;
      }

  -- `Store` first drops the entry that it replaces.
  pub replace_existing_lem :
      (id : Text) (s : InMemoryStorage M)
      → IsConsistent s
      → IsConsistent (replace_existing id s)
        × ((replace_existing id s).entries ≡ without id s.entries)
        × ((replace_existing id s).max_entries ≡ s.max_entries)
        × ((replace_existing id s).max_bytes ≡ s.max_bytes)
        × ((replace_existing id s).next_handle ≡ s.next_handle)
  unfolding replace_existing
  replace_existing_lem id s v = elim (Option-cases (find id s.entries)) [
    | inl missing ↦
        rw (v.indexed id, missing, replace_existing)
          (v, sym (without_absent id s.entries missing), refl, refl, refl)
    | inr (e, found) ↦
        let same = find-id id s.entries e found in
        let removed =
          remove_element_lem e s v (subst (λ k. find k s.entries ≡ some e) (sym same) found) in
        let limits = remove_element-limits e s in
        rw (v.indexed id, found, replace_existing)
          (
            removed.0,
            subst (λ k. (remove_element e s).entries ≡ without k s.entries) same removed.1,
            limits.0,
            limits.1,
            limits.2,
          )
  ]
