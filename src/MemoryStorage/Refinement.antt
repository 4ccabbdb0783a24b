-- ===== src/MemoryStorage/Refinement.antt =====
-- The in-memory storage implements its specification: every sequence of calls gets the replies that
-- the list of entries gives.
use go_clockwork.Prelude.{
  ℕ, ◌<◌, ◌+◌, ◌^◌, ◌≡◌, ◌≢◌, refl, sym, Bool, true, false, not, none, some, List, [], ◌∷◌, ◌++◌,
  map, take, keep, ◌⊎◌, inl, inr, Option-cases, arith, Text, text_eq, ap, ap₂, ◌∙◌, ℤ, is_empty,
  ltb_ℤ, ◌-ℤ◌, length,
}
use mathlib.Core.List.{reverse, reverse-cons, map-append}
use go_clockwork.Storage.{ok, Codec}
use go_clockwork.MemoryStorage.{Entry, Element, InMemoryStorage, new_in_memory_storage}
use go_clockwork.MemoryStorage.Elements.{find, without, sizes}
use go_clockwork.MemoryStorage.Window.{newest}
use go_clockwork.MemoryStorage.Store.{
  effective, entry_of, IsValid, Stored, store-Stored, store_refused, new_in_memory_storage-IsValid,
}
use go_clockwork.MemoryStorage.Reads.{get-find, list-take, found, metadata_of}
use go_clockwork.MemoryStorage.Cleanup.{cleanup-IsValid}
use go_clockwork.MemoryStorage.Spec.{
  Call, stores, gets, lists, cleans, Reply, stored, got, listed, step, run, find_entry, found_entry,
  total, shrink, put, read_metadata, spec_step, spec_run,
}

module _ {M : Type 0} where
  -- The entries of the storage, oldest first.
  abbrev pub entries_of : List (Element M) → List (Entry M)
  entries_of = map (λ e. e.entry)

  find_entry-entries_of :
      (k : Text) (es : List (Element M))
      → found_entry k (find_entry k (entries_of es)) ≡ found k (find k es)
  find_entry-entries_of k [] = refl
  find_entry-entries_of k (e ∷ es) = ground (arith, find_entry-entries_of k es)

  length-entries_of : (es : List (Element M)) → length (entries_of es) ≡ length es
  length-entries_of [] = refl
  length-entries_of (e ∷ es) = omega (arith, length-entries_of es)

  total-entries_of : (es : List (Element M)) → total (entries_of es) ≡ sizes es
  total-entries_of [] = refl
  total-entries_of (e ∷ es) = omega (arith, total-entries_of es)

  shrink-entries_of :
      (entry_cap byte_cap : ℕ) (es : List (Element M))
      → entries_of (newest entry_cap byte_cap es) ≡ shrink entry_cap byte_cap (entries_of es)
  unfolding newest
  shrink-entries_of entry_cap byte_cap [] = refl
  shrink-entries_of entry_cap byte_cap (e ∷ es) =
      ground
        (arith, shrink-entries_of entry_cap byte_cap es, length-entries_of es, total-entries_of es)

  keep-entries_of :
      (p : Entry M → Bool) (es : List (Element M))
      → entries_of (keep (λ e. p e.entry) es) ≡ keep p (entries_of es)
  keep-entries_of p [] = refl
  keep-entries_of p (e ∷ es) = ground (arith, keep-entries_of p es)

  metadata-entries_of :
      (es : List (Element M))
      → map read_metadata (reverse (entries_of es)) ≡ map metadata_of (reverse es)
  metadata-entries_of [] = refl
  metadata-entries_of (e ∷ es) =
      rw (reverse-cons e.entry (entries_of es), reverse-cons e es, map-append, map-append)
        (ap (λ ms. ms ++ e.entry.metadata ∷ []) (metadata-entries_of es))

is_empty-cases : (t : Text) → ((t ≡ []) × (is_empty t ≡ true)) ⊎ ((t ≢ []) × (is_empty t ≡ false))
is_empty-cases [] = inl (refl, refl)
is_empty-cases (c ∷ t) = inr ((λ e. cc), refl)

module _ {M : Type 0} (codec : Codec M) (entry_cap byte_cap : ℕ) where
  -- What one call does on both sides.
  pub record Agrees (r : Reply M × InMemoryStorage M) (q : Reply M × List (Entry M)) : Type 0 where
    pub reply : r.0 ≡ q.0
    pub entries : entries_of r.1.entries ≡ q.1
    pub valid : IsValid entry_cap byte_cap r.1

  module _
      (fits : (m : M) (payload : Text)
        → codec.marshal m ≡ some payload
        → byte_cap + length payload < 2 ^ 63) where
    -- The entries after a `Store` that succeeds.
    stored_entries :
        (now : ℤ) (m : M) (payload : Text) (s : InMemoryStorage M) {t : InMemoryStorage M}
        → Stored entry_cap byte_cap (entry_of codec now m payload) s t
        → entries_of t.entries
          ≡ put codec entry_cap byte_cap (entry_of codec now m payload) (entries_of s.entries)
    stored_entries now m payload s st =
        let e : Element M = record {
          handle = s.next_handle;
          entry = entry_of codec now m payload;
        } in
        let kept = without (codec.id_of m) s.entries in
        ap entries_of st.window
        ∙ shrink-entries_of entry_cap byte_cap (kept ++ e ∷ [])
        ∙ ap (shrink entry_cap byte_cap) (
            map-append (λ x. x.entry) kept (e ∷ [])
            ∙ ap (λ es. es ++ e.entry ∷ [])
                (keep-entries_of (λ x. not (text_eq x.id (codec.id_of m))) s.entries))

    store-Agrees :
        (now : ℤ) (m : M) (s : InMemoryStorage M)
        → IsValid entry_cap byte_cap s
        → Agrees
            (step codec (stores now (some m)) s)
            (spec_step codec entry_cap byte_cap (stores now (some m)) (entries_of s.entries))
    unfolding step spec_step
    store-Agrees now m s v = elim (is_empty-cases (codec.id_of m)) [
      | inl (empty, test) ↦
          let e = (store_refused codec now s).1 m empty in
          rw test (record { reply = ap (λ r. stored r.0) e; entries = rw e refl; valid = rw e v })
      | inr (named, test) ↦ elim (Option-cases (codec.marshal m)) [
        | inl failed ↦
            let e = (store_refused codec now s).2 m named failed in
            rw (test, failed)
              (record { reply = ap (λ r. stored r.0) e; entries = rw e refl; valid = rw e v })
        | inr (payload, encoded) ↦
            let (accepted, st) =
              store-Stored codec entry_cap byte_cap now m payload s v named encoded
                (fits m payload encoded) in
            rw (test, encoded)
              (record {
                reply = ap stored accepted;
                entries = stored_entries now m payload s st;
                valid = st.valid;
              })
      ]
    ]

    step-Agrees :
        (c : Call M) (s : InMemoryStorage M)
        → IsValid entry_cap byte_cap s
        → Agrees (step codec c s) (spec_step codec entry_cap byte_cap c (entries_of s.entries))
    unfolding step spec_step
    step-Agrees (stores now none) s v =
        let e = (store_refused codec now s).0 in
        record { reply = ap (λ r. stored r.0) e; entries = rw e refl; valid = rw e v }
    step-Agrees (stores now (some m)) s v = store-Agrees now m s v
    step-Agrees (gets id) s v = record {
      reply = ap got (get-find id s v.consistent ∙ sym (find_entry-entries_of id s.entries));
      entries = refl;
      valid = v;
    }
    step-Agrees (lists limit) s v = record {
      reply = ap listed (
          list-take entry_cap byte_cap limit s v
          ∙ ap (λ ms. ok (take (effective entry_cap limit) ms))
              (sym (metadata-entries_of s.entries)));
      entries = refl;
      valid = v;
    }
    step-Agrees (cleans now max_age) s v =
        let recent : Entry M → Bool = λ e. not (ltb_ℤ e.created_at (now -ℤ max_age)) in
        let (valid, left) = cleanup-IsValid entry_cap byte_cap now max_age s v in
        record {
          reply = refl;
          entries = ap entries_of left ∙ ground (arith, keep-entries_of recent s.entries);
          valid = valid;
        }

    run-Agrees :
        (cs : List (Call M)) (s : InMemoryStorage M)
        → IsValid entry_cap byte_cap s
        → ((run codec cs s).0 ≡ (spec_run codec entry_cap byte_cap cs (entries_of s.entries)).0)
          × (entries_of (run codec cs s).1.entries
              ≡ (spec_run codec entry_cap byte_cap cs (entries_of s.entries)).1)
          × IsValid entry_cap byte_cap (run codec cs s).1
    unfolding run spec_run
    run-Agrees [] s v = (refl, refl, v)
    run-Agrees (c ∷ cs) s v =
        let a = step-Agrees c s v in
        let (replies, entries, valid) = run-Agrees cs (step codec c s).1 a.valid in
        (
          ap₂ ◌∷◌ a.reply
              (replies ∙ ap (λ es. (spec_run codec entry_cap byte_cap cs es).0) a.entries),
          entries ∙ ap (λ es. (spec_run codec entry_cap byte_cap cs es).1) a.entries,
          valid,
        )

-- The storage refines its specification. From a new storage, every sequence of calls gets exactly the
-- replies of the list of entries, and leaves the same entries in the same order, provided that no
-- payload is so large that its size and the limit of bytes overflow an int64 together.
pub run-spec_run :
    {M : Type 0} (codec : Codec M) (max_entries max_bytes : ℤ) (cs : List (Call M))
    → ((m : M) (payload : Text)
        → codec.marshal m ≡ some payload
        → effective 67108864 max_bytes + length payload < 2 ^ 63)
    → let s = new_in_memory_storage {M = M} max_entries max_bytes in
      let (r, t) = run codec cs s in
      let (q, es) =
        spec_run codec (effective 200 max_entries) (effective 67108864 max_bytes) cs [] in
      (r ≡ q) × (entries_of t.entries ≡ es)
unfolding new_in_memory_storage
run-spec_run codec max_entries max_bytes cs fits =
    let (replies, entries, _) =
      run-Agrees codec (effective 200 max_entries) (effective 67108864 max_bytes) fits cs
        (new_in_memory_storage max_entries max_bytes)
        (new_in_memory_storage-IsValid max_entries max_bytes) in
    (replies, entries)
