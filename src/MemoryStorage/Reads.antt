-- ===== src/MemoryStorage/Reads.antt =====
-- storage_memory.go: what Get and List find, after a Store in particular.
use go_clockwork.Prelude.{
  take_nil, ℕ, suc, ◌+◌, ◌-◌, ◌≤◌, ◌<◌, ◌^◌, ◌≡◌, ◌≢◌, Option, none, some, List, [], ◌∷◌, ◌++◌, inl,
  inr, Bool-cases, ◌⊎◌, map, take, sym, append_assoc, append-nil, length-append, arith, Text,
  text_eq_iff, ap, ◌∙◌, ℤ, pos, length, ltb_ℤ,
}
use mathlib.Core.List.{reverse}
use go_clockwork.Storage.{Error, Result, ok, err, Codec}
use go_clockwork.MemoryStorage.{Element, InMemoryStorage, store, get, list, collect}
use go_clockwork.MemoryStorage.Elements.{
  find, without, find-without_self, find-without, find-append_last, without-Distinct,
  append_last-Distinct,
}
use go_clockwork.MemoryStorage.Window.{newest, find-newest, find-newest_last, newest_oversized}
use go_clockwork.MemoryStorage.Invariant.{IsConsistent}
use go_clockwork.MemoryStorage.Store.{
  IsValid, Stored, store-Stored, entry_of, effective, effective_lem,
}

module _ {M : Type 0} where
  abbrev pub metadata_of : Element M → M
  metadata_of e = e.entry.metadata

  abbrev pub found : Text → Option (Element M) → Result M
  found k none = err (Error.metadata_not_found k)
  found k (some e) = ok (metadata_of e)

  pub get-find :
      (k : Text) (s : InMemoryStorage M) → IsConsistent s → get k s ≡ found k (find k s.entries)
  unfolding get
  get-find k s v = ground (arith, v.indexed k)

  collect-take :
      (n : ℕ) (es : List (Element M)) (out : List M)
      → length out ≤ n
      → collect (pos n) es out ≡ out ++ take (n - length out) (map metadata_of es)
  unfolding collect
  collect-take n [] out h = ground (arith, append-nil out, take_nil {A = M} (n - length out))
  collect-take n (e ∷ es) out h = elim (Bool-cases (ltb_ℤ (pos (length out)) (pos n))) [
    | inl more ↦
        let less : n - length out ≡ suc (n - suc (length out)) = ground arith in
        let longer = length-append out (metadata_of e ∷ []) in
        rw (more, collect-take n es (out ++ metadata_of e ∷ []) (ground (arith, longer)))
          (let shorter : n - length (out ++ metadata_of e ∷ []) ≡ n - suc (length out) =
              omega arith in
            rw (shorter, less) (append_assoc out (metadata_of e ∷ []) _))
    | inr full ↦
        let none_left : n - length out ≡ 0 = ground arith in
        rw (full, none_left) (sym (append-nil out))
  ]

  -- `List` of a valid storage returns the newest records first, as many as the limit, or as the
  -- storage may hold if the limit is not positive.
  pub list-take :
      (entry_cap byte_cap : ℕ) (limit : ℤ) (s : InMemoryStorage M)
      → IsValid entry_cap byte_cap s
      → list limit s ≡ ok (take (effective entry_cap limit) (map metadata_of (reverse s.entries)))
  unfolding list
  list-take entry_cap byte_cap limit s v =
      let n = effective entry_cap limit in
      let whole : n - 0 ≡ n = omega arith in
      rw (v.limits.entries_limit, (effective_lem entry_cap limit v.limits.entry_cap_pos).0)
        (rw (collect-take n (reverse s.entries) [] (omega arith), whole))

module _ {M : Type 0} (codec : Codec M) (entry_cap byte_cap : ℕ) (now : ℤ) (m : M) (payload : Text)
    (s : InMemoryStorage M) (v : IsValid entry_cap byte_cap s) (named : codec.id_of m ≢ [])
    (encoded : codec.marshal m ≡ some payload) (fits : byte_cap + length payload < 2 ^ 63) where
  stored : Stored entry_cap byte_cap (entry_of codec now m payload) s (store codec now (some m) s).1
  stored = (store-Stored codec entry_cap byte_cap now m payload s v named encoded fits).1

  get-newest :
      (k : Text)
      → get k (store codec now (some m) s).1
        ≡ found k (
            find k (
              newest entry_cap byte_cap (
                without (codec.id_of m) s.entries
                ++ record { handle = s.next_handle; entry = entry_of codec now m payload } ∷ [])))
  get-newest k =
      get-find k (store codec now (some m) s).1 stored.valid.consistent
      ∙ ap (λ es. found k (find k es)) stored.window

  -- In a valid storage, a record with an id whose encoding is within the limit of bytes (and does not
  -- overflow an int64 together with it) is found right after its `Store`.
  pub get-store_self :
      length payload ≤ byte_cap → get (codec.id_of m) (store codec now (some m) s).1 ≡ ok m
  get-store_self small =
      get-newest (codec.id_of m)
      ∙ ap (found (codec.id_of m)) (
          find-newest_last entry_cap byte_cap (without (codec.id_of m) s.entries)
            (record { handle = s.next_handle; entry = entry_of codec now m payload })
            v.limits.entry_cap_pos small (find-without_self (codec.id_of m) s.entries))

  -- In a valid storage, a record with an id whose encoding is over the limit of bytes (and does not
  -- overflow an int64 together with it) empties the storage: after its `Store` no id is found.
  pub get-store_oversized :
      byte_cap < length payload
      → (k : Text) → get k (store codec now (some m) s).1 ≡ err (Error.metadata_not_found k)
  get-store_oversized large k =
      get-newest k
      ∙ ap (λ es. found k (find k es))
          (newest_oversized entry_cap byte_cap (without (codec.id_of m) s.entries)
            (record { handle = s.next_handle; entry = entry_of codec now m payload }) large)

  -- In a valid storage, a `Store` of a record with an id (and an encoding that does not overflow an
  -- int64 together with the limit of bytes) leaves what another id finds as it was, or has evicted
  -- that id.
  pub get-store_other :
      (k : Text)
      → codec.id_of m ≢ k
      → (get k (store codec now (some m) s).1 ≡ get k s)
        ⊎ (get k (store codec now (some m) s).1 ≡ err (Error.metadata_not_found k))
  get-store_other k other =
      let e : Element M = record { handle = s.next_handle; entry = entry_of codec now m payload } in
      let kept = without (codec.id_of m) s.entries in
      let absent = find-without_self (codec.id_of m) s.entries in
      ground (
        arith,
        get-newest k,
        get-find k s v.consistent,
        find-newest entry_cap byte_cap k (kept ++ e ∷ []) (
            append_last-Distinct kept e absent
              (without-Distinct (codec.id_of m) s.entries v.consistent.distinct)),
        find-append_last k kept e absent,
        find-without (codec.id_of m) k s.entries,
        text_eq_iff (codec.id_of m) k,
      )
