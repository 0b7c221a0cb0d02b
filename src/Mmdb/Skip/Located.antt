-- ===== src/Mmdb/Skip/Located.antt =====
-- The entry that a path leads to is of the type that stands at its offset.
use qladder.Prelude.{
  ℕ, zero, suc, ◌≡◌, subst, List, [], ◌∷◌, Option, Option-cases, Bool, true, false, ◌||◌, not, leb,
  ◌==◌, if◌then◌else◌, u32, arith, Bool-cases, inl, inr,
}
use qladder.Mmdb.{Error, Outcome, ok, error, ◌>>=◌, >>=-inv}
use qladder.Mmdb.Decode.{EntryData, no_entry, decode_one, decode_one_follow}
use qladder.Mmdb.Decode.Located.{IsAt, decode_one_follow-IsAt}
use qladder.Mmdb.Skip.{
  same_bytes, text_of, skip_map_or_array, lookup_map_loop, lookup_path_in_map, lookup_array_loop,
  lookup_path_in_array, follow_path, aget_value,
}

taken :
    (c : Bool) (x : Outcome EntryData) (r : EntryData)
    → (if c then x else error Error.invalid_lookup_path) ≡ ok r
    → x ≡ ok r
taken true x r h = h
taken false x r h = absurd (ground arith)

module _ (mem : List ℕ) (fuel : ℕ) where
  map_loop-IsAt :
      (path_elem : List ℕ) (size offset : ℕ) (r : EntryData)
      → lookup_map_loop mem fuel path_elem size offset ≡ ok r
      → IsAt mem r
  unfolding lookup_map_loop
  map_loop-IsAt path_elem zero offset r h = absurd (ground arith)
  map_loop-IsAt path_elem (suc size) offset r h =
      let (key, is_key, h1) = >>=-inv _ (decode_one_follow mem offset no_entry) {last = r} h in
      at_key path_elem size key r (λ o k. map_loop-IsAt path_elem size o r k) h1
    where
      at_key :
          (path_elem : List ℕ) (size : ℕ) (key r : EntryData)
          → ((o : ℕ) → lookup_map_loop mem fuel path_elem size o ≡ ok r → IsAt mem r)
          → (elim (key.ty == 2) [
            | false ↦ error Error.invalid_data
            | true ↦ elim (same_bytes path_elem (text_of key.payload)) [
              | true ↦ decode_one_follow mem key.offset_to_next no_entry
              | false ↦ decode_one mem key.offset_to_next no_entry >>= λ v.
                  skip_map_or_array mem fuel v >>= λ w.
                  lookup_map_loop mem fuel path_elem size w.offset_to_next
            ]
          ])
            ≡ ok r
          → IsAt mem r
      at_key path_elem size key r rest k = elim (Bool-cases (key.ty == 2)) [
        | inr wrong ↦ absurd (ground arith)
        | inl text ↦ elim (Bool-cases (same_bytes path_elem (text_of key.payload))) [
          | inl found ↦
              decode_one_follow-IsAt mem key.offset_to_next no_entry r (rw (text, found) at k)
          | inr other ↦
              let (v, is_v, k1) =
                >>=-inv _ (decode_one mem key.offset_to_next no_entry) {last = r}
                  (rw (text, other) at k) in
              let (w, is_w, k2) =
                >>=-inv (λ w. lookup_map_loop mem fuel path_elem size w.offset_to_next)
                  (skip_map_or_array mem fuel v) {last = r} k1 in
              rest w.offset_to_next k2
        ]
      ]

  in_map-IsAt :
      (path_elem : List ℕ) (e r : EntryData)
      → lookup_path_in_map mem fuel path_elem e ≡ ok r
      → IsAt mem r
  unfolding lookup_path_in_map
  in_map-IsAt path_elem e r h = map_loop-IsAt path_elem e.data_size e.offset_to_next r h

  module _ (strtol : List ℕ → Option (ℕ × Bool)) where
    in_array-IsAt :
        (path_elem : List ℕ) (e r : EntryData)
        → lookup_path_in_array mem strtol fuel path_elem e ≡ ok r
        → IsAt mem r
    unfolding lookup_path_in_array
    in_array-IsAt path_elem e r h = elim (Option-cases (strtol path_elem)) [
      | inl none_read ↦ absurd (ground arith)
      | inr ((i, all_read), is_i) ↦ elim (Bool-cases (not all_read || leb e.data_size (u32 i))) [
        | inl beyond ↦ absurd (ground arith)
        | inr within ↦
            let (w, is_w, h1) =
              >>=-inv (λ w. decode_one_follow mem w.offset_to_next no_entry)
                (lookup_array_loop mem fuel i e) {last = r}
                (rw within at (rw (is_i, lookup_path_in_array) at h)) in
            decode_one_follow-IsAt mem w.offset_to_next no_entry r h1
      ]
    ]

    path-IsAt :
        (path : List (List ℕ)) (e r : EntryData)
        → IsAt mem e
        → follow_path mem strtol fuel path e ≡ ok r
        → IsAt mem r
    unfolding follow_path
    path-IsAt [] e r there h =
        let same : e ≡ r = ground arith in subst (λ (x : EntryData). IsAt mem x) same there
    path-IsAt (path_elem ∷ path) e r there h =
        let (e', is_e', h1) = >>=-inv (follow_path mem strtol fuel path) _ {last = r} h in
        path-IsAt path e' r (one_step path_elem e e' is_e') h1
      where
        one_step :
            (path_elem : List ℕ) (e e' : EntryData)
            → (if e.ty == 11
                then lookup_path_in_array mem strtol fuel path_elem e
                else if e.ty == 7
                then lookup_path_in_map mem fuel path_elem e
                else error Error.lookup_path_does_not_match_data)
              ≡ ok e'
            → IsAt mem e'
        one_step path_elem e e' k = elim (Bool-cases (e.ty == 11)) [
          | inl array ↦ in_array-IsAt path_elem e e' (rw array at k)
          | inr no_array ↦ elim (Bool-cases (e.ty == 7)) [
            | inl a_map ↦ in_map-IsAt path_elem e e' (rw (no_array, a_map) at k)
            | inr simple ↦ absurd (ground arith)
          ]
        ]

    -- The entry that `MMDB_aget_value` yields is of the type that stands at its offset.
    pub aget_value-IsAt :
        (offset : ℕ) (path : List (List ℕ)) (r : EntryData)
        → aget_value mem strtol fuel offset path ≡ ok r
        → IsAt mem r
    unfolding aget_value
    aget_value-IsAt offset path r h =
        let (e, is_e, h1) = >>=-inv _ (decode_one_follow mem offset no_entry) {last = r} h in
        path-IsAt path e r (decode_one_follow-IsAt mem offset no_entry e is_e)
          (taken e.has_data _ r h1)
