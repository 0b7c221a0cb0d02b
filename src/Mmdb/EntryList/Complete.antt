-- ===== src/Mmdb/EntryList/Complete.antt =====
-- A list of entries is whole: a node for each member, and no read outside the data section.
use qladder.Prelude.{
  ℕ, zero, suc, ◌*◌, ◌≤◌, ◌<◌, ◌^◌, ◌≡◌, ◌⊎◌, inl, inr, List, [], ◌∷◌, ◌++◌, Bool, false, ◌||◌,
  ◌==◌, if◌then◌else◌, length, length-append, arith,
}
use qladder.Mmdb.{Outcome, ok, Holds, >>=-Holds, if-Holds}
use qladder.Mmdb.Decode.{EntryData, no_entry, pointer_of, decode_one}
use qladder.Mmdb.Decode.Bounds.{decode_one-Advances}
use qladder.Mmdb.EntryList.{
  Nodes, maximum_depth, new_member, array_loop, map_loop, list_entry, list_from,
  get_entry_data_list,
}

-- Behind an array stand at least as many nodes as it has members, behind a map twice as many.
abbrev pub IsComplete : Nodes → Type 0
IsComplete l =
    ((l.0.ty == 11) ≡ false ⊎ l.0.data_size ≤ length l.1)
    × ((l.0.ty == 7) ≡ false ⊎ 2 * l.0.data_size ≤ length l.1)

abbrev Any : {A : Type 0} → A → Type 0
Any a = Unit {0}

module _ (mem : List ℕ) (big : 3 ≤ length mem) (small : length mem < 2 ^ 32)
    (calloc : ℕ → Bool) where
  decoded : (offset : ℕ) (e : EntryData) → Holds Any (decode_one mem offset e)
  decoded offset e = elim (decode_one-Advances mem big small offset e) [
    | inl wrong ↦ rw wrong tt
    | inr (r, is_r, _, _) ↦ rw is_r tt
  ]

  module _ (get : ℕ → Outcome Nodes) (whole : (o : ℕ) → Holds IsComplete (get o)) where
    member-Holds : (offset : ℕ) → Holds IsComplete (new_member calloc get offset)
    unfolding new_member
    member-Holds offset = if-Holds IsComplete (calloc offset) _ _ (λ e. whole offset) (λ e. tt)

    array_loop-Holds :
        (size offset : ℕ)
        → Holds (λ (r : ℕ × List EntryData). size ≤ length r.1) (array_loop calloc get size offset)
    unfolding array_loop
    array_loop-Holds zero offset = omega arith
    array_loop-Holds (suc size) offset =
        >>=-Holds IsComplete _ (new_member calloc get offset) _ (member-Holds offset) λ m h.
          >>=-Holds (λ (r : ℕ × List EntryData). size ≤ length r.1) _
            (array_loop calloc get size m.0.offset_to_next) _
            (array_loop-Holds size m.0.offset_to_next)
            λ r k. omega (arith, k, length-append (m.0 ∷ m.1) r.1)

    map_loop-Holds :
        (size offset : ℕ)
        → Holds
            (λ (r : ℕ × List EntryData). 2 * size ≤ length r.1)
            (map_loop calloc get size offset)
    unfolding map_loop
    map_loop-Holds zero offset = omega arith
    map_loop-Holds (suc size) offset =
        >>=-Holds IsComplete _ (new_member calloc get offset) _ (member-Holds offset) λ a h.
          >>=-Holds IsComplete _ (new_member calloc get a.0.offset_to_next) _
            (member-Holds a.0.offset_to_next)
            λ b g.
              >>=-Holds (λ (r : ℕ × List EntryData). 2 * size ≤ length r.1) _
                (map_loop calloc get size b.0.offset_to_next) _
                (map_loop-Holds size b.0.offset_to_next)
                λ r k. omega (
                  arith,
                  k,
                  length-append (b.0 ∷ b.1) r.1,
                  length-append (a.0 ∷ a.1) ((b.0 ∷ b.1) ++ r.1),
                )

  module _ (get : ℕ → EntryData → Outcome Nodes)
      (whole : (o : ℕ) (x : EntryData) → Holds IsComplete (get o x)) where
    list_entry-Holds : (e : EntryData) → Holds IsComplete (list_entry calloc get mem e)
    unfolding list_entry
    list_entry-Holds e =
        if-Holds IsComplete (e.ty == 1) _ _
          (λ ptr.
            >>=-Holds Any IsComplete (decode_one mem (pointer_of e.payload) e) _ (decoded _ e)
              λ e2 _.
                if-Holds IsComplete (e2.ty == 1) _ _ (λ _. tt)
                  λ _.
                    >>=-Holds IsComplete IsComplete
                      (if e2.ty == 11 || e2.ty == 7
                        then get (pointer_of e.payload) e2
                        else ok (e2, []))
                      _
                      (if-Holds IsComplete (e2.ty == 11 || e2.ty == 7) _ _ (λ _. whole _ e2)
                        (λ simple. ground arith))
                      λ l h. h)
          λ no_ptr.
            if-Holds IsComplete (e.ty == 11) _ _
              (λ array.
                >>=-Holds (λ (r : ℕ × List EntryData). e.data_size ≤ length r.1) IsComplete
                  (array_loop calloc (λ o. get o no_entry) e.data_size e.offset_to_next) _
                  (array_loop-Holds (λ o. get o no_entry) (λ o. whole o no_entry) e.data_size
                    e.offset_to_next)
                  λ r k. (inr k, ground arith))
              λ no_array.
                if-Holds IsComplete (e.ty == 7) _ _
                  (λ a_map.
                    >>=-Holds (λ (r : ℕ × List EntryData). 2 * e.data_size ≤ length r.1) IsComplete
                      (map_loop calloc (λ o. get o no_entry) e.data_size e.offset_to_next) _
                      (map_loop-Holds (λ o. get o no_entry) (λ o. whole o no_entry) e.data_size
                        e.offset_to_next)
                      λ r k. (inl no_array, inr k))
                  λ no_map. (inl no_array, inl no_map)

  pub list_from-Holds :
      (levels offset : ℕ) (e : EntryData) → Holds IsComplete (list_from calloc mem levels offset e)
  unfolding list_from
  list_from-Holds zero offset e = tt
  list_from-Holds (suc levels) offset e =
      >>=-Holds Any IsComplete (decode_one mem offset e) _ (decoded offset e)
        λ r _. list_entry-Holds (list_from calloc mem levels) (list_from-Holds levels) r

  -- A data section of 3 bytes or more and less than 4 GB: `MMDB_get_entry_data_list`, whatever the
  -- section holds, reads nothing outside it and ends, with an error code or with a list that has a
  -- node for every member of the array, or two for every pair of the map, at its head.
  pub get_entry_data_list-IsComplete :
      (offset : ℕ) → Holds IsComplete (get_entry_data_list calloc mem offset)
  unfolding get_entry_data_list
  get_entry_data_list-IsComplete offset =
      member-Holds (λ o. list_from calloc mem maximum_depth o no_entry)
        (λ o. list_from-Holds maximum_depth o no_entry) offset
