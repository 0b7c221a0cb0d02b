-- ===== src/Mmdb/EntryList/Shape.antt =====
-- The list of an array or a map that a path led to: its head is that array or map.
use qladder.Prelude.{
  ℕ, ◌*◌, ◌≤◌, ◌<◌, ◌^◌, ◌≡◌, ◌⊎◌, inl, inr, refl, sym, subst, ◌∙◌, List, Bool, true, false, ◌==◌,
  length, arith, Bool-cases,
}
use qladder.Mmdb.{Outcome, ok, >>=-inv, Holds, Holds-mono}
use qladder.Mmdb.Decode.{EntryData, no_entry, decode_one}
use qladder.Mmdb.Decode.Located.{type_at, decode_one-IsAt}
use qladder.Mmdb.EntryList.{
  Nodes, new_member, array_loop, map_loop, list_entry, list_from, get_entry_data_list,
}
use qladder.Mmdb.EntryList.Complete.{IsComplete, get_entry_data_list-IsComplete}

module _ (calloc : ℕ → Bool) (mem : List ℕ) where
  entry-ty :
      (get : ℕ → EntryData → Outcome Nodes) (e : EntryData) (l : Nodes)
      → (e.ty ≡ 11) ⊎ (e.ty ≡ 7)
      → list_entry calloc get mem e ≡ ok l
      → l.0.ty ≡ e.ty
  unfolding list_entry
  entry-ty get e l (inl array) h =
      let no_ptr : (e.ty == 1) ≡ false = ground arith in
      let is_array : (e.ty == 11) ≡ true = ground arith in
      let (r, is_r, k) =
        >>=-inv {A = ℕ × List EntryData} _
          (array_loop calloc (λ o. get o no_entry) e.data_size e.offset_to_next) {last = l}
          (rw (no_ptr, is_array) at h) in
      ground arith
  entry-ty get e l (inr a_map) h =
      let no_ptr : (e.ty == 1) ≡ false = ground arith in
      let no_array : (e.ty == 11) ≡ false = ground arith in
      let is_map : (e.ty == 7) ≡ true = ground arith in
      let (r, is_r, k) =
        >>=-inv {A = ℕ × List EntryData} _
          (map_loop calloc (λ o. get o no_entry) e.data_size e.offset_to_next) {last = l}
          (rw (no_ptr, no_array, is_map) at h) in
      ground arith

  ok_ty : (a b : ℕ) → ok a ≡ ok b → a ≡ b
  ok_ty a b h = cc

  list-ty :
      (offset ty : ℕ) (l : Nodes)
      → (ty ≡ 11) ⊎ (ty ≡ 7)
      → type_at mem offset ≡ ok ty
      → get_entry_data_list calloc mem offset ≡ ok l
      → l.0.ty ≡ ty
  unfolding get_entry_data_list new_member list_from
  list-ty offset ty l kind there h = elim (Bool-cases (calloc offset)) [
    | inr no_room ↦ absurd (ground arith)
    | inl some_room ↦
        let (e, is_e, k) =
          >>=-inv (list_entry calloc (list_from calloc mem 511) mem)
            (decode_one mem offset no_entry) {last = l} (rw some_room at h) in
        let (place, is_ty) = decode_one-IsAt mem offset no_entry e is_e in
        let same : e.ty ≡ ty =
          ok_ty e.ty ty (sym is_ty ∙ subst (λ o. type_at mem o ≡ ok ty) (sym place) there) in
        entry-ty (list_from calloc mem 511) e l (subst (λ t. (t ≡ 11) ⊎ (t ≡ 7)) (sym same) kind) k
        ∙ same
  ]

module _ (mem : List ℕ) (big : 3 ≤ length mem) (small : length mem < 2 ^ 32)
    (calloc : ℕ → Bool) where
  -- Behind the head of an array's list, a node for each member.
  pub array_list-Holds :
      (offset : ℕ)
      → type_at mem offset ≡ ok 11
      → Holds (λ (l : Nodes). l.0.data_size ≤ length l.1) (get_entry_data_list calloc mem offset)
  array_list-Holds offset there =
      Holds-mono IsComplete _ (get_entry_data_list calloc mem offset)
        (get_entry_data_list-IsComplete mem big small calloc offset)
        λ l is_l whole.
          let t : l.0.ty ≡ 11 = list-ty calloc mem offset 11 l (inl refl) there is_l in ground arith

  -- Behind the head of a map's list, two nodes for each pair.
  pub map_list-Holds :
      (offset : ℕ)
      → type_at mem offset ≡ ok 7
      → Holds
          (λ (l : Nodes). 2 * l.0.data_size ≤ length l.1)
          (get_entry_data_list calloc mem offset)
  map_list-Holds offset there =
      Holds-mono IsComplete _ (get_entry_data_list calloc mem offset)
        (get_entry_data_list-IsComplete mem big small calloc offset)
        λ l is_l whole.
          let t : l.0.ty ≡ 7 = list-ty calloc mem offset 7 l (inr refl) there is_l in ground arith
