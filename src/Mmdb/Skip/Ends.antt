-- ===== src/Mmdb/Skip/Ends.antt =====
-- Skipping and path lookups end, with fuel for the length of the data section.
use qladder.Prelude.{
  ℕ, zero, suc, ◌+◌, ◌^◌, ◌≤◌, ◌<◌, ◌≡◌, ◌⊎◌, inl, inr, refl, List, [], ◌∷◌, Option, Bool, true,
  false, ◌||◌, not, leb, ◌==◌, if◌then◌else◌, length, u32, arith, Bool-cases, Option-cases,
}
use qladder.Mmdb.{Error, Outcome, ok, error, ◌>>=◌, IsDefined, >>=-IsDefined}
use qladder.Mmdb.Decode.{EntryData, no_entry, decode_one, decode_one_follow}
use qladder.Mmdb.Decode.Bounds.{Advances, decode_one-Advances, decode_one_follow-cases}
use qladder.Mmdb.Skip.{
  skip_loop, skip_map_or_array, lookup_map_loop, lookup_path_in_map, lookup_array_loop,
  lookup_path_in_array, follow_path, aget_value, same_bytes, text_of,
}

if-IsDefined :
    (c : Bool) (x y : Outcome EntryData)
    → IsDefined x
    → IsDefined y
    → IsDefined (if c then x else y)
if-IsDefined true x y p q = p
if-IsDefined false x y p q = q

bind-Advances :
    (low mid high : ℕ) (x : Outcome EntryData) (f : EntryData → Outcome EntryData)
    → low ≤ mid
    → Advances mid high x
    → ((e : EntryData) → mid ≤ e.offset_to_next → e.offset_to_next ≤ high → Advances low high (f e))
    → Advances low high (x >>= f)
bind-Advances low mid high x f h (inl wrong) k = rw wrong (inl refl)
bind-Advances low mid high x f h (inr (e, is_e, l, g)) k = rw is_e (k e l g)

module _ (mem : List ℕ) (big : 3 ≤ length mem) (small : length mem < 2 ^ 32) where
  abbrev size : ℕ
  size = length mem

  weaken :
      (low low' : ℕ) (x : Outcome EntryData)
      → low ≤ low'
      → Advances low' size x
      → Advances low size x
  weaken low low' x h (inl wrong) = inl wrong
  weaken low low' x h (inr (e, is_e, l, g)) = inr (e, is_e, omega arith, g)

  decode_from :
      (low : ℕ) (e : EntryData)
      → low ≤ e.offset_to_next
      → Advances (low + 1) size (decode_one mem e.offset_to_next e)
  decode_from low e h = elim (decode_one-Advances mem big small e.offset_to_next e) [
    | inl wrong ↦ inl wrong
    | inr (r, is_r, l, g) ↦ inr (r, is_r, omega arith, g)
  ]

  key_part :
      (keyed : Bool) (e : EntryData)
      → e.offset_to_next ≤ size
      → Advances e.offset_to_next size (if keyed then decode_one mem e.offset_to_next e else ok e)
  key_part true e h =
      weaken e.offset_to_next _ _ (omega arith) (decode_from e.offset_to_next e (omega arith))
  key_part false e h = inr (e, refl, omega arith, h)

  parts :
      (v : EntryData) (x y : Outcome EntryData)
      → v.offset_to_next ≤ size
      → Advances v.offset_to_next size x
      → Advances v.offset_to_next size y
      → Advances v.offset_to_next size
          (elim (v.ty == 7) [ true ↦ x | false ↦ elim (v.ty == 11) [ true ↦ y | false ↦ ok v ] ])
  parts v x y h p q = elim (Bool-cases (v.ty == 7)) [
    | inl a_map ↦ rw a_map p
    | inr no_map ↦ elim (Bool-cases (v.ty == 11)) [
      | inl array ↦ rw (no_map, array) q
      | inr simple ↦ rw (no_map, simple) (inr (v, refl, omega arith, h))
    ]
  ]

  skip_loop-Advances :
      (fuel : ℕ) (keyed : Bool) (n : ℕ) (e : EntryData)
      → e.offset_to_next ≤ size
      → size < fuel + e.offset_to_next
      → Advances e.offset_to_next size (skip_loop mem fuel keyed n e)
  unfolding skip_loop
  skip_loop-Advances zero keyed n e h f = absurd (omega arith)
  skip_loop-Advances (suc fuel) keyed zero e h f = inr (e, refl, omega arith, h)
  skip_loop-Advances (suc fuel) keyed (suc n) e h f =
      let o : ℕ = e.offset_to_next in
      bind-Advances o o size _ _ (omega arith) (key_part keyed e h) λ k lk gk.
        bind-Advances o (o + 1) size _ _ (omega arith) (decode_from o k lk) λ v lv gv.
          bind-Advances o v.offset_to_next size _ _ (omega arith)
            (parts v (skip_loop mem fuel true v.data_size v)
              (skip_loop mem fuel false v.data_size v) gv
              (skip_loop-Advances fuel true v.data_size v gv (omega arith))
              (skip_loop-Advances fuel false v.data_size v gv (omega arith)))
            λ w lw gw.
              weaken o w.offset_to_next (skip_loop mem fuel keyed n w) (omega arith)
                (skip_loop-Advances fuel keyed n w gw (omega arith))

  -- From an entry inside a data section of 3 bytes or more and less than 4 GB, with fuel above the
  -- section's length, skipping ends: in MMDB_INVALID_DATA_ERROR, or in an entry that ends no earlier
  -- and inside the section.
  pub skip_map_or_array-Advances :
      (fuel : ℕ) (e : EntryData)
      → e.offset_to_next ≤ size
      → size < fuel
      → Advances e.offset_to_next size (skip_map_or_array mem fuel e)
  unfolding skip_map_or_array
  skip_map_or_array-Advances fuel e h f = elim (Bool-cases (e.ty == 7)) [
    | inl a_map ↦ rw a_map (skip_loop-Advances fuel true e.data_size e h (omega arith))
    | inr no_map ↦ elim (Bool-cases (e.ty == 11)) [
      | inl array ↦ rw (no_map, array) (skip_loop-Advances fuel false e.data_size e h (omega arith))
      | inr simple ↦ rw (no_map, simple) (inr (e, refl, omega arith, h))
    ]
  ]

  Advances-IsDefined : (low : ℕ) (x : Outcome EntryData) → Advances low size x → IsDefined x
  Advances-IsDefined low x (inl wrong) = rw wrong tt
  Advances-IsDefined low x (inr (e, is_e, l, g)) = rw is_e tt

  follow-IsDefined : (offset : ℕ) (e : EntryData) → IsDefined (decode_one_follow mem offset e)
  follow-IsDefined offset e = elim (decode_one_follow-cases mem big small offset e) [
    | inl wrong ↦ rw wrong tt
    | inr (r, is_r, _, _, _) ↦ rw is_r tt
  ]

  skipped-IsDefined :
      (fuel offset : ℕ) (e : EntryData) (k : EntryData → Outcome EntryData)
      → size < fuel
      → ((w : EntryData) → IsDefined (k w))
      → IsDefined (decode_one mem offset e >>= λ v. skip_map_or_array mem fuel v >>= k)
  skipped-IsDefined fuel offset e k f d = elim (decode_one-Advances mem big small offset e) [
    | inl wrong ↦ rw wrong tt
    | inr (v, is_v, l, g) ↦ rw is_v (
        >>=-IsDefined (skip_map_or_array mem fuel v) k
          (Advances-IsDefined v.offset_to_next _ (skip_map_or_array-Advances fuel v g f))
          (λ w e. d w))
  ]

  map_loop-IsDefined :
      (fuel : ℕ) (path_elem : List ℕ) (n offset : ℕ)
      → size < fuel
      → IsDefined (lookup_map_loop mem fuel path_elem n offset)
  unfolding lookup_map_loop
  map_loop-IsDefined fuel path_elem zero offset f = tt
  map_loop-IsDefined fuel path_elem (suc n) offset f =
      >>=-IsDefined (decode_one_follow mem offset no_entry) _ (follow-IsDefined offset no_entry)
        λ key e. elim (Bool-cases (key.ty == 2)) [
          | inr other ↦ rw other tt
          | inl text ↦ elim (Bool-cases (same_bytes path_elem (text_of key.payload))) [
            | inl same ↦ rw (text, same) (follow-IsDefined key.offset_to_next no_entry)
            | inr different ↦
                rw (text, different)
                  (skipped-IsDefined fuel key.offset_to_next no_entry _ f
                    (λ w. map_loop-IsDefined fuel path_elem n w.offset_to_next f))
          ]
        ]

  array_loop-IsDefined :
      (fuel left : ℕ) (e : EntryData) → size < fuel → IsDefined (lookup_array_loop mem fuel left e)
  unfolding lookup_array_loop
  array_loop-IsDefined fuel zero e f = tt
  array_loop-IsDefined fuel (suc left) e f =
      skipped-IsDefined fuel e.offset_to_next e _ f (λ w. array_loop-IsDefined fuel left w f)

  module _ (strtol : List ℕ → Option (ℕ × Bool)) where
    in_array-IsDefined :
        (fuel : ℕ) (path_elem : List ℕ) (e : EntryData)
        → size < fuel
        → IsDefined (lookup_path_in_array mem strtol fuel path_elem e)
    unfolding lookup_path_in_array
    in_array-IsDefined fuel path_elem e f = elim (Option-cases (strtol path_elem)) [
      | inl bad ↦ rw (bad, lookup_path_in_array, IsDefined) tt
      | inr ((i, all_read), is_i) ↦ elim (Bool-cases (not all_read || leb e.data_size (u32 i))) [
        | inl out ↦ rw (is_i, lookup_path_in_array, IsDefined) (rw out tt)
        | inr within ↦
            rw (is_i, lookup_path_in_array, IsDefined)
              (rw within (
                >>=-IsDefined (lookup_array_loop mem fuel i e) _ (array_loop-IsDefined fuel i e f)
                  (λ w _. follow-IsDefined w.offset_to_next no_entry)))
      ]
    ]

    path-IsDefined :
        (fuel : ℕ) (path : List (List ℕ)) (e : EntryData)
        → size < fuel
        → IsDefined (follow_path mem strtol fuel path e)
    unfolding follow_path
    path-IsDefined fuel [] e f = tt
    path-IsDefined fuel (path_elem ∷ path) e f =
        >>=-IsDefined _ _ (here (Bool-cases (e.ty == 11)) (Bool-cases (e.ty == 7)))
          (λ e' _. path-IsDefined fuel path e' f)
      where
        here :
            (e.ty == 11 ≡ true) ⊎ (e.ty == 11 ≡ false)
            → (e.ty == 7 ≡ true) ⊎ (e.ty == 7 ≡ false)
            → IsDefined (
                if e.ty == 11
                then lookup_path_in_array mem strtol fuel path_elem e
                else if e.ty == 7
                then lookup_path_in_map mem fuel path_elem e
                else error Error.lookup_path_does_not_match_data)
        here (inl array) q = rw array (in_array-IsDefined fuel path_elem e f)
        here (inr no_array) (inl a_map) =
            rw (no_array, a_map)
              (unfold lookup_path_in_map in
                map_loop-IsDefined fuel path_elem e.data_size e.offset_to_next f)
        here (inr no_array) (inr simple) = rw (no_array, simple) tt

    -- A path lookup over any data section of 3 bytes or more and less than 4 GB reads nothing outside it and ends in an entry or an error
    -- code; fuel one above the section's length is enough for all its loops and their nesting.
    pub aget_value-IsDefined :
        (fuel offset : ℕ) (path : List (List ℕ))
        → size < fuel
        → IsDefined (aget_value mem strtol fuel offset path)
    unfolding aget_value
    aget_value-IsDefined fuel offset path f =
        >>=-IsDefined (decode_one_follow mem offset no_entry) _ (follow-IsDefined offset no_entry)
          λ e _. if-IsDefined e.has_data _ _ (path-IsDefined fuel path e f) tt
