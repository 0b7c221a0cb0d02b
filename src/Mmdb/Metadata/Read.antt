-- ===== src/Mmdb/Metadata/Read.antt =====
-- Reading the metadata's values touches only the metadata section, and follows no NULL pointer.
use qladder.Prelude.{
  ℕ, zero, suc, ◌+◌, ◌*◌, ◌≤◌, ◌<◌, ◌^◌, ◌≡◌, ◌≢◌, ap, ◌∙◌, List, [], ◌∷◌, Option, Bool, ◌==◌,
  length, arith,
}
use qladder.Mmdb.{
  Outcome, ok, error, fault, spent, IsDefined, Holds, >>=-Holds, if-Holds, Holds-mono,
}
use qladder.Mmdb.Decode.{EntryData}
use qladder.Mmdb.Decode.Located.{IsAt}
use qladder.Mmdb.Skip.{aget_value}
use qladder.Mmdb.Skip.Ends.{aget_value-IsDefined}
use qladder.Mmdb.Skip.Located.{aget_value-IsAt}
use qladder.Mmdb.EntryList.{Nodes, get_entry_data_list}
use qladder.Mmdb.EntryList.Shape.{array_list-Holds, map_list-Holds}
use qladder.Mmdb.Metadata.{
  strndup, text_entry, next_node, languages_loop, description_loop, nonzero, value_for_key,
  value_for_key_as_uint16, value_for_key_as_uint32, value_for_key_as_uint64,
  value_for_key_as_string, populate_languages_metadata, populate_description_metadata,
}

abbrev pub Any {ℓ} : {A : Type ℓ} → A → Type 0
Any a = Unit {0}

of_defined {ℓ} : {A : Type ℓ} (x : Outcome A) → IsDefined x → Holds Any x
of_defined (ok a) h = tt
of_defined (error e) h = tt
of_defined fault h = h
of_defined spent h = h

pub nonzero-Holds : (x : Outcome ℕ) → Holds Any x → Holds (λ n. n ≢ 0) (nonzero x)
unfolding nonzero
nonzero-Holds x h =
    >>=-Holds Any (λ n. n ≢ 0) x _ h
      λ n _. if-Holds (λ n. n ≢ 0) (n == 0) _ _ (λ z. tt) (λ p e. ground arith)

module _ (malloc calloc : ℕ → Bool) (strtol : List ℕ → Option (ℕ × Bool)) where
  text-Holds : (e : EntryData) → Holds Any (text_entry malloc calloc strtol e)
  unfolding text_entry strndup
  text-Holds e =
      if-Holds Any (e.ty == 2) _ _ (λ _. if-Holds Any (malloc _) _ _ (λ _. tt) (λ _. tt)) (λ _. tt)

  next-Holds :
      (n : ℕ) (l : List EntryData)
      → suc n ≤ length l
      → Holds (λ (x : Nodes). n ≤ length x.1) (next_node l)
  unfolding next_node
  next-Holds n [] h = absurd (omega arith)
  next-Holds n (m ∷ r) h = omega arith

  languages-Holds :
      (left : ℕ) (l : List EntryData)
      → left ≤ length l
      → Holds Any (languages_loop malloc calloc strtol left l)
  unfolding languages_loop
  languages-Holds zero l h = tt
  languages-Holds (suc left) l h =
      >>=-Holds (λ (x : Nodes). left ≤ length x.1) Any (next_node l) _ (next-Holds left l h)
        λ n k. >>=-Holds Any Any (text_entry malloc calloc strtol n.0) _ (text-Holds n.0) λ name _.
          >>=-Holds Any Any (languages_loop malloc calloc strtol left n.1) _
            (languages-Holds left n.1 k) λ names _. tt

  description-Holds :
      (left : ℕ) (l : List EntryData)
      → 2 * left ≤ length l
      → Holds Any (description_loop malloc calloc strtol left l)
  unfolding description_loop
  description-Holds zero l h = tt
  description-Holds (suc left) l h =
      >>=-Holds (λ (x : Nodes). 1 + 2 * left ≤ length x.1) Any _ _
        (if-Holds (λ (x : Nodes). 1 + 2 * left ≤ length x.1) (malloc 16) _ _
          (λ _. next-Holds (1 + 2 * left) l (omega arith)) (λ _. tt))
        λ n k.
          >>=-Holds Any Any (text_entry malloc calloc strtol n.0) _ (text-Holds n.0) λ language _.
            >>=-Holds (λ (x : Nodes). 2 * left ≤ length x.1) Any (next_node n.1) _
              (next-Holds (2 * left) n.1 (omega arith))
              λ v g.
                >>=-Holds Any Any (text_entry malloc calloc strtol v.0) _ (text-Holds v.0)
                  λ description _.
                    >>=-Holds Any Any (description_loop malloc calloc strtol left v.1) _
                      (description-Holds left v.1 g) λ rest _. tt

  module _ (fuel : ℕ) (mem : List ℕ) (big : 3 ≤ length mem) (small : length mem < 2 ^ 32)
      (enough : length mem < fuel) where
    value-Holds :
        (key : List ℕ) → Holds (IsAt mem) (value_for_key malloc calloc strtol fuel mem key)
    unfolding value_for_key
    value-Holds key =
        Holds-mono Any (IsAt mem) (aget_value mem strtol fuel 0 (key ∷ []))
          (of_defined _ (aget_value-IsDefined mem big small strtol fuel 0 (key ∷ []) enough))
          λ r is_r _. aget_value-IsAt mem fuel strtol 0 (key ∷ []) r is_r

    pub uint16-Holds :
        (key : List ℕ) → Holds Any (value_for_key_as_uint16 malloc calloc strtol fuel mem key)
    unfolding value_for_key_as_uint16
    uint16-Holds key =
        >>=-Holds (IsAt mem) Any (value_for_key malloc calloc strtol fuel mem key) _
          (value-Holds key) λ e _. if-Holds Any (e.ty == 5) _ _ (λ _. tt) (λ _. tt)

    pub uint32-Holds :
        (key : List ℕ) → Holds Any (value_for_key_as_uint32 malloc calloc strtol fuel mem key)
    unfolding value_for_key_as_uint32
    uint32-Holds key =
        >>=-Holds (IsAt mem) Any (value_for_key malloc calloc strtol fuel mem key) _
          (value-Holds key) λ e _. if-Holds Any (e.ty == 6) _ _ (λ _. tt) (λ _. tt)

    pub uint64-Holds :
        (key : List ℕ) → Holds Any (value_for_key_as_uint64 malloc calloc strtol fuel mem key)
    unfolding value_for_key_as_uint64
    uint64-Holds key =
        >>=-Holds (IsAt mem) Any (value_for_key malloc calloc strtol fuel mem key) _
          (value-Holds key) λ e _. if-Holds Any (e.ty == 9) _ _ (λ _. tt) (λ _. tt)

    pub string-Holds :
        (key : List ℕ) → Holds Any (value_for_key_as_string malloc calloc strtol fuel mem key)
    unfolding value_for_key_as_string
    string-Holds key =
        >>=-Holds (IsAt mem) Any (value_for_key malloc calloc strtol fuel mem key) _
          (value-Holds key) λ e _. text-Holds e

    -- The languages: whatever the section holds, the loop over the array's members finds a node for
    -- each, and the function ends in the names or in an error code.
    pub populate_languages-Holds :
        (key : List ℕ) → Holds Any (populate_languages_metadata malloc calloc strtol fuel mem key)
    unfolding populate_languages_metadata
    populate_languages-Holds key =
        >>=-Holds (IsAt mem) Any (value_for_key malloc calloc strtol fuel mem key) _
          (value-Holds key)
          λ e there.
            if-Holds Any (e.ty == 11) _ _
              (λ array.
                let is_array : e.ty ≡ 11 = ground arith in
                >>=-Holds (λ (l : Nodes). l.0.data_size ≤ length l.1) Any
                  (get_entry_data_list calloc mem e.offset) _
                  (array_list-Holds mem big small calloc e.offset (there ∙ ap ok is_array))
                  λ l h.
                    if-Holds Any (malloc (l.0.data_size * 8)) _ _
                      (λ _. languages-Holds l.0.data_size l.1 h) (λ _. tt))
              (λ _. tt)

    -- The descriptions: the same for the two nodes of each pair of the map.
    pub populate_description-Holds :
        (key : List ℕ) → Holds Any (populate_description_metadata malloc calloc strtol fuel mem key)
    unfolding populate_description_metadata
    populate_description-Holds key =
        >>=-Holds (IsAt mem) Any (value_for_key malloc calloc strtol fuel mem key) _
          (value-Holds key)
          λ e there.
            if-Holds Any (e.ty == 7) _ _
              (λ a_map.
                let is_map : e.ty ≡ 7 = ground arith in
                >>=-Holds (λ (l : Nodes). 2 * l.0.data_size ≤ length l.1) Any
                  (get_entry_data_list calloc mem e.offset) _
                  (map_list-Holds mem big small calloc e.offset (there ∙ ap ok is_map))
                  λ l h.
                    if-Holds Any (l.0.data_size == 0) _ _ (λ _. tt)
                      λ _.
                        if-Holds Any (malloc (l.0.data_size * 8)) _ _
                          (λ _. description-Holds l.0.data_size l.1 h) (λ _. tt))
              (λ _. tt)
