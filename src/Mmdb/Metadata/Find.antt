-- ===== src/Mmdb/Metadata/Find.antt =====
-- `find_metadata` finds the last marker.
use qladder.Prelude.{
  ℕ, zero, suc, ◌+◌, ◌-◌, ◌<◌, ◌≡◌, ◌⊎◌, refl, ap, sym, subst, true, ◌≤◌, ◌∙◌, List, [], ◌∷◌, ◌++◌,
  append_assoc, Option, none, some, Option-cases, false, ◌&&◌, ◌||◌, ltb, ◌==◌, if◌then◌else◌,
  length, take, drop, get_or, take-append-drop, length-append, arith, Bool-cases, inl, inr,
}
use qladder.Mmdb.{Holds, >>=-Holds, Holds-mono}
use qladder.Mmdb.Skip.{same_bytes, same_bytes-eq}
use qladder.Mmdb.Metadata.{
  marker, block_max_size, memmem, memmem_loop, find_loop, search_area, find_metadata,
}

-- `l` is `pre`, then `s`, then more.
abbrev pub Occurs : List ℕ → List ℕ → List ℕ → Type 0
Occurs s l t = (pre : List ℕ) × (l ≡ pre ++ t) × (t ≡ s ++ drop (length s) t)

memmem_loop-Occurs : (s l t : List ℕ) → memmem_loop s l ≡ some t → Occurs s l t
unfolding memmem_loop
memmem_loop-Occurs s [] t e = absurd (ground arith)
memmem_loop-Occurs s (x ∷ l) t e = elim (Bool-cases (ltb (length (x ∷ l)) (length s))) [
  | inl short ↦ absurd (ground arith)
  | inr long ↦ elim (Bool-cases (x == get_or s 0 0 && same_bytes (take (length s) (x ∷ l)) s)) [
    | inl here ↦
        let eq : x ∷ l ≡ t = ground arith in
        let start : take (length s) (x ∷ l) ≡ s = same_bytes-eq _ s (ground arith) in
        (
          [],
          eq,
          sym (take-append-drop (length s) t)
              ∙ ap (λ y. y ++ drop (length s) t) (ap (take (length s)) (sym eq) ∙ start),
        )
    | inr later ↦
        let (pre, split, start) = memmem_loop-Occurs s l t (ground arith) in
        (x ∷ pre, ap (◌∷◌ x) split, start)
  ]
]

memmem-Occurs : (s l t : List ℕ) → memmem l s ≡ some t → Occurs s l t
unfolding memmem
memmem-Occurs s l t e = elim (Bool-cases (length l == 0 || length s == 0)) [
  | inl empty ↦ absurd (ground arith)
  | inr full ↦ elim (Bool-cases (ltb (length l) (length s))) [
    | inl short ↦ absurd (ground arith)
    | inr long ↦ memmem_loop-Occurs s l t (ground arith)
  ]
]

same_bytes_refl : (xs : List ℕ) → same_bytes xs xs ≡ true
unfolding same_bytes
same_bytes_refl [] = refl
same_bytes_refl (x ∷ xs) = let e = same_bytes_refl xs in ground (arith, e)

take-start : (s r : List ℕ) → take (length s) (s ++ r) ≡ s
take-start [] r = refl
take-start (x ∷ s) r = ap (λ l. x ∷ l) (take-start s r)

too_short : (s l pre t : List ℕ) → l ≡ pre ++ t → t ≡ s ++ drop (length s) t → length s ≤ length l
too_short s l pre t split start =
    let m = ap length split ∙ length-append pre t in
    let n = ap length start ∙ length-append s (drop (length s) t) in omega (arith, m, n)

here_found :
    (y : ℕ) (s : List ℕ) (x : ℕ) (l : List ℕ)
    → x ∷ l ≡ (y ∷ s) ++ drop (suc (length s)) (x ∷ l)
    → (x == y && same_bytes (take (suc (length s)) (x ∷ l)) (y ∷ s)) ≡ true
here_found y s x l e =
    let head : x ≡ y = ap (λ q. get_or q 0 0) e in
    let front : take (suc (length s)) (x ∷ l) ≡ y ∷ s =
      ap (take (suc (length s))) e ∙ take-start (y ∷ s) (drop (suc (length s)) (x ∷ l)) in
    let same : same_bytes (take (suc (length s)) (x ∷ l)) (y ∷ s) ≡ true =
      ap (λ q. same_bytes q (y ∷ s)) front ∙ same_bytes_refl (y ∷ s) in
    ground (arith, head, same)

-- The search misses nothing.
memmem_loop-none :
    (y : ℕ) (s l pre t : List ℕ)
    → memmem_loop (y ∷ s) l ≡ none
    → l ≡ pre ++ t
    → t ≡ (y ∷ s) ++ drop (suc (length s)) t
    → ⊥
unfolding memmem_loop
memmem_loop-none y s [] pre t e split start =
    let n = too_short (y ∷ s) [] pre t split start in absurd (omega (arith, n))
memmem_loop-none y s (x ∷ l) pre t e split start =
    elim (Bool-cases (ltb (length (x ∷ l)) (suc (length s)))) [
      | inl short ↦
          let n = too_short (y ∷ s) (x ∷ l) pre t split start in absurd (ground (arith, n, short))
      | inr long ↦
          elim (Bool-cases (x == y && same_bytes (take (suc (length s)) (x ∷ l)) (y ∷ s))) [
            | inl here ↦ absurd (ground arith)
            | inr later ↦ behind (memmem_loop-none y s l) pre t (ground arith) later split start
          ]
    ]
  where
    behind :
        ((pre t : List ℕ)
          → memmem_loop (y ∷ s) l ≡ none
          → l ≡ pre ++ t
          → t ≡ (y ∷ s) ++ drop (suc (length s)) t
          → ⊥)
        → (pre t : List ℕ) → memmem_loop (y ∷ s) l ≡ none
        → (x == y && same_bytes (take (suc (length s)) (x ∷ l)) (y ∷ s)) ≡ false
        → x ∷ l ≡ pre ++ t
        → t ≡ (y ∷ s) ++ drop (suc (length s)) t
        → ⊥
    behind rest [] t none_later unmatched split start =
        let h =
          here_found y s x l
            (split ∙ start ∙ ap (λ q. (y ∷ s) ++ drop (suc (length s)) q) (sym split)) in
        absurd (ground (arith, h, unmatched))
    behind rest (p ∷ pre) t none_later unmatched split start =
        rest pre t none_later (ap (drop 1) split) start

-- No marker stands in `l`.
abbrev HasNone : List ℕ → Type 0
HasNone l = (t : List ℕ) → Occurs marker l t → ⊥

memmem-HasNone : (l : List ℕ) → memmem l marker ≡ none → HasNone l
unfolding memmem
memmem-HasNone l e t (pre, split, start) =
    let n = too_short marker l pre t split start in
    let some_bytes : (length l == 0 || length marker == 0) ≡ false = ground (arith, n) in
    let enough : ltb (length l) (length marker) ≡ false = ground (arith, n) in
    memmem_loop-none 0xab
      (0xcd ∷ 0xef ∷ 77 ∷ 97 ∷ 120 ∷ 77 ∷ 105 ∷ 110 ∷ 100 ∷ 46 ∷ 99 ∷ 111 ∷ 109 ∷ []) l pre t
      (rw (some_bytes, enough) at e) split start

unequal : (xs ys : List ℕ) → xs ≡ ys → (length xs == length ys) ≡ false → ⊥
unequal xs ys e h = let l : length xs ≡ length ys = ap length e in ground arith

-- `md` is the end of `area`: all of it, or what stands behind a marker.
abbrev Behind : List ℕ → List ℕ → Type 0
Behind area md = (md ≡ area) ⊎ ((pre : List ℕ) × (area ≡ (pre ++ marker) ++ md))

empty : (xs : List ℕ) → length xs ≡ 0 → xs ≡ []
empty [] h = refl
empty (x ∷ xs) h = absurd (omega arith)

Behind-shorter : (area md : List ℕ) → Behind area md → length md ≡ length area → md ≡ area
Behind-shorter area md (inl same) h = same
Behind-shorter area md (inr (pre, split)) h =
    let l : length area ≡ length pre + 14 + length md =
      ap length split
      ∙ length-append (pre ++ marker) md
      ∙ ap (λ n. n + length md) (length-append pre marker) in
    absurd (omega arith)

Behind-next :
    (area tmp md pre : List ℕ)
    → area ≡ pre ++ tmp
    → tmp ≡ marker ++ drop (length marker) tmp
    → Behind (drop (length marker) tmp) md
    → Behind area md
Behind-next area tmp md pre split start (inl same) = inr (
  pre,
  split
      ∙ ap (λ x. pre ++ x) (start ∙ ap (λ x. marker ++ x) (sym same))
      ∙ sym (append_assoc pre marker md),
)
Behind-next area tmp md pre split start (inr (more, later)) = inr (
  (pre ++ marker) ++ more,
  split
      ∙ ap (λ x. pre ++ x) (start ∙ ap (λ x. marker ++ x) later)
      ∙ sym (append_assoc pre marker ((more ++ marker) ++ md))
      ∙ sym (append_assoc (pre ++ marker) (more ++ marker) md)
      ∙ ap (λ x. x ++ md) (sym (append_assoc (pre ++ marker) more marker)),
)

abbrev IsLast : List ℕ → List ℕ → Type 0
IsLast area md = Behind area md × (memmem md marker ≡ none)

find_loop-IsLast :
    (fuel : ℕ) (area : List ℕ) → length area < fuel → Holds (IsLast area) (find_loop fuel area)
unfolding find_loop
find_loop-IsLast zero area h = absurd (omega arith)
find_loop-IsLast (suc fuel) area h = elim (Option-cases (memmem area marker)) [
  | inl gone ↦ rw (gone, Holds) (inl refl, gone)
  | inr (tmp, found) ↦
      let (pre, split, start) = memmem-Occurs marker area tmp found in
      let l : length area ≡ length pre + length tmp = ap length split ∙ length-append pre tmp in
      let m : length tmp ≡ 14 + length (drop (length marker) tmp) =
        ap length start ∙ length-append marker (drop (length marker) tmp) in
      rw (found, Holds)
        (Holds-mono (IsLast (drop (length marker) tmp)) (IsLast area)
          (find_loop fuel (drop (length marker) tmp))
          (find_loop-IsLast fuel (drop (length marker) tmp) (omega arith))
          λ md _ k. (Behind-next area tmp md pre split start k.0, k.1))
]

-- The last 128 KiB of the file; all of it, if it is smaller.
abbrev last_part : List ℕ → List ℕ
last_part content = drop (length content - 131072) content

abbrev pub IsMetadata : List ℕ → Option (List ℕ) → Type 0
IsMetadata content none = HasNone (last_part content)
IsMetadata content (some md) = ((pre : List ℕ) × (content ≡ (pre ++ marker) ++ md)) × HasNone md

search_area-last_part : (content : List ℕ) → search_area content ≡ last_part content
unfolding search_area
search_area-last_part content = elim (Bool-cases (ltb block_max_size (length content))) [
  | inl large ↦ rw large refl
  | inr small ↦
      let all : length content - 131072 ≡ 0 = ground (arith, small) in rw (small, all) refl
]

search_area-split : (content : List ℕ) → (pre : List ℕ) × (content ≡ pre ++ search_area content)
unfolding search_area
search_area-split content = elim (Bool-cases (ltb block_max_size (length content))) [
  | inl large ↦ rw large (
    take (length content - block_max_size) content,
    sym (take-append-drop (length content - block_max_size) content),
  )
  | inr small ↦ rw small ([], refl)
]

found-IsMetadata :
    (content md : List ℕ)
    → IsLast (search_area content) md
    → IsMetadata content (if length md == length (search_area content) then none else some md)
found-IsMetadata content md (behind, last) =
    elim (Bool-cases (length md == length (search_area content))) [
      | inl all ↦
          let e : md ≡ search_area content =
            Behind-shorter (search_area content) md behind (ground arith) in
          rw all (
            subst HasNone (search_area-last_part content)
              (memmem-HasNone (search_area content) (ap (λ x. memmem x marker) (sym e) ∙ last)))
      | inr part ↦ rw part (elim behind [
        | inl same ↦ absurd (unequal md (search_area content) same part)
        | inr (pre, split) ↦
            let (start, whole) = search_area-split content in
            (
              (
                start ++ pre,
                whole
                    ∙ ap (λ x. start ++ x) split
                    ∙ sym (append_assoc start (pre ++ marker) md)
                    ∙ ap (λ x. x ++ md) (sym (append_assoc start pre marker)),
              ),
              memmem-HasNone md last,
            )
      ])
    ]

-- With fuel above the file's length `find_metadata` ends. NULL means that the marker stands nowhere in
-- the last 128 KiB of the file; otherwise the bytes that it returns are those behind a marker, up to
-- the file's end, and the marker stands nowhere among them.
pub find_metadata-IsMetadata :
    (fuel : ℕ) (content : List ℕ)
    → length content < fuel
    → Holds (IsMetadata content) (find_metadata fuel content)
unfolding find_metadata
find_metadata-IsMetadata fuel content h =
    let (start, whole) = search_area-split content in
    let l : length content ≡ length start + length (search_area content) =
      ap length whole ∙ length-append start (search_area content) in
    >>=-Holds (IsLast (search_area content)) (IsMetadata content)
      (find_loop fuel (search_area content)) _
      (find_loop-IsLast fuel (search_area content) (omega arith))
      λ md k. found-IsMetadata content md k
