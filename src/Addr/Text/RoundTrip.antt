-- ===== src/Addr/Text/RoundTrip.antt =====
-- `ipaddr_ntoa_r` prints an address, and `ipaddr_aton` reads it back.
use qladder.Prelude.{
  ℕ, suc, ◌+◌, ◌-◌, ◌*◌, ◌/◌, ◌%◌, ◌^◌, ◌≤◌, ◌<◌, ◌≡◌, inl, inr, refl, ap, sym, ◌∙◌, List, [], ◌∷◌,
  ◌++◌, append-nil, append_assoc, Option, none, some, true, false, ltb, leb, if◌then◌else◌, u32,
  bit_or, bit_or_low, length, length-append, take, arith, Bool-cases,
}
use qladder.Addr.{lwip_htonl}
use qladder.Addr.Text.{
  parts_loop, concoct, ipaddr_aton, inv_loop, put, bytes_loop, bytes_of_address, ipaddr_ntoa_r,
  ipaddr_ntoa,
}
use qladder.Addr.Text.Digits.{
  number-inv_loop, inv_loop-isdigit, inv_loop-length, decimal, inv_loop-decimal,
}

abbrev byte_text : ℕ → List ℕ
byte_text b = inv_loop 3 b []

-- Dotted decimal notation of four bytes.
abbrev dotted : List ℕ → List ℕ
dotted [] = []
dotted (b ∷ []) = inv_loop 3 b []
dotted (b ∷ c ∷ r) = inv_loop 3 b [] ++ (46 ∷ dotted (c ∷ r))

one_part :
    (dots : ℕ) (parts : List ℕ) (b : ℕ) (s : List ℕ)
    → b < 256
    → parts_loop (suc dots) parts (byte_text b ++ (46 ∷ s)) ≡ parts_loop dots (parts ++ (b ∷ [])) s
unfolding parts_loop
one_part dots parts b s h =
    rw (inv_loop-isdigit b (46 ∷ s) h, number-inv_loop b h (46 ∷ s) (inr (s, refl))) refl

last_part :
    (parts : List ℕ) (b : ℕ) → b < 256 → parts_loop 0 parts (byte_text b) ≡ some (parts, b, [])
unfolding parts_loop
last_part parts b h =
    rw (sym (append-nil (byte_text b)))
      (rw (inv_loop-isdigit b [] h, number-inv_loop b h [] (inl refl)) refl)

four_parts :
    (a b c d : ℕ)
    → a < 256
    → b < 256
    → c < 256
    → d < 256
    → parts_loop 3 [] (dotted (a ∷ b ∷ c ∷ d ∷ [])) ≡ some (a ∷ b ∷ c ∷ [], d, [])
four_parts a b c d h k l m =
    one_part 2 [] a (dotted (b ∷ c ∷ d ∷ [])) h
    ∙ one_part 1 (a ∷ []) b (dotted (c ∷ d ∷ [])) k
    ∙ one_part 0 (a ∷ b ∷ []) c (dotted (d ∷ [])) l
    ∙ last_part (a ∷ b ∷ c ∷ []) d m

concoct_lem :
    (a b c d : ℕ)
    → a < 256
    → b < 256
    → c < 256
    → d < 256
    → concoct (a ∷ b ∷ c ∷ []) d ≡ some (a * 2 ^ 24 + b * 2 ^ 16 + c * 2 ^ 8 + d)
unfolding concoct
concoct_lem a b c d h k l m =
    let small : ltb 0xff d ≡ false = ground arith in
    let p : u32 (a * 2 ^ 24) ≡ a * 2 ^ 24 = omega arith in
    let q : u32 (b * 2 ^ 16) ≡ b * 2 ^ 16 = omega arith in
    let r : u32 (c * 2 ^ 8) ≡ c * 2 ^ 8 = omega arith in
    let two : bit_or (a * 2 ^ 24) (b * 2 ^ 16) ≡ (a * 256 + b) * 2 ^ 16 =
      bit_or_low 24 a (b * 2 ^ 16) (omega arith) ∙ omega arith in
    let three : bit_or ((a * 256 + b) * 2 ^ 16) (c * 2 ^ 8) ≡ (a * 65536 + b * 256 + c) * 2 ^ 8 =
      bit_or_low 16 (a * 256 + b) (c * 2 ^ 8) (omega arith) ∙ omega arith in
    let four = bit_or_low 8 (a * 65536 + b * 256 + c) d (omega arith) in
    rw (small, p, q, r) (rw (two, three, four) (ap some (omega arith)))

turned :
    (a b c d : ℕ)
    → a < 256
    → b < 256
    → c < 256
    → d < 256
    → lwip_htonl (a * 2 ^ 24 + b * 2 ^ 16 + c * 2 ^ 8 + d) ≡ a + b * 2 ^ 8 + c * 2 ^ 16 + d * 2 ^ 24
unfolding lwip_htonl
turned a b c d h k l m = omega arith

aton_of :
    (cp parts : List ℕ) (last val : ℕ)
    → parts_loop 3 [] cp ≡ some (parts, last, [])
    → concoct parts last ≡ some val
    → ipaddr_aton cp ≡ some (lwip_htonl val)
unfolding ipaddr_aton
aton_of cp parts last val h k = rw h (rw k refl)

-- A dotted text of four bytes is read as the address of these bytes.
pub ipaddr_aton-dotted :
    (a b c d : ℕ)
    → a < 256
    → b < 256
    → c < 256
    → d < 256
    → ipaddr_aton (dotted (a ∷ b ∷ c ∷ d ∷ [])) ≡ some (a + b * 2 ^ 8 + c * 2 ^ 16 + d * 2 ^ 24)
ipaddr_aton-dotted a b c d h k l m =
    aton_of (dotted (a ∷ b ∷ c ∷ d ∷ [])) (a ∷ b ∷ c ∷ []) d
      (a * 2 ^ 24 + b * 2 ^ 16 + c * 2 ^ 8 + d) (four_parts a b c d h k l m)
      (concoct_lem a b c d h k l m)
    ∙ ap some (turned a b c d h k l m)

-- What a buffer of `buflen` places takes: all of the text or nothing.
abbrev fitted : ℕ → List ℕ → Option (List ℕ)
fitted buflen s = if leb (length s) buflen then some s else none

put-fitted :
    (buflen : ℕ) (buf s : List ℕ)
    → length buf ≤ buflen
    → put buflen buf s ≡ fitted buflen (buf ++ s)
unfolding put
put-fitted buflen buf [] h =
    let fits : leb (length (buf ++ [])) buflen ≡ true = rw (append-nil buf) (ground arith) in
    rw fits (ap some (sym (append-nil buf)))
put-fitted buflen buf (c ∷ r) h = elim (Bool-cases (leb buflen (length buf))) [
  | inl full ↦
      let over : leb (length (buf ++ (c ∷ r))) buflen ≡ false =
        rw (length-append buf (c ∷ r)) (ground arith) in
      rw (full, over) refl
  | inr free ↦
      let room : length (buf ++ (c ∷ [])) ≤ buflen =
        rw (length-append buf (c ∷ [])) (ground arith) in
      rw free (
        put-fitted buflen (buf ++ (c ∷ [])) r room
        ∙ ap (fitted buflen) (append_assoc buf (c ∷ []) r))
]

-- Each byte with a dot behind it.
abbrev dots : List ℕ → List ℕ
dots [] = []
dots (b ∷ r) = (inv_loop 3 b [] ++ (46 ∷ [])) ++ dots r

bytes_step :
    (buflen : ℕ) (buf r text : List ℕ) (b : ℕ)
    → put buflen buf (inv_loop 3 b [] ++ (46 ∷ [])) ≡ fitted buflen text
    → (leb (length text) buflen ≡ true → bytes_loop buflen text r ≡ fitted buflen (text ++ dots r))
    → bytes_loop buflen buf (b ∷ r) ≡ fitted buflen (text ++ dots r)
unfolding bytes_loop
bytes_step buflen buf r text b h rest = elim (Bool-cases (leb (length text) buflen)) [
  | inl fits ↦ rw h (rw fits (rest fits))
  | inr full ↦ rw h (rw full (rw (longer buflen text (dots r) full) refl))
]
  where
    longer :
        (n : ℕ) (xs ys : List ℕ) → leb (length xs) n ≡ false → leb (length (xs ++ ys)) n ≡ false
    longer n xs ys h = rw (length-append xs ys) (ground arith)

bytes_loop-fitted :
    (buflen : ℕ) (buf bytes : List ℕ)
    → length buf ≤ buflen
    → bytes_loop buflen buf bytes ≡ fitted buflen (buf ++ dots bytes)
unfolding bytes_loop
bytes_loop-fitted buflen buf [] h =
    let fits : leb (length (buf ++ [])) buflen ≡ true = rw (append-nil buf) (ground arith) in
    rw fits (ap some (sym (append-nil buf)))
bytes_loop-fitted buflen buf (b ∷ r) h =
    let text : List ℕ = inv_loop 3 b [] ++ (46 ∷ []) in
    bytes_step buflen buf r (buf ++ text) b (put-fitted buflen buf text h)
      (λ fits. bytes_loop-fitted buflen (buf ++ text) r (ground arith))
    ∙ ap (fitted buflen) (append_assoc buf text (dots r))

dots-dotted : (b : ℕ) (r : List ℕ) → dots (b ∷ r) ≡ dotted (b ∷ r) ++ (46 ∷ [])
dots-dotted b [] = append-nil _
dots-dotted b (c ∷ r) =
    append_assoc (inv_loop 3 b []) (46 ∷ []) (dots (c ∷ r))
    ∙ ap (λ x. inv_loop 3 b [] ++ (46 ∷ x)) (dots-dotted c r)
    ∙ sym (append_assoc (inv_loop 3 b []) (46 ∷ dotted (c ∷ r)) (46 ∷ []))

drop_last : (s : List ℕ) (c : ℕ) → take (length (s ++ (c ∷ [])) - 1) (s ++ (c ∷ [])) ≡ s
drop_last [] c = refl
drop_last (x ∷ s) c =
    let l : length (s ++ (c ∷ [])) ≡ suc (length s) = length-append s (c ∷ []) ∙ omega arith in
    let m : length (x ∷ s ++ (c ∷ [])) - 1 ≡ suc (length (s ++ (c ∷ [])) - 1) = omega (arith, l) in
    rw m (ap (◌∷◌ x) (drop_last s c))

without_dot :
    (addr buflen b : ℕ) (r : List ℕ)
    → bytes_of_address addr ≡ b ∷ r
    → ipaddr_ntoa_r addr buflen
      ≡ (if ltb (length (dotted (b ∷ r))) buflen then some (dotted (b ∷ r)) else none)
unfolding ipaddr_ntoa_r
without_dot addr buflen b r e =
    let text : List ℕ = dotted (b ∷ r) in
    let whole : bytes_loop buflen [] (b ∷ r) ≡ fitted buflen (text ++ (46 ∷ [])) =
      bytes_loop-fitted buflen [] (b ∷ r) (omega arith) ∙ ap (fitted buflen) (dots-dotted b r) in
    let l = length-append text (46 ∷ []) in
    let cut : (take (length (text ++ (46 ∷ [])) - 1) (text ++ (46 ∷ []))) ≡ text =
      drop_last text 46 in
    rw (e, whole)
      (elim (Bool-cases (ltb (length text) buflen)) [
        | inl fits ↦
            let f : leb (length (text ++ (46 ∷ []))) buflen ≡ true = ground arith in
            rw (f, fits) (ap some cut)
        | inr full ↦
            let f : leb (length (text ++ (46 ∷ []))) buflen ≡ false = ground arith in
            rw (f, full) refl
      ])

ipaddr_ntoa_r-fitted :
    (addr buflen : ℕ)
    → let text = dotted (bytes_of_address addr) in
      ipaddr_ntoa_r addr buflen ≡ (if ltb (length text) buflen then some text else none)
ipaddr_ntoa_r-fitted addr buflen = without_dot addr buflen _ _ refl

-- Four bytes in dotted decimal notation.
abbrev pub dotted_decimal : ℕ → ℕ → ℕ → ℕ → List ℕ
dotted_decimal a b c d = decimal a ++ (46 ∷ decimal b ++ (46 ∷ decimal c ++ (46 ∷ decimal d)))

dotted-decimal :
    (a b c d : ℕ)
    → a < 256
    → b < 256
    → c < 256
    → d < 256
    → dotted (a ∷ b ∷ c ∷ d ∷ []) ≡ dotted_decimal a b c d
dotted-decimal a b c d h k l m =
    rw (inv_loop-decimal a h, inv_loop-decimal b k, inv_loop-decimal c l, inv_loop-decimal d m) refl

-- `ipaddr_ntoa_r` with a buffer of `buflen` places: the decimal numbers of the address's four bytes,
-- as they stand in memory, with a dot between two of them, or NULL if the text and the NUL behind it
-- do not fit.
pub ipaddr_ntoa_r-dotted :
    (addr buflen : ℕ)
    → let text =
        dotted_decimal
          (addr % 256)
          (addr / 2 ^ 8 % 256)
          (addr / 2 ^ 16 % 256)
          (addr / 2 ^ 24 % 256) in
      ipaddr_ntoa_r addr buflen ≡ (if ltb (length text) buflen then some text else none)
ipaddr_ntoa_r-dotted addr buflen =
    ipaddr_ntoa_r-fitted addr buflen
    ∙ ap (λ text. if ltb (length text) buflen then some text else none)
        (dotted-decimal (addr % 256) (addr / 2 ^ 8 % 256) (addr / 2 ^ 16 % 256)
          (addr / 2 ^ 24 % 256) (omega arith) (omega arith) (omega arith) (omega arith))

-- A buffer of 16 places, as `ipaddr_ntoa` has it, takes any address, and `ipaddr_aton` reads the
-- address of 32 bits back from the text.
pub ipaddr_aton-ipaddr_ntoa :
    (addr : ℕ)
    → addr < 2 ^ 32
    → (text : List ℕ) × (ipaddr_ntoa addr ≡ some text) × (ipaddr_aton text ≡ some addr)
ipaddr_aton-ipaddr_ntoa addr h =
    let text : List ℕ = dotted (bytes_of_address addr) in
    let fits : ltb (length text) 16 ≡ true =
      short _ _ _ _ (omega arith) (omega arith) (omega arith) (omega arith) in
    (
      text,
      ipaddr_ntoa_r-fitted addr 16 ∙ rw fits refl,
      ipaddr_aton-dotted _ _ _ _ (omega arith) (omega arith) (omega arith) (omega arith)
          ∙ ap some (joined addr h),
    )
  where
    joined :
        (n : ℕ)
        → n < 2 ^ 32
        → n % 256 + n / 256 % 256 * 2 ^ 8 + n / 65536 % 256 * 2 ^ 16 + n / 16777216 % 256 * 2 ^ 24
          ≡ n
    joined n h = omega arith

    below : (n : ℕ) → n < 16 → ltb n 16 ≡ true
    below n h = ground arith

    short :
        (a b c d : ℕ)
        → a < 256
        → b < 256
        → c < 256
        → d < 256
        → ltb (length (dotted (a ∷ b ∷ c ∷ d ∷ []))) 16 ≡ true
    short a b c d h k l m =
        let r1 = length-append (byte_text a) (46 ∷ dotted (b ∷ c ∷ d ∷ [])) in
        let r2 = length-append (byte_text b) (46 ∷ dotted (c ∷ d ∷ [])) in
        let r3 = length-append (byte_text c) (46 ∷ dotted (d ∷ [])) in
        let le : length (dotted (a ∷ b ∷ c ∷ d ∷ [])) < 16 = omega (
          arith,
          r1,
          r2,
          r3,
          inv_loop-length a h,
          inv_loop-length b k,
          inv_loop-length c l,
          inv_loop-length d m,
        ) in
        below (length (dotted (a ∷ b ∷ c ∷ d ∷ []))) le
