-- ===== src/Addr/Text.antt =====
-- Addresses as text: `ipaddr_aton`, `ipaddr_addr` and `ipaddr_ntoa_r`. A text is the list of its
-- characters, and its end is the NUL character.
pub mod Digits
pub mod RoundTrip
use qladder.Prelude.{
  ℕ, zero, suc, ◌+◌, ◌-◌, ◌*◌, ◌/◌, ◌%◌, ◌^◌, List, [], ◌∷◌, ◌++◌, Option, none, some, ◌>>=◌, Bool,
  true, false, ◌&&◌, ◌||◌, not, ltb, leb, ◌==◌, if◌then◌else◌, u32, bit_or, length, take, drop,
  get_or,
}
use qladder.Addr.{lwip_htonl}

-- `*cp`
abbrev pub char_at : List ℕ → ℕ
char_at cp = get_or cp 0 0

abbrev pub in_range : ℕ → ℕ → ℕ → Bool
in_range c lo up = leb lo c && leb c up

abbrev pub isdigit : ℕ → Bool
isdigit c = in_range c 48 57

abbrev pub isxdigit : ℕ → Bool
isxdigit c = isdigit c || in_range c 97 102 || in_range c 65 70

abbrev pub islower : ℕ → Bool
islower c = in_range c 97 122

-- Space, form feed, newline, carriage return, and both tabs.
abbrev pub isspace : ℕ → Bool
isspace c = c == 32 || c == 12 || c == 10 || c == 13 || c == 9 || c == 11

-- The base that the text announces, and the text behind the announcement.
unfoldable pub number_start : List ℕ → ℕ × List ℕ
number_start cp =
    if char_at cp == 48
    then (if char_at (drop 1 cp) == 120 || char_at (drop 1 cp) == 88
        then (16, drop 2 cp)
        else (8, drop 1 cp))
    else (10, cp)

-- What one character makes of the value, unless the number has ended.
unfoldable pub digit_step : ℕ → ℕ → ℕ → Option ℕ
digit_step base val c =
    if isdigit c
    then some (u32 (u32 (val * base) + (c - 48)))
    else if base == 16 && isxdigit c
    then some (bit_or (u32 (val * 16)) (c + 10 - (if islower c then 97 else 65)))
    else none

unfoldable pub number_loop : ℕ → ℕ → List ℕ → ℕ × List ℕ
number_loop base val [] = (val, [])
number_loop base val (c ∷ r) = elim (digit_step base val c) [
  | none ↦ (val, c ∷ r)
  | some v ↦ number_loop base v r
]

-- One number of the address.
unfoldable pub number : List ℕ → ℕ × List ℕ
number cp = let (base, r) = number_start cp in number_loop base 0 r

-- The outer loop, with `dots` more places in `parts`: the parts before the last, the last, and the
-- text behind it.
unfoldable pub parts_loop : ℕ → List ℕ → List ℕ → Option (List ℕ × ℕ × List ℕ)
parts_loop zero parts cp =
    if not (isdigit (char_at cp))
    then none
    else if char_at (number cp).1 == 46
    then none
    else some (parts, (number cp).0, (number cp).1)
parts_loop (suc dots) parts cp =
    let rest = parts_loop dots (parts ++ ((number cp).0 ∷ [])) (drop 1 (number cp).1) in
    if not (isdigit (char_at cp))
    then none
    else if char_at (number cp).1 == 46
    then rest
    else some (parts, (number cp).0, (number cp).1)

-- The `switch` on the number of parts; `none` where it returns 0.
unfoldable pub concoct : List ℕ → ℕ → Option ℕ
concoct [] val = some val
concoct (a ∷ []) val = if ltb 0xffffff val then none else some (bit_or (u32 (a * 2 ^ 24)) val)
concoct (a ∷ b ∷ []) val =
    if ltb 0xffff val
    then none
    else some (bit_or (bit_or (u32 (a * 2 ^ 24)) (u32 (b * 2 ^ 16))) val)
concoct (a ∷ b ∷ c ∷ r) val =
    if ltb 0xff val
    then none
    else some (bit_or (bit_or (bit_or (u32 (a * 2 ^ 24)) (u32 (b * 2 ^ 16))) (u32 (c * 2 ^ 8))) val)

-- The address in network order; `none` where the code returns 0 and leaves `addr` alone.
unfoldable pub ipaddr_aton : List ℕ → Option ℕ
ipaddr_aton cp = parts_loop 3 [] cp >>= λ found.
    if not (char_at found.2 == 0) && not (isspace (char_at found.2))
    then none
    else (concoct found.0 found.1 >>= λ val. some (lwip_htonl val))

-- IPADDR_NONE
abbrev pub ipaddr_none : ℕ
ipaddr_none = 0xffffffff

pub ipaddr_addr : List ℕ → ℕ
ipaddr_addr cp = elim (ipaddr_aton cp) [ none ↦ ipaddr_none | some val ↦ val ]

-- The digits of a byte: the `do … while` fills `inv`, which has room for three, and they are read
-- from its end.
pub inv_loop : ℕ → ℕ → List ℕ → List ℕ
inv_loop zero ap inv = inv
inv_loop (suc room) ap inv =
    if ap / 10 == 0 then (48 + ap % 10) ∷ inv else inv_loop room (ap / 10) ((48 + ap % 10) ∷ inv)

-- Writing characters behind those that stand in `buf`, which has `buflen` places; `none` for NULL.
pub put : ℕ → List ℕ → List ℕ → Option (List ℕ)
put buflen buf [] = some buf
put buflen buf (c ∷ r) = if leb buflen (length buf) then none else put buflen (buf ++ (c ∷ [])) r

-- The loop over the bytes of the address as they stand in memory.
pub bytes_loop : ℕ → List ℕ → List ℕ → Option (List ℕ)
bytes_loop buflen buf [] = some buf
bytes_loop buflen buf (b ∷ r) =
    put buflen buf (inv_loop 3 b [] ++ (46 ∷ [])) >>= λ buf'. bytes_loop buflen buf' r

abbrev pub bytes_of_address : ℕ → List ℕ
bytes_of_address a = a % 256 ∷ a / 256 % 256 ∷ a / 65536 % 256 ∷ a / 16777216 % 256 ∷ []

-- The text in `buf`; the last dot is overwritten by NUL.
pub ipaddr_ntoa_r : ℕ → ℕ → Option (List ℕ)
ipaddr_ntoa_r addr buflen =
    bytes_loop buflen [] (bytes_of_address addr) >>= λ buf. some (take (length buf - 1) buf)

abbrev pub ipaddr_ntoa : ℕ → Option (List ℕ)
ipaddr_ntoa addr = ipaddr_ntoa_r addr 16
