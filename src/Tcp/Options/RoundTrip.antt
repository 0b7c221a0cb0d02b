-- ===== src/Tcp/Options/RoundTrip.antt =====
-- Options as a peer writes them are read as they are meant.
use qladder.Prelude.{
  min, ℕ, zero, suc, ◌+◌, ◌-◌, ◌*◌, ◌/◌, ◌%◌, ◌^◌, ◌≤◌, ◌<◌, ◌≡◌, ◌⊎◌, inl, inr, refl, ap, sym, ◌∙◌,
  subst, List, [], ◌∷◌, ◌++◌, append_assoc, some, true, false, ltb, ◌==◌, drop, length,
  length-append, u16, arith,
}
use qladder.Tcp.Options.{stop, on, limited, option_round, options_loop, tcp_parseopt}

-- RFC 793: no operation, the maximum segment size, and the others, which have a length.
pub data Opt : Type 0 where
  nop : Opt
  max_segment : ℕ → Opt
  other : ℕ → List ℕ → Opt

abbrev pub print_one : Opt → List ℕ
print_one nop = 1 ∷ []
print_one (max_segment n) = 2 ∷ 4 ∷ n / 256 ∷ n % 256 ∷ []
print_one (other kind body) = kind ∷ (2 + length body) ∷ body

abbrev pub print : List Opt → List ℕ
print [] = []
print (o ∷ r) = print_one o ++ print r

abbrev IsOpt : Opt → Type 0
IsOpt nop = Unit {0}
IsOpt (max_segment n) = n < 2 ^ 16
IsOpt (other kind body) = (2 < kind) × (length body < 254)

abbrev pub AllOpts : List Opt → Type 0
AllOpts [] = Unit {0}
AllOpts (o ∷ r) = IsOpt o × AllOpts r

-- A size of 0 counts as none, and no more than 1460 is used.
abbrev pub offered : ℕ → ℕ
offered zero = 1460
offered (suc n) = min (suc n) 1460

abbrev choose : Opt → ℕ → ℕ
choose nop mss = mss
choose (max_segment n) mss = offered n
choose (other kind body) mss = mss

-- The last size that is announced counts.
abbrev pub chosen : List Opt → ℕ → ℕ
chosen [] mss = mss
chosen (o ∷ r) mss = chosen r (choose o mss)

limited-offered : (n : ℕ) → limited n ≡ offered n
limited-offered zero = refl
limited-offered (suc n) = ground arith

option_round-print_one :
    (o : Opt) (here : List ℕ) (c max_c mss : ℕ)
    → IsOpt o
    → c + length (print_one o) ≤ max_c
    → option_round (print_one o ++ here) c max_c mss
      ≡ some (on (length (print_one o)) (choose o mss))
unfolding option_round
option_round-print_one nop here c max_c mss h room = refl
option_round-print_one (max_segment n) here c max_c mss h room =
    let whole : ltb max_c (c + 4) ≡ false = ground (arith, room) in
    let value : n / 256 * 256 + n % 256 ≡ n = omega arith in
    rw (whole, value) (ap (λ m. some (on 4 m)) (limited-offered n))
option_round-print_one (other kind body) here c max_c mss h room =
    let not_end : (kind == 0) ≡ false = ground (arith, h) in
    let not_nop : (kind == 1) ≡ false = ground (arith, h) in
    let not_size : (kind == 2) ≡ false = ground (arith, h) in
    let some_length : (2 + length body == 0) ≡ false = ground arith in
    let e : suc (suc (length body)) ≡ 2 + length body = omega arith in
    rw (not_end, not_nop, not_size, some_length) (ap (λ n. some (on n mss)) (sym e))

drop-append : (xs ys : List ℕ) → drop (length xs) (xs ++ ys) ≡ ys
drop-append [] ys = refl
drop-append (x ∷ xs) ys = drop-append xs ys

some_bytes : (o : Opt) → 0 < length (print_one o)
some_bytes nop = omega arith
some_bytes (max_segment n) = omega arith
some_bytes (other kind body) = omega arith

few_bytes : (o : Opt) → IsOpt o → length (print_one o) < 256
few_bytes nop h = omega arith
few_bytes (max_segment n) h = omega arith
few_bytes (other kind body) h = omega (arith, h)

-- The options fill what there is, or the end of the options follows.
abbrev pub Ends : ℕ → ℕ → List ℕ → Type 0
Ends used max_c rest = (used ≡ max_c) ⊎ ((used < max_c) × (junk : List ℕ) × (rest ≡ 0 ∷ junk))

end_round :
    (junk : List ℕ) (c max_c mss : ℕ) → option_round (0 ∷ junk) c max_c mss ≡ some (stop mss)
unfolding option_round
end_round junk c max_c mss = refl

options_loop-print :
    (fuel : ℕ) (os : List Opt) (rest : List ℕ) (c max_c mss : ℕ)
    → AllOpts os
    → c + length (print os) ≤ max_c
    → Ends (c + length (print os)) max_c rest
    → max_c < 2 ^ 15
    → 0 < fuel
    → max_c < c + fuel
    → options_loop fuel (print os ++ rest) c max_c mss ≡ some (chosen os mss)
unfolding options_loop
options_loop-print zero os rest c max_c mss h room ends low fuelled enough = absurd (omega arith)
options_loop-print (suc fuel) [] rest c max_c mss h room (inl full) low fuelled enough =
    let over : ltb c max_c ≡ false = ground (arith, full) in rw over refl
options_loop-print (suc fuel) [] rest c max_c mss h room (inr (inside, junk, e)) low fuelled
      enough =
    let more : ltb c max_c ≡ true = ground (arith, inside) in
    let ended : option_round rest c max_c mss ≡ some (stop mss) =
      ap (λ r. option_round r c max_c mss) e ∙ end_round junk c max_c mss in
    rw (more, ended) refl
options_loop-print (suc fuel) (o ∷ r) rest c max_c mss h room ends low fuelled enough =
    let size : length (print (o ∷ r)) ≡ length (print_one o) + length (print r) =
      length-append (print_one o) (print r) in
    let more : ltb c max_c ≡ true = ground (arith, room, size, some_bytes o) in
    let next : u16 (c + length (print_one o)) ≡ c + length (print_one o) =
      omega (arith, room, size, low) in
    let there : c + length (print_one o) + length (print r) ≡ c + length (print (o ∷ r)) =
      omega (arith, size) in
    rw
      (
        more,
        append_assoc (print_one o) (print r) rest,
        option_round-print_one o (print r ++ rest) c max_c mss h.0 (omega (arith, room, size)),
      )
      (rw
        (
          next,
          append_assoc (print_one o) (print r) rest,
          drop-append (print_one o) (print r ++ rest),
        )
        (options_loop-print fuel r rest (c + length (print_one o)) max_c (choose o mss) h.1
          (omega (arith, room, size)) (subst (λ n. Ends n max_c rest) (sym there) ends) low
          (omega (arith, room, size, enough, some_bytes o)) (omega (arith, enough, some_bytes o))))

-- Options that are well formed and fill the header, or have the end of options behind them: the size
-- chosen is the last one announced, limited to TCP_MSS, and TCP_MSS for 0; without one it stays.
pub tcp_parseopt-print :
    (hdrlen : ℕ) (os : List Opt) (rest : List ℕ) (mss : ℕ)
    → 5 < hdrlen
    → hdrlen ≤ 15
    → AllOpts os
    → length (print os) ≤ (hdrlen - 5) * 4
    → Ends (length (print os)) ((hdrlen - 5) * 4) rest
    → tcp_parseopt hdrlen (print os ++ rest) mss ≡ some (chosen os mss)
unfolding tcp_parseopt
tcp_parseopt-print hdrlen os rest mss more words h room ends =
    let longer : ltb 5 hdrlen ≡ true = ground (arith, more) in
    rw longer (
      options_loop-print ((hdrlen - 5) * 4 + 1) os rest 0 ((hdrlen - 5) * 4) mss h
        (omega (arith, room))
        (let e : length (print os) ≡ 0 + length (print os) = omega arith in
          subst (λ n. Ends n ((hdrlen - 5) * 4) rest) e ends)
        (omega (arith, words)) (omega arith) (omega arith))
