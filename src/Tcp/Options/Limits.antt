-- ===== src/Tcp/Options/Limits.antt =====
-- The parsing of options ends, stays within the header and one byte behind it, and gives a segment size
-- that can be used.
use qladder.Prelude.{
  ℕ, zero, suc, ◌+◌, ◌-◌, ◌*◌, ◌^◌, ◌≤◌, ◌<◌, ◌≡◌, List, [], ◌∷◌, Option, some, Gives, >>=-Gives,
  if-Gives, not, ◌||◌, ltb, ◌==◌, get_elem?, drop, length, length-drop, u16, arith,
}
use qladder.Tcp.Options.{
  tcp_mss, Round, stop, on, limited, option_round, options_loop, tcp_parseopt,
}

abbrev pub IsMss : ℕ → Type 0
IsMss mss = (0 < mss) × (mss ≤ tcp_mss)

limited-IsMss : (mss : ℕ) → IsMss (limited mss)
limited-IsMss mss = ground arith

-- A round goes on by a byte at least, and 255 at most.
abbrev IsRound : Round → Type 0
IsRound (stop m) = IsMss m
IsRound (on n m) = IsMss m × (0 < n) × (n < 256)

abbrev pub AllBytes : List ℕ → Type 0
AllBytes [] = Unit {0}
AllBytes (b ∷ r) = (b < 256) × AllBytes r

AllBytes-drop : (n : ℕ) (xs : List ℕ) → AllBytes xs → AllBytes (drop n xs)
AllBytes-drop zero xs h = h
AllBytes-drop (suc n) [] h = tt
AllBytes-drop (suc n) (x ∷ xs) h = AllBytes-drop n xs h.1

readable :
    (here : List ℕ) (i : ℕ)
    → AllBytes here
    → i < length here
    → Gives (λ b. b < 256) (get_elem? here i)
readable [] i h k = absurd (omega arith)
readable (x ∷ xs) zero h k = h.0
readable (x ∷ xs) (suc i) h k = readable xs i h.1 (omega arith)

option_round-IsRound :
    (here : List ℕ) (c max_c mss : ℕ)
    → AllBytes here
    → c < max_c
    → max_c < c + length here
    → IsMss mss
    → Gives IsRound (option_round here c max_c mss)
unfolding option_round
option_round-IsRound here c max_c mss bytes inside room h =
    >>=-Gives (λ b. b < 256) IsRound (get_elem? here 0) _ (readable here 0 bytes (omega arith))
      λ opt _.
        if-Gives IsRound (opt == 0) _ _ (λ _. h)
          λ _.
            if-Gives IsRound (opt == 1) _ _ (λ _. (h, omega arith, omega arith))
              λ _.
                >>=-Gives (λ b. b < 256) IsRound (get_elem? here 1) _
                  (readable here 1 bytes (omega arith))
                  λ l small.
                    if-Gives IsRound (opt == 2) _ _
                      (λ _.
                        if-Gives IsRound (not (l == 4) || ltb max_c (c + 4)) _ _ (λ _. h)
                          λ whole.
                            let fits : c + 4 ≤ max_c = ground (arith, whole) in
                            >>=-Gives (λ b. b < 256) IsRound (get_elem? here 2) _
                              (readable here 2 bytes (omega arith))
                              λ hi _.
                                >>=-Gives (λ b. b < 256) IsRound (get_elem? here 3) _
                                  (readable here 3 bytes (omega arith))
                                  λ lo _. (limited-IsMss (hi * 256 + lo), omega arith, omega arith))
                      (λ _.
                        if-Gives IsRound (l == 0) _ _ (λ _. h)
                          λ some_bytes. (h, ground (arith, some_bytes), small))

after_round :
    (r : Round) (f : ℕ → ℕ → Option ℕ)
    → IsRound r
    → ((n m : ℕ) → IsMss m → 0 < n → n < 256 → Gives IsMss (f n m))
    → Gives IsMss (elim r [ stop m ↦ some m | on n m ↦ f n m ])
after_round (stop m) f h k = h
after_round (on n m) f h k = k n m h.0 h.1 h.2

options_loop-IsMss :
    (fuel : ℕ) (here : List ℕ) (c max_c mss : ℕ)
    → AllBytes here
    → max_c < c + length here
    → max_c < 2 ^ 15
    → 0 < fuel
    → max_c < c + fuel
    → IsMss mss
    → Gives IsMss (options_loop fuel here c max_c mss)
unfolding options_loop
options_loop-IsMss zero here c max_c mss bytes room low fuelled enough h = absurd (omega arith)
options_loop-IsMss (suc fuel) here c max_c mss bytes room low fuelled enough h =
    if-Gives IsMss (ltb c max_c) _ _
      (λ more.
        let inside : c < max_c = ground (arith, more) in
        >>=-Gives IsRound IsMss (option_round here c max_c mss) _
          (option_round-IsRound here c max_c mss bytes inside room h)
          λ r k. after_round r _ k λ n m usable pos small.
            let next : u16 (c + n) ≡ c + n = omega (arith, inside, low, small) in
            rw next (
              options_loop-IsMss fuel (drop n here) (c + n) max_c m (AllBytes-drop n here bytes)
                (omega (arith, room, length-drop n here)) low (omega (arith, inside, enough))
                (omega (arith, enough, pos)) usable))
      (λ _. h)

-- A header of at most 15 words, and bytes that may be read up to its end and one byte behind it: the
-- parsing of its options ends, reads no other byte, and leaves the connection a segment size from 1 to
-- TCP_MSS if it had one.
pub tcp_parseopt-IsMss :
    (hdrlen : ℕ) (opts : List ℕ) (mss : ℕ)
    → hdrlen ≤ 15
    → AllBytes opts
    → (hdrlen - 5) * 4 < length opts
    → IsMss mss
    → Gives IsMss (tcp_parseopt hdrlen opts mss)
unfolding tcp_parseopt
tcp_parseopt-IsMss hdrlen opts mss words bytes room h =
    if-Gives IsMss (ltb 5 hdrlen) _ _
      (λ _.
        options_loop-IsMss ((hdrlen - 5) * 4 + 1) opts 0 ((hdrlen - 5) * 4) mss bytes
          (omega (arith, room)) (omega (arith, words)) (omega arith) (omega arith) h)
      (λ _. h)
