-- ===== src/Tcp/Options.antt =====
-- The options of a TCP header: `tcp_parseopt` of tcp_in.c, without timestamps.
pub mod Limits
pub mod RoundTrip
use qladder.Prelude.{
  ℕ, zero, suc, ◌+◌, ◌-◌, ◌*◌, ◌^◌, List, Option, none, some, ◌>>=◌, Bool, not, ◌||◌, ltb, ◌==◌,
  if◌then◌else◌, get_elem?, drop, u16,
}

-- TCP_MSS
abbrev pub tcp_mss : ℕ
tcp_mss = 1460

-- What a round of the loop does: it returns with `mss`, or goes on `n` bytes further.
pub data Round : Type 0 where
  stop : ℕ → Round
  on : ℕ → ℕ → Round

-- The announced size, limited to TCP_MSS, and not 0.
abbrev pub limited : ℕ → ℕ
limited mss = if ltb tcp_mss mss || mss == 0 then tcp_mss else mss

-- A round, with `here` for `opts + c`; a byte outside the memory that may be read gives `none`.
unfoldable pub option_round : List ℕ → ℕ → ℕ → ℕ → Option Round
option_round here c max_c mss = get_elem? here 0 >>= λ opt.
    if opt == 0
    then some (stop mss)
    else if opt == 1
    then some (on 1 mss)
    else get_elem? here 1 >>= λ l.
        if opt == 2
        then (if not (l == 4) || ltb max_c (c + 4)
            then some (stop mss)
            else get_elem? here 2 >>= λ hi.
                get_elem? here 3 >>= λ lo. some (on 4 (limited (hi * 256 + lo))))
        else if l == 0
        then some (stop mss)
        else some (on l mss)

-- The loop, on fuel for its rounds. Running out of it is `none` too.
unfoldable pub options_loop : ℕ → List ℕ → ℕ → ℕ → ℕ → Option ℕ
options_loop zero here c max_c mss = none
options_loop (suc fuel) here c max_c mss =
    if ltb c max_c
    then (option_round here c max_c mss >>= λ r. elim r [
      | stop m ↦ some m
      | on n m ↦ options_loop fuel (drop n here) (u16 (c + n)) max_c m
    ])
    else some mss

-- `hdrlen` counts words of 4 bytes, `opts` is the memory behind the first 20 bytes of the header, and
-- `mss` that of the connection.
unfoldable pub tcp_parseopt : ℕ → List ℕ → ℕ → Option ℕ
tcp_parseopt hdrlen opts mss =
    let max_c = (hdrlen - 5) * 4 in
    if ltb 5 hdrlen then options_loop (max_c + 1) opts 0 max_c mss else some mss
