-- ===== src/Tests/Process.antt =====
-- Segments for a connection as in the runs on `tcp_receive`, and the options of their headers.
use qladder.Prelude.{
  ℕ, ◌≡◌, inl, inr, refl, List, [], ◌∷◌, ◌++◌, none, some, Gives, true, false, arith,
}
use qladder.Tcp.{established}
use qladder.Tcp.Options.{option_round, options_loop, tcp_parseopt}
use qladder.Tcp.Options.Limits.{IsMss, tcp_parseopt-IsMss}
use qladder.Tcp.Options.RoundTrip.{Opt, nop, max_segment, other, print, chosen, tcp_parseopt-print}
use qladder.Tcp.Connection.{Tcb, ErrT, err_ok}
use qladder.Tcp.Process.{Arrival, tcp_process}
use qladder.Tcp.Process.Arcs.{HasMoved}
use qladder.Tcp.Process.Safe.{IsProcessed, tcp_process-IsProcessed}
use qladder.Tests.Tcp.{stream, waiting, middle, fresh-IsReceiving, middle-IsPart, last_held-IsPart}
use qladder.Tests.Ack.{sender, sender-IsSending}

abbrev pub connection : Tcb
connection = record {
  rcv = waiting;
  snd = sender;
  tmr = 5;
  keep_cnt_sent = 0;
  rxclosed = false;
  refused_data = [];
  on_time_wait = false;
  nodelay = false;
  nagle_memerr = false;
  fin_queued = false;
  snd_lbb = 515;
  sent = [];
}

-- The four bytes from 1002 on, with an acknowledgement of the ten bytes that were sent.
abbrev arrival : Arrival
arrival = record {
  inseg = middle;
  ack = true;
  rst = false;
  ackno = 510;
  wnd = 8000;
  hdrlen = 5;
  opts = 234 ∷ 235 ∷ 236 ∷ 237 ∷ [];
}

abbrev pub callback : Tcb → ErrT × Tcb
callback t = (err_ok, t)

tcp_process-IsProcessed_example :
    Gives
      (λ r. IsProcessed stream 1000 9000 r × HasMoved arrival established r)
      (tcp_process 7 true true none callback callback arrival connection)
tcp_process-IsProcessed_example =
    tcp_process-IsProcessed stream 7 true true none callback callback 9000 arrival connection
      (
        (
          fresh-IsReceiving.0,
          fresh-IsReceiving.1,
          (omega arith, omega arith, last_held-IsPart, inr refl, tt),
        ),
        sender-IsSending,
      )
      (
        middle-IsPart,
        omega arith,
        omega arith,
        inr (omega arith),
        omega arith,
        (omega arith, (omega arith, (omega arith, (omega arith, tt)))),
        omega arith,
      )
      refl refl

-- A size of 1460 and a window scale, and a byte of data behind them.
abbrev options : List ℕ
options = 2 ∷ 4 ∷ 5 ∷ 180 ∷ 3 ∷ 3 ∷ 7 ∷ 0 ∷ 99 ∷ []

read_1460 : tcp_parseopt 7 options 536 ≡ some 1460
unfolding tcp_parseopt options_loop option_round
read_1460 = refl

tcp_parseopt-IsMss_example : Gives IsMss (tcp_parseopt 7 options 536)
tcp_parseopt-IsMss_example =
    tcp_parseopt-IsMss 7 options 536 (omega arith)
      (
        omega arith,
        (
          omega arith,
          (
            omega arith,
            (
              omega arith,
              (omega arith, (omega arith, (omega arith, (omega arith, (omega arith, tt))))),
            ),
          ),
        ),
      )
      (omega arith) (omega arith, omega arith)

abbrev written : List Opt
written = nop ∷ max_segment 1000 ∷ other 3 (7 ∷ []) ∷ []

tcp_parseopt-print_example : tcp_parseopt 7 (print written ++ []) 536 ≡ some (chosen written 536)
tcp_parseopt-print_example =
    tcp_parseopt-print 7 written [] 536 (omega arith) (omega arith)
      (tt, (omega arith, ((omega arith, omega arith), tt))) (omega arith) (inl refl)

-- An option that has its kind as the header's last byte, and no data: the byte behind is read.
reads_behind : tcp_parseopt 6 (1 ∷ 1 ∷ 1 ∷ 3 ∷ []) 536 ≡ none
unfolding tcp_parseopt options_loop option_round
reads_behind = refl
