-- ===== src/Tests/Tcp.antt =====
-- A peer that sends nine bytes from number 1000 on and then FIN, in segments that overlap.
use qladder.Prelude.{
  ℕ, ◌%◌, ◌≡◌, inl, inr, refl, List, [], ◌∷◌, Option, none, some, Gives, true, false, if◌then◌else◌,
  ltb, arith,
}
use qladder.Pbuf.{Pbuf, pbuf_cat, cat_loop, pbuf_ref, pbuf_realloc, realloc_loop}
use qladder.Pbuf.Content.{content}
use qladder.Tcp.{
  established, close_wait, Segment, Pcb, tcp_ack, tcp_update_rcv_ann_wnd, tcp_send_empty_ack,
  tcp_recved,
}
use qladder.Tcp.Stream.{IsPart}
use qladder.Tcp.Queue.{
  cut, tcp_seg_copy, covered_loop, trim_to_next, tcp_oos_insert_segment, trim_prev, fit_last,
  insert_before, insert_last, queue_segment,
}
use qladder.Tcp.Queue.Sorted.{IsQueue}
use qladder.Tcp.Queue.Walk.{queue_segment-IsQueue}
use qladder.Tcp.Receive.{
  fit_window, absorb_loop, absorb_trim, absorb, advance, append_data, dequeue_loop, in_sequence,
  out_of_sequence, receive_in_window, receive_data,
}
use qladder.Tcp.Receive.Delivery.{IsOutcome}
use qladder.Tcp.Receive.Arrive.{IsReceiving, receive_data-IsOutcome}
use qladder.Tcp.Run.{
  Connection, arrives, takes, Reach, here, next, IsStreaming, Reach-IsStreaming, IsTaken,
  tcp_recved-IsTaken,
}

abbrev pub stream : ℕ → Option ℕ
stream n = if ltb n 1009 then some (n % 256) else none

abbrev buffer : List ℕ → ℕ → List Pbuf
buffer bytes n = record { payload = bytes; tot_len = n; len = n; ref = 1 } ∷ []

-- Numbers 1000 to 1003, 1002 to 1005, and 1005 to 1008 with FIN.
abbrev pub start : Segment
start = record {
  seqno = 1000;
  len = 4;
  fin = false;
  syn = false;
  p = buffer (232 ∷ 233 ∷ 234 ∷ 235 ∷ []) 4;
}

abbrev pub middle : Segment
middle = record {
  seqno = 1002;
  len = 4;
  fin = false;
  syn = false;
  p = buffer (234 ∷ 235 ∷ 236 ∷ 237 ∷ []) 4;
}

abbrev pub last : Segment
last = record {
  seqno = 1005;
  len = 4;
  fin = true;
  syn = false;
  p = buffer (237 ∷ 238 ∷ 239 ∷ 240 ∷ []) 4;
}

pub start-IsPart : IsPart stream start
start-IsPart = record {
  packet = (omega arith, refl, omega arith, tt);
  buffers = omega arith;
  size = refl;
  bytes = (refl, (refl, (refl, (refl, tt))));
  end = inl refl;
  no_syn = refl;
  short = omega arith;
  place = omega arith;
}

pub middle-IsPart : IsPart stream middle
middle-IsPart = record {
  packet = (omega arith, refl, omega arith, tt);
  buffers = omega arith;
  size = refl;
  bytes = (refl, (refl, (refl, (refl, tt))));
  end = inl refl;
  no_syn = refl;
  short = omega arith;
  place = omega arith;
}

last-IsPart : IsPart stream last
last-IsPart = record {
  packet = (omega arith, refl, omega arith, tt);
  buffers = omega arith;
  size = refl;
  bytes = (refl, (refl, (refl, (refl, tt))));
  end = inr refl;
  no_syn = refl;
  short = omega arith;
  place = omega arith;
}

abbrev pub fresh : Pcb
fresh = record {
  state = established;
  ack_delay = false;
  ack_now = false;
  mss = 1460;
  rcv_nxt = 1000;
  rcv_wnd = 8000;
  rcv_ann_wnd = 8000;
  rcv_ann_right_edge = 9000;
  snd_nxt = 77;
  ooseq = [];
  answers = [];
}

pub fresh-IsReceiving : IsReceiving stream 9000 fresh
fresh-IsReceiving =
    ((refl, omega arith, omega arith, omega arith, omega arith), (omega arith, omega arith), tt)

-- What is queued of the last two, which come first: the one before the last is cut.
abbrev pub last_held : Segment
last_held = record last {
  p = record { payload = 237 ∷ 238 ∷ 239 ∷ 240 ∷ []; tot_len = 4; len = 4; ref = 2 } ∷ [];
}

abbrev middle_held : Segment
middle_held = record middle {
  len = 3;
  p = record { payload = 234 ∷ 235 ∷ 236 ∷ 237 ∷ []; tot_len = 3; len = 3; ref = 2 } ∷ [];
}

abbrev pub waiting : Pcb
waiting = record fresh { ooseq = last_held ∷ []; answers = (77, 1000, 8000) ∷ [] }

abbrev pub still_waiting : Pcb
still_waiting = record fresh {
  ooseq = middle_held ∷ last_held ∷ [];
  answers = (77, 1000, 8000) ∷ (77, 1000, 8000) ∷ [];
}

last_first :
    receive_data true true 1005 5 last fresh
    ≡ some (record { pcb = waiting; recv_data = []; got_fin = false })
unfolding queue_segment insert_before tcp_oos_insert_segment covered_loop trim_to_next insert_last
    trim_prev cut tcp_seg_copy pbuf_ref pbuf_realloc realloc_loop fit_last receive_data
    receive_in_window out_of_sequence in_sequence tcp_send_empty_ack fit_window absorb absorb_loop
    absorb_trim advance tcp_update_rcv_ann_wnd append_data pbuf_cat cat_loop dequeue_loop tcp_ack
last_first = refl

middle_next :
    receive_data true true 1002 4 middle waiting
    ≡ some (record { pcb = still_waiting; recv_data = []; got_fin = false })
unfolding queue_segment insert_before tcp_oos_insert_segment covered_loop trim_to_next insert_last
    trim_prev cut tcp_seg_copy pbuf_ref pbuf_realloc realloc_loop fit_last receive_data
    receive_in_window out_of_sequence in_sequence tcp_send_empty_ack fit_window absorb absorb_loop
    absorb_trim advance tcp_update_rcv_ann_wnd append_data pbuf_cat cat_loop dequeue_loop tcp_ack
middle_next = refl

-- All that was missing: the application is given the nine bytes and told of the end.
abbrev finished : Pcb
finished = record fresh {
  state = close_wait;
  ack_delay = true;
  rcv_nxt = 1010;
  rcv_wnd = 7990;
  rcv_ann_wnd = 7990;
  answers = (77, 1000, 8000) ∷ (77, 1000, 8000) ∷ [];
}

abbrev nine_bytes : List Pbuf
nine_bytes =
    record { payload = 232 ∷ 233 ∷ 234 ∷ 235 ∷ []; tot_len = 9; len = 2; ref = 1 }
    ∷ record { payload = 234 ∷ 235 ∷ 236 ∷ 237 ∷ []; tot_len = 7; len = 3; ref = 2 }
    ∷ record { payload = 237 ∷ 238 ∷ 239 ∷ 240 ∷ []; tot_len = 4; len = 4; ref = 2 }
    ∷ []

start_at_last :
    receive_data true true 1000 4 start still_waiting
    ≡ some (record { pcb = finished; recv_data = nine_bytes; got_fin = true })
unfolding queue_segment insert_before tcp_oos_insert_segment covered_loop trim_to_next insert_last
    trim_prev cut tcp_seg_copy pbuf_ref pbuf_realloc realloc_loop fit_last receive_data
    receive_in_window out_of_sequence in_sequence tcp_send_empty_ack fit_window absorb absorb_loop
    absorb_trim advance tcp_update_rcv_ann_wnd append_data pbuf_cat cat_loop dequeue_loop tcp_ack
start_at_last = refl

taken : tcp_recved true false finished 9 ≡ some (record finished { rcv_wnd = 7999 })
unfolding tcp_recved tcp_update_rcv_ann_wnd
taken = refl

abbrev ready : Connection
ready = record { pcb = fresh; delivered = []; ended = false }

abbrev done : Connection
done = record {
  pcb = record finished { rcv_wnd = 7999 };
  delivered = content nine_bytes;
  ended = true;
}

run : Reach stream ready done
run =
    next
      (next
        (next
          (next here (
            arrives true true ready last _ refl last-IsPart (omega arith) (omega arith)
              (inr (omega arith)) last_first))
          (arrives true true (record { pcb = waiting; delivered = []; ended = false }) middle _ refl
            middle-IsPart (omega arith) (omega arith) (inr (omega arith)) middle_next))
        (arrives true true (record { pcb = still_waiting; delivered = []; ended = false }) start _
          refl start-IsPart (omega arith) (omega arith) (inl (omega arith)) start_at_last))
      (takes true false 9 (record { pcb = finished; delivered = content nine_bytes; ended = true })
        _ refl (omega arith) (omega arith) (omega arith) taken)

Reach-IsStreaming_example : IsStreaming stream 1000 done
Reach-IsStreaming_example =
    Reach-IsStreaming stream 1000 (fresh-IsReceiving, tt, omega arith, inl refl) run

pub last_held-IsPart : IsPart stream last_held
last_held-IsPart = record {
  packet = (omega arith, refl, omega arith, tt);
  buffers = omega arith;
  size = refl;
  bytes = (refl, (refl, (refl, (refl, tt))));
  end = inr refl;
  no_syn = refl;
  short = omega arith;
  place = omega arith;
}

receive_data-IsOutcome_example :
    Gives (IsOutcome stream 1000 9000) (receive_data true true 1002 4 middle waiting)
receive_data-IsOutcome_example =
    receive_data-IsOutcome stream true true 9000 middle waiting
      (
        fresh-IsReceiving.0,
        fresh-IsReceiving.1,
        (omega arith, omega arith, last_held-IsPart, inr refl, tt),
      )
      middle-IsPart (omega arith) (omega arith) (inr (omega arith))

queue_segment-IsQueue_example :
    Gives (IsQueue stream 1000 9000) (queue_segment true 9000 4 middle (last_held ∷ []))
queue_segment-IsQueue_example =
    queue_segment-IsQueue stream true 9000 1000 middle (last_held ∷ [])
      (middle-IsPart, omega arith, omega arith, omega arith, omega arith)
      (omega arith, omega arith, last_held-IsPart, inr refl, tt)

finished-IsReceiving : IsReceiving stream 9000 finished
finished-IsReceiving =
    ((refl, omega arith, omega arith, omega arith, omega arith), (omega arith, omega arith), tt)

tcp_recved-IsTaken_example :
    Gives (IsTaken stream 9000 finished 9) (tcp_recved true false finished 9)
tcp_recved-IsTaken_example =
    tcp_recved-IsTaken stream true false 9000 9 finished finished-IsReceiving refl (omega arith)
      (omega arith) (omega arith)

-- With a window of four bytes: the segment is queued whole although it goes two past the window's end,
-- and when it is its turn an assertion fails.
abbrev narrow : Pcb
narrow = record fresh { rcv_wnd = 4; rcv_ann_wnd = 4; rcv_ann_right_edge = 1004 }

abbrev too_much : Pcb
too_much = record narrow {
  ooseq =
      record middle {
        p = record { payload = 234 ∷ 235 ∷ 236 ∷ 237 ∷ []; tot_len = 4; len = 4; ref = 2 } ∷ [];
      }
      ∷ [];
  answers = (77, 1000, 4) ∷ [];
}

queued_whole :
    receive_data true true 1002 4 middle narrow
    ≡ some (record { pcb = too_much; recv_data = []; got_fin = false })
unfolding queue_segment insert_before tcp_oos_insert_segment covered_loop trim_to_next insert_last
    trim_prev cut tcp_seg_copy pbuf_ref pbuf_realloc realloc_loop fit_last receive_data
    receive_in_window out_of_sequence in_sequence tcp_send_empty_ack fit_window absorb absorb_loop
    absorb_trim advance tcp_update_rcv_ann_wnd append_data pbuf_cat cat_loop dequeue_loop tcp_ack
queued_whole = refl

aborts : receive_data true true 1000 4 start too_much ≡ none
unfolding queue_segment insert_before tcp_oos_insert_segment covered_loop trim_to_next insert_last
    trim_prev cut tcp_seg_copy pbuf_ref pbuf_realloc realloc_loop fit_last receive_data
    receive_in_window out_of_sequence in_sequence tcp_send_empty_ack fit_window absorb absorb_loop
    absorb_trim advance tcp_update_rcv_ann_wnd append_data pbuf_cat cat_loop dequeue_loop tcp_ack
aborts = refl

-- The window goes past 2^32. Of a segment at the end of the queue that is well within it, the length is
-- set to what is left of the window, and FIN is taken off.
abbrev early : Segment
early = record { seqno = 4294967100; len = 1; fin = false; syn = false; p = buffer (1 ∷ []) 1 }

abbrev late : Segment
late = record { seqno = 4294967200; len = 1; fin = true; syn = false; p = buffer (2 ∷ []) 1 }

wrapped_window :
    queue_segment true 7704 2 late (early ∷ [])
    ≡ some (
        early
        ∷ record late {
          len = 7800;
          fin = false;
          p = record { payload = 2 ∷ []; tot_len = 1; len = 1; ref = 2 } ∷ [];
        }
        ∷ [])
unfolding queue_segment insert_before tcp_oos_insert_segment covered_loop trim_to_next insert_last
    trim_prev cut tcp_seg_copy pbuf_ref pbuf_realloc realloc_loop fit_last receive_data
    receive_in_window out_of_sequence in_sequence tcp_send_empty_ack fit_window absorb absorb_loop
    absorb_trim advance tcp_update_rcv_ann_wnd append_data pbuf_cat cat_loop dequeue_loop tcp_ack
wrapped_window = refl
