-- ===== src/Tcp/Ack/Congestion.antt =====
-- What an acknowledgement does to the windows of congestion control, and to the queues when a segment
-- is sent again.
use qladder.Prelude.{
  ℕ, ◌+◌, ◌*◌, ◌/◌, ◌^◌, ◌≤◌, ◌<◌, ◌≡◌, inl, inr, refl, ap, List, [], ◌∷◌, Gives, if-Gives, true,
  ◌&&◌, ◌||◌, not, if◌then◌else◌, arith, u8, u16, u32, ltb, ◌==◌, Bool-cases,
}
use qladder.Pbuf.{pbuf_clen}
use qladder.Tcp.{Segment, seq_lt}
use qladder.Tcp.Window.{asserting-Gives}
use qladder.Tcp.Ack.{
  Sender, update_snd_wnd, insert_unsent, rexmit_first, rexmit_queue, tcp_rexmit, fast_threshold,
  null_queue, tcp_rexmit_fast, count_dupack, old_ack, grow_cwnd, estimate_rtt,
}

abbrev pub queue_len : List Segment → ℕ
queue_len [] = 0
queue_len (s ∷ r) = pbuf_clen s.p + queue_len r

-- The buffers of both queues are counted.
abbrev pub IsCounted : ℕ → List Segment → List Segment → Type 0
IsCounted n unacked unsent = (n ≡ queue_len unacked + queue_len unsent) × (n < 2 ^ 16)

-- There is a segment size of no more than TCP_MSS, and neither window of congestion control is 0.
abbrev pub IsGoing : ℕ → ℕ → ℕ → Type 0
IsGoing mss cwnd ssthresh =
    (0 < mss) × (mss ≤ 1460) × (0 < cwnd) × (cwnd < 2 ^ 16) × (0 < ssthresh) × (ssthresh < 2 ^ 16)

abbrev pub IsSending : Sender → Type 0
IsSending x = IsCounted x.snd_queuelen x.unacked x.unsent × IsGoing x.mss x.cwnd x.ssthresh

pub insert_unsent-queue_len :
    (seg : Segment) (q : List Segment)
    → queue_len (insert_unsent seg q) ≡ pbuf_clen seg.p + queue_len q
unfolding insert_unsent
insert_unsent-queue_len seg [] = refl
insert_unsent-queue_len seg (cur ∷ r) = elim (Bool-cases (seq_lt cur.seqno seg.seqno)) [
  | inl before ↦ let e = insert_unsent-queue_len seg r in rw before (omega (arith, e))
  | inr here ↦ rw here refl
]

rexmit_queue-IsSending :
    (q : List Segment) (x : Sender) → x.unacked ≡ q → IsSending x → IsSending (rexmit_queue q x)
unfolding rexmit_queue rexmit_first
rexmit_queue-IsSending [] x e h = h
rexmit_queue-IsSending (seg ∷ rest) x e (counted, going) =
    let l : queue_len x.unacked ≡ pbuf_clen seg.p + queue_len rest = ap queue_len e in
    ((omega (arith, counted, l, insert_unsent-queue_len seg x.unsent), counted.1), going)

tcp_rexmit-IsSending : (x : Sender) → IsSending x → IsSending (tcp_rexmit x)
unfolding tcp_rexmit
tcp_rexmit-IsSending x h = rexmit_queue-IsSending x.unacked x refl h

pub fast_threshold-bounds :
    (x : Sender) → IsSending x → (0 < fast_threshold x) × (fast_threshold x < 2 ^ 15)
unfolding fast_threshold
fast_threshold-bounds x (counted, going) = bounds x.snd_wnd x.cwnd x.mss going.0 going.1 going.3
  where
    bounds :
        (wnd cwnd mss : ℕ)
        → 0 < mss
        → mss ≤ 1460
        → cwnd < 2 ^ 16
        → (0 < (
            if ltb ((if ltb wnd cwnd then wnd else cwnd) / 2) (2 * mss)
            then u16 (2 * mss)
            else (if ltb wnd cwnd then wnd else cwnd) / 2))
          × ((if ltb ((if ltb wnd cwnd then wnd else cwnd) / 2) (2 * mss)
                then u16 (2 * mss)
                else (if ltb wnd cwnd then wnd else cwnd) / 2)
              < 2 ^ 15)
    bounds wnd cwnd mss some_bytes small wide = ground arith

tcp_rexmit_fast-IsSending : (x : Sender) → IsSending x → IsSending (tcp_rexmit_fast x)
unfolding tcp_rexmit_fast
tcp_rexmit_fast-IsSending x h = elim (Bool-cases (not (null_queue x.unacked) && not x.infr)) [
  | inl does ↦
      let (counted, going) = tcp_rexmit-IsSending x h in
      let (some_bytes, small) = fast_threshold-bounds (tcp_rexmit x) (counted, going) in
      rw does (
        counted,
        (
          going.0,
          going.1,
          omega (arith, some_bytes, small, going),
          omega arith,
          some_bytes,
          omega (arith, small),
        ),
      )
  | inr does_not ↦ rw does_not h
]

-- A window that grows, if it does.
wider :
    (cwnd n : ℕ)
    → 0 < cwnd
    → cwnd < 2 ^ 16
    → (0 < (if ltb cwnd (u16 n) then u16 n else cwnd))
      × ((if ltb cwnd (u16 n) then u16 n else cwnd) < 2 ^ 16)
wider cwnd n h k = ground arith

count_dupack-IsSending : (x : Sender) → IsSending x → IsSending (count_dupack x)
unfolding count_dupack
count_dupack-IsSending x h =
    counts (if ltb x.dupacks (u8 (x.dupacks + 1)) then x.dupacks + 1 else x.dupacks)
  where
    counts :
        (n : ℕ)
        → IsSending (
            if ltb 3 n
            then record x {
              dupacks = n;
              cwnd = if ltb x.cwnd (u16 (x.cwnd + x.mss)) then u16 (x.cwnd + x.mss) else x.cwnd;
            }
            else if n == 3
            then tcp_rexmit_fast (record x { dupacks = n })
            else record x { dupacks = n })
    counts n = elim (Bool-cases (ltb 3 n)) [
      | inl more ↦
          let (some_bytes, fits) = wider x.cwnd (x.cwnd + x.mss) h.1.2 h.1.3 in
          rw more (h.0, (h.1.0, h.1.1, some_bytes, fits, h.1.4, h.1.5))
      | inr fewer ↦ elim (Bool-cases (n == 3)) [
        | inl third ↦ rw (fewer, third) (tcp_rexmit_fast-IsSending (record x { dupacks = n }) h)
        | inr other ↦ rw (fewer, other) h
      ]
    ]

pub old_ack-IsSending :
    (ackno tcplen right_wnd_edge : ℕ) (x : Sender)
    → IsSending x
    → IsSending (old_ack ackno tcplen right_wnd_edge x)
unfolding old_ack
old_ack-IsSending ackno tcplen right_wnd_edge x h =
    elim (Bool-cases (
      tcplen == 0
      && u32 (x.snd_wl2 + x.snd_wnd) == right_wnd_edge
      && x.running
      && x.lastack == ackno)) [
        | inl duplicate ↦ rw duplicate (count_dupack-IsSending (record x { acked = 0 }) h)
        | inr other ↦ rw other h
      ]

pub update_snd_wnd-IsSending :
    (seqno ackno wnd : ℕ) (x : Sender) → IsSending x → IsSending (update_snd_wnd seqno ackno wnd x)
unfolding update_snd_wnd
update_snd_wnd-IsSending seqno ackno wnd x h =
    elim (Bool-cases (
      seq_lt x.snd_wl1 seqno
      || (x.snd_wl1 == seqno && seq_lt x.snd_wl2 ackno)
      || (x.snd_wl2 == ackno && ltb x.snd_wnd wnd))) [
        | inl does ↦ rw does h
        | inr does_not ↦ rw does_not h
      ]

pub estimate_rtt-IsSending :
    (tcp_ticks ackno : ℕ) (x : Sender) → IsSending x → IsSending (estimate_rtt tcp_ticks ackno x)
unfolding estimate_rtt
estimate_rtt-IsSending tcp_ticks ackno x h =
    elim (Bool-cases (not (x.rttest == 0) && seq_lt x.rtseq ackno)) [
      | inl does ↦ rw does h
      | inr does_not ↦ rw does_not h
    ]

-- Dividing by the window is defined, and it does not become 0.
pub grow_cwnd-IsSending : (x : Sender) → IsSending x → Gives IsSending (grow_cwnd x)
unfolding grow_cwnd
grow_cwnd-IsSending x h =
    if-Gives IsSending (ltb x.cwnd x.ssthresh) _ _
      (λ _. elim (Bool-cases (ltb x.cwnd (u16 (x.cwnd + x.mss)))) [
        | inl more ↦ rw more (h.0, (h.1.0, h.1.1, ground (arith, more), omega arith, h.1.4, h.1.5))
        | inr same ↦ rw same h
      ])
      (λ _.
        asserting-Gives IsSending (not (x.cwnd == 0)) _ (ground (arith, h.1.2))
          (elim (Bool-cases (ltb x.cwnd (u16 (x.cwnd + x.mss * x.mss / x.cwnd)))) [
            | inl more ↦
                rw more (h.0, (h.1.0, h.1.1, positive x.cwnd _ more, omega arith, h.1.4, h.1.5))
            | inr same ↦ rw same h
          ]))
  where
    positive : (a b : ℕ) → ltb a b ≡ true → 0 < b
    positive a b e = ground arith
