-- ===== src/Tcp/Receive/Delivery.antt =====
-- What `tcp_receive` delivers.
use qladder.Prelude.{
  ℕ, ◌+◌, ◌-◌, ◌^◌, ◌≤◌, ◌<◌, ◌≡◌, ◌⊎◌, inl, inr, refl, ap, sym, ◌∙◌, subst, List, [], ◌∷◌, ◌++◌,
  append-nil, Option, none, Gives, >>=-Gives, if-Gives, Bool, true, false, ◌||◌, if◌then◌else◌,
  length, length-append, arith, u32, sub16, ltb, leb, ◌==◌, Bool-cases,
}
use qladder.Pbuf.{Pbuf}
use qladder.Pbuf.Content.{content, IsPacket}
use qladder.Pbuf.Chain.{pbuf_cat-content, length-content}
use qladder.Tcp.{State, Segment, Pcb, tcplen_of, tcp_update_rcv_ann_wnd}
use qladder.Tcp.Stream.{IsPart, Carries, Carries-append}
use qladder.Tcp.Window.{
  IsWindow, IsAnnounced, IsUpdated, asserting-Gives, tcp_update_rcv_ann_wnd-IsUpdated,
}
use qladder.Tcp.Queue.Sorted.{IsQueue, len_le}
use qladder.Tcp.Receive.{Received, advance, append_data, dequeue_loop, passive_close}

abbrev IsMoved : ℕ → ℕ → Pcb → Pcb → Type 0
IsMoved right n pcb r =
    IsWindow right r × (r.rcv_nxt ≡ pcb.rcv_nxt + n) × (r.ooseq ≡ pcb.ooseq) × (r.state ≡ pcb.state)

-- The window has moved on by `n`; its end is where it was, and so much is announced as there is.
abbrev pub IsAdvanced : ℕ → ℕ → Pcb → Pcb → Type 0
IsAdvanced right n pcb r =
    IsWindow right r
    × (r.rcv_nxt ≡ pcb.rcv_nxt + n)
    × (r.ooseq ≡ pcb.ooseq)
    × (r.state ≡ pcb.state)
    × IsAnnounced r

pub advance-IsAdvanced :
    (right rcv_nxt n : ℕ) (pcb : Pcb)
    → IsWindow right pcb
    → rcv_nxt ≡ pcb.rcv_nxt + n
    → n ≤ pcb.rcv_wnd
    → Gives (IsAdvanced right n pcb) (advance rcv_nxt n pcb)
unfolding advance
advance-IsAdvanced right rcv_nxt n pcb h e fits =
    let moved : Pcb = record pcb { rcv_nxt = rcv_nxt; rcv_wnd = sub16 pcb.rcv_wnd n } in
    let less : sub16 pcb.rcv_wnd n ≡ pcb.rcv_wnd - n = omega (arith, h.2) in
    let window : IsWindow right moved =
      (omega (arith, e, h.0, less), h.1, omega (arith, less, h.2), h.3, h.4) in
    asserting-Gives (IsAdvanced right n pcb) (leb n pcb.rcv_wnd) _ (ground arith) (
      >>=-Gives (IsUpdated moved) (IsAdvanced right n pcb) (tcp_update_rcv_ann_wnd moved) _
        (tcp_update_rcv_ann_wnd-IsUpdated right moved window)
        λ r updated.
          let m : IsMoved right n pcb r.0 =
            subst (IsMoved right n pcb) (sym updated.1) (window, e, refl, refl) in
          (m.0, m.1, m.2, m.3, updated.0))

no_bytes : (xs : List ℕ) → length xs ≡ 0 → xs ≡ []
no_bytes [] h = refl
no_bytes (x ∷ xs) h = absurd (omega arith)

no_content :
    (q : Pbuf) (r : List Pbuf) → IsPacket (q ∷ r) → ltb 0 q.tot_len ≡ false → content (q ∷ r) ≡ []
no_content q r h e = no_bytes (content (q ∷ r)) (length-content q r h ∙ ground (arith, h.1))

-- Joining the buffers of a segment: the bytes follow each other.
pub append_data-content :
    (d c : List Pbuf)
    → IsPacket d
    → IsPacket c
    → 0 < length c
    → length (content d) + length (content c) < 2 ^ 16
    → Gives (λ e. IsPacket e × (content e ≡ content d ++ content c)) (append_data d c)
unfolding append_data
append_data-content d [] h k pos fits = absurd (omega arith)
append_data-content [] (q ∷ r) h k pos fits = elim (Bool-cases (ltb 0 q.tot_len)) [
  | inl some_bytes ↦ rw some_bytes (k, refl)
  | inr nothing ↦ rw nothing (tt, sym (no_content q r k nothing))
]
append_data-content (p ∷ e) (q ∷ r) h k pos fits = elim (Bool-cases (ltb 0 q.tot_len)) [
  | inl some_bytes ↦
      let (bytes, packet) = pbuf_cat-content p e (q ∷ r) h k fits in rw some_bytes (packet, bytes)
  | inr nothing ↦ rw nothing (
    h,
    sym (ap (λ x. content (p ∷ e) ++ x) (no_content q r k nothing) ∙ append-nil (content (p ∷ e))),
  )
]

abbrev pub one_if : Bool → ℕ
one_if true = 1
one_if false = 0

module _ (s : ℕ → Option ℕ) where
  pub tcplen-one_if : (g : Segment) → IsPart s g → tcplen_of g ≡ g.len + one_if g.fin
  tcplen-one_if g part = count g.fin g.syn g.len part.no_syn
    where
      count :
          (fin syn : Bool) (n : ℕ)
          → syn ≡ false
          → n + (if fin || syn then 1 else 0) ≡ n + one_if fin
      count true syn n e = refl
      count false syn n e = rw e refl

module _ (s : ℕ → Option ℕ) (first right : ℕ) where
  -- The bytes for the application are the stream's from `first` on; with FIN, which counts one, the
  -- number that is expected next is the one behind them. Where there is FIN the stream has ended.
  abbrev pub IsDelivered : Pcb → List Pbuf → Bool → Type 0
  IsDelivered pcb recv_data got_fin =
      IsWindow right pcb
      × IsPacket recv_data
      × Carries s first (content recv_data)
      × (pcb.rcv_nxt ≡ first + length (content recv_data) + one_if got_fin)
      × IsAnnounced pcb
      × ((got_fin ≡ false) ⊎ (s (first + length (content recv_data)) ≡ none))

  abbrev pub IsOutcome : Received → Type 0
  IsOutcome y = IsDelivered y.pcb y.recv_data y.got_fin × IsQueue s y.pcb.rcv_nxt right y.pcb.ooseq

  -- One segment more.
  pub joined-IsDelivered :
      (c : Segment) (pcb moved : Pcb) (d e : List Pbuf)
      → IsDelivered pcb d false
      → IsPart s c
      → c.seqno ≡ pcb.rcv_nxt
      → IsAdvanced right (tcplen_of c) pcb moved
      → IsPacket e
      → content e ≡ content d ++ content c.p
      → IsDelivered moved e c.fin
  joined-IsDelivered c pcb moved d e h part at adv packet bytes =
      let place : pcb.rcv_nxt ≡ first + length (content d) = omega (arith, h.3) in
      let size : length (content e) ≡ length (content d) + length (content c.p) =
        ap length bytes ∙ length-append (content d) (content c.p) in
      let carried : Carries s (first + length (content d)) (content c.p) =
        subst (λ n. Carries s n (content c.p)) (at ∙ place) part.bytes in
      (
        adv.0,
        packet,
        rw bytes (Carries-append s first (content d) (content c.p) h.2 carried),
        omega (arith, adv.1, place, size, part.size, tcplen-one_if s c part),
        adv.4,
        elim part.end [
          | inl more ↦ inl more
          | inr stop ↦
              let e : first + length (content e) ≡ c.seqno + c.len =
                omega (arith, size, place, at, part.size) in
              inr (ap s e ∙ stop)
        ],
      )

  -- What a FIN does to the state concerns none of this.
  with_state :
      (b : Bool) (pcb : Pcb) (st : State) (d : List Pbuf) (f : Bool)
      → IsDelivered pcb d f
      → IsDelivered (if b then record pcb { state = st } else pcb) d f
  with_state true pcb st d f h = h
  with_state false pcb st d f h = h

  with_state_nxt :
      (b : Bool) (pcb : Pcb) (st : State)
      → (if b then record pcb { state = st } else pcb).rcv_nxt ≡ pcb.rcv_nxt
  with_state_nxt true pcb st = refl
  with_state_nxt false pcb st = refl

  pub dequeue_loop-IsOutcome :
      (q : List Segment) (pcb : Pcb) (d : List Pbuf) (f : Bool)
      → right < first + 2 ^ 16
      → IsDelivered pcb d f
      → IsQueue s pcb.rcv_nxt right q
      → (f ≡ false) ⊎ (q ≡ [])
      → Gives IsOutcome (dequeue_loop q (record { pcb = pcb; recv_data = d; got_fin = f }))
  unfolding dequeue_loop
  dequeue_loop-IsOutcome [] pcb d f near h k last = (h, tt)
  dequeue_loop-IsOutcome (c ∷ r) pcb d true near h k last =
      absurd (elim last [ inl e ↦ ground arith | inr e ↦ ground arith ])
  dequeue_loop-IsOutcome (c ∷ r) pcb d false near h k last =
      if-Gives IsOutcome (c.seqno == pcb.rcv_nxt) _ _
        (λ same.
          let e : c.seqno ≡ pcb.rcv_nxt = ground arith in
          let next : u32 (pcb.rcv_nxt + tcplen_of c) ≡ pcb.rcv_nxt + tcplen_of c =
            omega (arith, e, k.2.place) in
          >>=-Gives (IsAdvanced right (tcplen_of c) pcb) IsOutcome
            (advance (u32 (pcb.rcv_nxt + tcplen_of c)) (tcplen_of c) pcb) _
            (advance-IsAdvanced right _ (tcplen_of c) pcb h.0 next (omega (arith, k.1, e, h.0.0)))
            λ moved adv.
              >>=-Gives (λ x. IsPacket x × (content x ≡ content d ++ content c.p)) IsOutcome
                (append_data d c.p) _
                (append_data-content d c.p h.1 k.2.packet k.2.buffers
                  (omega (arith, h.3, k.1, e, k.2.size, len_le s c, near)))
                λ x joined.
                  let now = joined-IsDelivered c pcb moved d x h k.2 e adv joined.0 joined.1 in
                  let at : (if c.fin
                        then record moved { state = passive_close moved.state }
                        else moved).rcv_nxt
                      ≡ c.seqno + tcplen_of c =
                    with_state_nxt c.fin moved (passive_close moved.state)
                    ∙ omega (arith, adv.1, e) in
                  let fin : (c.fin || false) ≡ c.fin = or_false c.fin in
                  rw fin (
                    dequeue_loop-IsOutcome r _ x c.fin near
                      (with_state c.fin moved (passive_close moved.state) x c.fin now) (rw at k.4)
                      k.3))
        (λ _. (h, k))
    where
      or_false : (b : Bool) → (b || false) ≡ b
      or_false true = refl
      or_false false = refl
