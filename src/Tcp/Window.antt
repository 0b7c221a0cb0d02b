-- ===== src/Tcp/Window.antt =====
-- The receive window: what is announced, and how it moves.
use qladder.Prelude.{
  ℕ, ◌+◌, ◌-◌, ◌/◌, ◌^◌, ◌≤◌, ◌<◌, ◌≡◌, ◌⊎◌, inl, inr, refl, min, Option, Gives, Allows, if-Gives,
  Bool, true, false, arith, u16, u32, sub32, leb,
}
use qladder.Tcp.{Pcb, seq_gt, seq_geq, asserting, tcp_wnd, tcp_update_rcv_ann_wnd}

-- The window ends at `right`, below the wrap-around of sequence numbers; the announced edge is not
-- behind it, and near it.
abbrev pub IsWindow : ℕ → Pcb → Type 0
IsWindow right pcb =
    (pcb.rcv_nxt + pcb.rcv_wnd ≡ right)
    × (right < 2 ^ 32)
    × (pcb.rcv_wnd < 2 ^ 16)
    × (pcb.rcv_ann_right_edge ≤ right)
    × (right < pcb.rcv_ann_right_edge + 2 ^ 31)

-- The window that is announced ends within the window, and not before the edge announced earlier.
abbrev pub IsAnnounced : Pcb → Type 0
IsAnnounced pcb =
    (pcb.rcv_ann_right_edge ≤ pcb.rcv_nxt + pcb.rcv_ann_wnd) × (pcb.rcv_ann_wnd ≤ pcb.rcv_wnd)

pub asserting-Gives {ℓ} :
    {A : Type ℓ} (P : A → Type 0) (b : Bool) (x : Option A)
    → b ≡ true
    → Gives P x
    → Gives P (asserting b x)
asserting-Gives P true x e h = h
asserting-Gives P false x e h = absurd (ground arith)

pub asserting-Allows {ℓ} :
    {A : Type ℓ} (P : A → Type 0) (b : Bool) (x : Option A) → Allows P x → Allows P (asserting b x)
asserting-Allows P true x h = h
asserting-Allows P false x h = tt

abbrev pub IsUpdated : Pcb → Pcb × ℕ → Type 0
IsUpdated pcb r = IsAnnounced r.0 × (r.0 ≡ record pcb { rcv_ann_wnd = r.0.rcv_ann_wnd })

edge_behind :
    (nxt edge wnd right : ℕ)
    → nxt + wnd ≡ right
    → right < 2 ^ 32
    → wnd < 2 ^ 16
    → edge ≤ right
    → right < edge + 2 ^ 31
    → ((seq_gt nxt edge ≡ true) × (edge < nxt))
      ⊎ ((seq_gt nxt edge ≡ false) × (nxt ≤ edge) × (sub32 edge nxt ≡ edge - nxt))
edge_behind nxt edge wnd right h k l m n = ground arith

-- `tcp_update_rcv_ann_wnd` of a window that does not wrap around: no assertion fails, only the
-- announced window changes, it ends within the window, and the peer never sees its edge move back.
pub tcp_update_rcv_ann_wnd-IsUpdated :
    (right : ℕ) (pcb : Pcb)
    → IsWindow right pcb
    → Gives (IsUpdated pcb) (tcp_update_rcv_ann_wnd pcb)
unfolding tcp_update_rcv_ann_wnd
tcp_update_rcv_ann_wnd-IsUpdated right pcb h =
    if-Gives (IsUpdated pcb)
      (seq_geq (u32 (pcb.rcv_nxt + pcb.rcv_wnd))
        (u32 (pcb.rcv_ann_right_edge + min (tcp_wnd / 2) pcb.mss)))
      _ _ (λ wider. ((omega (arith, h.0, h.3), omega arith), refl))
      (λ narrow.
        elim (edge_behind pcb.rcv_nxt pcb.rcv_ann_right_edge pcb.rcv_wnd right h.0 h.1 h.2 h.3
          h.4) [
            | inl (past, before) ↦ rw past ((omega (arith, before), omega arith), refl)
            | inr (inside, after, rest) ↦
                let n : u16 (sub32 pcb.rcv_ann_right_edge pcb.rcv_nxt)
                    ≡ pcb.rcv_ann_right_edge - pcb.rcv_nxt =
                  omega (arith, rest, h.0, h.2, h.3) in
                let fits : leb (sub32 pcb.rcv_ann_right_edge pcb.rcv_nxt) 0xffff ≡ true =
                  ground (arith, rest, h.0, h.2, h.3) in
                rw (inside, fits, n) ((omega (arith, after), omega (arith, h.0, h.3)), refl)
          ])
