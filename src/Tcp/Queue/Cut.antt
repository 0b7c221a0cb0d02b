-- ===== src/Tcp/Queue/Cut.antt =====
-- Segments cut and copied still carry their part of the stream.
use qladder.Prelude.{
  ℕ, ◌≤◌, ◌<◌, ◌≡◌, inl, refl, ap, ◌∙◌, List, [], ◌∷◌, Option, Gives, false, length, length-take,
  take, arith,
}
use qladder.Pbuf.{Pbuf, pbuf_realloc, pbuf_ref}
use qladder.Pbuf.Content.{content, IsPacket}
use qladder.Pbuf.Shrink.{Holds, pbuf_realloc-content, pbuf_realloc-length}
use qladder.Pbuf.Chain.{pbuf_ref-content}
use qladder.Tcp.{Segment, tcplen_of}
use qladder.Tcp.Queue.{cut}
use qladder.Tcp.Stream.{IsPart, Carries-take}

module _ (s : ℕ → Option ℕ) where
  -- What is left of `g`: its first `k` bytes, without FIN.
  abbrev pub IsCut : ℕ → Segment → Segment → Type 0
  IsCut k g c = IsPart s c × (c.seqno ≡ g.seqno) × (c.len ≡ k) × (c.fin ≡ false)

  realloc-Holds :
      (c : List Pbuf) (n : ℕ)
      → IsPacket c
      → 0 < length c
      → Holds (pbuf_realloc c n) (take n (content c))
  realloc-Holds [] n h k = absurd (omega arith)
  realloc-Holds (p ∷ r) n h k = pbuf_realloc-content p r n h

  pub cut-IsCut :
      (k : ℕ) (g : Segment) → IsPart s g → g.fin ≡ false → k ≤ g.len → Gives (IsCut k g) (cut k g)
  unfolding cut
  cut-IsCut k g part e h =
      let (c, freed, eq, bytes, packet) = realloc-Holds g.p k part.packet part.buffers in
      let plain : tcplen_of (record g { len = k; p = c }) ≡ k = rw (e, part.no_syn) (omega arith) in
      let full : tcplen_of g ≡ g.len = rw (e, part.no_syn) (omega arith) in
      rw eq (
        record {
          packet = packet;
          buffers = pbuf_realloc-length g.p k (c, freed) eq;
          size = ap length bytes ∙ length-take k (content g.p) ∙ omega (arith, part.size, h);
          bytes = rw bytes (Carries-take s g.seqno k (content g.p) part.bytes);
          end = inl e;
          no_syn = part.no_syn;
          short = omega (arith, plain, full, part.short, h);
          place = omega (arith, plain, full, part.place, h);
        },
        refl,
        refl,
        e,
      )

  pub copied-IsPart : (g : Segment) → IsPart s g → IsPart s (record g { p = pbuf_ref g.p })
  copied-IsPart g part =
      let (same, packet, size) = pbuf_ref-content g.p part.packet in
      record {
        packet = packet;
        buffers = rw size part.buffers;
        size = rw same part.size;
        bytes = rw same part.bytes;
        end = part.end;
        no_syn = part.no_syn;
        short = part.short;
        place = part.place;
      }
