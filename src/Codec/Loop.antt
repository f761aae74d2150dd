-- ===== src/Codec/Loop.antt =====
-- The decoders in the loop of the handlers: a packet's TLVs come to an end.
use eigrpd.Base.{ℕ, ◌-◌, ◌≤◌, ◌<◌, ◌≡◌, ap, inl, inr, Option, none, some, arith}
use eigrpd.LinkList.{LinkList}
use eigrpd.State.{World, M, fault, ◌>>=◌, and_then}
use eigrpd.Stream.{Buffer, S, StreamLib}
use eigrpd.Tlv.{Parsed}
use eigrpd.Tlv.Advance.{Advanced}
use eigrpd.Tlv1.Codec as Classic
use eigrpd.Tlv1.Advance.{classic_advances}
use eigrpd.Tlv2.Codec as Wide
use eigrpd.Tlv2.Advance.{wide_advances}
use eigrpd.Codec.{Packet, read_on, build, decoder_of, classic_decoder, wide_decoder}
use eigrpd.Receive.{receive_from}
use eigrpd.Receive.Loop.{Consumes, receive_from_ends}

-- The packet that a result holds.
abbrev packet_of : Packet → Option ((Option ℕ × Packet) × World) → Packet
packet_of p none = p
packet_of p (some r) = r.0.1

result_packet :
    (o : Option (Option ℕ × World)) (p q : Packet) (r : Option ℕ) (v : World)
    → and_then {B = Option ℕ × Packet} o (λ a w. some ((a, p), w)) ≡ some ((r, q), v)
    → p ≡ q
result_packet none p q r v e = ap (packet_of p) e
result_packet (some x) p q r v e = ap (packet_of p) e

left_over : (s t : Buffer) → Advanced s t → 0 < s.endp - s.getp → t.endp - t.getp < s.endp - s.getp
left_over s t a h =
    let end : t.endp ≡ s.endp = ap (λ b. b.endp) a.same in
    elim a.forth [
      | inl more ↦ omega (arith, more, end, a.within, h)
      | inr all ↦ omega (arith, all, end, h)
    ]

module _ ⦃ll : LinkList⦄ where
  -- A parser that stays inside the packet and moves takes bytes off the packet, whatever it makes
  -- of them.
  pub decoder_of_moves :
      (parse : S Parsed)
      (advances : (s : Buffer) → s.getp ≤ s.endp → s.endp ≤ s.size → Advanced s (parse s).1)
      (nbr : ℕ) (o : Option ℕ) (s t : Packet) (w v : World)
      → 0 < (decoder_of parse advances).remaining s
      → (decoder_of parse advances).decode nbr s w ≡ some ((o, t), v)
      → (decoder_of parse advances).remaining t < (decoder_of parse advances).remaining s
  unfolding decoder_of ◌>>=◌
  decoder_of_moves parse advances nbr o s t w v h e =
      let a : Advanced s.stream (parse s.stream).1 = advances s.stream s.read s.held in
      let same : read_on s (parse s.stream).1 a ≡ t =
        result_packet (build nbr (parse s.stream).0 w) (read_on s (parse s.stream).1 a) t o v e in
      let less : (parse s.stream).1.endp - (parse s.stream).1.getp < s.stream.endp - s.stream.getp =
        left_over s.stream (parse s.stream).1 a h in
      let end : (parse s.stream).1.endp ≡ t.stream.endp = ap (λ p. p.stream.endp) same in
      let getp : (parse s.stream).1.getp ≡ t.stream.getp = ap (λ p. p.stream.getp) same in
      omega (arith, less, end, getp)

  decoder_of-Consumes :
      (parse : S Parsed)
      (advances : (s : Buffer) → s.getp ≤ s.endp → s.endp ≤ s.size → Advanced s (parse s).1)
      → Consumes (decoder_of parse advances)
  unfolding Consumes
  decoder_of-Consumes parse advances nbr route s t w v h e =
      decoder_of_moves parse advances nbr (some route) s t w v h e

  module _ ⦃sl : StreamLib⦄ where
    abbrev pub left : Packet → ℕ
    left p = p.stream.endp - p.stream.getp

    -- The loop of the handlers over a packet of any bytes comes to its end with either decoder: it
    -- makes no more rounds than the packet has bytes left, as the handlers give it, since what it
    -- would do after them (`out`, which may be anything) changes no result, of a fault or of an end.
    pub codec_rounds_enough :
        (out : M (Unit {0})) (n opcode nbr : ℕ) (p : Packet) (w : World)
        → left p ≤ n
        → (receive_from classic_decoder out n opcode nbr p w
            ≡ receive_from classic_decoder fault (left p) opcode nbr p w)
          × (receive_from wide_decoder out n opcode nbr p w
              ≡ receive_from wide_decoder fault (left p) opcode nbr p w)
    unfolding classic_decoder wide_decoder decoder_of
    codec_rounds_enough out n opcode nbr p w h = (
      receive_from_ends _ (decoder_of-Consumes Classic.parse classic_advances) out n opcode nbr p w
          h,
      receive_from_ends _ (decoder_of-Consumes Wide.parse wide_advances) out n opcode nbr p w h,
    )
