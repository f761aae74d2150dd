-- ===== src/Tlv/Advance.antt =====
-- The two codecs on any bytes: a round stays inside the packet and takes at least a TLV's header
-- off it, or the rest of it.
use eigrpd.Base.{
  ℕ, ◌+◌, ◌≤◌, ◌≡◌, ◌⊎◌, refl, inl, inr, true, ◌&&◌, ◌||◌, Option, none, some, ltb, leb, arith,
  Bool-cases,
}
use mathlib.Core.Path.{subst}
use eigrpd.Stream.{Buffer, ◌>>=◌, pure, StreamLib, word, remaining, get_endp}
use eigrpd.Stream.Safe.{
  Moved, Safe, Safe-pure, Safe-getc, Safe-bind, Safe-has, Safe-if, get_bytes-Safe,
}
use eigrpd.Packet.Framing.{tlv_hdr_size}
use eigrpd.Tlv.{
  Frame, frame, close, close_malformed, open_tlv, known, enter, skip_unknown, decode_abort,
  decode_skip, addr_decode, addr_length, addr_bits, prefix_bytes, ipv4_max_bitlen,
}
use eigrpd.Tlv.Envelope.{inside, frame_of, close_lem, close_malformed_lem}

-- `t` is `s` read a header further at least, or to its end.
pub record Advanced (s t : Buffer) : Type 0 where
  pub same : t ≡ record s { getp = t.getp }
  pub forth : (s.getp + 4 ≤ t.getp) ⊎ (t.getp ≡ s.endp)
  pub within : t.getp ≤ s.endp

pub Advanced-to :
    (s : Buffer) (g : ℕ)
    → (s.getp + 4 ≤ g) ⊎ (g ≡ s.endp)
    → g ≤ s.endp
    → Advanced s (record s { getp = g })
Advanced-to s g f w = record { same = refl; forth = f; within = w }

-- What the reader of a header gives: no TLV, and the packet read further, or a TLV inside it.
pub data Framed (s : Buffer) : Option Frame × Buffer → Type 0 where
  skipped : (t : Buffer) → Advanced s t → Framed s (none, t)
  entered :
      (type n : ℕ) → 4 ≤ n → s.getp + n ≤ s.endp → Framed s (some (frame_of s type n), inside s n)

module _ ⦃sl : StreamLib⦄ where
  abort_lem :
      (s : Buffer) (g : ℕ)
      → s.endp ≤ s.size
      → decode_abort (record s { getp = g }) ≡ (tt, record s { getp = s.endp })
  unfolding decode_abort ◌>>=◌ get_endp
  abort_lem s g h = sl.set_getp_lem (record s { getp = g }) s.endp (omega arith)

  abort_Framed :
      (s : Buffer) (g : ℕ)
      → s.endp ≤ s.size
      → Framed s ((decode_abort >>= λ _. pure none) (record s { getp = g }))
  unfolding ◌>>=◌
  abort_Framed s g h =
      let framed : Framed s (none, (decode_abort (record s { getp = g })).1) =
        rw (abort_lem s g h) (skipped _ (Advanced-to s s.endp (inr refl) (omega arith))) in
      framed

  skip_Framed :
      (s : Buffer) (n : ℕ)
      → s.getp + 4 ≤ s.endp
      → s.endp ≤ s.size
      → Framed s (skip_unknown s.getp n (remaining s) (record s { getp = s.getp + 4 }))
  unfolding skip_unknown decode_skip ◌>>=◌ get_endp
  skip_Framed s n h l = elim (Bool-cases (leb tlv_hdr_size n && leb n (remaining s))) [
    | inl believed ↦
        (let fits : leb (s.getp + n) s.endp ≡ true = ground arith in
          rw
            (
              believed,
              fits,
              sl.set_getp_lem (record s { getp = s.getp + 4 }) (s.getp + n) (ground arith),
            )
            (skipped _ (Advanced-to s (s.getp + n) (inl (ground arith)) (ground arith))))
    | inr bad ↦ rw bad (abort_Framed s (s.getp + 4) l)
  ]

  enter-Framed :
      (s : Buffer) (type n m : ℕ)
      → s.getp + 4 ≤ s.endp
      → s.endp ≤ s.size
      → 4 ≤ m
      → Framed s (enter s.getp (remaining s) type n m (record s { getp = s.getp + 4 }))
  unfolding enter ◌>>=◌ get_endp
  enter-Framed s type n m h l h4 = elim (Bool-cases (ltb n m || ltb (remaining s) n)) [
    | inl bad ↦ rw bad (abort_Framed s (s.getp + 4) l)
    | inr good ↦
        rw
          (
            good,
            sl.set_endp_lem (record s { getp = s.getp + 4 }) (s.getp + n) (ground arith)
                (ground arith),
          )
          (entered type n (ground arith) (ground arith))
  ]

  known-Framed :
      (s : Buffer) (type n : ℕ) (least : Option ℕ)
      → s.getp + 4 ≤ s.endp
      → s.endp ≤ s.size
      → ((m : ℕ) → least ≡ some m → 4 ≤ m)
      → Framed s (known s.getp (remaining s) type n least (record s { getp = s.getp + 4 }))
  unfolding known
  known-Framed s type n none h l h4 = skip_Framed s n h l
  known-Framed s type n (some m) h l h4 = enter-Framed s type n m h l (h4 m refl)

  pub frame-Framed :
      (min_length : ℕ → Option ℕ) (s : Buffer)
      → s.getp ≤ s.endp
      → s.endp ≤ s.size
      → ((type m : ℕ) → min_length type ≡ some m → 4 ≤ m)
      → Framed s (frame min_length s)
  unfolding frame open_tlv ◌>>=◌
  frame-Framed min_length s h l h4 = elim (Bool-cases (ltb (remaining s) tlv_hdr_size)) [
    | inl short ↦ rw short (abort_Framed s s.getp l)
    | inr long ↦
        rw
          (
            long,
            sl.getw_lem s (ground arith),
            sl.getw_lem (record s { getp = s.getp + 2 }) (ground arith),
          )
          (subst
            (λ g. Framed s (
              known s.getp (remaining s) (word s.byte s.getp) (word s.byte (s.getp + 2))
                (min_length (word s.byte s.getp)) (record s { getp = g })))
            (omega arith)
            (known-Framed s (word s.byte s.getp) (word s.byte (s.getp + 2)) _ (ground arith) l
              (h4 (word s.byte s.getp))))
  ]

  -- The destination's part, on any bytes.
  pub addr_decode-Safe : Safe 0 addr_decode
  unfolding addr_decode addr_length addr_bits
  addr_decode-Safe =
      Safe-has 1 _
        (Safe-getc 0 _ λ prefixlen. Safe-if 0 (ltb ipv4_max_bitlen prefixlen) _ _ (Safe-pure 0 _) (
          Safe-has (prefix_bytes prefixlen) _
            (Safe-bind (prefix_bytes prefixlen) _ _ (get_bytes-Safe _) λ bs. Safe-pure 0 _)
            (Safe-pure 0 _)))
        (Safe-pure 0 _)

  -- The two ends of a decoder, from any place inside the TLV.
  pub close-Advanced :
      (s u : Buffer) (type n : ℕ)
      → Moved (inside s n) u
      → 4 ≤ n
      → s.getp + n ≤ s.endp
      → s.endp ≤ s.size
      → Advanced s (close (frame_of s type n) u).1
  close-Advanced s u type n m h4 hn l =
      rw (m.same, close_lem s type n u.getp m.within hn l)
        (Advanced-to s (s.getp + n) (inl (omega arith)) hn)

  pub close_malformed-Advanced :
      (s u : Buffer) (type n : ℕ)
      → Moved (inside s n) u
      → s.getp + n ≤ s.endp
      → s.endp ≤ s.size
      → Advanced s (close_malformed (frame_of s type n) u).1
  close_malformed-Advanced s u type n m hn l =
      rw (m.same, close_malformed_lem s type n u.getp (omega (arith, m.within)) l)
        (Advanced-to s s.endp (inr refl) (omega arith))
