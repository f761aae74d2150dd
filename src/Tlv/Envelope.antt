-- ===== src/Tlv/Envelope.antt =====
-- What the codecs do around the parts of a TLV: its header read, its end, and its length.
use eigrpd.Base.{
  ℕ, ◌+◌, ◌-◌, ◌*◌, ◌/◌, ◌≤◌, ◌<◌, ◌≡◌, ap, ◌∙◌, fun_ext, true, false, Option, some, List, [], ◌∷◌,
  ◌++◌, ltb, leb, ◌==◌, u8, u16, arith,
}
use eigrpd.Stream.{Buffer, StreamLib, ◌>>=◌, over, bytes_w, with_bytes, remaining, get_endp}
use eigrpd.Stream.Runs.{Holds}
use eigrpd.Packet.Framing.{tlv_hdr_size}
use eigrpd.Tlv.{
  Frame, frame, open_tlv, known, enter, close, close_malformed, decode_abort, decode_skip,
  patch_length, seal,
}

-- The length takes the place that was kept for it.
over_patch :
    (b : ℕ → ℕ) (i a c x y z v : ℕ) (xs : List ℕ)
    → over (over b i (a ∷ c ∷ x ∷ y ∷ xs)) (i + 2) (z ∷ v ∷ []) ≡ over b i (a ∷ c ∷ z ∷ v ∷ xs)
over_patch b i a c x y z v xs = fun_ext λ j. ground arith

third : (b : ℕ → ℕ) (i d : ℕ) → b (i + 1 + 1) ≡ d → b (i + 2) ≡ d
third b i d e = ap b (omega arith) ∙ e

fourth : (b : ℕ → ℕ) (i e : ℕ) → b (i + 1 + 1 + 1) ≡ e → b (i + 2 + 1) ≡ e
fourth b i e h = ap b (omega arith) ∙ h

-- The stream inside the TLV that a frame describes.
abbrev pub inside : Buffer → ℕ → Buffer
inside s n = record s { getp = s.getp + 4; endp = s.getp + n }

abbrev pub frame_of : Buffer → ℕ → ℕ → Frame
frame_of s type n = record { type = type; length = n; tlv_end = s.getp + n; packet_end = s.endp }

module _ ⦃sl : StreamLib⦄ where
  pub patch_length_lem :
      (s : Buffer) (a c n : ℕ) (xs : List ℕ)
      → 4 ≤ n
      → n < 65536
      → s.getp ≤ s.endp
      → s.endp + n ≤ s.size
      → patch_length s.endp (with_bytes s (a ∷ c ∷ 0 ∷ 0 ∷ xs) n)
        ≡ (n, with_bytes s (a ∷ c ∷ bytes_w n ++ xs) n)
  unfolding patch_length ◌>>=◌ get_endp
  patch_length_lem s a c n xs h4 hn hg hs =
      let len : u16 (s.endp + n - s.endp) ≡ n = omega arith in
      rw
        (
          sl.set_endp_lem (with_bytes s (a ∷ c ∷ 0 ∷ 0 ∷ xs) n) (s.endp + 2) (omega arith)
              (omega arith),
          len,
        )
        (rw
          (
            sl.putw_lem (record (with_bytes s (a ∷ c ∷ 0 ∷ 0 ∷ xs) n) { endp = s.endp + 2 }) n
                (omega arith),
            sl.set_endp_lem
                (record s {
                  byte = over (over s.byte s.endp (a ∷ c ∷ 0 ∷ 0 ∷ xs)) (s.endp + 2) (bytes_w n);
                  endp = s.endp + 2 + 2;
                })
                (s.endp + n) (omega arith) (omega arith),
          )
          (ap (λ b. (n, record s { byte = b; endp = s.endp + n }))
            (over_patch s.byte s.endp a c 0 0 (u8 (n / 256)) (u8 n) xs)))

  pub seal_lem :
      (s : Buffer) (a c n encoded : ℕ) (xs : List ℕ)
      → 4 ≤ n
      → n < 65536
      → s.getp ≤ s.endp
      → s.endp + n ≤ s.size
      → seal s.endp (1 + encoded) (with_bytes s (a ∷ c ∷ 0 ∷ 0 ∷ xs) n)
        ≡ (n, with_bytes s (a ∷ c ∷ bytes_w n ++ xs) n)
  unfolding seal
  seal_lem s a c n encoded xs h4 hn hg hs =
      let some_bytes : (1 + encoded == 0) ≡ false = ground arith in
      rw some_bytes (patch_length_lem s a c n xs h4 hn hg hs)

  pub frame_lem :
      (min_length : ℕ → Option ℕ) (s : Buffer) (a c d e m type n : ℕ)
      → Holds s.byte s.getp (a ∷ c ∷ d ∷ e ∷ [])
      → a * 256 + c ≡ type
      → d * 256 + e ≡ n
      → min_length type ≡ some m
      → m ≤ n
      → 4 ≤ n
      → s.getp + n ≤ s.endp
      → s.endp ≤ s.size
      → frame min_length s ≡ (some (frame_of s type n), inside s n)
  unfolding frame open_tlv known enter ◌>>=◌ get_endp
  frame_lem min_length s a c d e m type n h et en em hm h4 hl hs =
      let enough : ltb (remaining s) tlv_hdr_size ≡ false = ground arith in
      let long : ltb n m ≡ false = ground arith in
      let inside_packet : ltb (remaining s) n ≡ false = ground arith in
      rw (enough, sl.getw_lem s (omega arith), h.0, h.1.0, et)
        (rw
          (
            sl.getw_lem (record s { getp = s.getp + 2 }) (omega arith),
            third s.byte s.getp d h.1.1.0,
            fourth s.byte s.getp e h.1.1.1.0,
            en,
            em,
            long,
            inside_packet,
            sl.set_endp_lem (record s { getp = s.getp + 2 + 2 }) (s.getp + n) (omega arith)
                (omega arith),
          )
          (ap (λ g. (some (frame_of s type n), record s { getp = g; endp = s.getp + n }))
            (omega arith)))

  pub close_lem :
      (s : Buffer) (type n g : ℕ)
      → g ≤ s.getp + n
      → s.getp + n ≤ s.endp
      → s.endp ≤ s.size
      → close (frame_of s type n) (record s { getp = g; endp = s.getp + n })
        ≡ (tt, record s { getp = s.getp + n })
  unfolding close decode_skip ◌>>=◌ get_endp
  close_lem s type n g hg hl hs =
      let fits : leb (s.getp + n) s.endp ≡ true = ground arith in
      rw (sl.set_endp_lem (record s { getp = g; endp = s.getp + n }) s.endp (omega arith) hs, fits)
        (sl.set_getp_lem (record s { getp = g }) (s.getp + n) (omega arith))

  pub close_malformed_lem :
      (s : Buffer) (type n g : ℕ)
      → g ≤ s.endp
      → s.endp ≤ s.size
      → close_malformed (frame_of s type n) (record s { getp = g; endp = s.getp + n })
        ≡ (tt, record s { getp = s.endp })
  unfolding close_malformed decode_abort ◌>>=◌ get_endp
  close_malformed_lem s type n g hg hs =
      rw (sl.set_endp_lem (record s { getp = g; endp = s.getp + n }) s.endp hg hs)
        (sl.set_getp_lem (record s { getp = g }) s.endp (omega arith))
