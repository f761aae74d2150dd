-- ===== src/Tlv2/Advance.antt =====
-- The decoder of wide metrics on any bytes.
use eigrpd.Base.{
  ℕ, suc, ◌+◌, ◌≤◌, refl, inl, inr, not, ◌||◌, Option, none, some, ◌==◌, if◌then◌else◌, leb, arith,
  Bool-cases,
}
use eigrpd.Stream.{Buffer, S, ◌>>=◌, ◌>>◌, pure, StreamLib, has, remaining, word, long}
use eigrpd.Stream.Safe.{
  Moved, Safe, Safe-pure, Safe-getc, Safe-getw, Safe-getl, Safe-bind, Safe-has, Safe-if,
  Safe-choice, Safe-assoc, Safe-pure_bind, get_bytes-Safe, Moved-on, within_end, within_size,
}
use eigrpd.Tlv.{Frame, Fields, Parsed, dropped, close}
use eigrpd.Tlv.Envelope.{inside, frame_of}
use eigrpd.Tlv.Advance.{
  Advanced, Framed, skipped, entered, frame-Framed, addr_decode-Safe, close-Advanced,
  close_malformed-Advanced,
}
use eigrpd.Tlv2.{min_length, header_ext_size, af_ipv4}
use eigrpd.Tlv2.Parts.{
  get48, get48_from, external_decode, external_fields, metric_decode, metric_fields,
  skip_attributes,
}
use eigrpd.Tlv2.Codec.{with_dest, with_external, fields, finish, multiprotocol, body, parse}
use eigrpd.Metric.{Metrics}
use eigrpd.State.{ExtData}

module _ ⦃sl : StreamLib⦄ where
  -- A number of six bytes with what follows it.
  Safe-get48 :
      {A : Type 0} (n : ℕ) (k : ℕ → S A)
      → ((c : ℕ) → Safe n (k c))
      → Safe (suc (suc (suc (suc (suc (suc n)))))) (get48 >>= k)
  unfolding get48 get48_from
  Safe-get48 n k p = Safe-assoc _ _ _ _ (
      Safe-getc _ _ λ a. Safe-assoc _ _ _ _ (
        Safe-getc _ _ λ b. Safe-assoc _ _ _ _ (
          Safe-getc _ _ λ c. Safe-assoc _ _ _ _ (
            Safe-getc _ _ λ d. Safe-assoc _ _ _ _ (
              Safe-getc _ _
                λ e. Safe-assoc _ _ _ _ (Safe-getc _ _ λ f. Safe-pure_bind _ _ _ (p _)))))))

  external_decode-Safe : (x : ExtData) → Safe 0 (external_decode x)
  unfolding external_decode external_fields
  external_decode-Safe x =
      Safe-has 16 _
        (Safe-getl _ _ λ a. Safe-getl _ _ λ b.
          Safe-getl _ _ λ c. Safe-getw _ _ λ d. Safe-getc _ _ λ e. Safe-getc _ _ λ f. Safe-pure 0 _)
        (Safe-pure 0 _)

  skip_attributes-Safe : (n : ℕ) (m : Metrics) → Safe 0 (skip_attributes n m)
  unfolding skip_attributes
  skip_attributes-Safe n m =
      Safe-has n _ (Safe-bind n _ _ (get_bytes-Safe n) λ bs. Safe-pure 0 _) (Safe-pure 0 _)

  metric_decode-Safe : Safe 0 metric_decode
  unfolding metric_decode metric_fields
  metric_decode-Safe =
      Safe-has 24 _
        (Safe-getc _ _ λ a. Safe-getc _ _ λ b. Safe-getc _ _ λ c. Safe-getc _ _ λ d.
          Safe-getc _ _ λ e. Safe-getc _ _ λ f. Safe-getc _ _ λ g. Safe-getc _ _ λ h.
            Safe-get48 _ _ λ i.
              Safe-get48 _ _ λ j. Safe-getw _ _ λ k. Safe-getw _ _ λ l. skip_attributes-Safe _ _)
        (Safe-pure 0 _)

  with_dest-Safe :
      (f : Frame) (bytes : ℕ) (m : Metrics) (e : ExtData) (taken : ℕ)
      → Safe 0 (with_dest f bytes m e taken)
  unfolding with_dest
  with_dest-Safe f bytes m e taken =
      Safe-bind 0 _ _ addr_decode-Safe λ d.
        Safe-choice 0 d _ _ (Safe-pure 0 _) λ r. Safe-if 0 _ _ _ (Safe-pure 0 _) (Safe-pure 0 _)

  fields-Safe : (f : Frame) (rid : ℕ) → Safe 0 (fields f rid)
  unfolding fields with_external
  fields-Safe f rid = Safe-bind 0 _ _ metric_decode-Safe λ x.
      Safe-choice 0 x _ _ (Safe-pure 0 _) λ r.
        Safe-if 0 _ _ _
          (Safe-bind 0 _ _ (external_decode-Safe _)
            λ y. Safe-choice 0 y _ _ (Safe-pure 0 _) λ q. with_dest-Safe f _ _ _ _)
          (with_dest-Safe f _ _ _ _)

  finish-Advanced :
      (s u : Buffer) (type n : ℕ) (x : Option Fields)
      → Moved (inside s n) u
      → 4 ≤ n
      → s.getp + n ≤ s.endp
      → s.endp ≤ s.size
      → Advanced s (finish (frame_of s type n) x u).1
  unfolding finish ◌>>=◌
  finish-Advanced s u type n none m h4 hn l = close_malformed-Advanced s u type n m hn l
  finish-Advanced s u type n (some x) m h4 hn l = close-Advanced s u type n m h4 hn l

  -- What follows the multiprotocol header.
  abbrev rest : Frame → ℕ → ℕ → ℕ → S Parsed
  rest f afi tid rid =
      if not (afi == af_ipv4) || not (tid == 0)
      then (close f >> pure dropped)
      else (fields f rid >>= λ x. finish f x)

  rest-Advanced :
      (s u : Buffer) (type n afi tid rid : ℕ)
      → Moved (inside s n) u
      → 4 ≤ n
      → s.getp + n ≤ s.endp
      → s.endp ≤ s.size
      → Advanced s (rest (frame_of s type n) afi tid rid u).1
  unfolding ◌>>=◌
  rest-Advanced s u type n afi tid rid m h4 hn l =
      elim (Bool-cases (not (afi == af_ipv4) || not (tid == 0))) [
        | inl other ↦ rw other (close-Advanced s u type n m h4 hn l)
        | inr ours ↦ rw ours (
            finish-Advanced s _ type n _
              (Moved-on (inside s n) u _ m (
                (fields-Safe (frame_of s type n) rid).at u (within_end (inside s n) u m)
                  (within_size (inside s n) u m (omega arith))))
              h4 hn l)
      ]

  multiprotocol-Advanced :
      (s : Buffer) (type n : ℕ)
      → s.getp + n ≤ s.endp
      → s.endp ≤ s.size
      → 12 ≤ n
      → Advanced s (multiprotocol (frame_of s type n) (inside s n)).1
  unfolding multiprotocol ◌>>=◌
  multiprotocol-Advanced s type n hn l h12 =
      let f = frame_of s type n in
      let i = inside s n in
      let on : Advanced s
          (rest f (sl.getw i).0 (sl.getw (sl.getw i).1).0 (sl.getl (sl.getw (sl.getw i).1).1).0
            (sl.getl (sl.getw (sl.getw i).1).1).1).1 =
        rw
          (
            sl.getw_lem i (omega arith),
            sl.getw_lem (record i { getp = s.getp + 4 + 2 }) (omega arith),
            sl.getl_lem (record i { getp = s.getp + 4 + 2 + 2 }) (omega arith),
          )
          (rest-Advanced s (record i { getp = s.getp + 4 + 2 + 2 + 4 }) type n
            (word s.byte (s.getp + 4)) (word s.byte (s.getp + 4 + 2))
            (long s.byte (s.getp + 4 + 2 + 2))
            (record { same = refl; forth = omega arith; within = omega arith }) (omega arith) hn
            l) in
      on

  body-Advanced :
      (s : Buffer) (r : Option Frame × Buffer)
      → Framed s r
      → s.getp ≤ s.endp
      → s.endp ≤ s.size
      → Advanced s (body r.0 r.1).1
  unfolding body ◌>>=◌ has
  body-Advanced s _ (skipped t a) h l = a
  body-Advanced s _ (entered type n h4 hn) h l =
      elim (Bool-cases (leb header_ext_size (remaining (inside s n)))) [
        | inl enough ↦ rw enough (multiprotocol-Advanced s type n hn l (ground arith))
        | inr short ↦ rw short (
            close_malformed-Advanced s (inside s n) type n
              (record { same = refl; forth = omega arith; within = omega arith }) hn l)
      ]

  -- On any bytes, the decoder of wide metrics stays inside the packet: it changes nothing but the
  -- place to read at, which comes to the end of the packet or moves by a header at least.
  pub wide_advances : (s : Buffer) → s.getp ≤ s.endp → s.endp ≤ s.size → Advanced s (parse s).1
  unfolding parse ◌>>=◌
  wide_advances s h l =
      body-Advanced s _ (frame-Framed min_length s h l λ type m e. ground arith) h l
