-- ===== src/Tlv1/Advance.antt =====
-- The decoder of classic metrics on any bytes.
use eigrpd.Base.{ℕ, ◌+◌, ◌≤◌, Option, none, some, arith}
use eigrpd.Stream.{Buffer, ◌>>=◌, StreamLib}
use eigrpd.Stream.Safe.{
  Moved, Safe, Safe-pure, Safe-getc, Safe-getw, Safe-getl, Safe-bind, Safe-has, Safe-if,
  Safe-choice,
}
use eigrpd.Tlv.{Frame, Fields}
use eigrpd.Tlv.Envelope.{inside, frame_of}
use eigrpd.Tlv.Advance.{
  Advanced, Framed, skipped, entered, frame-Framed, addr_decode-Safe, close-Advanced,
  close_malformed-Advanced,
}
use eigrpd.Tlv1.{classic_min_length}
use eigrpd.Tlv1.Parts.{
  external_decode, external_fields, metric_decode, metric_fields, nexthop_decode,
}
use eigrpd.Tlv1.Codec.{with_dest, with_metric, by_type, fields, finish, body, parse}
use eigrpd.Metric.{Metrics}
use eigrpd.State.{ExtData}

module _ ⦃sl : StreamLib⦄ where
  metric_decode-Safe : Safe 0 metric_decode
  unfolding metric_decode metric_fields
  metric_decode-Safe =
      Safe-has 16 _
        (Safe-getl _ _ λ a. Safe-getl _ _ λ b. Safe-getc _ _ λ c. Safe-getc _ _ λ d.
          Safe-getc _ _ λ e. Safe-getc _ _ λ f.
            Safe-getc _ _
              λ g. Safe-getc _ _ λ h. Safe-getc _ _ λ i. Safe-getc _ _ λ j. Safe-pure 0 _)
        (Safe-pure 0 _)

  external_decode-Safe : Safe 0 external_decode
  unfolding external_decode external_fields
  external_decode-Safe =
      Safe-has 20 _
        (Safe-getl _ _ λ a. Safe-getl _ _ λ b. Safe-getl _ _ λ c.
          Safe-getl _ _ λ d. Safe-getw _ _ λ e. Safe-getc _ _ λ f. Safe-getc _ _ λ g. Safe-pure 0 _)
        (Safe-pure 0 _)

  with_dest-Safe :
      (f : Frame) (bytes : ℕ) (m : Metrics) (e : ExtData) → Safe 0 (with_dest f bytes m e)
  unfolding with_dest
  with_dest-Safe f bytes m e =
      Safe-bind 0 _ _ addr_decode-Safe λ d.
        Safe-choice 0 d _ _ (Safe-pure 0 _) λ r. Safe-if 0 _ _ _ (Safe-pure 0 _) (Safe-pure 0 _)

  with_metric-Safe : (f : Frame) (bytes : ℕ) (e : ExtData) → Safe 0 (with_metric f bytes e)
  unfolding with_metric
  with_metric-Safe f bytes e =
      Safe-bind 0 _ _ metric_decode-Safe
        λ x. Safe-choice 0 x _ _ (Safe-pure 0 _) λ r. with_dest-Safe f (bytes + r.1) r.0 e

  fields-Safe : (f : Frame) → Safe 0 (fields f)
  unfolding fields by_type nexthop_decode
  fields-Safe f = Safe-bind 0 _ _ (Safe-has 4 _ (Safe-pure _ _) (Safe-pure _ _)) λ n.
      Safe-if 0 _ _ _ (Safe-pure 0 _) (
        Safe-if 0 _ _ _
          (Safe-bind 0 _ _ external_decode-Safe
            λ x. Safe-choice 0 x _ _ (Safe-pure 0 _) λ r. with_metric-Safe f _ r.0)
          (with_metric-Safe f _ _))

  finish-Advanced :
      (s u : Buffer) (type n : ℕ) (x : Option Fields)
      → Moved (inside s n) u
      → 4 ≤ n
      → s.getp + n ≤ s.endp
      → s.endp ≤ s.size
      → Advanced s (finish (frame_of s type n) x u).1
  unfolding finish ◌>>=◌
  finish-Advanced s u type n none m h4 hn l = close_malformed-Advanced s u type n m hn l
  finish-Advanced s u type n (some x) m h4 hn l = close-Advanced s u type n m h4 hn l

  body-Advanced :
      (s : Buffer) (r : Option Frame × Buffer)
      → Framed s r
      → s.getp ≤ s.endp
      → s.endp ≤ s.size
      → Advanced s (body r.0 r.1).1
  unfolding body ◌>>=◌
  body-Advanced s _ (skipped t a) h l = a
  body-Advanced s _ (entered type n h4 hn) h l =
      finish-Advanced s _ type n _
        ((fields-Safe (frame_of s type n)).at (inside s n) (omega arith) (omega arith)) h4 hn l

  -- On any bytes, the decoder of classic metrics stays inside the packet: it changes nothing but
  -- the place to read at, which comes to the end of the packet or moves by a header at least.
  pub classic_advances : (s : Buffer) → s.getp ≤ s.endp → s.endp ≤ s.size → Advanced s (parse s).1
  unfolding parse ◌>>=◌
  classic_advances s h l =
      body-Advanced s _ (frame-Framed classic_min_length s h l λ type m e. ground arith) h l
