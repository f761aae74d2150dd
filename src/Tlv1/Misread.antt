-- ===== src/Tlv1/Misread.antt =====
-- The decoder of classic metrics on what their encoder writes: it counts the nexthop and does not
-- take it off the stream, so that each part is read four bytes early.
use eigrpd.Base.{
  ℕ, ◌+◌, ◌<◌, ◌≤◌, ◌≡◌, inl, inr, refl, true, none, some, List, [], ◌∷◌, ◌++◌, ltb, if◌then◌else◌,
  length, arith, Bool-cases,
}
use eigrpd.Metric.{Metrics, delay_to_scaled}
use eigrpd.State.{ExtData}
use eigrpd.Stream.{StreamLib, bytes_l}
use eigrpd.Stream.Reading.{
  Reads, Reads-pure, Reads-getc, Reads-getw, Reads-getl, Reads-has, Reads-bind, Reads-ret,
  Reads-assoc, Reads-pure_bind,
}
use eigrpd.Tlv.Address.{dest_bytes}
use eigrpd.Tlv.{Frame, ipv4_max_bitlen, addr_decode, addr_length}
use eigrpd.Tlv1.Parts.{
  external_fields, external_decode, metric_fields, metric_decode, nexthop_decode,
}
use eigrpd.Tlv1.Codec.{with_dest, with_metric, by_type, fields}
use eigrpd.Tlv1.Bytes.{Told, classic_type, classic_rest, classic_external_bytes, classic_size}

-- The bytes that are read before the decoder gives up, and those that it does not come to.
abbrev front_bytes : Metrics → List ℕ
front_bytes m =
    bytes_l (delay_to_scaled m.delay)
    ++ bytes_l m.bandwidth
    ++ m.mtu2 ∷ m.mtu1 ∷ m.mtu0 ∷ m.hop_count ∷ m.reliability ∷ []

abbrev pub misread : Told → List ℕ
misread c =
    bytes_l c.nexthop
    ++ ((if c.external then classic_external_bytes c.extdata else []) ++ front_bytes c.metric)

abbrev pub left : Told → List ℕ
left c = c.metric.load ∷ c.metric.tag ∷ c.metric.flags ∷ dest_bytes c.dest

pub rest_split : (c : Told) → classic_rest c ≡ misread c ++ left c
rest_split c = elim (Bool-cases c.external) [ inl on ↦ rw on refl | inr off ↦ rw off refl ]

pub length-misread : (c : Told) → length (misread c) + 4 ≤ classic_size c
length-misread c = elim (Bool-cases c.external) [
  | inl on ↦ rw on (omega arith)
  | inr off ↦ rw off (omega arith)
]

module _ ⦃sl : StreamLib⦄ where
  no_dest : (p : ℕ) → ipv4_max_bitlen < p → Reads addr_decode (p ∷ []) none
  unfolding addr_decode addr_length
  no_dest p h =
      let long : ltb ipv4_max_bitlen p ≡ true = ground arith in
      Reads-has _ 1 (p ∷ []) _ (omega arith) (Reads-getc _ p [] _ (rw long (Reads-pure none)))

  metric_any :
      (a b c d e f g h i j k l m n o p : ℕ)
      → (x : Metrics) × Reads metric_decode
          (a ∷ b ∷ c ∷ d ∷ e ∷ f ∷ g ∷ h ∷ i ∷ j ∷ k ∷ l ∷ m ∷ n ∷ o ∷ p ∷ [])
          (some (x, 16))
  unfolding metric_decode metric_fields
  metric_any a b c d e f g h i j k l m n o p = (
    _,
    Reads-has _ 16 _ _ (omega arith) (
        Reads-getl _ _ _ _ _ _ _ (
          Reads-getl _ _ _ _ _ _ _ (
            Reads-getc _ _ _ _ (
              Reads-getc _ _ _ _ (
                Reads-getc _ _ _ _ (
                  Reads-getc _ _ _ _ (
                    Reads-getc _ _ _ _ (
                      Reads-getc _ _ _ _
                        (Reads-getc _ _ _ _ (Reads-getc _ _ _ _ (Reads-pure _))))))))))),
  )

  external_any :
      (a b c d e f g h i j k l m n o p q r s t : ℕ)
      → (x : ExtData) × Reads external_decode
          (a ∷ b ∷ c ∷ d ∷ e ∷ f ∷ g ∷ h ∷ i ∷ j ∷ k ∷ l ∷ m ∷ n ∷ o ∷ p ∷ q ∷ r ∷ s ∷ t ∷ [])
          (some (x, 20))
  unfolding external_decode external_fields
  external_any a b c d e f g h i j k l m n o p q r s t = (
    _,
    Reads-has _ 20 _ _ (omega arith) (
        Reads-getl _ _ _ _ _ _ _ (
          Reads-getl _ _ _ _ _ _ _ (
            Reads-getl _ _ _ _ _ _ _ (
              Reads-getl _ _ _ _ _ _ _
                (Reads-getw _ _ _ _ _ (Reads-getc _ _ _ _ (Reads-getc _ _ _ _ (Reads-pure _)))))))),
  )

  no_metric :
      (fr : Frame) (bytes : ℕ) (x : ExtData) (a b c d e f g h i j k l m n o p q : ℕ)
      → ipv4_max_bitlen < q
      → Reads
          (with_metric fr bytes x)
          (a ∷ b ∷ c ∷ d ∷ e ∷ f ∷ g ∷ h ∷ i ∷ j ∷ k ∷ l ∷ m ∷ n ∷ o ∷ p ∷ q ∷ [])
          none
  unfolding with_metric with_dest
  no_metric fr bytes x a b c d e f g h i j k l m n o p q lt =
      Reads-bind _ _ _ _ _ _ (metric_any a b c d e f g h i j k l m n o p).1
        (Reads-ret _ _ _ _ _ (no_dest q lt) refl)

  pub fields-misread :
      (f : Frame) (c : Told)
      → f.type ≡ classic_type c.external
      → ipv4_max_bitlen < c.metric.reliability
      → Reads (fields f) (misread c) none
  unfolding fields nexthop_decode by_type with_metric
  fields-misread f c et lt = Reads-assoc _ _ _ _ _ (
      Reads-has _ 4 (misread c) _ (omega arith) (
        Reads-pure_bind _ _ _ _ (elim (Bool-cases c.external) [
          | inl on ↦
              rw (et, on)
                (Reads-bind _ _ _ _ _ _ (external_any _ _ _ _ _ _ _ _ _ _ _ _ _ _ _ _ _ _ _ _).1
                  (no_metric f _ _ _ _ _ _ _ _ _ _ _ _ _ _ _ _ _ _ _ lt))
          | inr off ↦ rw (et, off) (no_metric f _ _ _ _ _ _ _ _ _ _ _ _ _ _ _ _ _ _ _ lt)
        ])))
