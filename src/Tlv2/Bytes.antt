-- ===== src/Tlv2/Bytes.antt =====
-- The parts of a TLV of wide metrics as bytes: what the encoder writes, the decoder reads back.
use eigrpd.Base.{
  ℕ, ◌+◌, ◌*◌, ◌/◌, ◌<◌, ◌≡◌, refl, some, List, [], ◌∷◌, ◌++◌, ◌==◌, if◌then◌else◌, u8, arith,
}
use eigrpd.Tlv.Address.{u8_id}
use eigrpd.Metric.{Metrics}
use eigrpd.State.{ExtData}
use eigrpd.Stream.{StreamLib, get_bytes, bytes_w, bytes_l}
use eigrpd.Stream.Reading.{
  Reads, Reads-pure, Reads-getc, Reads-getw, Reads-getl, Reads-bind, Reads-has, Reads-map,
  get_bytes-Reads, Reads-cast,
}
use eigrpd.Stream.Writing.{
  Puts, Puts-pure, Puts-putc, Puts-putw, Puts-putl, Puts-bind, Puts-cast, put_bytes-Puts,
}
use eigrpd.Tlv2.{metric_size, extdata_size, inaccessible}
use eigrpd.Tlv2.Parts.{
  get48_from, get48, put48, reachable, unreachable, skip_attributes, metric_fields, metric_decode,
  metric_encode, external_fields, external_decode, external_encode,
}

-- A number of six bytes, the high byte first.
abbrev pub bytes_48 : ℕ → List ℕ
bytes_48 n =
    u8 (n / 1099511627776)
    ∷ u8 (n / 4294967296)
    ∷ u8 (n / 16777216)
    ∷ u8 (n / 65536)
    ∷ u8 (n / 256)
    ∷ u8 n
    ∷ []

-- A metric as the wide codec writes it, without attributes.
abbrev pub metric_bytes : Metrics → List ℕ
metric_bytes m =
    0
      ∷ m.tag
      ∷ m.reliability
      ∷ m.load
      ∷ m.mtu2
      ∷ m.mtu1
      ∷ m.mtu0
      ∷ m.hop_count
      ∷ bytes_48 (unreachable m.delay)
    ++ bytes_48 (unreachable m.bandwidth)
    ++ 0 ∷ 0 ∷ 0 ∷ m.flags ∷ []

-- The fields of a metric inside the widths of the wide codec.
pub record IsWide (m : Metrics) : Type 0 where
  pub delay : m.delay < inaccessible
  pub bandwidth : m.bandwidth < inaccessible
  pub mtu0 : m.mtu0 < 256
  pub mtu1 : m.mtu1 < 256
  pub mtu2 : m.mtu2 < 256
  pub hop_count : m.hop_count < 256
  pub reliability : m.reliability < 256
  pub load : m.load < 256
  pub tag : m.tag < 256
  pub flags : m.flags < 256

reachable-unreachable : (n : ℕ) → n < inaccessible → reachable (unreachable n) ≡ n
reachable-unreachable n h = ground arith

unreachable_lt : (n : ℕ) → n < inaccessible → unreachable n < 281474976710656
unreachable_lt n h = ground arith

u8_high : (n : ℕ) → n < 256 → u8 (n / 256) ≡ 0
u8_high n h = omega arith

u8_word : (n : ℕ) → n < 256 → u8 (0 * 256 + n) ≡ n
u8_word n h = omega arith

join_48 :
    (n : ℕ)
    → n < 281474976710656
    → (((((0 * 256 + u8 (n / 1099511627776)) * 256 + u8 (n / 4294967296)) * 256 + u8 (n / 16777216))
                  * 256
                + u8 (n / 65536))
              * 256
            + u8 (n / 256))
          * 256
        + u8 n
      ≡ n
join_48 n h = omega arith

-- An external part as the wide codec writes it: the router's id stands for an originator of 0.
abbrev pub originator : ℕ → ExtData → ℕ
originator rid e = if e.orig == 0 then rid else e.orig

abbrev pub external_bytes : ℕ → ExtData → List ℕ
external_bytes rid e =
    bytes_l (originator rid e)
    ++ bytes_l e.as_number
    ++ bytes_l e.metric
    ++ bytes_w e.reserved
    ++ e.protocol ∷ e.flags ∷ []

-- The wide codec has no room for the tag: the reader keeps its own.
unfoldable pub external_read : ℕ → ExtData → ExtData → ExtData
external_read rid e x = record e { orig = originator rid e; tag = x.tag }

pub record IsExternal (e : ExtData) : Type 0 where
  pub orig : e.orig < 4294967296
  pub as_number : e.as_number < 4294967296
  pub metric : e.metric < 4294967296
  pub reserved : e.reserved < 65536
  pub protocol : e.protocol < 256
  pub flags : e.flags < 256

originator_lt :
    (rid : ℕ) (e : ExtData) → rid < 4294967296 → e.orig < 4294967296 → originator rid e < 4294967296
originator_lt rid e p q = ground arith

pub join_l :
    (n : ℕ)
    → n < 4294967296
    → ((u8 (n / 16777216) * 256 + u8 (n / 65536)) * 256 + u8 (n / 256)) * 256 + u8 n ≡ n
join_l n h = omega arith

pub join_w : (n : ℕ) → n < 65536 → u8 (n / 256) * 256 + u8 n ≡ n
join_w n h = omega arith

module _ ⦃sl : StreamLib⦄ where
  put48-Puts : (n : ℕ) → Puts (put48 n) (bytes_48 n) tt
  unfolding put48
  put48-Puts n = put_bytes-Puts _

  get48-Reads : (n : ℕ) → n < 281474976710656 → Reads get48 (bytes_48 n) n
  unfolding get48 get48_from
  get48-Reads n h =
      Reads-cast _ _ _ _ _
        (Reads-getc _ _ _ _ (
          Reads-getc _ _ _ _ (
            Reads-getc _ _ _ _
              (Reads-getc _ _ _ _ (Reads-getc _ _ _ _ (Reads-getc _ _ _ _ (Reads-pure _)))))))
        refl (join_48 n h)

  pub metric_encode-Puts : (m : Metrics) → IsWide m → Puts (metric_encode m) (metric_bytes m) tt
  unfolding metric_encode
  metric_encode-Puts m h =
      Puts-cast _ _ _ _
        (Puts-putc _ _ _ _ (
          Puts-putc _ _ _ _ (
            Puts-putc _ _ _ _ (
              Puts-putc _ _ _ _ (
                Puts-putc _ _ _ _ (
                  Puts-putc _ _ _ _ (
                    Puts-putc _ _ _ _ (
                      Puts-putc _ _ _ _ (
                        Puts-bind _ _ _ _ _ _ (put48-Puts (unreachable m.delay)) (
                          Puts-bind _ _ _ _ _ _ (put48-Puts (unreachable m.bandwidth))
                            (Puts-putw _ _ _ _ (Puts-putw _ _ _ _ (Puts-pure _)))))))))))))
        (rw
          (
            u8_id m.tag h.tag,
            u8_id m.reliability h.reliability,
            u8_id m.load h.load,
            u8_id m.mtu2 h.mtu2,
            u8_id m.mtu1 h.mtu1,
            u8_id m.mtu0 h.mtu0,
            u8_id m.hop_count h.hop_count,
            u8_high m.flags h.flags,
            u8_id m.flags h.flags,
          )
          refl)

  pub metric_decode-Reads :
      (m : Metrics) → IsWide m → Reads metric_decode (metric_bytes m) (some (m, metric_size))
  unfolding metric_decode metric_fields skip_attributes
  metric_decode-Reads m h = Reads-has _ metric_size (metric_bytes m) _ (omega arith) (
      Reads-cast _ _ _ _ _
        (Reads-getc _ _ _ _ (
          Reads-getc _ _ _ _ (
            Reads-getc _ _ _ _ (
              Reads-getc _ _ _ _ (
                Reads-getc _ _ _ _ (
                  Reads-getc _ _ _ _ (
                    Reads-getc _ _ _ _ (
                      Reads-getc _ _ _ _ (
                        Reads-bind _ _ _ _ _ _ (get48-Reads _ (unreachable_lt _ h.delay)) (
                          Reads-bind _ _ _ _ _ _ (get48-Reads _ (unreachable_lt _ h.bandwidth)) (
                            Reads-getw _ _ _ _ _ (
                              Reads-getw _ _ _ _ _ (
                                Reads-has _ 0 [] _ (omega arith) (
                                  Reads-map (get_bytes 0) _ [] []
                                    (get_bytes-Reads 0 [] refl)))))))))))))))
        refl
        (rw
          (
            reachable-unreachable m.delay h.delay,
            reachable-unreachable m.bandwidth h.bandwidth,
            u8_word m.flags h.flags,
          )
          refl))

  pub external_encode-Puts :
      (rid : ℕ) (e : ExtData)
      → IsExternal e
      → Puts (external_encode rid e) (external_bytes rid e) tt
  unfolding external_encode
  external_encode-Puts rid e h =
      Puts-cast _ _ _ _
        (Puts-putl _ _ _ _ (
          Puts-putl _ _ _ _ (
            Puts-putl _ _ _ _
              (Puts-putw _ _ _ _ (Puts-putc _ _ _ _ (Puts-putc _ _ _ _ (Puts-pure _)))))))
        (rw (u8_id e.protocol h.protocol, u8_id e.flags h.flags) refl)

  pub external_decode-Reads :
      (rid : ℕ) (e x : ExtData)
      → IsExternal e
      → rid < 4294967296
      → Reads
          (external_decode x)
          (external_bytes rid e)
          (some (external_read rid e x, extdata_size))
  unfolding external_decode external_fields external_read
  external_decode-Reads rid e x h hr = Reads-has _ extdata_size _ _ (omega arith) (
      Reads-cast _ _ _ _ _
        (Reads-getl _ _ _ _ _ _ _ (
          Reads-getl _ _ _ _ _ _ _ (
            Reads-getl _ _ _ _ _ _ _
              (Reads-getw _ _ _ _ _ (Reads-getc _ _ _ _ (Reads-getc _ _ _ _ (Reads-pure _)))))))
        refl
        (rw
          (
            join_l (originator rid e) (originator_lt rid e hr h.orig),
            join_l e.as_number h.as_number,
            join_l e.metric h.metric,
            join_w e.reserved h.reserved,
          )
          refl))
