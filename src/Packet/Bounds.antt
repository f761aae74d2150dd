-- ===== src/Packet/Bounds.antt =====
-- The walk over the TLVs stays inside the packet and comes to an end.
use eigrpd.Base.{
  ℕ, zero, suc, ◌+◌, ◌-◌, ◌*◌, ◌≤◌, ◌<◌, ◌≡◌, refl, inl, inr, Bool, false, ◌||◌, Option, none, some,
  ltb, ◌==◌, u16, arith, Bool-cases, ltb→lt,
}
use eigrpd.Packet.Framing.{
  Framing, malformed, framed, find_from, auth_tlv_find, read_u16, header_len, tlv_hdr_size,
  tlv_auth,
}

-- A buffer whose first bytes, up to a length, can be read.
abbrev pub Readable : (ℕ → Option ℕ) → ℕ → Type 0
Readable byte length = (i : ℕ) → i < length → (b : ℕ) × (byte i ≡ some b) × (b < 256)

-- The authentication TLV that is found has its header inside the packet, behind the packet's.
abbrev pub Inside : ℕ → Option ℕ → Type 0
Inside length none = Unit
Inside length (some offset) = (header_len ≤ offset) × (offset + tlv_hdr_size ≤ length)

abbrev pub IsInside : ℕ → Framing → Type 0
IsInside length malformed = Unit
IsInside length (framed auth first) = Inside length auth

read_u16-Readable :
    (byte : ℕ → Option ℕ) (length i : ℕ)
    → Readable byte length
    → i + 1 < length
    → (x : ℕ) × (read_u16 byte i ≡ some x) × (x < 65536)
read_u16-Readable byte length i h p = read (h i (omega arith)) (h (i + 1) p)
  where
    read :
        (a : ℕ) × (byte i ≡ some a) × (a < 256)
        → (b : ℕ) × (byte (i + 1) ≡ some b) × (b < 256)
        → (x : ℕ) × (read_u16 byte i ≡ some x) × (x < 65536)
    read (a, ea, la) (b, eb, lb) = (a * 256 + b, (rw (ea, eb) refl), omega arith)

-- The next offset: behind the TLV, and not behind the packet.
next_offset :
    (length offset size : ℕ)
    → length < 65536
    → offset < length
    → (ltb size tlv_hdr_size || ltb (length - offset) size) ≡ false
    → (offset + tlv_hdr_size ≤ u16 (offset + size)) × (u16 (offset + size) ≤ length)
next_offset length offset size w more good = (ground (arith, good), ground (arith, good))

find_from-IsInside :
    (fuel : ℕ) (byte : ℕ → Option ℕ) (length offset : ℕ) (auth : Option ℕ) (first : Bool)
    → Readable byte length
    → length < 65536
    → header_len ≤ offset
    → offset ≤ length
    → length < offset + fuel
    → Inside length auth
    → (r : Framing) × (find_from fuel byte length offset auth first ≡ some r) × IsInside length r
unfolding find_from
find_from-IsInside zero byte length offset auth first h w b e f i = absurd (omega arith)
find_from-IsInside (suc fuel) byte length offset auth first h w b e f i =
    elim (Bool-cases (ltb offset length)) [
      | inr end ↦ (framed auth first, (rw end refl), i)
      | inl more ↦ elim (Bool-cases (ltb (length - offset) tlv_hdr_size)) [
        | inl short ↦ (malformed, (rw (more, short) refl), tt)
        | inr long ↦
            (let lt : offset < length = ltb→lt offset length more in
              let (t, et, lt_t) = read_u16-Readable byte length offset h (ground (arith, long)) in
              let (s, es, lt_s) =
                read_u16-Readable byte length (offset + 2) h (ground (arith, long)) in
              elim (Bool-cases (ltb s tlv_hdr_size || ltb (length - offset) s)) [
                | inl bad ↦ (malformed, (rw (more, long, et, es, bad) refl), tt)
                | inr good ↦
                    (let (past, within) = next_offset length offset s w lt good in
                      elim (Bool-cases (t == tlv_auth)) [
                        | inl a ↦
                            (let (r, er, ir) =
                                find_from-IsInside fuel byte length (u16 (offset + s)) (some offset)
                                  (offset == header_len) h w (omega (arith, past)) within
                                  (omega (arith, past)) (b, omega (arith, past, within)) in
                              (r, (rw (more, long, et, es, good, a) er), ir))
                        | inr n ↦
                            (let (r, er, ir) =
                                find_from-IsInside fuel byte length (u16 (offset + s)) auth first h
                                  w (omega (arith, past)) within (omega (arith, past)) i in
                              (r, (rw (more, long, et, es, good, n) er), ir))
                      ])
              ])
      ]
    ]

-- On a received packet of fewer than 2 ^ 16 bytes, all of which can be read, the walk comes to an
-- end, whatever the bytes are, and reads none outside the packet; and the authentication TLV that
-- it finds has its header inside the packet, behind the packet's own.
pub auth_tlv_find-IsInside :
    (byte : ℕ → Option ℕ) (length : ℕ)
    → Readable byte length
    → length < 65536
    → (r : Framing) × (auth_tlv_find byte length ≡ some r) × IsInside length r
unfolding auth_tlv_find
auth_tlv_find-IsInside byte length h w = elim (Bool-cases (ltb length header_len)) [
  | inl short ↦ (malformed, (rw short refl), tt)
  | inr long ↦
      (let (r, er, ir) =
          find_from-IsInside (suc length) byte length header_len none false h w (omega arith)
            (ground (arith, long)) (omega arith) tt in
        (r, (rw long er), ir))
]
