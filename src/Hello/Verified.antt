-- ===== src/Hello/Verified.antt =====
-- The header's verification and the walk over a hello's TLVs together: eigrp_packet_read verifies a
-- packet before it calls eigrp_hello_receive.
use eigrpd.Base.{
  ℕ, ◌-◌, ◌<◌, ◌≡◌, refl, ap, inl, inr, Bool, true, false, ◌&&◌, Option, none, some, ltb, arith,
  Bool-cases, Option-cases,
}
use eigrpd.Packet.Framing.{Framing, malformed, framed, auth_tlv_find, header_len}
use eigrpd.Packet.Verify.{
  Expected, Header, auth_policy, auth_header_validate, check_network_mask, header_fields,
  verify_header,
}
use eigrpd.Hello.{Step, hello_walk}
use eigrpd.Hello.Walk.{hello_walk_ends}

-- An answer of the checks.
abbrev passes : Option Bool → Bool
passes none = false
passes (some b) = b

framed_of :
    (ei : Expected) (byte : ℕ → Option ℕ) (f : Framing)
    → passes (auth_policy ei byte f) ≡ true
    → (auth : Option ℕ) × (first : Bool) × (f ≡ framed auth first)
unfolding auth_policy
framed_of ei byte malformed e = absurd (ground (arith, e))
framed_of ei byte (framed auth first) e = (auth, first, refl)

auth_header_validate-framed :
    (ei : Expected) (h : Header)
    → passes (auth_header_validate ei h) ≡ true
    → (auth : Option ℕ) × (first : Bool) × (auth_tlv_find h.byte h.length
        ≡ some (framed auth first))
unfolding auth_header_validate
auth_header_validate-framed ei h e = elim (Option-cases (auth_tlv_find h.byte h.length)) [
  | inl out ↦ absurd (ground (arith, rw out at e))
  | inr (f, ef) ↦
      (let (auth, first, same) = framed_of ei h.byte f (rw ef at e) in
        (auth, first, rw ef (ap (λ g. some g) same)))
]

both_true : (b c : Bool) → (b && c) ≡ true → b ≡ true
both_true true c e = refl
both_true false c e = e

verify_header-framed :
    (ei : Expected) (h : Header)
    → passes (verify_header ei h) ≡ true
    → (auth : Option ℕ) × (first : Bool) × (auth_tlv_find h.byte h.length
        ≡ some (framed auth first))
unfolding verify_header
verify_header-framed ei h e = elim (Bool-cases (ltb h.length header_len)) [
  | inl short ↦ absurd (ground (arith, rw short at e))
  | inr long ↦ elim (Option-cases (header_fields ei h)) [
    | inl out ↦ absurd (ground (arith, rw (long, out) at e))
    | inr (plain, ep) ↦ elim (Bool-cases plain) [
      | inr bad ↦ absurd (ground (arith, rw (long, ep, bad) at e))
      | inl good ↦ elim (Option-cases (auth_header_validate ei h)) [
        | inl out ↦ absurd (ground (arith, rw (long, ep, good, out) at e))
        | inr (ok, eo) ↦
            auth_header_validate-framed ei h
              (rw eo (both_true ok (check_network_mask ei h.ip_src) (rw (long, ep, good, eo) at e)))
      ]
    ]
  ]
]

module _ {A : Type 0} (handle : ℕ → ℕ → A → Step A) where
  -- A packet that eigrp_verify_header accepts, with bytes behind its header, is walked to an end by
  -- eigrp_hello_receive, whatever its TLVs and their handlers are: the loop, which does not check for
  -- a TLV of length 0 itself, reads no byte outside the packet and takes no more rounds than the
  -- packet has bytes.
  pub verified_walk_ends :
      (ei : Expected) (h : Header) (a : A)
      → verify_header ei h ≡ some true
      → h.length < 65536
      → header_len < h.length
      → (b : A) × (hello_walk handle h.byte
            (h.length - header_len)
            header_len
            (h.length - header_len)
            a
          ≡ some b)
  verified_walk_ends ei h a e w lt =
      let (auth, first, ef) = verify_header-framed ei h (ap passes e) in
      hello_walk_ends handle h.byte h.length auth first a ef w lt
