-- ===== src/Hello/Walk.antt =====
-- The walk over a hello whose framing was verified.
use eigrpd.Base.{
  ℕ, zero, suc, ◌+◌, ◌-◌, ◌≤◌, ◌<◌, ◌≡◌, refl, ap, inl, inr, Bool, true, false, ◌||◌, Option, none,
  some, ltb, ◌==◌, u16, arith, Bool-cases, Option-cases,
}
use eigrpd.Packet.Framing.{
  Framing, malformed, framed, find_from, auth_tlv_find, read_u16, header_len, tlv_hdr_size,
  tlv_auth,
}
use eigrpd.Hello.{Step, go, leave, step, hello_walk, walk_on}

abbrev is_framed : Framing → Bool
is_framed malformed = false
is_framed (framed auth first) = true

abbrev found : Option Framing → Bool
found none = false
found (some f) = is_framed f

no_frame :
    (f : Framing) (r : Option ℕ) (x : Bool) → is_framed f ≡ false → some f ≡ some (framed r x) → ⊥
no_frame f r x h e = ground (arith, h, ap found e)

nothing : (r : Option ℕ) (x : Bool) → none ≡ some (framed r x) → ⊥
nothing r x e = ground (arith, ap found e)

-- A walk that found its end read two bytes of a TLV's type and two of its length, which is a length
-- of a TLV inside the packet.
framed_step :
    (n : ℕ) (byte : ℕ → Option ℕ) (offset length : ℕ) (auth : Option ℕ) (first : Bool)
    (r : Option ℕ) (x : Bool)
    → find_from (suc n) byte length offset auth first ≡ some (framed r x)
    → offset < length
    → (type size : ℕ) × (auth' : Option ℕ) × (first' : Bool) × (read_u16 byte offset ≡ some type)
      × (read_u16 byte (offset + 2) ≡ some size)
      × (tlv_hdr_size ≤ size)
      × (size ≤ length - offset)
      × (find_from n byte length (u16 (offset + size)) auth' first' ≡ some (framed r x))
unfolding find_from
framed_step n byte offset length auth first r x e lt =
    let more : ltb offset length ≡ true = ground arith in
    elim (Bool-cases (ltb (length - offset) tlv_hdr_size)) [
      | inl short ↦ absurd (no_frame malformed r x refl (rw (more, short) at e))
      | inr long ↦ elim (Option-cases (read_u16 byte offset)) [
        | inl et ↦ absurd (nothing r x (rw (more, long, et) at e))
        | inr (t, et) ↦ elim (Option-cases (read_u16 byte (offset + 2))) [
          | inl es ↦ absurd (nothing r x (rw (more, long, et, es) at e))
          | inr (s, es) ↦ elim (Bool-cases (ltb s tlv_hdr_size || ltb (length - offset) s)) [
            | inl bad ↦ absurd (no_frame malformed r x refl (rw (more, long, et, es, bad) at e))
            | inr good ↦ elim (Bool-cases (t == tlv_auth)) [
              | inl auth_tlv ↦ (
                t,
                s,
                some offset,
                (offset == header_len),
                et,
                es,
                ground arith,
                ground arith,
                rw (more, long, et, es, good, auth_tlv) at e,
              )
              | inr other ↦ (
                t,
                s,
                auth,
                first,
                et,
                es,
                ground arith,
                ground arith,
                rw (more, long, et, es, good, other) at e,
              )
            ]
          ]
        ]
      ]
    ]

out_of_fuel :
    (byte : ℕ → Option ℕ) (offset length : ℕ) (auth : Option ℕ) (first : Bool) (r : Option ℕ)
    (x : Bool)
    → find_from zero byte length offset auth first ≡ some (framed r x)
    → ⊥
unfolding find_from
out_of_fuel byte offset length auth first r x e = nothing r x e

module _ {A : Type 0} (handle : ℕ → ℕ → A → Step A) (byte : ℕ → Option ℕ) where
  -- A round ends, if the loop on what is left does where there is something left.
  after :
      (o : Step A) (next : A → Option A) (s size : ℕ)
      → (s < size → (c : A) → (b : A) × (next c ≡ some b))
      → (b : A) × (walk_on handle byte next s size o ≡ some b)
  unfolding walk_on
  after (leave c) next s size h = (c, refl)
  after (go c) next s size h = elim (Bool-cases (ltb s size)) [
    | inl more ↦ (let (b, eb) = h (ground arith) c in (b, rw more eb))
    | inr end ↦ (c, rw end refl)
  ]

  walk_from :
      (n fuel offset length : ℕ) (auth : Option ℕ) (first : Bool) (r : Option ℕ) (x : Bool) (a : A)
      → find_from n byte length offset auth first ≡ some (framed r x)
      → length < 65536
      → offset < length
      → length - offset ≤ fuel
      → (b : A) × (hello_walk handle byte fuel offset (length - offset) a ≡ some b)
  unfolding hello_walk
  walk_from zero fuel offset length auth first r x a e w lt enough =
      absurd (out_of_fuel byte offset length auth first r x e)
  walk_from (suc n) zero offset length auth first r x a e w lt enough = absurd (omega arith)
  walk_from (suc n) (suc fuel) offset length auth first r x a e w lt enough =
      let (t, s, auth', first', et, es, least, most, rest) =
        framed_step n byte offset length auth first r x e lt in
      let next : u16 (offset + s) ≡ offset + s = omega arith in
      let left : length - offset - s ≡ length - (offset + s) = omega arith in
      rw (et, es, left)
        (after (step handle byte t offset s (length - offset) a) _ s (length - offset) λ more c.
          walk_from n fuel (offset + s) length auth' first' r x c (rw next at rest) w (omega arith)
            (omega arith))

  -- A packet whose framing eigrp_packet_auth_tlv_find accepts, with bytes behind its header, is
  -- walked to an end by eigrp_hello_receive, whatever the TLVs and their handlers are: the loop reads
  -- no byte outside the packet and does not spin, and takes no more rounds than the packet has bytes.
  pub hello_walk_ends :
      (length : ℕ) (auth : Option ℕ) (first : Bool) (a : A)
      → auth_tlv_find byte length ≡ some (framed auth first)
      → length < 65536
      → header_len < length
      → (b : A) × (hello_walk handle byte (length - header_len) header_len (length - header_len) a
          ≡ some b)
  unfolding auth_tlv_find
  hello_walk_ends length auth first a e w lt =
      let long : ltb length header_len ≡ false = ground arith in
      walk_from (suc length) (length - header_len) header_len length none false auth first a
        (rw long at e) w lt (omega arith)
