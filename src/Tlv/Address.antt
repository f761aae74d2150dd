-- ===== src/Tlv/Address.antt =====
-- The destination of a TLV, written and read back.
use eigrpd.Base.{
  ℕ, zero, suc, ◌+◌, ◌≤◌, ◌<◌, ◌≡◌, refl, ap, true, false, some, List, [], ◌∷◌, length, map, ltb,
  ◌==◌, if◌then◌else◌, u8, arith,
}
use eigrpd.State.{Dest}
use eigrpd.Stream.{StreamLib, get_bytes, put_bytes}
use eigrpd.Stream.Reading.{Reads, Reads-map, Reads-getc, Reads-has, get_bytes-Reads, Reads-cast}
use eigrpd.Stream.Writing.{Puts, Puts-putc, Puts-map, Puts-cast, put_bytes-Puts}
use eigrpd.Tlv.{
  af_inet, ipv4_max_bitlen, prefix_bytes, dest_of, addr_bytes, addr_bits, addr_length, addr_decode,
  addr_encode, first_n,
}

-- An IPv4 prefix as the host stores it.
pub record IsIpv4 (d : Dest) : Type 0 where
  pub family : d.family ≡ af_inet
  pub prefixlen : d.prefixlen ≤ ipv4_max_bitlen
  pub addr0 : d.addr0 < 256
  pub addr1 : d.addr1 < 256
  pub addr2 : d.addr2 < 256
  pub addr3 : d.addr3 < 256

-- The destination less the bytes that its prefix does not reach.
unfoldable pub covered : Dest → Dest
covered d = record d {
  addr0 = if ltb 0 (prefix_bytes d.prefixlen) then d.addr0 else 0;
  addr1 = if ltb 1 (prefix_bytes d.prefixlen) then d.addr1 else 0;
  addr2 = if ltb 2 (prefix_bytes d.prefixlen) then d.addr2 else 0;
  addr3 = if ltb 3 (prefix_bytes d.prefixlen) then d.addr3 else 0;
}

pub prefix_bytes_le : (n : ℕ) → n ≤ 32 → prefix_bytes n ≤ 4
unfolding prefix_bytes
prefix_bytes_le n h = ground arith

length-first_n : (n : ℕ) (l : List ℕ) → n ≤ length l → length (first_n n l) ≡ n
length-first_n zero l h = refl
length-first_n (suc n) [] h = absurd (omega arith)
length-first_n (suc n) (x ∷ l) h = ap suc (length-first_n n l (omega arith))

AreBytes : List ℕ → Type 0
AreBytes [] = Unit
AreBytes (x ∷ l) = (x < 256) × AreBytes l

pub u8_id : (n : ℕ) → n < 256 → u8 n ≡ n
u8_id n h = omega arith

map-first_n : (n : ℕ) (l : List ℕ) → AreBytes l → map u8 (first_n n l) ≡ first_n n l
unfolding AreBytes
map-first_n zero l h = refl
map-first_n (suc n) [] h = refl
map-first_n (suc n) (x ∷ l) (p, h) = rw (u8_id x p, map-first_n n l h) refl

covered_by : ℕ → Dest → Dest
covered_by n d = record d {
  addr0 = if ltb 0 n then d.addr0 else 0;
  addr1 = if ltb 1 n then d.addr1 else 0;
  addr2 = if ltb 2 n then d.addr2 else 0;
  addr3 = if ltb 3 n then d.addr3 else 0;
}

dest_of-first_n :
    (n : ℕ) (d : Dest)
    → n ≤ 4
    → d.family ≡ af_inet
    → dest_of d.prefixlen (first_n n (d.addr0 ∷ d.addr1 ∷ d.addr2 ∷ d.addr3 ∷ [])) ≡ covered_by n d
unfolding covered_by
dest_of-first_n zero d h f = rw f refl
dest_of-first_n (suc zero) d h f = rw f refl
dest_of-first_n (suc (suc zero)) d h f = rw f refl
dest_of-first_n (suc (suc (suc zero))) d h f = rw f refl
dest_of-first_n (suc (suc (suc (suc zero)))) d h f = rw f refl
dest_of-first_n (suc (suc (suc (suc (suc n))))) d h f = absurd (omega arith)

pub dest_of-covered : (d : Dest) → IsIpv4 d → dest_of d.prefixlen (addr_bytes d) ≡ covered d
unfolding covered covered_by
dest_of-covered d h =
    dest_of-first_n (prefix_bytes d.prefixlen) d (prefix_bytes_le d.prefixlen h.prefixlen) h.family

pub length-addr_bytes : (d : Dest) → IsIpv4 d → length (addr_bytes d) ≡ prefix_bytes d.prefixlen
length-addr_bytes d h =
    length-first_n (prefix_bytes d.prefixlen) _ (prefix_bytes_le d.prefixlen h.prefixlen)

-- A destination as the TLV holds it.
abbrev pub dest_bytes : Dest → List ℕ
dest_bytes d = d.prefixlen ∷ addr_bytes d

pub length-dest_bytes : (d : Dest) → IsIpv4 d → length (dest_bytes d) ≤ 5
length-dest_bytes d h =
    omega (arith, length-addr_bytes d h, prefix_bytes_le d.prefixlen h.prefixlen)

map-addr_bytes : (d : Dest) → IsIpv4 d → map u8 (addr_bytes d) ≡ addr_bytes d
unfolding AreBytes
map-addr_bytes d h =
    map-first_n (prefix_bytes d.prefixlen) _ (h.addr0, (h.addr1, (h.addr2, (h.addr3, tt))))

module _ ⦃sl : StreamLib⦄ where
  pub addr_encode-Puts :
      (d : Dest) → IsIpv4 d → Puts (addr_encode d) (dest_bytes d) (1 + prefix_bytes d.prefixlen)
  unfolding addr_encode
  addr_encode-Puts d h =
      let inet : (d.family == af_inet) ≡ true = ground (arith, h.family) in
      let short : ltb ipv4_max_bitlen d.prefixlen ≡ false = ground (arith, h.prefixlen) in
      rw (inet, short)
        (Puts-cast _ _ _ _
          (Puts-putc _ d.prefixlen _ _ (
            Puts-map (put_bytes (addr_bytes d)) (λ _. 1 + prefix_bytes d.prefixlen) _ tt
              (put_bytes-Puts (addr_bytes d))))
          (λ i. u8_id d.prefixlen (omega (arith, h.prefixlen)) i ∷ map-addr_bytes d h i))

  pub addr_decode-Reads :
      (d : Dest)
      → IsIpv4 d
      → Reads addr_decode (dest_bytes d) (some (covered d, 1 + prefix_bytes d.prefixlen))
  unfolding addr_decode addr_length addr_bits
  addr_decode-Reads d h =
      let short : ltb ipv4_max_bitlen d.prefixlen ≡ false = ground (arith, h.prefixlen) in
      let len : length (addr_bytes d) ≡ prefix_bytes d.prefixlen = length-addr_bytes d h in
      Reads-has _ 1 (dest_bytes d) _ (omega arith) (
        Reads-getc _ d.prefixlen (addr_bytes d) _ (
          rw short (
            Reads-has _ (prefix_bytes d.prefixlen) (addr_bytes d) _ (omega (arith, len)) (
              Reads-cast _ _ _ _ _
                (Reads-map (get_bytes (prefix_bytes d.prefixlen))
                  (λ bs. some (dest_of d.prefixlen bs, 1 + prefix_bytes d.prefixlen)) (addr_bytes d)
                  (addr_bytes d) (get_bytes-Reads _ (addr_bytes d) len))
                refl (λ i. some (dest_of-covered d h i, 1 + prefix_bytes d.prefixlen))))))
