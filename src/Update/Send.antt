-- ===== src/Update/Send.antt =====
-- The updates that are sent: eigrp_update_send_EOT, eigrp_update_send and eigrp_update_packetize_all of
-- eigrpd/eigrp_update.c.
pub mod Twice
use eigrpd.Base.{
  ℕ, suc, ◌+◌, Bool, true, false, not, Option, none, some, List, [], ◌∷◌, ltb, ◌==◌, if◌then◌else◌,
  u16, u32,
}
use eigrpd.LinkList.{LinkList}
use eigrpd.Stream.{Buffer, StreamLib}
use eigrpd.State.{
  Encoder, safe_encoder, classic, wide, both, Dest, Prefix, Interface, M, pure, fault, get, modify,
  expect, when, ◌>>=◌, ◌>>◌, load_route, load_prefix, load_nbr, load_intf, update_nbr,
  update_prefix,
}
use eigrpd.Filter.{Filters, FilterSet, update_prefix_apply}
use eigrpd.Neighbor.{is_up, split_horizon_check}
use eigrpd.Topology.Walk.{table_lookup_ipv4}
use eigrpd.Packet.Framing.{header_len}
use eigrpd.Packetizer.{opc_update, query_encoder_neighbor}
use eigrpd.Queue.{packet_free}
use eigrpd.Retransmit.{packet_duplicate}
use eigrpd.Codec.{classic_encoder, wide_encoder, encoder_both}
use eigrpd.Session.{
  Wire, eot_flag, packet_mtu, header_init, packet_create, update_packet, place_reliable,
  authenticate, digest, seal_packet,
}

-- EIGRP_TLV_MAX_IPV4_BYTE and EIGRP_MULTICAST_ADDRESS
abbrev pub tlv_max_ipv4 : ℕ
tlv_max_ipv4 = 0x1d

abbrev pub multicast_address : ℕ
multicast_address = 0xe000000a

-- A packet that is being filled, with the number that it will have.
pub record Chunk : Type 0 where
  pub packet : ℕ
  pub seq_no : ℕ
  pub length : ℕ

unfoldable pub free_packet : ℕ → M (Unit {0})
free_packet p = do
  w ← get
  cells ← expect (packet_free p w.packets)
  modify (λ v. record v { packets = cells })

-- eigrp_packet_duplicate, which reads the neighbor's interface for the size of the copy.
unfoldable pub duplicate : Option ℕ → ℕ → M ℕ
duplicate none p = fault
duplicate (some nbr) p = do
  w ← get
  cells ← expect (packet_duplicate w.next_packet p nbr w.packets)
  modify (λ v. record v { packets = cells; next_packet = suc w.next_packet })
  pure w.next_packet

-- eigrp_update_send_to_all_nbrs: the first neighbor that is up gets the packet, the others a copy of
-- it that is made for no neighbor.
unfoldable pub send_to : ℕ → Bool → ℕ → M (Unit {0})
send_to p packet_sent nbr = do
  q ← if packet_sent then duplicate none p else pure p
  update_packet q (λ c. record c { nbr = some nbr })
  place_reliable nbr q

unfoldable pub send_from : ℕ → Bool → List ℕ → M (Unit {0})
send_from p packet_sent [] = if packet_sent then pure tt else free_packet p
send_from p packet_sent (nbr ∷ nbrs) = do
  n ← load_nbr nbr
  when (is_up n.state) (send_to p packet_sent nbr)
  send_from p (if is_up n.state then true else packet_sent) nbrs

unfoldable pub send_to_all_nbrs : ℕ → ℕ → M (Unit {0})
send_to_all_nbrs ei p = do i ← load_intf ei; send_from p false i.nbrs

module _ (wire : Wire) where
  -- eigrp_update_place_on_nbr_queue
  unfoldable pub place_on_nbr_queue : ℕ → Chunk → M (Unit {0})
  place_on_nbr_queue nbr c = do
    n ← load_nbr nbr
    ei ← expect n.ei
    digest wire ei c.packet
    seal_packet wire c.packet c.length n.src c.seq_no
    place_reliable nbr c.packet

  -- A packet with its header and the authentication TLV.
  unfoldable pub chunk_new : ℕ → Option ℕ → ℕ → ℕ → ℕ → ℕ → M Chunk
  chunk_new size nbr ei flags seq_no ack = do
    w ← get
    p ← packet_create size nbr
    update_packet p (λ c. record c { bytes = header_init w opc_update flags seq_no ack c.bytes })
    length ← authenticate wire ei p
    pure (record { packet = p; seq_no = seq_no; length = u16 (header_len + length) })

  -- The packet is full: it is sent, and the next one takes the next number.
  unfoldable pub next_chunk : ℕ → ℕ → ℕ → Chunk → M Chunk
  next_chunk size nbr ei c = do
    place_on_nbr_queue nbr c
    n ← load_nbr nbr
    chunk_new size (some nbr) ei eot_flag (u32 (c.seq_no + 1)) n.recv_sequence_number

  -- The digest, the checksum and the multicast address.
  unfoldable pub seal_multicast : ℕ → ℕ → ℕ → ℕ → M (Unit {0})
  seal_multicast ei p length sequence = do
    digest wire ei p
    seal_packet wire p length multicast_address sequence

module _ ⦃sl : StreamLib⦄ (filters : Filters) (eigrp_out : FilterSet) (intf_out : ℕ → FilterSet)
    (router_id : ℕ) where
  -- The call of an encoder through its pointer.
  unfoldable pub encode : Encoder → ℕ → ℕ → Buffer → M (ℕ × Buffer)
  encode safe_encoder ei route s = pure (0, s)
  encode classic ei route s =
      classic_encoder filters eigrp_out router_id (some (intf_out ei)) route s
  encode wide ei route s = wide_encoder filters eigrp_out router_id (some (intf_out ei)) route s
  encode both ei route s = encoder_both filters eigrp_out router_id (some (intf_out ei)) route s

  -- The encoder writes behind what the packet holds.
  unfoldable pub put_route : Encoder → ℕ → ℕ → ℕ → M ℕ
  put_route codec ei p route = do
    w ← get
    c ← expect (w.packets p)
    r ← encode codec ei route c.bytes
    update_packet p (λ d. record d { bytes = r.1 })
    pure r.0

  module _ (wire : Wire) where
    -- One route of the EOT update.
    unfoldable pub eot_put : ℕ → ℕ → ℕ → ℕ → Chunk → M Chunk
    eot_put nbr ei p route c = do
      d ← load_prefix p
      (if update_prefix_apply filters eigrp_out (intf_out ei) d.destination
          then pure c
          else (load_nbr nbr >>= λ n. put_route n.codec ei c.packet route >>= λ length.
              pure (record c { length = u16 (c.length + length) })))

    unfoldable pub eot_route : ℕ → ℕ → ℕ → ℕ → ℕ → Chunk → M Chunk
    eot_route mtu nbr ei p route c = do
      r ← load_route route
      (if split_horizon_check r ei
          then pure c
          else ((if ltb mtu (c.length + tlv_max_ipv4) then next_chunk wire mtu nbr ei c else pure c)
              >>= λ room. eot_put nbr ei p route room))

    unfoldable pub eot_routes : ℕ → ℕ → ℕ → ℕ → List ℕ → Chunk → M Chunk
    eot_routes mtu nbr ei p [] c = pure c
    eot_routes mtu nbr ei p (e ∷ es) c = do
      next ← eot_route mtu nbr ei p e c
      eot_routes mtu nbr ei p es next

    unfoldable pub eot_from : ℕ → ℕ → ℕ → List Dest → Chunk → M Chunk
    eot_from mtu nbr ei [] c = pure c
    eot_from mtu nbr ei (dest ∷ nodes) c = do
      info ← table_lookup_ipv4 dest
      next ← elim info [
        | none ↦ pure c
        | some p ↦ do d ← load_prefix p; eot_routes mtu nbr ei p d.entries c
      ]
      eot_from mtu nbr ei nodes next

    -- eigrp_update_send_EOT; `seq_no++` has the value before the increment.
    unfoldable pub update_send_eot : List Dest → ℕ → M (Unit {0})
    update_send_eot nodes nbr = do
      n ← load_nbr nbr
      ei ← expect n.ei
      i ← load_intf ei
      w ← get
      first ←
          chunk_new wire (u16 (packet_mtu i.mtu)) (some nbr) ei eot_flag w.sequence_number
            n.recv_sequence_number
      last ← eot_from (u16 (packet_mtu i.mtu)) nbr ei nodes first
      place_on_nbr_queue wire nbr last
      modify (λ v. record v { sequence_number = last.seq_no })
