-- ===== src/Process.antt =====
-- The packetizer's work: the packets that eigrpd/eigrp_packetizer.c builds of queries and replies.
use eigrpd.Base.{
  ℕ, ◌+◌, Bool, true, false, Option, none, some, List, [], ◌∷◌, ◌==◌, if◌then◌else◌, u16, u32,
}
use eigrpd.LinkList.{LinkList}
use eigrpd.Stream.{StreamLib}
use eigrpd.State.{
  Neighbor, Interface, Work, M, pure, get, modify, when, ◌>>=◌, ◌>>◌, load_nbr, load_intf,
  update_prefix, update_intf, free_route,
}
use eigrpd.Filter.{Filters, FilterSet}
use eigrpd.Neighbor.{is_up}
use eigrpd.Packet.{sequence_reserve}
use eigrpd.Packet.Framing.{header_len}
use eigrpd.Packetizer.{
  opc_update, opc_query, opc_reply, opc_siaquery, opc_siareply, query_encoder_neighbor, work_free,
}
use eigrpd.Send.{first, advertised_route}
use eigrpd.Topology.{same_pointer}
use eigrpd.Topology.Table.{get_successor}
use eigrpd.Retransmit.{retransmit_timer_start}
use eigrpd.Session.{
  Wire, packet_mtu, header_init, packet_create, update_packet, with_link, enqueue_reliable,
  send_if_only, authenticate, digest, seal_packet,
}
use eigrpd.Output.{output_enqueue}
use eigrpd.Update.Send.{free_packet, duplicate, seal_multicast, put_route}
use eigrpd.Update.Multicast.{packetize_all}

-- eigrp_packet_sequence_reserve
unfoldable pub reserve : M ℕ
reserve = do
  w ← get
  modify (λ v. record v { sequence_number = (sequence_reserve v.sequence_number).1 })
  pure (sequence_reserve w.sequence_number).0

-- eigrp_packetizer_neighbor_stat
abbrev pub stat : ℕ → Interface → Interface
stat opcode i =
    let c = i.sent in
    if opcode == opc_query
    then record i { sent = record c { query = u32 (c.query + 1) } }
    else if opcode == opc_reply
    then record i { sent = record c { reply = u32 (c.reply + 1) } }
    else if opcode == opc_siaquery
    then record i { sent = record c { siaquery = u32 (c.siaquery + 1) } }
    else if opcode == opc_siareply
    then record i { sent = record c { siareply = u32 (c.siareply + 1) } }
    else i

-- What the packets of queries count.
abbrev pub query_stat : ℕ → Interface → Interface
query_stat opcode i =
    let c = i.sent in
    if opcode == opc_siaquery
    then record i { sent = record c { siaquery = u32 (c.siaquery + 1) } }
    else record i { sent = record c { query = u32 (c.query + 1) } }

module _ (wire : Wire) where
  -- A packet with its header, its number and the authentication TLV, whose length is returned.
  unfoldable pub reliable_new : ℕ → Option ℕ → ℕ → ℕ → M (ℕ × (ℕ × ℕ))
  reliable_new size nbr ei opcode = do
    sequence ← reserve
    p ← packet_create size nbr
    w ← get
    update_packet p (λ c. record c { bytes = header_init w opcode 0 sequence 0 c.bytes })
    length ← authenticate wire ei p
    pure (p, (sequence, u16 (header_len + length)))

-- A copy for every neighbor that is up; whether one of their queues was empty.
unfoldable pub copy_to : ℕ → ℕ → Neighbor → M Bool
copy_to p nbr n = do
  dup ← duplicate (some nbr) p
  enqueue_reliable nbr dup
  when (n.retrans_queue.count == 0) (with_link nbr retransmit_timer_start)
  pure (n.retrans_queue.count == 0)

unfoldable pub copies_from : ℕ → List ℕ → Bool → M Bool
copies_from p [] initial = pure initial
copies_from p (nbr ∷ nbrs) initial = do
  n ← load_nbr nbr
  sent ← if is_up n.state then copy_to p nbr n else pure false
  copies_from p nbrs (if sent then true else initial)

module _ ⦃ll : LinkList⦄ where
  -- The neighbors that owe a reply.
  unfoldable pub await_from : ℕ → List ℕ → M (Unit {0})
  await_from p [] = pure tt
  await_from p (nbr ∷ nbrs) = do
    n ← load_nbr nbr
    when (is_up n.state) (update_prefix p (λ d. record d { rij = ll.add d.rij nbr }))
    await_from p nbrs

  module _ ⦃sl : StreamLib⦄ (filters : Filters) (eigrp_out : FilterSet) (intf_out : ℕ → FilterSet)
      (router_id : ℕ) (wire : Wire) where
    -- The packet with its route: sent, unless the encoder wrote nothing.
    unfoldable pub route_place : ℕ → ℕ → Neighbor → ℕ → ℕ → ℕ → ℕ → ℕ → M (Unit {0})
    route_place opcode nbr n ei p sequence length tlv_length =
        if tlv_length == 0
        then free_packet p
        else (digest wire ei p
            >> seal_packet wire p (u16 (length + tlv_length)) n.src sequence
            >> update_packet p (λ c. record c { sequence_reserved = true })
            >> enqueue_reliable nbr p
            >> update_intf ei (stat opcode)
            >> send_if_only nbr)

    unfoldable pub route_send : Work → ℕ → Neighbor → ℕ → ℕ → M (Unit {0})
    route_send work nbr n ei prefix = do
      i ← load_intf ei
      new ← reliable_new wire (packet_mtu i.mtu) (some nbr) ei work.opcode
      found ← advertised_route work.route prefix
      tlv_length ← put_route filters eigrp_out intf_out router_id n.codec ei new.0 found.0
      when found.1 (free_route found.0)
      route_place work.opcode nbr n ei new.0 new.1.0 new.1.1 tlv_length

    -- eigrp_packetizer_neighbor_route_send
    unfoldable pub route_send_to : Work → ℕ → ℕ → M (Unit {0})
    route_send_to work nbr prefix = do
      n ← load_nbr nbr
      elim n.ei [
        | none ↦ pure tt
        | some ei ↦ when (is_up n.state) (route_send work nbr n ei prefix)
      ]

    unfoldable pub neighbor_route_send : Work → M (Unit {0})
    neighbor_route_send work = elim work.nbr [
      | none ↦ pure tt
      | some nbr ↦ elim work.prefix [ none ↦ pure tt | some prefix ↦ route_send_to work nbr prefix ]
    ]

    -- The interface's packet: one of its own and a copy for each neighbor.
    unfoldable pub query_place : ℕ → ℕ → Interface → ℕ → ℕ → ℕ → ℕ → ℕ → M (Unit {0})
    query_place opcode ei i prefix p sequence length tlv_length =
        if tlv_length == 0
        then free_packet p
        else (await_from prefix i.nbrs
            >> seal_multicast wire ei p (u16 (length + tlv_length)) sequence
            >> update_packet p (λ c. record c { sequence_reserved = true })
            >> (copies_from p i.nbrs false >>= λ initial.
                if initial then output_enqueue ei p else free_packet p)
            >> update_intf ei (query_stat opcode))

    unfoldable pub query_route : Work → ℕ → Interface → ℕ → ℕ → M (Unit {0})
    query_route work ei i prefix route = do
      new ← reliable_new wire (u16 (packet_mtu i.mtu)) none ei work.opcode
      tlv_length ← put_route filters eigrp_out intf_out router_id i.encoder ei new.0 route
      query_place work.opcode ei i prefix new.0 new.1.0 new.1.1 tlv_length

    unfoldable pub query_successor : Work → ℕ → Interface → ℕ → M (Unit {0})
    query_successor work ei i prefix = do
      found ← get_successor prefix
      elim (first found) [ none ↦ pure tt | some route ↦ query_route work ei i prefix route ]

    -- eigrp_packetizer_query_interface_send
    unfoldable pub query_interface_send : Work → ℕ → ℕ → M (Unit {0})
    query_interface_send work prefix ei =
        if same_pointer work.exception ei
        then pure tt
        else (load_intf ei >>= λ i. query_encoder_neighbor i.nbrs >>= λ nbr. elim nbr [
          | none ↦ pure tt
          | some _ ↦ query_successor work ei i prefix
        ])

    unfoldable pub query_intfs : Work → ℕ → List ℕ → M (Unit {0})
    query_intfs work prefix [] = pure tt
    query_intfs work prefix (ei ∷ eis) = do
      query_interface_send work prefix ei
      query_intfs work prefix eis

    -- eigrp_packetizer_query_send
    unfoldable pub packetizer_query_send : Work → M (Unit {0})
    packetizer_query_send work = elim work.prefix [
      | none ↦ pure tt
      | some prefix ↦ elim work.nbr [
        | some _ ↦ neighbor_route_send work
        | none ↦ do w ← get; query_intfs work prefix w.eiflist
      ]
    ]

    -- eigrp_packetizer_work_process
    unfoldable pub work_process : Work → M (Unit {0})
    work_process work =
        if work.opcode == opc_update
        then packetize_all filters eigrp_out intf_out router_id wire work.exception
        else if work.opcode == opc_query
        then packetizer_query_send work
        else if work.opcode == opc_siaquery
        then packetizer_query_send work
        else if work.opcode == opc_reply
        then neighbor_route_send work
        else if work.opcode == opc_siareply
        then neighbor_route_send work
        else pure tt

    -- eigrp_packetizer_work_queue_run and eigrp_packetizer_work_queue_delete, which the host's queue
    -- calls for its first item.
    unfoldable pub work_queue_run : M (Unit {0})
    work_queue_run = do
      w ← get
      elim w.queue [
        | [] ↦ pure tt
        | work ∷ works ↦ do
          modify (λ v. record v { queue = works })
          work_process work
          work_free work
      ]
