-- ===== src/Update/Chunks.antt =====
-- A graceful restart that the daemon announces, packet by packet: eigrp_update_send_GR and its
-- helpers in eigrpd/eigrp_update.c.
use eigrpd.Base.{
  ℕ, zero, suc, ◌+◌, Bool, true, false, not, none, some, List, [], ◌∷◌, length, leb, ltb,
  if◌then◌else◌, u16,
}
use eigrpd.Metric.{max_metric}
use eigrpd.LinkList.{LinkList}
use eigrpd.Stream.{StreamLib}
use eigrpd.State.{
  PacketPart, part_na, part_first, part_last, Dest, Prefix, Neighbor, M, pure, fault, get, expect,
  when, ◌>>=◌, ◌>>◌, load_prefix, load_nbr, load_intf, update_nbr,
}
use eigrpd.Filter.{Filters, FilterSet, update_prefix_apply}
use eigrpd.Packetizer.{opc_update}
use eigrpd.Topology.{msg_int, prefix_descriptor_lookup}
use eigrpd.Topology.Table.{get_successor}
use eigrpd.Topology.Walk.{table_lookup_ipv4}
use eigrpd.Fsm.{fsm_event}
use eigrpd.Send.{first}
use eigrpd.Session.{Wire, init_flag, rs_flag, eot_flag, packet_mtu}
use eigrpd.Update.Graceful.{list_new, load_list, store_list}
use eigrpd.Update.Send.{Chunk, chunk_new, put_route, place_on_nbr_queue}

-- EIGRP_TLV_MAX_IPv4
abbrev pub tlv_max_routes : ℕ
tlv_max_routes = 25

abbrev pub is_first : PacketPart → Bool
is_first part_na = false
is_first part_first = true
is_first part_last = false

abbrev pub is_last : PacketPart → Bool
is_last part_na = false
is_last part_first = false
is_last part_last = true

-- The flags of a packet, by whether it is the first and whether no other follows.
abbrev pub part_flags : Bool → Bool → ℕ
part_flags true true = init_flag + rs_flag + eot_flag
part_flags true false = init_flag + rs_flag
part_flags false true = eot_flag
part_flags false false = 0

-- The packet, with `send_prefixes`.
pub record Part : Type 0 where
  pub chunk : Chunk
  pub send_prefixes : ℕ

module _ ⦃ll : LinkList⦄ where
  -- A destination that the filter of received routes denies is lost to the state machine too.
  unfoldable pub part_filter : ℕ → ℕ → Prefix → M (Unit {0})
  part_filter nbr p d = do
    route ← prefix_descriptor_lookup d.entries nbr
    fsm_event (record {
      packet_type = opc_update;
      adv_router = some nbr;
      route = route;
      prefix = p;
      data_type = msg_int;
      metrics = record d.reported_metric { delay = max_metric };
    })

  module _ ⦃sl : StreamLib⦄ (filters : Filters) (eigrp_in : FilterSet) (intf_in : ℕ → FilterSet)
      (eigrp_out : FilterSet) (intf_out : ℕ → FilterSet) (router_id : ℕ) where
    -- The first successor, unless the filter denies the destination.
    unfoldable pub part_put : ℕ → ℕ → ℕ → Prefix → Part → M Part
    part_put nbr ei p d k =
        if update_prefix_apply filters eigrp_out (intf_out ei) d.destination
        then pure k
        else (get_successor p >>= λ found. expect (first found) >>= λ route. load_nbr nbr >>= λ n.
            put_route filters eigrp_out intf_out router_id n.codec ei k.chunk.packet route
            >>= λ length. pure (record {
              chunk = record k.chunk { length = u16 (k.chunk.length + length) };
              send_prefixes = suc k.send_prefixes;
            }))

    unfoldable pub part_prefix : ℕ → ℕ → ℕ → ℕ → Part → M Part
    part_prefix nbr ei list p k = do
      d ← load_prefix p
      next ← part_put nbr ei p d k
      when (update_prefix_apply filters eigrp_in (intf_in ei) d.destination) (part_filter nbr p d)
      l ← load_list list
      store_list list (ll.delete l p)
      pure next

    -- The loop over the table, which ends once the packet has its routes.
    unfoldable pub part_from : ℕ → ℕ → ℕ → List Dest → Part → M Part
    part_from nbr ei list [] k = pure k
    part_from nbr ei list (dest ∷ nodes) k = do
      info ← table_lookup_ipv4 dest
      elim info [
        | none ↦ part_from nbr ei list nodes k
        | some p ↦
            (part_prefix nbr ei list p k >>= λ next.
            if leb tlv_max_routes next.send_prefixes
            then pure next
            else part_from nbr ei list nodes next)
      ]

    module _ (wire : Wire) (nodes : List Dest) where
      -- The packet whose flags are known.
      unfoldable pub part_send : ℕ → Neighbor → ℕ → ℕ → ℕ → M (Unit {0})
      part_send nbr n ei list flags = do
        i ← load_intf ei
        w ← get
        chunk ←
            chunk_new wire (packet_mtu i.mtu) (some nbr) ei flags w.sequence_number
              n.recv_sequence_number
        k ← part_from nbr ei list nodes (record { chunk = chunk; send_prefixes = 0 })
        v ← get
        place_on_nbr_queue wire nbr (record k.chunk { seq_no = v.sequence_number })

      -- eigrp_update_send_GR_part: nothing behind the last packet.
      unfoldable pub send_gr_part : ℕ → M (Unit {0})
      send_gr_part nbr = do
        n ← load_nbr nbr
        when (not (is_last n.nbr_gr_packet_type)) do
          ei ← expect n.ei
          list ← expect n.nbr_gr_prefixes_send
          l ← load_list list
          let ends_here = leb (length l) tlv_max_routes
          update_nbr nbr
              (λ m. record m { nbr_gr_packet_type = if ends_here then part_last else part_na })
          part_send nbr n ei list (part_flags (is_first n.nbr_gr_packet_type) ends_here)

      -- eigrp_update_send_GR_event, which runs itself again at once after a packet that is not the
      -- last: that run finds the packet in the queue and sets the timer.
      unfoldable pub send_gr_event : ℕ → ℕ → M (Unit {0})
      send_gr_event zero nbr = fault
      send_gr_event (suc runs) nbr = do
        n ← load_nbr nbr
        (if ltb 0 n.retrans_queue.count
            then update_nbr nbr (λ m. record m { t_nbr_send_gr = true })
            else (send_gr_part nbr
                >> (load_nbr nbr >>= λ m.
                    when (not (is_last m.nbr_gr_packet_type)) (send_gr_event runs nbr))))

      unfoldable pub table_prefixes : List Dest → List ℕ → M (List ℕ)
      table_prefixes [] l = pure l
      table_prefixes (dest ∷ dests) l = do
        info ← table_lookup_ipv4 dest
        table_prefixes dests (elim info [ none ↦ l | some p ↦ ll.add l p ])

      -- eigrp_update_send_GR
      unfoldable pub update_send_gr : ℕ → M (Unit {0})
      update_send_gr nbr = do
        l ← table_prefixes nodes []
        list ← list_new l
        update_nbr nbr
            (λ n. record n { nbr_gr_prefixes_send = some list; nbr_gr_packet_type = part_first })
        send_gr_event 2 nbr

      -- eigrp_update_send_interface_GR, eigrp_update_send_process_GR
      unfoldable pub send_gr_from : List ℕ → M (Unit {0})
      send_gr_from [] = pure tt
      send_gr_from (nbr ∷ nbrs) = do update_send_gr nbr; send_gr_from nbrs

      unfoldable pub send_interface_gr : ℕ → M (Unit {0})
      send_interface_gr ei = do i ← load_intf ei; send_gr_from i.nbrs

      unfoldable pub send_intfs_gr : List ℕ → M (Unit {0})
      send_intfs_gr [] = pure tt
      send_intfs_gr (ei ∷ eis) = do send_interface_gr ei; send_intfs_gr eis

      unfoldable pub send_process_gr : M (Unit {0})
      send_process_gr = do w ← get; send_intfs_gr w.eiflist
