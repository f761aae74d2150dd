-- ===== src/Update/Multicast.antt =====
-- The updates of changed destinations to all neighbors of an interface: eigrp_update_send and
-- eigrp_update_packetize_all of eigrpd/eigrp_update.c.
use eigrpd.Base.{
  ℕ, ◌+◌, Bool, true, false, not, Option, none, some, List, [], ◌∷◌, ltb, ◌==◌, if◌then◌else◌, u16,
  u32,
}
use eigrpd.LinkList.{LinkList}
use eigrpd.Stream.{StreamLib}
use eigrpd.State.{
  Prefix, M, pure, get, modify, expect, when, ◌>>=◌, ◌>>◌, load_route, load_prefix, load_intf,
  update_prefix,
}
use eigrpd.Filter.{Filters, FilterSet, update_prefix_apply}
use eigrpd.Neighbor.{split_horizon_check}
use eigrpd.Fsm.Event.{head?}
use eigrpd.Packetizer.{query_encoder_neighbor}
use eigrpd.Topology.{same_pointer}
use eigrpd.Session.{Wire, packet_mtu, authenticate}
use eigrpd.Update.Send.{
  tlv_max_ipv4, Chunk, free_packet, send_to_all_nbrs, chunk_new, seal_multicast, put_route,
}

-- The packet, and `has_tlv`.
pub record Changes : Type 0 where
  pub chunk : Chunk
  pub has_tlv : Bool

module _ (wire : Wire) where
  -- The packet is full: it is sent, and filled further as it is.
  unfoldable pub send_full : ℕ → Changes → M Changes
  send_full ei c = do
    let k = c.chunk
    seal_multicast wire ei k.packet k.length k.seq_no
    send_to_all_nbrs ei k.packet
    length ← authenticate wire ei k.packet
    pure (record {
      chunk = record k { seq_no = u32 (k.seq_no + 1); length = u16 (k.length + length) };
      has_tlv = false;
    })

  -- What has a TLV is sent, anything else freed.
  unfoldable pub send_rest : ℕ → Changes → M (Unit {0})
  send_rest ei c =
      if c.has_tlv
      then (get >>= λ w.
          seal_multicast wire ei c.chunk.packet c.chunk.length w.sequence_number
          >> send_to_all_nbrs ei c.chunk.packet
          >> modify (λ v. record v { sequence_number = c.chunk.seq_no }))
      else free_packet c.chunk.packet

module _ ⦃sl : StreamLib⦄ (filters : Filters) (eigrp_out : FilterSet) (intf_out : ℕ → FilterSet)
    (router_id : ℕ) (wire : Wire) where
  -- A route that no filter denies is encoded.
  unfoldable pub change_put : ℕ → Prefix → ℕ → Changes → M Changes
  change_put ei d route c =
      if update_prefix_apply filters eigrp_out (intf_out ei) d.destination
      then pure c
      else (load_intf ei >>= λ i.
          put_route filters eigrp_out intf_out router_id i.encoder ei c.chunk.packet route
          >>= λ length. pure (
              if length == 0 then c else record {
                chunk = record c.chunk { length = u16 (c.chunk.length + length) };
                has_tlv = true;
              }))

  -- A destination that wants an update: its first route, unless that came from the interface.
  unfoldable pub change_route : ℕ → ℕ → Prefix → Changes → M Changes
  change_route mtu ei d c = do
    route ← expect (head? d.entries)
    r ← load_route route
    (if split_horizon_check r ei
        then pure c
        else ((if ltb mtu (c.chunk.length + tlv_max_ipv4) then send_full wire ei c else pure c)
            >>= λ room. change_put ei d route room))

  unfoldable pub changes_from : ℕ → ℕ → List ℕ → Changes → M Changes
  changes_from mtu ei [] c = pure c
  changes_from mtu ei (p ∷ ps) c = do
    d ← load_prefix p
    next ← if d.need_update then change_route mtu ei d c else pure c
    changes_from mtu ei ps next

  -- eigrp_update_send: nothing on an interface without neighbors.
  unfoldable pub update_send : ℕ → M (Unit {0})
  update_send ei = do
    i ← load_intf ei
    elim i.nbrs [
      | [] ↦ pure tt
      | _ ∷ _ ↦ do
        w ← get
        first ← chunk_new wire (u16 (packet_mtu i.mtu)) none ei 0 w.sequence_number 0
        last ←
            changes_from (u16 (packet_mtu i.mtu)) ei w.topology_changes
              (record { chunk = first; has_tlv = false })
        send_rest wire ei last
    ]

  -- An interface with a neighbor that is up, but for the exception.
  unfoldable pub packetize_intf : Option ℕ → ℕ → M (Unit {0})
  packetize_intf exception ei =
      if same_pointer exception ei
      then pure tt
      else (load_intf ei >>= λ i. query_encoder_neighbor i.nbrs >>= λ nbr. elim nbr [
        | none ↦ pure tt
        | some _ ↦ update_send ei
      ])

  unfoldable pub packetize_from : Option ℕ → List ℕ → M (Unit {0})
  packetize_from exception [] = pure tt
  packetize_from exception (ei ∷ eis) = do packetize_intf exception ei; packetize_from exception eis

module _ ⦃ll : LinkList⦄ where
  -- A destination whose update has been packetized; it stays in the list while it wants a query.
  unfoldable pub updated : ℕ → M (Unit {0})
  updated p = do
    d ← load_prefix p
    when d.need_update do
      update_prefix p (λ e. record e { need_update = false })
      when (not d.need_query)
          (modify (λ w. record w { topology_changes = ll.delete w.topology_changes p }))

  unfoldable pub updated_from : List ℕ → M (Unit {0})
  updated_from [] = pure tt
  updated_from (p ∷ ps) = do updated p; updated_from ps

  module _ ⦃sl : StreamLib⦄ (filters : Filters) (eigrp_out : FilterSet) (intf_out : ℕ → FilterSet)
      (router_id : ℕ) (wire : Wire) where
    -- eigrp_update_packetize_all
    unfoldable pub packetize_all : Option ℕ → M (Unit {0})
    packetize_all exception = do
      w ← get
      packetize_from filters eigrp_out intf_out router_id wire exception w.eiflist
      v ← get
      updated_from v.topology_changes
