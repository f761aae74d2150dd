-- ===== src/Update.antt =====
-- The handler of updates, eigrp_update_receive of eigrpd/eigrp_update.c.
pub mod Graceful
pub mod Down
pub mod Learn
pub mod Send
pub mod Multicast
pub mod Chunks
pub mod Frame
pub mod Walks
pub mod Held
pub mod Dangling
pub mod Rounds
use eigrpd.Base.{
  ℕ, zero, suc, ◌+◌, ◌*◌, Bool, true, false, not, ◌&&◌, Option, none, some, List, [], ◌∷◌, ◌==◌,
  if◌then◌else◌, length, u32,
}
use Prim.Native.Nat.{bit_and}
use eigrpd.Metric.{Metrics, max_metric, calculate_metrics, calculate_total_metrics}
use eigrpd.LinkList.{LinkList}
use eigrpd.State.{
  Dest, Route, TopologyType, remote, remote_external, passive, NbrState, down, pending, up, World,
  M, pure, fault, get, modify, expect, when, ◌>>=◌, ◌>>◌, write, load_route, load_prefix, load_nbr,
  load_intf, update_route, update_prefix, update_nbr, update_intf,
}
use eigrpd.Filter.{Filters, FilterSet, update_prefix_apply}
use eigrpd.Neighbor.{is_up}
use eigrpd.Packetizer.{opc_update, query_send_all, update_send_all}
use eigrpd.Topology.{Msg, msg_int, same_pointer, prefix_descriptor_lookup, update_node_flags}
use eigrpd.Topology.Table.{prefix_descriptor_add, route_descriptor_add}
use eigrpd.Topology.Walk.{table_lookup_ipv4, walk, neighbor_prefixes_from}
use eigrpd.Fsm.{fsm_event}
use eigrpd.Receive.{Decoder, tlv_ipv4_ext, prefix_create, hello_send_ack, receive_known}
use eigrpd.Session.{init_flag, cr_flag, rs_flag, eot_flag, Wire, update_send_init, nbr_state_set}
use eigrpd.Update.Graceful.{
  load_list, list_new, list_delete, remove_received_prefix_gr, gr_ask, neighbor_prefixes_lookup,
}
use eigrpd.Update.Down.{topology_neighbor_down}
use eigrpd.Update.Learn.{learn}

-- `graceful_restart`, `graceful_restart_final` and `nbr_prefixes`.
pub record Restart : Type 0 where
  pub restart : Bool
  pub final : Bool
  pub nbr_prefixes : Option ℕ

abbrev pub no_restart : Restart
no_restart = record { restart = false; final = false; nbr_prefixes = none }

abbrev pub is_pending : NbrState → Bool
is_pending down = false
is_pending pending = true
is_pending up = false

module _ ⦃ll : LinkList⦄ where
  module _ (filters : Filters) (instance_lists : FilterSet) (intf_lists : ℕ → FilterSet) where
    -- One route of the update.
    unfoldable pub update_known : Restart → ℕ → ℕ → ℕ → M (Unit {0})
    update_known gr nbr prefix route = do
      when gr.restart do list ← expect gr.nbr_prefixes; remove_received_prefix_gr list prefix
      receive_known opc_update nbr prefix route

    unfoldable pub update_route_in : Restart → ℕ → ℕ → ℕ → M (Unit {0})
    update_route_in gr nbr ei route = do
      r ← load_route route
      found ← table_lookup_ipv4 r.dest
      elim found [
        | some prefix ↦ update_known gr nbr prefix route
        | none ↦ learn filters instance_lists intf_lists nbr ei route
      ]

    module _ {S : Type 0} (decoder : Decoder S) where
      -- The loop: it ends with the packet, or with the first TLV that gives a route. `out` stands
      -- for what the loop does after the rounds that it is given.
      unfoldable pub update_from : M (Unit {0}) → ℕ → Restart → ℕ → ℕ → S → M (Unit {0})
      update_from out zero gr nbr ei s = if decoder.remaining s == 0 then pure tt else out
      update_from out (suc fuel) gr nbr ei s =
          if decoder.remaining s == 0
          then pure tt
          else (decoder.decode nbr s >>= λ r. elim r.0 [
            | none ↦ update_from out fuel gr nbr ei r.1
            | some route ↦ update_route_in gr nbr ei route
          ])

      module _ (wire : Wire) (stack : Metrics) (nodes : List Dest) where
        -- A peer that is up and starts anew.
        unfoldable pub peer_restarted : ℕ → ℕ → M (Unit {0})
        peer_restarted nbr sequence = do
          nbr_state_set nbr down
          topology_neighbor_down stack nodes nbr
          update_nbr nbr (λ n. record n { recv_sequence_number = sequence })
          nbr_state_set nbr pending
          update_send_init wire nbr

        -- An INIT update without a graceful restart.
        unfoldable pub init_received : ℕ → ℕ → M (Unit {0})
        init_received nbr sequence = do
          n ← load_nbr nbr
          when (is_pending n.state && n.init_sequence_number == 0) (update_send_init wire nbr)
          m ← load_nbr nbr
          when (is_up m.state) (peer_restarted nbr sequence)

        -- The restart's next packet, if one has begun.
        unfoldable pub gr_next : Bool → ℕ → M Restart
        gr_next final nbr = do
          n ← load_nbr nbr
          elim n.nbr_gr_prefixes [
            | none ↦ pure no_restart
            | some list ↦
                (when final (update_nbr nbr (λ m. record m { nbr_gr_prefixes = none }))
                  >> pure (record { restart = true; final = final; nbr_prefixes = some list }))
          ]

        -- The restart's first packet.
        unfoldable pub gr_first : Bool → ℕ → M Restart
        gr_first final nbr = do
          list ← neighbor_prefixes_lookup nbr nodes
          when (not final) (update_nbr nbr (λ m. record m { nbr_gr_prefixes = some list }))
          pure (record { restart = true; final = final; nbr_prefixes = some list })

        -- The flags of an update whose sequence number is new.
        unfoldable pub resync : ℕ → ℕ → ℕ → M Restart
        resync nbr flags sequence =
            if flags == init_flag + rs_flag + eot_flag
            then gr_first true nbr
            else if flags == init_flag + rs_flag
            then gr_first false nbr
            else if flags == eot_flag
            then gr_next true nbr
            else if flags == 0
            then gr_next false nbr
            else if not (bit_and flags init_flag == 0)
            then (init_received nbr sequence >> pure no_restart)
            else pure no_restart

        -- What the handler does with the packet, once its flags are read.
        unfoldable pub update_finish : ℕ → ℕ → ℕ → Restart → S → M (Unit {0})
        update_finish nbr ei flags gr s = do
          update_from fault (decoder.remaining s) gr nbr ei s
          when gr.final (gr_ask nbr gr.nbr_prefixes)
          n ← load_nbr nbr
          when (is_up n.state && not (flags == init_flag)) (hello_send_ack nbr)
          _ ← query_send_all
          update_send_all (some ei)
          list_delete gr.nbr_prefixes

        -- eigrp_update_receive: an update with the CR flag is counted and nothing else.
        unfoldable pub update_receive : ℕ → ℕ → ℕ → ℕ → S → M (Unit {0})
        update_receive nbr ei flags sequence s = do
          update_intf ei
              (λ i. let c = i.rcvd in record i { rcvd = record c { update = u32 (c.update + 1) } })
          when (bit_and flags cr_flag == 0) do
            n ← load_nbr nbr
            update_nbr nbr (λ m. record m { recv_sequence_number = sequence })
            gr ←
                if n.recv_sequence_number == sequence
                then pure no_restart
                else resync nbr flags sequence
            update_finish nbr ei flags gr s
