-- ===== src/Acknowledge.antt =====
-- A received acknowledgement: eigrp_packet_ack of eigrpd/eigrp_packet.c.
use eigrpd.Base.{ℕ, Bool, false, ◌&&◌, Option, none, some, List, ltb, ◌==◌, if◌then◌else◌}
use eigrpd.Stream.{StreamLib}
use eigrpd.State.{
  Queue, Dest, up, M, pure, get, modify, expect, when, ◌>>=◌, ◌>>◌, load_nbr, update_nbr,
}
use eigrpd.Filter.{Filters, FilterSet}
use eigrpd.Queue.{queue_next, packet_dequeue}
use eigrpd.Session.{Wire, nbr_send_reliably, nbr_state_set}
use eigrpd.Update.{is_pending}
use eigrpd.Update.Send.{free_packet, update_send_eot}

-- The next packet of a queue is taken off it and freed.
unfoldable pub drop_packet : Queue → M Queue
drop_packet q = do
  w ← get
  r ← expect (packet_dequeue q w.packets)
  modify (λ v. record v { packets = r.1.1 })
  p ← expect r.0
  free_packet p
  pure r.1.0

-- Whether the queue's next packet has the number.
unfoldable pub is_next : Option ℕ → ℕ → M Bool
is_next none ack = pure false
is_next (some p) ack = do w ← get; c ← expect (w.packets p); pure (ack == c.sequence_number)

module _ ⦃sl : StreamLib⦄ (filters : Filters) (eigrp_out : FilterSet) (intf_out : ℕ → FilterSet)
    (router_id : ℕ) (wire : Wire) (nodes : List Dest) where
  -- The answer to the INIT update: the adjacency is full.
  unfoldable pub become_full : ℕ → ℕ → M (Unit {0})
  become_full nbr sequence = do
    nbr_state_set nbr up
    update_nbr nbr (λ n. record n { init_sequence_number = 0; recv_sequence_number = sequence })
    update_send_eot filters eigrp_out intf_out router_id wire nodes nbr

  unfoldable pub ack_retrans : ℕ → ℕ → ℕ → M (Unit {0})
  ack_retrans nbr ack sequence = do
    n ← load_nbr nbr
    q ← drop_packet n.retrans_queue
    update_nbr nbr (λ m. record m { retrans_queue = q })
    (if is_pending n.state && ack == n.init_sequence_number
        then become_full nbr sequence
        else nbr_send_reliably nbr)

  unfoldable pub ack_multicast : ℕ → M (Unit {0})
  ack_multicast nbr = do
    n ← load_nbr nbr
    q ← drop_packet n.multicast_queue
    update_nbr nbr (λ m. record m { multicast_queue = q })
    when (ltb 0 q.count) (nbr_send_reliably nbr)

  -- eigrp_packet_ack
  unfoldable pub packet_ack : ℕ → ℕ → ℕ → M (Unit {0})
  packet_ack nbr ack sequence = do
    n ← load_nbr nbr
    acked ← is_next (queue_next n.retrans_queue) ack
    when acked (ack_retrans nbr ack sequence)
    m ← load_nbr nbr
    also ← is_next (queue_next m.multicast_queue) ack
    when also (ack_multicast nbr)
