-- ===== src/Output.antt =====
-- Packets on their way out: eigrp_packet_output_enqueue and eigrp_packet_write of
-- eigrpd/eigrp_packet.c. What is handed to the socket is recorded.
pub mod Listed
pub mod Scheduled
pub mod Runs
use eigrpd.Base.{
  ℕ, Bool, true, false, not, Option, none, some, List, [], ◌∷◌, ◌++◌, ltb, ◌==◌, if◌then◌else◌,
}
use eigrpd.LinkList.{LinkList}
use eigrpd.Stream.{over, bytes_w, bytes_l, long}
use eigrpd.State.{
  Cell, M, pure, fault, get, modify, expect, when, ◌>>=◌, ◌>>◌, load_nbr, load_intf, update_intf,
}
use eigrpd.Packet.Framing.{header_len}
use eigrpd.Queue.{packet_enqueue, queue_next, packet_dequeue}
use eigrpd.Session.{Wire, update_packet, checksum}
use eigrpd.Update.Send.{free_packet}

-- eigrp_packet_output_enqueue
unfoldable pub output_enqueue : ℕ → ℕ → M (Unit {0})
output_enqueue ei p = do
  i ← load_intf ei
  w ← get
  r ← expect (packet_enqueue i.obuf p w.packets)
  modify (λ v. record v {
    packets = r.1;
    oi_write_q = if i.on_write_q then v.oi_write_q else v.oi_write_q ++ ei ∷ [];
    t_write = true;
  })
  update_intf ei (λ j. record j { obuf = r.0; on_write_q = true })

unfoldable pub free_dequeued : Option ℕ → M (Unit {0})
free_dequeued none = pure tt
free_dequeued (some p) = free_packet p

-- eigrp_packet_delete
unfoldable pub packet_delete : ℕ → M (Unit {0})
packet_delete ei = do
  i ← load_intf ei
  w ← get
  r ← expect (packet_dequeue i.obuf w.packets)
  modify (λ v. record v { packets = r.1.1 })
  update_intf ei (λ j. record j { obuf = r.1.0 })
  free_dequeued r.0

-- The event is set again while an interface waits.
abbrev pub waits : List ℕ → Bool
waits [] = false
waits (ei ∷ eis) = true

-- eigrp_intf_stream_unset of eigrpd/eigrp_interface.c: an interface that goes down.
unfoldable pub stream_unset : ⦃ll : LinkList⦄ → ℕ → M (Unit {0})
stream_unset ⦃ll = ll⦄ ei = do
  i ← load_intf ei
  when i.on_write_q do
    modify (λ w.
        let l = ll.delete w.oi_write_q ei in
        record w { oi_write_q = l; t_write = if waits l then w.t_write else false })
    update_intf ei (λ j. record j { on_write_q = false })

module _ (wire : Wire) where
  -- The acknowledgement is the neighbor's last number by now; the checksum is made anew.
  abbrev pub acked : ℕ → Cell → Cell
  acked recv c =
      if long c.bytes.byte 12 == recv
      then c
      else (let s = c.bytes in
          record c {
            bytes =
                checksum wire c.length
                  (record s { byte = over (over s.byte 12 (bytes_l recv)) 2 (bytes_w 0) });
          })

  unfoldable pub refresh_ack : ℕ → Option ℕ → M (Unit {0})
  refresh_ack p none = pure tt
  refresh_ack p (some nbr) = do n ← load_nbr nbr; update_packet p (acked n.recv_sequence_number)

  -- `sendmsg`, whose failure is logged.
  unfoldable pub transmit : ℕ → ℕ → M (Unit {0})
  transmit ei p = do
    w ← get
    c ← expect (w.packets p)
    modify (λ v. record v { sent = v.sent ++ (ei, c) ∷ [] })

  -- The next packet; one that is shorter than a header is dropped.
  unfoldable pub write_next : ℕ → ℕ → M (Unit {0})
  write_next ei p = do
    w ← get
    c ← expect (w.packets p)
    when (not (ltb c.length header_len)) (refresh_ack p c.nbr >> transmit ei p)
    packet_delete ei

  unfoldable pub write_obuf : ℕ → Option ℕ → M (Unit {0})
  write_obuf ei none = pure tt
  write_obuf ei (some p) = write_next ei p

  -- An interface whose queue is empty leaves the list.
  unfoldable pub write_done : ℕ → List ℕ → Option ℕ → M (Unit {0})
  write_done ei eis (some p) = pure tt
  write_done ei eis none = do
    update_intf ei (λ i. record i { on_write_q = false })
    modify (λ v. record v { oi_write_q = eis })

  unfoldable pub write_from : List ℕ → M (Unit {0})
  write_from [] = fault
  write_from (ei ∷ eis) = do
    i ← load_intf ei
    write_obuf ei (queue_next i.obuf)
    j ← load_intf ei
    write_done ei eis (queue_next j.obuf)
    modify (λ v. record v { t_write = waits v.oi_write_q })

  -- eigrp_packet_write: the event has fired, and is not pending.
  unfoldable pub packet_write : M (Unit {0})
  packet_write = do modify (λ v. record v { t_write = false }); w ← get; write_from w.oi_write_q
