-- ===== src/Retransmit.antt =====
-- Retransmission of reliable packets, in eigrpd/eigrp_packet.c: a neighbor's queues of packets that
-- are not acknowledged, and the interface's queue of packets to write.
pub mod Shared
pub mod Attempt
use eigrpd.Base.{
  ℕ, ◌+◌, Bool, true, false, Option, none, some, List, [], ◌∷◌, ◌++◌, ◌==◌, ◌>>=?◌, if◌then◌else◌,
  u8,
}
use eigrpd.State.{write}
use eigrpd.Packet.{next_sequence}
use eigrpd.State.{stream_new, Cell, Cells, Queue}
use eigrpd.Queue.{update_cell, packet_enqueue, queue_next}

-- EIGRP_PACKET_RETRANS_MAX
abbrev pub retrans_max : ℕ
retrans_max = 16

-- The heap of packets, the neighbor's queues, and what the interface and the instance keep for
-- writing; `ei` is the interface, and `t_write` says whether the write event is pending.
pub record Link : Type 0 where
  pub cells : Cells
  pub nbr : ℕ
  pub src : ℕ
  pub retrans_queue : Queue
  pub multicast_queue : Queue
  pub ei : ℕ
  pub obuf : Queue
  pub on_write_q : Bool
  pub oi_write_q : List ℕ
  pub t_write : Bool
  pub sequence_number : ℕ

-- eigrp_packet_new; `fresh` is the address that the host's allocator gives.
abbrev pub packet_new : ℕ → Option ℕ → Cell
packet_new size nbr = record {
  next = none;
  previous = none;
  bytes = stream_new size;
  dst = 0;
  timer = false;
  retrans_counter = 0;
  nbr = nbr;
  sequence_number = 0;
  sequence_reserved = false;
  length = 0;
}

-- eigrp_packet_duplicate. The copy's stream has the size of the old one's, which was made with the
-- interface's MTU, where the source takes the MTU of the moment.
unfoldable pub packet_duplicate : ℕ → ℕ → ℕ → Cells → Option Cells
packet_duplicate fresh old nbr cells = cells old >>=? λ c. some (
    write cells fresh (
      some (record (packet_new c.bytes.size (some nbr)) {
        length = c.length;
        retrans_counter = c.retrans_counter;
        dst = c.dst;
        sequence_number = c.sequence_number;
        sequence_reserved = c.sequence_reserved;
        bytes = c.bytes;
      })))

-- eigrp_packet_output_enqueue
unfoldable pub packet_output_enqueue : ℕ → Link → Option Link
packet_output_enqueue p l = packet_enqueue l.obuf p l.cells >>=? λ r. some (record l {
  cells = r.1;
  obuf = r.0;
  on_write_q = true;
  oi_write_q = if l.on_write_q then l.oi_write_q else l.oi_write_q ++ l.ei ∷ [];
  t_write = true;
})

-- eigrp_packet_retransmit_timer_start
unfoldable pub retransmit_timer_start : Link → Option Link
retransmit_timer_start l = elim (queue_next l.retrans_queue) [
  | none ↦ some l
  | some p ↦
      (update_cell (some p) (λ c. record c { timer = true }) l.cells >>=? λ cells.
      some (record l { cells = cells }))
]

-- The number of a packet that did not reserve it is counted when it is sent.
unfoldable pub sequence_take : ℕ → Link → Option Link
sequence_take p l = l.cells p >>=? λ c.
    (if c.sequence_reserved
      then some l
      else some (record l {
        sequence_number = next_sequence l.sequence_number;
        cells = write l.cells p (some (record c { sequence_reserved = true }));
      }))

-- eigrp_packet_send_reliably
unfoldable pub send_first : ℕ → Option ℕ → Link → Option Link
send_first fresh none l = some l
send_first fresh (some p) l = packet_duplicate fresh p l.nbr l.cells >>=? λ cells.
    packet_output_enqueue fresh (record l { cells = cells }) >>=? λ out.
    retransmit_timer_start out >>=? λ timed. sequence_take p timed

unfoldable pub send_reliably : ℕ → Link → Option Link
send_reliably fresh l = send_first fresh (queue_next l.retrans_queue) l

-- One attempt more. At the last one eigrp_retrans_count_exceeded is called, which does nothing, and
-- the timer is not started.
abbrev pub attempted : Cell → Cell
attempted c = record c {
  retrans_counter = u8 (c.retrans_counter + 1);
  timer = if u8 (c.retrans_counter + 1) == retrans_max then c.timer else true;
}

unfoldable pub retrans_from : ℕ → Option ℕ → Link → Option Link
retrans_from fresh none l = some l
retrans_from fresh (some p) l = packet_duplicate fresh p l.nbr l.cells >>=? λ cells.
    update_cell (some fresh) (λ c. record c { dst = l.src }) cells >>=? λ addressed.
    packet_output_enqueue fresh (record l { cells = addressed }) >>=? λ out.
    update_cell (some p) attempted out.cells >>=? λ counted. some (record out { cells = counted })

-- eigrp_packet_unack_retrans, eigrp_packet_unack_multicast_retrans
unfoldable pub unack_retrans : ℕ → Link → Option Link
unack_retrans fresh l = retrans_from fresh (queue_next l.retrans_queue) l

unfoldable pub unack_multicast_retrans : ℕ → Link → Option Link
unack_multicast_retrans fresh l = retrans_from fresh (queue_next l.multicast_queue) l
