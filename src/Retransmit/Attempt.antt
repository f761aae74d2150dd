-- ===== src/Retransmit/Attempt.antt =====
-- An attempt to send a packet again: what it does to the neighbor's queue, to the interface's and to
-- the packet.
use eigrpd.Base.{ℕ, ◌≡◌, true, some, List, [], ◌∷◌, ◌++◌, if◌then◌else◌}
use eigrpd.State.{write}
use eigrpd.State.{Cell, Cells, Queue}
use eigrpd.Queue.Chain.{Chain}
use eigrpd.Queue.Refines.{Represents}
use eigrpd.Retransmit.{Link, packet_new, attempted}

-- What an attempt leaves: the copy is the newest packet to write, the queue is as it was, and its
-- oldest packet has one attempt more.
pub record Attempted (before after : Link) (fresh p : ℕ) (c : Cell) (q : Queue) (l m : List ℕ)
    : Type 0 where
  pub queued : Represents after.cells q l
  pub written : Represents after.cells after.obuf (fresh ∷ m)
  pub counted : after.cells p ≡ some (attempted c)
  pub unchanged : after.retrans_queue ≡ before.retrans_queue
  pub numbered : after.sequence_number ≡ before.sequence_number

-- The copy's heap, and what an attempt ends with.
abbrev copied : Link → ℕ → Cell → Cells
copied l fresh c = write l.cells fresh (
    some (record (packet_new c.bytes.size (some l.nbr)) {
      length = c.length;
      retrans_counter = c.retrans_counter;
      dst = c.dst;
      sequence_number = c.sequence_number;
      sequence_reserved = c.sequence_reserved;
      bytes = c.bytes;
    }))

abbrev sent : Link → Cell → Cell
sent l c = record (packet_new c.bytes.size (some l.nbr)) {
  length = c.length;
  retrans_counter = c.retrans_counter;
  dst = l.src;
  sequence_number = c.sequence_number;
  sequence_reserved = c.sequence_reserved;
  bytes = c.bytes;
}

abbrev addressed : Link → ℕ → Cell → Cells
addressed l fresh c = write (copied l fresh c) fresh (some (sent l c))

abbrev outcome : Link → Queue → Cells → ℕ → Cell → Link
outcome l r after p c = record l {
  cells = write after p (some (attempted c));
  obuf = r;
  on_write_q = true;
  oi_write_q = if l.on_write_q then l.oi_write_q else l.oi_write_q ++ l.ei ∷ [];
  t_write = true;
}
