-- ===== src/Queue.antt =====
-- The packet queues of eigrpd/eigrp_packet.c: doubly linked lists of packets, filled at the head and
-- emptied at the tail.
pub mod Chain
pub mod Refines
use eigrpd.Base.{
  ℕ, zero, suc, ◌+◌, ◌-◌, Bool, false, Option, none, some, ◌==◌, ◌>>=?◌, if◌then◌else◌, u8,
}
use eigrpd.State.{Cell, Cells, Queue, queue_new, write}

-- Changing the fields of a packet; a null or freed packet is a fault, which is `none`.
unfoldable pub update_cell : Option ℕ → (Cell → Cell) → Cells → Option Cells
update_cell none f cells = none
update_cell (some p) f cells = cells p >>=? λ c. some (write cells p (some (f c)))

-- The old head's link back, which is there unless the queue was empty.
unfoldable pub link_back : Queue → ℕ → Cells → Option Cells
link_back q p cells =
    if q.count == 0
    then some cells
    else update_cell q.head (λ c. record c { previous = some p }) cells

-- eigrp_packet_enqueue
unfoldable pub packet_enqueue : Queue → ℕ → Cells → Option (Queue × Cells)
packet_enqueue q p cells =
    update_cell (some p) (λ c. record c { next = q.head; previous = none }) cells >>=? λ linked.
    link_back q p linked >>=? λ both. some (
      record {
        head = some p;
        tail = elim q.tail [ none ↦ some p | some t ↦ some t ];
        count = suc q.count;
      },
      both,
    )

-- eigrp_packet_queue_next
abbrev pub queue_next : Queue → Option ℕ
queue_next q = q.tail

-- What is left of the queue, once its tail is the packet before.
unfoldable pub cut : Option ℕ → Queue → Cells → Option (Queue × Cells)
cut none q cells = some (record { head = none; tail = none; count = q.count - 1 }, cells)
cut (some r) q cells = update_cell (some r) (λ c. record c { next = none }) cells >>=? λ ended.
    some (record { head = q.head; tail = some r; count = q.count - 1 }, ended)

-- eigrp_packet_dequeue; `count` is above 0 where there is a tail.
unfoldable pub packet_dequeue_tail : Option ℕ → Queue → Cells → Option (Option ℕ × (Queue × Cells))
packet_dequeue_tail none q cells = some (none, (q, cells))
packet_dequeue_tail (some p) q cells =
    cells p >>=? λ c. cut c.previous q cells >>=? λ r. some (some p, r)

unfoldable pub packet_dequeue : Queue → Cells → Option (Option ℕ × (Queue × Cells))
packet_dequeue q cells = packet_dequeue_tail q.tail q cells

-- eigrp_packet_free
unfoldable pub packet_free : ℕ → Cells → Option Cells
packet_free p cells = cells p >>=? λ c. some (write cells p none)

-- The loop of eigrp_packet_queue_free and eigrp_packet_queue_reset, on fuel.
unfoldable pub free_from : ℕ → Option ℕ → Cells → Option Cells
free_from fuel none cells = some cells
free_from zero (some p) cells = none
free_from (suc fuel) (some p) cells =
    cells p >>=? λ c. packet_free p cells >>=? λ freed. free_from fuel c.next freed

-- eigrp_packet_queue_reset: a queue of `count` packets takes as many rounds.
unfoldable pub queue_reset : Queue → Cells → Option (Queue × Cells)
queue_reset q cells = free_from q.count q.head cells >>=? λ freed. some (queue_new, freed)
