-- ===== src/Tests/Queue.antt =====
-- A queue of two packets, of which 7 is the older.
use eigrpd.Base.{ℕ, ◌≡◌, refl, false, Option, none, some, [], ◌∷◌, ◌==◌, if◌then◌else◌}
use eigrpd.State.{stream_new, Cell, Cells, Queue, queue_new}
use eigrpd.Queue.{packet_enqueue, packet_dequeue, queue_reset}
use eigrpd.Queue.Refines.{
  Represents, holds, packet_enqueue-Represents, packet_dequeue-Represents, queue_reset-Represents,
}

abbrev packet : Option ℕ → Option ℕ → Cell
packet next previous = record {
  next = next;
  previous = previous;
  bytes = stream_new 1480;
  dst = 0;
  timer = false;
  retrans_counter = 0;
  nbr = some 0;
  sequence_number = 1;
  sequence_reserved = false;
  length = 20;
}

abbrev pub cells : Cells
cells p =
    if p == 7
    then some (packet none (some 8))
    else if p == 8
    then some (packet (some 7) none)
    else if p == 9
    then some (packet none none)
    else none

abbrev pub two : Queue
two = record { head = some 8; tail = some 7; count = 2 }

pub two-Represents : Represents cells two (8 ∷ 7 ∷ [])
two-Represents = record {
  chain = (refl, (_, refl, refl, (refl, (_, refl, refl, (refl, refl)))));
  count = refl;
  distinct = ((refl, tt), (tt, tt));
}

packet_enqueue-Represents_example :
    (r : Queue) × (after : Cells) × (packet_enqueue two 9 cells ≡ some (r, after))
    × Represents after r (9 ∷ 8 ∷ 7 ∷ [])
packet_enqueue-Represents_example =
    packet_enqueue-Represents two 9 (8 ∷ 7 ∷ []) (packet none none) cells refl (refl, (refl, tt))
      two-Represents

packet_dequeue-Represents_example :
    (r : Queue) × (after : Cells) × (packet_dequeue two cells ≡ some (some 7, (r, after)))
    × Represents after r (8 ∷ [])
packet_dequeue-Represents_example = packet_dequeue-Represents two 8 (7 ∷ []) cells two-Represents

queue_reset-Represents_example :
    (after : Cells) × (queue_reset two cells ≡ some (queue_new, after))
    × Represents after queue_new []
    × ((p : ℕ) → after p ≡ (if holds (8 ∷ 7 ∷ []) p then none else cells p))
queue_reset-Represents_example = queue_reset-Represents two (8 ∷ 7 ∷ []) cells two-Represents
