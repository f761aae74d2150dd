-- ===== src/Queue/Refines.antt =====
-- The queues refine a list from the newest packet to the oldest.
use eigrpd.Base.{
  ℕ, suc, ◌-◌, ◌≡◌, refl, ap, ◌∙◌, Bool, true, false, Option, none, some, List, [], ◌∷◌, ◌==◌,
  if◌then◌else◌, length, arith,
}
use mathlib.Core.Path.{subst}
use eigrpd.State.{write}
use eigrpd.State.{Cell, Cells, Queue, queue_new}
use eigrpd.Queue.{
  update_cell, link_back, packet_enqueue, cut, packet_dequeue_tail, packet_dequeue, packet_free,
  free_from, queue_reset,
}
use eigrpd.Queue.Chain.{
  NotIn, Distinct, Chain, Chain-write, last_of, second_last, init_of, Chain-last, Chain-one,
  Chain-back, Chain-init, Distinct-init_of, length-init_of,
}

-- A queue that holds a list of packets, the newest first.
pub record Represents (cells : Cells) (q : Queue) (l : List ℕ) : Type 0 where
  pub chain : Chain cells none q.head l q.tail
  pub count : q.count ≡ length l
  pub distinct : Distinct l

-- The head's packet is new.
push_empty :
    (q : Queue) (p : ℕ) (c : Cell) (cells : Cells)
    → cells p ≡ some c
    → Represents cells q []
    → (r : Queue) × (after : Cells) × (packet_enqueue q p cells ≡ some (r, after))
      × Represents after r (p ∷ [])
      × ((y : ℕ) → NotIn y (p ∷ []) → after y ≡ cells y)
unfolding packet_enqueue link_back update_cell
push_empty q p c cells e h =
    let here : (p == p) ≡ true = ground arith in
    let none_queued : (q.count == 0) ≡ true = ground (arith, h.count) in
    let linked = record c { next = q.head; previous = none } in
    (
      record { head = some p; tail = some p; count = suc q.count },
      write cells p (some linked),
      rw (e, none_queued, h.chain.1) refl,
      record {
        chain = (refl, (linked, rw here refl, refl, (h.chain.0, refl)));
        count = ap suc h.count;
        distinct = (tt, tt);
      },
      λ y ny. ground (arith, ny.0),
    )

push_more :
    (q : Queue) (p x : ℕ) (l : List ℕ) (c : Cell) (cells : Cells)
    → cells p ≡ some c
    → NotIn p (x ∷ l)
    → Represents cells q (x ∷ l)
    → (r : Queue) × (after : Cells) × (packet_enqueue q p cells ≡ some (r, after))
      × Represents after r (p ∷ x ∷ l)
      × ((y : ℕ) → NotIn y (p ∷ x ∷ l) → after y ≡ cells y)
unfolding packet_enqueue link_back update_cell
push_more q p x l c cells e (nx, ns) h =
    let here : (p == p) ≡ true = ground arith in
    let here' : (x == x) ≡ true = ground arith in
    let other : (p == x) ≡ false = ground (arith, nx) in
    let some_queued : (q.count == 0) ≡ false = ground (arith, h.count) in
    let (eh, (d, ed, eb, rest)) = h.chain in
    let end : q.tail ≡ some (last_of x l) = Chain-last cells none q.head q.tail x l h.chain in
    let linked = record c { next = q.head; previous = none } in
    let old = record d { previous = some p } in
    let one = write cells p (some linked) in
    let both = write one x (some old) in
    (
      record { head = some p; tail = some (last_of x l); count = suc q.count },
      both,
      rw (e, some_queued, eh, nx, ed, end) refl,
      record {
        chain = (
          refl,
          (
            linked,
            rw (other, here) refl,
            refl,
            (
              eh,
              (
                old,
                rw here' refl,
                refl,
                Chain-write one (some x) d.next (some (last_of x l)) l x (some old) h.distinct.0 (
                    Chain-write cells (some x) d.next (some (last_of x l)) l p (some linked) ns
                      (subst (λ t. Chain cells (some x) d.next l t) end rest)),
              ),
            ),
          ),
        );
        count = ap suc h.count;
        distinct = ((nx, ns), h.distinct);
      },
      λ y ny. ground (arith, ny.0, ny.1.0),
    )

-- Enqueuing, with the heap outside the list.
pub packet_enqueue_within :
    (q : Queue) (p : ℕ) (l : List ℕ) (c : Cell) (cells : Cells)
    → cells p ≡ some c
    → NotIn p l
    → Represents cells q l
    → (r : Queue) × (after : Cells) × (packet_enqueue q p cells ≡ some (r, after))
      × Represents after r (p ∷ l)
      × ((y : ℕ) → NotIn y (p ∷ l) → after y ≡ cells y)
packet_enqueue_within q p [] c cells e n h = push_empty q p c cells e h
packet_enqueue_within q p (x ∷ l) c cells e n h = push_more q p x l c cells e n h

-- Enqueuing a live packet that the queue does not hold puts it in front of the list; no pointer
-- that the code follows is null or freed.
pub packet_enqueue-Represents :
    (q : Queue) (p : ℕ) (l : List ℕ) (c : Cell) (cells : Cells)
    → cells p ≡ some c
    → NotIn p l
    → Represents cells q l
    → (r : Queue) × (after : Cells) × (packet_enqueue q p cells ≡ some (r, after))
      × Represents after r (p ∷ l)
packet_enqueue-Represents q p l c cells e n h =
    let (r, after, run, done, _) = packet_enqueue_within q p l c cells e n h in
    (r, after, run, done)

-- Dequeuing from a queue that holds a packet gives the list's last one, the oldest, and leaves the
-- others in their order; no pointer that the code follows is null or freed.
pub packet_dequeue-Represents :
    (q : Queue) (a : ℕ) (l : List ℕ) (cells : Cells)
    → Represents cells q (a ∷ l)
    → (r : Queue) × (after : Cells) × (packet_dequeue q cells
        ≡ some (some (last_of a l), (r, after)))
      × Represents after r (init_of a l)
unfolding packet_dequeue packet_dequeue_tail cut update_cell
packet_dequeue-Represents q a [] cells h =
    let end : q.tail ≡ some a = Chain-last cells none q.head q.tail a [] h.chain in
    let (c, ec, eb) = Chain-one cells none q.head q.tail a h.chain in
    (
      record { head = none; tail = none; count = q.count - 1 },
      cells,
      rw (end, ec, eb) refl,
      record { chain = (refl, refl); count = omega (arith, h.count); distinct = tt },
    )
packet_dequeue-Represents q a (b ∷ l) cells h =
    let end : q.tail ≡ some (last_of b l) = Chain-last cells none q.head q.tail a (b ∷ l) h.chain in
    let (c, ec, eb) = Chain-back cells none q.head q.tail a b l h.chain in
    let (r, er, rest) = Chain-init cells none q.head q.tail a b l h.distinct h.chain in
    (
      record { head = q.head; tail = some (second_last a b l); count = q.count - 1 },
      write cells (second_last a b l) (some (record r { next = none })),
      rw (end, ec, eb, er) refl,
      record {
        chain = rest;
        count = omega (arith, h.count, length-init_of a (b ∷ l));
        distinct = Distinct-init_of a (b ∷ l) h.distinct;
      },
    )

-- Whether a packet is in a list.
abbrev pub holds : List ℕ → ℕ → Bool
holds [] p = false
holds (x ∷ l) p = let rest = holds l p in if p == x then true else rest

freed : List ℕ → Cells → Cells
freed [] cells = cells
freed (x ∷ l) cells = freed l (write cells x none)

swap :
    {A : Type 0} (b c : Bool) (o : Option A)
    → (if c then none else if b then none else o) ≡ (if (if b then true else c) then none else o)
swap true true o = refl
swap true false o = refl
swap false true o = refl
swap false false o = refl

freed_lem :
    (l : List ℕ) (cells : Cells) (p : ℕ) → freed l cells p ≡ (if holds l p then none else cells p)
unfolding freed
freed_lem [] cells p = refl
freed_lem (x ∷ l) cells p = freed_lem l (write cells x none) p ∙ swap (p == x) (holds l p) (cells p)

free_from_lem :
    (cells : Cells) (before first last : Option ℕ) (l : List ℕ)
    → Distinct l
    → Chain cells before first l last
    → free_from (length l) first cells ≡ some (freed l cells)
unfolding free_from packet_free freed
free_from_lem cells before first last [] d (e, el) = rw e refl
free_from_lem cells before first last (x ∷ l) (n, d) (e, (c, ec, eb, h)) =
    rw (e, ec)
      (free_from_lem (write cells x none) (some x) c.next last l d
        (Chain-write cells (some x) c.next last l x none n h))

-- Resetting a queue frees each of its packets once, and no other packet, and ends: as many rounds as
-- the queue counts are enough.
pub queue_reset-Represents :
    (q : Queue) (l : List ℕ) (cells : Cells)
    → Represents cells q l
    → (after : Cells) × (queue_reset q cells ≡ some (queue_new, after))
      × Represents after queue_new []
      × ((p : ℕ) → after p ≡ (if holds l p then none else cells p))
unfolding queue_reset
queue_reset-Represents q l cells h = (
  freed l cells,
  rw (h.count, free_from_lem cells none q.head q.tail l h.distinct h.chain) refl,
  record { chain = (refl, refl); count = refl; distinct = tt },
  freed_lem l cells,
)
