-- ===== src/Retransmit/Shared.antt =====
-- Two queues on one heap of packets: what is done to one leaves the other's list alone.
use eigrpd.Base.{
  ℕ, ◌≡◌, refl, sym, ap, ◌∙◌, some_inj, Option, none, some, List, [], ◌∷◌, ◌==◌, Bool-cases, inl,
  inr, arith,
}
use mathlib.Core.Path.{subst}
use eigrpd.State.{write}
use eigrpd.State.{Cell, Cells, Queue}
use eigrpd.Queue.Chain.{NotIn, Chain, Chain-write, last_of}
use eigrpd.Queue.Refines.{Represents}

-- No packet of the first list is in the second.
abbrev pub Apart : List ℕ → List ℕ → Type 0
Apart [] m = Unit
Apart (x ∷ l) m = NotIn x m × Apart l m

pub Apart-cons : (p : ℕ) (l m : List ℕ) → NotIn p l → Apart l m → Apart l (p ∷ m)
Apart-cons p [] m n a = tt
Apart-cons p (x ∷ l) m (nx, ns) (ax, at) = ((ground (arith, nx), ax), Apart-cons p l m ns at)

pub Apart-last : (a : ℕ) (l m : List ℕ) → Apart (a ∷ l) m → NotIn (last_of a l) m
Apart-last a [] m (h, _) = h
Apart-last a (b ∷ l) m (h, t) = Apart-last b l m t

-- A free address is in no list.
pub Chain-NotIn :
    (cells : Cells) (before first last : Option ℕ) (l : List ℕ) (p : ℕ)
    → cells p ≡ none
    → Chain cells before first l last
    → NotIn p l
Chain-NotIn cells before first last [] p e h = tt
Chain-NotIn cells before first last (x ∷ l) p e (_, (c, ec, _, h)) = (
  elim (Bool-cases (x == p)) [
    | inl here ↦
        (let same : x ≡ p = ground (arith, here) in
          absurd (ground (arith, sym e ∙ ap cells (sym same) ∙ ec)))
    | inr other ↦ other
  ],
  Chain-NotIn cells (some x) c.next last l p e h,
)

-- A heap that agrees with another one outside a list that is apart.
pub Chain-Apart :
    (cells after : Cells) (before first last : Option ℕ) (l m : List ℕ)
    → ((y : ℕ) → NotIn y m → after y ≡ cells y)
    → Apart l m
    → Chain cells before first l last
    → Chain after before first l last
Chain-Apart cells after before first last [] m f a h = h
Chain-Apart cells after before first last (x ∷ l) m f (ax, at) (e, (c, ec, eb, h)) =
    (e, (c, f x ax ∙ ec, eb, Chain-Apart cells after (some x) c.next last l m f at h))

-- The links of a packet decide; its other fields may change.
pub Chain-touch :
    (cells : Cells) (before first last : Option ℕ) (l : List ℕ) (p : ℕ) (c d : Cell)
    → cells p ≡ some c
    → d.next ≡ c.next
    → d.previous ≡ c.previous
    → Chain cells before first l last
    → Chain (write cells p (some d)) before first l last
Chain-touch cells before first last [] p c d ep en eq h = h
Chain-touch cells before first last (x ∷ l) p c d ep en eq (e, (b, eb, ebefore, h)) =
    elim (Bool-cases (x == p)) [
      | inl here ↦
          (let same : x ≡ p = ground (arith, here) in
            let one : b ≡ c = some_inj (sym eb ∙ ap cells same ∙ ep) in
            let rest : Chain cells (some x) d.next l last =
              subst (λ n. Chain cells (some x) n l last) (ap (λ k. k.next) one ∙ sym en) h in
            (
              e,
              (
                d,
                rw here refl,
                eq ∙ ap (λ k. k.previous) (sym one) ∙ ebefore,
                Chain-touch cells (some x) d.next last l p c d ep en eq rest,
              ),
            ))
      | inr other ↦
          (e, (b, rw other eb, ebefore, Chain-touch cells (some x) b.next last l p c d ep en eq h))
    ]

module _ (cells : Cells) (q : Queue) (l : List ℕ) where
  pub Represents-write :
      (p : ℕ) (o : Option Cell)
      → NotIn p l
      → Represents cells q l
      → Represents (write cells p o) q l
  Represents-write p o n h = record {
    chain = Chain-write cells none q.head q.tail l p o n h.chain;
    count = h.count;
    distinct = h.distinct;
  }
