-- ===== src/Queue/Chain.antt =====
-- The list that a queue's links hold, from the head to the tail.
use eigrpd.Base.{
  ℕ, suc, ◌≡◌, refl, ap, true, false, Option, none, some, List, [], ◌∷◌, ◌==◌, length, arith,
}
use eigrpd.State.{write}
use eigrpd.State.{Cell, Cells}

-- A packet that is not in a list, and a list without repetition.
abbrev pub NotIn : ℕ → List ℕ → Type 0
NotIn p [] = Unit
NotIn p (x ∷ l) = ((x == p) ≡ false) × NotIn p l

abbrev pub Distinct : List ℕ → Type 0
Distinct [] = Unit
Distinct (x ∷ l) = NotIn x l × Distinct l

-- The list between two ends, each packet linked back to the one before.
abbrev pub Chain : Cells → Option ℕ → Option ℕ → List ℕ → Option ℕ → Type 0
Chain cells before first [] last = (first ≡ none) × (last ≡ before)
Chain cells before first (p ∷ l) last =
    (first ≡ some p)
    × ((c : Cell) × (cells p ≡ some c) × (c.previous ≡ before) × Chain cells (some p) c.next l last)

-- A packet outside the list changes nothing.
pub Chain-write :
    (cells : Cells) (before first last : Option ℕ) (l : List ℕ) (p : ℕ) (o : Option Cell)
    → NotIn p l
    → Chain cells before first l last
    → Chain (write cells p o) before first l last
Chain-write cells before first last [] p o n h = h
Chain-write cells before first last (x ∷ l) p o (n, ns) (e, (c, ec, eb, h)) =
    (e, (c, rw n ec, eb, Chain-write cells (some x) c.next last l p o ns h))

-- The last packet of a list, the one before it, and the list without its last packet.
abbrev pub last_of : ℕ → List ℕ → ℕ
last_of a [] = a
last_of a (b ∷ l) = last_of b l

abbrev pub second_last : ℕ → ℕ → List ℕ → ℕ
second_last a b [] = a
second_last a b (d ∷ l) = second_last b d l

abbrev pub init_of : ℕ → List ℕ → List ℕ
init_of a [] = []
init_of a (b ∷ l) = a ∷ init_of b l

-- The end of the chain: the last packet, and its link back.
pub Chain-last :
    (cells : Cells) (before first last : Option ℕ) (a : ℕ) (l : List ℕ)
    → Chain cells before first (a ∷ l) last
    → last ≡ some (last_of a l)
Chain-last cells before first last a [] (e, (c, ec, eb, (e0, el))) = el
Chain-last cells before first last a (b ∷ l) (e, (c, ec, eb, h)) =
    Chain-last cells (some a) c.next last b l h

pub Chain-one :
    (cells : Cells) (before first last : Option ℕ) (a : ℕ)
    → Chain cells before first (a ∷ []) last
    → (c : Cell) × (cells a ≡ some c) × (c.previous ≡ before)
Chain-one cells before first last a (e, (c, ec, eb, h)) = (c, ec, eb)

pub Chain-back :
    (cells : Cells) (before first last : Option ℕ) (a b : ℕ) (l : List ℕ)
    → Chain cells before first (a ∷ b ∷ l) last
    → (c : Cell) × (cells (last_of b l) ≡ some c) × (c.previous ≡ some (second_last a b l))
Chain-back cells before first last a b [] (e, (c, ec, eb, (e1, (d, ed, eb1, h)))) = (d, ed, eb1)
Chain-back cells before first last a b (x ∷ l) (e, (c, ec, eb, h)) =
    Chain-back cells (some a) c.next last b x l h

NotIn-second_last :
    (p a b : ℕ) (l : List ℕ) → NotIn p (a ∷ b ∷ l) → (second_last a b l == p) ≡ false
NotIn-second_last p a b [] (na, nb) = na
NotIn-second_last p a b (d ∷ l) (na, ns) = NotIn-second_last p b d l ns

-- The chain without its last packet, once the one before it ends the list.
pub Chain-init :
    (cells : Cells) (before first last : Option ℕ) (a b : ℕ) (l : List ℕ)
    → Distinct (a ∷ b ∷ l)
    → Chain cells before first (a ∷ b ∷ l) last
    → (r : Cell) × (cells (second_last a b l) ≡ some r)
      × Chain
          (write cells (second_last a b l) (some (record r { next = none })))
          before
          first
          (init_of a (b ∷ l))
          (some (second_last a b l))
Chain-init cells before first last a b [] d (e, (c, ec, eb, h)) =
    (let here : (a == a) ≡ true = ground arith in
      (c, ec, (e, (record c { next = none }, rw here refl, eb, (refl, refl)))))
Chain-init cells before first last a b (x ∷ l) (na, d) (e, (c, ec, eb, h)) =
    (let (r, er, rest) = Chain-init cells (some a) c.next last b x l d h in
      let other : (a == second_last b x l) ≡ false = ground (arith, NotIn-second_last a b x l na) in
      (r, er, (e, (c, rw other ec, eb, rest))))

pub NotIn-init_of : (p a : ℕ) (l : List ℕ) → NotIn p (a ∷ l) → NotIn p (init_of a l)
NotIn-init_of p a [] n = tt
NotIn-init_of p a (b ∷ l) (na, ns) = (na, NotIn-init_of p b l ns)

pub Distinct-init_of : (a : ℕ) (l : List ℕ) → Distinct (a ∷ l) → Distinct (init_of a l)
Distinct-init_of a [] d = tt
Distinct-init_of a (b ∷ l) (na, d) = (NotIn-init_of a b l na, Distinct-init_of b l d)

pub length-init_of : (a : ℕ) (l : List ℕ) → suc (length (init_of a l)) ≡ length (a ∷ l)
length-init_of a [] = refl
length-init_of a (b ∷ l) = ap suc (length-init_of b l)

-- The last packet is live.
pub Chain-end :
    (cells : Cells) (before first last : Option ℕ) (a : ℕ) (l : List ℕ)
    → Chain cells before first (a ∷ l) last
    → (c : Cell) × (cells (last_of a l) ≡ some c)
Chain-end cells before first last a [] (e, (c, ec, eb, h)) = (c, ec)
Chain-end cells before first last a (b ∷ l) (e, (c, ec, eb, h)) =
    Chain-end cells (some a) c.next last b l h

pub NotIn-last : (p a : ℕ) (l : List ℕ) → NotIn p (a ∷ l) → (last_of a l == p) ≡ false
NotIn-last p a [] (na, _) = na
NotIn-last p a (b ∷ l) (na, ns) = NotIn-last p b l ns
