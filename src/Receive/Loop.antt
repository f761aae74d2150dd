-- ===== src/Receive/Loop.antt =====
-- The loops of the handlers of routing packets, over the TLVs of a packet.
use eigrpd.Base.{
  ℕ, zero, suc, ◌≤◌, ◌<◌, ◌≡◌, refl, ap, ◌∙◌, inl, inr, true, Option, none, some, ◌==◌, arith,
  Bool-cases,
}
use eigrpd.LinkList.{LinkList}
use eigrpd.State.{World, M, pure, fault, and_then, ◌>>=◌, ◌>>◌}
use eigrpd.Receive.{Decoder, receive_route, receive_from}

-- Two continuations that agree on what the first part returns.
pub and_then_same :
    {A : Type 0} (o : Option (A × World)) (k l : A → M (Unit {0}))
    → ((a : A) (v : World) → o ≡ some (a, v) → k a v ≡ l a v)
    → and_then o k ≡ and_then o l
and_then_same none k l h = refl
and_then_same (some r) k l h = h r.0 r.1 refl

module _ ⦃ll : LinkList⦄ {S : Type 0} (decoder : Decoder S) where
  -- A TLV that gives a route is taken off the packet, which has bytes left.
  unfoldable pub Consumes : Type 0
  Consumes =
      (nbr route : ℕ) (s t : S) (w v : World)
      → 0 < decoder.remaining s
      → decoder.decode nbr s w ≡ some ((some route, t), v)
      → decoder.remaining t < decoder.remaining s

  at_end : (s : S) → decoder.remaining s ≤ 0 → (decoder.remaining s == 0) ≡ true
  at_end s h = ground arith

  -- A round of the loop, with what follows it.
  abbrev turn : M (Unit {0}) → ℕ → ℕ → ℕ → Option ℕ × S → M (Unit {0})
  turn out fuel opcode nbr r = elim r.0 [
    | none ↦ pure tt
    | some route ↦ (receive_route opcode nbr route >> receive_from decoder out fuel opcode nbr r.1)
  ]

  module _ (out out' : M (Unit {0})) where
    same_turn :
        (m n opcode nbr : ℕ) (r : Option ℕ) (t : S) (v : World)
        → ((route : ℕ) (z : World)
            → r ≡ some route
            → receive_from decoder out m opcode nbr t z
              ≡ receive_from decoder out' n opcode nbr t z)
        → turn out m opcode nbr (r, t) v ≡ turn out' n opcode nbr (r, t) v
    unfolding ◌>>=◌
    same_turn m n opcode nbr none t v h = refl
    same_turn m n opcode nbr (some route) t v h =
        and_then_same (receive_route opcode nbr route v) _ _ λ a z e. h route z refl

    module _ (consumes : Consumes) where
      same_fuel :
          (m n opcode nbr : ℕ) (s : S) (w : World)
          → decoder.remaining s ≤ m
          → decoder.remaining s ≤ n
          → receive_from decoder out m opcode nbr s w ≡ receive_from decoder out' n opcode nbr s w
      unfolding receive_from Consumes ◌>>=◌
      same_fuel zero zero opcode nbr s w p q = rw (at_end s p) refl
      same_fuel zero (suc n) opcode nbr s w p q = rw (at_end s p) refl
      same_fuel (suc m) zero opcode nbr s w p q = rw (at_end s q) refl
      same_fuel (suc m) (suc n) opcode nbr s w p q = elim (Bool-cases (decoder.remaining s == 0)) [
        | inl end ↦ rw end refl
        | inr more ↦ rw more (
            and_then_same (decoder.decode nbr s w) (turn out m opcode nbr) (turn out' n opcode nbr)
              λ r v eq. same_turn m n opcode nbr r.0 r.1 v λ route z e.
                let less : decoder.remaining r.1 < decoder.remaining s =
                  consumes nbr route s r.1 w v (ground arith)
                    (eq ∙ ap (λ o. some ((o, r.1), v)) e) in
                same_fuel m n opcode nbr r.1 z (omega arith) (omega arith))
      ]

  -- A loop of as many rounds as the packet has bytes left never comes to what is after them, so
  -- that `out` does not matter, where every TLV that gives a route takes a byte at least.
  pub receive_from_ends :
      Consumes
      → (out : M (Unit {0})) (n opcode nbr : ℕ) (s : S) (w : World) → decoder.remaining s ≤ n
      → receive_from decoder out n opcode nbr s w
        ≡ receive_from decoder fault (decoder.remaining s) opcode nbr s w
  receive_from_ends consumes out n opcode nbr s w h =
      same_fuel out fault consumes n (decoder.remaining s) opcode nbr s w h (omega arith)
