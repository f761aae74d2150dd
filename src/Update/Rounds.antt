-- ===== src/Update/Rounds.antt =====
-- The loop of eigrp_update_receive of eigrpd/eigrp_update.c comes to its end.
use eigrpd.Base.{
  ℕ, zero, suc, ◌≤◌, ◌<◌, ◌≡◌, refl, inl, inr, true, Option, none, some, ◌==◌, arith, Bool-cases,
}
use eigrpd.LinkList.{LinkList}
use eigrpd.State.{World, M, fault, ◌>>=◌}
use eigrpd.Stream.{StreamLib}
use eigrpd.Filter.{Filters, FilterSet}
use eigrpd.Tlv1.Codec as Classic
use eigrpd.Tlv1.Advance.{classic_advances}
use eigrpd.Tlv2.Codec as Wide
use eigrpd.Tlv2.Advance.{wide_advances}
use eigrpd.Receive.{Decoder}
use eigrpd.Receive.Loop.{and_then_same}
use eigrpd.Codec.{Packet, decoder_of, classic_decoder, wide_decoder}
use eigrpd.Codec.Loop.{left, decoder_of_moves}
use eigrpd.Update.{Restart, update_route_in, update_from}

-- Every TLV is taken off the packet, also one that gives no route.
abbrev Moves : {S : Type 0} → Decoder S → Type 0
Moves {S} decoder =
    (nbr : ℕ) (o : Option ℕ) (s t : S) (w v : World)
    → 0 < decoder.remaining s
    → decoder.decode nbr s w ≡ some ((o, t), v)
    → decoder.remaining t < decoder.remaining s

module _ ⦃ll : LinkList⦄ (filters : Filters) (instance_lists : FilterSet)
    (intf_lists : ℕ → FilterSet) where
  module _ {S : Type 0} (decoder : Decoder S) where
    -- The handler's loop, with what it does after its rounds.
    abbrev loop : M (Unit {0}) → ℕ → Restart → ℕ → ℕ → S → M (Unit {0})
    loop out fuel gr nbr ei s =
        update_from filters instance_lists intf_lists decoder out fuel gr nbr ei s

  module _ {S : Type 0} (decoder : Decoder S) (moves : Moves decoder) where
    at_end : (s : S) → decoder.remaining s ≤ 0 → (decoder.remaining s == 0) ≡ true
    at_end s h = ground arith

    -- A round of the loop, with what follows it.
    abbrev turn : M (Unit {0}) → ℕ → Restart → ℕ → ℕ → Option ℕ × S → M (Unit {0})
    turn out fuel gr nbr ei r = elim r.0 [
      | none ↦ loop decoder out fuel gr nbr ei r.1
      | some route ↦ update_route_in filters instance_lists intf_lists gr nbr ei route
    ]

    module _ (out out' : M (Unit {0})) where
      same_turn :
          (m n : ℕ) (gr : Restart) (nbr ei : ℕ) (o : Option ℕ) (t : S) (v : World)
          → (loop decoder out m gr nbr ei t v ≡ loop decoder out' n gr nbr ei t v)
          → turn out m gr nbr ei (o, t) v ≡ turn out' n gr nbr ei (o, t) v
      same_turn m n gr nbr ei none t v h = h
      same_turn m n gr nbr ei (some route) t v h = refl

      same_fuel :
          (m n : ℕ) (gr : Restart) (nbr ei : ℕ) (s : S) (w : World)
          → decoder.remaining s ≤ m
          → decoder.remaining s ≤ n
          → loop decoder out m gr nbr ei s w ≡ loop decoder out' n gr nbr ei s w
      unfolding update_from ◌>>=◌
      same_fuel zero zero gr nbr ei s w p q = rw (at_end s p) refl
      same_fuel zero (suc n) gr nbr ei s w p q = rw (at_end s p) refl
      same_fuel (suc m) zero gr nbr ei s w p q = rw (at_end s q) refl
      same_fuel (suc m) (suc n) gr nbr ei s w p q = elim (Bool-cases (decoder.remaining s == 0)) [
        | inl end ↦ rw end refl
        | inr more ↦ rw more (
            and_then_same (decoder.decode nbr s w) (turn out m gr nbr ei) (turn out' n gr nbr ei)
              λ r v eq.
                let less : decoder.remaining r.1 < decoder.remaining s =
                  moves nbr r.0 s r.1 w v (ground (arith, more)) eq in
                same_turn m n gr nbr ei r.0 r.1 v
                  (same_fuel m n gr nbr ei r.1 v (omega (arith, less, p)) (omega (arith, less, q))))
      ]

  module _ ⦃sl : StreamLib⦄ where
    -- The loop over an update's TLVs, of a packet of any bytes, comes to its end with either decoder:
    -- it makes no more rounds than the packet has bytes left, as the handler gives it, since what it
    -- would do after them (`out`, which may be anything) changes no result, of a fault or of an end.
    pub update_rounds_enough :
        (out : M (Unit {0})) (n : ℕ) (gr : Restart) (nbr ei : ℕ) (p : Packet) (w : World)
        → left p ≤ n
        → (loop classic_decoder out n gr nbr ei p w
            ≡ loop classic_decoder fault (left p) gr nbr ei p w)
          × (loop wide_decoder out n gr nbr ei p w ≡ loop wide_decoder fault (left p) gr nbr ei p w)
    unfolding classic_decoder wide_decoder decoder_of
    update_rounds_enough out n gr nbr ei p w h = (
      same_fuel _ (decoder_of_moves Classic.parse classic_advances) out fault n (left p) gr nbr ei p
          w h (omega arith),
      same_fuel _ (decoder_of_moves Wide.parse wide_advances) out fault n (left p) gr nbr ei p w h
          (omega arith),
    )
