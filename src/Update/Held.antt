-- ===== src/Update/Held.antt =====
-- A restart's last packet, once the neighbor's list is freed.
use eigrpd.Base.{
  ℕ, ◌≡◌, ◌∙◌, ap, Bool, true, false, Option, Option-cases, none, some, List, ◌==◌, inl, inr, arith,
}
use eigrpd.LinkList.{LinkList}
use eigrpd.State.{
  Dest, Neighbor, World, M, pure, expect, get, modify, when, ◌>>=◌, load_nbr, load_intf, update_nbr,
  update_intf, Ends, faults, Ends-bind, Keeps, Stays, Stays-when, Stays-Keeps, Stays-bind,
}
use eigrpd.Metric.{Metrics}
use eigrpd.Filter.{Filters, FilterSet}
use eigrpd.Packetizer.{opc_update}
use eigrpd.Receive.{Decoder}
use eigrpd.Session.{Wire, eot_flag}
use eigrpd.Update.{Restart, update_known, gr_next, resync, update_finish, update_receive}
use eigrpd.Update.Graceful.{load_list, remove_received_prefix_gr, gr_ask}
use eigrpd.Update.Frame.{quiet-receive_known}
use eigrpd.Update.Walks.{nbrs_of, lists_of, Blind-lists, QuietDecoder, Stays-update_from}

-- A restart of which the neighbor's list is at hand.
abbrev pub begun : Bool → Bool → ℕ → Restart
begun restart final list = record { restart = restart; final = final; nbr_prefixes = some list }

-- A list has been freed.
abbrev pub Gone : ℕ → World → Type 0
Gone list w = w.lists list ≡ none

-- What leaves the lists alone leaves a freed list freed.
Gone-along : (list : ℕ) (w v : World) → lists_of v ≡ lists_of w → Gone list w → Gone list v
Gone-along list w v e g = ap (λ (h : ℕ → Option (List ℕ)). h list) e ∙ g

Gone-kept : {A : Type 0} (list : ℕ) (m : M A) → Keeps lists_of m → Stays (Gone list) m
Gone-kept list m k = Stays-Keeps m (Gone-along list) k

-- The neighbor holds a list, and its last sequence number.
pub record Holds (nbr list sequence : ℕ) (w : World) : Type 0 where
  pub n : Neighbor
  pub there : w.nbrs nbr ≡ some n
  pub held : n.nbr_gr_prefixes ≡ some list
  pub seen : n.recv_sequence_number ≡ sequence

pub Holds-along :
    (nbr list sequence : ℕ) (w v : World)
    → nbrs_of v ≡ nbrs_of w
    → Holds nbr list sequence w
    → Holds nbr list sequence v
Holds-along nbr list sequence w v e h = record {
  n = h.n;
  there = ap (λ (g : ℕ → Option Neighbor). g nbr) e ∙ h.there;
  held = h.held;
  seen = h.seen;
}

-- Reading a freed list is a fault.
load_list-faults :
    {B : Type 0} {Q : B → World → Type 0} (list : ℕ) (k : List ℕ → M B) (w : World)
    → Gone list w
    → Ends Q ((load_list list >>= k) w)
unfolding load_list ◌>>=◌ get expect
load_list-faults list k w g = rw g faults

module _ ⦃ll : LinkList⦄ where
  remove_received_prefix_gr-Gone :
      (list p : ℕ) → Stays (Gone list) (remove_received_prefix_gr list p)
  unfolding remove_received_prefix_gr
  remove_received_prefix_gr-Gone list p = record { at = λ w g. load_list-faults list _ w g }

  module _ (filters : Filters) (instance_lists : FilterSet) (intf_lists : ℕ → FilterSet) where
    update_known-Gone :
        (restart final : Bool) (list nbr p route : ℕ)
        → Stays
            (Gone list)
            (update_known filters instance_lists intf_lists (begun restart final list) nbr p route)
    unfolding update_known expect ◌>>=◌
    update_known-Gone restart final list nbr p route =
        Stays-bind _ _ (Stays-when restart _ (remove_received_prefix_gr-Gone list p))
          λ _. Gone-kept list _ (quiet-receive_known Blind-lists opc_update nbr p route)

    module _ {S : Type 0} (decoder : Decoder S) (quiet : QuietDecoder decoder) where
      module _ (wire : Wire) (stack : Metrics) (nodes : List Dest) where
        -- The restart's last packet asks about the list.
        update_finish-Gone :
            (flags list nbr ei : ℕ) (s : S) (w : World)
            → Gone list w
            → Ends
                (λ _ _. ⊥)
                (update_finish filters instance_lists intf_lists decoder wire stack nodes nbr ei
                  flags
                  (begun true true list)
                  s
                  w)
        unfolding update_finish gr_ask when
        update_finish-Gone flags list nbr ei s w g =
            Ends-bind (λ _ v. Gone list v) _ _ w
              ((Stays-update_from filters instance_lists intf_lists Blind-lists (Gone list)
                  (Gone-along list) (begun true true list) (update_known-Gone true true list)
                  decoder quiet.lists (decoder.remaining s) nbr ei s).at
                w g)
              λ _ v gv.
                Ends-bind (λ _ _. ⊥) _ _ v (load_list-faults list _ v gv) λ _ u no. absurd no

        -- The second packet: the neighbor still holds the list.
        pub receive_last-Gone :
            (list nbr ei sequence : ℕ) (s : S) (n : Neighbor) (w : World)
            → w.nbrs nbr ≡ some n
            → n.nbr_gr_prefixes ≡ some list
            → (n.recv_sequence_number == sequence) ≡ false
            → Gone list w
            → Ends
                (λ _ _. ⊥)
                (update_receive filters instance_lists intf_lists decoder wire stack nodes nbr ei
                  eot_flag sequence s w)
        unfolding update_receive when resync gr_next update_nbr load_nbr ◌>>=◌ get expect modify
            pure update_intf load_intf
        receive_last-Gone list nbr ei sequence s n w en eg es g = elim (Option-cases (w.intfs ei)) [
          | inl gone ↦ rw gone faults
          | inr (i, here) ↦
              (let found : (nbr == nbr) ≡ true = ground arith in
                rw (here, en, es, en, found, eg, found)
                  (update_finish-Gone eot_flag list nbr ei s _ g))
        ]
