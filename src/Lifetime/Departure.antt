-- ===== src/Lifetime/Departure.antt =====
-- What a neighbor's departure leaves behind, by eigrp_nbr_delete and holddown_timer_expired of
-- eigrpd/eigrp_neighbor.c.
use eigrpd.Base.{
  ℕ, ◌≡◌, refl, ◌∙◌, ap, Bool-cases, true, false, not, ◌&&◌, Option, none, some, List, ◌==◌,
  if◌then◌else◌, inl, inr, arith,
}
use eigrpd.Metric.{Metrics}
use eigrpd.LinkList.{LinkList}
use eigrpd.State.{
  queue_new, default_weights, hold_interval_default, Dest, down, Neighbor, Interface, World, M,
  pure, get, modify, expect, when, ◌>>=◌, load_nbr, load_intf, update_nbr, update_intf, Ends, ends,
  Ends-mono, Ends-bind, Keeps, Keeps-pure, Keeps-expect,
}
use eigrpd.Neighbor.{is_up}
use eigrpd.Peers.{Peers, encoder_unbind}
use eigrpd.Session.{counters, recount, nbr_reset, nbr_state_set}
use eigrpd.Lifetime.Frame.{links_of, Blind-links, free_queue-links, quiet-topology_neighbor_down}
use eigrpd.Lifetime.{on_intf, topology_down, nbr_delete, holddown_timer_expired}

-- A neighbor whose numbers, timers and queues are reset, and one that has gone down.
abbrev reset : Neighbor → Neighbor
reset n = record n {
  recv_sequence_number = 0;
  init_sequence_number = 0;
  retrans_counter = 0;
  weights = default_weights;
  v_holddown = hold_interval_default;
  t_holddown = false;
  crypt_seqnum = 0;
  retrans_queue = queue_new;
  multicast_queue = queue_new;
}

abbrev fallen : Neighbor → Neighbor
fallen n = reset (record n { state = down })

-- The interface's counters without the neighbor, if it was counted.
abbrev pub uncounted : Neighbor → Interface → Peers
uncounted n i = if is_up n.state then encoder_unbind n.tlv_version (counters i) else counters i

abbrev with_counters : Interface → Peers → Interface
with_counters i c = record i {
  tlv1_peer_count = c.tlv1_peer_count;
  tlv2_peer_count = c.tlv2_peer_count;
  encoder = c.encoder;
}

record Here (nbr ei : ℕ) (n : Neighbor) (i : Interface) (w : World) : Type 0 where
  nbr_at : w.nbrs nbr ≡ some n
  intf_at : w.intfs ei ≡ some i

Here-along :
    (nbr ei : ℕ) (n : Neighbor) (i : Interface) (w v : World)
    → links_of v ≡ links_of w
    → Here nbr ei n i w
    → Here nbr ei n i v
Here-along nbr ei n i w v e h = record {
  nbr_at = ap (λ (x : (ℕ → Option Neighbor) × (ℕ → Option Interface)). x.0 nbr) e ∙ h.nbr_at;
  intf_at = ap (λ (x : (ℕ → Option Neighbor) × (ℕ → Option Interface)). x.1 ei) e ∙ h.intf_at;
}

module _ (nbr ei : ℕ) where
  kept :
      {A : Type 0} {n : Neighbor} {i : Interface} {w : World} (m : M A)
      → Keeps links_of m
      → Here nbr ei n i w
      → Ends (λ _ v. Here nbr ei n i v) (m w)
  kept {A} {n} {i} {w} m k h = Ends-mono (k.at w) λ _ v e. Here-along nbr ei n i w v e h

  module _ (n : Neighbor) (i : Interface) where
    nbr_changed :
        (f : Neighbor → Neighbor) (w : World)
        → Here nbr ei n i w
        → Ends (λ _ v. Here nbr ei (f n) i v) (update_nbr nbr f w)
    unfolding update_nbr load_nbr ◌>>=◌ get expect modify
    nbr_changed f w h =
        let found : (nbr == nbr) ≡ true = ground arith in
        rw h.nbr_at (ends (record { nbr_at = rw found refl; intf_at = h.intf_at }))

    intf_changed :
        (f : Interface → Interface) (w : World)
        → Here nbr ei n i w
        → Ends (λ _ v. Here nbr ei n (f i) v) (update_intf ei f w)
    unfolding update_intf load_intf ◌>>=◌ get expect modify
    intf_changed f w h =
        let found : (ei == ei) ≡ true = ground arith in
        rw h.intf_at (ends (record { nbr_at = h.nbr_at; intf_at = rw found refl }))

    nbr_loaded :
        {B : Type 0} {Q : B → World → Type 0} (k : Neighbor → M B) (w : World)
        → Here nbr ei n i w
        → Ends Q (k n w)
        → Ends Q ((load_nbr nbr >>= k) w)
    unfolding load_nbr ◌>>=◌ get expect
    nbr_loaded k w h next = rw h.nbr_at next

    nbr_reset-Here :
        (w : World) → Here nbr ei n i w → Ends (λ _ v. Here nbr ei (reset n) i v) (nbr_reset nbr w)
    unfolding nbr_reset
    nbr_reset-Here w h = nbr_loaded _ w h (
        Ends-bind _ _ _ w (kept _ (free_queue-links n.multicast_queue) h) λ _ v hv.
          Ends-bind _ _ _ v (kept _ (free_queue-links n.retrans_queue) hv)
            λ _ u hu. nbr_changed reset u hu)

    -- The interface's counters change.
    recounted :
        (o : Option ℕ) (f : Peers → Peers) (w : World)
        → o ≡ some ei
        → Here nbr ei n i w
        → Ends (λ _ v. Here nbr ei n (with_counters i (f (counters i))) v) (recount o f w)
    unfolding recount
    recounted o f w e h = rw e (intf_changed (λ j. with_counters j (f (counters j))) w h)

    left :
        n.ei ≡ some ei
        → (w : World) → Here nbr ei n i w
        → Ends
            (λ _ v. Here nbr ei n (with_counters i (uncounted n i)) v)
            (when
              (is_up n.state && not (is_up down))
              (recount n.ei (encoder_unbind n.tlv_version))
              w)
    unfolding when pure
    left e w h = elim (Bool-cases (is_up n.state)) [
      | inl up_now ↦ rw up_now (recounted n.ei (encoder_unbind n.tlv_version) w e h)
      | inr not_up ↦ rw not_up (ends h)
    ]

  -- Going down.
  nbr_state_set-Here :
      (n : Neighbor) (i : Interface) (w : World)
      → n.ei ≡ some ei
      → Here nbr ei n i w
      → Ends
          (λ _ v. Here nbr ei (fallen n) (with_counters i (uncounted n i)) v)
          (nbr_state_set nbr down w)
  unfolding nbr_state_set when pure
  nbr_state_set-Here n i w e h = nbr_loaded n i _ w h (
      Ends-bind _ _ _ w (left n i e w h) λ _ v hv.
        Ends-bind _ _ _ v (nbr_changed n _ (λ m. record m { state = down }) v hv) λ _ u hu.
          Ends-bind
            (λ _ x. Here nbr ei (record n { state = down }) (with_counters i (uncounted n i)) x) _ _
            u (ends hu) λ _ x hx. nbr_reset-Here (record n { state = down }) _ x hx)

module _ ⦃ll : LinkList⦄ where
  -- An interface without a neighbor that it had.
  abbrev pub without : ℕ → Neighbor → Interface → Interface
  without nbr n i = record (with_counters i (uncounted n i)) { nbrs = ll.delete i.nbrs nbr }

module _ ⦃ll : LinkList⦄ (stack : Metrics) (nodes : List Dest) (nbr ei : ℕ) where
  topology_down-links : (o : Option ℕ) → Keeps links_of (topology_down stack nodes o nbr)
  unfolding topology_down
  topology_down-links none = Keeps-pure tt
  topology_down-links (some ei) = quiet-topology_neighbor_down Blind-links stack nodes nbr

  on_intf-Here :
      (n : Neighbor) (i : Interface) (o : Option ℕ) (f : List ℕ → List ℕ) (w : World)
      → o ≡ some ei
      → Here nbr ei n i w
      → Ends (λ _ v. Here nbr ei n (record i { nbrs = f i.nbrs }) v) (on_intf o f w)
  unfolding on_intf
  on_intf-Here n i o f w e h =
      rw e (intf_changed nbr ei n i (λ j. record j { nbrs = f j.nbrs }) w h)

  nbr_delete-intfs :
      (n : Neighbor) (i : Interface) (w : World)
      → n.ei ≡ some ei
      → Here nbr ei n i w
      → Ends
          (λ _ v. (v.nbrs nbr ≡ none) × (v.intfs ei ≡ some (without nbr n i)))
          (nbr_delete stack nodes nbr w)
  unfolding nbr_delete modify
  nbr_delete-intfs n i w e h = Ends-bind _ _ _ w (nbr_state_set-Here nbr ei n i w e h) λ _ v hv.
      nbr_loaded nbr ei _ _ _ v hv (
        Ends-bind _ _ _ v (kept nbr ei _ (topology_down-links n.ei) hv) λ _ v1 h1.
          nbr_loaded nbr ei _ _ _ v1 h1 (
            Ends-bind _ _ _ v1 (kept nbr ei _ (free_queue-links queue_new) h1) λ _ v2 h2.
              Ends-bind _ _ _ v2 (kept nbr ei _ (free_queue-links queue_new) h2) λ _ v3 h3.
                Ends-bind _ _ _ v3 (on_intf-Here _ _ n.ei (λ l. ll.delete l nbr) v3 e h3) λ _ v4 h4.
                  let found : (nbr == nbr) ≡ true = ground arith in
                  ends (rw found refl, h4.intf_at)))

  -- Where the hold timer of a neighbor of the interface `ei` expires and the handler ends, the heap
  -- does not hold the neighbor any more, and the interface is what it was but for two things. Its
  -- list is without the neighbor, and the counter of the neighbor's TLV version is taken back by one
  -- where the neighbor was up, with the encoder that the counters then select, although the handler
  -- sets the state to DOWN twice; where the neighbor was not up the counters stay.
  pub holddown_timer_expired-intfs :
      (n : Neighbor) (i : Interface) (w : World)
      → w.nbrs nbr ≡ some n
      → w.intfs ei ≡ some i
      → n.ei ≡ some ei
      → Ends
          (λ _ v. (v.nbrs nbr ≡ none) × (v.intfs ei ≡ some (without nbr n i)))
          (holddown_timer_expired stack nodes nbr w)
  unfolding holddown_timer_expired
  holddown_timer_expired-intfs n i w en ei_at e =
      let h : Here nbr ei n i w = record { nbr_at = en; intf_at = ei_at } in
      nbr_loaded nbr ei n i _ w h (
        Ends-bind _ _ _ w (kept nbr ei _ (Keeps-expect n.ei) h) λ _ u hu.
          Ends-bind _ _ _ u (nbr_state_set-Here nbr ei n i u e hu)
            λ _ v hv. nbr_delete-intfs (fallen n) _ v e hv)
