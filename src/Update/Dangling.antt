-- ===== src/Update/Dangling.antt =====
-- The list of a graceful restart, from one packet to the next.
use eigrpd.Base.{
  ℕ, ◌+◌, ◌≡◌, ◌≢◌, refl, ◌∙◌, ap, true, false, Option, Option-cases, none, some, List, [], ◌∷◌,
  ◌==◌, inl, inr, arith,
}
use eigrpd.LinkList.{LinkList}
use eigrpd.State.{
  Dest, Neighbor, World, M, pure, expect, get, modify, when, ◌>>=◌, ◌>>◌, load_nbr, load_intf,
  update_nbr, update_intf, Ends, ends, faults, Ends-mono, Ends-bind, Ends-at, Keeps, Keeps-bind,
  Keeps-modify, Keeps-pure, Keeps-expect, Keeps-when, keeps_rules, Ends-never, Stays, Stays-pure,
  Stays-when, Stays-Keeps,
}
use eigrpd.Metric.{Metrics}
use eigrpd.Filter.{Filters, FilterSet}
use eigrpd.Packetizer.{opc_update}
use eigrpd.Topology.Quiet.{quiet-load_nbr}
use eigrpd.Receive.{Decoder, hello_send_ack}
use eigrpd.Session.{Wire, init_flag, rs_flag, eot_flag}
use eigrpd.Update.{update_known, gr_first, resync, update_finish, update_receive}
use eigrpd.Update.Graceful.{
  load_list, store_list, list_delete, neighbor_prefixes_lookup, remove_from,
  remove_received_prefix_gr,
}
use eigrpd.Update.Frame.{quiet-update_send_all, quiet-query_send_all, quiet-receive_known}
use eigrpd.Update.Walks.{
  neighbor_prefixes_lookup-nbrs, nbrs_of, Blind-nbrs, QuietDecoder, Stays-update_from,
}
use eigrpd.Update.Held.{begun, Gone, Holds, Holds-along, receive_last-Gone}

module _ ⦃ll : LinkList⦄ where
  module _ (filters : Filters) (instance_lists : FilterSet) (intf_lists : ℕ → FilterSet) where
    module _ {S : Type 0} (decoder : Decoder S) (quiet : QuietDecoder decoder) where
      module _ (wire : Wire) (stack : Metrics) (nodes : List Dest) where
        -- The first packet: the neighbor holds the list that the handler frees at its end.
        gr_first-Holds :
            (nbr : ℕ) (n : Neighbor) (w : World)
            → w.nbrs nbr ≡ some n
            → Ends
                (λ gr v.
                  (list : ℕ) × (gr ≡ begun true false list)
                  × Holds nbr list n.recv_sequence_number v)
                (gr_first filters instance_lists intf_lists decoder wire stack nodes false nbr w)
        unfolding gr_first when update_nbr load_nbr ◌>>=◌ get expect modify pure
        gr_first-Holds nbr n w e =
            Ends-bind (λ _ v. v.nbrs nbr ≡ some n) (neighbor_prefixes_lookup nbr nodes)
              (λ (list : ℕ).
                update_nbr nbr (λ m. record m { nbr_gr_prefixes = some list })
                >> pure (begun true false list))
              w
              (Ends-mono ((neighbor_prefixes_lookup-nbrs nbr nodes).at w)
                λ _ v same. ap (λ (g : ℕ → Option Neighbor). g nbr) same ∙ e)
              λ list v ev.
                (let found : (nbr == nbr) ≡ true = ground arith in
                  rw ev (
                    ends (
                      list,
                      refl,
                      record {
                        n = record n { nbr_gr_prefixes = some list };
                        there = rw found refl;
                        held = refl;
                        seen = refl;
                      },
                    )))

        remove_from-nbrs : (list p : ℕ) (ps : List ℕ) → Keeps nbrs_of (remove_from list p ps)
        unfolding remove_from store_list load_list
        remove_from-nbrs list p [] = Keeps-pure tt
        remove_from-nbrs list p (q ∷ ps) = Keeps-bind _ _ (search keeps_rules) λ l.
            Keeps-bind _ _ (Keeps-when _ _ (Keeps-modify _ λ w. refl))
              λ _. remove_from-nbrs list p ps

        update_known-nbrs :
            (list nbr p route : ℕ)
            → Keeps nbrs_of
                (update_known filters instance_lists intf_lists (begun true false list) nbr p route)
        unfolding update_known remove_received_prefix_gr load_list
        update_known-nbrs list nbr p route =
            Keeps-bind _ _
              (Keeps-when true _ (
                Keeps-bind _ _ (Keeps-expect (some list))
                  λ l. Keeps-bind _ _ (search keeps_rules) λ ps. remove_from-nbrs l p ps))
              λ _. quiet-receive_known Blind-nbrs opc_update nbr p route

        hello_send_ack-nbrs : (nbr : ℕ) → Keeps nbrs_of (hello_send_ack nbr)
        unfolding hello_send_ack
        hello_send_ack-nbrs nbr =
            Keeps-bind _ _ (quiet-load_nbr Blind-nbrs nbr) λ n. Keeps-modify _ λ w. refl

        list_delete-Gone :
            (list : ℕ) (P : World → Type 0) (w : World)
            → ((v : World) → nbrs_of v ≡ nbrs_of w → P w → P v)
            → P w
            → Ends (λ _ v. P v × Gone list v) (list_delete (some list) w)
        unfolding list_delete load_list ◌>>=◌ get expect modify
        list_delete-Gone list P w along h = elim (Option-cases (w.lists list)) [
          | inl gone ↦ rw gone faults
          | inr (l, here) ↦
              (let found : (list == list) ≡ true = ground arith in
                rw here (ends (along _ refl h, rw found refl)))
        ]

        update_finish-first :
            (flags list sequence nbr ei : ℕ) (s : S) (w : World)
            → Holds nbr list sequence w
            → Ends
                (λ _ v. Holds nbr list sequence v × Gone list v)
                (update_finish filters instance_lists intf_lists decoder wire stack nodes nbr ei
                  flags
                  (begun true false list)
                  s
                  w)
        unfolding update_finish when
        update_finish-first flags list sequence nbr ei s w h =
            after
              (Stays-update_from filters instance_lists intf_lists Blind-nbrs Q along
                (begun true false list)
                (λ q p route. Stays-Keeps _ along (update_known-nbrs list q p route)) decoder
                quiet.nbrs (decoder.remaining s) nbr ei s)
              h
              λ _ v hv. after (Stays-pure tt) hv λ _ v1 h1.
                after (Stays-Keeps _ along (quiet-load_nbr Blind-nbrs nbr)) h1 λ n v2 h2.
                  after (Stays-when _ _ (Stays-Keeps _ along (hello_send_ack-nbrs nbr))) h2
                    λ _ v3 h3.
                      after (Stays-Keeps _ along (quiet-query_send_all Blind-nbrs)) h3 λ _ v4 h4.
                        after (Stays-Keeps _ along (quiet-update_send_all Blind-nbrs (some ei))) h4
                          λ _ v5 h5. list_delete-Gone list Q v5 (λ u. along v5 u) h5
          where
            Q : World → Type 0
            Q = Holds nbr list sequence

            along : (w v : World) → nbrs_of v ≡ nbrs_of w → Q w → Q v
            along = Holds-along nbr list sequence

            after :
                {A : Type 0} {m : M A} {k : A → M (Unit {0})} {v : World}
                → Stays Q m
                → Q v
                → ((a : A) (u : World) → Q u → Ends (λ _ u. Q u × Gone list u) (k a u))
                → Ends (λ _ u. Q u × Gone list u) ((m >>= k) v)
            after {A} {m} {k} {v} sm q next = Ends-bind (λ _ u. Q u) m k v (sm.at v q) next

        receive_first-Holds :
            (nbr ei sequence : ℕ) (s : S) (n : Neighbor) (w : World)
            → w.nbrs nbr ≡ some n
            → (n.recv_sequence_number == sequence) ≡ false
            → Ends
                (λ _ v. (list : ℕ) × Holds nbr list sequence v × Gone list v)
                (update_receive filters instance_lists intf_lists decoder wire stack nodes nbr ei
                  (init_flag + rs_flag)
                  sequence
                  s
                  w)
        unfolding update_receive when resync update_nbr load_nbr ◌>>=◌ get expect modify pure
            update_intf load_intf
        receive_first-Holds nbr ei sequence s n w en es = elim (Option-cases (w.intfs ei)) [
          | inl gone ↦ rw gone faults
          | inr (i, here) ↦
              (let found : (nbr == nbr) ≡ true = ground arith in
                rw (here, en, es, en)
                  (Ends-bind
                    (λ gr v. (list : ℕ) × (gr ≡ begun true false list) × Holds nbr list sequence v)
                    (gr_first filters instance_lists intf_lists decoder wire stack nodes false nbr)
                    (λ gr.
                      update_finish filters instance_lists intf_lists decoder wire stack nodes nbr
                        ei (init_flag + rs_flag) gr s)
                    _
                    (gr_first-Holds nbr (record n { recv_sequence_number = sequence }) _
                      (rw found refl))
                    λ gr v (list, e, h). rw e (
                      Ends-mono
                        (update_finish-first (init_flag + rs_flag) list sequence nbr ei s v h)
                        λ _ u done. (list, done.0, done.1))))
        ]

        -- Where the first packet of a graceful restart in several packets, with the flags INIT and
        -- RS and a sequence number that is new, is handled to its end, the handling of a second
        -- packet with the flag EOT and another sequence number is a fault, whatever routes the two
        -- packets hold, for a decoder that changes no neighbor and no list: it reads the list of
        -- destinations that the first packet's handler kept in the neighbor and freed.
        pub graceful_restart_faults :
            (nbr ei ei' sequence next : ℕ) (s t : S) (n : Neighbor) (w v : World)
            → w.nbrs nbr ≡ some n
            → n.recv_sequence_number ≢ sequence
            → sequence ≢ next
            → update_receive filters instance_lists intf_lists decoder wire stack nodes nbr ei
                (init_flag + rs_flag)
                sequence
                s
                w
              ≡ some (tt, v)
            → update_receive filters instance_lists intf_lists decoder wire stack nodes nbr ei'
                eot_flag next t v
              ≡ none
        graceful_restart_faults nbr ei ei' sequence next s t n w v en new other run =
            let is_new : (n.recv_sequence_number == sequence) ≡ false = ground (arith, new) in
            let (list, h, g) = Ends-at (receive_first-Holds nbr ei sequence s n w en is_new) run in
            let is_other : (h.n.recv_sequence_number == next) ≡ false =
              ground (arith, other, h.seen) in
            Ends-never (
              receive_last-Gone filters instance_lists intf_lists decoder quiet wire stack nodes
                list nbr ei' next t h.n v h.there h.held is_other g)
