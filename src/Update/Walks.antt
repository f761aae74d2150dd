-- ===== src/Update/Walks.antt =====
-- The loop of eigrp_update_receive, and the views that it keeps.
use eigrpd.Base.{ℕ, zero, suc, ◌≡◌, refl, Option, none, some, List, [], ◌∷◌, ◌==◌}
use eigrpd.LinkList.{LinkList}
use eigrpd.State.{
  Dest, Neighbor, World, pure, fault, ◌>>=◌, load_prefix, ends, faults, Keeps, Keeps-bind,
  Keeps-pure, Stays, Stays-pure, Stays-if, Stays-Keeps, Stays-bind,
}
use eigrpd.Filter.{Filters, FilterSet}
use eigrpd.Topology.Quiet.{Blind, quiet-load_route, quiet-load_prefix}
use eigrpd.Receive.{Decoder}
use eigrpd.Update.{Restart, update_known, update_route_in, update_from}
use eigrpd.Update.Learn.{learn}
use eigrpd.Update.Frame.{quiet-table_lookup_ipv4, quiet-learn}
use eigrpd.Topology.Walk.{prefixes_from, neighbor_prefixes_from}
use eigrpd.Update.Graceful.{list_new, neighbor_prefixes_lookup}

-- What the neighbors know, and the lists that they keep between packets.
abbrev pub nbrs_of : World → ℕ → Option Neighbor
nbrs_of w = w.nbrs

abbrev pub lists_of : World → ℕ → Option (List ℕ)
lists_of w = w.lists

pub Blind-nbrs : Blind nbrs_of
Blind-nbrs = record {
  routes = λ w v. refl;
  next_route = λ w v. refl;
  next_prefix = λ w v. refl;
  prefixes = λ w v. refl;
  table = λ w v. refl;
  changes = λ w v. refl;
  queue = λ w v. refl;
  zebra = λ w v. refl;
}

pub Blind-lists : Blind lists_of
Blind-lists = record {
  routes = λ w v. refl;
  next_route = λ w v. refl;
  next_prefix = λ w v. refl;
  prefixes = λ w v. refl;
  table = λ w v. refl;
  changes = λ w v. refl;
  queue = λ w v. refl;
  zebra = λ w v. refl;
}

-- A decoder that leaves the neighbors and the lists alone.
pub record QuietDecoder {S : Type 0} (decoder : Decoder S) : Type 0 where
  pub nbrs : (nbr : ℕ) (s : S) → Keeps nbrs_of (decoder.decode nbr s)
  pub lists : (nbr : ℕ) (s : S) → Keeps lists_of (decoder.decode nbr s)

module _ ⦃ll : LinkList⦄ where
  module _ (filters : Filters) (instance_lists : FilterSet) (intf_lists : ℕ → FilterSet) where
    -- The loop keeps a property of a view if every route that the table holds does.
    module _ {X : Type 0} {f : World → X} (b : Blind f) (P : World → Type 0)
        (along : (w v : World) → f v ≡ f w → P w → P v) (gr : Restart)
        (known : (nbr p route : ℕ)
          → Stays P (update_known filters instance_lists intf_lists gr nbr p route)) where
      Stays-update_route_in :
          (nbr ei route : ℕ)
          → Stays P (update_route_in filters instance_lists intf_lists gr nbr ei route)
      unfolding update_route_in
      Stays-update_route_in nbr ei route =
          Stays-bind _ _ (Stays-Keeps _ along (quiet-load_route b route)) λ r.
            Stays-bind _ _ (Stays-Keeps _ along (quiet-table_lookup_ipv4 b r.dest))
              λ found. by_case found
        where
          by_case :
              (found : Option ℕ)
              → Stays P (elim found [
                | some p ↦ update_known filters instance_lists intf_lists gr nbr p route
                | none ↦ learn filters instance_lists intf_lists nbr ei route
              ])
          by_case (some p) = known nbr p route
          by_case none =
              Stays-Keeps _ along (quiet-learn b filters instance_lists intf_lists nbr ei route)

      pub Stays-update_from :
          {S : Type 0} (decoder : Decoder S)
          → ((nbr : ℕ) (s : S) → Keeps f (decoder.decode nbr s))
          → (fuel nbr ei : ℕ) (s : S)
          → Stays P (update_from filters instance_lists intf_lists decoder fault fuel gr nbr ei s)
      unfolding update_from fault
      Stays-update_from decoder quiet zero nbr ei s =
          Stays-if (decoder.remaining s == 0) _ _ (Stays-pure tt) (record { at = λ w g. faults })
      Stays-update_from {S} decoder quiet (suc fuel) nbr ei s =
          Stays-if (decoder.remaining s == 0) _ _ (Stays-pure tt) (
            Stays-bind _ _ (Stays-Keeps _ along (quiet nbr s))
              λ r. by_case r.0 r.1 (Stays-update_from decoder quiet fuel nbr ei r.1))
        where
          by_case :
              (o : Option ℕ) (t : S)
              → Stays P
                  (update_from filters instance_lists intf_lists decoder fault fuel gr nbr ei t)
              → Stays P (elim o [
                | none ↦
                    update_from filters instance_lists intf_lists decoder fault fuel gr nbr ei t
                | some route ↦ update_route_in filters instance_lists intf_lists gr nbr ei route
              ])
          by_case none t next = next
          by_case (some route) t next = Stays-update_route_in nbr ei route

-- The lookup of a neighbor's destinations makes a list and changes no neighbor.
module _ ⦃ll : LinkList⦄ where
  prefixes_from-nbrs :
      (nbr p : ℕ) (es found : List ℕ) → Keeps nbrs_of (prefixes_from nbr p es found)
  unfolding prefixes_from
  prefixes_from-nbrs nbr p [] found = Keeps-pure found
  prefixes_from-nbrs nbr p (e ∷ es) found =
      Keeps-bind _ _ (quiet-load_route Blind-nbrs e) λ r. prefixes_from-nbrs nbr p es _

  neighbor_prefixes_from-nbrs :
      (nbr : ℕ) (ds : List Dest) (found : List ℕ)
      → Keeps nbrs_of (neighbor_prefixes_from nbr ds found)
  unfolding neighbor_prefixes_from
  neighbor_prefixes_from-nbrs nbr [] found = Keeps-pure found
  neighbor_prefixes_from-nbrs nbr (d ∷ ds) found =
      Keeps-bind _ _ (quiet-table_lookup_ipv4 Blind-nbrs d)
        λ info. Keeps-bind _ _ (by_case info) λ next. neighbor_prefixes_from-nbrs nbr ds next
    where
      by_case :
          (info : Option ℕ)
          → Keeps nbrs_of (elim info [
            | none ↦ pure found
            | some p ↦ (load_prefix p >>= λ e. prefixes_from nbr p e.entries found)
          ])
      by_case none = Keeps-pure found
      by_case (some p) =
          Keeps-bind _ _ (quiet-load_prefix Blind-nbrs p)
            λ e. prefixes_from-nbrs nbr p e.entries found

  pub neighbor_prefixes_lookup-nbrs :
      (nbr : ℕ) (ds : List Dest) → Keeps nbrs_of (neighbor_prefixes_lookup nbr ds)
  unfolding neighbor_prefixes_lookup list_new
  neighbor_prefixes_lookup-nbrs nbr ds =
      Keeps-bind _ _ (neighbor_prefixes_from-nbrs nbr ds []) λ l. record { at = λ w. ends refl }
