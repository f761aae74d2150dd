-- ===== src/Lifetime/Frame.antt =====
-- What eigrp_topology_neighbor_down of eigrpd/eigrp_topology.c and the freeing of packets leave alone.
use eigrpd.Base.{ℕ, zero, suc, Option, none, some, List, [], ◌∷◌, ◌==◌, ◌≡◌, refl}
use eigrpd.Metric.{Metrics}
use eigrpd.LinkList.{LinkList}
use eigrpd.State.{
  Dest, Neighbor, Interface, Queue, World, M, pure, modify, Keeps, Keeps-pure, Keeps-fault,
  Keeps-if, Keeps-when, Keeps-bind, Keeps-modify, keeps_rules,
}
use eigrpd.Topology.Quiet.{Blind, quiet-load_route, quiet-load_prefix, quiet-load_nbr}
use eigrpd.Topology.Walk.{walk}
use eigrpd.Fsm.Quiet.{quiet-fsm_event}
use eigrpd.Session.{free_queue}
use eigrpd.Update.Down.{node_after, down_from, down_prefix, topology_neighbor_down}
use eigrpd.Update.Frame.{quiet-update_send_all, quiet-query_send_all, quiet-table_lookup_ipv4}

module _ {X : Type 0} {f : World → X} (b : Blind f) where
  quiet-node_after : (e : ℕ) (l : List ℕ) → Keeps f (node_after e l)
  unfolding node_after
  quiet-node_after e [] = Keeps-fault
  quiet-node_after e (x ∷ []) = Keeps-if (x == e) _ _ (Keeps-pure _) Keeps-fault
  quiet-node_after e (x ∷ y ∷ l) = Keeps-if (x == e) _ _ (Keeps-pure _) (quiet-node_after e (y ∷ l))

  -- A walk over the table keeps what its visits keep.
  quiet-walk :
      (visit : ℕ → M (Unit {0})) (nodes : List Dest)
      → ((p : ℕ) → Keeps f (visit p))
      → Keeps f (walk visit nodes)
  unfolding walk
  quiet-walk visit [] k = Keeps-pure tt
  quiet-walk visit (d ∷ nodes) k =
      Keeps-bind _ _ (quiet-table_lookup_ipv4 b d)
        λ info. Keeps-bind _ _ (by_case info) λ _. quiet-walk visit nodes k
    where
      by_case : (o : Option ℕ) → Keeps f (elim o [ none ↦ pure tt | some p ↦ visit p ])
      by_case none = Keeps-pure tt
      by_case (some p) = k p

  module _ ⦃ll : LinkList⦄ where
    quiet-down_from :
        (fuel : ℕ) (stack : Metrics) (nbr p : ℕ) (next : Option ℕ)
        → Keeps f (down_from fuel stack nbr p next)
    unfolding down_from
    quiet-down_from fuel stack nbr p none = Keeps-pure tt
    quiet-down_from zero stack nbr p (some e) = Keeps-fault
    quiet-down_from (suc fuel) stack nbr p (some e) = Keeps-bind _ _ (quiet-load_prefix b p) λ d.
        Keeps-bind _ _ (quiet-node_after e d.entries) λ next.
          Keeps-bind _ _ (quiet-load_route b e) λ r.
            Keeps-bind _ _ (Keeps-when _ _ (quiet-fsm_event b _))
              λ _. quiet-down_from fuel stack nbr p next

    quiet-down_prefix : (stack : Metrics) (nbr p : ℕ) → Keeps f (down_prefix stack nbr p)
    unfolding down_prefix
    quiet-down_prefix stack nbr p =
        Keeps-bind _ _ (quiet-load_prefix b p) λ d. quiet-down_from _ stack nbr p _

    pub quiet-topology_neighbor_down :
        (stack : Metrics) (nodes : List Dest) (nbr : ℕ)
        → Keeps f (topology_neighbor_down stack nodes nbr)
    unfolding topology_neighbor_down
    quiet-topology_neighbor_down stack nodes nbr =
        Keeps-bind _ _ (quiet-walk (down_prefix stack nbr) nodes (quiet-down_prefix stack nbr)) λ _.
          Keeps-bind _ _ (quiet-query_send_all b)
            λ _. Keeps-bind _ _ (quiet-load_nbr b nbr) λ n. quiet-update_send_all b n.ei

-- The neighbors and the interfaces.
abbrev pub links_of : World → (ℕ → Option Neighbor) × (ℕ → Option Interface)
links_of w = (w.nbrs, w.intfs)

pub Blind-links : Blind links_of
Blind-links = record {
  routes = λ w v. refl;
  next_route = λ w v. refl;
  next_prefix = λ w v. refl;
  prefixes = λ w v. refl;
  table = λ w v. refl;
  changes = λ w v. refl;
  queue = λ w v. refl;
  zebra = λ w v. refl;
}

pub free_queue-links : (q : Queue) → Keeps links_of (free_queue q)
unfolding free_queue
free_queue-links q = search (keeps_rules, packets_only)
  where
    packets_only :
        (g : World → World)
        → ((w : World) → links_of (g w) ≡ links_of w)
        → Keeps links_of (modify g)
    packets_only g h = Keeps-modify g h
