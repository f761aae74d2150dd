-- ===== src/Update/Frame.antt =====
-- What the handling of an update leaves alone, beside the restart's own bookkeeping.
use eigrpd.Base.{ℕ, suc, ◌∙◌, Option, none, some, List, [], ◌∷◌}
use eigrpd.LinkList.{LinkList}
use eigrpd.State.{
  Dest, Route, Prefix, World, modify, Keeps, Keeps-bind, Keeps-modify, Keeps-pure, Keeps-get,
  Keeps-if, Keeps-when, keeps_rules, ends,
}
use eigrpd.Filter.{Filters, FilterSet}
use eigrpd.Packetizer.{
  enqueue, opcode_valid, query_send, query_send_from, query_send_all, update_send_all,
}
use eigrpd.Topology.{prefix_descriptor_lookup}
use eigrpd.Topology.Table.{prefix_descriptor_add, route_descriptor_add}
use eigrpd.Topology.Walk.{table_lookup_ipv4}
use eigrpd.Topology.Quiet.{
  Blind, quiet-load_route, quiet-load_prefix, quiet-store_prefix, quiet_rules,
  quiet-update_node_flags,
}
use eigrpd.Fsm.Quiet.{quiet-fsm_event}
use eigrpd.Receive.{prefix_create, receive_into, receive_known}
use eigrpd.Update.Learn.{learn}

module _ {X : Type 0} {f : World → X} (b : Blind f) where
  quiet-prefix_create : Keeps f prefix_create
  unfolding prefix_create
  quiet-prefix_create = record {
    at =
        λ w. ends (b.prefixes (record w { next_prefix = suc w.next_prefix }) _ ∙ b.next_prefix w _);
  }

  quiet-prefix_descriptor_lookup :
      (es : List ℕ) (nbr : ℕ) → Keeps f (prefix_descriptor_lookup es nbr)
  unfolding prefix_descriptor_lookup
  quiet-prefix_descriptor_lookup [] nbr = Keeps-pure none
  quiet-prefix_descriptor_lookup (e ∷ es) nbr =
      Keeps-bind _ _ (quiet-load_route b e)
        λ r. Keeps-if _ _ _ (Keeps-pure _) (quiet-prefix_descriptor_lookup es nbr)

  pub quiet-update_send_all : (ei : Option ℕ) → Keeps f (update_send_all ei)
  unfolding update_send_all enqueue opcode_valid
  quiet-update_send_all ei = Keeps-modify _ λ w. b.queue w _

  pub quiet-table_lookup_ipv4 : (d : Dest) → Keeps f (table_lookup_ipv4 d)
  unfolding table_lookup_ipv4
  quiet-table_lookup_ipv4 d = search keeps_rules

  module _ ⦃ll : LinkList⦄ where
    quiet-query_send : (p : ℕ) (d : Prefix) → Keeps f (query_send p d)
    unfolding query_send enqueue opcode_valid
    quiet-query_send p d = Keeps-bind _ _ (Keeps-modify _ λ w. b.queue w _) λ _.
        Keeps-bind _ _ (quiet-store_prefix b p _)
          λ _. Keeps-when _ _ (Keeps-modify _ λ w. b.changes w _)

    quiet-query_send_from : (ps : List ℕ) (c : ℕ) → Keeps f (query_send_from ps c)
    unfolding query_send_from
    quiet-query_send_from [] c = Keeps-pure c
    quiet-query_send_from (p ∷ ps) c =
        Keeps-bind _ _ (quiet-load_prefix b p) λ d.
          Keeps-bind _ _ (Keeps-when _ _ (quiet-query_send p d)) λ _. quiet-query_send_from ps _

    pub quiet-query_send_all : Keeps f query_send_all
    unfolding query_send_all
    quiet-query_send_all = Keeps-bind _ _ Keeps-get λ w. quiet-query_send_from w.topology_changes 0

    pub quiet-receive_known : (o nbr p r : ℕ) → Keeps f (receive_known o nbr p r)
    unfolding receive_known receive_into
    quiet-receive_known o nbr p received = Keeps-bind _ _ (quiet-load_route b received) λ r.
        Keeps-bind _ _ (quiet-load_prefix b p)
          λ d. Keeps-bind _ _ (quiet-prefix_descriptor_lookup d.entries nbr) λ found. into r found
      where
        into : (r : Route) (found : Option ℕ) → Keeps f (receive_into o nbr p received r found)
        into r (some e) = search (quiet_rules, quiet-fsm_event, b)
        into r none = search (quiet_rules, quiet-fsm_event, b)

    quiet-prefix_descriptor_add : (p : ℕ) → Keeps f (prefix_descriptor_add p)
    unfolding prefix_descriptor_add
    quiet-prefix_descriptor_add p =
        Keeps-bind _ _ (quiet-load_prefix b p) λ d. Keeps-modify _ λ w. b.table w _

    quiet-route_descriptor_add : (p r : ℕ) → Keeps f (route_descriptor_add p r)
    unfolding route_descriptor_add
    quiet-route_descriptor_add p r = search (quiet_rules, b) depth 12

    module _ (filters : Filters) (instance_lists : FilterSet) (intf_lists : ℕ → FilterSet) where
      pub quiet-learn :
          (nbr ei route : ℕ) → Keeps f (learn filters instance_lists intf_lists nbr ei route)
      unfolding learn
      quiet-learn nbr ei route =
          search
            (
              quiet_rules, quiet-prefix_create, quiet-prefix_descriptor_add,
              quiet-route_descriptor_add, quiet-update_node_flags, quiet-add_changes, b,
            )
            depth 40
        where
          quiet-add_changes :
              (p : ℕ)
              → Keeps f (modify (λ v. record v { topology_changes = ll.add v.topology_changes p }))
          quiet-add_changes p = Keeps-modify _ λ w. b.changes w _
