-- ===== src/Send.antt =====
-- What a reply advertises: the choice of the route in eigrpd/eigrp_packetizer.c.
pub mod Poison
use eigrpd.Base.{ℕ, Bool, true, false, Option, none, some, List, [], ◌∷◌, if◌then◌else◌}
use eigrpd.Metric.{max_metric}
use eigrpd.LinkList.{LinkList}
use eigrpd.State.{
  TopologyType, connected, remote, remote_external, Work, M, pure, ◌>>=◌, ◌>>◌, load_prefix,
  update_route,
}
use eigrpd.Topology.{route_create}
use eigrpd.Topology.Table.{get_successor}
use eigrpd.Topology.Distance.{is_external}
use eigrpd.Fsm.Event.{head?}

-- EIGRP_TLV_IPv4_INT and EIGRP_TLV_IPv4_EXT
abbrev pub tlv_ipv4 : Bool → ℕ
tlv_ipv4 external = if external then 0x0103 else 0x0102

-- eigrp_packetizer_poison_route_create: a fresh route that says the destination is unreachable.
unfoldable pub poison_route_create : ℕ → M ℕ
poison_route_create p = do
  d ← load_prefix p
  route ← route_create none
  update_route route (λ r. record r {
    prefix = some p;
    dest = d.destination;
    type = tlv_ipv4 (is_external d.nt);
    metric = record d.reported_metric { delay = max_metric; flags = 0 };
  })
  pure route

module _ ⦃ll : LinkList⦄ where
  abbrev pub first : Option (List ℕ) → Option ℕ
  first none = none
  first (some l) = head? l

  abbrev or_poison : ℕ → Option ℕ → M (ℕ × Bool)
  or_poison p none = do route ← poison_route_create p; pure (route, true)
  or_poison p (some route) = pure (route, false)

  -- The route that eigrp_packetizer_neighbor_route_send advertises, and whether it frees it.
  unfoldable pub advertised_route : Option ℕ → ℕ → M (ℕ × Bool)
  advertised_route (some route) p = pure (route, false)
  advertised_route none p = do found ← get_successor p; or_poison p (first found)
