-- ===== src/Tests/Scenario.antt =====
-- A router with one interface, two neighbors on it, and one destination that is PASSIVE.
use eigrpd.Base.{ℕ, ◌+◌, true, false, none, some, [], ◌∷◌, if◌then◌else◌, ◌==◌}
use eigrpd.Metric.{Metrics}
use eigrpd.State.{
  part_na, Neighbor, Interface, queue_new, wide, default_weights, hold_interval_default, Dest,
  Route, Prefix, World, zero_dest, zero_metrics, zero_extdata, remote, passive, up,
}
use eigrpd.Topology.{Msg, msg_int}
use eigrpd.Packetizer.{opc_update}

abbrev pub dest : Dest
dest = record zero_dest { family = 2; prefixlen = 24; addr0 = 10 }

abbrev pub near : Metrics
near = record zero_metrics { delay = 2560; bandwidth = 25600; reliability = 255; load = 1 }

abbrev pub far : Metrics
far = record near { delay = 256000 }

abbrev pub route : Route
route = record {
  type = 0;
  dest = dest;
  nexthop = 0;
  prefix = some 0;
  adv_router = some 0;
  reported_metric = near;
  reported_distance = 28160;
  total_metric = record near { delay = 5120 };
  distance = 30720;
  metric = near;
  extdata = zero_extdata;
  successor = true;
  fsuccessor = false;
  intable = true;
  external = false;
  ei = some 0;
}

abbrev pub prefix : Prefix
prefix = record {
  entries = 10 ∷ [];
  rij = [];
  destination = dest;
  reported_metric = record near { delay = 5120 };
  fdistance = 30720;
  rdistance = 30720;
  distance = 30720;
  nt = remote;
  state = passive;
  need_update = false;
  need_query = false;
}

abbrev pub neighbor : ℕ → Neighbor
neighbor p = record {
  state = up;
  ei = some 0;
  recv_sequence_number = 0;
  src = 167772162 + p;
  tlv_version = 2;
  init_sequence_number = 0;
  nbr_gr_prefixes = none;
  nbr_gr_prefixes_send = none;
  nbr_gr_packet_type = part_na;
  t_nbr_send_gr = false;
  retrans_queue = queue_new;
  multicast_queue = queue_new;
  codec = wide;
  weights = default_weights;
  v_holddown = hold_interval_default;
  t_holddown = true;
  retrans_counter = 0;
  crypt_seqnum = 0;
}

abbrev pub interface : Interface
interface = record {
  params = record { bandwidth = 100000; delay = 10 };
  nbrs = 0 ∷ 1 ∷ [];
  mtu = 1500;
  tlv1_peer_count = 0;
  tlv2_peer_count = 2;
  encoder = wide;
  obuf = queue_new;
  on_write_q = false;
  sent = record { query = 0; reply = 0; siaquery = 0; siareply = 0 };
  rcvd = record { update = 0; query = 0; reply = 0; siaquery = 0; siareply = 0 };
}

abbrev pub world : World
world = record {
  k_values = record { k1 = 1; k2 = 0; k3 = 1; k4 = 0; k5 = 0 };
  variance = 1;
  max_paths = 4;
  eiflist = 0 ∷ [];
  topology_changes = [];
  table = λ _. some 0;
  queue = [];
  zebra = [];
  routes = λ p. if p == 10 then some route else none;
  prefixes = λ p. if p == 0 then some prefix else none;
  nbrs = λ p. some (neighbor p);
  intfs = λ p. some interface;
  next_route = 11;
  next_prefix = 1;
  acks = [];
  as_number = 1;
  vrid = 0;
  sequence_number = 5;
  packets = λ p. none;
  next_packet = 0;
  oi_write_q = [];
  t_write = false;
  sent = [];
  lists = λ p. none;
  next_list = 0;
}

-- An update by which the successor's distance grows beyond the feasible distance.
abbrev pub update : Msg
update = record {
  packet_type = opc_update;
  adv_router = some 0;
  route = some 10;
  prefix = 0;
  data_type = msg_int;
  metrics = far;
}
