-- ===== src/Receive.antt =====
-- The handlers of routing packets: eigrpd/eigrp_reply.c, eigrpd/eigrp_query.c,
-- eigrpd/eigrp_siaquery.c and eigrpd/eigrp_siareply.c.
pub mod Loop
pub mod Known
pub mod Unknown
use eigrpd.Base.{
  ℕ, zero, suc, ◌+◌, true, false, Option, none, some, [], ◌∷◌, ◌++◌, ◌==◌, if◌then◌else◌, u32,
}
use eigrpd.Metric.{max_metric}
use eigrpd.LinkList.{LinkList}
use eigrpd.State.{
  Route, Prefix, Received, connected, passive, M, pure, fault, get, modify, ◌>>=◌, ◌>>◌, write,
  load_route, free_route, load_prefix, load_nbr, update_route, update_prefix, update_nbr,
  update_intf, zero_dest, zero_metrics,
}
use eigrpd.Packetizer.{
  opc_query, opc_reply, opc_siaquery, opc_siareply, reply_send_route, query_send_all,
  update_send_all,
}
use eigrpd.Topology.{Msg, MsgData, msg_int, msg_ext, route_create, prefix_descriptor_lookup}
use eigrpd.Fsm.{fsm_event}

-- EIGRP_TLV_IPv4_EXT
abbrev pub tlv_ipv4_ext : ℕ
tlv_ipv4_ext = 0x0103

-- A neighbor's `decoder`, a function pointer: it takes the next TLV off the packet and gives a
-- fresh route, or none. `remaining` is endp - getp.
pub record Decoder (S : Type 0) : Type 0 where
  pub remaining : S → ℕ
  pub decode : ℕ → S → M (Option ℕ × S)

abbrev pub data_type_of : Route → MsgData
data_type_of r = if r.type == tlv_ipv4_ext then msg_ext else msg_int

-- The destination that eigrp_topology_prefix_create makes.
abbrev pub new_prefix : Prefix
new_prefix = record {
  entries = [];
  rij = [];
  destination = zero_dest;
  reported_metric = zero_metrics;
  fdistance = max_metric;
  rdistance = max_metric;
  distance = max_metric;
  nt = connected;
  state = passive;
  need_update = false;
  need_query = false;
}

-- eigrp_topology_prefix_create
unfoldable pub prefix_create : M ℕ
prefix_create w = some (
  w.next_prefix,
  record w {
    next_prefix = suc w.next_prefix;
    prefixes = write w.prefixes w.next_prefix (some new_prefix);
  },
)

-- eigrp_query_unknown_reply_send: an unreachable reply whose route and destination the work owns.
unfoldable pub query_unknown_reply_send : ℕ → ℕ → M (Unit {0})
query_unknown_reply_send nbr query_route = do
  q ← load_route query_route
  prefix ← prefix_create
  update_prefix prefix (λ d. record d { destination = q.dest })
  n ← load_nbr nbr
  reply_route ← route_create n.ei
  update_route reply_route (λ r. record r {
    type = q.type;
    dest = q.dest;
    prefix = some prefix;
    adv_router = some nbr;
    metric = record q.metric { delay = max_metric; flags = 0 };
  })
  reply_send_route (some nbr) prefix (some reply_route) true true

-- What a handler does with a destination that the table does not hold.
abbrev pub on_unknown : ℕ → ℕ → ℕ → M (Unit {0})
on_unknown opcode nbr route =
    if opcode == opc_query then query_unknown_reply_send nbr route else pure tt

-- eigrp_hello_send_ack, as the acknowledgement that it queues.
unfoldable pub hello_send_ack : ℕ → M (Unit {0})
hello_send_ack nbr = do
  n ← load_nbr nbr
  modify (λ w. record w { acks = w.acks ++ (nbr, n.recv_sequence_number) ∷ [] })

-- The counter of the handler.
abbrev pub count_received : ℕ → Received → Received
count_received opcode s =
    if opcode == opc_query
    then record s { query = u32 (s.query + 1) }
    else if opcode == opc_reply
    then record s { reply = u32 (s.reply + 1) }
    else if opcode == opc_siaquery
    then record s { siaquery = u32 (s.siaquery + 1) }
    else record s { siareply = u32 (s.siareply + 1) }

module _ ⦃ll : LinkList⦄ where
  -- The message to the state machine, of the received route and of the route in the table.
  abbrev pub message : ℕ → ℕ → ℕ → ℕ → Route → Msg
  message opcode nbr prefix route received = record {
    packet_type = opcode;
    adv_router = some nbr;
    route = some route;
    prefix = prefix;
    data_type = data_type_of received;
    metrics = received.metric;
  }

  -- The destination's route from the neighbor takes what was received, or the received route
  -- joins the destination.
  unfoldable pub receive_into : ℕ → ℕ → ℕ → ℕ → Route → Option ℕ → M (Unit {0})
  receive_into opcode nbr prefix received r (some route) = do
    update_route route (λ e. record e { type = r.type; nexthop = r.nexthop; extdata = r.extdata })
    fsm_event (message opcode nbr prefix route r)
    free_route received
  receive_into opcode nbr prefix received r none = do
    update_route received (λ e. record e { adv_router = some nbr; prefix = some prefix })
    fsm_event (message opcode nbr prefix received r)

  -- The table holds the destination.
  unfoldable pub receive_known : ℕ → ℕ → ℕ → ℕ → M (Unit {0})
  receive_known opcode nbr prefix received = do
    r ← load_route received
    d ← load_prefix prefix
    found ← prefix_descriptor_lookup d.entries nbr
    receive_into opcode nbr prefix received r found

  -- One round of a handler's loop, with the decoded route.
  unfoldable pub receive_route : ℕ → ℕ → ℕ → M (Unit {0})
  receive_route opcode nbr received = do
    r ← load_route received
    w ← get
    elim (w.table r.dest) [
      | some prefix ↦ receive_known opcode nbr prefix received
      | none ↦ (on_unknown opcode nbr received >> free_route received)
    ]

  module _ {S : Type 0} (decoder : Decoder S) where
    -- The loop: it ends with the packet, or with the first TLV that gives no route. `out` stands for
    -- what the loop does after the rounds that it is given.
    unfoldable pub receive_from : M (Unit {0}) → ℕ → ℕ → ℕ → S → M (Unit {0})
    receive_from out zero opcode nbr s = if decoder.remaining s == 0 then pure tt else out
    receive_from out (suc fuel) opcode nbr s =
        if decoder.remaining s == 0
        then pure tt
        else (decoder.decode nbr s >>= λ r. elim r.0 [
          | none ↦ pure tt
          | some route ↦ (receive_route opcode nbr route >> receive_from out fuel opcode nbr r.1)
        ])

    -- What the four handlers begin with, and their loop and acknowledgement.
    unfoldable pub receive : ℕ → ℕ → ℕ → ℕ → S → M (Unit {0})
    receive opcode ei nbr sequence s = do
      update_intf ei (λ i. record i { rcvd = count_received opcode i.rcvd })
      update_nbr nbr (λ n. record n { recv_sequence_number = sequence })
      receive_from fault (decoder.remaining s) opcode nbr s
      hello_send_ack nbr

    -- eigrp_reply_receive
    unfoldable pub reply_receive : ℕ → ℕ → ℕ → S → M (Unit {0})
    reply_receive ei nbr sequence s = receive opc_reply ei nbr sequence s

    -- eigrp_siaquery_receive
    unfoldable pub siaquery_receive : ℕ → ℕ → ℕ → S → M (Unit {0})
    siaquery_receive ei nbr sequence s = receive opc_siaquery ei nbr sequence s

    -- eigrp_siareply_receive
    unfoldable pub siareply_receive : ℕ → ℕ → ℕ → S → M (Unit {0})
    siareply_receive ei nbr sequence s = receive opc_siareply ei nbr sequence s

    -- eigrp_query_receive: what the events asked for is sent at once.
    unfoldable pub query_receive : ℕ → ℕ → ℕ → S → M (Unit {0})
    query_receive ei nbr sequence s = do
      receive opc_query ei nbr sequence s
      _ ← query_send_all
      n ← load_nbr nbr
      update_send_all n.ei
