-- ===== src/State/Records.antt =====
-- The records of eigrpd/eigrp_structs.h and eigrpd/eigrp_neighbor.h, with the fields that the
-- topology table and the DUAL state machine use.
use eigrpd.Base.{ℕ, Bool, Option, List, ◌==◌, ◌&&◌}
use eigrpd.State.Packets.{Cell, Cells, Queue, Encoder, PacketPart}
use eigrpd.Metric.{Metrics, KValues, IntfParams}

-- `struct prefix` for IPv4.
pub record Dest : Type 0 where
  pub family : ℕ
  pub prefixlen : ℕ
  pub addr0 : ℕ
  pub addr1 : ℕ
  pub addr2 : ℕ
  pub addr3 : ℕ

abbrev pub dest_same : Dest → Dest → Bool
dest_same a b =
    a.family == b.family
    && (a.prefixlen == b.prefixlen
        && (a.addr0 == b.addr0
            && (a.addr1 == b.addr1 && (a.addr2 == b.addr2 && a.addr3 == b.addr3))))

-- `eigrp_extdata_t`
pub record ExtData : Type 0 where
  pub orig : ℕ
  pub as_number : ℕ
  pub tag : ℕ
  pub metric : ℕ
  pub reserved : ℕ
  pub protocol : ℕ
  pub flags : ℕ

-- `eigrp_route_descriptor_t`. The bits of `flags` are Booleans of their own.
pub record Route : Type 0 where
  pub type : ℕ
  pub dest : Dest
  pub nexthop : ℕ
  pub prefix : Option ℕ
  pub adv_router : Option ℕ
  pub reported_metric : Metrics
  pub reported_distance : ℕ
  pub total_metric : Metrics
  pub distance : ℕ
  pub metric : Metrics
  pub extdata : ExtData
  pub successor : Bool
  pub fsuccessor : Bool
  pub intable : Bool
  pub external : Bool
  pub ei : Option ℕ

-- enum eigrp_fsm_states
pub data FsmState : Type 0 where
  passive active_0 active_1 active_2 active_3 : FsmState

-- The network types of `nt`.
pub data TopologyType : Type 0 where
  connected remote remote_external : TopologyType

-- `eigrp_prefix_descriptor_t`. The bits of `req_action` are Booleans of their own.
pub record Prefix : Type 0 where
  pub entries : List ℕ
  pub rij : List ℕ
  pub destination : Dest
  pub reported_metric : Metrics
  pub fdistance : ℕ
  pub rdistance : ℕ
  pub distance : ℕ
  pub nt : TopologyType
  pub state : FsmState
  pub need_update : Bool
  pub need_query : Bool

-- The neighbor states of eigrp_const.h.
pub data NbrState : Type 0 where
  down pending up : NbrState

-- K1 to K6, each a byte.
pub record Weights : Type 0 where
  pub k1 : ℕ
  pub k2 : ℕ
  pub k3 : ℕ
  pub k4 : ℕ
  pub k5 : ℕ
  pub k6 : ℕ

-- The defaults of eigrp_nbr_init and eigrp_nbr_state_set.
abbrev pub default_weights : Weights
default_weights = record { k1 = 1; k2 = 0; k3 = 1; k4 = 0; k5 = 0; k6 = 0 }

abbrev pub hold_interval_default : ℕ
hold_interval_default = 15

-- `codec` stands for `decoder` and `encoder`, which are set together, and `t_holddown` and
-- `t_nbr_send_gr` for timers that are pending.
pub record Neighbor : Type 0 where
  pub state : NbrState
  pub ei : Option ℕ
  pub recv_sequence_number : ℕ
  pub src : ℕ
  pub tlv_version : ℕ
  pub init_sequence_number : ℕ
  pub nbr_gr_prefixes : Option ℕ
  pub nbr_gr_prefixes_send : Option ℕ
  pub nbr_gr_packet_type : PacketPart
  pub t_nbr_send_gr : Bool
  pub retrans_queue : Queue
  pub multicast_queue : Queue
  pub codec : Encoder
  pub weights : Weights
  pub v_holddown : ℕ
  pub t_holddown : Bool
  pub retrans_counter : ℕ
  pub crypt_seqnum : ℕ

-- The counters of `stats.sent` that the packetizer counts.
pub record Transmitted : Type 0 where
  pub query : ℕ
  pub reply : ℕ
  pub siaquery : ℕ
  pub siareply : ℕ

-- The counters of `stats.rcvd` that the handlers of routing packets count.
pub record Received : Type 0 where
  pub update : ℕ
  pub query : ℕ
  pub reply : ℕ
  pub siaquery : ℕ
  pub siareply : ℕ

pub record Interface : Type 0 where
  pub params : IntfParams
  pub nbrs : List ℕ
  pub rcvd : Received
  pub sent : Transmitted
  pub mtu : ℕ
  pub tlv1_peer_count : ℕ
  pub tlv2_peer_count : ℕ
  pub encoder : Encoder
  pub obuf : Queue
  pub on_write_q : Bool

-- `eigrp_packetizer_work_t`
pub record Work : Type 0 where
  pub opcode : ℕ
  pub nbr : Option ℕ
  pub prefix : Option ℕ
  pub route : Option ℕ
  pub exception : Option ℕ
  pub own_route : Bool
  pub own_prefix : Bool

-- Calls that leave the daemon for zebra.
pub data ZebraCall : Type 0 where
  route_add : Dest → List ℕ → ℕ → ZebraCall
  route_delete : Dest → ZebraCall

-- The fields of `eigrp_instance` that are used, and the heap. `table` is the topology table, the
-- map from a destination to the `info` of its node. `queue` holds the packetizer's work and
-- `zebra` the calls to zebra, both oldest first. `acks` holds the acknowledgements, each the
-- neighbor and the sequence number. `lists` holds the lists that a neighbor keeps between packets. `sent`
-- holds what was handed to the socket, each packet with its interface.
pub record World : Type 0 where
  pub k_values : KValues
  pub variance : ℕ
  pub max_paths : ℕ
  pub eiflist : List ℕ
  pub topology_changes : List ℕ
  pub table : Dest → Option ℕ
  pub queue : List Work
  pub zebra : List ZebraCall
  pub routes : ℕ → Option Route
  pub prefixes : ℕ → Option Prefix
  pub nbrs : ℕ → Option Neighbor
  pub intfs : ℕ → Option Interface
  pub next_route : ℕ
  pub next_prefix : ℕ
  pub acks : List (ℕ × ℕ)
  pub as_number : ℕ
  pub vrid : ℕ
  pub sequence_number : ℕ
  pub packets : Cells
  pub next_packet : ℕ
  pub oi_write_q : List ℕ
  pub t_write : Bool
  pub sent : List (ℕ × Cell)
  pub lists : ℕ → Option (List ℕ)
  pub next_list : ℕ

-- What XCALLOC gives.
abbrev pub zero_metrics : Metrics
zero_metrics = record {
  delay = 0;
  bandwidth = 0;
  mtu0 = 0;
  mtu1 = 0;
  mtu2 = 0;
  hop_count = 0;
  reliability = 0;
  load = 0;
  tag = 0;
  flags = 0;
}

abbrev pub zero_dest : Dest
zero_dest = record { family = 0; prefixlen = 0; addr0 = 0; addr1 = 0; addr2 = 0; addr3 = 0 }

abbrev pub zero_extdata : ExtData
zero_extdata = record {
  orig = 0;
  as_number = 0;
  tag = 0;
  metric = 0;
  reserved = 0;
  protocol = 0;
  flags = 0;
}
