-- ===== src/Lib.antt =====
-- A verification library for the EIGRP daemon of eigrpd/: its vector metrics, its topology table,
-- its DUAL state machine, its TLV codecs and its packet queues, as definitions that run, with
-- theorems about them.
--
-- The program. A packet is checked, and its routes are decoded one TLV after the other by the
-- codec that the neighbor's version has bound. A message from a neighbor reaches the state
-- machine with a route, a destination and a metric. eigrp_get_fsm_event records the metric in the
-- route, moves the route to its place in the destination's list and names an event; the table NSM
-- picks an action by the destination's state and the event; the action changes the destination,
-- asks for queries, replies or updates, and installs or withdraws routes. The packetizer holds
-- that work until it builds packets of it: a reliable packet waits in its neighbor's queue, a
-- copy of it in the interface's output queue, and the interface in the list that the write event
-- takes up. An acknowledgement takes the packet off the neighbor's queue, and the one of the INIT
-- update makes the adjacency full, upon which the table is sent. A neighbor that falls silent is
-- taken down: its routes go to the state machine as unreachable, its packets are freed, and it
-- leaves its interface.
--
-- The files.
-- - Base, Base/Tests, Base/Words, Base/Lists: shared names, Boolean tests, C's integer widths and
--   division, lists.
-- - Metric: eigrpd/eigrp_metric.c. eigrp_bandwidth_to_scaled is `bandwidth_to_scaled`, and so on;
--   eigrp_calculate_total_metrics is split into the vector `total_metric` and the distance. Widths
--   are written out with `u32` and `u64`. Theorems: Metric/Scaling, Metric/Composite,
--   Metric/Total.
-- - LinkList: the interface of the host's linked list library, a record of operations and of the
--   laws that its documentation gives. Every component that holds a list takes it as an instance.
-- - State/Records: the records of eigrpd/eigrp_structs.h and eigrpd/eigrp_neighbor.h, and `World`,
--   the instance with its heap. A C pointer is a number and each kind of object has a heap of its
--   own, a function to `Option`: two lists that hold one pointer share the object.
-- - State/Monad: code over the world. `none` is a fault: a NULL or freed pointer is read, a number
--   is divided by 0, or an assertion fails. State/Post: postconditions of such code, and the rules
--   for what it keeps.
-- - Topology, Topology/Table, Topology/Distance: eigrpd/eigrp_topology.c.
--   eigrp_topology_update_distance is `update_distance`, its switch `measure`. What the operations
--   leave alone: Topology/Frame, Topology/Core. The selection of successors: Topology/Selection,
--   Topology/Flags. The walks over the table: Topology/Walk.
-- - Packetizer: the enqueueing half of eigrpd/eigrp_packetizer.c, and the senders of
--   eigrpd/eigrp_reply.c, eigrpd/eigrp_query.c, eigrpd/eigrp_siaquery.c, eigrpd/eigrp_siareply.c and
--   eigrpd/eigrp_update.c.
-- - Neighbor: lookup by address, counting and split horizon of eigrpd/eigrp_neighbor.c. The proof:
--   Neighbor/Lookup.
-- - Packet, Packet/Framing: the reservation of sequence numbers, and the walk over the TLVs of a
--   received packet, in eigrpd/eigrp_packet.c. The proofs: Packet/Sequence, Packet/Bounds.
-- - Send: the choice of the route that eigrp_packetizer_neighbor_route_send of
--   eigrpd/eigrp_packetizer.c advertises. The proof: Send/Poison.
-- - Fsm, Fsm/Event, Fsm/Action: eigrpd/eigrp_fsm.c. eigrp_get_fsm_event is `get_fsm_event`, the
--   table NSM is `nsm`, a call through it is `act`, and each eigrp_fsm_event_* is `event_*`.
--   Fsm/Outcome holds the diagram of the file's head as a relation between states.
--   The proofs: Fsm/Frame, Fsm/Publish, Fsm/Settle, Fsm/Keep, Fsm/Increase,
--   Fsm/Dual, Fsm/Fuel.
-- - Receive: the handlers of eigrpd/eigrp_reply.c, eigrpd/eigrp_query.c, eigrpd/eigrp_siaquery.c and
--   eigrpd/eigrp_siareply.c. They have one loop, `receive_from`, which takes the neighbor's decoder, a
--   function pointer, as an argument. The acknowledgement is kept in `acks`. The proofs:
--   Receive/Loop, Receive/Known, Receive/Unknown.
-- - Stream: the interface of the host's `stream`, a record of its operations and of their laws, on a
--   buffer with two positions. Lemmas: Stream/Runs, Stream/Reading, Stream/Writing, Stream/Safe.
-- - Tlv: what eigrpd/eigrp_tlv1.c and eigrpd/eigrp_tlv2.c both have a copy of. Tlv1 and Tlv2, each
--   with Parts and Codec: the codecs of classic and of wide metrics, without the heap; a decoder is
--   `parse` and an encoder is `encode`. The proofs: Tlv/Address, Tlv/Envelope, Tlv/Advance,
--   Tlv1/Bytes, Tlv1/Misread, Tlv1/Refused, Tlv1/Advance, Tlv2/Bytes, Tlv2/Layout, Tlv2/RoundTrip,
--   Tlv2/Advance.
-- - Filter: eigrp_update_prefix_apply of eigrpd/eigrp_update.c. Codec: the decoders and encoders with
--   the heap and the filters; Codec/Loop puts them into the loop of Receive, Codec/Filtered follows
--   a route that an interface's filter denies.
-- - Queue: the packet queues of eigrpd/eigrp_packet.c over a heap of packets. The proofs:
--   Queue/Chain, Queue/Refines.
-- - Retransmit: what eigrpd/eigrp_packet.c does with a neighbor's unacknowledged packets, from their
--   sending to the attempts to send them again; the allocator's address is an argument, and
--   eigrp_packet_unack_retrans and eigrp_packet_unack_multicast_retrans have one body. The proofs:
--   Retransmit/Shared, Retransmit/Attempt.
-- - Peers: an interface's neighbors by TLV version, in eigrpd/eigrp_interface.c, and
--   eigrp_nbr_state_set of eigrpd/eigrp_neighbor.c. The proofs: Peers/Tally, Peers/Counts,
--   Peers/Invariant, Peers/Rebind.
-- - Packet/Verify: eigrp_verify_header of eigrpd/eigrp_packet.c. Hello: the walk of
--   eigrp_hello_receive, with the handlers of the TLVs as a parameter, and
--   eigrp_hello_parameter_decode of eigrpd/eigrp_hello.c. The proofs: Hello/Walk, Hello/Verified,
--   and Hello/Adjacency, whose `Comes` has each place that sets a neighbor's state.
-- - State/Packets: the records of a packet, its buffer and its queue. Session: eigrp_nbr_state_set over
--   the heap, the packet's header and checksum, and eigrp_update_send_init of eigrpd/eigrp_update.c;
--   the host's checksum and eigrpd/eigrp_auth.c are the parameter `Wire`.
-- - Update: eigrp_update_receive of eigrpd/eigrp_update.c, with Update/Graceful (the lists of a
--   graceful restart, which are allocated and freed), Update/Learn (a destination that is new) and
--   Update/Down (eigrp_topology_neighbor_down of eigrpd/eigrp_topology.c). The proofs: Update/Frame,
--   Update/Walks, Update/Held, Update/Dangling, Update/Rounds, Update/Send/Twice, over
--   Topology/Quiet and Fsm/Quiet, which say what the topology's operations do not see.
-- - Update/Send, Update/Multicast: eigrp_update_send_EOT, eigrp_update_send, with their calls of the
--   codecs through the `encoder` of a neighbor and of an interface, and eigrp_update_packetize_all.
--   Update/Chunks: the packets of a graceful restart, eigrp_update_send_GR and its helpers.
-- - Lifetime: eigrp_nbr_create, eigrp_nbr_delete and holddown_timer_expired of
--   eigrpd/eigrp_neighbor.c, and what the version TLV and the termination TLV of a hello do, in
--   eigrpd/eigrp_hello.c. The proofs: Lifetime/Frame, Lifetime/Departure.
-- - Acknowledge: eigrp_packet_ack of eigrpd/eigrp_packet.c. Output: eigrp_packet_output_enqueue and
--   eigrp_packet_write of that file, with the socket as a record of what it was given. The proofs:
--   Output/Listed, Output/Scheduled, Output/Runs. Process: eigrp_packetizer_work_process of
--   eigrpd/eigrp_packetizer.c, with the packets that it builds of queries and replies.
-- - Tests: implementations of LinkList and of the stream, a router with two neighbors, runs and
--   examples.
--
-- Fuel. A fault and the end of the fuel are both `none`; so the loops over a packet's TLVs
-- (`receive_from`, `update_from`) and `act` take what comes after their fuel as an argument, `out`.
-- The handlers give them a fault there; with any other `out` the two can be told apart.
--
-- A call through NSM may take the event anew and call through NSM again (eigrp_fsm_event_dinc). `act` counts the calls that are left. The action calls again only after
-- it has set the state to ACTIVE_0 or ACTIVE_2, whose rows of NSM do not hold the action, so that
-- one inner call is all there is. eigrp_topology_get_successor_max has the length of its list as
-- fuel and drops one element each round. The loop of a handler has the bytes left in the packet, and
-- the walk over the TLVs the packet's length, of which each round takes four at least. The walk of
-- a hello has the bytes behind the header, of which each TLV of a verified packet takes four at
-- least. Freeing a queue has the queue's count. The loop of an update has the bytes left in the
-- packet. The inner loop of eigrp_topology_neighbor_down has twice the entries' length, since an
-- event that moves a route to a later place is followed by one that finds its metric unchanged. The
-- event of a graceful restart has two runs: the second one finds the first one's packet in the queue.
--
-- Not modelled. The reading of packets from the socket and the IP header of what is written, the
-- firing of the other timers, a change of an interface's MTU, the digests of authentication, deletion of interfaces, configuration
-- and display. The bits of a flag byte are Booleans of their own. Logging, the `change` of a message
-- and the serial numbers, which are kept for display, are left out. The topology table is a function
-- of the destination, without the reference counts of its nodes. Calls to zebra are recorded with
-- their arguments.
pub mod Base
pub mod Metric
pub mod LinkList
pub mod State
pub mod Topology
pub mod Packetizer
pub mod Neighbor
pub mod Stream
pub mod Tlv
pub mod Tlv1
pub mod Tlv2
pub mod Filter
pub mod Codec
pub mod Packet
pub mod Peers
pub mod Queue
pub mod Retransmit
pub mod Session
pub mod Lifetime
pub mod Acknowledge
pub mod Output
pub mod Process
pub mod Update
pub mod Hello
pub mod Send
pub mod Fsm
pub mod Receive
pub mod Tests
