-- ===== src/Session.antt =====
-- The packets and the state of one neighbor over the daemon's heap: eigrp_packet_header_init and
-- eigrp_packet_checksum of eigrpd/eigrp_packet.c, eigrp_nbr_state_set of eigrpd/eigrp_neighbor.c, and
-- eigrp_update_send_init of eigrpd/eigrp_update.c.
use eigrpd.Base.{
  ℕ, suc, ◌+◌, ◌-◌, Bool, false, not, ◌&&◌, Option, none, some, List, ◌∷◌, ◌++◌, ◌==◌, ◌>>=?◌,
  if◌then◌else◌, u8, u16,
}
use eigrpd.Stream.{Buffer, over, bytes_w, bytes_l}
use eigrpd.State.{
  Cell, Queue, queue_new, NbrState, default_weights, hold_interval_default, Neighbor, Interface,
  World, M, pure, get, modify, expect, when, ◌>>=◌, ◌>>◌, write, load_nbr, load_intf, update_nbr,
  update_intf,
}
use eigrpd.Packet.Framing.{header_len}
use eigrpd.Packet.Verify.{header_version}
use eigrpd.Neighbor.{is_up}
use eigrpd.Peers.{Peers, encoder_bind, encoder_unbind}
use eigrpd.Hello.{is_down}
use eigrpd.Queue.{packet_enqueue, queue_reset}
use eigrpd.Packetizer.{opc_update}
use eigrpd.Retransmit.{Link, packet_new, send_reliably}

-- The bits of a header's flags: EIGRP_INIT_FLAG, EIGRP_CR_FLAG, EIGRP_RS_FLAG, EIGRP_EOT_FLAG.
abbrev pub init_flag : ℕ
init_flag = 1

abbrev pub cr_flag : ℕ
cr_flag = 2

abbrev pub rs_flag : ℕ
rs_flag = 4

abbrev pub eot_flag : ℕ
eot_flag = 8

-- EIGRP_PACKET_MTU, with the size of an IPv4 header.
abbrev pub packet_mtu : ℕ → ℕ
packet_mtu mtu = mtu - 20

-- The host's `in_cksum`, and eigrpd/eigrp_auth.c with the host's key chains and digests: whether an
-- interface authenticates with MD5, the TLV that is put behind a packet, with its length, and the
-- digest that is written into it.
pub record Wire : Type 0 where
  pub in_cksum : Buffer → ℕ → ℕ
  pub auth_on : ℕ → Bool
  pub auth_add : ℕ → Buffer → ℕ × Buffer
  pub auth_digest : ℕ → Buffer → Buffer

-- eigrp_packet_header_init, with the instance's VRID and AS.
abbrev pub header_bytes : World → ℕ → ℕ → ℕ → ℕ → List ℕ
header_bytes w type flags sequence ack =
    u8 header_version
    ∷ u8 type
    ∷ (bytes_w 0
        ++ bytes_l flags
        ++ bytes_l sequence
        ++ bytes_l ack
        ++ bytes_w w.vrid
        ++ bytes_w w.as_number)

unfoldable pub header_init : World → ℕ → ℕ → ℕ → ℕ → Buffer → Buffer
header_init w type flags sequence ack s = record s {
  byte = over s.byte 0 (header_bytes w type flags sequence ack);
  getp = 0;
  endp = header_len;
}

-- A packet that is allocated, and the change of one.
unfoldable pub packet_create : ℕ → Option ℕ → M ℕ
packet_create size nbr w = some (
  w.next_packet,
  record w {
    next_packet = suc w.next_packet;
    packets = write w.packets w.next_packet (some (packet_new size nbr));
  },
)

unfoldable pub update_packet : ℕ → (Cell → Cell) → M (Unit {0})
update_packet p f = do
  w ← get
  c ← expect (w.packets p)
  modify (λ v. record v { packets = write v.packets p (some (f c)) })

-- A neighbor's packets, with those of its interface.
abbrev pub link_of : World → ℕ → Neighbor → ℕ → Interface → Link
link_of w nbr n ei i = record {
  cells = w.packets;
  nbr = nbr;
  src = n.src;
  retrans_queue = n.retrans_queue;
  multicast_queue = n.multicast_queue;
  ei = ei;
  obuf = i.obuf;
  on_write_q = i.on_write_q;
  oi_write_q = w.oi_write_q;
  t_write = w.t_write;
  sequence_number = w.sequence_number;
}

unfoldable pub store_link : ℕ → ℕ → Link → M (Unit {0})
store_link nbr ei l = do
  modify (λ w. record w {
    packets = l.cells;
    oi_write_q = l.oi_write_q;
    t_write = l.t_write;
    sequence_number = l.sequence_number;
  })
  update_nbr nbr
      (λ n. record n { retrans_queue = l.retrans_queue; multicast_queue = l.multicast_queue })
  update_intf ei (λ i. record i { obuf = l.obuf; on_write_q = l.on_write_q })

unfoldable pub with_link : ℕ → (Link → Option Link) → M (Unit {0})
with_link nbr f = do
  n ← load_nbr nbr
  ei ← expect n.ei
  i ← load_intf ei
  w ← get
  l ← expect (f (link_of w nbr n ei i))
  store_link nbr ei l

-- eigrp_packet_send_reliably; the copy takes the next free address.
unfoldable pub nbr_send_reliably : ℕ → M (Unit {0})
nbr_send_reliably nbr = do
  w ← get
  modify (λ v. record v { next_packet = suc v.next_packet })
  with_link nbr (send_reliably w.next_packet)

-- A packet joins the neighbor's queue, and is sent at once if it is the only one there.
unfoldable pub enqueue_reliable : ℕ → ℕ → M (Unit {0})
enqueue_reliable nbr p = with_link nbr (λ l. packet_enqueue l.retrans_queue p l.cells >>=? λ r.
    some (record l { retrans_queue = r.0; cells = r.1 }))

unfoldable pub send_if_only : ℕ → M (Unit {0})
send_if_only nbr = do n ← load_nbr nbr; when (n.retrans_queue.count == 1) (nbr_send_reliably nbr)

abbrev pub place_reliable : ℕ → ℕ → M (Unit {0})
place_reliable nbr p = do enqueue_reliable nbr p; send_if_only nbr

module _ (wire : Wire) where
  -- The authentication TLV, if the interface wants one, with its length.
  unfoldable pub authenticate : ℕ → ℕ → M ℕ
  authenticate ei p =
      if wire.auth_on ei
      then (get >>= λ w. expect (w.packets p) >>= λ c.
          update_packet p (λ d. record d { bytes = (wire.auth_add ei c.bytes).1 })
          >> pure (wire.auth_add ei c.bytes).0)
      else pure 0

  unfoldable pub digest : ℕ → ℕ → M (Unit {0})
  digest ei p =
      when (wire.auth_on ei)
        (update_packet p (λ c. record c { bytes = wire.auth_digest ei c.bytes }))

  -- eigrp_packet_checksum: bytes 2 and 3.
  abbrev pub checksum : ℕ → Buffer → Buffer
  checksum length s = record s { byte = over s.byte 2 (bytes_w (wire.in_cksum s length)) }

  -- What a packet ends with before it is queued.
  unfoldable pub seal_packet : ℕ → ℕ → ℕ → ℕ → M (Unit {0})
  seal_packet p length dst sequence = update_packet p (λ c. record c {
    bytes = checksum length c.bytes;
    length = length;
    dst = dst;
    sequence_number = sequence;
  })

  -- eigrp_update_send_init
  unfoldable pub update_send_init : ℕ → M (Unit {0})
  update_send_init nbr = do
    n ← load_nbr nbr
    ei ← expect n.ei
    i ← load_intf ei
    w ← get
    p ← packet_create (packet_mtu i.mtu) (some nbr)
    update_packet p (λ c. record c {
      bytes = header_init w opc_update init_flag w.sequence_number n.recv_sequence_number c.bytes;
    })
    length ← authenticate ei p
    digest ei p
    seal_packet p (u16 (header_len + length)) n.src w.sequence_number
    update_nbr nbr (λ m. record m { init_sequence_number = w.sequence_number })
    place_reliable nbr p

-- An interface's counters of neighbors, without the neighbors.
abbrev pub counters : Interface → Peers
counters i = record {
  peers = λ p. none;
  tlv1_peer_count = i.tlv1_peer_count;
  tlv2_peer_count = i.tlv2_peer_count;
  encoder = i.encoder;
}

unfoldable pub recount : Option ℕ → (Peers → Peers) → M (Unit {0})
recount none f = pure tt
recount (some ei) f = update_intf ei (λ i.
    let c = f (counters i) in
    record i {
      tlv1_peer_count = c.tlv1_peer_count;
      tlv2_peer_count = c.tlv2_peer_count;
      encoder = c.encoder;
    })

-- eigrp_packet_queue_free: every packet of the queue.
unfoldable pub free_queue : Queue → M (Unit {0})
free_queue q = do
  w ← get
  r ← expect (queue_reset q w.packets)
  modify (λ v. record v { packets = r.1 })

-- What a neighbor that is down loses.
unfoldable pub nbr_reset : ℕ → M (Unit {0})
nbr_reset nbr = do
  n ← load_nbr nbr
  free_queue n.multicast_queue
  free_queue n.retrans_queue
  update_nbr nbr (λ m. record m {
    recv_sequence_number = 0;
    init_sequence_number = 0;
    retrans_counter = 0;
    weights = default_weights;
    v_holddown = hold_interval_default;
    t_holddown = false;
    crypt_seqnum = 0;
    retrans_queue = queue_new;
    multicast_queue = queue_new;
  })

-- eigrp_nbr_state_set, with the neighbor's queues and the interface's counters.
unfoldable pub nbr_state_set : ℕ → NbrState → M (Unit {0})
nbr_state_set nbr state = do
  n ← load_nbr nbr
  when (is_up n.state && not (is_up state)) (recount n.ei (encoder_unbind n.tlv_version))
  update_nbr nbr (λ m. record m { state = state })
  when (is_up state && not (is_up n.state)) (recount n.ei (encoder_bind n.tlv_version))
  when (is_down state) (nbr_reset nbr)
