-- ===== src/Lifetime.antt =====
-- A neighbor from its creation to its deletion: eigrp_nbr_create, eigrp_nbr_delete and the hold timer
-- of eigrpd/eigrp_neighbor.c.
pub mod Frame
pub mod Departure
use eigrpd.Base.{ℕ, Bool, true, false, Option, none, some, List, ◌==◌, if◌then◌else◌}
use eigrpd.Metric.{Metrics}
use eigrpd.LinkList.{LinkList}
use eigrpd.State.{
  part_na, safe_encoder, classic, wide, when, queue_new, default_weights, hold_interval_default,
  Dest, NbrState, down, pending, up, Neighbor, M, pure, modify, expect, ◌>>=◌, ◌>>◌, write,
  load_nbr, update_nbr, update_intf,
}
use eigrpd.Peers.{classic_version, wide_version}
use eigrpd.Session.{free_queue, nbr_state_set}
use eigrpd.Update.Down.{topology_neighbor_down}

-- XCALLOC and eigrp_nbr_init. A queue that is NULL is empty.
abbrev pub nbr_init : Option ℕ → ℕ → Neighbor
nbr_init ei src = record {
  state = down;
  ei = ei;
  recv_sequence_number = 0;
  src = src;
  tlv_version = 0;
  init_sequence_number = 0;
  nbr_gr_prefixes = none;
  nbr_gr_prefixes_send = none;
  nbr_gr_packet_type = part_na;
  t_nbr_send_gr = false;
  retrans_queue = queue_new;
  multicast_queue = queue_new;
  codec = safe_encoder;
  weights = default_weights;
  v_holddown = hold_interval_default;
  t_holddown = false;
  retrans_counter = 0;
  crypt_seqnum = 0;
}

-- eigrp_nbr_state_update
abbrev holds : NbrState → Bool
holds down = false
holds pending = true
holds up = true

unfoldable pub nbr_state_update : ℕ → M (Unit {0})
nbr_state_update nbr =
    update_nbr nbr (λ n. record n { t_holddown = if holds n.state then true else n.t_holddown })

-- eigrp_sw_version_decode of eigrpd/eigrp_hello.c, with the binding of the codec.
unfoldable pub sw_version_decode : ℕ → ℕ → M (Unit {0})
sw_version_decode nbr eigrp_major = update_nbr nbr (λ n.
    if eigrp_major == wide_version
    then record n { tlv_version = wide_version; codec = wide }
    else record n { tlv_version = classic_version; codec = classic })

module _ ⦃ll : LinkList⦄ where
  -- A change of the list of an interface, if there is one.
  unfoldable pub on_intf : Option ℕ → (List ℕ → List ℕ) → M (Unit {0})
  on_intf none f = pure tt
  on_intf (some ei) f = update_intf ei (λ i. record i { nbrs = f i.nbrs })

  -- eigrp_nbr_create; `fresh` is the address that the host's allocator gives.
  unfoldable pub nbr_create : ℕ → Option ℕ → ℕ → M (Unit {0})
  nbr_create fresh ei src = do
    modify (λ w. record w { nbrs = write w.nbrs fresh (some (nbr_init ei src)) })
    nbr_state_set fresh down
    on_intf ei (λ l. ll.add l fresh)

  module _ (stack : Metrics) (nodes : List Dest) where
    unfoldable pub topology_down : Option ℕ → ℕ → M (Unit {0})
    topology_down none nbr = pure tt
    topology_down (some ei) nbr = topology_neighbor_down stack nodes nbr

    -- eigrp_nbr_delete, with the neighbor's events.
    unfoldable pub nbr_delete : ℕ → M (Unit {0})
    nbr_delete nbr = do
      nbr_state_set nbr down
      n ← load_nbr nbr
      topology_down n.ei nbr
      m ← load_nbr nbr
      free_queue m.multicast_queue
      free_queue m.retrans_queue
      on_intf m.ei (λ l. ll.delete l nbr)
      modify (λ w. record w { nbrs = write w.nbrs nbr none })

    -- holddown_timer_expired
    unfoldable pub holddown_timer_expired : ℕ → M (Unit {0})
    holddown_timer_expired nbr = do
      n ← load_nbr nbr
      _ ← expect n.ei
      nbr_state_set nbr down
      nbr_delete nbr

    -- eigrp_peer_termination_decode of eigrpd/eigrp_hello.c, with the interface's address and the
    -- one in the TLV.
    unfoldable pub peer_termination_decode : ℕ → ℕ → ℕ → M (Unit {0})
    peer_termination_decode nbr my_ip received_ip =
        when (my_ip == received_ip) do nbr_state_set nbr down; nbr_delete nbr
