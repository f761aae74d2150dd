-- ===== src/Packetizer.antt =====
-- The packetizer's work queue: the enqueueing half of eigrpd/eigrp_packetizer.c, and the senders of
-- eigrpd/eigrp_reply.c, eigrpd/eigrp_query.c, eigrpd/eigrp_siaquery.c, eigrpd/eigrp_siareply.c and
-- eigrpd/eigrp_update.c that fill it.
use eigrpd.Base.{
  ℕ, ◌+◌, Bool, true, false, not, ◌||◌, Option, none, some, List, [], ◌∷◌, ◌++◌, ◌==◌,
  if◌then◌else◌,
}
use eigrpd.LinkList.{LinkList}
use eigrpd.State.{
  Prefix, Work, M, pure, get, modify, when, ◌>>=◌, ◌>>◌, free_route, load_prefix, store_prefix,
  free_prefix, load_nbr, up,
}

-- The packet types of eigrp_const.h.
abbrev pub opc_update : ℕ
opc_update = 1

abbrev pub opc_request : ℕ
opc_request = 2

abbrev pub opc_query : ℕ
opc_query = 3

abbrev pub opc_reply : ℕ
opc_reply = 4

abbrev pub opc_siaquery : ℕ
opc_siaquery = 10

abbrev pub opc_siareply : ℕ
opc_siareply = 11

-- eigrp_packetizer_opcode_valid
unfoldable pub opcode_valid : ℕ → Bool
opcode_valid opcode =
    opcode == opc_update
    || (opcode == opc_query
        || (opcode == opc_reply || (opcode == opc_siaquery || opcode == opc_siareply)))

unfoldable pub free_routes : List ℕ → M (Unit {0})
free_routes [] = pure tt
free_routes (e ∷ es) = do free_route e; free_routes es

-- eigrp_topology_prefix_free
unfoldable pub topology_prefix_free : ℕ → M (Unit {0})
topology_prefix_free p = do d ← load_prefix p; free_routes d.entries; free_prefix p

-- What the work owns of its route and prefix is freed.
abbrev pub when_owned : Bool → Option ℕ → (ℕ → M (Unit {0})) → M (Unit {0})
when_owned false p release = pure tt
when_owned true none release = pure tt
when_owned true (some p) release = release p

-- eigrp_packetizer_work_free
unfoldable pub work_free : Work → M (Unit {0})
work_free work = do
  when_owned work.own_route work.route free_route
  when_owned work.own_prefix work.prefix topology_prefix_free

-- eigrp_packetizer_enqueue: the host's work queue takes the work at its end.
unfoldable pub enqueue : Work → M (Unit {0})
enqueue work =
    if opcode_valid work.opcode
    then modify (λ w. record w { queue = w.queue ++ work ∷ [] })
    else work_free work

-- eigrp_packetizer_work_new
abbrev pub work_new : ℕ → Work
work_new opcode = record {
  opcode = opcode;
  nbr = none;
  prefix = none;
  route = none;
  exception = none;
  own_route = false;
  own_prefix = false;
}

-- eigrp_reply_send_route: nothing is sent without a neighbor.
unfoldable pub reply_send_route : Option ℕ → ℕ → Option ℕ → Bool → Bool → M (Unit {0})
reply_send_route none prefix route own_route own_prefix = pure tt
reply_send_route (some nbr) prefix route own_route own_prefix = enqueue (record {
  opcode = opc_reply;
  nbr = some nbr;
  prefix = some prefix;
  route = route;
  exception = none;
  own_route = own_route;
  own_prefix = own_prefix;
})

-- eigrp_reply_send
unfoldable pub reply_send : Option ℕ → ℕ → M (Unit {0})
reply_send nbr prefix = reply_send_route nbr prefix none false false

-- eigrp_siareply_send
unfoldable pub siareply_send : ℕ → ℕ → M (Unit {0})
siareply_send nbr prefix =
    enqueue (record (work_new opc_siareply) { nbr = some nbr; prefix = some prefix })

-- eigrp_siaquery_send
unfoldable pub siaquery_send : ℕ → ℕ → M (Unit {0})
siaquery_send nbr prefix =
    enqueue (record (work_new opc_siaquery) { nbr = some nbr; prefix = some prefix })

-- eigrp_update_send_all of eigrpd/eigrp_update.c: on every interface but one.
unfoldable pub update_send_all : Option ℕ → M (Unit {0})
update_send_all exception = enqueue (record (work_new opc_update) { exception = exception })

module _ ⦃ll : LinkList⦄ where
  -- The body of the loop of eigrp_query_send_all, for a destination that wants a query.
  unfoldable pub query_send : ℕ → Prefix → M (Unit {0})
  query_send p d = do
    enqueue (record (work_new opc_query) { prefix = some p })
    store_prefix p (record d { need_query = false })
    when (not d.need_update)
        do modify (λ w. record w { topology_changes = ll.delete w.topology_changes p })

  -- The loop, over what is left of the list; each round saves the next node before it starts.
  unfoldable pub query_send_from : List ℕ → ℕ → M ℕ
  query_send_from [] counter = pure counter
  query_send_from (p ∷ ps) counter = do
    d ← load_prefix p
    when d.need_query (query_send p d)
    query_send_from ps (if d.need_query then counter + 1 else counter)

  -- eigrp_query_send_all
  unfoldable pub query_send_all : M ℕ
  query_send_all = do w ← get; query_send_from w.topology_changes 0

-- eigrp_packetizer_query_encoder_neighbor: the first neighbor that is up.
unfoldable pub query_encoder_neighbor : List ℕ → M (Option ℕ)
query_encoder_neighbor [] = pure none
query_encoder_neighbor (n ∷ ns) = do
  nbr ← load_nbr n
  elim nbr.state [ up ↦ pure (some n) | _ ↦ query_encoder_neighbor ns ]
