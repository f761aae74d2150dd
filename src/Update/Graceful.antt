-- ===== src/Update/Graceful.antt =====
-- A neighbor's graceful restart: the helpers of eigrp_update_receive in eigrpd/eigrp_update.c, over
-- lists that are allocated and freed.
use eigrpd.Base.{ℕ, suc, Option, none, some, List, [], ◌∷◌, ◌==◌}
use eigrpd.Metric.{max_metric}
use eigrpd.LinkList.{LinkList}
use eigrpd.State.{Dest, M, pure, fault, get, modify, expect, when, ◌>>=◌, ◌>>◌, write, load_prefix}
use eigrpd.Packetizer.{opc_update}
use eigrpd.Topology.{msg_int, prefix_descriptor_lookup}
use eigrpd.Topology.Walk.{neighbor_prefixes_from}
use eigrpd.Fsm.{fsm_event}

-- `list_new` with its elements, a list that is read, and `list_delete`.
unfoldable pub list_new : List ℕ → M ℕ
list_new l w = some (
  w.next_list,
  record w { next_list = suc w.next_list; lists = write w.lists w.next_list (some l) },
)

unfoldable pub load_list : ℕ → M (List ℕ)
load_list p = do w ← get; expect (w.lists p)

unfoldable pub store_list : ℕ → List ℕ → M (Unit {0})
store_list p l = modify (λ w. record w { lists = write w.lists p (some l) })

unfoldable pub list_delete : Option ℕ → M (Unit {0})
list_delete none = pure tt
list_delete (some p) = do _ ← load_list p; modify (λ w. record w { lists = write w.lists p none })

module _ ⦃ll : LinkList⦄ where
  -- remove_received_prefix_gr, over what was in the list.
  unfoldable pub remove_from : ℕ → ℕ → List ℕ → M (Unit {0})
  remove_from list received [] = pure tt
  remove_from list received (p ∷ ps) = do
    l ← load_list list
    when (p == received) (store_list list (ll.delete l received))
    remove_from list received ps

  unfoldable pub remove_received_prefix_gr : ℕ → ℕ → M (Unit {0})
  remove_received_prefix_gr list received = do l ← load_list list; remove_from list received l

  -- eigrp_update_receive_GR_ask
  unfoldable pub gr_ask_from : ℕ → List ℕ → M (Unit {0})
  gr_ask_from nbr [] = pure tt
  gr_ask_from nbr (p ∷ ps) = do
    d ← load_prefix p
    route ← prefix_descriptor_lookup d.entries nbr
    fsm_event (record {
      packet_type = opc_update;
      adv_router = some nbr;
      route = route;
      prefix = p;
      data_type = msg_int;
      metrics = record d.reported_metric { delay = max_metric };
    })
    gr_ask_from nbr ps

  unfoldable pub gr_ask : ℕ → Option ℕ → M (Unit {0})
  gr_ask nbr none = fault
  gr_ask nbr (some list) = do l ← load_list list; gr_ask_from nbr l

  -- eigrp_neighbor_prefixes_lookup, with the list that it makes; `nodes` is the table's.
  unfoldable pub neighbor_prefixes_lookup : ℕ → List Dest → M ℕ
  neighbor_prefixes_lookup nbr nodes = do l ← neighbor_prefixes_from nbr nodes []; list_new l
