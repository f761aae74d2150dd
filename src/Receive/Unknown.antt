-- ===== src/Receive/Unknown.antt =====
-- The answer to a query for a destination that the table does not hold.
use eigrpd.Base.{
  ℕ, suc, ◌≡◌, refl, sym, ◌∙◌, ap, true, none, some, [], ◌∷◌, ◌++◌, ◌==◌, arith, fun_ext, Option,
  inl, inr, Bool-cases, ==_iff,
}
use eigrpd.State.{
  Route, Prefix, Neighbor, World, Work, ◌>>=◌, ◌>>◌, write, load_route, free_route, load_prefix,
  free_prefix, store_prefix, store_route, load_nbr, update_route, update_prefix,
}
use eigrpd.Packetizer.{
  opc_reply, opcode_valid, enqueue, reply_send_route, work_free, topology_prefix_free, free_routes,
}
use eigrpd.Topology.{route_create}
use eigrpd.Receive.{new_prefix, prefix_create, query_unknown_reply_send}

-- The work that is queued.
abbrev pub unknown_reply : ℕ → World → Work
unknown_reply nbr w = record {
  opcode = opc_reply;
  nbr = some nbr;
  prefix = some w.next_prefix;
  route = some w.next_route;
  exception = none;
  own_route = true;
  own_prefix = true;
}

-- The world with a work at the end of the queue and two fresh pointers taken.
abbrev pub after : World → Work → World
after w work = record w {
  queue = w.queue ++ work ∷ [];
  next_route = suc w.next_route;
  next_prefix = suc w.next_prefix;
}

same_self : (p : ℕ) → (p == p) ≡ true
same_self p = ground arith

-- A cell that was free is as it was once it is freed again.
freed_again :
    {A : Type 0} (h : ℕ → Option A) (p : ℕ) (a b : Option A)
    → h p ≡ none
    → write (write (write h p a) p b) p none ≡ h
freed_again h p a b free = fun_ext λ q. elim (Bool-cases (q == p)) [
  | inl at ↦ rw at (sym (ap h ((==_iff q p).0 at) ∙ free))
  | inr off ↦ rw off refl
]

-- Freeing the work, when its route and its destination have been written twice.
work_freed :
    (nbr : ℕ) (w : World) (a b : Route) (c d : Prefix)
    → w.routes w.next_route ≡ none
    → w.prefixes w.next_prefix ≡ none
    → work_free (unknown_reply nbr w) (record w {
      queue = w.queue ++ unknown_reply nbr w ∷ [];
      routes = write (write w.routes w.next_route (some a)) w.next_route (some b);
      prefixes =
          write
            (write w.prefixes w.next_prefix (some c))
            w.next_prefix
            (some (record d { entries = [] }));
      next_route = suc w.next_route;
      next_prefix = suc w.next_prefix;
    })
      ≡ some (tt, after w (unknown_reply nbr w))
unfolding work_free topology_prefix_free free_routes free_route free_prefix load_route load_prefix
    ◌>>=◌
work_freed nbr w a b c d free_r free_p =
    rw (same_self w.next_route, same_self w.next_prefix, same_self w.next_prefix)
      (ap
          (λ h. some (
            tt,
            record (after w (unknown_reply nbr w)) {
              routes = h;
              prefixes =
                  write
                    (write (write w.prefixes w.next_prefix (some c)) w.next_prefix
                      (some (record d { entries = [] })))
                    w.next_prefix none;
            },
          ))
          (freed_again w.routes w.next_route (some a) (some b) free_r)
        ∙ ap (λ h. some (tt, record (after w (unknown_reply nbr w)) { prefixes = h }))
            (freed_again w.prefixes w.next_prefix (some c) (some (record d { entries = [] }))
              free_p))

-- The answer to an unknown destination returns where the route and the neighbor are live, and
-- queues one reply at the end; and freeing that work, which the packetizer does once it has sent
-- it, gives back the route and the destination that were allocated for it: the heaps are as before.
pub unknown_reply_owned :
    (nbr q : ℕ) (r : Route) (n : Neighbor) (w : World)
    → w.routes q ≡ some r
    → w.nbrs nbr ≡ some n
    → w.routes w.next_route ≡ none
    → w.prefixes w.next_prefix ≡ none
    → (query_unknown_reply_send nbr q >> work_free (unknown_reply nbr w)) w
      ≡ some (tt, after w (unknown_reply nbr w))
unfolding query_unknown_reply_send reply_send_route enqueue opcode_valid route_create prefix_create
    load_route load_prefix load_nbr update_route update_prefix store_route store_prefix work_free
    topology_prefix_free free_routes free_route free_prefix ◌>>=◌
unknown_reply_owned nbr q r n w here there fresh_route fresh_prefix =
    rw (here, same_self w.next_prefix, there, same_self w.next_route)
      (work_freed nbr w _ _ _ (record new_prefix { destination = r.dest }) fresh_route fresh_prefix)
