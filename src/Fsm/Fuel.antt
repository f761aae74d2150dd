-- ===== src/Fsm/Fuel.antt =====
-- The fuel of a call through the table of eigrpd/eigrp_fsm.c.
use eigrpd.Base.{
  ℕ, suc, ◌≡◌, refl, ap, true, ◌==◌, arith, Option, none, some, if◌then◌else◌, fun_ext,
}
use eigrpd.LinkList.{LinkList}
use eigrpd.State.{
  Prefix, FsmState, passive, active_0, active_1, active_2, active_3, World, M, fault, ◌>>=◌, ◌>>◌,
  write, when, load_prefix, update_prefix, store_prefix,
}
use eigrpd.Topology.{Msg}
use eigrpd.Fsm.Event.{FsmEvent, lr_fcs, qact, lr_fcn, is_nil, get_fsm_event}
use eigrpd.Fsm.Action.{Action, do_dinc, nsm, is_active_1, act}

-- What is loaded after a change is the changed destination, so that only its code matters.
update-load :
    (p : ℕ) (f : Prefix → Prefix) (k l : Prefix → M (Unit {0})) (w : World)
    → ((d : Prefix) → k (f d) ≡ l (f d))
    → (update_prefix p f >> (load_prefix p >>= k)) w
      ≡ (update_prefix p f >> (load_prefix p >>= l)) w
unfolding ◌>>=◌ load_prefix store_prefix update_prefix
update-load p f k l w h = go (w.prefixes p) refl
  where
    there : (p == p) ≡ true
    there = ground arith

    go :
        (o : Option Prefix)
        → w.prefixes p ≡ o
        → (update_prefix p f >> (load_prefix p >>= k)) w
          ≡ (update_prefix p f >> (load_prefix p >>= l)) w
    go none e = rw e refl
    go (some d) e =
        rw (e, there) (ap (λ m. m (record w { prefixes = write w.prefixes p (some (f d)) })) (h d))

module _ ⦃ll : LinkList⦄ where
  -- The rows of the table for the states that eigrp_fsm_event_dinc sets do not hold it.
  act-nsm :
      (out : M (Unit {0})) (n : ℕ) (b : FsmState) (event : FsmEvent)
      → act out n (nsm (if is_active_1 b then active_0 else active_2) event)
        ≡ act fault 0 (nsm (if is_active_1 b then active_0 else active_2) event)
  unfolding act nsm
  act-nsm out n active_1 lr_fcs = refl
  act-nsm out n active_1 qact = refl
  act-nsm out n active_1 lr_fcn = refl
  act-nsm out n active_1 _ = refl
  act-nsm out n passive lr_fcs = refl
  act-nsm out n passive lr_fcn = refl
  act-nsm out n passive _ = refl
  act-nsm out n active_0 lr_fcs = refl
  act-nsm out n active_0 lr_fcn = refl
  act-nsm out n active_0 _ = refl
  act-nsm out n active_2 lr_fcs = refl
  act-nsm out n active_2 lr_fcn = refl
  act-nsm out n active_2 _ = refl
  act-nsm out n active_3 lr_fcs = refl
  act-nsm out n active_3 lr_fcn = refl
  act-nsm out n active_3 _ = refl

  -- The inner call of eigrp_fsm_event_dinc.
  abbrev inner : M (Unit {0}) → ℕ → Prefix → FsmEvent → Msg → M (Unit {0})
  inner out n d event = act out n (nsm (if is_active_1 d.state then active_0 else active_2) event)

  dinc_enough :
      (out : M (Unit {0})) (n : ℕ) (msg : Msg) (w : World)
      → act out (suc n) do_dinc msg w ≡ act fault 1 do_dinc msg w
  unfolding act
  dinc_enough out n msg w =
      update-load msg.prefix _ _ _ w
        λ d. ap (λ k. when (is_nil d.rij) (get_fsm_event msg >>= λ r. k r.0 r.1)) (same_calls d)
    where
      same_calls : (d : Prefix) → inner out n d ≡ inner fault 0 d
      same_calls d = fun_ext (act-nsm out n d.state)

  -- A call through the table makes at most one such call itself, whichever action is called on
  -- whichever world: what a deeper call would do (`out`, which may be anything) changes no result,
  -- of a fault or of an end.
  pub act_enough :
      (out : M (Unit {0})) (n : ℕ) (action : Action) (msg : Msg) (w : World)
      → act out (suc n) action msg w ≡ act fault 1 action msg w
  unfolding act
  act_enough out n do_dinc msg w = dinc_enough out n msg w
  act_enough out n _ msg w = refl
