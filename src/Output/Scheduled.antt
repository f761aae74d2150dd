-- ===== src/Output/Scheduled.antt =====
-- The interfaces that wait to be written, by eigrp_packet_output_enqueue and eigrp_packet_write of
-- eigrpd/eigrp_packet.c.
use mathlib.Core.Path.{subst}
use eigrpd.Base.{
  ℕ, ◌≡◌, refl, sym, ◌∙◌, ap, true, false, Option, Option-cases, none, some, List, [], ◌∷◌, inl,
  inr,
}
use eigrpd.State.{
  Interface, World, M, pure, fault, get, modify, expect, ◌>>=◌, ◌>>◌, write, load_nbr, load_intf,
  update_intf, Ends, ends, faults, Ends-mono, Ends-bind, Ends-get, Ends-expect, Keeps, Keeps-pure,
  Keeps-bind, Keeps-modify, Keeps-expect, Keeps-get, Keeps-when, keeps_rules,
}
use eigrpd.Queue.{packet_enqueue, packet_dequeue}
use eigrpd.Session.{Wire, update_packet}
use eigrpd.Update.Send.{free_packet}
use eigrpd.Output.Listed.{Listed, Listed-on, Listed-off, joined}
use eigrpd.Output.{
  output_enqueue, free_dequeued, packet_delete, waits, refresh_ack, transmit, write_next,
  write_obuf, write_done, write_from, packet_write,
}

-- The interfaces and their list.
abbrev out_of : World → (ℕ → Option Interface) × List ℕ
out_of w = (w.intfs, w.oi_write_q)

abbrev Ready : World → Type 0
Ready w = Listed w.intfs w.oi_write_q

Ready-along : (w v : World) → out_of v ≡ out_of w → Ready w → Ready v
Ready-along w v e l = subst (λ (x : (ℕ → Option Interface) × List ℕ). Listed x.0 x.1) (sym e) l

-- The parts that touch neither.
update_packet-out : (p : ℕ) (f : _) → Keeps out_of (update_packet p f)
unfolding update_packet
update_packet-out p f = search (keeps_rules, plain)
  where
    plain : (g : World → World) → ((w : World) → out_of (g w) ≡ out_of w) → Keeps out_of (modify g)
    plain g h = Keeps-modify g h

refresh_ack-out : (wire : Wire) (p : ℕ) (nbr : Option ℕ) → Keeps out_of (refresh_ack wire p nbr)
unfolding refresh_ack load_nbr
refresh_ack-out wire p none = Keeps-pure tt
refresh_ack-out wire p (some nbr) = Keeps-bind _ _ (search keeps_rules) λ n. update_packet-out p _

transmit-out : (wire : Wire) (ei p : ℕ) → Keeps out_of (transmit wire ei p)
unfolding transmit
transmit-out wire ei p =
    Keeps-bind _ _ Keeps-get λ w. Keeps-bind _ _ (Keeps-expect _) λ c. Keeps-modify _ λ w. refl

free_dequeued-out : (o : Option ℕ) → Keeps out_of (free_dequeued o)
unfolding free_dequeued free_packet
free_dequeued-out none = Keeps-pure tt
free_dequeued-out (some p) =
    Keeps-bind _ _ Keeps-get λ w. Keeps-bind _ _ (Keeps-expect _) λ c. Keeps-modify _ λ w. refl

-- The list, with the interface at its head.
abbrev Led : ℕ → List ℕ → World → Type 0
Led ei eis w = Ready w × (w.oi_write_q ≡ ei ∷ eis)

Led-along :
    (ei : ℕ) (eis : List ℕ) (w v : World) → out_of v ≡ out_of w → Led ei eis w → Led ei eis v
Led-along ei eis w v e (l, led) =
    (Ready-along w v e l, ap (λ (x : (ℕ → Option Interface) × List ℕ). x.1) e ∙ led)

module _ (ei : ℕ) where
  intf_loaded :
      {B : Type 0} {Q : B → World → Type 0} (k : Interface → M B) (w : World)
      → ((i : Interface) → w.intfs ei ≡ some i → Ends Q (k i w))
      → Ends Q ((load_intf ei >>= k) w)
  unfolding load_intf ◌>>=◌ get expect
  intf_loaded k w next = elim (Option-cases (w.intfs ei)) [
    | inl e ↦ rw e faults
    | inr (i, e) ↦ rw e (next i e)
  ]

  module _ (eis : List ℕ) where
    -- An interface that waits changes its queue.
    requeued :
        (w : World) (i j : Interface)
        → w.intfs ei ≡ some i
        → i.on_write_q ≡ true
        → j.on_write_q ≡ true
        → Led ei eis w
        → Led ei eis (record w { intfs = write w.intfs ei (some j) })
    requeued w i j at was on (l, led) = (
      Listed-on w.intfs ei j w.oi_write_q w.oi_write_q l on (λ e m. m) (l.listed ei i at was),
      led,
    )

    packet_delete-Led :
        (w : World) (i : Interface)
        → w.intfs ei ≡ some i
        → i.on_write_q ≡ true
        → Led ei eis w
        → Ends (λ _ v. Led ei eis v) (packet_delete ei w)
    unfolding packet_delete update_intf load_intf ◌>>=◌ get expect modify
    packet_delete-Led w i at on led = elim (Option-cases (packet_dequeue i.obuf w.packets)) [
      | inl e ↦ rw (at, e) faults
      | inr (r, e) ↦
          rw (at, e, at)
            (let u = record w {
              packets = r.1.1;
              intfs = write w.intfs ei (some (record i { obuf = r.1.0 }));
            } in
              Ends-mono ((free_dequeued-out r.0).at u) λ _ v same. Led-along ei eis u v same (
                requeued (record w { packets = r.1.1 }) i (record i { obuf = r.1.0 }) at on on led))
    ]

    -- The part before the packet is deleted.
    before_delete :
        {m : M (Unit {0})} (w : World) (i : Interface)
        → Keeps out_of m
        → w.intfs ei ≡ some i
        → i.on_write_q ≡ true
        → Led ei eis w
        → Ends (λ _ v. Led ei eis v) ((m >> packet_delete ei) w)
    before_delete {m} w i k at on led =
        Ends-bind (λ _ v. out_of v ≡ out_of w) m (λ _. packet_delete ei) w (k.at w)
          λ _ v same.
            packet_delete-Led v i (ap (λ (x : (ℕ → Option Interface) × List ℕ). x.0 ei) same ∙ at)
              on (Led-along ei eis w v same led)

    write_next-Led :
        (wire : Wire) (w : World) (i : Interface) (p : ℕ)
        → w.intfs ei ≡ some i
        → i.on_write_q ≡ true
        → Led ei eis w
        → Ends (λ _ v. Led ei eis v) (write_next wire ei p w)
    unfolding write_next
    write_next-Led wire w i p at on led =
        Ends-get _ w
          (Ends-expect _ _ w λ c _. before_delete w i (Keeps-when _ _ (sends c.nbr)) at on led)
      where
        sends : (nbr : Option ℕ) → Keeps out_of (refresh_ack wire p nbr >> transmit wire ei p)
        sends nbr = Keeps-bind _ _ (refresh_ack-out wire p nbr) λ _. transmit-out wire ei p

    write_obuf-Led :
        (wire : Wire) (w : World) (i : Interface)
        → w.intfs ei ≡ some i
        → Led ei eis w
        → (o : Option ℕ) → i.obuf.tail ≡ o
        → Ends (λ _ v. Led ei eis v) (write_obuf wire ei o w)
    unfolding write_obuf pure
    write_obuf-Led wire w i at led none e = ends led
    write_obuf-Led wire w i at led (some p) e =
        write_next-Led wire w i p at (led.0.marked ei i at p e) led

    write_done-Ready :
        (wire : Wire) (w : World) (i : Interface)
        → w.intfs ei ≡ some i
        → Led ei eis w
        → (o : Option ℕ) → i.obuf.tail ≡ o
        → Ends (λ _ v. Ready v) (write_done wire ei eis o w)
    unfolding write_done update_intf load_intf ◌>>=◌ get expect modify pure
    write_done-Ready wire w i at led (some p) e = ends led.0
    write_done-Ready wire w i at led none e = rw at (
        ends (
          Listed-off w.intfs ei (record i { on_write_q = false }) eis
            (subst (Listed w.intfs) led.1 led.0) refl e))

-- Every interface with a packet waits in the list, and an interface that waits has the event set.
pub record Scheduled (w : World) : Type 0 where
  pub ready : Ready w
  pub pending : waits w.oi_write_q ≡ true → w.t_write ≡ true

write_from-Scheduled :
    (wire : Wire) (l : List ℕ) (w : World)
    → Ready w
    → w.oi_write_q ≡ l
    → Ends (λ _ v. Scheduled v) (write_from wire l w)
unfolding write_from fault modify
write_from-Scheduled wire [] w r e = faults
write_from-Scheduled wire (ei ∷ eis) w r e = intf_loaded ei _ w λ i at.
    Ends-bind _ _ _ w (write_obuf-Led ei eis wire w i at (r, e) i.obuf.tail refl) λ _ v led.
      intf_loaded ei _ v λ j there.
        Ends-bind _ _ _ v (write_done-Ready ei eis wire v j there led j.obuf.tail refl)
          λ _ u ready. ends (record { ready = ready; pending = λ on. on })

pub packet_write-Scheduled :
    (wire : Wire) (w : World) → Scheduled w → Ends (λ _ v. Scheduled v) (packet_write wire w)
unfolding packet_write ◌>>=◌ get modify
packet_write-Scheduled wire w s =
    write_from-Scheduled wire w.oi_write_q (record w { t_write = false }) s.ready refl

pub output_enqueue-Scheduled :
    (ei p : ℕ) (w : World) → Scheduled w → Ends (λ _ v. Scheduled v) (output_enqueue ei p w)
unfolding output_enqueue load_intf update_intf ◌>>=◌ get expect modify
output_enqueue-Scheduled ei p w s = elim (Option-cases (w.intfs ei)) [
  | inl e ↦ rw e faults
  | inr (i, at) ↦ elim (Option-cases (packet_enqueue i.obuf p w.packets)) [
    | inl e ↦ rw (at, e) faults
    | inr (r, e) ↦
        rw (at, e, at)
          (ends (record {
            ready =
                joined w.intfs ei i (record i { obuf = r.0; on_write_q = true }) w.oi_write_q
                  s.ready at refl i.on_write_q refl;
            pending = λ _. refl;
          }))
  ]
]
