-- ===== src/Update/Send/Twice.antt =====
-- eigrp_update_send_to_all_nbrs of eigrpd/eigrp_update.c, with more than one neighbor that is up.
use eigrpd.Base.{
  ℕ, suc, ◌≤◌, ◌≡◌, refl, ◌∙◌, ap, fun_ext, Bool, Bool-cases, true, false, Option, Option-cases,
  none, some, List, [], ◌∷◌, ◌==◌, if◌then◌else◌, inl, inr, arith,
}
use eigrpd.State.{
  Neighbor, Interface, World, M, pure, fault, get, modify, expect, when, ◌>>=◌, write, load_nbr,
  load_intf, update_nbr, update_intf, Ends, ends, faults, Ends-bind, Ends-never, Keeps, Keeps-pure,
  Keeps-bind, Keeps-modify, Keeps-expect, Keeps-get, Keeps-when, keeps_rules,
}
use eigrpd.Neighbor.{is_up}
use eigrpd.Retransmit.{Link}
use eigrpd.Session.{
  store_link, with_link, nbr_send_reliably, update_packet, enqueue_reliable, send_if_only,
  place_reliable,
}
use eigrpd.Update.Send.{duplicate, send_to, send_from, send_to_all_nbrs}

abbrev up_in : Option Neighbor → Bool
up_in none = false
up_in (some n) = is_up n.state

-- Which neighbors are up.
abbrev ups_of : World → ℕ → Bool
ups_of w q = up_in (w.nbrs q)

-- How many neighbors of a list are up.
unfoldable pub count_of : (ℕ → Bool) → List ℕ → ℕ
count_of up? [] = 0
count_of up? (n ∷ ns) = let rest = count_of up? ns in if up? n then suc rest else rest

abbrev pub ups : World → List ℕ → ℕ
ups w l = count_of (ups_of w) l

written :
    (w : World) (p : ℕ) (n m : Neighbor)
    → w.nbrs p ≡ some n
    → m.state ≡ n.state
    → (q : ℕ) → up_in (write w.nbrs p (some m) q) ≡ up_in (w.nbrs q)
written w p n m e same q = elim (Bool-cases (q == p)) [
  | inl here ↦ (let eq : q ≡ p = ground (arith, here) in rw (here, eq, e, same) refl)
  | inr elsewhere ↦ rw elsewhere refl
]

-- A change that keeps the state keeps who is up.
update_nbr-ups :
    (p : ℕ) (f : Neighbor → Neighbor)
    → ((n : Neighbor) → (f n).state ≡ n.state)
    → Keeps ups_of (update_nbr p f)
unfolding update_nbr load_nbr ◌>>=◌ get expect modify
update_nbr-ups p f same = record {
  at = λ w. elim (Option-cases (w.nbrs p)) [
    | inl e ↦ rw e faults
    | inr (n, e) ↦
        (let changed : Ends (λ _ v. ups_of v ≡ ups_of w)
              (some (tt, record w { nbrs = write w.nbrs p (some (f n)) })) =
            ends (fun_ext (written w p n (f n) e (same n))) in
          rw e changed)
  ];
}

load_nbr-ups : (p : ℕ) → Keeps ups_of (load_nbr p)
unfolding load_nbr
load_nbr-ups p = search keeps_rules

load_intf-ups : (p : ℕ) → Keeps ups_of (load_intf p)
unfolding load_intf
load_intf-ups p = search keeps_rules

with_link-ups : (nbr : ℕ) (f : Link → Option Link) → Keeps ups_of (with_link nbr f)
unfolding with_link store_link update_intf
with_link-ups nbr f = Keeps-bind _ _ (load_nbr-ups nbr) λ n.
    Keeps-bind _ _ (Keeps-expect n.ei) λ ei. Keeps-bind _ _ (load_intf-ups ei) λ i.
      Keeps-bind _ _ Keeps-get λ w. Keeps-bind _ _ (Keeps-expect _) λ l.
        Keeps-bind _ _ (Keeps-modify _ λ w. refl) λ _.
          Keeps-bind _ _ (update_nbr-ups nbr _ λ n. refl)
            λ _. Keeps-bind _ _ (load_intf-ups ei) λ j. Keeps-modify _ λ w. refl

nbr_send_reliably-ups : (nbr : ℕ) → Keeps ups_of (nbr_send_reliably nbr)
unfolding nbr_send_reliably
nbr_send_reliably-ups nbr =
    Keeps-bind _ _ Keeps-get λ w. Keeps-bind _ _ (Keeps-modify _ λ w. refl) λ _. with_link-ups nbr _

place_reliable-ups : (nbr p : ℕ) → Keeps ups_of (place_reliable nbr p)
unfolding enqueue_reliable send_if_only
place_reliable-ups nbr p =
    Keeps-bind _ _ (with_link-ups nbr _)
      λ _. Keeps-bind _ _ (load_nbr-ups nbr) λ n. Keeps-when _ _ (nbr_send_reliably-ups nbr)

-- The first neighbor's packet.
send_to-ups : (p nbr : ℕ) → Keeps ups_of (send_to p false nbr)
unfolding send_to update_packet
send_to-ups p nbr = Keeps-bind _ _ (Keeps-pure p) λ q.
    Keeps-bind _ _
      (Keeps-bind _ _ Keeps-get λ w. Keeps-bind _ _ (Keeps-expect _) λ c. Keeps-modify _ λ w. refl)
      λ _. place_reliable-ups nbr q

-- The second one's.
send_to-faults :
    (p nbr : ℕ) (k : Unit {0} → M (Unit {0})) (w : World)
    → Ends (λ _ _. ⊥) ((send_to p true nbr >>= k) w)
unfolding send_to duplicate fault ◌>>=◌
send_to-faults p nbr k w = faults

count_of-skip :
    (up? : ℕ → Bool) (n : ℕ) (ns : List ℕ) → up? n ≡ false → count_of up? (n ∷ ns) ≡ count_of up? ns
unfolding count_of
count_of-skip up? n ns e = rw e refl

count_of-one :
    (up? : ℕ → Bool) (n : ℕ) (ns : List ℕ)
    → up? n ≡ true
    → count_of up? (n ∷ ns) ≡ suc (count_of up? ns)
unfolding count_of
count_of-one up? n ns e = rw e refl

-- A neighbor that is loaded is in the heap.
loaded :
    {B : Type 0} {Q : B → World → Type 0} (n : ℕ) (k : Neighbor → M B) (w : World)
    → ((nbr : Neighbor) → ups_of w n ≡ is_up nbr.state → Ends Q (k nbr w))
    → Ends Q ((load_nbr n >>= k) w)
unfolding load_nbr ◌>>=◌ get expect
loaded n k w next = elim (Option-cases (w.nbrs n)) [
  | inl e ↦ rw e faults
  | inr (nbr, e) ↦ rw e (next nbr (rw e refl))
]

nothing : (w : World) → Ends (λ _ v. v ≡ w) (pure tt w)
unfolding pure
nothing w = ends refl

-- Once the packet is sent, another neighbor that is up ends the run.
rest_faults :
    (p : ℕ) (l : List ℕ) (w : World) → 1 ≤ ups w l → Ends (λ _ _. ⊥) (send_from p true l w)
unfolding send_from count_of when
rest_faults p [] w some_up = absurd (omega (arith, some_up))
rest_faults p (n ∷ ns) w some_up = loaded n _ w λ nbr e. elim (Bool-cases (is_up nbr.state)) [
  | inl t ↦ rw t (send_to-faults p n _ w)
  | inr t ↦ rw t (
      let fewer : ups w (n ∷ ns) ≡ ups w ns = count_of-skip (ups_of w) n ns (e ∙ t) in
      Ends-bind (λ _ v. v ≡ w) (pure tt) (λ _. send_from p true ns) w (nothing w)
        λ _ v same. rw same (rest_faults p ns w (omega (arith, fewer, some_up))))
]

-- Before the packet is sent, two of them do.
both_fault :
    (p : ℕ) (l : List ℕ) (w : World) → 2 ≤ ups w l → Ends (λ _ _. ⊥) (send_from p false l w)
unfolding send_from count_of when
both_fault p [] w two_up = absurd (omega (arith, two_up))
both_fault p (n ∷ ns) w two_up = loaded n _ w λ nbr e. elim (Bool-cases (is_up nbr.state)) [
  | inl t ↦ rw t (
      let one : ups w (n ∷ ns) ≡ suc (ups w ns) = count_of-one (ups_of w) n ns (e ∙ t) in
      Ends-bind (λ _ v. ups_of v ≡ ups_of w) _ _ w ((send_to-ups p n).at w)
        λ _ v same.
          rest_faults p ns v (rw (ap (λ up?. count_of up? ns) same) (omega (arith, one, two_up))))
  | inr t ↦ rw t (
      let fewer : ups w (n ∷ ns) ≡ ups w ns = count_of-skip (ups_of w) n ns (e ∙ t) in
      Ends-bind (λ _ v. v ≡ w) (pure tt) (λ _. send_from p false ns) w (nothing w)
        λ _ v same. rw same (both_fault p ns w (omega (arith, fewer, two_up))))
]

-- Sending a packet to all neighbors of an interface is a fault where two or more of them are up,
-- whatever the packet is and whatever waits in their queues: the copy for the second one is made for
-- no neighbor, and eigrp_packet_duplicate reads that neighbor's interface.
pub send_to_all_nbrs_faults :
    (ei p : ℕ) (i : Interface) (w : World)
    → w.intfs ei ≡ some i
    → 2 ≤ ups w i.nbrs
    → send_to_all_nbrs ei p w ≡ none
unfolding send_to_all_nbrs load_intf ◌>>=◌ get expect
send_to_all_nbrs_faults ei p i w e two_up = rw e (Ends-never (both_fault p i.nbrs w two_up))
