-- ===== src/Hello/Adjacency.antt =====
-- The weights of the adjacencies that come about by hellos, acknowledgements, losses and restarts of
-- the peer, while the operator changes the instance's weights (k_values of
-- eigrpd/eigrp_northbound.c).
use eigrpd.Base.{
  ℕ, ◌≡◌, refl, sym, ap, ◌∙◌, inl, inr, Bool, true, false, ◌||◌, List, [], ◌∷◌, arith, Bool-cases,
}
use eigrpd.State.{down, pending, up, Weights, default_weights}
use eigrpd.Hello.{
  Session, is_down, k_same, terminates, Kept, deleted, kept, session_state_set, parameter_decode,
}

-- Whether a list of weights has some whose first five are these.
abbrev pub in_force : List Weights → Weights → Bool
in_force [] n = false
in_force (k ∷ ks) n = k_same k n || in_force ks n

-- A neighbor that is not down has weights that the instance has or had, or the default ones.
abbrev pub Agrees : List Weights → Session → Type 0
Agrees ks n =
    (is_down n.state || (k_same default_weights n.weights || in_force ks n.weights)) ≡ true

-- The branch of eigrp_update_receive for a peer that is up and starts anew, on the neighbor itself.
abbrev pub session_restarted : ℕ → Session → Session
session_restarted sequence n =
    session_state_set pending
      (record (session_state_set down n) { recv_sequence_number = sequence })

-- The neighbors that come about from a new one, with the instance's weights, the present ones first:
-- by parameter TLVs, by the acknowledgement of the first update, by a loss (the hold time, a goodbye,
-- or the operator), by a restart of the peer, and by what changes neither state nor weights.
pub data Comes : List Weights → Session → Type 0 where
  created : (k : Weights) (n : Session) → n.state ≡ down → Comes (k ∷ []) n
  configured : (k : Weights) (ks : List Weights) (n : Session) → Comes ks n → Comes (k ∷ ks) n
  hello :
      (k : Weights) (ks : List Weights) (n m : Session) (param : Weights) (hold_time : ℕ)
      → Comes (k ∷ ks) n
      → parameter_decode k param hold_time n ≡ kept m
      → Comes (k ∷ ks) m
  full :
      (ks : List Weights) (n : Session)
      → Comes ks n
      → n.state ≡ pending
      → Comes ks (session_state_set up n)
  lost : (ks : List Weights) (n : Session) → Comes ks n → Comes ks (session_state_set down n)
  restarted :
      (ks : List Weights) (n : Session) (sequence : ℕ)
      → Comes ks n
      → n.state ≡ up
      → Comes ks (session_restarted sequence n)
  other :
      (ks : List Weights) (n m : Session)
      → Comes ks n
      → m.state ≡ n.state
      → m.weights ≡ n.weights
      → Comes ks m

abbrev agrees_kept : Weights → Kept → Bool
agrees_kept k deleted = true
agrees_kept k (kept m) = is_down m.state || k_same k m.weights

parameter_decode-Agrees :
    (k param : Weights) (hold_time : ℕ) (n : Session)
    → agrees_kept k (parameter_decode k param hold_time n) ≡ true
unfolding parameter_decode session_state_set
parameter_decode-Agrees k param hold_time n = elim (Bool-cases (k_same k param)) [
  | inl same ↦ elim (Bool-cases (is_down n.state)) [
    | inl was ↦ rw (same, was) same
    | inr was ↦ rw (same, was) (rw was same)
  ]
  | inr mixed ↦ elim (Bool-cases (is_down n.state)) [
    | inl was ↦ rw (mixed, was) (rw was refl)
    | inr was ↦ elim (Bool-cases (terminates param)) [
      | inl bye ↦ rw (mixed, was, bye) refl
      | inr more ↦ rw (mixed, was, more) refl
    ]
  ]
]

-- Weights that agree with one set of the list.
one_more : (d a b c : Bool) → (d || (a || c)) ≡ true → (d || (a || (b || c))) ≡ true
one_more true a b c h = refl
one_more false true b c h = refl
one_more false false true c h = refl
one_more false false false c h = h

first : (d a b c : Bool) → (d || b) ≡ true → (d || (a || (b || c))) ≡ true
first true a b c h = refl
first false true b c h = refl
first false false true c h = refl
first false false false c h = absurd (ground (arith, h))

-- Whatever the order of hellos, acknowledgements, losses, restarts and changes of the instance's
-- weights, a neighbor that is pending or up has the first five weights that the instance has or had,
-- or the default ones, which a restart of the peer puts in.
pub Comes-Agrees : (ks : List Weights) (n : Session) → Comes ks n → Agrees ks n
unfolding session_state_set
Comes-Agrees _ n (created k _ e) = rw e refl
Comes-Agrees _ n (configured k ks _ c) =
    one_more (is_down n.state) (k_same default_weights n.weights) (k_same k n.weights)
      (in_force ks n.weights) (Comes-Agrees ks n c)
Comes-Agrees _ m (hello k ks n _ param hold_time c e) =
    first (is_down m.state) (k_same default_weights m.weights) (k_same k m.weights)
      (in_force ks m.weights)
      (ap (agrees_kept k) (sym e) ∙ parameter_decode-Agrees k param hold_time n)
Comes-Agrees ks _ (full _ n c e) = rw e at (Comes-Agrees ks n c)
Comes-Agrees ks _ (lost _ n c) = refl
Comes-Agrees ks _ (restarted _ n sequence c e) = refl
Comes-Agrees ks m (other _ n _ c s e) = rw (s, e) (Comes-Agrees ks n c)
