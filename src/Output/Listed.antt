-- ===== src/Output/Listed.antt =====
-- The list of the interfaces that wait to be written, in eigrpd/eigrp_packet.c.
use mathlib.Core.List.{Memᴰ}
use mathlib.Core.List.Memᴰ.{append_left, append_right}
use eigrpd.Base.{
  ℕ, ◌≡◌, refl, sym, ◌∙◌, ap, Bool, true, false, Option, none, some, some_inj, List, [], ◌∷◌, ◌++◌,
  ◌==◌, if◌then◌else◌, arith,
}
use eigrpd.State.{Interface, write}

-- An interface whose output queue holds a packet is marked as waiting, and one that is marked is in
-- the list.
pub record Listed (intfs : ℕ → Option Interface) (oi_write_q : List ℕ) : Type 0 where
  pub marked :
      (ei : ℕ) (i : Interface)
      → intfs ei ≡ some i
      → (p : ℕ) → i.obuf.tail ≡ some p
      → i.on_write_q ≡ true
  pub listed :
      (ei : ℕ) (i : Interface) → intfs ei ≡ some i → i.on_write_q ≡ true → Memᴰ ei oi_write_q

-- What a write to the heap gives back.
read_back :
    {B : Type 0} (intfs : ℕ → Option Interface) (ei e : ℕ) (j i : Interface)
    → write intfs ei (some j) e ≡ some i
    → (e ≡ ei → i ≡ j → B)
    → ((e == ei) ≡ false → intfs e ≡ some i → B)
    → B
read_back {B} intfs ei e j i at same other = by_case (e == ei) refl at
  where
    by_case : (b : Bool) → (e == ei) ≡ b → (if b then some j else intfs e) ≡ some i → B
    by_case true t found = same (ground (arith, t)) (sym (some_inj found))
    by_case false t found = other t found

module _ (intfs : ℕ → Option Interface) (ei : ℕ) (j : Interface) where
  -- An interface that waits changes, and the list grows.
  pub Listed-on :
      (before after : List ℕ)
      → Listed intfs before
      → j.on_write_q ≡ true
      → ((e : ℕ) → Memᴰ e before → Memᴰ e after)
      → Memᴰ ei after
      → Listed (write intfs ei (some j)) after
  Listed-on before after l on grows here = record {
    marked = λ e i at p packet.
        read_back intfs ei e j i at (λ _ same. rw (ap (λ (x : Interface). x.on_write_q) same) on)
          λ _ found. l.marked e i found p packet;
    listed = λ e i at on_too.
        read_back intfs ei e j i at (λ here_too _. rw here_too here)
          λ _ found. grows e (l.listed e i found on_too);
  }

  -- An interface whose queue is empty leaves the list's head.
  pub Listed-off :
      (eis : List ℕ)
      → Listed intfs (ei ∷ eis)
      → j.on_write_q ≡ false
      → j.obuf.tail ≡ none
      → Listed (write intfs ei (some j)) eis
  Listed-off eis l off empty = record {
    marked = λ e i at p packet.
        read_back intfs ei e j i at
          (λ _ same.
            absurd (none_not empty (ap (λ (x : Interface). x.obuf.tail) (sym same) ∙ packet)))
          λ _ found. l.marked e i found p packet;
    listed = λ e i at on.
        read_back intfs ei e j i at
          (λ _ same. absurd (off_not off (ap (λ (x : Interface). x.on_write_q) (sym same) ∙ on)))
          λ elsewhere found. behind e elsewhere (l.listed e i found on);
  }
    where
      none_not : {o : Option ℕ} {p : ℕ} → o ≡ none → o ≡ some p → ⊥
      none_not e packet = ground (arith, e, packet)

      off_not : {b : Bool} → b ≡ false → b ≡ true → ⊥
      off_not e on = ground (arith, e, on)

      behind : (e : ℕ) → (e == ei) ≡ false → Memᴰ e (ei ∷ eis) → Memᴰ e eis
      behind e elsewhere (Memᴰ.head here) = absurd (ground (arith, elsewhere, here))
      behind e elsewhere (Memᴰ.tail m) = m

-- The interface joins the list unless it is there.
pub joined :
    (intfs : ℕ → Option Interface) (ei : ℕ) (i j : Interface) (l : List ℕ)
    → Listed intfs l
    → intfs ei ≡ some i
    → j.on_write_q ≡ true
    → (b : Bool) → i.on_write_q ≡ b
    → Listed (write intfs ei (some j)) (if b then l else l ++ ei ∷ [])
joined intfs ei i j l r at on true was =
    Listed-on intfs ei j l l r on (λ e m. m) (r.listed ei i at was)
joined intfs ei i j l r at on false was =
    Listed-on intfs ei j l (l ++ ei ∷ []) r on (λ e m. append_left (ei ∷ []) m)
      (append_right l (Memᴰ.head refl))
