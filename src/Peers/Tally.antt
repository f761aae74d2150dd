-- ===== src/Peers/Tally.antt =====
-- Counting the neighbors that are up, by their version.
use eigrpd.Base.{
  ℕ, ◌+◌, ◌≤◌, ◌≡◌, refl, ap, true, false, ◌&&◌, Option, none, some, List, [], ◌∷◌, ◌==◌,
  if◌then◌else◌, length, arith,
}
use eigrpd.State.{write}
use eigrpd.Neighbor.{is_up}
use eigrpd.Peers.{Peer}

abbrev pub counted : ℕ → Option Peer → ℕ
counted version none = 0
counted version (some q) = if is_up q.state && q.tlv_version == version then 1 else 0

abbrev pub tally : ℕ → (ℕ → Option Peer) → List ℕ → ℕ
tally version peers [] = 0
tally version peers (p ∷ l) = counted version (peers p) + tally version peers l

-- A neighbor of the list, which has it once.
abbrev pub Apart : ℕ → List ℕ → Type 0
Apart p [] = Unit
Apart p (x ∷ l) = ((x == p) ≡ false) × Apart p l

pub data Once (p : ℕ) : List ℕ → Type 0 where
  first : (l : List ℕ) → Apart p l → Once p (p ∷ l)
  later : (x : ℕ) (l : List ℕ) → (x == p) ≡ false → Once p l → Once p (x ∷ l)

tally-Apart :
    (version : ℕ) (peers : ℕ → Option Peer) (p : ℕ) (o : Option Peer) (l : List ℕ)
    → Apart p l
    → tally version (write peers p o) l ≡ tally version peers l
tally-Apart version peers p o [] a = refl
tally-Apart version peers p o (x ∷ l) (ne, a) =
    rw ne (ap (λ n. counted version (peers x) + n) (tally-Apart version peers p o l a))

-- One neighbor changes.
pub tally-write :
    (version : ℕ) (peers : ℕ → Option Peer) (p : ℕ) (o : Option Peer) (l : List ℕ)
    → Once p l
    → tally version (write peers p o) l + counted version (peers p)
      ≡ tally version peers l + counted version o
tally-write version peers p o _ (first l a) =
    let here : (p == p) ≡ true = ground arith in
    rw here (omega (arith, tally-Apart version peers p o l a))
tally-write version peers p o _ (later x l ne h) =
    rw ne (omega (arith, tally-write version peers p o l h))

pub tally_le :
    (version : ℕ) (peers : ℕ → Option Peer) (l : List ℕ) → tally version peers l ≤ length l
tally_le version peers [] = omega arith
tally_le version peers (x ∷ l) =
    omega (arith, tally_le version peers l, counted_le version (peers x))
  where
    counted_le : (version : ℕ) (o : Option Peer) → counted version o ≤ 1
    counted_le version none = omega arith
    counted_le version (some q) = ground arith

pub counted_le_tally :
    (version : ℕ) (peers : ℕ → Option Peer) (p : ℕ) (l : List ℕ)
    → Once p l
    → counted version (peers p) ≤ tally version peers l
counted_le_tally version peers p _ (first l a) = omega arith
counted_le_tally version peers p _ (later x l ne h) =
    omega (arith, counted_le_tally version peers p l h)
