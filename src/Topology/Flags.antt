-- ===== src/Topology/Flags.antt =====
-- The feasibility condition, eigrp_topology_update_node_flags of eigrpd/eigrp_topology.c.
use eigrpd.Base.{
  ℕ, ◌*◌, ◌≡◌, refl, ap, ◌∙◌, inl, inr, Bool, true, false, not, ◌&&◌, Option, none, some, List, [],
  ◌∷◌, ltb, leb, ◌==◌, if◌then◌else◌, u64, arith, Bool-cases, ==_iff, fun_ext,
}
use mathlib.Core.Option
use eigrpd.Metric.{max_metric}
use eigrpd.State.{
  Route, Prefix, World, get, ◌>>=◌, ◌>>◌, write, load_route, store_route, load_prefix, update_route,
}
use eigrpd.Topology.{flag_route, flag_entries, update_node_flags}
use eigrpd.Topology.Table.{non_empty, get_successor_max}
use eigrpd.Topology.Selection.{AreLive, is_successor, successors_of, take, get_successor_max-take}
use eigrpd.LinkList.{LinkList}

-- The route is feasible and its distance is within the variance.
abbrev pub is_within : Prefix → ℕ → Route → Bool
is_within d variance r =
    ltb r.reported_distance d.fdistance
    && (leb r.distance (u64 (d.distance * variance)) && not (r.distance == max_metric))

flag_route-successor :
    (d : Prefix) (variance : ℕ) (r : Route)
    → (flag_route d variance r).successor ≡ is_within d variance r
unfolding flag_route
flag_route-successor d variance r = ground arith

flag_route_twice :
    (d : Prefix) (variance : ℕ) (r : Route)
    → flag_route d variance (flag_route d variance r) ≡ flag_route d variance r
unfolding flag_route
flag_route_twice d variance r = ground arith

abbrev pub mem : ℕ → List ℕ → Bool
mem q [] = false
mem q (e ∷ es) = if q == e then true else mem q es

-- The heap of routes with those of a list flagged.
abbrev pub flagged : Prefix → World → List ℕ → ℕ → Option Route
flagged d w es q =
    if mem q es then Option.map (λ r. flag_route d w.variance r) (w.routes q) else w.routes q

write-AreLive :
    (w : World) (p : ℕ) (r : Route) (l : List ℕ)
    → AreLive w l
    → AreLive (record w { routes = write w.routes p (some r) }) l
write-AreLive w p r [] live = tt
write-AreLive w p r (e ∷ es) ((s, here), live) = (
  elim (Bool-cases (e == p)) [ inl at ↦ (r, (rw at refl)) | inr off ↦ (s, (rw off here)) ],
  write-AreLive w p r es live,
)

-- One more route flagged.
flagged-cons :
    (d : Prefix) (w : World) (e : ℕ) (r : Route) (es : List ℕ) (q : ℕ)
    → w.routes e ≡ some r
    → flagged d (record w { routes = write w.routes e (some (flag_route d w.variance r)) }) es q
      ≡ flagged d w (e ∷ es) q
flagged-cons d w e r es q here = elim (Bool-cases (q == e)) [
  | inl at ↦ at_same at (ap w.routes ((==_iff q e).0 at) ∙ here)
  | inr off ↦ rw off refl
]
  where
    at_same :
        (q == e) ≡ true
        → w.routes q ≡ some r
        → flagged d (record w { routes = write w.routes e (some (flag_route d w.variance r)) }) es q
          ≡ flagged d w (e ∷ es) q
    at_same at there = elim (Bool-cases (mem q es)) [
      | inl m ↦ rw (at, m, there) (ap some (flag_route_twice d w.variance r))
      | inr m ↦ rw (at, m, there) refl
    ]

flag_entries_lem :
    (d : Prefix) (es : List ℕ) (w : World)
    → AreLive w es
    → flag_entries d w.variance es w ≡ some (tt, record w { routes = flagged d w es })
unfolding flag_entries ◌>>=◌ load_route store_route update_route
flag_entries_lem d [] w live = refl
flag_entries_lem d (e ∷ es) w ((r, here), live) = rw here (
    flag_entries_lem d es _ (write-AreLive w e (flag_route d w.variance r) es live)
    ∙ ap (λ f. some (tt, record w { routes = f })) (fun_ext λ q. flagged-cons d w e r es q here))

update_node_flags-flagged :
    (p : ℕ) (d : Prefix) (w : World)
    → w.prefixes p ≡ some d
    → AreLive w d.entries
    → update_node_flags p w ≡ some (tt, record w { routes = flagged d w d.entries })
unfolding update_node_flags ◌>>=◌ load_prefix get
update_node_flags-flagged p d w here live = rw here (flag_entries_lem d d.entries w live)

-- The live entries of a list that are feasible and within the variance, in their order.
abbrev pub entry_is_within : Prefix → World → ℕ → Bool
entry_is_within d w e = elim (w.routes e) [ none ↦ false | some r ↦ is_within d w.variance r ]

abbrev pub within : Prefix → World → List ℕ → List ℕ
within d w [] = []
within d w (e ∷ es) = let rest = within d w es in if entry_is_within d w e then e ∷ rest else rest

-- Every member of the one list is a member of the other.
abbrev Sub : List ℕ → List ℕ → Type 0
Sub l m = (q : ℕ) → mem q l ≡ true → mem q m ≡ true

Sub-tail : (e : ℕ) (es m : List ℕ) → Sub (e ∷ es) m → Sub es m
Sub-tail e es m h q i = h q (ground (arith, i))

Sub-head : (e : ℕ) (es m : List ℕ) → Sub (e ∷ es) m → mem e m ≡ true
Sub-head e es m h = h e (ground arith)

flagged_at :
    (d : Prefix) (w : World) (l : List ℕ) (e : ℕ) (r : Route)
    → mem e l ≡ true
    → w.routes e ≡ some r
    → flagged d w l e ≡ some (flag_route d w.variance r)
flagged_at d w l e r m here = rw (m, here) refl

flagged-AreLive :
    (d : Prefix) (w : World) (l es : List ℕ)
    → Sub es l
    → AreLive w es
    → AreLive (record w { routes = flagged d w l }) es
flagged-AreLive d w l [] s live = tt
flagged-AreLive d w l (e ∷ es) s ((r, here), live) = (
  (flag_route d w.variance r, flagged_at d w l e r (Sub-head e es l s) here),
  flagged-AreLive d w l es (Sub-tail e es l s) live,
)

flagged-within :
    (d : Prefix) (w : World) (l es : List ℕ)
    → Sub es l
    → AreLive w es
    → successors_of (record w { routes = flagged d w l }) es ≡ within d w es
flagged-within d w l [] s live = refl
flagged-within d w l (e ∷ es) s ((r, here), live) =
    rw (same_test, flagged-within d w l es (Sub-tail e es l s) live) refl
  where
    same_test : is_successor (record w { routes = flagged d w l }) e ≡ entry_is_within d w e
    same_test =
        rw (flagged_at d w l e r (Sub-head e es l s) here, is_successor, entry_is_within, here)
          (flag_route-successor d w.variance r)

module _ ⦃ll : LinkList⦄ where
  -- On a destination whose entries are live, eigrp_topology_update_node_flags followed by
  -- eigrp_topology_get_successor_max returns, changes nothing but the flags of the entries, and
  -- gives, in their order and at most `maxpaths` of them, the entries whose reported distance is
  -- below the feasible distance and whose distance is not EIGRP_MAX_METRIC and no more than the
  -- destination's distance times the variance, in 64 bits; NULL where there is none.
  pub get_successor_max-within :
      (p maxpaths : ℕ) (d : Prefix) (w : World)
      → w.prefixes p ≡ some d
      → AreLive w d.entries
      → (update_node_flags p >> get_successor_max p maxpaths) w
        ≡ some (
          Option.map (λ l. take maxpaths l) (non_empty (within d w d.entries)),
          record w { routes = flagged d w d.entries },
        )
  unfolding ◌>>=◌
  get_successor_max-within p maxpaths d w here live =
      rw (update_node_flags-flagged p d w here live) (
        get_successor_max-take p maxpaths d _ here
          (flagged-AreLive d w d.entries d.entries (λ q h. h) live)
        ∙ ap
            (λ l. some (
              Option.map (λ m. take maxpaths m) (non_empty l),
              record w { routes = flagged d w d.entries },
            ))
            (flagged-within d w d.entries d.entries (λ q h. h) live))
