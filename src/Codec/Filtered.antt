-- ===== src/Codec/Filtered.antt =====
-- A route that a filter denies on an interface.
use eigrpd.Base.{ℕ, ◌+◌, ◌≤◌, ◌≡◌, refl, ap, Bool, true, false, some, ◌==◌, arith}
use eigrpd.Metric.{max_metric}
use eigrpd.State.{
  World, Route, Prefix, ◌>>=◌, write, load_route, load_prefix, update_route, store_route,
}
use eigrpd.Stream.{Buffer, StreamLib}
use eigrpd.Filter.{Filters, FilterSet, update_prefix_apply}
use eigrpd.Tlv.{parsed}
use eigrpd.Tlv2.Codec as Wide
use eigrpd.Tlv2.Layout.{Said, IsSaid, type_word, tlv_size, read_back}
use eigrpd.Tlv2.RoundTrip.{parse-encode, decoded_type}
use eigrpd.Codec.{filter_route, wide_encoder, dest_of_route}

-- The route as the filter leaves it.
abbrev pub unreachable_route : Route → Route
unreachable_route r = record r { metric = record r.metric { delay = max_metric } }

module _ ⦃sl : StreamLib⦄ (filters : Filters) (lists : FilterSet) (router_id : ℕ) where
  filter_route_lem :
      (i : FilterSet) (p : ℕ) (r : Route) (d : Prefix) (w : World)
      → w.routes p ≡ some r
      → update_prefix_apply filters lists i d.destination ≡ true
      → filter_route filters lists router_id i p d.destination w
        ≡ some (tt, record w { routes = write w.routes p (some (unreachable_route r)) })
  unfolding filter_route update_route load_route store_route ◌>>=◌
  filter_route_lem i p r d w er ed = rw (ed, er) refl

  dest_of_route_lem :
      (q : ℕ) (r : Route) (d : Prefix) (w : World)
      → r.prefix ≡ some q
      → w.prefixes q ≡ some d
      → dest_of_route r w ≡ some (d.destination, w)
  unfolding dest_of_route load_prefix ◌>>=◌
  dest_of_route_lem q r d w eq ed = rw (eq, ed) refl

  -- The encoder of wide metrics for an interface whose filter denies the destination, and for one
  -- whose filter does not, on a route whose metric is unreachable already.
  denied_lem :
      (i : FilterSet) (p q : ℕ) (r : Route) (d : Prefix) (s : Buffer) (w : World)
      → w.routes p ≡ some r
      → r.prefix ≡ some q
      → w.prefixes q ≡ some d
      → update_prefix_apply filters lists i d.destination ≡ true
      → wide_encoder filters lists router_id (some i) p s w
        ≡ some (
          Wide.encode r.type router_id (unreachable_route r).metric r.extdata d.destination s,
          record w { routes = write w.routes p (some (unreachable_route r)) },
        )
  unfolding wide_encoder load_route ◌>>=◌
  denied_lem i p q r d s w er eq ed deny =
      let here : (p == p) ≡ true = ground arith in
      rw (er, dest_of_route_lem q r d w eq ed, filter_route_lem i p r d w er deny, here) refl

  permitted_lem :
      (j : FilterSet) (p q : ℕ) (r : Route) (d : Prefix) (s : Buffer) (w : World)
      → w.routes p ≡ some r
      → r.prefix ≡ some q
      → w.prefixes q ≡ some d
      → update_prefix_apply filters lists j d.destination ≡ false
      → wide_encoder filters lists router_id (some j) p s w
        ≡ some (Wide.encode r.type router_id r.metric r.extdata d.destination s, w)
  unfolding wide_encoder filter_route load_route ◌>>=◌
  permitted_lem j p q r d s w er eq ed permit =
      rw (er, dest_of_route_lem q r d w eq ed, permit, er) refl

  -- What both interfaces are told.
  abbrev pub told : Bool → Route → Prefix → Said
  told x r d = record {
    external = x;
    router = router_id;
    metric = (unreachable_route r).metric;
    extdata = r.extdata;
    dest = d.destination;
  }

  -- A route of the table that is written for an interface whose filter denies its destination, and
  -- then for one whose filter permits it, is unreachable on both: each decoder reads the route with
  -- the greatest delay. The filter writes on the route itself, which both encoders share. The
  -- streams have room, the fields are inside their widths, and the type is one of the codec's.
  pub wide_encoder_poisons :
      (x : Bool) (i j : FilterSet) (p q : ℕ) (r : Route) (d : Prefix) (s t : Buffer) (w : World)
      → w.routes p ≡ some r
      → r.prefix ≡ some q
      → w.prefixes q ≡ some d
      → update_prefix_apply filters lists i d.destination ≡ true
      → update_prefix_apply filters lists j d.destination ≡ false
      → IsSaid (told x r d)
      → Wide.route_tlv_type r.type ≡ type_word x
      → s.getp ≤ s.endp
      → s.endp + tlv_size (told x r d) ≤ s.size
      → t.getp ≤ t.endp
      → t.endp + tlv_size (told x r d) ≤ t.size
      → (first : ℕ × Buffer) × (second : ℕ × Buffer) × (v : World) × (wide_encoder filters lists
            router_id
            (some i)
            p
            s
            w
          ≡ some (first, v))
        × (wide_encoder filters lists router_id (some j) p t v ≡ some (second, v))
        × ((Wide.parse (record first.1 { getp = s.endp })).0
            ≡ parsed (decoded_type x) (read_back (told x r d)))
        × ((Wide.parse (record second.1 { getp = t.endp })).0
            ≡ parsed (decoded_type x) (read_back (told x r d)))
        × ((read_back (told x r d)).metric.delay ≡ max_metric)
  unfolding read_back
  wide_encoder_poisons x i j p q r d s t w er eq ed deny permit h ht hg hs kg ks =
      let v : World = record w { routes = write w.routes p (some (unreachable_route r)) } in
      let here : (p == p) ≡ true = ground arith in
      let left : v.routes p ≡ some (unreachable_route r) = rw here refl in
      (
        Wide.encode r.type router_id (unreachable_route r).metric r.extdata d.destination s,
        Wide.encode r.type router_id (unreachable_route r).metric r.extdata d.destination t,
        v,
        denied_lem i p q r d s w er eq ed deny,
        permitted_lem j p q (unreachable_route r) d t v left eq ed permit,
        ap (λ y. y.0) (parse-encode r.type (told x r d) s h ht hg hs),
        ap (λ y. y.0) (parse-encode r.type (told x r d) t h ht kg ks),
        refl,
      )
