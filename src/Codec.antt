-- ===== src/Codec.antt =====
-- The decoders and the encoders of both TLV codecs with the daemon's state: eigrp_tlv1_decoder,
-- eigrp_tlv2_decoder and their encoders, in eigrpd/eigrp_tlv1.c and eigrpd/eigrp_tlv2.c.
pub mod Loop
pub mod Filtered
use eigrpd.Base.{ℕ, ◌+◌, ◌-◌, ◌≤◌, ◌≡◌, ap, ◌||◌, Option, none, some, if◌then◌else◌, ◌==◌, arith}
use eigrpd.Metric.{max_metric}
use eigrpd.State.{
  M, pure, fault, ◌>>=◌, ◌>>◌, load_nbr, load_route, load_prefix, update_route, free_route, Dest,
  Route,
}
use eigrpd.Topology.{route_create}
use eigrpd.Stream.{Buffer, S, StreamLib}
use eigrpd.Tlv.{Fields, Parsed, dropped, refused, parsed}
use eigrpd.Tlv.Advance.{Advanced}
use eigrpd.Tlv1.Codec as Classic
use eigrpd.Tlv1.Advance.{classic_advances}
use eigrpd.Tlv2.Codec as Wide
use eigrpd.Tlv2.Advance.{wide_advances}
use eigrpd.Receive.{Decoder}
use eigrpd.Filter.{Filters, FilterSet, update_prefix_apply}

-- The daemon's side of a decoder: the route is made once the TLV is framed, and freed again if the
-- TLV is malformed.
unfoldable pub build : ℕ → Parsed → M (Option ℕ)
build nbr dropped = pure none
build nbr refused = do n ← load_nbr nbr; route ← route_create n.ei; free_route route; pure none
build nbr (parsed type x) = do
  n ← load_nbr nbr
  route ← route_create n.ei
  update_route route (λ r. record r {
    type = type;
    nexthop = 0;
    metric = x.metric;
    extdata = x.extdata;
    dest = x.dest;
  })
  pure (some route)

-- A received packet: its stream is read inside its bounds.
pub record Packet : Type 0 where
  pub stream : Buffer
  pub read : stream.getp ≤ stream.endp
  pub held : stream.endp ≤ stream.size

abbrev pub read_on : (p : Packet) (t : Buffer) → Advanced p.stream t → Packet
read_on p t a = record {
  stream = t;
  read = let end : t.endp ≡ p.stream.endp = ap (λ b. b.endp) a.same in omega (arith, a.within, end);
  held =
      let end : t.endp ≡ p.stream.endp = ap (λ b. b.endp) a.same in
      let size : t.size ≡ p.stream.size = ap (λ b. b.size) a.same in
      omega (arith, p.held, end, size);
}

-- A decoder from a parser that stays inside the packet.
unfoldable pub decoder_of :
    (parse : S Parsed)
    → ((s : Buffer) → s.getp ≤ s.endp → s.endp ≤ s.size → Advanced s (parse s).1)
    → Decoder Packet
decoder_of parse advances = record {
  remaining = λ p. p.stream.endp - p.stream.getp;
  decode = λ nbr p. build nbr (parse p.stream).0 >>= λ route.
      pure (route, read_on p (parse p.stream).1 (advances p.stream p.read p.held));
}

-- Where an encoder takes the destination from.
unfoldable pub dest_of_route : Route → M Dest
dest_of_route r = elim r.prefix [
  | none ↦ pure r.dest
  | some p ↦ (load_prefix p >>= λ d. pure d.destination)
]

unfoldable pub table_dest : Route → M Dest
table_dest r = elim r.prefix [ none ↦ fault | some p ↦ (load_prefix p >>= λ d. pure d.destination) ]

module _ ⦃sl : StreamLib⦄ where
  -- eigrp_tlv1_decoder, eigrp_tlv2_decoder
  unfoldable pub classic_decoder : Decoder Packet
  classic_decoder = decoder_of Classic.parse classic_advances

  unfoldable pub wide_decoder : Decoder Packet
  wide_decoder = decoder_of Wide.parse wide_advances

  module _ (filters : Filters) (instance_lists : FilterSet) (router_id : ℕ) where
    -- The filter writes on the route itself.
    unfoldable pub filter_route : FilterSet → ℕ → Dest → M (Unit {0})
    filter_route i route d =
        if update_prefix_apply filters instance_lists i d
        then update_route route (λ r. record r { metric = record r.metric { delay = max_metric } })
        else pure tt

    unfoldable pub filter_if : Option FilterSet → ℕ → Dest → M (Unit {0})
    filter_if none route d = pure tt
    filter_if (some i) route d = filter_route i route d

    -- eigrp_tlv1_encoder: without an interface there is no filter; a route without a destination
    -- in the table is a fault.
    unfoldable pub classic_encoder : Option FilterSet → ℕ → Buffer → M (ℕ × Buffer)
    classic_encoder i route s = do
      r ← load_route route
      d ← table_dest r
      filter_if i route d
      q ← load_route route
      pure (Classic.encode q.type q.nexthop q.metric q.extdata d s)

    -- eigrp_tlv2_encoder: without an interface there is no TLV.
    unfoldable pub wide_encoder : Option FilterSet → ℕ → Buffer → M (ℕ × Buffer)
    wide_encoder none route s = pure (0, s)
    wide_encoder (some i) route s = do
      r ← load_route route
      d ← dest_of_route r
      filter_route i route d
      q ← load_route route
      pure (Wide.encode q.type router_id q.metric q.extdata d s)

    -- eigrp_packet_encoder_both: the two TLVs, or none.
    unfoldable pub encoder_both : Option FilterSet → ℕ → Buffer → M (ℕ × Buffer)
    encoder_both i route s = do
      x ← classic_encoder i route s
      y ← wide_encoder i route x.1
      pure (if x.0 == 0 || y.0 == 0 then (0, (sl.set_endp s.endp y.1).1) else (x.0 + y.0, y.1))
