-- ===== src/Tests/Codec.antt =====
-- The codecs, at concrete routes and packets.
use eigrpd.Base.{ℕ, Option, none, some, ◌+◌, ◌≤◌, ◌≡◌, refl, true, false, arith}
use eigrpd.Metric.{Metrics}
use eigrpd.State.{World, M, pure, fault, ◌>>=◌, Dest, ExtData, zero_extdata}
use eigrpd.Stream.{Buffer}
use eigrpd.Tlv.{parsed, refused, af_inet, prefix_bytes}
use eigrpd.Tlv.Address.{IsIpv4}
use eigrpd.Tlv.Advance.{Advanced}
use eigrpd.Tlv1.Codec as Classic
use eigrpd.Tlv1.Bytes.{IsMetric, Told, classic_size}
use eigrpd.Tlv1.Refused.{classic_refused}
use eigrpd.Tlv1.Advance.{classic_advances}
use eigrpd.Tlv2.Codec as Wide
use eigrpd.Tlv2.Bytes.{IsExternal}
use eigrpd.Tlv2.Layout.{Said, IsSaid, tlv_size, read_back}
use eigrpd.Tlv2.RoundTrip.{parse-encode, decoded_type}
use eigrpd.Tlv2.Advance.{wide_advances}
use eigrpd.Codec.{Packet, classic_decoder, wide_decoder}
use eigrpd.Codec.Loop.{codec_rounds_enough}
use eigrpd.Packetizer.{opc_query}
use eigrpd.Receive.{Decoder, receive_from}
use eigrpd.Tests.Lists.{link_list}
use eigrpd.Tests.Streams.{byte_streams, empty_stream}
use eigrpd.Update.{no_restart, update_from}
use eigrpd.Update.Rounds.{update_rounds_enough}
use eigrpd.Tests.Scenario.{world}
use eigrpd.Tests.Update.{open_filters, no_lists}

abbrev net : Dest
net = record { family = af_inet; prefixlen = 24; addr0 = 10; addr1 = 1; addr2 = 2; addr3 = 0 }

net-IsIpv4 : IsIpv4 net
net-IsIpv4 = record {
  family = refl;
  prefixlen = omega arith;
  addr0 = omega arith;
  addr1 = omega arith;
  addr2 = omega arith;
  addr3 = omega arith;
}

abbrev pub link : Metrics
link = record {
  delay = 10;
  bandwidth = 100000;
  mtu0 = 0;
  mtu1 = 5;
  mtu2 = 220;
  hop_count = 1;
  reliability = 255;
  load = 1;
  tag = 0;
  flags = 0;
}

abbrev redistributed : ExtData
redistributed = record zero_extdata { orig = 7; as_number = 100; metric = 20; protocol = 3 }

redistributed-IsExternal : IsExternal redistributed
redistributed-IsExternal = record {
  orig = omega arith;
  as_number = omega arith;
  metric = omega arith;
  reserved = omega arith;
  protocol = omega arith;
  flags = omega arith;
}

abbrev external_route : Said
external_route = record {
  external = true;
  router = 9;
  metric = link;
  extdata = redistributed;
  dest = net;
}

external_route-IsSaid : IsSaid external_route
external_route-IsSaid = record {
  router = omega arith;
  metric = record {
    delay = omega arith;
    bandwidth = omega arith;
    mtu0 = omega arith;
    mtu1 = omega arith;
    mtu2 = omega arith;
    hop_count = omega arith;
    reliability = omega arith;
    load = omega arith;
    tag = omega arith;
    flags = omega arith;
  };
  extdata = redistributed-IsExternal;
  dest = net-IsIpv4;
}

fits : empty_stream.endp + tlv_size external_route ≤ empty_stream.size
unfolding prefix_bytes
fits = omega arith

parse-encode_example :
    (let written = (Wide.encode 2 9 link redistributed net empty_stream).1 in
      Wide.parse (record written { getp = 0 }) ≡ (
        parsed (decoded_type true) (read_back external_route),
        record written { getp = written.endp },
      ))
unfolding Wide.route_tlv_type
parse-encode_example =
    parse-encode 2 external_route empty_stream external_route-IsSaid refl (omega arith) fits

abbrev internal_route : Told
internal_route = record {
  external = false;
  nexthop = 0;
  metric = link;
  extdata = zero_extdata;
  dest = net;
}

link-IsMetric : IsMetric link
link-IsMetric = record {
  mtu0 = omega arith;
  mtu1 = omega arith;
  mtu2 = omega arith;
  hop_count = omega arith;
  reliability = omega arith;
  load = omega arith;
  tag = omega arith;
  flags = omega arith;
}

classic_fits : empty_stream.endp + classic_size internal_route ≤ empty_stream.size
unfolding prefix_bytes
classic_fits = omega arith

classic_refused_example :
    (let written = (Classic.encode 1 0 link zero_extdata net empty_stream).1 in
      Classic.parse (record written { getp = 0 })
      ≡ (refused, record written { getp = written.endp }))
unfolding Classic.classic_tlv_type
classic_refused_example =
    classic_refused 1 internal_route empty_stream link-IsMetric net-IsIpv4 (omega arith) refl
      (omega arith) classic_fits

-- Thirty bytes of ones, which are no TLV.
abbrev junk : Buffer
junk = record { byte = λ i. 1; getp = 0; endp = 30; size = 1500 }

classic_advances_example : Advanced junk (Classic.parse junk).1
classic_advances_example = classic_advances junk (omega arith) (omega arith)

wide_advances_example : Advanced junk (Wide.parse junk).1
wide_advances_example = wide_advances junk (omega arith) (omega arith)

abbrev junk_packet : Packet
junk_packet = record { stream = junk; read = omega arith; held = omega arith }

codec_rounds_enough_example :
    (receive_from classic_decoder (pure tt) 100 opc_query 0 junk_packet world
      ≡ receive_from classic_decoder fault 30 opc_query 0 junk_packet world)
    × (receive_from wide_decoder (pure tt) 100 opc_query 0 junk_packet world
        ≡ receive_from wide_decoder fault 30 opc_query 0 junk_packet world)
codec_rounds_enough_example =
    codec_rounds_enough (pure tt) 100 opc_query 0 junk_packet world (omega arith)

update_rounds_enough_example :
    (update_from open_filters no_lists
        (λ ei. no_lists)
        classic_decoder
        (pure tt)
        100
        no_restart
        0
        0
        junk_packet
        world
      ≡ update_from open_filters no_lists
          (λ ei. no_lists)
          classic_decoder
          fault
          30
          no_restart
          0
          0
          junk_packet
          world)
    × (update_from open_filters no_lists
          (λ ei. no_lists)
          wide_decoder
          (pure tt)
          100
          no_restart
          0
          0
          junk_packet
          world
        ≡ update_from open_filters no_lists
            (λ ei. no_lists)
            wide_decoder
            fault
            30
            no_restart
            0
            0
            junk_packet
            world)
update_rounds_enough_example =
    update_rounds_enough open_filters no_lists (λ ei. no_lists) (pure tt) 100 no_restart 0 0
      junk_packet world (omega arith)

-- A decoder that takes nothing off the packet: what comes after its rounds is seen.
abbrev stuck : Decoder ℕ
stuck = record { remaining = λ s. s; decode = λ nbr s w. some ((none, s), w) }

abbrev stuck_loop : M (Unit {0}) → World → Option (Unit {0} × World)
stuck_loop out = update_from open_filters no_lists (λ ei. no_lists) stuck out 4 no_restart 0 0 4

stuck_goes_on : (stuck_loop (pure tt) world ≡ some (tt, world)) × (stuck_loop fault world ≡ none)
unfolding update_from pure fault ◌>>=◌
stuck_goes_on = (refl, refl)
