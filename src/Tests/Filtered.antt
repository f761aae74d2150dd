-- ===== src/Tests/Filtered.antt =====
-- A route that one of two interfaces filters.
use eigrpd.Base.{ℕ, ◌+◌, ◌≤◌, ◌≡◌, refl, false, none, some, ◌==◌, arith}
use eigrpd.Metric.{max_metric}
use eigrpd.State.{World, write, zero_extdata, Route}
use eigrpd.Stream.{Buffer}
use eigrpd.Tlv.{parsed, prefix_bytes}
use eigrpd.Tlv2.Codec as Wide
use eigrpd.Tlv2.Bytes.{IsExternal}
use eigrpd.Tlv2.Layout.{IsSaid, tlv_size, read_back}
use eigrpd.Tlv2.RoundTrip.{decoded_type}
use eigrpd.Filter.{Filters, FilterSet, update_prefix_apply}
use eigrpd.Codec.{wide_encoder}
use eigrpd.Codec.Filtered.{wide_encoder_poisons, told}
use eigrpd.Tests.Lists.{link_list}
use eigrpd.Tests.Streams.{byte_streams, empty_stream}
use eigrpd.Tests.Scenario.{world, prefix, route}
use eigrpd.Tests.Codec.{link}

-- List 1 denies every prefix, and the first interface has it.
abbrev filters : Filters
filters = record { access_denies = λ l d. l == 1; prefix_denies = λ l d. false }

abbrev no_lists : FilterSet
no_lists = record { list = none; prefix = none }

abbrev denying : FilterSet
denying = record { list = some 1; prefix = none }

abbrev table_route : Route
table_route = record route { type = 1; metric = link; extdata = zero_extdata }

abbrev table : World
table = record world { routes = write world.routes 10 (some table_route) }

told-IsExternal : IsExternal zero_extdata
told-IsExternal = record {
  orig = omega arith;
  as_number = omega arith;
  metric = omega arith;
  reserved = omega arith;
  protocol = omega arith;
  flags = omega arith;
}

told-IsSaid : IsSaid (told filters no_lists 9 false table_route prefix)
told-IsSaid = record {
  router = omega arith;
  metric = record {
    delay = omega arith;
    bandwidth = omega arith;
    mtu0 = omega arith;
    mtu1 = omega arith;
    mtu2 = omega arith;
    hop_count = omega arith;
    reliability = omega arith;
    load = omega arith;
    tag = omega arith;
    flags = omega arith;
  };
  extdata = told-IsExternal;
  dest = record {
    family = refl;
    prefixlen = omega arith;
    addr0 = omega arith;
    addr1 = omega arith;
    addr2 = omega arith;
    addr3 = omega arith;
  };
}

told_fits :
    empty_stream.endp + tlv_size (told filters no_lists 9 false table_route prefix)
    ≤ empty_stream.size
unfolding prefix_bytes
told_fits = omega arith

wide_encoder_poisons_example :
    (first : ℕ × Buffer) × (second : ℕ × Buffer) × (v : World) × (wide_encoder filters no_lists 9
        (some denying)
        10
        empty_stream
        table
      ≡ some (first, v))
    × (wide_encoder filters no_lists 9 (some no_lists) 10 empty_stream v ≡ some (second, v))
    × ((Wide.parse (record first.1 { getp = 0 })).0
        ≡ parsed
            (decoded_type false)
            (read_back (told filters no_lists 9 false table_route prefix)))
    × ((Wide.parse (record second.1 { getp = 0 })).0
        ≡ parsed
            (decoded_type false)
            (read_back (told filters no_lists 9 false table_route prefix)))
    × ((read_back (told filters no_lists 9 false table_route prefix)).metric.delay ≡ max_metric)
unfolding Wide.route_tlv_type update_prefix_apply
wide_encoder_poisons_example =
    wide_encoder_poisons filters no_lists 9 false denying no_lists 10 0 table_route prefix
      empty_stream empty_stream table refl refl refl refl refl told-IsSaid refl (omega arith)
      told_fits (omega arith) told_fits
