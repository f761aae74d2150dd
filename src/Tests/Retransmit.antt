-- ===== src/Tests/Retransmit.antt =====
-- A neighbor with two packets that are not acknowledged, of which the older is sent again.
use eigrpd.Base.{false, []}
use eigrpd.State.{queue_new}
use eigrpd.Retransmit.{Link}
use eigrpd.Tests.Queue.{cells, two}

abbrev link : Link
link = record {
  cells = cells;
  nbr = 4;
  src = 167772162;
  retrans_queue = two;
  multicast_queue = queue_new;
  ei = 2;
  obuf = queue_new;
  on_write_q = false;
  oi_write_q = [];
  t_write = false;
  sequence_number = 3;
}
