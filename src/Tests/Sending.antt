-- ===== src/Tests/Sending.antt =====
-- A packet for the two neighbors of an interface.
use eigrpd.Base.{
  ℕ, ◌≡◌, refl, none, some, if◌then◌else◌, ◌==◌, arith, true, false, ap, ◌∙◌, some_inj, [], ◌∷◌,
}
use eigrpd.State.{World, Interface, write, load_intf, update_intf, ◌>>=◌, get, expect, modify}
use eigrpd.Queue.{packet_enqueue, update_cell, link_back}
use eigrpd.Output.{output_enqueue}
use eigrpd.Output.Scheduled.{Scheduled}
use eigrpd.Output.Runs.{begin, queued, Run-pending}
use eigrpd.Retransmit.{packet_new}
use eigrpd.Update.Send.{send_to_all_nbrs}
use eigrpd.Update.Send.Twice.{count_of, send_to_all_nbrs_faults}
use mathlib.Core.List.{Memᴰ}
use eigrpd.Tests.Scenario.{world, interface}
use eigrpd.Tests.Update.{plain_wire}

abbrev sending : World
sending = record world {
  packets = λ p. if p == 0 then some (packet_new 1480 none) else none;
  next_packet = 1;
}

send_to_all_nbrs_faults_example : send_to_all_nbrs 0 0 sending ≡ none
unfolding count_of
send_to_all_nbrs_faults_example = send_to_all_nbrs_faults 0 0 interface sending refl (omega arith)

-- The packet waits on the interface.
abbrev waiting : Interface
waiting = record interface {
  obuf = record { head = some 0; tail = some 0; count = 1 };
  on_write_q = true;
}

abbrev queued_once : World
queued_once = record sending {
  packets = write sending.packets 0 (some (packet_new 1480 none));
  intfs = write sending.intfs 0 (some waiting);
  oi_write_q = 0 ∷ [];
  t_write = true;
}

queues : output_enqueue 0 0 sending ≡ some (tt, queued_once)
unfolding output_enqueue load_intf update_intf ◌>>=◌ get expect modify packet_enqueue update_cell
    link_back
queues = refl

empty : {p : ℕ} → interface.obuf.tail ≡ some p → ⊥
empty e = ground (arith, e)

off : false ≡ true → ⊥
off e = ground (arith, e)

sending-Scheduled : Scheduled sending
sending-Scheduled = record {
  ready = record {
    marked = λ ei i at p e. absurd (empty (ap (λ (x : Interface). x.obuf.tail) (some_inj at) ∙ e));
    listed = λ ei i at on. absurd (off (ap (λ (x : Interface). x.on_write_q) (some_inj at) ∙ on));
  };
  pending = λ e. absurd (off e);
}

Run-pending_example : Memᴰ {A = ℕ} 0 (0 ∷ []) × (true ≡ true)
Run-pending_example =
    Run-pending plain_wire sending queued_once sending-Scheduled
      (queued 0 0 sending queued_once begin queues) 0 waiting 0 refl refl
