-- ===== src/Output/Runs.antt =====
-- Runs of the daemon's output: packets are queued on interfaces and written, in any order, by
-- eigrp_packet_output_enqueue and eigrp_packet_write of eigrpd/eigrp_packet.c.
use mathlib.Core.List.{Memᴰ}
use eigrpd.Base.{ℕ, ◌≡◌, refl, true, some, [], ◌∷◌, List}
use eigrpd.State.{Interface, World, Ends-at}
use eigrpd.Session.{Wire}
use eigrpd.Output.{waits, output_enqueue, packet_write}
use eigrpd.Output.Scheduled.{Scheduled, output_enqueue-Scheduled, packet_write-Scheduled}

-- The worlds that queueing and writing lead to. The shutting down of an interface, which takes it off
-- the list with its packets (eigrp_intf_stream_unset), is not among them.
pub data Run (wire : Wire) (w : World) : World → Type 0 where
  begin : Run wire w w
  queued :
      (ei p : ℕ) (v u : World) → Run wire w v → output_enqueue ei p v ≡ some (tt, u) → Run wire w u
  written : (v u : World) → Run wire w v → packet_write wire v ≡ some (tt, u) → Run wire w u

Run-Scheduled : (wire : Wire) (w v : World) → Scheduled w → Run wire w v → Scheduled v
Run-Scheduled wire w v s begin = s
Run-Scheduled wire w v s (queued ei p u _ run e) =
    Ends-at (output_enqueue-Scheduled ei p u (Run-Scheduled wire w u s run)) e
Run-Scheduled wire w v s (written u _ run e) =
    Ends-at (packet_write-Scheduled wire u (Run-Scheduled wire w u s run)) e

waits_listed : (ei : ℕ) (l : List ℕ) → Memᴰ ei l → waits l ≡ true
waits_listed ei [] m = elim m [ ]
waits_listed ei (x ∷ l) m = refl

-- From a world in which every interface with a packet is in the list of the interfaces to write and
-- the write event is pending while that list holds one, whatever packets are queued on interfaces
-- and whenever the write event fires, while no interface is shut down, an interface whose output
-- queue then holds a packet is in the list, and the write event is pending.
pub Run-pending :
    (wire : Wire) (w v : World)
    → Scheduled w
    → Run wire w v
    → (ei : ℕ) (i : Interface) (p : ℕ) → v.intfs ei ≡ some i
    → i.obuf.tail ≡ some p
    → Memᴰ ei v.oi_write_q × (v.t_write ≡ true)
Run-pending wire w v s run ei i p at packet =
    let t = Run-Scheduled wire w v s run in
    let m = t.ready.listed ei i at (t.ready.marked ei i at p packet) in
    (m, t.pending (waits_listed ei v.oi_write_q m))
