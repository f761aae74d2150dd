-- ===== src/State/Packets.antt =====
-- The packets of eigrpd/eigrp_structs.h, their queues, and the kinds of an interface's encoder.
use eigrpd.Base.{ℕ, Bool, Option, none}
use eigrpd.Stream.{Buffer}

-- The fields of `eigrp_packet`; `timer` stands for a pending t_retrans_timer.
pub record Cell : Type 0 where
  pub next : Option ℕ
  pub previous : Option ℕ
  pub bytes : Buffer
  pub dst : ℕ
  pub timer : Bool
  pub retrans_counter : ℕ
  pub nbr : Option ℕ
  pub sequence_number : ℕ
  pub sequence_reserved : Bool
  pub length : ℕ

abbrev pub Cells : Type 0
Cells = ℕ → Option Cell

pub record Queue : Type 0 where
  pub head : Option ℕ
  pub tail : Option ℕ
  pub count : ℕ

-- eigrp_packet_queue_new
abbrev pub queue_new : Queue
queue_new = record { head = none; tail = none; count = 0 }

-- An interface's `encoder`, a function pointer.
pub data Encoder : Type 0 where
  safe_encoder classic wide both : Encoder

-- What `stream_new` gives.
abbrev pub stream_new : ℕ → Buffer
stream_new size = record { byte = λ i. 0; getp = 0; endp = 0; size = size }

-- enum Packet_part_type, of a graceful restart's packets.
pub data PacketPart : Type 0 where
  part_na part_first part_last : PacketPart
