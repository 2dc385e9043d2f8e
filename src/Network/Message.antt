-- ===== src/Network/Message.antt =====
-- Stream ids and messages (sandpolis-instance/src/network/stream.rs). A `u64`, a `u32`, a `u8` and
-- an instance id are numbers; a payload is the list of its bytes.
use sandpolis.Prelude.{ℕ, ◌*◌, ◌/◌, ◌%◌, ◌^◌, Option, none, some, List}
use Prim.Native.Nat.{bit_or}

-- `StreamId::tag`: the upper half.
unfoldable pub tag : ℕ → ℕ
tag id = id / 2 ^ 32 % 2 ^ 32

-- `StreamRequester::generate_id`, with the type's tag and the random `u32` as arguments.
unfoldable pub generate_id : ℕ → ℕ → ℕ
generate_id type_tag random = bit_or (type_tag * 2 ^ 32 % 2 ^ 64) random

pub record StreamMessage : Type 0 where
  pub stream_id : ℕ
  pub payload : List ℕ
  pub dst : Option ℕ
  pub hops : ℕ

abbrev pub max_hops : ℕ
max_hops = 4

abbrev pub routed : ℕ → List ℕ → Option ℕ → StreamMessage
routed id payload dst = record { stream_id = id; payload = payload; dst = dst; hops = 0 }

-- `StreamMessage::local`.
abbrev pub local : ℕ → List ℕ → StreamMessage
local id payload = routed id payload none

-- `StreamMessage::to`.
abbrev pub to : ℕ → List ℕ → ℕ → StreamMessage
to id payload dst = routed id payload (some dst)
