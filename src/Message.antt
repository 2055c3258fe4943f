-- ===== src/Message.antt =====
-- src/message/Message.js: the accessors of a message, which read and write its buffer in place.
-- An accessor that may throw returns a Result, and a setter the new message. `_peerInfo` and
-- `Exchange` are carried by the managers.
pub mod Refine
pub mod ExchangeHeader
pub mod HeaderFlags
pub mod Sealed
pub mod Parse
pub mod Packet
pub mod Privacy
pub mod Obfuscation
use matternode.Prelude.{
  ℕ, ◌+◌, ◌-◌, ◌/◌, ◌^◌, bit_and, bit_or, Bool, true, false, Option, none, some, ◌++◌,
  if◌then◌else◌, ◌==◌, take, drop, length, Result, ok, throw, type_error, ◌>>=◌,
}
use matternode.Buffer.{Buffer, alloc, read_le, write_le, subarray, index_from_end}
use matternode.MsgCodec.{node_id_any, has_flag}
use matternode.MsgCodec

-- `encrypted` is null until the message is encrypted.
pub record Message : Type 0 where
  pub buffer : Buffer
  pub encrypted : Option Buffer
  pub has_source : Bool
  pub has_destination : Bool

-- new Message(buf, enc)
unfoldable pub of_buffer : Buffer → Option Buffer → Message
of_buffer buf enc = record {
  buffer = buf;
  encrypted = enc;
  has_source = false;
  has_destination = false;
}

-- new Message(): the fixed header and the exchange header, zeroed.
unfoldable pub new_message : Message
unfolding alloc of_buffer
new_message = of_buffer (alloc (8 + 6)) none

-- A write of `k` bytes into the message's buffer.
unfoldable pub put : ℕ → Message → ℕ → ℕ → Result Message
put k m v offset = do buf ← write_le k m.buffer v offset; ok (record m { buffer = buf })

unfoldable pub message_flags : Message → Result ℕ
message_flags m = read_le 1 m.buffer 0

unfoldable pub session_id : Message → Result ℕ
session_id m = read_le 2 m.buffer 1

unfoldable pub security_flags : Message → Result ℕ
security_flags m = read_le 1 m.buffer 3

unfoldable pub message_counter : Message → Result ℕ
message_counter m = read_le 4 m.buffer 4

unfoldable pub set_message_flags : Message → ℕ → Result Message
set_message_flags m v = put 1 m v 0

unfoldable pub set_session_id : Message → ℕ → Result Message
set_session_id m v = put 2 m v 1

unfoldable pub set_security_flags : Message → ℕ → Result Message
set_security_flags m v = put 1 m v 3

unfoldable pub set_message_counter : Message → ℕ → Result Message
set_message_counter m v = put 4 m v 4

unfoldable pub version : Message → Result ℕ
version m = do flags ← message_flags m; ok (flags / 2 ^ 4)

unfoldable pub s_flag : Message → Result Bool
s_flag m = do flags ← message_flags m; ok (has_flag flags 0x04)

-- `this.MessageFlags &= mask` and then `this.MessageFlags |= v & mask`.
unfoldable pub mask_and_set : ℕ → Message → ℕ → Result Message
mask_and_set mask m v = do
  flags ← message_flags m
  m' ← set_message_flags m (bit_and flags mask)
  flags' ← message_flags m'
  set_message_flags m' (bit_or flags' (bit_and v mask))

unfoldable pub set_s_flag : Message → ℕ → Result Message
set_s_flag = mask_and_set 0x04

unfoldable pub dsiz : Message → Result ℕ
dsiz m = do flags ← message_flags m; ok (bit_and flags 0x03)

unfoldable pub set_dsiz : Message → ℕ → Result Message
set_dsiz = mask_and_set 0x03

-- `mic` and the fields below read `_encrypted`; null has no length.
unfoldable pub mic : Message → Result Buffer
mic m = elim m.encrypted [
  | none ↦ throw type_error
  | some enc ↦ ok (subarray enc (index_from_end enc 16) (length enc))
]

-- Buffer.concat([buf.subarray(0, offset), Buffer.alloc(n), buf.subarray(offset)])
unfoldable pub open_gap : Message → ℕ → ℕ → Message
open_gap m offset n = record m {
  buffer = take offset m.buffer ++ (alloc n ++ drop offset m.buffer);
}

unfoldable pub source_node_id : Message → Result ℕ
source_node_id m = do present ← s_flag m; if present then read_le 8 m.buffer 8 else ok node_id_any

unfoldable pub set_source_node_id : Message → ℕ → Result Message
unfolding open_gap
set_source_node_id m v = do
  present ← s_flag m
  if present
      then put 8 (if m.has_source then m else record (open_gap m 8 8) { has_source = true }) v 8
      else ok m

-- The header's length up to the destination.
unfoldable pub destination_offset : Message → Result ℕ
destination_offset m = do present ← s_flag m; ok (8 + (if present then 8 else 0))

-- The second test reads `this.dsiz`, a property that no message has: it fails for every value.
unfoldable pub destination_node_id : Message → Result ℕ
destination_node_id m = do
  size ← dsiz m
  offset ← destination_offset m
  if size == 1 then read_le 8 m.buffer offset else ok node_id_any

-- DSIZ 3 leaves `destBuf` undefined, and Buffer.concat throws; once there is a gap nothing is written.
unfoldable pub set_destination_node_id : Message → ℕ → Result Message
unfolding open_gap
set_destination_node_id m v = do
  offset ← destination_offset m
  size ← dsiz m
  if size == 0
      then ok m
      else if size == 1
      then put 8
          (if m.has_destination then m else record (open_gap m offset 8) { has_destination = true })
          v offset
      else if size == 2
      then put 2
          (if m.has_destination then m else record (open_gap m offset 2) { has_destination = true })
          v offset
      else if m.has_destination
      then ok m
      else throw type_error

unfoldable pub p_flag : Message → Result Bool
p_flag m = do flags ← security_flags m; ok (has_flag flags 0x80)

unfoldable pub c_flag : Message → Result Bool
c_flag m = do flags ← security_flags m; ok (has_flag flags 0x40)

unfoldable pub mx_flag : Message → Result Bool
mx_flag m = do flags ← security_flags m; ok (has_flag flags 0x20)

unfoldable pub session_type : Message → Result ℕ
session_type m = do flags ← security_flags m; ok (bit_and flags 0x03)

unfoldable pub payload_offset : Message → Result ℕ
payload_offset m = do
  offset ← destination_offset m
  size ← dsiz m
  ok (offset + (if size == 1 then 8 else if size == 2 then 2 else 0))

unfoldable pub payload : Message → Result Buffer
payload m = do offset ← payload_offset m; ok (drop offset m.buffer)

unfoldable pub exchange_flags : Message → Result ℕ
exchange_flags m = do pay ← payload m; read_le 1 pay 0

unfoldable pub protocol_opcode : Message → Result ℕ
protocol_opcode m = do pay ← payload m; read_le 1 pay 1

unfoldable pub exchange_id : Message → Result ℕ
exchange_id m = do pay ← payload m; read_le 2 pay 2

unfoldable pub protocol_id : Message → Result ℕ
protocol_id m = do pay ← payload m; read_le 2 pay 4

-- A write into the payload is a write into the buffer, behind the header.
unfoldable pub put_payload : ℕ → Message → ℕ → ℕ → Result Message
put_payload k m v i = do offset ← payload_offset m; put k m v (offset + i)

unfoldable pub set_exchange_flags : Message → ℕ → Result Message
set_exchange_flags m v = put_payload 1 m v 0

unfoldable pub set_protocol_opcode : Message → ℕ → Result Message
set_protocol_opcode m v = put_payload 1 m v 1

unfoldable pub set_exchange_id : Message → ℕ → Result Message
set_exchange_id m v = put_payload 2 m v 2

unfoldable pub set_protocol_id : Message → ℕ → Result Message
set_protocol_id m v = put_payload 2 m v 4

-- The five flags of the exchange header.
unfoldable pub exchange_flag : ℕ → Message → Result Bool
exchange_flag mask m = do flags ← exchange_flags m; ok (has_flag flags mask)

abbrev pub i_flag : Message → Result Bool
i_flag = exchange_flag 0x01

abbrev pub a_flag : Message → Result Bool
a_flag = exchange_flag 0x02

abbrev pub r_flag : Message → Result Bool
r_flag = exchange_flag 0x04

-- `|= mask` or `&= ~mask`, on a byte.
unfoldable pub set_exchange_flag : ℕ → Message → Bool → Result Message
set_exchange_flag mask m v = do
  flags ← exchange_flags m
  set_exchange_flags m (if v then bit_or flags mask else bit_and flags (255 - mask))

abbrev pub set_i_flag : Message → Bool → Result Message
set_i_flag = set_exchange_flag 0x01

abbrev pub set_a_flag : Message → Bool → Result Message
set_a_flag = set_exchange_flag 0x02

abbrev pub set_r_flag : Message → Bool → Result Message
set_r_flag = set_exchange_flag 0x04

unfoldable pub set_ack_counter : Message → ℕ → Result Message
set_ack_counter m v = do
  offset ← payload_offset m
  present ← a_flag m
  if present then put 4 (open_gap m (offset + 6) 4) v (offset + 6) else ok m

unfoldable pub is_unencrypted : Message → Result Bool
is_unencrypted m = do
  type ← session_type m
  if type == 0 then (do id ← session_id m; ok (id == 0)) else ok false

unfoldable pub app_payload : Message → Result Buffer
app_payload m = do
  acked ← a_flag m
  offset ← payload_offset m
  ok (drop (offset + (6 + (if acked then 4 else 0))) m.buffer)

unfoldable pub append_app_payload : Message → Buffer → Message
append_app_payload m v = record m { buffer = m.buffer ++ v }

unfoldable pub nonce : Message → Result Buffer
nonce m = do
  source ← source_node_id m
  MsgCodec.get_nonce m.buffer (if source == node_id_any then 0 else source)
