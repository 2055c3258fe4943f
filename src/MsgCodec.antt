-- ===== src/MsgCodec.antt =====
-- src/message/MsgCodec.js: the flag bytes, the two headers, the nonce, and a message's encryption.
-- A parameter that may be null is an Option; `logger.trace` is left out.
pub mod Flags
pub mod Layout
pub mod Secrecy
use matternode.Prelude.{
  ℕ, ◌+◌, ◌*◌, ◌%◌, ◌^◌, bit_and, bit_or, Bool, true, false, not, ◌&&◌, Option, none, some, List,
  [], ◌∷◌, ◌++◌, if◌then◌else◌, ◌==◌, get_elem?, take, drop, length, ◌-◌, Result, ok, throw, ◌>>=◌,
}
use matternode.Buffer.{Buffer, alloc, read_le, write_le, subarray, index_from_end}
use matternode.Cipher.{AesCcm}

abbrev pub mtu : ℕ
mtu = 1280

abbrev pub msg_flags_src_present : ℕ
msg_flags_src_present = 0x04

abbrev pub msg_flags_dst_present : ℕ
msg_flags_dst_present = 0x01

abbrev pub msg_flags_dst_group : ℕ
msg_flags_dst_group = 0x02

abbrev pub node_id_any : ℕ
node_id_any = 0xFFFFFFFFFFFFFFFF

-- x & (2^k - 1)
abbrev pub low_bits : ℕ → ℕ → ℕ
low_bits x k = x % 2 ^ k

-- !!(flags & mask)
abbrev pub has_flag : ℕ → ℕ → Bool
has_flag flags mask = not (bit_and flags mask == 0)

unfoldable pub encode_message_flags : ℕ → ℕ → ℕ → ℕ
encode_message_flags dsiz s_flag version =
    let flags = bit_or 0 (low_bits version 4 * 2 ^ 4) in
    let flags' = bit_or flags (low_bits s_flag 1 * 2 ^ 2) in bit_or flags' (low_bits dsiz 2)

unfoldable pub encode_security_flags : ℕ → ℕ → ℕ → ℕ → ℕ
encode_security_flags session_type c_flag p_flag mx_flag =
    let flags = bit_or 0 (low_bits p_flag 1 * 2 ^ 7) in
    let flags' = bit_or flags (low_bits c_flag 1 * 2 ^ 6) in
    let flags'' = bit_or flags' (low_bits mx_flag 1 * 2 ^ 5) in
    bit_or flags'' (low_bits session_type 2)

unfoldable pub encode_exchange_flags : ℕ → ℕ → ℕ → ℕ → ℕ → ℕ
encode_exchange_flags i_flag a_flag r_flag v_flag sx_flag =
    let flags = bit_or 0 (low_bits v_flag 1 * 2 ^ 4) in
    let flags' = bit_or flags (low_bits sx_flag 1 * 2 ^ 3) in
    let flags'' = bit_or flags' (low_bits r_flag 1 * 2 ^ 2) in
    let flags''' = bit_or flags'' (low_bits a_flag 1 * 2 ^ 1) in bit_or flags''' (low_bits i_flag 1)

-- A field that is written only if the test passes and the value is not null, with the offset.
unfoldable pub write_optional : ℕ → Bool → Option ℕ → Buffer → ℕ → Result (Buffer × ℕ)
write_optional k true (some v) buf offset = do buf' ← write_le k buf v offset; ok (buf', offset + k)
write_optional k true none buf offset = ok (buf, offset)
write_optional k false _ buf offset = ok (buf, offset)

unfoldable pub encode_header : ℕ → ℕ → ℕ → ℕ → Option ℕ → Option ℕ → Result Buffer
encode_header msg_flags sec_flags session_id msg_counter src dst = do
  buf₁ ← write_le 1 (alloc mtu) msg_flags 0
  buf₂ ← write_le 2 buf₁ session_id 1
  buf₃ ← write_le 1 buf₂ sec_flags 3
  buf₄ ← write_le 4 buf₃ msg_counter 4
  (buf₅, offset₅) ← write_optional 8 (has_flag msg_flags msg_flags_src_present) src buf₄ 8
  (buf₆, offset₆) ← write_optional 8 (has_flag msg_flags msg_flags_dst_present) dst buf₅ offset₅
  ok (subarray buf₆ 0 offset₆)

unfoldable pub encode_protocol_header : ℕ → ℕ → ℕ → ℕ → Option ℕ → Option ℕ → Result Buffer
encode_protocol_header exchange_flags exchange_id opcode protocol_id vendor_id ack_msg_counter = do
  buf₁ ← write_le 1 (alloc mtu) exchange_flags 0
  buf₂ ← write_le 1 buf₁ opcode 1
  buf₃ ← write_le 2 buf₂ exchange_id 2
  buf₄ ← write_le 2 buf₃ protocol_id 4
  (buf₅, offset₅) ← write_optional 2 true vendor_id buf₄ 6
  (buf₆, offset₆) ← write_optional 4 true ack_msg_counter buf₅ offset₅
  ok (subarray buf₆ 0 offset₆)

-- msg[0], whose bits are clear where the buffer is empty.
unfoldable pub first_byte : Buffer → ℕ
first_byte [] = 0
first_byte (b ∷ bs) = b

-- Buffer.concat(list, n): cut or filled with zeros to n bytes.
unfoldable pub concat_to : ℕ → Buffer → Buffer
concat_to n buf = take n (buf ++ alloc (n - length buf))

unfoldable pub get_nonce : Buffer → ℕ → Result Buffer
unfolding first_byte
get_nonce msg src_node = do
  src ←
      (if has_flag (first_byte msg) msg_flags_src_present
        then ok (subarray msg 8 16)
        else write_le 8 (alloc 8) src_node 0)
  ok (concat_to 13 (subarray msg 3 8 ++ src))

unfoldable pub header_size : Buffer → ℕ
unfolding first_byte
header_size msg =
    let flags = first_byte msg in
    8
    + (if has_flag flags msg_flags_src_present then 8 else 0)
    + (if has_flag flags msg_flags_dst_present then 8 else 0)
    + (if has_flag flags msg_flags_dst_group then 2 else 0)

module _ (aes : AesCcm) where
  unfoldable pub encrypt : Buffer → Buffer → Result Buffer
  encrypt msg key = do
    nonce ← get_nonce msg 0
    let aad = take (header_size msg) msg
    let pay = drop (header_size msg) msg
    (encrypted, tag) ← aes.seal key nonce aad pay
    ok (aad ++ (encrypted ++ tag))

  -- `none` is the null that stands for a failed authentication.
  unfoldable pub decrypt : Buffer → Buffer → Result (Option Buffer)
  decrypt msg key = do
    nonce ← get_nonce msg 0
    let aad = take (header_size msg) msg
    let enc = subarray msg (header_size msg) (index_from_end msg 16)
    let mic = drop (index_from_end msg 16) msg
    ok (elim (aes.unseal key nonce aad enc mic) [ none ↦ none | some dmsg ↦ some (aad ++ dmsg) ])
