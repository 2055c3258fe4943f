-- ===== src/Message/Sealed.antt =====
-- A packet that src/message/MsgCodec.js has encrypted.
use matternode.Prelude.{
  ℕ, ◌<◌, ◌≤◌, ◌≡◌, ap, ◌∙◌, bit_and, Bool, true, false, ◌++◌, arith, if◌then◌else◌, length,
  length-append, take, ok,
}
use matternode.Buffer.{Buffer}
use matternode.Buffer.Laws.{take_prefix}
use matternode.Cipher.{AesCcm}
use matternode.MsgCodec.{has_flag, first_byte, header_size, encrypt}
use matternode.MsgCodec.Flags.{has_flag_2, bit_and_3}
use matternode.MsgCodec.Layout.{header_bytes}
use matternode.MsgCodec.Secrecy.{encrypt-with_header}
use matternode.Message.Parse.{is_given}
use matternode.Message.Packet.{Packet, packet_bytes, IsValid, destination_bit}
use matternode.Message.ExchangeHeader.{header, offset_of, length-header}

no_group :
    (flags : ℕ) (b : Bool)
    → flags < 256
    → bit_and flags 0x03 ≡ (if b then 1 else 0)
    → has_flag flags 0x02 ≡ false
no_group flags true h e = rw (has_flag_2 flags h) (ground (arith, bit_and_3 flags h))
no_group flags false h e = rw (has_flag_2 flags h) (ground (arith, bit_and_3 flags h))

first_byte-packet_bytes : (p : Packet) → p.flags < 256 → first_byte (packet_bytes p) ≡ p.flags
unfolding first_byte packet_bytes header_bytes
first_byte-packet_bytes p h = omega arith

-- The codec and the message agree on where the header of a valid packet ends.
pub header_size-packet_bytes : (p : Packet) → IsValid p → header_size (packet_bytes p) ≡ offset_of p
unfolding header_size
header_size-packet_bytes p v =
    rw
      (
        first_byte-packet_bytes p v.flags_fit,
        v.node_ids.source,
        destination_bit p.flags p.destination v.flags_fit v.node_ids.destination,
        no_group p.flags (is_given p.destination) v.flags_fit v.node_ids.destination,
      )
      (omega arith)

module _ (aes : AesCcm) (p : Packet) (v : IsValid p) (key : Buffer) where
  pub header_size_fits : header_size (packet_bytes p) ≤ length (packet_bytes p)
  unfolding packet_bytes
  header_size_fits =
      omega (arith, header_size-packet_bytes p v, length-append (header p) _, length-header p)

  -- An encrypted packet begins with its header, as it was.
  pub encrypt-header :
      (out : Buffer)
      → encrypt aes (packet_bytes p) key ≡ ok out
      → (rest : Buffer) × (out ≡ header p ++ rest)
  encrypt-header out h =
      let (rest, e) = encrypt-with_header aes (packet_bytes p) key header_size_fits out h in
      (rest, e ∙ ap (λ t. t ++ rest) cut)
    where
      cut : take (header_size (packet_bytes p)) (packet_bytes p) ≡ header p
      cut =
          ap (λ n. take n (packet_bytes p)) (header_size-packet_bytes p v)
          ∙ unfold packet_bytes in take_prefix (offset_of p) (header p) _ (length-header p)
