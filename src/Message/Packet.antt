-- ===== src/Message/Packet.antt =====
-- A whole packet: the two headers of src/message/MsgCodec.js and the application's bytes, as
-- src/message/Message.js takes it apart.
use matternode.Prelude.{
  ok-injective, drop-add, [], ◌∙◌, ℕ, ◌+◌, ◌<◌, ◌≡◌, refl, ap, bit_and, Bool, true, false, Option,
  none, some, ◌++◌, if◌then◌else◌, drop, Result, ok, ◌>>=◌, arith, ok-injective, drop-add, [], ◌∙◌,
}
use matternode.Buffer.{Buffer, le_bytes}
use matternode.Buffer.Laws.{read_le-bytes}
use matternode.MsgCodec.{has_flag, encode_header, encode_protocol_header}
use matternode.MsgCodec.Flags.{has_flag_1, bit_and_3}
use matternode.MsgCodec.Layout.{
  carried, Fits, header_bytes, protocol_bytes, encode_header_lem, encode_protocol_header_lem,
}
use matternode.Message.{
  Message, of_buffer, message_flags, session_id, security_flags, message_counter, source_node_id,
  destination_node_id, payload_offset, payload, exchange_flags, protocol_opcode, exchange_id,
  protocol_id, exchange_flag, app_payload,
}
use matternode.Message.Parse.{is_given, or_any, Announces, ReadsHeader, header_bytes-ReadsHeader}

-- The values of a packet's fields.
pub record Packet : Type 0 where
  pub flags : ℕ
  pub security : ℕ
  pub session : ℕ
  pub counter : ℕ
  pub source : Option ℕ
  pub destination : Option ℕ
  pub exchange_bits : ℕ
  pub exchange : ℕ
  pub opcode : ℕ
  pub protocol : ℕ
  pub ack : Option ℕ
  pub app : Buffer

-- Each value fits its field, and the flags tell which optional fields are there.
pub record IsValid (p : Packet) : Type 0 where
  pub flags_fit : p.flags < 256
  pub security_fit : p.security < 256
  pub session_fit : p.session < 65536
  pub counter_fit : p.counter < 4294967296
  pub source_fit : Fits 8 p.source
  pub destination_fit : Fits 8 p.destination
  pub exchange_bits_fit : p.exchange_bits < 256
  pub exchange_fit : p.exchange < 65536
  pub opcode_fit : p.opcode < 256
  pub protocol_fit : p.protocol < 65536
  pub ack_fit : Fits 4 p.ack
  pub node_ids : Announces p.flags p.source p.destination
  pub acked : has_flag p.exchange_bits 0x02 ≡ is_given p.ack

-- Every accessor of the message gives the packet's value.
pub record Shows (m : Message) (p : Packet) : Type 0 where
  pub flags : message_flags m ≡ ok p.flags
  pub security : security_flags m ≡ ok p.security
  pub session : session_id m ≡ ok p.session
  pub counter : message_counter m ≡ ok p.counter
  pub source : source_node_id m ≡ ok (or_any p.source)
  pub destination : destination_node_id m ≡ ok (or_any p.destination)
  pub exchange_bits : exchange_flags m ≡ ok p.exchange_bits
  pub exchange : exchange_id m ≡ ok p.exchange
  pub opcode : protocol_opcode m ≡ ok p.opcode
  pub protocol : protocol_id m ≡ ok p.protocol
  pub app : app_payload m ≡ ok p.app

-- The sender's two calls, with no vendor id, and the message that a receiver makes of the bytes.
abbrev pub encode_packet : Packet → Result Buffer
encode_packet p = do
  header ← encode_header p.flags p.security p.session p.counter p.source p.destination
  protocol ← encode_protocol_header p.exchange_bits p.exchange p.opcode p.protocol none p.ack
  ok (header ++ (protocol ++ p.app))

carried_given : (b : Bool) (o : Option ℕ) → b ≡ is_given o → carried b o ≡ o
carried_given true none e = refl
carried_given true (some v) e = refl
carried_given false none e = refl
carried_given false (some v) e = cc

pub destination_bit :
    (flags : ℕ) (dst : Option ℕ)
    → flags < 256
    → bit_and flags 0x03 ≡ (if is_given dst then 1 else 0)
    → has_flag flags 0x01 ≡ is_given dst
destination_bit flags none h e = rw (has_flag_1 flags h) (ground (arith, bit_and_3 flags h))
destination_bit flags (some v) h e = rw (has_flag_1 flags h) (ground (arith, bit_and_3 flags h))

-- The exchange header, read off the payload of any message.
module _ (m : Message) (e i o p : ℕ) (ack : Option ℕ) (app : Buffer) (he : e < 256) (hi : i < 65536)
    (ho : o < 256) (hp : p < 65536)
    (carries : payload m ≡ ok (protocol_bytes e i o p none ack ++ app)) where
  exchange_flags-carried : exchange_flags m ≡ ok e
  unfolding exchange_flags protocol_bytes
  exchange_flags-carried = rw carries (read_le-bytes 1 e 0 [] _ he refl)

  protocol_opcode-carried : protocol_opcode m ≡ ok o
  unfolding protocol_opcode protocol_bytes
  protocol_opcode-carried = rw carries (read_le-bytes 1 o 1 (le_bytes 1 e) _ ho refl)

  exchange_id-carried : exchange_id m ≡ ok i
  unfolding exchange_id protocol_bytes
  exchange_id-carried = rw carries (read_le-bytes 2 i 2 (le_bytes 1 e ++ le_bytes 1 o) _ hi refl)

  protocol_id-carried : protocol_id m ≡ ok p
  unfolding protocol_id protocol_bytes
  protocol_id-carried =
      rw carries (read_le-bytes 2 p 4 (le_bytes 1 e ++ (le_bytes 1 o ++ le_bytes 2 i)) _ hp refl)

  app_payload-carried :
      (offset : ℕ)
      → payload_offset m ≡ ok offset
      → has_flag e 0x02 ≡ is_given ack
      → app_payload m ≡ ok app
  unfolding app_payload exchange_flag payload
  app_payload-carried offset at acked =
      rw (exchange_flags-carried, at, acked)
        (ap ok (
          drop-add offset (6 + (if is_given ack then 4 else 0)) m.buffer
          ∙ ap (drop (6 + (if is_given ack then 4 else 0))) behind
          ∙ cut ack))
    where
      behind : drop offset m.buffer ≡ protocol_bytes e i o p none ack ++ app
      behind = ok-injective (rw at at carries)

      cut :
          (a : Option ℕ)
          → drop (6 + (if is_given a then 4 else 0)) (protocol_bytes e i o p none a ++ app) ≡ app
      cut none = unfold protocol_bytes in refl
      cut (some v) = unfold protocol_bytes in refl

unfoldable pub packet_bytes : Packet → Buffer
packet_bytes p =
    header_bytes p.flags p.security p.session p.counter p.source p.destination
    ++ (protocol_bytes p.exchange_bits p.exchange p.opcode p.protocol none p.ack ++ p.app)

module _ (p : Packet) (v : IsValid p) where
  encode_packet_lem : encode_packet p ≡ ok (packet_bytes p)
  unfolding packet_bytes
  encode_packet_lem =
      rw
        (encode_header_lem p.flags p.security p.session p.counter p.source p.destination v.flags_fit
          v.security_fit v.session_fit v.counter_fit v.source_fit v.destination_fit)
        (rw (
          carried_given (has_flag p.flags 0x04) p.source v.node_ids.source,
          carried_given (has_flag p.flags 0x01) p.destination
              (destination_bit p.flags p.destination v.flags_fit v.node_ids.destination),
          encode_protocol_header_lem p.exchange_bits p.exchange p.opcode p.protocol none p.ack
              v.exchange_bits_fit v.exchange_fit v.opcode_fit v.protocol_fit tt v.ack_fit,
        ))

  header_read :
      (enc : Option Buffer)
      → ReadsHeader
          (of_buffer (packet_bytes p) enc)
          p.flags
          p.security
          p.session
          p.counter
          p.source
          p.destination
          (protocol_bytes p.exchange_bits p.exchange p.opcode p.protocol none p.ack ++ p.app)
  unfolding packet_bytes
  header_read enc =
      header_bytes-ReadsHeader p.flags p.security p.session p.counter p.source p.destination _ enc
        v.flags_fit v.security_fit v.session_fit v.counter_fit v.source_fit v.destination_fit
        v.node_ids

  pub Shows-packet : (enc : Option Buffer) → Shows (of_buffer (packet_bytes p) enc) p
  Shows-packet enc = record {
    flags = (header_read enc).flags;
    security = (header_read enc).security;
    session = (header_read enc).session;
    counter = (header_read enc).counter;
    source = (header_read enc).source;
    destination = (header_read enc).destination;
    exchange_bits = exchange_flags-carried m e i o q a app he hi ho hq (header_read enc).behind;
    exchange = exchange_id-carried m e i o q a app he hi ho hq (header_read enc).behind;
    opcode = protocol_opcode-carried m e i o q a app he hi ho hq (header_read enc).behind;
    protocol = protocol_id-carried m e i o q a app he hi ho hq (header_read enc).behind;
    app =
        app_payload-carried m e i o q a app he hi ho hq (header_read enc).behind _
          (header_read enc).offset v.acked;
  }
    where
      open p use {exchange_bits as e, exchange as i, opcode as o, protocol as q, ack as a, app}
      open v use {exchange_bits_fit as he, exchange_fit as hi, opcode_fit as ho, protocol_fit as hq}

      m : Message
      m = of_buffer (packet_bytes p) enc

  -- The codec encodes every packet whose values fit their fields and whose flags announce the fields
  -- that are there, and the accessors of the message made of those bytes give every field back.
  pub encode_packet-Shows :
      (buf : Buffer) × (encode_packet p ≡ ok buf) × Shows (of_buffer buf none) p
  encode_packet-Shows = (packet_bytes p, encode_packet_lem, Shows-packet none)
