-- ===== src/Message/Refine.antt =====
-- The setters of src/message/Message.js as updates of a packet's fields.
use matternode.Prelude.{
  ap, arith, ◌==◌, ℕ, ◌+◌, ◌^◌, ◌<◌, ◌≡◌, refl, bit_and, true, Option, none, some, [], ◌++◌,
  if◌then◌else◌, ok,
}
use matternode.Buffer.{Buffer, le_bytes, alloc}
use matternode.Buffer.Laws.{read_le-bytes, write_le-over, length-alloc}
use matternode.MsgCodec.{has_flag}
use matternode.MsgCodec.Layout.{header_bytes, protocol_bytes}
use matternode.Message.{
  session_id, security_flags, session_type, is_unencrypted, Message, put, new_message, open_gap,
  message_flags, set_message_flags, set_session_id, set_security_flags, set_message_counter, s_flag,
  dsiz, destination_offset, set_source_node_id, set_destination_node_id,
}
use matternode.Message.Parse.{is_given}
use matternode.Message.Packet.{Packet, packet_bytes}

-- A message that is being built, with the fields of `p`.
abbrev pub framed : Packet → Message
framed p = record {
  buffer = packet_bytes p;
  encrypted = none;
  has_source = is_given p.source;
  has_destination = is_given p.destination;
}

abbrev pub blank_packet : Packet
blank_packet = record {
  flags = 0;
  security = 0;
  session = 0;
  counter = 0;
  source = none;
  destination = none;
  exchange_bits = 0;
  exchange = 0;
  opcode = 0;
  protocol = 0;
  ack = none;
  app = [];
}

-- The constructor's message is the blank packet.
pub new_message_lem : new_message ≡ framed blank_packet
unfolding new_message packet_bytes header_bytes protocol_bytes
new_message_lem = refl

pub set_message_flags-framed :
    (p : Packet) (v : ℕ)
    → v < 256
    → set_message_flags (framed p) v ≡ ok (framed (record p { flags = v }))
unfolding set_message_flags put packet_bytes header_bytes
set_message_flags-framed p v h = rw (write_le-over 1 v 0 [] (le_bytes 1 p.flags) _ h refl refl)

pub set_session_id-framed :
    (p : Packet) (v : ℕ)
    → v < 65536
    → set_session_id (framed p) v ≡ ok (framed (record p { session = v }))
unfolding set_session_id put packet_bytes header_bytes
set_session_id-framed p v h =
    rw (write_le-over 2 v 1 (le_bytes 1 p.flags) (le_bytes 2 p.session) _ h refl refl)

pub set_security_flags-framed :
    (p : Packet) (v : ℕ)
    → v < 256
    → set_security_flags (framed p) v ≡ ok (framed (record p { security = v }))
unfolding set_security_flags put packet_bytes header_bytes
set_security_flags-framed p v h = rw (
    write_le-over 1 v 3 (le_bytes 1 p.flags ++ le_bytes 2 p.session) (le_bytes 1 p.security) _ h
      refl refl)

pub set_message_counter-framed :
    (p : Packet) (v : ℕ)
    → v < 4294967296
    → set_message_counter (framed p) v ≡ ok (framed (record p { counter = v }))
unfolding set_message_counter put packet_bytes header_bytes
set_message_counter-framed p v h = rw (
    write_le-over 4 v 4 (le_bytes 1 p.flags ++ (le_bytes 2 p.session ++ le_bytes 1 p.security))
      (le_bytes 4 p.counter) _ h refl refl)

pub message_flags-framed : (p : Packet) → p.flags < 256 → message_flags (framed p) ≡ ok p.flags
unfolding message_flags packet_bytes header_bytes
message_flags-framed p h = read_le-bytes 1 p.flags 0 [] _ h refl

pub s_flag-framed : (p : Packet) → p.flags < 256 → s_flag (framed p) ≡ ok (has_flag p.flags 0x04)
unfolding s_flag
s_flag-framed p h = rw (message_flags-framed p h)

pub session_id-framed : (p : Packet) → p.session < 65536 → session_id (framed p) ≡ ok p.session
unfolding session_id packet_bytes header_bytes
session_id-framed p h = read_le-bytes 2 p.session 1 (le_bytes 1 p.flags) _ h refl

session_type-framed : (p : Packet) → p.security ≡ 0 → session_type (framed p) ≡ ok 0
unfolding session_type security_flags packet_bytes header_bytes
session_type-framed p clear =
    rw
      (read_le-bytes 1 p.security 3 (le_bytes 1 p.flags ++ le_bytes 2 p.session) _ (omega arith)
        refl)
      (ap (λ t. ok (bit_and t 0x03)) clear)

pub is_unencrypted-framed :
    (p : Packet)
    → p.security ≡ 0
    → p.session < 65536
    → is_unencrypted (framed p) ≡ ok (p.session == 0)
unfolding is_unencrypted
is_unencrypted-framed p clear h = rw (session_type-framed p clear, session_id-framed p h)

-- The first eight bytes of a packet.
abbrev fixed : Packet → Buffer
fixed p =
    le_bytes 1 p.flags ++ (le_bytes 2 p.session ++ (le_bytes 1 p.security ++ le_bytes 4 p.counter))

-- The first call makes room for the node id, and a later one overwrites it.
pub set_source_node_id-framed :
    (p : Packet) (v : ℕ)
    → p.flags < 256
    → has_flag p.flags 0x04 ≡ true
    → v < 256 ^ 8
    → set_source_node_id (framed p) v ≡ ok (framed (record p { source = some v }))
unfolding set_source_node_id put packet_bytes header_bytes
set_source_node_id-framed p v small told h = rw (s_flag-framed p small, told) (written p.source)
  where
    written :
        (o : Option ℕ)
        → (let m = framed (record p { source = o }) in
            put 8 (if is_given o then m else record (open_gap m 8 8) { has_source = true }) v 8)
          ≡ ok (framed (record p { source = some v }))
    written none = rw (write_le-over 8 v 8 (fixed p) (alloc 8) _ h refl (length-alloc 8))
    written (some u) = rw (write_le-over 8 v 8 (fixed p) (le_bytes 8 u) _ h refl refl)

pub set_destination_node_id-framed :
    (p : Packet) (v : ℕ)
    → p.flags < 256
    → has_flag p.flags 0x04 ≡ is_given p.source
    → bit_and p.flags 0x03 ≡ 1
    → v < 256 ^ 8
    → set_destination_node_id (framed p) v ≡ ok (framed (record p { destination = some v }))
unfolding set_destination_node_id destination_offset dsiz put packet_bytes header_bytes
set_destination_node_id-framed p v small told node h =
    rw (s_flag-framed p small, told, message_flags-framed p small, node)
      (written p.source p.destination)
  where
    written :
        (o d : Option ℕ)
        → (let m = framed (record p { source = o; destination = d }) in
            let offset = 8 + (if is_given o then 8 else 0) in
            put 8
              (if is_given d then m else record (open_gap m offset 8) { has_destination = true })
              v
              offset)
          ≡ ok (framed (record p { source = o; destination = some v }))
    written none none = rw (write_le-over 8 v 8 (fixed p) (alloc 8) _ h refl (length-alloc 8))
    written none (some u) = rw (write_le-over 8 v 8 (fixed p) (le_bytes 8 u) _ h refl refl)
    written (some w) none =
        rw (write_le-over 8 v 16 (fixed p ++ le_bytes 8 w) (alloc 8) _ h refl (length-alloc 8))
    written (some w) (some u) =
        rw (write_le-over 8 v 16 (fixed p ++ le_bytes 8 w) (le_bytes 8 u) _ h refl refl)
