-- ===== src/Session/Send.antt =====
-- What src/message/Session.js puts on the wire.
use matternode.Prelude.{ℕ, ◌<◌, ◌^◌, ◌≡◌, refl, true, false, Option, none, some, arith, Result, ok}
use matternode.Buffer.{Buffer}
use matternode.Cipher.{AesCcm}
use matternode.MsgCodec.{has_flag}
use matternode.Message.{
  Message, of_buffer, is_unencrypted, i_flag, exchange_flag, set_dsiz, set_s_flag,
}
use matternode.Message.Parse.{is_given, Announces}
use matternode.Message.Packet.{Packet, packet_bytes, IsValid, Shows, Shows-packet}
use matternode.MsgCodec.Layout.{Fits}
use matternode.Message.Refine.{
  framed, set_message_flags-framed, set_security_flags-framed, set_session_id-framed,
  set_message_counter-framed, is_unencrypted-framed, set_source_node_id-framed,
  set_destination_node_id-framed,
}
use matternode.Message.ExchangeHeader.{exchange_flags-framed}
use matternode.Message.HeaderFlags.{mask_and_set-framed}
use matternode.Session.{
  Session, PeerInfo, Datagram, known_peer, stamp, counted, address_initiator, address_responder,
  send_message,
}

-- The packet with the fields that a session stamps on it.
abbrev pub stamped_packet : Session → Packet → Packet
stamped_packet s p = record p {
  flags = 0;
  security = 0;
  session = s.peer_session_id;
  counter = s.message_counter;
}

module _ (s : Session) (p : Packet) (session_fits : s.peer_session_id < 65536)
    (counter_fits : s.message_counter < 4294967296) where
  pub stamp-framed : stamp s (framed p) ≡ ok (framed (stamped_packet s p))
  unfolding stamp
  stamp-framed =
      rw
        (
          set_message_flags-framed p 0 (omega arith),
          set_security_flags-framed (record p { flags = 0 }) 0 (omega arith),
          set_session_id-framed (record p { flags = 0; security = 0 }) s.peer_session_id
              session_fits,
        )
        (set_message_counter-framed
          (record p { flags = 0; security = 0; session = s.peer_session_id }) s.message_counter
          counter_fits)

  is_unencrypted-stamped :
      s.peer_session_id ≡ 0 → is_unencrypted (framed (stamped_packet s p)) ≡ ok true
  is_unencrypted-stamped e = rw (is_unencrypted-framed (stamped_packet s p) refl session_fits, e)

  -- With no node id yet, the stamped flags announce what is there.
  stamped-Announces : p.source ≡ none → p.destination ≡ none → Announces 0 p.source p.destination
  stamped-Announces a b = record { source = rw a; destination = rw b }

  pub i_flag-stamped :
      p.source ≡ none
      → p.destination ≡ none
      → p.exchange_bits < 256
      → i_flag (framed (stamped_packet s p)) ≡ ok (has_flag p.exchange_bits 0x01)
  unfolding exchange_flag
  i_flag-stamped a b h =
      rw (exchange_flags-framed (stamped_packet s p) (omega arith) (stamped-Announces a b) h)

-- The packet that an initiator sends on an unsecured session.
abbrev pub initiator_packet : Session → Packet → ℕ → Packet
initiator_packet s p node = record (stamped_packet s p) { flags = 4; source = some node }

address_initiator-framed :
    (s s₀ : Session) (p : Packet) (random node : ℕ)
    → node < 256 ^ 8
    → elim (known_peer s.peer_node_id) [ none ↦ random | some n ↦ n ] ≡ node
    → address_initiator s (framed (stamped_packet s₀ p)) random
      ≡ ok (record s { peer_node_id = some node }, framed (initiator_packet s₀ p node))
unfolding address_initiator set_dsiz set_s_flag
address_initiator-framed s s₀ p random node fits known = rw (
  known,
  mask_and_set-framed 0x03 (stamped_packet s₀ p) 0 (omega arith) (omega arith) (omega arith),
  mask_and_set-framed 0x04 (stamped_packet s₀ p) 4 (omega arith) (omega arith) (omega arith),
  set_source_node_id-framed (record (stamped_packet s₀ p) { flags = 4 }) node (omega arith) refl
      fits,
)

-- The packet that a responder sends on an unsecured session.
abbrev pub responder_packet : Session → Packet → ℕ → Packet
responder_packet s p node = record (stamped_packet s p) { flags = 1; destination = some node }

address_responder-framed :
    (s s₀ : Session) (p : Packet) (node : ℕ)
    → node < 256 ^ 8
    → known_peer s.peer_node_id ≡ some node
    → p.source ≡ none
    → address_responder s (framed (stamped_packet s₀ p))
      ≡ ok (s, framed (record (stamped_packet s₀ p) { flags = 1; destination = some node }))
unfolding address_responder set_dsiz set_s_flag
address_responder-framed s s₀ p node fits known no_source =
    rw (known, address_responder)
      (rw (
        mask_and_set-framed 0x04 (stamped_packet s₀ p) 0 (omega arith) (omega arith) (omega arith),
        mask_and_set-framed 0x03 (stamped_packet s₀ p) 1 (omega arith) (omega arith) (omega arith),
        set_destination_node_id-framed (record (stamped_packet s₀ p) { flags = 1 }) node
            (omega arith) (rw no_source) refl fits,
      ))

-- A message as an exchange hands it to its session: no node ids yet, and every value fits.
pub record IsDraft (p : Packet) : Type 0 where
  pub no_source : p.source ≡ none
  pub no_destination : p.destination ≡ none
  pub exchange_bits_fit : p.exchange_bits < 256
  pub exchange_fit : p.exchange < 65536
  pub opcode_fit : p.opcode < 256
  pub protocol_fit : p.protocol < 65536
  pub ack_fit : Fits 4 p.ack
  pub acked : has_flag p.exchange_bits 0x02 ≡ is_given p.ack

-- A session that can send: it knows an address, and its numbers fit their fields.
pub record CanSend (s : Session) (peer : PeerInfo) : Type 0 where
  pub session_fits : s.peer_session_id < 65536
  pub counter_fits : s.message_counter < 4294967296
  pub address : s.peer_info ≡ some peer

-- The node id that the initiator gives: the one it has, or a random one.
abbrev pub chosen_node : Session → ℕ → ℕ
chosen_node s random = elim (known_peer s.peer_node_id) [ none ↦ random | some n ↦ n ]

-- What reaches the transport: the bytes of a packet whose every field a receiver reads back.
pub record Sends (s : Session) (peer : PeerInfo) (q : Packet) (node : Option ℕ)
    (r : Result (Session × Message × Datagram)) : Type 0 where
  pub bytes : Buffer
  pub returned :
      r
      ≡ ok (
        record (counted s) { peer_node_id = node },
        framed q,
        record { bytes = bytes; to = peer; on_socket = s.transport },
      )
  pub read_back : Shows (of_buffer bytes none) q

module _ (aes : AesCcm) (s : Session) (peer : PeerInfo) (p : Packet) (draft : IsDraft p)
    (can : CanSend s peer) (random : ℕ) (unsecured : s.peer_session_id ≡ 0) where
  clear : is_unencrypted (framed (stamped_packet s p)) ≡ ok true
  clear = is_unencrypted-stamped s p can.session_fits can.counter_fits unsecured

  bits : i_flag (framed (stamped_packet s p)) ≡ ok (has_flag p.exchange_bits 0x01)
  bits =
      i_flag-stamped s p can.session_fits can.counter_fits draft.no_source draft.no_destination
        draft.exchange_bits_fit

  valid : {node : ℕ} → node < 256 ^ 8 → IsValid (initiator_packet s p node)
  valid fits = record {
    flags_fit = omega arith;
    security_fit = omega arith;
    session_fit = can.session_fits;
    counter_fit = can.counter_fits;
    source_fit = fits;
    destination_fit = rw draft.no_destination tt;
    exchange_bits_fit = draft.exchange_bits_fit;
    exchange_fit = draft.exchange_fit;
    opcode_fit = draft.opcode_fit;
    protocol_fit = draft.protocol_fit;
    ack_fit = draft.ack_fit;
    node_ids = record { source = refl; destination = rw draft.no_destination };
    acked = draft.acked;
  }

  valid_reply : {node : ℕ} → node < 256 ^ 8 → IsValid (responder_packet s p node)
  valid_reply fits = record {
    flags_fit = omega arith;
    security_fit = omega arith;
    session_fit = can.session_fits;
    counter_fit = can.counter_fits;
    source_fit = rw draft.no_source tt;
    destination_fit = fits;
    exchange_bits_fit = draft.exchange_bits_fit;
    exchange_fit = draft.exchange_fit;
    opcode_fit = draft.opcode_fit;
    protocol_fit = draft.protocol_fit;
    ack_fit = draft.ack_fit;
    node_ids = record { source = rw draft.no_source; destination = refl };
    acked = draft.acked;
  }

  -- On an unsecured session that knows an address, the initiator's draft is sent with the session's
  -- counter and its own node id, a random one if it had none, and a receiver reads back every field.
  pub send_message-initiator :
      has_flag p.exchange_bits 0x01 ≡ true
      → chosen_node s random < 256 ^ 8
      → Sends s peer
          (initiator_packet s p (chosen_node s random))
          (some (chosen_node s random))
          (send_message aes s (framed p) random)
  unfolding send_message counted
  send_message-initiator initiates fits = record {
    bytes = packet_bytes (initiator_packet s p (chosen_node s random));
    returned =
        rw (stamp-framed s p can.session_fits can.counter_fits, clear, bits, initiates)
          (rw (address_initiator-framed (counted s) s p random (chosen_node s random) fits refl)
            (rw can.address));
    read_back = Shows-packet (initiator_packet s p (chosen_node s random)) (valid fits) none;
  }

  -- On an unsecured session that knows an address, the responder's draft is sent with the session's
  -- counter and the node id of the peer that it has learned, and a receiver reads back every field.
  pub send_message-responder :
      (node : ℕ)
      → has_flag p.exchange_bits 0x01 ≡ false
      → known_peer s.peer_node_id ≡ some node
      → node < 256 ^ 8
      → Sends s peer
          (responder_packet s p node)
          s.peer_node_id
          (send_message aes s (framed p) random)
  unfolding send_message counted
  send_message-responder node responds known fits = record {
    bytes = packet_bytes (responder_packet s p node);
    returned =
        rw (stamp-framed s p can.session_fits can.counter_fits, clear, bits, responds)
          (rw (address_responder-framed (counted s) s p node fits known draft.no_source)
            (rw can.address));
    read_back = Shows-packet (responder_packet s p node) (valid_reply fits) none;
  }
