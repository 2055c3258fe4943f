-- ===== src/Session/Receive.antt =====
-- A secure session of src/message/Session.js to its peer and back.
use matternode.Prelude.{ℕ, ◌≡◌, ◌≢◌, refl, false, Option, some, arith, ◌==◌, if◌then◌else◌, ok}
use matternode.Buffer.{Buffer}
use matternode.Cipher.{AesCcm}
use matternode.MsgCodec.{has_flag, encrypt}
use matternode.MsgCodec.Secrecy.{decrypt-encrypt}
use matternode.Message.{
  Message, of_buffer, is_unencrypted, session_type, session_id, security_flags,
}
use matternode.Message.Parse.{header_bytes-ReadsHeader}
use matternode.Message.Packet.{Packet, packet_bytes, IsValid, Shows, Shows-packet}
use matternode.Message.Refine.{framed, is_unencrypted-framed}
use matternode.Message.Sealed.{header_size_fits, encrypt-header}
use matternode.Session.{Session, PeerInfo, SessionKeys, counted, send_message, decrypt_message}
use matternode.Session.Send.{stamped_packet, stamp-framed, i_flag-stamped, IsDraft, CanSend}

-- The key that a sender takes, by the message's I flag, and the one that a receiver takes.
abbrev pub tx_key : SessionKeys → Packet → Buffer
tx_key keys p = if has_flag p.exchange_bits 0x01 then keys.i2r else keys.r2i

abbrev pub rx_key : SessionKeys → Session → Buffer
rx_key keys s = if s.initiator then keys.r2i else keys.i2r

module _ (aes : AesCcm) (s : Session) (peer : PeerInfo) (p : Packet) (draft : IsDraft p)
    (can : CanSend s peer) (secured : s.peer_session_id ≢ 0) where
  sent_valid : IsValid (stamped_packet s p)
  sent_valid = record {
    flags_fit = omega arith;
    security_fit = omega arith;
    session_fit = can.session_fits;
    counter_fit = can.counter_fits;
    source_fit = rw draft.no_source tt;
    destination_fit = rw draft.no_destination tt;
    exchange_bits_fit = draft.exchange_bits_fit;
    exchange_fit = draft.exchange_fit;
    opcode_fit = draft.opcode_fit;
    protocol_fit = draft.protocol_fit;
    ack_fit = draft.ack_fit;
    node_ids = record { source = rw draft.no_source; destination = rw draft.no_destination };
    acked = draft.acked;
  }

  not_plain : (s.peer_session_id == 0) ≡ false
  not_plain = ground arith

  -- A draft on a session with keys and a nonzero peer id leaves encrypted under the key of its direction,
  -- to the session's address, and the session's counter goes up.
  pub send_message-secure :
      (keys : SessionKeys) (random : ℕ) (out : Buffer)
      → s.crypto_context ≡ some keys
      → encrypt aes (packet_bytes (stamped_packet s p)) (tx_key keys p) ≡ ok out
      → send_message aes s (framed p) random
        ≡ ok (
          counted s,
          record (framed (stamped_packet s p)) { encrypted = some out },
          record { bytes = out; to = peer; on_socket = s.transport },
        )
  unfolding send_message counted
  send_message-secure keys random out has_keys sealed =
      rw
        (
          stamp-framed s p can.session_fits can.counter_fits,
          is_unencrypted-framed (stamped_packet s p) refl can.session_fits,
          i_flag-stamped s p can.session_fits can.counter_fits draft.no_source draft.no_destination
              draft.exchange_bits_fit,
          not_plain,
        )
        (rw (has_keys, sealed, can.address))

  -- What the receiver reads of the header before it decrypts.
  module _ (key out : Buffer)
      (sealed : encrypt aes (packet_bytes (stamped_packet s p)) key ≡ ok out)
      (enc : Option Buffer) where
    in_the_clear :
        (security_flags (of_buffer out enc) ≡ ok 0)
        × (session_id (of_buffer out enc) ≡ ok s.peer_session_id)
    in_the_clear =
        let (rest, e) = encrypt-header aes (stamped_packet s p) sent_valid key out sealed in
        let v = sent_valid in
        let read =
          header_bytes-ReadsHeader 0 0 s.peer_session_id s.message_counter p.source p.destination
            rest enc v.flags_fit v.security_fit v.session_fit v.counter_fit v.source_fit
            v.destination_fit v.node_ids in
        rw e (read.security, read.session)

    pub session_id-received : session_id (of_buffer out enc) ≡ ok s.peer_session_id
    session_id-received = in_the_clear.1

    pub is_unencrypted-received : is_unencrypted (of_buffer out enc) ≡ ok false
    unfolding is_unencrypted session_type
    is_unencrypted-received = rw in_the_clear.0 (rw (in_the_clear.1, not_plain))

  -- What a session with a nonzero peer id stamps and encrypts, a session whose receiving key is the same
  -- decrypts to the same packet, and reads every field of it.
  pub decrypt_message-send :
      (t : Session) (keys : SessionKeys) (key out : Buffer)
      → t.crypto_context ≡ some keys
      → rx_key keys t ≡ key
      → encrypt aes (packet_bytes (stamped_packet s p)) key ≡ ok out
      → (m : Message) × (decrypt_message aes t (of_buffer out (some out))
          ≡ ok (m, some (packet_bytes (stamped_packet s p))))
        × Shows m (stamped_packet s p)
  unfolding decrypt_message of_buffer
  decrypt_message-send t keys key out has_keys same sealed = (
    of_buffer (packet_bytes (stamped_packet s p)) (some out),
    rw (is_unencrypted-received key out sealed (some out), has_keys)
        (rw (
          same,
          decrypt-encrypt aes (packet_bytes (stamped_packet s p)) key
              (header_size_fits aes (stamped_packet s p) sent_valid key) out sealed,
        )),
    Shows-packet (stamped_packet s p) sent_valid (some out),
  )
