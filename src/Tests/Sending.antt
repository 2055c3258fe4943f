-- ===== src/Tests/Sending.antt =====
-- Messages on their way out, at concrete values.
use matternode.Prelude.{◌≡◌, refl, true, false, none, some, arith, ok}
use matternode.Buffer.{Buffer}
use matternode.MsgCodec.{decrypt}
use matternode.MsgCodec.Secrecy.{decrypt-encrypt}
use matternode.Message.{
  Message, of_buffer, set_dsiz, dsiz, s_flag, version, set_s_flag, exchange_flag, set_exchange_flag,
}
use matternode.Message.Refine.{framed}
use matternode.Message.HeaderFlags.{set_dsiz_lem, set_s_flag_lem, set_exchange_flag_lem}
use matternode.Message.Packet.{packet_bytes, Shows, encode_packet, encode_packet-Shows}
use matternode.Session.{Datagram, send_message, counted, test_mode_keys}
use matternode.Session
use matternode.Session.Send.{
  stamped_packet, Sends, initiator_packet, responder_packet, send_message-initiator,
  send_message-responder,
}
use matternode.Session.Receive.{send_message-secure}
use matternode.Exchange
use matternode.Exchange.{frame_message}
use matternode.Exchange.Send.{
  exchange_packet, frame_message-framed, send_message-initiator_exchange,
}
use matternode.Tests.Data.{
  clear_cipher, home, request, request-IsDraft, request-IsRequest, answer, answer-IsDraft,
  full_packet, full_packet-IsValid, unsecured_session, secure_session, unsecured_session-CanSend,
  secure_session-CanSend, own_exchange, known_session, known_session-CanSend, sealed_bytes, seals,
  has_header,
}

encode_packet-Shows_example :
    (buf : Buffer) × (encode_packet full_packet ≡ ok buf) × Shows (of_buffer buf none) full_packet
encode_packet-Shows_example = encode_packet-Shows full_packet full_packet-IsValid

send_message-initiator_example :
    Sends unsecured_session home
      (initiator_packet unsecured_session request 5)
      (some 5)
      (Session.send_message clear_cipher unsecured_session (framed request) 5)
send_message-initiator_example =
    send_message-initiator clear_cipher unsecured_session home request request-IsDraft
      unsecured_session-CanSend 5 refl refl (omega arith)

send_message-responder_example :
    Sends known_session home
      (responder_packet known_session answer 9)
      (some 9)
      (Session.send_message clear_cipher known_session (framed answer) 5)
send_message-responder_example =
    send_message-responder clear_cipher known_session home answer answer-IsDraft
      known_session-CanSend 5 refl 9 refl refl (omega arith)

send_message-secure_example :
    Session.send_message clear_cipher secure_session (framed request) 5
    ≡ ok (
      record secure_session { message_counter = 1001; metric_tx_count = 1 },
      record (framed (stamped_packet secure_session request)) { encrypted = some sealed_bytes },
      record { bytes = sealed_bytes; to = home; on_socket = Session.server },
    )
unfolding counted
send_message-secure_example =
    send_message-secure clear_cipher secure_session home request request-IsDraft
      secure_session-CanSend (omega arith) test_mode_keys 5 sealed_bytes refl seals

frame_message-framed_example :
    frame_message own_exchange (framed request) ≡ ok (framed (exchange_packet own_exchange request))
frame_message-framed_example =
    frame_message-framed own_exchange request request-IsRequest (omega arith) (omega arith)

send_message-initiator_exchange_example :
    Sends unsecured_session home
      (initiator_packet unsecured_session (exchange_packet own_exchange request) 5)
      (some 5)
      (Exchange.send_message clear_cipher own_exchange unsecured_session (framed request) 5)
send_message-initiator_exchange_example =
    send_message-initiator_exchange own_exchange request request-IsRequest (omega arith)
      (omega arith) clear_cipher unsecured_session home 5 unsecured_session-CanSend refl refl
      (omega arith)

set_dsiz_example :
    (m : Message) × (set_dsiz (framed full_packet) 2 ≡ ok m)
    × (dsiz m ≡ ok 3)
    × (s_flag m ≡ ok false)
    × (version m ≡ ok 0)
set_dsiz_example = set_dsiz_lem full_packet 2 (omega arith) (omega arith)

set_s_flag_example :
    (m : Message) × (set_s_flag (framed full_packet) 0 ≡ ok m)
    × (s_flag m ≡ ok true)
    × (dsiz m ≡ ok 0)
    × (version m ≡ ok 0)
set_s_flag_example = set_s_flag_lem full_packet 0 (omega arith) (omega arith)

set_exchange_flag_example :
    (m : Message) × (set_exchange_flag 1 (framed full_packet) true ≡ ok m)
    × (exchange_flag 4 m ≡ ok true)
set_exchange_flag_example =
    set_exchange_flag_lem full_packet 0 2 true (omega arith)
      (record { source = refl; destination = refl }) (omega arith) (omega arith) (omega arith)

decrypt-encrypt_example :
    decrypt clear_cipher sealed_bytes test_mode_keys.i2r
    ≡ ok (some (packet_bytes (stamped_packet secure_session request)))
decrypt-encrypt_example =
    decrypt-encrypt clear_cipher (packet_bytes (stamped_packet secure_session request))
      test_mode_keys.i2r has_header sealed_bytes seals
