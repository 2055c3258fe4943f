-- ===== src/Tests/Data.antt =====
-- The packets, sessions and exchanges that the examples run on.
use matternode.Prelude.{
  ap, ap₂, sym, length, zero, ◌≤◌, ◌≡◌, refl, true, false, Option, none, some, [], ◌∷◌, replicate,
  arith, Result, ok,
}
use matternode.Buffer.{Buffer, write_le, alloc}
use matternode.Cipher.{AesCcm}
use matternode.MsgCodec.{encrypt, get_nonce, header_size}
use matternode.MsgCodec.Layout.{header_bytes, protocol_bytes}
use matternode.Message.Packet.{Packet, IsValid, packet_bytes}
use matternode.Session.{Session, PeerInfo, server, test_mode_keys}
use matternode.Session.Send.{IsDraft, CanSend, stamped_packet}
use matternode.SessionManager.{Sessions, unsecured_at}
use matternode.Exchange.{Exchange}
use matternode.Exchange.Send.{IsRequest}

-- A cipher that keeps the text and puts a tag of zeros behind it.
abbrev clear_tag : Buffer
clear_tag = replicate 16 0

abbrev opened : Buffer → Buffer → Option Buffer
opened (zero ∷ rest) text = some text
opened _ text = none

module _ {a b c d : Buffer} (h : ◌≡◌ {A = Result (Buffer × Buffer)} (ok (a, b)) (ok (c, d))) where
  pub same_text : a ≡ c
  same_text = cc

  pub same_tag : b ≡ d
  same_tag = cc

abbrev pub clear_cipher : AesCcm
clear_cipher = record {
  seal = λ key nonce aad text. ok (text, clear_tag);
  unseal = λ key nonce aad text tag. opened tag text;
  seal-sizes = λ key nonce aad text sealed tag h.
      (ap length (sym (same_text h)), ap length (sym (same_tag h)));
  unseal-seal =
      λ key nonce aad text sealed tag h. (ap₂ opened (sym (same_tag h)) (sym (same_text h)));
  seal_twice = λ key nonce aad text sealed tag h.
      (clear_tag, ap (λ b. ok (b, clear_tag)) (sym (same_text h)));
}

abbrev pub home : PeerInfo
home = record { address = 1; port = 5540 }

-- An initiator's message of exchange 7.
abbrev pub request : Packet
request = record {
  flags = 0;
  security = 0;
  session = 0;
  counter = 0;
  source = none;
  destination = none;
  exchange_bits = 1;
  exchange = 7;
  opcode = 0x20;
  protocol = 0;
  ack = none;
  app = 1 ∷ 2 ∷ 3 ∷ [];
}

abbrev pub request-IsDraft : IsDraft request
request-IsDraft = record {
  no_source = refl;
  no_destination = refl;
  exchange_bits_fit = omega arith;
  exchange_fit = omega arith;
  opcode_fit = omega arith;
  protocol_fit = omega arith;
  ack_fit = tt;
  acked = refl;
}

abbrev pub request-IsRequest : IsRequest request
request-IsRequest = record {
  blank_flags = refl;
  no_source = refl;
  no_destination = refl;
  no_ack = refl;
  session_fit = omega arith;
  opcode_fit = omega arith;
  protocol_fit = omega arith;
}

-- The same from the responder's side, with an acknowledgement.
abbrev pub answer : Packet
answer = record request { exchange_bits = 2; ack = some 900 }

abbrev pub answer-IsDraft : IsDraft answer
answer-IsDraft = record {
  no_source = refl;
  no_destination = refl;
  exchange_bits_fit = omega arith;
  exchange_fit = omega arith;
  opcode_fit = omega arith;
  protocol_fit = omega arith;
  ack_fit = omega arith;
  acked = refl;
}

-- A packet with both node ids and an acknowledgement.
abbrev pub full_packet : Packet
full_packet = record {
  flags = 5;
  security = 0x81;
  session = 0x1234;
  counter = 77;
  source = some 0x0102030405060708;
  destination = some 9;
  exchange_bits = 6;
  exchange = 0xABCD;
  opcode = 0x40;
  protocol = 1;
  ack = some 76;
  app = 0xAA ∷ 0xBB ∷ [];
}

abbrev pub full_packet-IsValid : IsValid full_packet
full_packet-IsValid = record {
  flags_fit = omega arith;
  security_fit = omega arith;
  session_fit = omega arith;
  counter_fit = omega arith;
  source_fit = omega arith;
  destination_fit = omega arith;
  exchange_bits_fit = omega arith;
  exchange_fit = omega arith;
  opcode_fit = omega arith;
  protocol_fit = omega arith;
  ack_fit = omega arith;
  node_ids = record { source = refl; destination = refl };
  acked = refl;
}

-- An unsecured session that knows where its peer is but not who.
abbrev pub unsecured_session : Session
unsecured_session = record {
  local_session_id = 0;
  peer_session_id = 0;
  peer_node_id = none;
  peer_info = some home;
  peer_message_counter = 0;
  initiator = false;
  last_activity_time_ms = 0;
  secure = false;
  message_counter = 1000;
  metric_tx_count = 0;
  metric_rx_count = 0;
  transport = server;
  crypto_context = none;
}

abbrev pub secure_session : Session
secure_session = record unsecured_session {
  local_session_id = 11;
  peer_session_id = 22;
  secure = true;
  crypto_context = some test_mode_keys;
}

-- An unsecured session whose peer has said who it is.
abbrev pub known_session : Session
known_session = record unsecured_session { peer_node_id = some 9 }

abbrev pub known_session-CanSend : CanSend known_session home
known_session-CanSend = record {
  session_fits = omega arith;
  counter_fits = omega arith;
  address = refl;
}

-- The request on the secure session, as the cipher of the examples seals it.
abbrev pub sealed_bytes : Buffer
sealed_bytes = 0 ∷ 22 ∷ 0 ∷ 0 ∷ 232 ∷ 3 ∷ 0 ∷ 0 ∷ 1 ∷ 0x20 ∷ 7 ∷ 0 ∷ 0 ∷ 0 ∷ 1 ∷ 2 ∷ 3 ∷ clear_tag

abbrev pub unsecured_session-CanSend : CanSend unsecured_session home
unsecured_session-CanSend = record {
  session_fits = omega arith;
  counter_fits = omega arith;
  address = refl;
}

abbrev pub secure_session-CanSend : CanSend secure_session home
secure_session-CanSend = record {
  session_fits = omega arith;
  counter_fits = omega arith;
  address = refl;
}

abbrev pub sessions : Sessions
sessions = record {
  secured = record secure_session { local_session_id = 22 } ∷ [];
  unsecured = unsecured_session ∷ [];
}

-- The bytes of a message in the clear: exchange 7 of node 5, counter 42.
abbrev pub received_bytes : Buffer
received_bytes =
    4 ∷ 0 ∷ 0 ∷ 0 ∷ 42 ∷ 0 ∷ 0 ∷ 0 ∷ 5 ∷ 0 ∷ 0 ∷ 0 ∷ 0 ∷ 0 ∷ 0 ∷ 0 ∷ 5 ∷ 0x20 ∷ 7 ∷ 0 ∷ 1 ∷ 0 ∷ 9
    ∷ []

abbrev pub own_exchange : Exchange
own_exchange = record {
  exchange_id = 7;
  session = unsecured_at 0;
  is_initiator = true;
  is_reliable = true;
  is_ack = true;
  ack_counter = 900;
}

-- What the cipher of the examples makes of the request on the secure session.
pub seals :
    encrypt clear_cipher (packet_bytes (stamped_packet secure_session request)) test_mode_keys.i2r
    ≡ ok sealed_bytes
unfolding encrypt get_nonce header_size packet_bytes header_bytes protocol_bytes write_le alloc
seals = refl

pub has_header :
    header_size (packet_bytes (stamped_packet secure_session request))
    ≤ length (packet_bytes (stamped_packet secure_session request))
unfolding header_size packet_bytes header_bytes protocol_bytes
has_header = omega arith
