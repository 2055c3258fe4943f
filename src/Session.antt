-- ===== src/Session.antt =====
-- src/message/Session.js and src/message/SessionCryptoContext.js: one session's state, its keys, and
-- how it sends and decrypts. Random numbers, the clock and the key derivation are arguments; `log`
-- and trace output is left out. What a call has written before it throws is not modelled.
pub mod Send
pub mod Receive
use matternode.Prelude.{
  ℕ, zero, suc, ◌+◌, ◌-◌, ◌≤◌, Bool, true, false, not, Option, none, some, List, [], ◌∷◌,
  if◌then◌else◌, ◌==◌, take, drop, Result, ok, throw, type_error, reference_error, ◌>>=◌,
}
use matternode.Buffer.{Buffer, subarray}
use matternode.Cipher.{AesCcm}
use matternode.MsgCodec.{low_bits}
use matternode.MsgCodec
use matternode.Message.{
  Message, set_message_flags, set_security_flags, set_session_id, set_message_counter,
  is_unencrypted, i_flag, set_dsiz, set_s_flag, set_source_node_id, set_destination_node_id,
}

-- `_keys`: the initiator's, the responder's, and the attestation challenge.
pub record SessionKeys : Type 0 where
  pub i2r : Buffer
  pub r2i : Buffer
  pub attestation_challenge : Buffer

-- The keys of a context that is not initialised yet.
abbrev pub test_mode_keys : SessionKeys
test_mode_keys = record {
  i2r =
      0x5e ∷ 0xde ∷ 0xd2 ∷ 0x44 ∷ 0xe5 ∷ 0x53 ∷ 0x2b ∷ 0x3c ∷ 0xdc ∷ 0x23 ∷ 0x40 ∷ 0x9d ∷ 0xba
      ∷ 0xd0 ∷ 0x52 ∷ 0xd2 ∷ [];
  r2i =
      0xa9 ∷ 0xe0 ∷ 0x11 ∷ 0xb1 ∷ 0x73 ∷ 0x7c ∷ 0x6d ∷ 0x4b ∷ 0x70 ∷ 0xe4 ∷ 0xc0 ∷ 0xa2 ∷ 0xfe
      ∷ 0x66 ∷ 0x04 ∷ 0x76 ∷ [];
  attestation_challenge =
      0xc5 ∷ 0xae ∷ 0xad ∷ 0x0e ∷ 0x06 ∷ 0x91 ∷ 0xc4 ∷ 0x20 ∷ 0x28 ∷ 0x4c ∷ 0x95 ∷ 0x80 ∷ 0xf9
      ∷ 0x0e ∷ 0x07 ∷ 0xb0 ∷ [];
}

-- `hkdf secret len salt info` is futoin-hkdf with SHA-256.
unfoldable pub keys_from_secret :
    (Buffer → ℕ → Buffer → Buffer → Buffer) → Buffer → Buffer → Buffer → SessionKeys
keys_from_secret hkdf secret salt info =
    let session_key = hkdf secret 48 salt info in
    record {
      i2r = subarray session_key 0 16;
      r2i = subarray session_key 16 32;
      attestation_challenge = drop 32 session_key;
    }

-- `peerInfo`: the sender's address, as a number that stands for the text, and its port.
pub record PeerInfo : Type 0 where
  pub address : ℕ
  pub port : ℕ

-- The two sockets of a node that a session may send on.
pub data Transport : Type 0 where
  server client : Transport

-- `crypto_context` is undefined unless the session is secure.
pub record Session : Type 0 where
  pub local_session_id : ℕ
  pub peer_session_id : ℕ
  pub peer_node_id : Option ℕ
  pub peer_info : Option PeerInfo
  pub peer_message_counter : ℕ
  pub initiator : Bool
  pub last_activity_time_ms : ℕ
  pub secure : Bool
  pub message_counter : ℕ
  pub metric_tx_count : ℕ
  pub metric_rx_count : ℕ
  pub transport : Transport
  pub crypto_context : Option SessionKeys

-- new Session(local, peer, secure), with the number that RandomU32 gives.
unfoldable pub new_session : ℕ → ℕ → Bool → ℕ → Session
new_session local_session_id peer_session_id secure random_u32 = record {
  local_session_id = local_session_id;
  peer_session_id = peer_session_id;
  peer_node_id = none;
  peer_info = none;
  peer_message_counter = 0;
  initiator = false;
  last_activity_time_ms = 0;
  secure = secure;
  message_counter = low_bits random_u32 28 + 1;
  metric_tx_count = 0;
  metric_rx_count = 0;
  transport = server;
  crypto_context = if secure then some test_mode_keys else none;
}

unfoldable pub init_from_secret :
    (Buffer → ℕ → Buffer → Buffer → Buffer) → Session → Buffer → Buffer → Buffer → Result Session
init_from_secret hkdf s secret salt info = elim s.crypto_context [
  | none ↦ throw type_error
  | some old ↦ ok (record s { crypto_context = some (keys_from_secret hkdf secret salt info) })
]

unfoldable pub update_activity : Session → ℕ → Session
update_activity s now = record s {
  last_activity_time_ms = now;
  metric_rx_count = s.metric_rx_count + 1;
}

-- What a transport is asked to send.
pub record Datagram : Type 0 where
  pub bytes : Buffer
  pub to : PeerInfo
  pub on_socket : Transport

-- `!this.PeerNodeId`: undefined, and also 0.
abbrev pub known_peer : Option ℕ → Option ℕ
known_peer none = none
known_peer (some zero) = none
known_peer (some (suc n)) = some (suc n)

-- `_cryptoContext._keys[index]`; undefined has no keys.
abbrev pub context_of : Session → Result SessionKeys
context_of s = elim s.crypto_context [ none ↦ throw type_error | some keys ↦ ok keys ]

-- The fields that every message is sent with.
unfoldable pub stamp : Session → Message → Result Message
stamp s msg = do
  m₁ ← set_message_flags msg 0
  m₂ ← set_security_flags m₁ 0
  m₃ ← set_session_id m₂ s.peer_session_id
  set_message_counter m₃ s.message_counter

unfoldable pub counted : Session → Session
counted s = record s {
  message_counter = s.message_counter + 1;
  metric_tx_count = s.metric_tx_count + 1;
}

-- The initiator of an unsecured session gives its node id, which it may have to choose first.
unfoldable pub address_initiator : Session → Message → ℕ → Result (Session × Message)
address_initiator s msg random_u64 =
    let node : ℕ = elim (known_peer s.peer_node_id) [ none ↦ random_u64 | some n ↦ n ] in
    do
      m₁ ← set_dsiz msg 0
      m₂ ← set_s_flag m₁ 4
      m₃ ← set_source_node_id m₂ node
      ok (record s { peer_node_id = some node }, m₃)

-- The responder names its peer. Without one, the call of `log.error` meets a name that is not declared.
unfoldable pub address_responder : Session → Message → Result (Session × Message)
address_responder s msg = elim (known_peer s.peer_node_id) [
  | none ↦ throw reference_error
  | some node ↦ do
    m₁ ← set_s_flag msg 0
    m₂ ← set_dsiz m₁ 1
    m₃ ← set_destination_node_id m₂ node
    ok (s, m₃)
]

abbrev to_peer : Session → Buffer → Result Datagram
to_peer s buf = elim s.peer_info [
  | none ↦ throw type_error
  | some peer ↦ ok (record { bytes = buf; to = peer; on_socket = s.transport })
]

module _ (aes : AesCcm) where
  unfoldable pub send_message : Session → Message → ℕ → Result (Session × Message × Datagram)
  send_message s msg random_u64 = do
    stamped ← stamp s msg
    plain ← is_unencrypted stamped
    i ← i_flag stamped
    if plain
        then (do
          (s', m) ←
              (if i
                then address_initiator (counted s) stamped random_u64
                else address_responder (counted s) stamped)
          datagram ← to_peer s' m.buffer
          ok (s', m, datagram))
        else (do
          keys ← context_of s
          buf ← MsgCodec.encrypt aes stamped.buffer (if i then keys.i2r else keys.r2i)
          datagram ← to_peer s buf
          ok (counted s, record stamped { encrypted = some buf }, datagram))

  -- `none` is undefined: the message is in the clear, or its authentication failed.
  unfoldable pub decrypt_message : Session → Message → Result (Message × Option Buffer)
  decrypt_message s msg = do
    plain ← is_unencrypted msg
    if plain then ok (msg, none) else (do
      keys ← context_of s
      buf ← elim msg.encrypted [ none ↦ throw type_error | some enc ↦ ok enc ]
      dmsg ← MsgCodec.decrypt aes buf (if s.initiator then keys.r2i else keys.i2r)
      ok (elim dmsg [ none ↦ (msg, none) | some d ↦ (record msg { buffer = d }, some d) ]))
