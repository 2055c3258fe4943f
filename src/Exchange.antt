-- ===== src/Exchange.antt =====
-- src/message/Exchange.js: the state of one exchange, when a message belongs to it, and how it sends.
-- An exchange holds a reference to its session; `sendMessage` is given that session's state. The
-- fields that nothing reads (`_exchangeAcl`, `_dispatch`, `_responseTimeout`) are left out.
pub mod Send
use matternode.Prelude.{
  ℕ, Bool, true, false, not, ◌&&◌, ◌||◌, Option, none, some, if◌then◌else◌, ◌==◌, beq, Result, ok,
  ◌>>=◌,
}
use matternode.Cipher.{AesCcm}
use matternode.Message.{
  Message, new_message, session_id, set_exchange_id, set_exchange_flags, set_i_flag, set_r_flag,
  set_a_flag, set_ack_counter,
}
use matternode.Session.{Session, Datagram}
use matternode.Session
use matternode.SessionManager.{SessionRef, secure_at, unsecured_at}

pub record Exchange : Type 0 where
  pub exchange_id : ℕ
  pub session : SessionRef
  pub is_initiator : Bool
  pub is_reliable : Bool
  pub is_ack : Bool
  pub ack_counter : ℕ

-- new Exchange(id, session, isInitiator)
unfoldable pub new_exchange_object : ℕ → SessionRef → Bool → Exchange
new_exchange_object id session is_initiator = record {
  exchange_id = id;
  session = session;
  is_initiator = is_initiator;
  is_reliable = false;
  is_ack = false;
  ack_counter = 0;
}

-- `===` on session objects.
abbrev pub same_ref : SessionRef → SessionRef → Bool
same_ref (secure_at i) (secure_at j) = i == j
same_ref (unsecured_at i) (unsecured_at j) = i == j
same_ref _ _ = false

-- What `match` reads of a message.
pub record Incoming : Type 0 where
  pub session_id : ℕ
  pub exchange_id : ℕ
  pub i_flag : Bool

-- `local` is the LocalSessionId of the exchange's own session.
unfoldable pub match : Exchange → ℕ → SessionRef → Incoming → Bool
match ex local session msg =
    (msg.exchange_id == ex.exchange_id)
    && (msg.session_id == local)
    && not (beq msg.i_flag ex.is_initiator)
    && same_ref session ex.session

-- The exchange header that every message of the exchange carries.
unfoldable pub frame_message : Exchange → Message → Result Message
frame_message ex msg = do
  m₁ ← set_exchange_id msg ex.exchange_id
  m₂ ← set_exchange_flags m₁ 0
  m₃ ← set_i_flag m₂ ex.is_initiator
  m₄ ← set_r_flag m₃ ex.is_reliable
  if ex.is_ack then (do m₅ ← set_a_flag m₄ true; set_ack_counter m₅ ex.ack_counter) else ok m₄

-- The standalone acknowledgement.
unfoldable pub ack_message : Exchange → Result Message
ack_message ex = do
  m₁ ← set_exchange_id new_message ex.exchange_id
  m₂ ← set_exchange_flags m₁ 0
  m₃ ← set_a_flag m₂ true
  m₄ ← set_ack_counter m₃ ex.ack_counter
  set_i_flag m₄ ex.is_initiator

module _ (aes : AesCcm) where
  -- The trace reads the session id before the session sends.
  unfoldable pub send_message :
      Exchange → Session → Message → ℕ → Result (Session × Message × Datagram)
  send_message ex s msg random_u64 = do
    framed ← frame_message ex msg
    id ← session_id framed
    Session.send_message aes s framed random_u64

  unfoldable pub send_ack : Exchange → Session → ℕ → Result (Session × Message × Datagram)
  send_ack ex s random_u64 = do ack ← ack_message ex; Session.send_message aes s ack random_u64
