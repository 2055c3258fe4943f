-- ===== src/Pase.antt =====
-- src/protocols/session/PaseSession.js: the state of one handshake and its message handlers. A handler
-- is given the random bytes that it draws and runs to its end, its awaits included; the messages that it
-- sends on its exchange are part of the result, as is the session manager's table.
pub mod Pake
pub mod Run
pub mod Handshake
pub mod Guards
pub mod Unconfirmed
pub mod Lookup
pub mod Messages
use matternode.Prelude.{
  ℕ, Bool, true, false, Option, none, some, List, [], ◌∷◌, ◌++◌, if◌then◌else◌, ◌==◌, Result, ok,
  throw, type_error, ◌>>=◌,
}
use matternode.Buffer.{Buffer, le_bytes}
use matternode.Spake.{Secret, Spake, ParamRequest, ParamResponse, Pake2, PaseTlv}
use matternode.StatusReport.{status_payload, success, secure_channel, session_establishment_success}
use matternode.Session.{Session, init_from_secret, new_session}
use matternode.SessionManager.{Sessions, SessionRef, create_session, update_session}

pub data State : Type 0 where
  idle await_pbkdf_param_rsp await_pake1 await_pake2 await_pake3 : State

abbrev pub is_idle : State → Bool
is_idle idle = true
is_idle _ = false

pub data Role : Type 0 where
  initiator responder : Role

-- Buffer.from("CHIP PAKE V1 Commissioning")
abbrev pub pase_context_salt : Buffer
pase_context_salt =
    67 ∷ 72 ∷ 73 ∷ 80 ∷ 32 ∷ 80 ∷ 65 ∷ 75 ∷ 69 ∷ 32 ∷ 86 ∷ 49 ∷ 32 ∷ 67 ∷ 111 ∷ 109 ∷ 109 ∷ 105
    ∷ 115 ∷ 115 ∷ 105 ∷ 111 ∷ 110 ∷ 105 ∷ 110 ∷ 103 ∷ []

-- Buffer.from("SPAKE2P Key Salt")
abbrev pub default_salt : Buffer
default_salt =
    83 ∷ 80 ∷ 65 ∷ 75 ∷ 69 ∷ 50 ∷ 80 ∷ 32 ∷ 75 ∷ 101 ∷ 121 ∷ 32 ∷ 83 ∷ 97 ∷ 108 ∷ 116 ∷ []

-- Buffer.from("SessionKeys")
abbrev pub session_keys_info : Buffer
session_keys_info = 83 ∷ 101 ∷ 115 ∷ 115 ∷ 105 ∷ 111 ∷ 110 ∷ 75 ∷ 101 ∷ 121 ∷ 115 ∷ []

-- The SPAKE2+ client that waits for the server's point: its context, verifier and scalar.
pub record Client : Type 0 where
  pub context : Buffer
  pub verifier : Buffer
  pub scalar : Buffer

-- `timer` is whether the response timeout is armed; `is_ack` and `is_reliable` are what the handshake has
-- turned on for its exchange.
pub record Pase : Type 0 where
  pub state : State
  pub timer : Bool
  pub role : Role
  pub paircode : ℕ
  pub iterations : ℕ
  pub salt : Buffer
  pub initiator_random : Option Buffer
  pub initiator_session_id : Option ℕ
  pub passcode_id : Option ℕ
  pub responder_random : Option Buffer
  pub responder_session_id : Option ℕ
  pub p_a : Option Buffer
  pub p_b : Option Buffer
  pub c_a : Option Buffer
  pub c_b : Option Buffer
  pub pbkdf_request : Option Buffer
  pub pbkdf_response : Option Buffer
  pub spake_client : Option Client
  pub secret : Option Secret
  pub is_ack : Bool
  pub is_reliable : Bool

-- PaseSession.create
abbrev pub create : Pase
create = record {
  state = idle;
  timer = false;
  role = initiator;
  paircode = 20202021;
  iterations = 1000;
  salt = default_salt;
  initiator_random = none;
  initiator_session_id = none;
  passcode_id = none;
  responder_random = none;
  responder_session_id = none;
  p_a = none;
  p_b = none;
  c_a = none;
  c_b = none;
  pbkdf_request = none;
  pbkdf_response = none;
  spake_client = none;
  secret = none;
  is_ack = false;
  is_reliable = true;
}

-- A message that is sent, with the protocol id of the secure channel.
pub record Sent : Type 0 where
  pub opcode : ℕ
  pub app : Buffer

-- The handshake, the session tables and what was sent.
pub record World : Type 0 where
  pub pase : Pase
  pub sessions : Sessions
  pub sent : List Sent

unfoldable pub send : World → ℕ → Buffer → World
send w opcode app = record w { sent = w.sent ++ record { opcode = opcode; app = app } ∷ [] }

-- The timeout runs while an answer is awaited.
unfoldable pub set_state : State → Pase → Pase
set_state idle p = record p { state = idle; timer = false }
set_state s p = record p { state = s; timer = true }

-- The callback of the timeout.
unfoldable pub on_timeout : Pase → Pase
unfolding set_state
on_timeout p = if p.timer then set_state idle p else p

-- A property of undefined.
abbrev pub need {ℓ} : {A : Type ℓ} → Option A → Result A
need none = throw type_error
need (some a) = ok a

module _ (spake : Spake) where
  unfoldable pub generate_verifier : Pase → Buffer
  generate_verifier p = spake.verifier (le_bytes 4 p.paircode) p.salt p.iterations

  unfoldable pub compute_context : Pase → Result Buffer
  compute_context p = do
    request ← need p.pbkdf_request
    response ← need p.pbkdf_response
    ok (spake.sha256 (pase_context_salt ++ (request ++ response)))

-- A side's own session id and its peer's.
abbrev pub local_and_peer : Role → ℕ → ℕ → ℕ × ℕ
local_and_peer initiator initiators responders = (initiators, responders)
local_and_peer responder initiators responders = (responders, initiators)

-- The new session has the ids of the two sides, its own first, and the negotiated keys.
unfoldable pub create_secure_session :
    (Buffer → ℕ → Buffer → Buffer → Buffer) → World → ℕ → Result World
create_secure_session hkdf w random_u32 = do
  initiators ← need w.pase.initiator_session_id
  responders ← need w.pase.responder_session_id
  secret ← need w.pase.secret
  let (local, peer) = local_and_peer w.pase.role initiators responders
  let (sessions, r) = create_session w.sessions local peer true random_u32
  s ← init_from_secret hkdf (new_session local peer true random_u32) secret.ke [] session_keys_info
  ok (record w { sessions = update_session sessions r s })

module _ (tlv : PaseTlv) where
  unfoldable pub send_pbkdf_param_request : World → Buffer → ℕ → World
  unfolding set_state send
  send_pbkdf_param_request w random_bytes random_u16 =
      let payload = tlv.encode_param_request record {
        initiator_random = random_bytes;
        initiator_session_id = random_u16;
        passcode_id = 0;
      } in
      let p = record w.pase {
        role = initiator;
        initiator_session_id = some random_u16;
        initiator_random = some random_bytes;
        passcode_id = some 0;
        pbkdf_request = some payload;
      } in
      send (record w { pase = set_state await_pbkdf_param_rsp p }) 0x20 payload

  unfoldable pub start_pase : World → Buffer → ℕ → World
  unfolding send_pbkdf_param_request
  start_pase w random_bytes random_u16 =
      if is_idle w.pase.state then send_pbkdf_param_request w random_bytes random_u16 else w

  -- The salt that is sent is the constructor's, whatever generateVerifier has taken since.
  unfoldable pub send_pbkdf_param_response : World → Buffer → ℕ → Result World
  unfolding set_state send
  send_pbkdf_param_response w random_bytes random_u16 = do
    initiators ← need w.pase.initiator_random
    let payload = tlv.encode_param_response record {
      initiator_random = initiators;
      responder_random = random_bytes;
      responder_session_id = random_u16;
      iterations = w.pase.iterations;
      salt = default_salt;
    }
    let p = record w.pase {
      responder_random = some random_bytes;
      responder_session_id = some random_u16;
      pbkdf_response = some payload;
    }
    ok (send (record w { pase = set_state await_pake1 p }) 0x21 payload)

  unfoldable pub on_pbkdf_param_request : World → Buffer → Buffer → ℕ → Result World
  on_pbkdf_param_request w app random_bytes random_u16 =
      if is_idle w.pase.state
      then (do
        r ← tlv.decode_param_request app
        let p = record w.pase {
          initiator_random = some r.initiator_random;
          initiator_session_id = some r.initiator_session_id;
          passcode_id = some r.passcode_id;
          role = responder;
          pbkdf_request = some app;
        }
        send_pbkdf_param_response (record w { pase = p }) random_bytes random_u16)
      else ok w
