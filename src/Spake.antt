-- ===== src/Spake.antt =====
-- What src/protocols/session/PaseSession.js takes from outside: SPAKE2+ and PBKDF2 of the `spake2`
-- package and node:crypto, HKDF of futoin-hkdf, and the TLV structures that src/tlv writes and reads for it.
use matternode.Prelude.{ℕ, ◌<◌, ◌^◌, ◌≡◌, Bool, true, Result, ok}
use matternode.Buffer.{Buffer, ShortBuffer}

-- The keys that both sides derive.
pub record Secret : Type 0 where
  pub ka : Buffer
  pub ke : Buffer
  pub kca : Buffer
  pub kcb : Buffer

-- A side is the hashed context, the verifier and its own random scalar. `verify_hash` is whether
-- verifyHash returns; `normal_point` is decodePoint and encode.
pub record Spake : Type 0 where
  pub sha256 : Buffer → Buffer
  pub hkdf : Buffer → ℕ → Buffer → Buffer → Buffer
  pub verifier : Buffer → Buffer → ℕ → Buffer
  pub client_message : Buffer → Buffer → Buffer → Buffer
  pub server_message : Buffer → Buffer → Buffer → Buffer
  pub client_finish : Buffer → Buffer → Buffer → Buffer → Result Secret
  pub server_finish : Buffer → Buffer → Buffer → Buffer → Result Secret
  pub mac : Buffer → Buffer → Buffer
  pub mac-Short : (point key : Buffer) → ShortBuffer (mac point key)
  pub client_message-Short :
      (context verifier x : Buffer) → ShortBuffer (client_message context verifier x)
  pub server_message-Short :
      (context verifier y : Buffer) → ShortBuffer (server_message context verifier y)
  pub verify_hash : Secret → Buffer → Bool
  pub normal_point : Buffer → Result Buffer
  pub normal_point-client_message :
      (context verifier x : Buffer)
      → normal_point (client_message context verifier x) ≡ ok (client_message context verifier x)
  pub normal_point-server_message :
      (context verifier y : Buffer)
      → normal_point (server_message context verifier y) ≡ ok (server_message context verifier y)
  pub agree :
      (context verifier x y : Buffer)
      → (s : Secret) × (client_finish context verifier x (server_message context verifier y) ≡ ok s)
        × (server_finish context verifier y (client_message context verifier x) ≡ ok s)
        × (verify_hash s (mac (server_message context verifier y) s.kca) ≡ true)

-- The fields of the five messages, by the names of their templates.
pub record ParamRequest : Type 0 where
  pub initiator_random : Buffer
  pub initiator_session_id : ℕ
  pub passcode_id : ℕ

pub record ParamResponse : Type 0 where
  pub initiator_random : Buffer
  pub responder_random : Buffer
  pub responder_session_id : ℕ
  pub iterations : ℕ
  pub salt : Buffer

pub record Pake2 : Type 0 where
  pub p_b : Buffer
  pub c_b : Buffer

-- What the reader of a parameter response takes from it.
pub record ResponseParams : Type 0 where
  pub responder_session_id : ℕ
  pub iterations : ℕ
  pub salt : Buffer

-- The TLV structures of the messages: what is encoded is decoded again, for buffers and numbers whose
-- sizes four bytes can tell.
pub record PaseTlv : Type 0 where
  pub encode_param_request : ParamRequest → Buffer
  pub decode_param_request : Buffer → Result ParamRequest
  pub encode_param_response : ParamResponse → Buffer
  pub decode_param_response : Buffer → Result ResponseParams
  pub encode_point : Buffer → Buffer
  pub decode_point : Buffer → Result Buffer
  pub encode_pake2 : Pake2 → Buffer
  pub decode_pake2 : Buffer → Result Pake2
  pub param_request-Round :
      (r : ParamRequest)
      → ShortBuffer r.initiator_random
      → r.initiator_session_id < 256 ^ 4
      → r.passcode_id < 256 ^ 4
      → decode_param_request (encode_param_request r) ≡ ok r
  pub param_response-Round :
      (r : ParamResponse)
      → ShortBuffer r.initiator_random
      → ShortBuffer r.responder_random
      → r.responder_session_id < 256 ^ 4
      → r.iterations < 256 ^ 4
      → ShortBuffer r.salt
      → decode_param_response (encode_param_response r)
        ≡ ok record {
          responder_session_id = r.responder_session_id;
          iterations = r.iterations;
          salt = r.salt;
        }
  pub point-Round : (b : Buffer) → ShortBuffer b → decode_point (encode_point b) ≡ ok b
  pub pake2-Round :
      (r : Pake2) → ShortBuffer r.p_b → ShortBuffer r.c_b → decode_pake2 (encode_pake2 r) ≡ ok r
