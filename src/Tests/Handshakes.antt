-- ===== src/Tests/Handshakes.antt =====
-- The handshake, at concrete values, with the simplest parameters that have the laws.
use matternode.Prelude.{
  ◌%◌, get_elem?, ◌≡◌, refl, true, false, none, some, [], ◌∷◌, ◌++◌, length, take, drop,
  take-append, drop-append, ◌==◌, arith, Result, ok, throw, library_error, ◌>>=◌, replicate,
}
use matternode.Buffer.{ShortBuffer, Buffer, write_le, alloc}
use matternode.Session.{Session, init_from_secret, new_session}
use matternode.Tests.Tlv.{plain_platform}
use matternode.Pase.Messages.Interface.{pase_tlv}
use matternode.Spake.{ResponseParams, Secret, Spake, ParamRequest, Pake2, PaseTlv}
use matternode.SessionManager.{get_secure_session, no_sessions, create_session}
use matternode.StatusReport.{status_payload}
use matternode.StatusReport.Fields.{status_payload_lem}
use matternode.SessionProtocol.{no_handshakes, Reaction, get_pase, on_protocol_message}
use matternode.SessionProtocol.Once.{Answered, on_protocol_message-once}
use matternode.Pase.{
  idle, await_pake2, await_pake3, responder, create, World, create_secure_session,
}
use matternode.Pase.Pake.{Draws, on_pake2, on_pake3, on_exchange_message}
use matternode.Pase.Run.{fresh, run_handshake, negotiated, with_session}
use matternode.Pase.Handshake.{run_handshake-agrees}
use matternode.Pase.Guards.{Allowed, on_exchange_message-IsTimed}
use matternode.Pase.Lookup.{run_handshake-lookup}
use matternode.Pase.Unconfirmed.{with_c_b, on_pake2_unconfirmed}

-- Both sides derive the two points, one behind the other.
abbrev derived : Buffer → Buffer → Secret
derived p_a p_b = record { ka = p_a; ke = p_a ++ p_b; kca = p_b; kcb = p_a }

-- A message of one byte at most.
abbrev first_byte : Buffer → Buffer
first_byte [] = []
first_byte (b ∷ rest) = b % 256 ∷ []

first_byte-Short : (b : Buffer) → ShortBuffer (first_byte b)
first_byte-Short [] = omega arith
first_byte-Short (b ∷ rest) = omega arith

first_byte_twice :
    (b : Buffer) → (length (first_byte (first_byte b)) == length (first_byte b)) ≡ true
first_byte_twice [] = refl
first_byte_twice (b ∷ rest) = refl

abbrev plain_spake : Spake
plain_spake = record {
  sha256 = λ b. b;
  hkdf = λ secret n salt info. secret ++ replicate n 0;
  verifier = λ passcode salt iterations. passcode;
  client_message = λ context verifier x. first_byte x;
  server_message = λ context verifier y. first_byte y;
  client_finish = λ context verifier x p_b. ok (derived (first_byte x) p_b);
  server_finish = λ context verifier y p_a. ok (derived p_a (first_byte y));
  mac = λ point key. first_byte key;
  mac-Short = λ point key. first_byte-Short key;
  client_message-Short = λ context verifier x. first_byte-Short x;
  server_message-Short = λ context verifier y. first_byte-Short y;
  verify_hash = λ s hash. length hash == length s.kca;
  normal_point = ok;
  normal_point-client_message = λ context verifier x. refl;
  normal_point-server_message = λ context verifier y. refl;
  agree = λ context verifier x y.
      (derived (first_byte x) (first_byte y), refl, refl, first_byte_twice y);
}

abbrev read_request : Buffer → Result ParamRequest
read_request (id ∷ passcode ∷ random) =
    ok record { initiator_random = random; initiator_session_id = id; passcode_id = passcode }
read_request _ = throw library_error

abbrev read_response : Buffer → Result ResponseParams
read_response (id ∷ iterations ∷ m ∷ n ∷ rest) =
    ok record { responder_session_id = id; iterations = iterations; salt = drop n (drop m rest) }
read_response _ = throw library_error

abbrev read_pake2 : Buffer → Result Pake2
read_pake2 (n ∷ rest) = ok record { p_b = take n rest; c_b = drop n rest }
read_pake2 _ = throw library_error

abbrev plain_tlv : PaseTlv
plain_tlv = record {
  encode_param_request = λ r. r.initiator_session_id ∷ r.passcode_id ∷ r.initiator_random;
  decode_param_request = read_request;
  encode_param_response = λ r.
      r.responder_session_id
      ∷ r.iterations
      ∷ length r.initiator_random
      ∷ length r.responder_random
      ∷ (r.initiator_random ++ (r.responder_random ++ r.salt));
  decode_param_response = read_response;
  encode_point = λ b. b;
  decode_point = ok;
  encode_pake2 = λ r. length r.p_b ∷ (r.p_b ++ r.c_b);
  decode_pake2 = read_pake2;
  param_request-Round = λ r random id passcode. refl;
  param_response-Round = λ r initiator responder id iterations salt.
      rw
        (
          drop-append r.initiator_random (r.responder_random ++ r.salt),
          drop-append r.responder_random r.salt,
        )
        refl;
  point-Round = λ b short. refl;
  pake2-Round = λ r p_b c_b. rw (take-append r.p_b r.c_b, drop-append r.p_b r.c_b) refl;
}

abbrev client_draws : Draws
client_draws = record {
  random_bytes = 1 ∷ 2 ∷ [];
  random_u16 = 100;
  random_u32 = 5;
  scalar = 7 ∷ [];
}

abbrev server_draws : Draws
server_draws = record {
  random_bytes = 3 ∷ 4 ∷ [];
  random_u16 = 200;
  random_u32 = 6;
  scalar = 8 ∷ 9 ∷ [];
}

run_handshake-agrees_example :
    (c s : World) × (key : Buffer) × (run_handshake plain_spake
        (pase_tlv plain_platform)
        (fresh no_sessions)
        (fresh no_sessions)
        client_draws
        server_draws
      ≡ ok (c, s))
    × (c.pase.state ≡ idle)
    × (s.pase.state ≡ idle)
    × (c.pase.timer ≡ false)
    × (s.pase.timer ≡ false)
    × (c.sessions ≡ with_session no_sessions (negotiated plain_spake.hkdf 100 200 key 5))
    × (s.sessions ≡ with_session no_sessions (negotiated plain_spake.hkdf 200 100 key 6))
run_handshake-agrees_example =
    run_handshake-agrees plain_spake (pase_tlv plain_platform) client_draws server_draws
      (omega arith) (omega arith) no_sessions no_sessions

-- A server that waits for the last message, with a secret.
abbrev waiting : World
waiting = record {
  pase = record create {
    state = await_pake3;
    timer = true;
    role = responder;
    initiator_session_id = some 100;
    responder_session_id = some 200;
    secret = some (derived (7 ∷ []) (8 ∷ 9 ∷ []));
  };
  sessions = no_sessions;
  sent = [];
}

-- The server after a confirmation that verifies.
abbrev finished : World
finished = record {
  pase = record waiting.pase { state = idle; timer = false; c_a = some (8 ∷ 9 ∷ []) };
  sessions = with_session no_sessions (negotiated plain_spake.hkdf 200 100 (7 ∷ 8 ∷ 9 ∷ []) 5);
  sent = record { opcode = 0x40; app = replicate 8 0 } ∷ [];
}

finishes :
    on_exchange_message plain_spake plain_tlv waiting 0x24 (8 ∷ 9 ∷ []) client_draws ≡ ok finished
unfolding on_exchange_message on_pake3 status_payload write_le alloc create_secure_session
    init_from_secret new_session create_session
finishes = refl

on_exchange_message-IsTimed_example :
    Allowed plain_spake plain_tlv waiting 0x24 (8 ∷ 9 ∷ []) finished
on_exchange_message-IsTimed_example =
    on_exchange_message-IsTimed plain_spake plain_tlv waiting finished (8 ∷ 9 ∷ []) client_draws
      refl 0x24 finishes

-- A client that waits for Pake2.
abbrev confirming : World
confirming = record {
  pase = record create {
    state = await_pake2;
    timer = true;
    initiator_session_id = some 100;
    responder_session_id = some 200;
    spake_client = some record { context = []; verifier = []; scalar = 7 ∷ [] };
  };
  sessions = no_sessions;
  sent = [];
}

on_pake2_unconfirmed_example :
    on_pake2 plain_spake plain_tlv confirming (1 ∷ 8 ∷ 66 ∷ []) client_draws ≡ (
      on_pake2 plain_spake plain_tlv confirming (1 ∷ 8 ∷ 7 ∷ []) client_draws >>= λ v.
      ok (with_c_b (66 ∷ []) v))
on_pake2_unconfirmed_example =
    on_pake2_unconfirmed plain_spake plain_tlv confirming (8 ∷ []) (7 ∷ []) (66 ∷ []) client_draws
      (omega arith) (omega arith) (omega arith) refl

status_payload_example :
    status_payload 1 0xAABBCCDD 5 none ≡ ok (5 ∷ 0 ∷ 0xBB ∷ 0xAA ∷ 0 ∷ 0 ∷ 0 ∷ 0 ∷ [])
status_payload_example = status_payload_lem 1 0xAABBCCDD 5 (omega arith) (omega arith) (omega arith)

on_protocol_message-once_example :
    (out : Reaction) × (on_protocol_message plain_spake plain_tlv no_handshakes no_sessions 0x20 3
        (100 ∷ 0 ∷ 1 ∷ [])
        server_draws
      ≡ ok out)
    × Answered plain_spake plain_tlv no_handshakes no_sessions 3 server_draws
        record { initiator_random = 1 ∷ []; initiator_session_id = 100; passcode_id = 0 }
        (100 ∷ 0 ∷ 1 ∷ [])
        refl
        out
    × (on_protocol_message plain_spake plain_tlv out.protocol out.sessions 0x20 3 [] server_draws
        ≡ ok record { protocol = out.protocol; sessions = out.sessions; sent = [] })
unfolding get_pase
on_protocol_message-once_example =
    on_protocol_message-once plain_spake plain_tlv no_handshakes no_sessions 3 server_draws
      record { initiator_random = 1 ∷ []; initiator_session_id = 100; passcode_id = 0 }
      (100 ∷ 0 ∷ 1 ∷ []) refl [] server_draws refl

run_handshake-lookup_example :
    (c s : World) × (t : Session) × (run_handshake plain_spake
        (pase_tlv plain_platform)
        (fresh no_sessions)
        (fresh no_sessions)
        client_draws
        server_draws
      ≡ ok (c, s))
    × (get_elem? c.sessions.secured 0 ≡ some t)
    × (t.peer_session_id ≡ 200)
    × (get_secure_session s.sessions 200 ≡ none)
run_handshake-lookup_example =
    run_handshake-lookup plain_spake (pase_tlv plain_platform) client_draws server_draws no_sessions
      no_sessions (omega arith) (omega arith) (omega arith) tt
