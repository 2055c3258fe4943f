-- ===== src/Pase/Pake.antt =====
-- src/protocols/session/PaseSession.js: the SPAKE2+ messages, and the dispatch on the opcode.
use matternode.Prelude.{
  ℕ, Bool, true, false, none, some, if◌then◌else◌, ◌==◌, Result, ok, throw, library_error, ◌>>=◌,
}
use matternode.Buffer.{Buffer}
use matternode.Spake.{Spake, Pake2, PaseTlv}
use matternode.StatusReport.{status_payload, success, secure_channel, session_establishment_success}
use matternode.Pase.{
  State, idle, await_pake1, await_pake2, await_pake3, Client, World, send, set_state, need,
  generate_verifier, compute_context, create_secure_session, on_pbkdf_param_request,
}

abbrev pub awaits_pake1 : State → Bool
awaits_pake1 await_pake1 = true
awaits_pake1 _ = false

abbrev pub awaits_pake2 : State → Bool
awaits_pake2 await_pake2 = true
awaits_pake2 _ = false

abbrev pub awaits_pake3 : State → Bool
awaits_pake3 await_pake3 = true
awaits_pake3 _ = false

-- The numbers that a handler may draw.
pub record Draws : Type 0 where
  pub random_bytes : Buffer
  pub random_u16 : ℕ
  pub random_u32 : ℕ
  pub scalar : Buffer

module _ (spake : Spake) (tlv : PaseTlv) where
  unfoldable pub send_pake1 : World → Buffer → World
  unfolding set_state send
  send_pake1 w p_a =
      send (record w { pase = record (set_state await_pake2 w.pase) { is_ack = true } }) 0x22
        (tlv.encode_point p_a)

  -- No state is asked for.
  unfoldable pub on_pbkdf_param_response : World → Buffer → Draws → Result World
  unfolding generate_verifier send_pake1
  on_pbkdf_param_response w app draws = do
    r ← tlv.decode_param_response app
    let p = record w.pase {
      pbkdf_response = some app;
      responder_session_id = some r.responder_session_id;
      iterations = r.iterations;
      salt = r.salt;
    }
    context ← compute_context spake p
    let verifier = generate_verifier spake p
    p_a ← spake.normal_point (spake.client_message context verifier draws.scalar)
    let client : Client = record { context = context; verifier = verifier; scalar = draws.scalar }
    ok (
        send_pake1 (record w { pase = record p { spake_client = some client; p_a = some p_a } })
          p_a)

  unfoldable pub send_pake2 : World → Pake2 → World
  unfolding set_state send
  send_pake2 w m = send (record w { pase = set_state await_pake3 w.pase }) 0x23 (tlv.encode_pake2 m)

  unfoldable pub on_pake1 : World → Buffer → Draws → Result World
  unfolding generate_verifier send_pake2
  on_pake1 w app draws =
      if awaits_pake1 w.pase.state
      then (do
        p_a ← tlv.decode_point app
        context ← compute_context spake w.pase
        let verifier = generate_verifier spake w.pase
        p_b ← spake.normal_point (spake.server_message context verifier draws.scalar)
        secret ← spake.server_finish context verifier draws.scalar p_a
        let c_b = spake.mac p_a secret.kcb
        let p = record w.pase {
          p_a = some p_a;
          p_b = some p_b;
          c_b = some c_b;
          secret = some secret;
        }
        ok (send_pake2 (record w { pase = p }) record { p_b = p_b; c_b = c_b }))
      else ok w

  unfoldable pub send_pake3 : World → Buffer → Draws → Result World
  unfolding set_state send
  send_pake3 w c_a draws =
      create_secure_session spake.hkdf
        (send (record w { pase = set_state idle w.pase }) 0x24 (tlv.encode_point c_a))
        draws.random_u32

  -- The server's confirmation is kept, and compared with nothing.
  unfoldable pub on_pake2 : World → Buffer → Draws → Result World
  on_pake2 w app draws =
      if awaits_pake2 w.pase.state
      then (do
        m ← tlv.decode_pake2 app
        client ← need w.pase.spake_client
        secret ← spake.client_finish client.context client.verifier client.scalar m.p_b
        let c_a = spake.mac m.p_b secret.kca
        let p = record w.pase {
          p_b = some m.p_b;
          c_b = some m.c_b;
          secret = some secret;
          c_a = some c_a;
        }
        send_pake3 (record w { pase = p }) c_a draws)
      else ok w

  unfoldable pub on_pake3 : World → Buffer → Draws → Result World
  unfolding set_state send
  on_pake3 w app draws =
      if awaits_pake3 w.pase.state
      then (do
        c_a ← tlv.decode_point app
        secret ← need w.pase.secret
        if spake.verify_hash secret c_a
            then (do
              report ← status_payload success secure_channel session_establishment_success none
              done ←
                  create_secure_session spake.hkdf
                    (send (record w { pase = record w.pase { c_a = some c_a } }) 0x40 report)
                    draws.random_u32
              ok (record done { pase = set_state idle done.pase }))
            else throw library_error)
      else ok w

  -- onExchangeMessage: PakeError and other opcodes do nothing.
  unfoldable pub on_exchange_message : World → ℕ → Buffer → Draws → Result World
  on_exchange_message w opcode app draws =
      if opcode == 0x20
      then on_pbkdf_param_request tlv w app draws.random_bytes draws.random_u16
      else if opcode == 0x21
      then on_pbkdf_param_response w app draws
      else if opcode == 0x22
      then on_pake1 w app draws
      else if opcode == 0x23
      then on_pake2 w app draws
      else if opcode == 0x24
      then on_pake3 w app draws
      else ok w
