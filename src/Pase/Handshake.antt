-- ===== src/Pase/Handshake.antt =====
-- The whole handshake of src/protocols/session/PaseSession.js between two nodes.
use matternode.Prelude.{◌<◌, arith, ◌≡◌, refl, ap, true, false, some, [], ◌∷◌, ◌++◌, ok}
use matternode.Buffer.{ShortBuffer, Buffer, le_bytes, write_le, alloc}
use matternode.Spake.{Secret, Spake, ParamRequest, ParamResponse, PaseTlv}
use matternode.StatusReport.{status_payload}
use matternode.SessionManager.{Sessions}
use matternode.Pase.{
  idle, await_pbkdf_param_rsp, await_pake1, await_pake2, await_pake3, initiator, responder, Pase,
  create, World, send, set_state, generate_verifier, compute_context, start_pase,
  send_pbkdf_param_request, on_pbkdf_param_request, send_pbkdf_param_response, pase_context_salt,
  default_salt,
}
use matternode.Pase.Pake.{
  Draws, send_pake1, on_pbkdf_param_response, send_pake2, on_pake1, send_pake3, on_pake2, on_pake3,
  on_exchange_message,
}
use matternode.Pase.Run.{run_handshake, fresh, negotiated, with_session, create_secure_session_lem}

-- The random bytes are bytes, and the session id is one of 16 bits.
abbrev pub IsDrawn : Draws → Type 0
IsDrawn d = ShortBuffer d.random_bytes × (d.random_u16 < 65536)

default_salt-Short : ShortBuffer default_salt
default_salt-Short = omega arith

module _ (spake : Spake) (tlv : PaseTlv) (dc ds : Draws) (hc : IsDrawn dc) (hs : IsDrawn ds)
    (cs ss : Sessions) where
  abbrev request : ParamRequest
  request = record {
    initiator_random = dc.random_bytes;
    initiator_session_id = dc.random_u16;
    passcode_id = 0;
  }

  abbrev response : ParamResponse
  response = record {
    initiator_random = dc.random_bytes;
    responder_random = ds.random_bytes;
    responder_session_id = ds.random_u16;
    iterations = 1000;
    salt = default_salt;
  }

  abbrev q : Buffer
  q = tlv.encode_param_request request

  abbrev r : Buffer
  r = tlv.encode_param_response response

  abbrev context : Buffer
  context = spake.sha256 (pase_context_salt ++ (q ++ r))

  abbrev verifier : Buffer
  verifier = spake.verifier (le_bytes 4 20202021) default_salt 1000

  abbrev p_a : Buffer
  p_a = spake.client_message context verifier dc.scalar

  abbrev p_b : Buffer
  p_b = spake.server_message context verifier ds.scalar

  abbrev secret : Secret
  secret = (spake.agree context verifier dc.scalar ds.scalar).0

  abbrev c_b : Buffer
  c_b = spake.mac p_a secret.kcb

  abbrev c_a : Buffer
  c_a = spake.mac p_b secret.kca

  abbrev client₁ : Pase
  client₁ = record create {
    state = await_pbkdf_param_rsp;
    timer = true;
    initiator_session_id = some dc.random_u16;
    initiator_random = some dc.random_bytes;
    passcode_id = some 0;
    pbkdf_request = some q;
  }

  abbrev server₁ : Pase
  server₁ = record create {
    state = await_pake1;
    timer = true;
    role = responder;
    initiator_random = some dc.random_bytes;
    initiator_session_id = some dc.random_u16;
    passcode_id = some 0;
    responder_random = some ds.random_bytes;
    responder_session_id = some ds.random_u16;
    pbkdf_request = some q;
    pbkdf_response = some r;
  }

  abbrev client₂ : Pase
  client₂ = record client₁ {
    state = await_pake2;
    is_ack = true;
    pbkdf_response = some r;
    responder_session_id = some ds.random_u16;
    spake_client = some record { context = context; verifier = verifier; scalar = dc.scalar };
    p_a = some p_a;
  }

  abbrev server₂ : Pase
  server₂ = record server₁ {
    state = await_pake3;
    p_a = some p_a;
    p_b = some p_b;
    c_b = some c_b;
    secret = some secret;
  }

  abbrev client₃ : Pase
  client₃ = record client₂ {
    state = idle;
    timer = false;
    p_b = some p_b;
    c_b = some c_b;
    secret = some secret;
    c_a = some c_a;
  }

  abbrev server₃ : Pase
  server₃ = record server₂ { state = idle; timer = false; c_a = some c_a }

  on_request :
      (w : World)
      → w.pase ≡ create
      → on_exchange_message spake tlv w 0x20 q ds ≡ ok (send (record w { pase = server₁ }) 0x21 r)
  unfolding on_exchange_message on_pbkdf_param_request send_pbkdf_param_response set_state
  on_request w e = rw (e, tlv.param_request-Round request hc.0 (omega arith) (omega arith)) refl

  on_response :
      (w : World)
      → w.pase ≡ client₁
      → on_exchange_message spake tlv w 0x21 r dc
        ≡ ok (send (record w { pase = client₂ }) 0x22 (tlv.encode_point p_a))
  unfolding on_exchange_message on_pbkdf_param_response compute_context generate_verifier send_pake1
      set_state
  on_response w e =
      rw
        (
          e,
          tlv.param_response-Round response hc.0 hs.0 (omega arith) (omega arith)
              default_salt-Short,
          spake.normal_point-client_message context verifier dc.scalar,
        )
        refl

  finishes :
      (spake.client_finish context verifier dc.scalar p_b ≡ ok secret)
      × (spake.server_finish context verifier ds.scalar p_a ≡ ok secret)
      × (spake.verify_hash secret c_a ≡ true)
  finishes = let g = spake.agree context verifier dc.scalar ds.scalar in (g.1, g.2, g.3)

  on_point :
      (w : World)
      → w.pase ≡ server₁
      → on_exchange_message spake tlv w 0x22 (tlv.encode_point p_a) ds
        ≡ ok (
            send
              (record w { pase = server₂ })
              0x23
              (tlv.encode_pake2 record { p_b = p_b; c_b = c_b }))
  unfolding on_exchange_message on_pake1 compute_context generate_verifier send_pake2 set_state
  on_point w e =
      rw
        (
          e,
          tlv.point-Round p_a (spake.client_message-Short context verifier dc.scalar),
          spake.normal_point-server_message context verifier ds.scalar,
          finishes.1,
        )
        refl

  on_confirmation :
      (w : World)
      → w.pase ≡ client₂
      → on_exchange_message spake tlv w 0x23 (tlv.encode_pake2 record { p_b = p_b; c_b = c_b }) dc
        ≡ ok (record (send (record w { pase = client₃ }) 0x24 (tlv.encode_point c_a)) {
          sessions =
              with_session w.sessions
                (negotiated spake.hkdf dc.random_u16 ds.random_u16 secret.ke dc.random_u32);
        })
  unfolding on_exchange_message on_pake2 send_pake3 set_state send
  on_confirmation w e =
      rw
        (
          e,
          tlv.pake2-Round record { p_b = p_b; c_b = c_b }
              (spake.server_message-Short context verifier ds.scalar)
              (spake.mac-Short p_a secret.kcb),
          finishes.0,
        )
        (create_secure_session_lem spake.hkdf client₃ w.sessions
          (w.sent ++ record { opcode = 0x24; app = tlv.encode_point c_a } ∷ []) initiator
          dc.random_u16 ds.random_u16 dc.random_u32 secret)

  on_last :
      (w : World)
      → w.pase ≡ server₂
      → (w' : World) × (on_exchange_message spake tlv w 0x24 (tlv.encode_point c_a) ds ≡ ok w')
        × (w'.pase ≡ server₃)
        × (w'.sessions
            ≡ with_session w.sessions
                (negotiated spake.hkdf ds.random_u16 dc.random_u16 secret.ke ds.random_u32))
  unfolding on_exchange_message on_pake3 set_state send status_payload write_le alloc
  on_last w e = (
    record {
      pase = server₃;
      sessions =
          with_session w.sessions
            (negotiated spake.hkdf ds.random_u16 dc.random_u16 secret.ke ds.random_u32);
      sent = w.sent ++ record { opcode = 0x40; app = alloc 8 } ∷ [];
    },
    rw (e, tlv.point-Round c_a (spake.mac-Short p_b secret.kca), finishes.2)
        (rw
          (create_secure_session_lem spake.hkdf (record server₂ { c_a = some c_a }) w.sessions
            (w.sent ++ record { opcode = 0x40; app = alloc 8 } ∷ []) responder dc.random_u16
            ds.random_u16 ds.random_u32 secret)
          refl),
    refl,
    refl,
  )

  -- From two fresh sides that draw random bytes and 16-bit session ids, the five messages lead both back to idle, with the response timeout off, and
  -- each has one more secure session: the two sessions have the ids of each other, and the same keys.
  pub run_handshake-agrees :
      (c s : World) × (key : Buffer) × (run_handshake spake tlv (fresh cs) (fresh ss) dc ds
        ≡ ok (c, s))
      × (c.pase.state ≡ idle)
      × (s.pase.state ≡ idle)
      × (c.pase.timer ≡ false)
      × (s.pase.timer ≡ false)
      × (c.sessions
          ≡ with_session cs (negotiated spake.hkdf dc.random_u16 ds.random_u16 key dc.random_u32))
      × (s.sessions
          ≡ with_session ss (negotiated spake.hkdf ds.random_u16 dc.random_u16 key ds.random_u32))
  unfolding run_handshake start_pase send_pbkdf_param_request set_state send
  run_handshake-agrees =
      let c₁ : World = send (record (fresh cs) { pase = client₁ }) 0x20 q in
      let s₁ : World = send (record (fresh ss) { pase = server₁ }) 0x21 r in
      let c₂ : World = send (record c₁ { pase = client₂ }) 0x22 (tlv.encode_point p_a) in
      let s₂ : World =
        send (record s₁ { pase = server₂ }) 0x23
          (tlv.encode_pake2 record { p_b = p_b; c_b = c_b }) in
      let (s₃, ends, done, opened) = on_last s₂ refl in
      (
        record (send (record c₂ { pase = client₃ }) 0x24 (tlv.encode_point c_a)) {
          sessions =
              with_session cs
                (negotiated spake.hkdf dc.random_u16 ds.random_u16 secret.ke dc.random_u32);
        },
        s₃,
        secret.ke,
        rw (on_request (fresh ss) refl) (
            rw (on_response c₁ refl)
              (rw (on_point s₁ refl) (rw (on_confirmation c₂ refl) (rw (ends) refl)))),
        refl,
        ap (λ p. p.state) done,
        refl,
        ap (λ p. p.timer) done,
        refl,
        opened,
      )
