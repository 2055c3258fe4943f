-- ===== src/SessionProtocol/Once.antt =====
-- One handshake for each exchange of src/protocols/session/SessionProtocol.js.
use matternode.Prelude.{
  ℕ, ◌≡◌, refl, Bool, true, false, none, some, List, [], ◌∷◌, ◌++◌, ◌==◌, ==_refl, ok,
}
use matternode.Buffer.{Buffer}
use matternode.Spake.{Spake, PaseTlv, ParamRequest, ParamResponse}
use matternode.SessionManager.{Sessions}
use matternode.Pase.{
  Pase, create, World, send, set_state, await_pake1, responder, default_salt,
  on_pbkdf_param_request, send_pbkdf_param_response,
}
use matternode.Pase.Pake.{Draws, on_exchange_message}
use matternode.SessionProtocol.{SessionProtocol, get_pase, new_pase, Reaction, on_protocol_message}

get_pase-append :
    (l : List (ℕ × Pase)) (exchange : ℕ) (p : Pase)
    → get_pase l exchange ≡ none
    → get_pase (l ++ (exchange, p) ∷ []) exchange ≡ some p
unfolding get_pase
get_pase-append [] exchange p h = rw (==_refl exchange, get_pase) refl
get_pase-append ((ex, q) ∷ l) exchange p h =
    go (ex == exchange) h (λ later. get_pase-append l exchange p later)
  where
    go :
        (b : Bool)
        → elim b [ true ↦ some q | false ↦ get_pase l exchange ] ≡ none
        → (get_pase l exchange ≡ none → get_pase (l ++ (exchange, p) ∷ []) exchange ≡ some p)
        → elim b [ true ↦ some q | false ↦ get_pase (l ++ (exchange, p) ∷ []) exchange ] ≡ some p
    go true h later = cc
    go false h later = later h

module _ (spake : Spake) (tlv : PaseTlv) (sp : SessionProtocol) (st : Sessions) (exchange : ℕ)
    (d : Draws) (r : ParamRequest) (app : Buffer)
    (reads : tlv.decode_param_request app ≡ ok r) where
  abbrev answer : ParamResponse
  answer = record {
    initiator_random = r.initiator_random;
    responder_random = d.random_bytes;
    responder_session_id = d.random_u16;
    iterations = 1000;
    salt = default_salt;
  }

  -- The handshake after its first message.
  abbrev begun : Pase
  begun = record create {
    state = await_pake1;
    timer = true;
    role = responder;
    initiator_random = some r.initiator_random;
    initiator_session_id = some r.initiator_session_id;
    passcode_id = some r.passcode_id;
    responder_random = some d.random_bytes;
    responder_session_id = some d.random_u16;
    pbkdf_request = some app;
    pbkdf_response = some (tlv.encode_param_response answer);
  }

  abbrev begun_world : World
  begun_world = record {
    pase = begun;
    sessions = st;
    sent = record { opcode = 0x21; app = tlv.encode_param_response answer } ∷ [];
  }

  begins :
      on_exchange_message spake tlv (record { pase = create; sessions = st; sent = [] }) 0x20 app d
      ≡ ok begun_world
  unfolding on_exchange_message on_pbkdf_param_request send_pbkdf_param_response set_state send
  begins = rw (reads) refl

  abbrev pub Answered : Reaction → Type 0
  Answered out =
      (p : Pase) × (get_pase out.protocol.pase_sessions exchange ≡ some p)
      × (p.state ≡ await_pake1)
      × (p.role ≡ responder)
      × (out.sent ≡ record { opcode = 0x21; app = tlv.encode_param_response answer } ∷ [])
      × (out.sessions ≡ st)

  -- A parameter request on an exchange without a handshake starts one, as the responder, and is answered
  -- once. The same or another request on that exchange is then taken by nobody and changes nothing.
  pub on_protocol_message-once :
      (app' : Buffer) (d' : Draws)
      → get_pase sp.pase_sessions exchange ≡ none
      → (out : Reaction) × (on_protocol_message spake tlv sp st 0x20 exchange app d ≡ ok out)
        × Answered out
        × (on_protocol_message spake tlv out.protocol out.sessions 0x20 exchange app' d'
            ≡ ok record { protocol = out.protocol; sessions = out.sessions; sent = [] })
  unfolding on_protocol_message new_pase
  on_protocol_message-once app' d' free = (
    record { protocol = new_pase sp exchange begun; sessions = st; sent = begun_world.sent },
    rw (free) (rw (begins) refl),
    (begun, found, refl, refl, refl, refl),
    rw (found) refl,
  )
    where
      found : get_pase (sp.pase_sessions ++ (exchange, begun) ∷ []) exchange ≡ some begun
      found = get_pase-append sp.pase_sessions exchange begun free
