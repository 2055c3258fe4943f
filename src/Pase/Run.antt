-- ===== src/Pase/Run.antt =====
-- Two nodes that run the handshake of src/protocols/session/PaseSession.js against each other.
use matternode.Prelude.{
  ℕ, ◌≡◌, ap, true, Option, none, some, List, [], ◌∷◌, ◌++◌, set-append, Result, ok, throw,
  type_error, ◌>>=◌,
}
use matternode.Buffer.{Buffer}
use matternode.Spake.{Secret, Spake, PaseTlv}
use matternode.Session.{Session, init_from_secret, new_session, keys_from_secret}
use matternode.SessionManager.{Sessions, create_session, add_session}
use matternode.Pase.{
  Role, Pase, create, World, Sent, local_and_peer, create_secure_session, start_pase,
  session_keys_info,
}
use matternode.Pase.Pake.{Draws, on_exchange_message}

abbrev pub last_sent : List Sent → Option Sent
last_sent [] = none
last_sent (m ∷ []) = some m
last_sent (m ∷ n ∷ rest) = last_sent (n ∷ rest)

-- The network: the other side is handed what one side sent last.
abbrev pub deliver : Spake → PaseTlv → World → World → Draws → Result World
deliver spake tlv from to draws = elim (last_sent from.sent) [
  | none ↦ throw type_error
  | some m ↦ on_exchange_message spake tlv to m.opcode m.app draws
]

-- The five messages, the client's first.
unfoldable pub run_handshake :
    Spake → PaseTlv → World → World → Draws → Draws → Result (World × World)
run_handshake spake tlv client server dc ds = do
  let c₁ = start_pase tlv client dc.random_bytes dc.random_u16
  s₁ ← deliver spake tlv c₁ server ds
  c₂ ← deliver spake tlv s₁ c₁ dc
  s₂ ← deliver spake tlv c₂ s₁ ds
  c₃ ← deliver spake tlv s₂ c₂ dc
  s₃ ← deliver spake tlv c₃ s₂ ds
  ok (c₃, s₃)

-- A side with its tables, before anything is sent.
abbrev pub fresh : Sessions → World
fresh st = record { pase = create; sessions = st; sent = [] }

-- The session that a side has at the end.
abbrev pub negotiated : (Buffer → ℕ → Buffer → Buffer → Buffer) → ℕ → ℕ → Buffer → ℕ → Session
negotiated hkdf local peer ke random_u32 = record (new_session local peer true random_u32) {
  crypto_context = some (keys_from_secret hkdf ke [] session_keys_info);
}

-- The table with one more secure session.
abbrev pub with_session : Sessions → Session → Sessions
with_session st s = record st { secured = st.secured ++ s ∷ [] }

-- A side that knows both ids and the secret opens the session.
pub create_secure_session_lem :
    (hkdf : Buffer → ℕ → Buffer → Buffer → Buffer) (p : Pase) (st : Sessions) (sent : List Sent)
    (role : Role) (i r random_u32 : ℕ) (secret : Secret)
    → let w : World = record {
      pase = record p {
        role = role;
        initiator_session_id = some i;
        responder_session_id = some r;
        secret = some secret;
      };
      sessions = st;
      sent = sent;
    } in
      let (local, peer) = local_and_peer role i r in
      create_secure_session hkdf w random_u32
      ≡ ok (record w {
        sessions = with_session st (negotiated hkdf local peer secret.ke random_u32);
      })
unfolding create_secure_session create_session add_session init_from_secret new_session
create_secure_session_lem hkdf p st sent role i r random_u32 secret =
    let (local, peer) = local_and_peer role i r in
    ap
      (λ l. ok record {
        pase = record p {
          role = role;
          initiator_session_id = some i;
          responder_session_id = some r;
          secret = some secret;
        };
        sessions = record st { secured = l };
        sent = sent;
      })
      (set-append st.secured (new_session local peer true random_u32)
        (negotiated hkdf local peer secret.ke random_u32))
