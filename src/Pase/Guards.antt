-- ===== src/Pase/Guards.antt =====
-- When a message handler of src/protocols/session/PaseSession.js acts, and what it leaves alone.
use matternode.Prelude.{
  ℕ, ◌≡◌, refl, ap, sym, subst, true, not, ◌⊎◌, inl, inr, Option, none, some, [], ◌==◌, arith,
  if-cases, ok, >>=-eq-ok,
}
use matternode.Buffer.{Buffer}
use matternode.Spake.{Secret, Spake, PaseTlv}
use matternode.Session.{init_from_secret}
use matternode.StatusReport.{status_payload, success, secure_channel, session_establishment_success}
use matternode.Pase.{
  State, idle, await_pbkdf_param_rsp, await_pake1, await_pake2, await_pake3, is_idle, Pase, World,
  send, set_state, need, create_secure_session, compute_context, on_pbkdf_param_request,
  send_pbkdf_param_response, session_keys_info,
}
use matternode.Pase.Pake.{
  awaits_pake1, awaits_pake2, awaits_pake3, Draws, send_pake1, on_pbkdf_param_response, send_pake2,
  on_pake1, send_pake3, on_pake2, on_pake3, on_exchange_message,
}

-- The response timeout runs while the handshake waits for an answer, and only then.
abbrev pub IsTimed : Pase → Type 0
IsTimed p = p.timer ≡ not (is_idle p.state)

-- Where the client creates its session, and where the server does.
pub record Opens (spake : Spake) (tlv : PaseTlv) (w : World) (opcode : ℕ) (app : Buffer)
    : Type 0 where
  pub secret : Secret
  pub c_a : Buffer
  pub is_pake3 : opcode ≡ 0x24
  pub awaited : w.pase.state ≡ await_pake3
  pub has_secret : w.pase.secret ≡ some secret
  pub confirmation : tlv.decode_point app ≡ ok c_a
  pub verified : spake.verify_hash secret c_a ≡ true

-- What a delivery may do to the sessions, and the timeout after it.
abbrev pub Allowed : Spake → PaseTlv → World → ℕ → Buffer → World → Type 0
Allowed spake tlv w opcode app w' =
    IsTimed w'.pase
    × ((w'.sessions ≡ w.sessions)
        ⊎ (((opcode ≡ 0x23) × (w.pase.state ≡ await_pake2)) ⊎ Opens spake tlv w opcode app))

same_world : {w w' : World} → ok w ≡ ok w' → w ≡ w'
same_world e = cc

abbrev Kept : World → World → Type 0
Kept w w' = (w'.sessions ≡ w.sessions) × IsTimed w'.pase

Kept-same : (w : World) {w' v : World} → ok v ≡ ok w' → Kept w v → Kept w w'
Kept-same w e k = subst (Kept w) (same_world e) k

create_secure_session-pase :
    (hkdf : Buffer → ℕ → Buffer → Buffer → Buffer) (w w' : World) (random_u32 : ℕ)
    → create_secure_session hkdf w random_u32 ≡ ok w'
    → w'.pase ≡ w.pase
unfolding create_secure_session
create_secure_session-pase hkdf w w' random_u32 e =
    let (i, has_i, e₁) = >>=-eq-ok (need w.pase.initiator_session_id) _ e in
    let (r, has_r, e₂) = >>=-eq-ok (need w.pase.responder_session_id) _ e₁ in
    let (s, has_s, e₃) = >>=-eq-ok (need w.pase.secret) _ e₂ in
    let (t, opened, e₄) = >>=-eq-ok (init_from_secret hkdf _ s.ke [] session_keys_info) _ e₃ in
    ap (λ v. v.pase) (sym (same_world e₄))

need-some : {A : Type 0} {o : Option A} {a : A} → need o ≡ ok a → o ≡ some a
need-some {o = none} e = cc
need-some {o = some b} e = cc

module _ (spake : Spake) (tlv : PaseTlv) (w w' : World) (app : Buffer) (d : Draws)
    (timed : IsTimed w.pase) where
  on_pbkdf_param_request-Kept :
      on_pbkdf_param_request tlv w app d.random_bytes d.random_u16 ≡ ok w' → Kept w w'
  unfolding on_pbkdf_param_request send_pbkdf_param_response set_state send
  on_pbkdf_param_request-Kept e = elim (if-cases (is_idle w.pase.state) _ _ e) [
    | inr (busy, same) ↦ Kept-same w same (refl, timed)
    | inl (waits, runs) ↦
        (let (r, decoded, e₁) = >>=-eq-ok (tlv.decode_param_request app) _ runs in
          Kept-same w e₁ (refl, refl))
  ]

  on_pbkdf_param_response-Kept : on_pbkdf_param_response spake tlv w app d ≡ ok w' → Kept w w'
  unfolding on_pbkdf_param_response send_pake1 set_state send
  on_pbkdf_param_response-Kept e =
      let (r, decoded, e₁) = >>=-eq-ok (tlv.decode_param_response app) _ e in
      let (c, hashed, e₂) = >>=-eq-ok (compute_context spake _) _ e₁ in
      let (p_a, point, e₃) = >>=-eq-ok (spake.normal_point _) _ e₂ in Kept-same w e₃ (refl, refl)

  on_pake1-Kept : on_pake1 spake tlv w app d ≡ ok w' → Kept w w'
  unfolding on_pake1 send_pake2 set_state send
  on_pake1-Kept e = elim (if-cases (awaits_pake1 w.pase.state) _ _ e) [
    | inr (other, same) ↦ Kept-same w same (refl, timed)
    | inl (waits, runs) ↦
        (let (p_a, decoded, e₁) = >>=-eq-ok (tlv.decode_point app) _ runs in
          let (c, hashed, e₂) = >>=-eq-ok (compute_context spake w.pase) _ e₁ in
          let (p_b, point, e₃) = >>=-eq-ok (spake.normal_point _) _ e₂ in
          let (s, finished, e₄) = >>=-eq-ok (spake.server_finish _ _ _ _) _ e₃ in
          Kept-same w e₄ (refl, refl))
  ]

  IsTimed-subst : {p : Pase} → w'.pase ≡ p → IsTimed p → IsTimed w'.pase
  IsTimed-subst same t = subst IsTimed (sym same) t

  -- The client's last step opens its session, or nothing happens.
  on_pake2-IsTimed :
      on_pake2 spake tlv w app d ≡ ok w'
      → ((w'.sessions ≡ w.sessions) ⊎ (w.pase.state ≡ await_pake2)) × IsTimed w'.pase
  unfolding on_pake2 send_pake3 set_state send
  on_pake2-IsTimed e = elim (if-cases (awaits_pake2 w.pase.state) _ _ e) [
    | inr (other, same) ↦ (let kept = Kept-same w same (refl, timed) in (inl kept.0, kept.1))
    | inl (waits, runs) ↦
        (let (m, decoded, e₁) = >>=-eq-ok (tlv.decode_pake2 app) _ runs in
          let (c, has_client, e₂) = >>=-eq-ok (need w.pase.spake_client) _ e₁ in
          let (s, finished, e₃) = >>=-eq-ok (spake.client_finish _ _ _ _) _ e₂ in
          (
            inr (awaited w.pase.state waits),
            IsTimed-subst (create_secure_session-pase spake.hkdf _ w' d.random_u32 e₃) refl,
          ))
  ]
    where
      awaited : (s : State) → awaits_pake2 s ≡ true → s ≡ await_pake2
      awaited await_pake2 h = refl
      awaited idle h = cc
      awaited await_pbkdf_param_rsp h = cc
      awaited await_pake1 h = cc
      awaited await_pake3 h = cc

  on_pake3-IsTimed :
      on_pake3 spake tlv w app d ≡ ok w'
      → ((w'.sessions ≡ w.sessions) ⊎ Opens spake tlv w 0x24 app) × IsTimed w'.pase
  unfolding on_pake3 set_state send
  on_pake3-IsTimed e = elim (if-cases (awaits_pake3 w.pase.state) _ _ e) [
    | inr (other, same) ↦ (let kept = Kept-same w same (refl, timed) in (inl kept.0, kept.1))
    | inl (waits, runs) ↦
        (let (c_a, decoded, e₁) = >>=-eq-ok (tlv.decode_point app) _ runs in
          let (s, has_secret, e₂) = >>=-eq-ok (need w.pase.secret) _ e₁ in
          elim (if-cases (spake.verify_hash s c_a) _ _ e₂) [
            | inr (fails, thrown) ↦ cc
            | inl (verified, e₃) ↦
                (let (report, written, e₄) =
                    >>=-eq-ok
                      (status_payload success secure_channel session_establishment_success none) _
                      e₃ in
                  let (done, opened, e₅) =
                    >>=-eq-ok (create_secure_session spake.hkdf _ d.random_u32) _ e₄ in
                  (
                    inr record {
                      secret = s;
                      c_a = c_a;
                      is_pake3 = refl;
                      awaited = awaited w.pase.state waits;
                      has_secret = need-some has_secret;
                      confirmation = decoded;
                      verified = verified;
                    },
                    subst (λ v. IsTimed v.pase) (same_world e₅) refl,
                  ))
          ])
  ]
    where
      awaited : (s : State) → awaits_pake3 s ≡ true → s ≡ await_pake3
      awaited await_pake3 h = refl
      awaited idle h = cc
      awaited await_pbkdf_param_rsp h = cc
      awaited await_pake1 h = cc
      awaited await_pake2 h = cc

  -- A handler that returns leaves the response timeout running exactly while an answer is awaited. It
  -- leaves the sessions alone, but for the client's Pake2 where that is awaited, and for a Pake3 that is
  -- awaited and whose confirmation verifies under the shared secret.
  pub on_exchange_message-IsTimed :
      (opcode : ℕ)
      → on_exchange_message spake tlv w opcode app d ≡ ok w'
      → Allowed spake tlv w opcode app w'
  unfolding on_exchange_message
  on_exchange_message-IsTimed opcode e = elim (if-cases (opcode == 0x20) _ _ e) [
    | inl (here, e₁) ↦ (let k = on_pbkdf_param_request-Kept e₁ in (k.1, inl k.0))
    | inr (elsewhere, e₁) ↦ elim (if-cases (opcode == 0x21) _ _ e₁) [
      | inl (here, e₂) ↦ (let k = on_pbkdf_param_response-Kept e₂ in (k.1, inl k.0))
      | inr (elsewhere, e₂) ↦ elim (if-cases (opcode == 0x22) _ _ e₂) [
        | inl (here, e₃) ↦ (let k = on_pake1-Kept e₃ in (k.1, inl k.0))
        | inr (elsewhere, e₃) ↦ elim (if-cases (opcode == 0x23) _ _ e₃) [
          | inl (here, e₄) ↦ client (ground arith) (on_pake2-IsTimed e₄)
          | inr (elsewhere, e₄) ↦ elim (if-cases (opcode == 0x24) _ _ e₄) [
            | inl (here, e₅) ↦ server (ground arith) (on_pake3-IsTimed e₅)
            | inr (elsewhere, e₅) ↦ (let k = Kept-same w e₅ (refl, timed) in (k.1, inl k.0))
          ]
        ]
      ]
    ]
  ]
    where
      client :
          opcode ≡ 0x23
          → ((w'.sessions ≡ w.sessions) ⊎ (w.pase.state ≡ await_pake2)) × IsTimed w'.pase
          → Allowed spake tlv w opcode app w'
      client is (inl same, t) = (t, inl same)
      client is (inr waits, t) = (t, inr (inl (is, waits)))

      server :
          opcode ≡ 0x24
          → ((w'.sessions ≡ w.sessions) ⊎ Opens spake tlv w 0x24 app) × IsTimed w'.pase
          → Allowed spake tlv w opcode app w'
      server is (inl same, t) = (t, inl same)
      server is (inr opens, t) =
          (t, inr (inr (subst (λ n. Opens spake tlv w n app) (sym is) opens)))
