-- ===== src/Pase/Unconfirmed.antt =====
-- The server's confirmation in Pake2 of src/protocols/session/PaseSession.js.
use matternode.Prelude.{ℕ, ◌≡◌, refl, some, >>=-map, ok, ◌>>=◌}
use matternode.Buffer.{Buffer, ShortBuffer}
use matternode.Spake.{Spake, PaseTlv}
use matternode.Session.{new_session, init_from_secret}
use matternode.Pase.{await_pake2, World, send, set_state, need, create_secure_session}
use matternode.Pase.Pake.{Draws, send_pake3, on_pake2}

-- The state with another confirmation of the server.
abbrev pub with_c_b : Buffer → World → World
with_c_b c w = record w { pase = record w.pase { c_b = some c } }

create_secure_session-with_c_b :
    (hkdf : Buffer → ℕ → Buffer → Buffer → Buffer) (c : Buffer) (w : World) (random_u32 : ℕ)
    → create_secure_session hkdf (with_c_b c w) random_u32
      ≡ (create_secure_session hkdf w random_u32 >>= λ v. ok (with_c_b c v))
unfolding create_secure_session new_session init_from_secret
create_secure_session-with_c_b hkdf c w random_u32 =
    >>=-map (need w.pase.initiator_session_id) _ _ _ (λ i.
      >>=-map (need w.pase.responder_session_id) _ _ _
        (λ r. >>=-map (need w.pase.secret) _ _ _ (λ s. refl)))

-- The client compares the server's confirmation with nothing: with any other one, of bytes that the TLV
-- structure can carry as it can the first, it keeps that one, and opens the same session and sends the same Pake3.
pub on_pake2_unconfirmed :
    (spake : Spake) (tlv : PaseTlv) (w : World) (p_b c_b c_b' : Buffer) (d : Draws)
    → ShortBuffer p_b
    → ShortBuffer c_b
    → ShortBuffer c_b'
    → w.pase.state ≡ await_pake2
    → on_pake2 spake tlv w (tlv.encode_pake2 record { p_b = p_b; c_b = c_b' }) d ≡ (
        on_pake2 spake tlv w (tlv.encode_pake2 record { p_b = p_b; c_b = c_b }) d >>= λ v.
        ok (with_c_b c_b' v))
unfolding on_pake2 send_pake3 set_state send
on_pake2_unconfirmed spake tlv w p_b c_b c_b' d hp hc hc' waits =
    rw
      (
        tlv.pake2-Round record { p_b = p_b; c_b = c_b' } hp hc',
        tlv.pake2-Round record { p_b = p_b; c_b = c_b } hp hc,
        waits,
      )
      (>>=-map (need w.pase.spake_client) _ _ _ (λ client.
        >>=-map (spake.client_finish client.context client.verifier client.scalar p_b) _ _ _
          (λ s. create_secure_session-with_c_b spake.hkdf c_b' _ d.random_u32)))
