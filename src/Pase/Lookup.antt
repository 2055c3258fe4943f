-- ===== src/Pase/Lookup.antt =====
-- What src/message/SessionManager.js makes of the sessions of src/protocols/session/PaseSession.js.
use matternode.Prelude.{
  ℕ, ◌≡◌, ◌≢◌, refl, ap, ◌∙◌, none, some, get_elem?, length, get_elem-append, All, ok,
}
use matternode.Spake.{Spake, PaseTlv}
use matternode.Session.{Session, new_session}
use matternode.SessionManager.{Sessions, get_secure_session}
use matternode.SessionManager.Secure.{find_secure-none, All-append}
use matternode.Pase.{World}
use matternode.Pase.Pake.{Draws}
use matternode.Pase.Run.{fresh, run_handshake, negotiated, with_session}
use matternode.Pase.Handshake.{IsDrawn, run_handshake-agrees}

with_session-none :
    (st : Sessions) (s : Session) (id : ℕ)
    → All (λ t. t.peer_session_id ≢ id) st.secured
    → s.peer_session_id ≢ id
    → get_secure_session (with_session st s) id ≡ none
unfolding get_secure_session
with_session-none st s id others own =
    rw
      (
        find_secure-none id _ (All-append (λ t. t.peer_session_id ≢ id) st.secured s others own),
        get_secure_session,
      )
      refl

-- After a handshake of sides that draw random bytes and 16-bit ids, where the two ids differ, the client's session stamps the server's id on what it sends.
-- The server, which looks a session up by its peer's id, finds none for it, unless another session had
-- that peer id before.
pub run_handshake-lookup :
    (spake : Spake) (tlv : PaseTlv) (dc ds : Draws) (cs ss : Sessions)
    → IsDrawn dc
    → IsDrawn ds
    → dc.random_u16 ≢ ds.random_u16
    → All (λ t. t.peer_session_id ≢ ds.random_u16) ss.secured
    → (c s : World) × (t : Session) × (run_handshake spake tlv (fresh cs) (fresh ss) dc ds
        ≡ ok (c, s))
      × (get_elem? c.sessions.secured (length cs.secured) ≡ some t)
      × (t.peer_session_id ≡ ds.random_u16)
      × (get_secure_session s.sessions ds.random_u16 ≡ none)
unfolding new_session
run_handshake-lookup spake tlv dc ds cs ss hc hs differ others =
    let (c, s, key, runs, c_idle, s_idle, c_timer, s_timer, c_session, s_session) =
      run_handshake-agrees spake tlv dc ds hc hs cs ss in
    (
      c,
      s,
      negotiated spake.hkdf dc.random_u16 ds.random_u16 key dc.random_u32,
      runs,
      ap (λ st. get_elem? st.secured (length cs.secured)) c_session ∙ get_elem-append cs.secured _,
      refl,
      ap (λ st. get_secure_session st ds.random_u16) s_session
          ∙ with_session-none ss _ ds.random_u16 others differ,
    )
