-- ===== src/SessionManager/Secure.antt =====
-- What src/message/SessionManager.js does with an encrypted datagram.
use matternode.Prelude.{
  ℕ, ◌≡◌, ◌≢◌, refl, ap, sym, ◌∙◌, true, false, none, some, List, [], ◌∷◌, ◌++◌, length, All, arith,
  ◌==◌, ok,
}
use matternode.Buffer.{Buffer}
use matternode.Cipher.{AesCcm}
use matternode.MsgCodec.{encrypt, decrypt}
use matternode.Message.{
  Message, of_buffer, source_node_id, message_counter, session_id, is_unencrypted,
}
use matternode.Message.Packet.{Packet, packet_bytes, Shows}
use matternode.Session.{
  Session, SessionKeys, PeerInfo, new_session, decrypt_message, test_mode_keys,
}
use matternode.Session.Send.{stamped_packet, IsDraft, CanSend}
use matternode.Session.Receive.{
  rx_key, session_id-received, is_unencrypted-received, decrypt_message-send,
}
use matternode.SessionManager.{
  Sessions, SessionRef, secure_at, session_at, update_session, find_secure, get_secure_session,
  note_arrival, choose_session, create_session, Chosen, on_secure_message, on_message,
}
use matternode.SessionManager.Incoming.{choose_session_found}

-- A session of the table that has the peer id of a message and decrypts with `key`.
pub record Holds (st : Sessions) (r : SessionRef) (t : Session) (id : ℕ) (key : Buffer)
    : Type 0 where
  pub keys : SessionKeys
  pub found : get_secure_session st id ≡ some r
  pub there : session_at st r ≡ some t
  pub has_keys : t.crypto_context ≡ some keys
  pub same_key : rx_key keys t ≡ key

-- A draft that a session with a nonzero peer id stamps and encrypts reaches the receiver whose first
-- secure session with that id decrypts with the same key: the arrival is noted on that session alone,
-- and the message that is passed on shows every stamped field.
pub on_message-send :
    (aes : AesCcm) (s : Session) (peer : PeerInfo) (p : Packet) (draft : IsDraft p)
    (can : CanSend s peer) (secured : s.peer_session_id ≢ 0) (st : Sessions) (r : SessionRef)
    (t : Session) (key out : Buffer) (from : PeerInfo) (random now : ℕ)
    → Holds st r t s.peer_session_id key
    → encrypt aes (packet_bytes (stamped_packet s p)) key ≡ ok out
    → (m : Message) × (on_message aes st out from random now
        ≡ ok (
          update_session st r (note_arrival t from s.message_counter now),
          record { msg = m; session = r },
        ))
      × Shows m (stamped_packet s p)
unfolding on_message on_secure_message
on_message-send aes s peer p draft can secured st r t key out from random now holds sealed =
    let (m, decrypts, shows) =
      decrypt_message-send aes s peer p draft can secured t holds.keys key out holds.has_keys
        holds.same_key sealed in
    (
      m,
      rw (is_unencrypted-received aes s peer p draft can secured key out sealed none) (
          rw
            (
              session_id-received aes s peer p draft can secured key out sealed (some out),
              holds.found,
              choose_session_found st r t (of_buffer out (some out)) s.peer_session_id true random
                  holds.there,
              decrypts,
            )
            (rw shows.counter)),
      shows,
    )

decrypt_message_fails :
    (aes : AesCcm) (t : Session) (keys : SessionKeys) (key buf : Buffer)
    → t.crypto_context ≡ some keys
    → rx_key keys t ≡ key
    → is_unencrypted (of_buffer buf (some buf)) ≡ ok false
    → decrypt aes buf key ≡ ok none
    → decrypt_message aes t (of_buffer buf (some buf)) ≡ ok (of_buffer buf (some buf), none)
unfolding decrypt_message of_buffer
decrypt_message_fails aes t keys key buf has_keys same covered fails =
    rw (covered, has_keys) (rw (same, fails))

-- A datagram of a secure session that fails its authentication is passed on all the same, still
-- encrypted, and its address and counter are taken over.
pub on_secure_message_unauthenticated :
    (aes : AesCcm) (st : Sessions) (r : SessionRef) (t : Session) (id counter : ℕ)
    (key buf : Buffer) (from : PeerInfo) (random now : ℕ)
    → Holds st r t id key
    → session_id (of_buffer buf (some buf)) ≡ ok id
    → is_unencrypted (of_buffer buf (some buf)) ≡ ok false
    → message_counter (of_buffer buf (some buf)) ≡ ok counter
    → decrypt aes buf key ≡ ok none
    → on_secure_message aes st buf from random now
      ≡ ok (
        update_session st r (note_arrival t from counter now),
        record { msg = of_buffer buf (some buf); session = r },
      )
unfolding on_secure_message
on_secure_message_unauthenticated aes st r t id counter key buf from random now holds has_id covered
      counts fails =
    rw
      (
        has_id,
        holds.found,
        choose_session_found st r t (of_buffer buf (some buf)) id true random holds.there,
        decrypt_message_fails aes t holds.keys key buf holds.has_keys holds.same_key covered fails,
      )
      (rw counts)

pub find_secure-none :
    (id : ℕ) (l : List Session) → All (λ s. s.peer_session_id ≢ id) l → find_secure id l ≡ none
unfolding find_secure
find_secure-none id [] h = refl
find_secure-none id (s ∷ l) h = rw (other, find_secure-none id l h.1, find_secure)
  where
    other : (s.peer_session_id == id) ≡ false
    other = ground (arith, h.0)

pub All-append :
    (P : Session → Type 0) (l : List Session) (s : Session) → All P l → P s → All P (l ++ s ∷ [])
All-append P [] s h p = (p, tt)
All-append P (t ∷ l) s h p = (h.0, All-append P l s h.1 p)

-- A secure session is looked up by its peer's id: a message that carries the id which the session
-- was given locally, and that is no earlier session's peer id, gets a new session, with the test keys.
pub choose_session-local_id :
    (st : Sessions) (local peer random random' source : ℕ) (msg : Message)
    → local ≢ peer
    → All (λ s. s.peer_session_id ≢ local) st.secured
    → source_node_id msg ≡ ok source
    → let st' = (create_session st local peer true random).0 in
      (c : Chosen) × (choose_session st' (get_secure_session st' local) msg local true random'
        ≡ ok c)
      × (c.at ≡ secure_at (length st'.secured))
      × (c.state.crypto_context ≡ some test_mode_keys)
unfolding create_session get_secure_session choose_session
choose_session-local_id st local peer random random' source msg ne none_there from = (
  record {
    sessions = record st { secured = table ++ stranger ∷ [] };
    at = secure_at (length table);
    state = stranger;
  },
  ap (λ o. choose_session (record st { secured = table }) o msg local true random') lookup
      ∙ rw from,
  refl,
  refl,
)
  where
    table : List Session
    table = st.secured ++ new_session local peer true random ∷ []

    stranger : Session
    stranger = record (new_session local local true random') { peer_node_id = some source }

    nothing : find_secure local table ≡ none
    nothing =
        find_secure-none local _
          (All-append (λ s. s.peer_session_id ≢ local) st.secured _ none_there (λ e. ne (sym e)))

    lookup : get_secure_session (record st { secured = table }) local ≡ none
    lookup = rw (nothing, get_secure_session)
