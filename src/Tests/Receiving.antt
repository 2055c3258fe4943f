-- ===== src/Tests/Receiving.antt =====
-- Messages on their way in, at concrete values.
use matternode.Prelude.{
  ℕ, ◌≡◌, ◌≢◌, refl, true, ◌⊎◌, none, some, [], ◌∷◌, ◌++◌, take, replicate, length, get_elem?, All,
  arith, ok,
}
use matternode.Buffer.{Buffer, read_le, write_le, alloc, index_from_end}
use matternode.MsgCodec.{decrypt, get_nonce}
use matternode.Message.{
  Message, of_buffer, source_node_id, message_counter, session_id, is_unencrypted, exchange_flag,
  exchange_flags, payload, payload_offset, destination_offset, s_flag, message_flags, dsiz,
  session_type, security_flags,
}
use matternode.Message.Packet.{packet_bytes, Shows}
use matternode.Session.{Session, test_mode_keys, decrypt_message}
use matternode.Session.Send.{stamped_packet}
use matternode.Session.Receive.{decrypt_message-send}
use matternode.SessionManager.{
  Sessions, no_sessions, SessionRef, secure_at, update_session, find_secure, find_unsecure,
  get_secure_session, note_arrival, create_session, choose_session, Chosen, on_unsecured_message,
  on_secure_message, on_message,
}
use matternode.SessionManager.Tables.{IsFor, find_secure-first, find_unsecure-first}
use matternode.SessionManager.Incoming.{Accepted, on_unsecured_message-Accepted}
use matternode.SessionManager.Secure.{
  Holds, on_message-send, on_secure_message_unauthenticated, choose_session-local_id,
}
use matternode.Tests.Data.{
  clear_cipher, home, request, request-IsDraft, unsecured_session, secure_session,
  secure_session-CanSend, sealed_bytes, seals, sessions, received_bytes,
}

-- The receiver's session, and the tables that hold it.
abbrev receiver : Session
receiver = record secure_session { local_session_id = 22 }

receiver-Holds : Holds sessions (secure_at 0) receiver 22 test_mode_keys.i2r
unfolding get_secure_session find_secure
receiver-Holds = record {
  keys = test_mode_keys;
  found = refl;
  there = refl;
  has_keys = refl;
  same_key = refl;
}

decrypt_message-send_example :
    (m : Message) × (decrypt_message clear_cipher receiver
        (of_buffer sealed_bytes (some sealed_bytes))
      ≡ ok (m, some (packet_bytes (stamped_packet secure_session request))))
    × Shows m (stamped_packet secure_session request)
decrypt_message-send_example =
    decrypt_message-send clear_cipher secure_session home request request-IsDraft
      secure_session-CanSend (omega arith) receiver test_mode_keys test_mode_keys.i2r sealed_bytes
      refl refl seals

on_message-send_example :
    (m : Message) × (on_message clear_cipher sessions sealed_bytes home 5 60
      ≡ ok (
        update_session sessions (secure_at 0) (note_arrival receiver home 1000 60),
        record { msg = m; session = secure_at 0 },
      ))
    × Shows m (stamped_packet secure_session request)
on_message-send_example =
    on_message-send clear_cipher secure_session home request request-IsDraft secure_session-CanSend
      (omega arith) sessions (secure_at 0) receiver test_mode_keys.i2r sealed_bytes home 5 60
      receiver-Holds seals

-- The same bytes with another tag.
abbrev forged_bytes : Buffer
forged_bytes = take 17 sealed_bytes ++ replicate 16 1

on_secure_message_unauthenticated_example :
    on_secure_message clear_cipher sessions forged_bytes home 5 60
    ≡ ok (
      update_session sessions (secure_at 0) (note_arrival receiver home 1000 60),
      record { msg = of_buffer forged_bytes (some forged_bytes); session = secure_at 0 },
    )
unfolding session_id is_unencrypted message_counter decrypt of_buffer read_le session_type
    security_flags get_nonce write_le alloc index_from_end
on_secure_message_unauthenticated_example =
    on_secure_message_unauthenticated clear_cipher sessions (secure_at 0) receiver 22 1000
      test_mode_keys.i2r forged_bytes home 5 60 receiver-Holds refl refl refl refl

on_unsecured_message-Accepted_example :
    (st' : Sessions) × (r : SessionRef) × (on_unsecured_message sessions
        (of_buffer received_bytes none)
        home
        5
        60
      ≡ ok (st', record { msg = of_buffer received_bytes none; session = r }))
    × Accepted sessions st' home 5 r
unfolding source_node_id message_counter of_buffer exchange_flag exchange_flags payload
    payload_offset destination_offset s_flag message_flags read_le dsiz
on_unsecured_message-Accepted_example =
    on_unsecured_message-Accepted sessions (of_buffer received_bytes none) home 5 60 5 42
      ((home, refl), tt) refl refl refl

find_secure-first_example :
    ((find_secure 22 sessions.secured ≡ none) × All (λ s. s.peer_session_id ≢ 22) sessions.secured)
    ⊎ ((i : ℕ) × (s : Session) × (find_secure 22 sessions.secured ≡ some i)
        × (get_elem? sessions.secured i ≡ some s)
        × (s.peer_session_id ≡ 22)
        × All (λ s. s.peer_session_id ≢ 22) (take i sessions.secured))
find_secure-first_example = find_secure-first 22 sessions.secured

find_unsecure-first_example :
    ((find_unsecure home 9 (unsecured_session ∷ []) ≡ ok none)
      × All (λ s. ¬ (IsFor home 9 s)) (unsecured_session ∷ []))
    ⊎ ((i : ℕ) × (s : Session) × (find_unsecure home 9 (unsecured_session ∷ []) ≡ ok (some i))
        × (get_elem? (unsecured_session ∷ []) i ≡ some s)
        × IsFor home 9 s
        × All (λ s. ¬ (IsFor home 9 s)) (take i (unsecured_session ∷ [])))
find_unsecure-first_example = find_unsecure-first home 9 (unsecured_session ∷ []) ((home, refl), tt)

choose_session-local_id_example :
    let st' = (create_session no_sessions 11 22 true 5).0 in
    (c : Chosen) × (choose_session st'
        (get_secure_session st' 11)
        (of_buffer received_bytes none)
        11
        true
        6
      ≡ ok c)
    × (c.at ≡ secure_at (length st'.secured))
    × (c.state.crypto_context ≡ some test_mode_keys)
unfolding source_node_id of_buffer s_flag message_flags read_le
choose_session-local_id_example =
    choose_session-local_id no_sessions 11 22 5 6 5 (of_buffer received_bytes none) (omega arith) tt
      refl
