-- ===== src/SessionManager.antt =====
-- src/message/SessionManager.js: the two session tables, and what an incoming datagram does to them.
-- Sessions are pushed and never removed, so a session is named by its table and its place there.
-- The events that the manager emits are the results of its handlers; sockets are left out.
pub mod Tables
pub mod Incoming
pub mod Secure
use matternode.Prelude.{
  ℕ, zero, suc, ◌+◌, Bool, true, false, ◌&&◌, ◌||◌, Option, none, some, List, [], ◌∷◌, ◌++◌,
  get_elem?, set, length, if◌then◌else◌, ◌==◌, Result, ok, throw, type_error, ◌>>=◌,
}
use matternode.Buffer.{Buffer}
use matternode.Cipher.{AesCcm}
use matternode.Message.{
  Message, of_buffer, i_flag, source_node_id, destination_node_id, message_counter, session_id,
  is_unencrypted,
}
use matternode.Session.{Session, PeerInfo, new_session, update_activity, decrypt_message}

pub record Sessions : Type 0 where
  pub secured : List Session
  pub unsecured : List Session

-- A reference to a session object.
pub data SessionRef : Type 0 where
  secure_at unsecured_at : ℕ → SessionRef

abbrev pub no_sessions : Sessions
no_sessions = record { secured = []; unsecured = [] }

abbrev pub session_at : Sessions → SessionRef → Option Session
session_at st (secure_at i) = get_elem? st.secured i
session_at st (unsecured_at i) = get_elem? st.unsecured i

-- A write to the object behind a reference.
abbrev pub update_session : Sessions → SessionRef → Session → Sessions
update_session st (secure_at i) s = record st { secured = set st.secured i s }
update_session st (unsecured_at i) s = record st { unsecured = set st.unsecured i s }

-- Array.find over the secured table, as the place found.
unfoldable pub find_secure : ℕ → List Session → Option ℕ
find_secure id [] = none
find_secure id (s ∷ rest) = elim (s.peer_session_id == id) [
  | true ↦ some 0
  | false ↦ elim (find_secure id rest) [ none ↦ none | some i ↦ some (suc i) ]
]

unfoldable pub get_secure_session : Sessions → ℕ → Option SessionRef
get_secure_session st id = elim (find_secure id st.secured) [
  | none ↦ none
  | some i ↦ some (secure_at i)
]

-- `s.PeerNodeId === peerNodeId || s.PeerNodeId === undefined`
abbrev pub node_matches : Option ℕ → ℕ → Bool
node_matches none node = true
node_matches (some n) node = n == node

abbrev pub peer_matches : PeerInfo → PeerInfo → Bool
peer_matches a b = (a.address == b.address) && (a.port == b.port)

-- A session with no peer address makes the test itself throw.
unfoldable pub find_unsecure : PeerInfo → ℕ → List Session → Result (Option ℕ)
find_unsecure peer node [] = ok none
find_unsecure peer node (s ∷ rest) = elim s.peer_info [
  | none ↦ throw type_error
  | some info ↦ elim (peer_matches info peer && node_matches s.peer_node_id node) [
    | true ↦ ok (some 0)
    | false ↦ (do
      found ← find_unsecure peer node rest
      ok (elim found [ none ↦ none | some i ↦ some (suc i) ]))
  ]
]

unfoldable pub get_unsecure_session : Sessions → PeerInfo → ℕ → Result (Option SessionRef)
get_unsecure_session st peer node = do
  found ← find_unsecure peer node st.unsecured
  ok (elim found [ none ↦ none | some i ↦ some (unsecured_at i) ])

-- newSession: the new object stands at the end of its table.
unfoldable pub add_session : Sessions → Session → Sessions × SessionRef
add_session st s =
    if s.secure
    then (record st { secured = st.secured ++ s ∷ [] }, secure_at (length st.secured))
    else (record st { unsecured = st.unsecured ++ s ∷ [] }, unsecured_at (length st.unsecured))

unfoldable pub create_session : Sessions → ℕ → ℕ → Bool → ℕ → Sessions × SessionRef
unfolding add_session new_session
create_session st local_session_id peer_session_id secure random_u32 =
    add_session st (new_session local_session_id peer_session_id secure random_u32)

unfoldable pub new_unsecured_session : Sessions → ℕ → Sessions × SessionRef
unfolding create_session
new_unsecured_session st random_u32 = create_session st 0 0 false random_u32

-- The latest address and counter of the peer, and the activity.
unfoldable pub note_arrival : Session → PeerInfo → ℕ → ℕ → Session
unfolding update_activity
note_arrival s peer counter now =
    update_activity (record s { peer_info = some peer; peer_message_counter = counter }) now

-- The session of a reference; no reference of the tables is without one.
abbrev pub deref : Sessions → SessionRef → Result Session
deref st r = elim (session_at st r) [ none ↦ throw type_error | some s ↦ ok s ]

-- The event that a handler ends with: the message and its session.
pub record Arrival : Type 0 where
  pub msg : Message
  pub session : SessionRef

-- A session that knows no node id learns the message's source.
unfoldable pub learn_node : Session → Message → Result Session
learn_node s msg = elim s.peer_node_id [
  | none ↦ (do source ← source_node_id msg; ok (record s { peer_node_id = some source }))
  | some n ↦ ok s
]

-- A handler's session: where it stands, and its state so far.
pub record Chosen : Type 0 where
  pub sessions : Sessions
  pub at : SessionRef
  pub state : Session

-- The session that was found, or a new one that knows the message's source.
unfoldable pub choose_session :
    Sessions → Option SessionRef → Message → ℕ → Bool → ℕ → Result Chosen
unfolding add_session new_session
choose_session st (some r) msg id secure random_u32 = do
  s ← deref st r
  ok (record { sessions = st; at = r; state = s })
choose_session st none msg id secure random_u32 = do
  source ← source_node_id msg
  let s = record (new_session id id secure random_u32) { peer_node_id = some source }
  let (st', r) = add_session st s
  ok (record { sessions = st'; at = r; state = s })

unfoldable pub on_unsecured_message :
    Sessions → Message → PeerInfo → ℕ → ℕ → Result (Sessions × Arrival)
on_unsecured_message st msg peer random_u32 now = do
  i ← i_flag msg
  node ← if i then source_node_id msg else destination_node_id msg
  found ← get_unsecure_session st peer node
  chosen ← choose_session st found msg 0 false random_u32
  s ← learn_node chosen.state msg
  counter ← message_counter msg
  ok (
    update_session chosen.sessions chosen.at (note_arrival s peer counter now),
    record { msg = msg; session = chosen.at },
  )

-- A message that no secure session is found for gets one with the test keys. What `decrypt_message`
-- returns is not looked at.
unfoldable pub on_secure_message :
    AesCcm → Sessions → Buffer → PeerInfo → ℕ → ℕ → Result (Sessions × Arrival)
on_secure_message aes st buf peer random_u32 now = do
  let msg = of_buffer buf (some buf)
  id ← session_id msg
  chosen ← choose_session st (get_secure_session st id) msg id true random_u32
  decrypted ← decrypt_message aes chosen.state msg
  counter ← message_counter decrypted.0
  ok (
    update_session chosen.sessions chosen.at (note_arrival chosen.state peer counter now),
    record { msg = decrypted.0; session = chosen.at },
  )

unfoldable pub on_message :
    AesCcm → Sessions → Buffer → PeerInfo → ℕ → ℕ → Result (Sessions × Arrival)
on_message aes st buf peer random_u32 now = do
  let raw = of_buffer buf none
  plain ← is_unencrypted raw
  if plain
      then on_unsecured_message st raw peer random_u32 now
      else on_secure_message aes st buf peer random_u32 now
