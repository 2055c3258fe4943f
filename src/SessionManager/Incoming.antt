-- ===== src/SessionManager/Incoming.antt =====
-- What an incoming message does to the sessions of src/message/SessionManager.js.
use matternode.Prelude.{
  ℕ, ◌+◌, ◌≤◌, ◌≡◌, refl, ap, Bool, true, false, inl, inr, Option, none, some, List, [], ◌∷◌, ◌++◌,
  get_elem?, set, length, length-append, length-set, All, arith, ==_refl, Option-cases, Result, ok,
  throw, type_error, ◌>>=◌,
}
use matternode.Message.{Message, i_flag, source_node_id, message_counter}
use matternode.Session.{Session, PeerInfo, new_session}
use matternode.SessionManager.{
  Sessions, SessionRef, unsecured_at, session_at, node_matches, peer_matches, find_unsecure,
  get_unsecure_session, note_arrival, learn_node, choose_session, on_unsecured_message,
}
use matternode.SessionManager.Tables.{
  Answers, HasPeer, find_unsecure-total, HasPeer-append, HasPeer-set, find_unsecure-append,
  find_unsecure-set,
}

peer_matches_refl : (p : PeerInfo) → peer_matches p p ≡ true
peer_matches_refl p = ground arith

-- A session that a message from `source` has reached answers to it from then on.
note_arrival-Answers :
    (s : Session) (peer : PeerInfo) (source counter now : ℕ)
    → node_matches s.peer_node_id source ≡ true
    → Answers peer source (note_arrival s peer counter now)
unfolding note_arrival
note_arrival-Answers s peer source counter now h = (peer, refl, rw (peer_matches_refl peer, h))

set_last : (l : List Session) (s t : Session) → set (l ++ s ∷ []) (length l) t ≡ l ++ t ∷ []
set_last [] s t = refl
set_last (x ∷ l) s t = ap (◌∷◌ x) (set_last l s t)

-- A reference that was found is chosen as it is.
pub choose_session_found :
    (st : Sessions) (r : SessionRef) (s : Session) (msg : Message) (id : ℕ) (secure : Bool)
    (random : ℕ)
    → session_at st r ≡ some s
    → choose_session st (some r) msg id secure random
      ≡ ok (record { sessions = st; at = r; state = s })
unfolding choose_session
choose_session_found st r s msg id secure random e =
    ap (λ o. behind o >>= λ t. ok (record { sessions = st; at = r; state = t })) e
  where
    behind : Option Session → Result Session
    behind none = throw type_error
    behind (some t) = ok t

-- The sessions and the event after an initiator's message in the clear.
pub record Accepted (st st' : Sessions) (peer : PeerInfo) (source : ℕ) (r : SessionRef)
    : Type 0 where
  pub found_again : get_unsecure_session st' peer source ≡ ok (some r)
  pub known : All HasPeer st'.unsecured
  pub secured_same : st'.secured ≡ st.secured
  pub grows : length st'.unsecured ≤ length st.unsecured + 1

module _ (st : Sessions) (msg : Message) (peer : PeerInfo) (random now source counter : ℕ)
    (known : All HasPeer st.unsecured) (initiates : i_flag msg ≡ ok true)
    (from : source_node_id msg ≡ ok source) (counts : message_counter msg ≡ ok counter) where
  learned :
      (s : Session)
      → node_matches s.peer_node_id source ≡ true
      → (t : Session) × (learn_node s msg ≡ ok t) × (node_matches t.peer_node_id source ≡ true)
  unfolding learn_node
  learned s h = elim (Option-cases s.peer_node_id) [
    | inl e ↦ (record s { peer_node_id = some source }, rw (e, from), ==_refl source)
    | inr (n, e) ↦ (s, rw e, h)
  ]

  fresh : Session
  unfolding new_session
  fresh = record (new_session 0 0 false random) { peer_node_id = some source }

  taken_fresh :
      find_unsecure peer source st.unsecured ≡ ok none
      → (st' : Sessions) × (r : SessionRef) × (on_unsecured_message st msg peer random now
          ≡ ok (st', record { msg = msg; session = r }))
        × Accepted st st' peer source r
  unfolding on_unsecured_message get_unsecure_session choose_session learn_node fresh
  taken_fresh missing = (
    record st { unsecured = st.unsecured ++ arrived ∷ [] },
    unsecured_at (length st.unsecured),
    rw (initiates, from, missing)
        (rw from
          (rw counts (rw (set_last st.unsecured fresh (note_arrival fresh peer counter now))))),
    record {
      found_again =
          rw (find_unsecure-append peer source st.unsecured arrived known missing answers);
      known = HasPeer-append st.unsecured arrived known (answers.0, answers.1);
      secured_same = refl;
      grows = omega (arith, length-append st.unsecured (arrived ∷ []));
    },
  )
    where
      arrived : Session
      arrived = note_arrival fresh peer counter now

      answers : Answers peer source arrived
      answers = note_arrival-Answers fresh peer source counter now (==_refl source)

  taken_found :
      (i : ℕ) (s : Session)
      → find_unsecure peer source st.unsecured ≡ ok (some i)
      → get_elem? st.unsecured i ≡ some s
      → node_matches s.peer_node_id source ≡ true
      → (st' : Sessions) × (r : SessionRef) × (on_unsecured_message st msg peer random now
          ≡ ok (st', record { msg = msg; session = r }))
        × Accepted st st' peer source r
  unfolding on_unsecured_message get_unsecure_session
  taken_found i s found there h =
      let (t, learns, matches) = learned s h in
      let answers = note_arrival-Answers t peer source counter now matches in
      (
        record st { unsecured = set st.unsecured i (note_arrival t peer counter now) },
        unsecured_at i,
        rw (initiates, from, found)
            (rw (choose_session_found st (unsecured_at i) s msg 0 false random there)
              (rw (learns, counts))),
        record {
          found_again = rw (
              find_unsecure-set peer source st.unsecured i (note_arrival t peer counter now) known
                found answers);
          known =
              HasPeer-set st.unsecured i (note_arrival t peer counter now) known
                (answers.0, answers.1);
          secured_same = refl;
          grows = omega (arith, length-set st.unsecured i (note_arrival t peer counter now));
        },
      )

  -- Where every unsecured session knows an address, an initiator's message in the clear is taken on a
  -- session that the next message from that node and address finds again. Every session still knows an
  -- address, the secure ones stay as they are, and at most one session is added.
  pub on_unsecured_message-Accepted :
      (st' : Sessions) × (r : SessionRef) × (on_unsecured_message st msg peer random now
        ≡ ok (st', record { msg = msg; session = r }))
      × Accepted st st' peer source r
  on_unsecured_message-Accepted = elim (find_unsecure-total peer source st.unsecured known) [
    | inl missing ↦ taken_fresh missing
    | inr (i, s, found, there, a) ↦ taken_found i s found there (ground (arith, a.2))
  ]
