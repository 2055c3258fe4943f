-- ===== src/ExchangeManager/Routing.antt =====
-- Where src/message/ExchangeManager.js sends a message of a session.
use matternode.Prelude.{
  set-append, get_elem-append, ℕ, suc, ◌≡◌, refl, ap, Bool, true, false, not, ◌⊎◌, inl, inr, none,
  some, List, [], ◌∷◌, ◌++◌, get_elem?, take, set, length, All, ==_refl, Bool-cases, Result, ok,
}
use matternode.Message.{Message, message_counter, protocol_id, r_flag}
use matternode.Session.{Session}
use matternode.SessionManager.{Sessions, SessionRef, secure_at, unsecured_at, session_at}
use matternode.Exchange.{Exchange, new_exchange_object, Incoming, match, same_ref}
use matternode.ExchangeManager.{
  Exchanges, matches, find_index, get_exchange, new_exchange_for, Delivery, to_exchange,
  to_protocol, dropped, read_incoming, answering, note_counter, route, on_session_message,
}

-- The search ends at the first exchange that passes the test.
pub find_index-first :
    (p : Exchange → Bool) (l : List Exchange)
    → ((find_index p l ≡ none) × All (λ ex. p ex ≡ false) l)
      ⊎ ((i : ℕ) × (ex : Exchange) × (find_index p l ≡ some i)
          × (get_elem? l i ≡ some ex)
          × (p ex ≡ true)
          × All (λ ex. p ex ≡ false) (take i l))
unfolding find_index
find_index-first p [] = inl (refl, tt)
find_index-first p (ex ∷ rest) = elim (Bool-cases (p ex)) [
  | inl same ↦ inr (0, ex, rw (same, find_index), refl, same, tt)
  | inr other ↦ elim (find_index-first p rest) [
    | inl (e, h) ↦ inl (rw (other, e, find_index), (other, h))
    | inr (i, t, e, g, h, before) ↦ inr (suc i, t, rw (other, e, find_index), g, h, (other, before))
  ]
]

find_index-none :
    (p : Exchange → Bool) (l : List Exchange) → All (λ ex. p ex ≡ false) l → find_index p l ≡ none
unfolding find_index
find_index-none p [] h = refl
find_index-none p (ex ∷ l) h = rw (h.0, find_index-none p l h.1, find_index)

-- A last exchange that passes is found where no other does.
pub find_index-append :
    (p : Exchange → Bool) (l : List Exchange) (ex : Exchange)
    → All (λ ex. p ex ≡ false) l
    → p ex ≡ true
    → find_index p (l ++ ex ∷ []) ≡ some (length l)
unfolding find_index
find_index-append p [] ex h e = rw (e, find_index)
find_index-append p (t ∷ l) ex h e = rw (h.0, find_index-append p l ex h.1 e, find_index)

pub same_ref_refl : (r : SessionRef) → same_ref r r ≡ true
same_ref_refl (secure_at i) = ==_refl i
same_ref_refl (unsecured_at i) = ==_refl i

-- What the routing reads of a message.
pub record Reads (msg : Message) (incoming : Incoming) (protocol : ℕ) (reliable : Bool)
    (counter : ℕ) : Type 0 where
  pub incoming_read : read_incoming msg ≡ ok incoming
  pub protocol_read : protocol_id msg ≡ ok protocol
  pub reliable_read : r_flag msg ≡ ok reliable
  pub counter_read : message_counter msg ≡ ok counter

-- The exchange that a new conversation of the peer opens.
abbrev pub responder : SessionRef → Incoming → Bool → ℕ → Exchange
responder session incoming reliable counter = record {
  exchange_id = incoming.exchange_id;
  session = session;
  is_initiator = not incoming.i_flag;
  is_reliable = reliable;
  is_ack = reliable;
  ack_counter = counter;
}

-- The three fates of a message.
pub data Routed (st : Sessions) (exs : Exchanges) (session : SessionRef) (incoming : Incoming)
    (protocol : ℕ) (reliable : Bool) (counter : ℕ) (out : Result (Exchanges × Delivery))
    : Type 0 where
  known :
      (i : ℕ) (ex : Exchange)
      → get_elem? exs.exchanges i ≡ some ex
      → matches st session incoming ex ≡ true
      → All (λ ex. matches st session incoming ex ≡ false) (take i exs.exchanges)
      → out
        ≡ ok (
          record exs { exchanges = set exs.exchanges i (record ex { ack_counter = counter }) },
          to_exchange i,
        )
      → Routed st exs session incoming protocol reliable counter out
  unsolicited :
      All (λ ex. matches st session incoming ex ≡ false) exs.exchanges
      → incoming.i_flag ≡ true
      → out
        ≡ ok (
          record exs {
            exchanges = exs.exchanges ++ responder session incoming reliable counter ∷ [];
          },
          to_protocol protocol (length exs.exchanges),
        )
      → Routed st exs session incoming protocol reliable counter out
  stray :
      All (λ ex. matches st session incoming ex ≡ false) exs.exchanges
      → incoming.i_flag ≡ false
      → out ≡ ok (exs, dropped)
      → Routed st exs session incoming protocol reliable counter out

module _ (st : Sessions) (exs : Exchanges) (msg : Message) (session : SessionRef)
    (incoming : Incoming) (protocol : ℕ) (reliable : Bool) (counter : ℕ)
    (reads : Reads msg incoming protocol reliable counter) where
  pub on_session_message-known :
      (i : ℕ) (ex : Exchange)
      → get_exchange st exs session incoming ≡ some i
      → get_elem? exs.exchanges i ≡ some ex
      → on_session_message st exs msg session
        ≡ ok (
          record exs { exchanges = set exs.exchanges i (record ex { ack_counter = counter }) },
          to_exchange i,
        )
  unfolding on_session_message route note_counter
  on_session_message-known i ex found there =
      rw (reads.incoming_read, found) (rw (reads.counter_read) (rw (there, note_counter)))

  pub on_session_message-unsolicited :
      get_exchange st exs session incoming ≡ none
      → incoming.i_flag ≡ true
      → on_session_message st exs msg session
        ≡ ok (
          record exs {
            exchanges = exs.exchanges ++ responder session incoming reliable counter ∷ [];
          },
          to_protocol protocol (length exs.exchanges),
        )
  unfolding on_session_message route answering new_exchange_for new_exchange_object
  on_session_message-unsolicited nothing initiator =
      rw (reads.incoming_read, nothing)
        (rw (initiator) (
          rw (reads.protocol_read) (
            rw (reads.reliable_read) (
              rw (reads.counter_read) (
                ap
                  (λ l.
                    ok (record exs { exchanges = l }, to_protocol protocol (length exs.exchanges)))
                  (set-append exs.exchanges (new_exchange_object incoming.exchange_id session true)
                    (record (responder session incoming reliable counter) {
                      is_initiator = false;
                    })))))))

  on_session_message-stray :
      get_exchange st exs session incoming ≡ none
      → incoming.i_flag ≡ false
      → on_session_message st exs msg session ≡ ok (exs, dropped)
  unfolding on_session_message route
  on_session_message-stray nothing answer = rw (reads.incoming_read, nothing) (rw (answer))

  -- A message goes to the first exchange that it matches, whose acknowledgement it becomes. Without
  -- one, an initiator's message opens an exchange, its responder's side, and goes to its protocol;
  -- any other message leaves the table as it is and is dropped.
  pub on_session_message-Routed :
      Routed st exs session incoming protocol reliable counter
        (on_session_message st exs msg session)
  unfolding get_exchange
  on_session_message-Routed = elim (find_index-first (matches st session incoming) exs.exchanges) [
    | inr (i, ex, found, there, matched, before) ↦
        known i ex there matched before (on_session_message-known i ex found there)
    | inl (nothing, none_match) ↦ elim (Bool-cases incoming.i_flag) [
      | inl initiator ↦
          unsolicited none_match initiator (on_session_message-unsolicited nothing initiator)
      | inr answer ↦ stray none_match answer (on_session_message-stray nothing answer)
    ]
  ]

-- The responder's side of a conversation matches what the initiator says next.
responder-matches :
    (st : Sessions) (session : SessionRef) (s : Session) (incoming : Incoming) (reliable : Bool)
    (counter : ℕ)
    → session_at st session ≡ some s
    → s.local_session_id ≡ incoming.session_id
    → incoming.i_flag ≡ true
    → matches st session incoming (responder session incoming reliable counter) ≡ true
unfolding matches match
responder-matches st session s incoming reliable counter there own initiator = rw (there) (
    rw
      (
        initiator,
        own,
        ==_refl incoming.exchange_id,
        ==_refl incoming.session_id,
        same_ref_refl session,
      )
      refl)

-- The initiator's next message of a conversation that it opened goes to the exchange that the first
-- one made, where the session's local id is the one that the messages carry.
pub on_session_message-next :
    (st : Sessions) (exs : Exchanges) (first next : Message) (session : SessionRef) (s : Session)
    (incoming : Incoming) (protocol protocol' : ℕ) (reliable reliable' : Bool)
    (counter counter' : ℕ)
    → Reads first incoming protocol reliable counter
    → Reads next incoming protocol' reliable' counter'
    → session_at st session ≡ some s
    → s.local_session_id ≡ incoming.session_id
    → incoming.i_flag ≡ true
    → All (λ ex. matches st session incoming ex ≡ false) exs.exchanges
    → (exs' : Exchanges) × (on_session_message st exs first session
        ≡ ok (exs', to_protocol protocol (length exs.exchanges)))
      × (on_session_message st exs' next session
          ≡ ok (
            record exs' {
              exchanges =
                  set exs'.exchanges
                    (length exs.exchanges)
                    (responder session incoming reliable counter');
            },
            to_exchange (length exs.exchanges),
          ))
unfolding get_exchange
on_session_message-next st exs first next session s incoming protocol protocol' reliable reliable'
      counter counter' reads reads' there own initiator none_match =
    let opened = record exs {
      exchanges = exs.exchanges ++ responder session incoming reliable counter ∷ [];
    } in
    (
      opened,
      on_session_message-unsolicited st exs first session incoming protocol reliable counter reads
          (find_index-none (matches st session incoming) exs.exchanges none_match) initiator,
      on_session_message-known st opened next session incoming protocol' reliable' counter' reads'
          (length exs.exchanges) (responder session incoming reliable counter)
          (find_index-append (matches st session incoming) exs.exchanges _ none_match
            (responder-matches st session s incoming reliable counter there own initiator))
          (get_elem-append exs.exchanges _),
    )
