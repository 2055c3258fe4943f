-- ===== src/ExchangeManager.antt =====
-- src/message/ExchangeManager.js: the table of live exchanges, and where a session's message goes.
-- `emit` hands the message to a listener: the handler's result says to whom. An exchange is named by
-- its place in the table; every exchange's session is one of the session tables.
pub mod Routing
pub mod Distinct
pub mod Ids
pub mod Replies
use matternode.Prelude.{
  ℕ, zero, suc, ◌+◌, Bool, true, false, not, Option, none, some, List, [], ◌∷◌, ◌++◌, get_elem?,
  set, length, drop, if◌then◌else◌, ◌==◌, Result, ok, ◌>>=◌,
}
use matternode.Message.{
  Message, session_id, exchange_id, i_flag, message_counter, protocol_id, r_flag,
}
use matternode.SessionManager.{Sessions, SessionRef, session_at, new_unsecured_session}
use matternode.Exchange.{Exchange, new_exchange_object, Incoming, match}

pub record Exchanges : Type 0 where
  pub next_exchange_id : ℕ
  pub exchanges : List Exchange

abbrev pub no_exchanges : Exchanges
no_exchanges = record { next_exchange_id = 0; exchanges = [] }

-- ex.match(session, msg), with the local id of the session that the exchange refers to.
unfoldable pub matches : Sessions → SessionRef → Incoming → Exchange → Bool
matches st session msg ex = elim (session_at st ex.session) [
  | none ↦ false
  | some s ↦ match ex s.local_session_id session msg
]

-- Array.find and Array.findIndex.
unfoldable pub find_index : (Exchange → Bool) → List Exchange → Option ℕ
find_index p [] = none
find_index p (ex ∷ rest) = elim (p ex) [
  | true ↦ some 0
  | false ↦ elim (find_index p rest) [ none ↦ none | some i ↦ some (suc i) ]
]

unfoldable pub get_exchange : Sessions → Exchanges → SessionRef → Incoming → Option ℕ
get_exchange st exs session msg = find_index (matches st session msg) exs.exchanges

-- newExchange with a session and a message.
unfoldable pub new_exchange_for : Exchanges → SessionRef → ℕ → Bool → Exchanges × Exchange
unfolding new_exchange_object
new_exchange_for exs session id is_initiator =
    let ex = new_exchange_object id session is_initiator in
    (record exs { exchanges = exs.exchanges ++ ex ∷ [] }, ex)

unfoldable pub session_or_new : Sessions → Option SessionRef → ℕ → Sessions × SessionRef
unfolding new_unsecured_session
session_or_new st none random_u32 = new_unsecured_session st random_u32
session_or_new st (some r) random_u32 = (st, r)

-- newExchange without a message: the manager numbers it. Without a session it opens one.
unfoldable pub new_exchange :
    Sessions → Exchanges → Option SessionRef → Bool → ℕ → Sessions × Exchanges × Exchange
unfolding new_exchange_for session_or_new
new_exchange st exs session is_initiator random_u32 =
    let (st', r) = session_or_new st session random_u32 in
    let (exs', ex) =
      new_exchange_for (record exs { next_exchange_id = exs.next_exchange_id + 1 }) r
        exs.next_exchange_id is_initiator in
    (st', exs', ex)

-- `exchange.ExchangeId`: the class declares no such property, so it is undefined.
abbrev pub exchange_id_property : Exchange → Option ℕ
exchange_id_property ex = none

abbrev same_property : Option ℕ → Option ℕ → Bool
same_property none none = true
same_property (some a) (some b) = a == b
same_property _ _ = false

-- splice(index, 1), where findIndex has -1 for nothing found: that removes the last.
unfoldable pub splice_one : Option ℕ → List Exchange → List Exchange
splice_one _ [] = []
splice_one none (ex ∷ []) = []
splice_one none (ex ∷ next ∷ rest) = ex ∷ splice_one none (next ∷ rest)
splice_one (some zero) (ex ∷ rest) = rest
splice_one (some (suc i)) (ex ∷ rest) = ex ∷ splice_one (some i) rest

unfoldable pub delete_exchange : Exchanges → Exchange → Exchanges
delete_exchange exs exchange = record exs {
  exchanges =
      splice_one
        (find_index (λ ex. same_property (exchange_id_property ex) (exchange_id_property exchange))
          exs.exchanges)
        exs.exchanges;
}

-- Who is told of a message: an exchange's listener, or a protocol's with the new exchange.
pub data Delivery : Type 0 where
  to_exchange : ℕ → Delivery
  to_protocol : ℕ → ℕ → Delivery
  dropped : Delivery

-- The properties of a message that the routing reads.
unfoldable pub read_incoming : Message → Result Incoming
read_incoming msg = do
  session ← session_id msg
  exchange ← exchange_id msg
  i ← i_flag msg
  ok (record { session_id = session; exchange_id = exchange; i_flag = i })

-- An exchange that answers: it is the responder, and acknowledges if the message asks for it.
unfoldable pub answering : Exchange → Incoming → Bool → ℕ → Exchange
answering ex msg reliable counter = record ex {
  is_initiator = not msg.i_flag;
  is_reliable = reliable;
  is_ack = reliable;
  ack_counter = counter;
}

-- The message counter becomes the exchange's acknowledgement.
unfoldable pub note_counter : List Exchange → ℕ → ℕ → List Exchange
note_counter l i counter = elim (get_elem? l i) [
  | none ↦ l
  | some ex ↦ set l i (record ex { ack_counter = counter })
]

-- The message goes to the exchange that was found; otherwise to its protocol, if it starts something.
unfoldable pub route :
    Exchanges → Message → SessionRef → Incoming → Option ℕ → Result (Exchanges × Delivery)
unfolding new_exchange_for answering note_counter
route exs msg session incoming (some i) = do
  counter ← message_counter msg
  ok (record exs { exchanges = note_counter exs.exchanges i counter }, to_exchange i)
route exs msg session incoming none =
    if incoming.i_flag
    then (do
      protocol ← protocol_id msg
      reliable ← r_flag msg
      counter ← message_counter msg
      let (created, ex) = new_exchange_for exs session incoming.exchange_id true
      let place = length exs.exchanges
      ok (
        record created {
          exchanges = set created.exchanges place (answering ex incoming reliable counter);
        },
        to_protocol protocol place,
      ))
    else ok (exs, dropped)

unfoldable pub on_session_message :
    Sessions → Exchanges → Message → SessionRef → Result (Exchanges × Delivery)
on_session_message st exs msg session = do
  incoming ← read_incoming msg
  route exs msg session incoming (get_exchange st exs session incoming)
