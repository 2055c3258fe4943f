-- ===== src/Tests/Exchanges.antt =====
-- Routing to exchanges, at concrete values.
use matternode.Prelude.{◌≡◌, refl, true, false, none, some, [], ◌∷◌, set, ok}
use matternode.Buffer.{read_le}
use matternode.Message.{
  Message, session_id, exchange_id, protocol_id, message_counter, exchange_flag, exchange_flags,
  payload, payload_offset, destination_offset, s_flag, message_flags, dsiz,
}
use matternode.SessionManager.{unsecured_at}
use matternode.Exchange.{Exchange, Incoming, match, new_exchange_object}
use matternode.ExchangeManager.{
  Exchanges, no_exchanges, matches, new_exchange, new_exchange_for, session_or_new, delete_exchange,
  to_exchange, to_protocol, read_incoming, on_session_message,
}
use matternode.ExchangeManager.Routing.{
  Reads, Routed, responder, on_session_message-Routed, on_session_message-next,
}
use matternode.ExchangeManager.Ids.{IsNumbered, Reachable, started, opened, Reachable-IsNumbered}
use matternode.ExchangeManager.Replies.{on_session_message-reply, delete_exchange_lem}
use matternode.Tests.Data.{sessions, unsecured_session, received_bytes, own_exchange}

abbrev first_message : Message
first_message = record {
  buffer = received_bytes;
  encrypted = none;
  has_source = false;
  has_destination = false;
}

abbrev incoming_first : Incoming
incoming_first = record { session_id = 0; exchange_id = 7; i_flag = true }

first-Reads : Reads first_message incoming_first 1 true 42
unfolding read_incoming session_id exchange_id protocol_id message_counter exchange_flag
    exchange_flags payload payload_offset destination_offset s_flag message_flags read_le dsiz
first-Reads = record {
  incoming_read = refl;
  protocol_read = refl;
  reliable_read = refl;
  counter_read = refl;
}

-- The peer's answer to exchange 0.
abbrev answer_message : Message
answer_message = record {
  buffer = 0 ∷ 0 ∷ 0 ∷ 0 ∷ 50 ∷ 0 ∷ 0 ∷ 0 ∷ 0 ∷ 0x21 ∷ 0 ∷ 0 ∷ 1 ∷ 0 ∷ [];
  encrypted = none;
  has_source = false;
  has_destination = false;
}

abbrev incoming_answer : Incoming
incoming_answer = record { session_id = 0; exchange_id = 0; i_flag = false }

answer-Reads : Reads answer_message incoming_answer 1 false 50
unfolding read_incoming session_id exchange_id protocol_id message_counter exchange_flag
    exchange_flags payload payload_offset destination_offset s_flag message_flags read_le dsiz
answer-Reads = record {
  incoming_read = refl;
  protocol_read = refl;
  reliable_read = refl;
  counter_read = refl;
}

on_session_message-Routed_example :
    Routed sessions no_exchanges
      (unsecured_at 0)
      incoming_first
      1
      true
      42
      (on_session_message sessions no_exchanges first_message (unsecured_at 0))
on_session_message-Routed_example =
    on_session_message-Routed sessions no_exchanges first_message (unsecured_at 0) incoming_first 1
      true 42 first-Reads

on_session_message-next_example :
    (exs' : Exchanges) × (on_session_message sessions no_exchanges first_message (unsecured_at 0)
      ≡ ok (exs', to_protocol 1 0))
    × (on_session_message sessions exs' first_message (unsecured_at 0)
        ≡ ok (
          record exs' {
            exchanges = set exs'.exchanges 0 (responder (unsecured_at 0) incoming_first true 42);
          },
          to_exchange 0,
        ))
on_session_message-next_example =
    on_session_message-next sessions no_exchanges first_message first_message (unsecured_at 0)
      unsecured_session incoming_first 1 1 true true 42 42 first-Reads first-Reads refl refl refl tt

-- The table after the first exchange of this side.
abbrev first_exchange : Exchange
first_exchange = record {
  exchange_id = 0;
  session = unsecured_at 0;
  is_initiator = true;
  is_reliable = false;
  is_ack = false;
  ack_counter = 0;
}

abbrev one_exchange : Exchanges
one_exchange = record { next_exchange_id = 1; exchanges = first_exchange ∷ [] }

one_exchange-Reachable : Reachable one_exchange
unfolding new_exchange new_exchange_for session_or_new new_exchange_object
one_exchange-Reachable = opened sessions no_exchanges (some (unsecured_at 0)) true 5 started

Reachable-IsNumbered_example : IsNumbered one_exchange
Reachable-IsNumbered_example = Reachable-IsNumbered {exs = one_exchange} one_exchange-Reachable

on_session_message-reply_example :
    on_session_message sessions one_exchange answer_message (unsecured_at 0)
    ≡ ok (
      record one_exchange { exchanges = record first_exchange { ack_counter = 50 } ∷ [] },
      to_exchange 0,
    )
unfolding matches match
on_session_message-reply_example =
    on_session_message-reply sessions (unsecured_at 0) incoming_answer one_exchange answer_message 1
      false 50 0 first_exchange one_exchange-Reachable answer-Reads refl refl refl

delete_exchange_example :
    (delete_exchange
      (record one_exchange { exchanges = first_exchange ∷ own_exchange ∷ [] })
      own_exchange).exchanges
    ≡ own_exchange ∷ []
delete_exchange_example =
    delete_exchange_lem (record one_exchange { exchanges = first_exchange ∷ own_exchange ∷ [] })
      own_exchange
