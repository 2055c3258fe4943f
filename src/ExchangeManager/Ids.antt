-- ===== src/ExchangeManager/Ids.antt =====
-- The numbers of the exchanges that src/message/ExchangeManager.js opens itself.
use matternode.Prelude.{
  set-append, ℕ, ◌+◌, ◌≡◌, ap, subst, Bool, true, false, not, inl, inr, Option, none, some, [], ◌∷◌,
  ◌++◌, get_elem?, set, All, arith, beq, if-cases, Option-cases, sym, ◌∙◌, Result, ok, >>=-eq-ok,
}
use matternode.Message.{Message, message_counter, protocol_id, r_flag}
use matternode.Session.{Session}
use matternode.SessionManager.{Sessions, SessionRef, session_at}
use matternode.Exchange.{Exchange, new_exchange_object, Incoming, match}
use matternode.ExchangeManager.{
  Exchanges, no_exchanges, matches, get_exchange, new_exchange, new_exchange_for, answering,
  read_incoming, session_or_new, delete_exchange, note_counter, route, Delivery, on_session_message,
}
use matternode.ExchangeManager.Routing.{responder}
use matternode.ExchangeManager.Distinct.{
  Apart, Distinct, Numbered, acknowledging, All-snoc, All-map, Distinct-snoc, All-splice_one,
  Distinct-splice_one, All-acknowledging, Distinct-acknowledging,
}

pub record IsNumbered (exs : Exchanges) : Type 0 where
  pub below : All (Numbered exs.next_exchange_id) exs.exchanges
  pub distinct : Distinct exs.exchanges

delete_exchange-IsNumbered :
    (exs : Exchanges) (ex : Exchange) → IsNumbered exs → IsNumbered (delete_exchange exs ex)
unfolding delete_exchange
delete_exchange-IsNumbered exs ex h = record {
  below = All-splice_one (Numbered exs.next_exchange_id) _ exs.exchanges h.below;
  distinct = Distinct-splice_one _ exs.exchanges h.distinct;
}

-- A new exchange has a number that no exchange of this side has.
new_exchange-IsNumbered :
    (st : Sessions) (exs : Exchanges) (session : Option SessionRef) (i : Bool) (random : ℕ)
    → IsNumbered exs
    → IsNumbered (new_exchange st exs session i random).1
unfolding new_exchange new_exchange_for new_exchange_object
new_exchange-IsNumbered st exs session i random h = record {
  below =
      All-snoc (Numbered (exs.next_exchange_id + 1)) exs.exchanges _
        (All-map (Numbered exs.next_exchange_id) (Numbered (exs.next_exchange_id + 1)) exs.exchanges
          (λ x lt own. omega (arith, lt own)) h.below)
        (λ own. omega arith);
  distinct = Distinct-snoc exs.exchanges _ h.distinct (
      All-map (Numbered exs.next_exchange_id)
        (λ x.
          Apart x (new_exchange_object exs.next_exchange_id (session_or_new st session random).1 i))
        exs.exchanges (λ x lt own own' e. absurd (omega (arith, lt own))) h.below);
}

-- An exchange of the other side takes no number.
responder-IsNumbered :
    (exs : Exchanges) (ex : Exchange)
    → ex.is_initiator ≡ false
    → IsNumbered exs
    → IsNumbered (record exs { exchanges = exs.exchanges ++ ex ∷ [] })
responder-IsNumbered exs ex answers h = record {
  below = All-snoc (Numbered exs.next_exchange_id) exs.exchanges ex h.below (λ own. cc);
  distinct = Distinct-snoc exs.exchanges ex h.distinct (
      All-map (Numbered exs.next_exchange_id) (λ x. Apart x ex) exs.exchanges
        (λ x lt own own' e. cc) h.below);
}

set-acknowledging-IsNumbered :
    (exs : Exchanges) (i : ℕ) (ex : Exchange) (counter : ℕ)
    → get_elem? exs.exchanges i ≡ some ex
    → IsNumbered exs
    → IsNumbered (record exs { exchanges = set exs.exchanges i (acknowledging ex counter) })
set-acknowledging-IsNumbered exs i ex counter there h = record {
  below =
      All-acknowledging counter (Numbered exs.next_exchange_id) (λ x lt. lt) exs.exchanges i ex
        there h.below;
  distinct = Distinct-acknowledging counter exs.exchanges i ex there h.distinct;
}

note_counter-IsNumbered :
    (exs : Exchanges) (i counter : ℕ)
    → IsNumbered exs
    → IsNumbered (record exs { exchanges = note_counter exs.exchanges i counter })
unfolding note_counter
note_counter-IsNumbered exs i counter h = elim (Option-cases (get_elem? exs.exchanges i)) [
  | inl missing ↦ rw (missing, note_counter) h
  | inr (ex, there) ↦
      rw (there, note_counter) (set-acknowledging-IsNumbered exs i ex counter there h)
]

same_table :
    {exs exs' : Exchanges} {d d' : Delivery}
    → ◌≡◌ {A = Result (Exchanges × Delivery)} (ok (exs, d)) (ok (exs', d'))
    → exs ≡ exs'
same_table e = cc

-- Whatever is found, what a message does to the table keeps the numbers apart.
route-IsNumbered :
    (exs exs' : Exchanges) (msg : Message) (session : SessionRef) (incoming : Incoming)
    (found : Option ℕ) (d : Delivery)
    → route exs msg session incoming found ≡ ok (exs', d)
    → IsNumbered exs
    → IsNumbered exs'
unfolding route new_exchange_for answering new_exchange_object
route-IsNumbered exs exs' msg session incoming (some i) d e h =
    let (counter, read, e') = >>=-eq-ok (message_counter msg) _ e in
    subst IsNumbered (same_table e') (note_counter-IsNumbered exs i counter h)
route-IsNumbered exs exs' msg session incoming none d e h = elim (if-cases incoming.i_flag _ _ e) [
  | inr (answer, stays) ↦ subst IsNumbered (same_table stays) h
  | inl (initiator, opens) ↦
      (let (protocol, read_protocol, e₁) = >>=-eq-ok (protocol_id msg) _ opens in
        let (reliable, read_reliable, e₂) = >>=-eq-ok (r_flag msg) _ e₁ in
        let (counter, read_counter, e₃) = >>=-eq-ok (message_counter msg) _ e₂ in
        let ex = responder session incoming reliable counter in
        subst IsNumbered
          (ap (λ l. record exs { exchanges = l })
              (sym (
                set-append exs.exchanges (new_exchange_object incoming.exchange_id session true)
                  ex))
            ∙ same_table e₃)
          (responder-IsNumbered exs ex (ap not initiator) h))
]

pub data Reachable : Exchanges → Type 0 where
  started : Reachable no_exchanges
  opened :
      (st : Sessions) (exs : Exchanges) (session : Option SessionRef) (i : Bool) (random : ℕ)
      → Reachable exs
      → Reachable (new_exchange st exs session i random).1
  received :
      (st : Sessions) (exs exs' : Exchanges) (msg : Message) (session : SessionRef) (d : Delivery)
      → Reachable exs
      → on_session_message st exs msg session ≡ ok (exs', d)
      → Reachable exs'
  deleted : (exs : Exchanges) (ex : Exchange) → Reachable exs → Reachable (delete_exchange exs ex)

on_session_message-IsNumbered :
    (st : Sessions) (exs exs' : Exchanges) (msg : Message) (session : SessionRef) (d : Delivery)
    → on_session_message st exs msg session ≡ ok (exs', d)
    → IsNumbered exs
    → IsNumbered exs'
unfolding on_session_message
on_session_message-IsNumbered st exs exs' msg session d e h =
    let (incoming, read, e') = >>=-eq-ok (read_incoming msg) _ e in
    route-IsNumbered exs exs' msg session incoming (get_exchange st exs session incoming) d e' h

-- In every table that opening, receiving and deleting lead to from the empty one, the exchanges that
-- this side opened have numbers below the next one, and no two of them the same.
pub Reachable-IsNumbered : {exs : Exchanges} → Reachable exs → IsNumbered exs
Reachable-IsNumbered started = record { below = tt; distinct = tt }
Reachable-IsNumbered (opened st before session i random r) =
    new_exchange-IsNumbered st before session i random (Reachable-IsNumbered r)
Reachable-IsNumbered (received st before after msg session d r e) =
    on_session_message-IsNumbered st before after msg session d e (Reachable-IsNumbered r)
Reachable-IsNumbered (deleted before ex r) =
    delete_exchange-IsNumbered before ex (Reachable-IsNumbered r)

-- What a match says of the two ends.
pub matches-ids :
    (st : Sessions) (session : SessionRef) (incoming : Incoming) (ex : Exchange)
    → matches st session incoming ex ≡ true
    → (incoming.exchange_id ≡ ex.exchange_id) × (not (beq incoming.i_flag ex.is_initiator) ≡ true)
unfolding matches match
matches-ids st session incoming ex h = go (session_at st ex.session) h
  where
    go :
        (o : Option Session)
        → elim o [ none ↦ false | some s ↦ match ex s.local_session_id session incoming ] ≡ true
        → (incoming.exchange_id ≡ ex.exchange_id)
          × (not (beq incoming.i_flag ex.is_initiator) ≡ true)
    go none h = cc
    go (some s) h = (ground arith, ground arith)
