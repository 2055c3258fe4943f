-- ===== src/ExchangeManager/Replies.antt =====
-- Answers to the exchanges that src/message/ExchangeManager.js opened, and how one is deleted.
use matternode.Prelude.{
  ℕ, ◌≡◌, refl, ap, sym, ◌∙◌, subst, Bool, true, false, not, inl, inr, some, List, [], ◌∷◌,
  get_elem?, set, drop, beq, ok,
}
use matternode.Message.{Message}
use matternode.SessionManager.{Sessions, SessionRef}
use matternode.Exchange.{Exchange, Incoming}
use matternode.ExchangeManager.{
  Exchanges, matches, find_index, get_exchange, delete_exchange, splice_one, to_exchange,
  on_session_message,
}
use matternode.ExchangeManager.Routing.{Reads, find_index-first, on_session_message-known}
use matternode.ExchangeManager.Distinct.{All-get_elem?, Distinct-place}
use matternode.ExchangeManager.Ids.{Reachable, Reachable-IsNumbered, matches-ids}

answer_flag : (i : Bool) → not (beq i true) ≡ true → i ≡ false
answer_flag true h = cc
answer_flag false h = refl

initiates : (i : Bool) → not (beq false i) ≡ true → i ≡ true
initiates true h = refl
initiates false h = cc

module _ (st : Sessions) (session : SessionRef) (incoming : Incoming) where
  -- An answer can match one own exchange only.
  get_exchange-own :
      (exs : Exchanges) (i : ℕ) (ex : Exchange)
      → Reachable exs
      → get_elem? exs.exchanges i ≡ some ex
      → ex.is_initiator ≡ true
      → matches st session incoming ex ≡ true
      → get_exchange st exs session incoming ≡ some i
  unfolding get_exchange
  get_exchange-own exs i ex r there own matched =
      elim (find_index-first (matches st session incoming) exs.exchanges) [
        | inl (nothing, none_match) ↦ absurd (
            false_true (
              sym (
                All-get_elem? (λ x. matches st session incoming x ≡ false) exs.exchanges i ex there
                  none_match)
              ∙ matched))
        | inr (j, x, found, there', matched', before) ↦
            found ∙ ap some (same_place j x there' matched')
      ]
    where
      false_true : ¬ (false ≡ true)
      false_true e = cc

      same_place :
          (j : ℕ) (x : Exchange)
          → get_elem? exs.exchanges j ≡ some x
          → matches st session incoming x ≡ true
          → j ≡ i
      same_place j x there' matched' =
          let (id, flag) = matches-ids st session incoming ex matched in
          let (id', flag') = matches-ids st session incoming x matched' in
          let answer : incoming.i_flag ≡ false =
            answer_flag incoming.i_flag
              (subst (λ b. not (beq incoming.i_flag b) ≡ true) own flag) in
          Distinct-place exs.exchanges j i x ex (Reachable-IsNumbered r).distinct there' there
            (initiates x.is_initiator (subst (λ b. not (beq b x.is_initiator) ≡ true) answer flag'))
            own (sym id' ∙ id)

  -- An answer to an exchange that this side opened goes to that exchange and to no other, and its
  -- counter becomes the exchange's acknowledgement, however the table came about.
  pub on_session_message-reply :
      (exs : Exchanges) (msg : Message) (protocol : ℕ) (reliable : Bool) (counter i : ℕ)
      (ex : Exchange)
      → Reachable exs
      → Reads msg incoming protocol reliable counter
      → get_elem? exs.exchanges i ≡ some ex
      → ex.is_initiator ≡ true
      → matches st session incoming ex ≡ true
      → on_session_message st exs msg session
        ≡ ok (
          record exs { exchanges = set exs.exchanges i (record ex { ack_counter = counter }) },
          to_exchange i,
        )
  on_session_message-reply exs msg protocol reliable counter i ex r reads there own matched =
      on_session_message-known st exs msg session incoming protocol reliable counter reads i ex
        (get_exchange-own exs i ex r there own matched) there

-- Whichever exchange is to be deleted, the oldest one goes and the others stay.
pub delete_exchange_lem :
    (exs : Exchanges) (ex : Exchange) → (delete_exchange exs ex).exchanges ≡ drop 1 exs.exchanges
unfolding delete_exchange splice_one find_index
delete_exchange_lem exs ex = go exs.exchanges
  where
    go : (l : List Exchange) → splice_one (find_index (λ x. true) l) l ≡ drop 1 l
    go [] = refl
    go (x ∷ l) = refl
