-- ===== src/AsyncQueue.antt =====
-- src/async/AsyncQueue.js: a queue whose `dequeue` returns a promise, of a value that may come later.
-- A promise is its number, in the order of making; `settled` tells which promises were resolved, and
-- with what.
pub mod Order
use matternode.Prelude.{
  ℕ, ◌+◌, Bool, true, false, Option, none, some, List, [], ◌∷◌, ◌++◌, if◌then◌else◌,
}

module _ {ℓ} {A : Type ℓ} where
  abbrev pub is_nil : List A → Bool
  is_nil [] = true
  is_nil (x ∷ l) = false

pub record AsyncQueue (A : Type 0) : Type 0 where
  pub resolvers : List ℕ
  pub promises : List ℕ
  pub made : ℕ
  pub settled : List (ℕ × A)

module _ {A : Type 0} where
  abbrev pub empty_queue : AsyncQueue A
  empty_queue = record { resolvers = []; promises = []; made = 0; settled = [] }

  unfoldable pub create_entry : AsyncQueue A → AsyncQueue A
  create_entry q = record q {
    resolvers = q.resolvers ++ q.made ∷ [];
    promises = q.promises ++ q.made ∷ [];
    made = q.made + 1;
  }

  unfoldable pub is_empty : AsyncQueue A → Bool
  is_empty q = is_nil q.promises

  -- resolvers.shift()(v)
  unfoldable pub resolve_first : AsyncQueue A → A → AsyncQueue A
  resolve_first q v = elim q.resolvers [
    | [] ↦ q
    | p ∷ rest ↦ record q { resolvers = rest; settled = q.settled ++ (p, v) ∷ [] }
  ]

  unfoldable pub enqueue : AsyncQueue A → A → AsyncQueue A
  unfolding create_entry
  enqueue q v = resolve_first (if is_nil q.resolvers then create_entry q else q) v

  -- promises.shift(), with what is left
  unfoldable pub take_first : AsyncQueue A → AsyncQueue A × Option ℕ
  take_first q = elim q.promises [
    | [] ↦ (q, none)
    | p ∷ rest ↦ (record q { promises = rest }, some p)
  ]

  unfoldable pub dequeue : AsyncQueue A → AsyncQueue A × Option ℕ
  unfolding create_entry
  dequeue q = take_first (if is_nil q.promises then create_entry q else q)
