-- ===== src/InteractionModel.antt =====
-- src/protocols/interaction_model: what the paths, the commands and the reads share. The tables of
-- zzz_generated/Endpoints.json are a parameter, keyed by numbers.
pub mod Paths
pub mod Attributes
pub mod Responses
pub mod Clusters
pub mod Commands
pub mod Reads
pub mod Dispatch
use Prim.Native.String.{String}
use matternode.Prelude.{
  ℕ, ◌+◌, ◌-◌, ◌*◌, Bool, true, false, ◌&&◌, ◌||◌, List, [], ◌∷◌, ◌++◌, leb, ◌==◌, if◌then◌else◌,
  Option, none, some, pos, Error, Result, ok, throw, type_error,
}
use matternode.Buffer.{Buffer}
use matternode.Tlv.{
  Value, Values, nil, cons, number, integer, bigint, text, bytes, array_of, object, undefined,
  truth,
}
use matternode.Tlv.Text.{utf8_decode}

-- A message that the interaction model sends on the exchange of the message that it handles.
pub record Reply : Type 0 where
  pub opcode : ℕ
  pub app : Buffer

-- What was sent, and the error that ended the handler, if one did.
pub record Run : Type 0 where
  pub sent : List Reply
  pub error : Option Error

abbrev pub done : Run
done = record { sent = []; error = none }

-- One handler's part that sends at the end or throws.
abbrev pub run_of : Result (List Reply) → Run
run_of (ok sent) = record { sent = sent; error = none }
run_of (throw error) = record { sent = []; error = some error }

-- The second part runs if the first has not thrown.
unfoldable pub and_then : Run → Run → Run
and_then first second = elim first.error [
  | none ↦ record { sent = first.sent ++ second.sent; error = second.error }
  | some error ↦ first
]

is_digit : ℕ → Bool
is_digit c = leb b'0' c && leb c b'9'

digits_from : ℕ → List ℕ → Option ℕ
unfolding is_digit
digits_from acc [] = some acc
digits_from acc (c ∷ s) =
    let rest = digits_from (10 * acc + (c - b'0')) s in if is_digit c then rest else none

-- The number whose decimal form the text is.
unfoldable pub decimal : List ℕ → Option ℕ
unfolding digits_from
decimal [] = none
decimal (c ∷ []) = digits_from 0 (c ∷ [])
decimal (c ∷ d ∷ s) = if c == b'0' then none else digits_from 0 (c ∷ d ∷ s)

-- The number that a value names as a key of an object.
unfoldable pub property_key : Value → Option ℕ
property_key (number (integer (pos n))) = some n
property_key (bigint (pos n)) = some n
property_key (text s) = decimal s
property_key (bytes b) = decimal (utf8_decode b)
property_key other = none

module _ {ℓ} {A : Type ℓ} where
  unfoldable pub entry_at : List (ℕ × A) → ℕ → Option A
  entry_at [] key = none
  entry_at ((k, a) ∷ table) key = if k == key then some a else entry_at table key

  -- table[key]
  unfoldable pub property : List (ℕ × A) → Value → Option A
  property table key = elim (property_key key) [ none ↦ none | some k ↦ entry_at table k ]

-- Whether a BigInt stands in a value.
unfoldable mutual
  has_bigint : Value → Bool
  has_bigint (bigint z) = true
  has_bigint (array_of vs) = any_bigint vs
  has_bigint (object fields v) = has_bigint v
  has_bigint other = false

  pub any_bigint : Values → Bool
  any_bigint nil = false
  any_bigint (cons v vs) = has_bigint v || any_bigint vs

-- What is decoded is put into the log by JSON.stringify, which throws at a BigInt.
unfoldable pub stringified : Values → Result Values
stringified decoded = if any_bigint decoded then throw type_error else ok decoded

-- The cluster classes of each endpoint.
abbrev pub Endpoints : Type 0
Endpoints = List (ℕ × List (ℕ × String))
