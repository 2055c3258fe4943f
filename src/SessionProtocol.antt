-- ===== src/SessionProtocol.antt =====
-- src/protocols/session/SessionProtocol.js: the handshakes of the exchanges that peers open. An exchange
-- is a number that stands for the object.
pub mod Once
use matternode.Prelude.{
  ℕ, Bool, true, false, Option, none, some, List, [], ◌∷◌, ◌++◌, if◌then◌else◌, ◌==◌, Result, ok,
  ◌>>=◌,
}
use matternode.Buffer.{Buffer}
use matternode.Spake.{Spake, PaseTlv}
use matternode.SessionManager.{Sessions}
use matternode.Pase.{Pase, create, World, Sent}
use matternode.Pase.Pake.{Draws, on_exchange_message}

pub record SessionProtocol : Type 0 where
  pub pase_sessions : List (ℕ × Pase)
  pub pairing_codes : ℕ → Bool

abbrev pub no_handshakes : SessionProtocol
no_handshakes = record { pase_sessions = []; pairing_codes = λ code. false }

unfoldable pub pairing_code_add : SessionProtocol → ℕ → SessionProtocol
pairing_code_add sp code = record sp {
  pairing_codes = λ other. if other == code then true else sp.pairing_codes other;
}

unfoldable pub pairing_code_remove : SessionProtocol → ℕ → SessionProtocol
pairing_code_remove sp code = record sp {
  pairing_codes = λ other. if other == code then false else sp.pairing_codes other;
}

-- Array.find
unfoldable pub get_pase : List (ℕ × Pase) → ℕ → Option Pase
get_pase [] exchange = none
get_pase ((ex, pase) ∷ rest) exchange = elim (ex == exchange) [
  | true ↦ some pase
  | false ↦ get_pase rest exchange
]

-- newPase: the new handshake stands at the end, in the state that its first message leaves.
unfoldable pub new_pase : SessionProtocol → ℕ → Pase → SessionProtocol
new_pase sp exchange pase = record sp { pase_sessions = sp.pase_sessions ++ (exchange, pase) ∷ [] }

-- What the handler leaves: itself, the session tables, and what was sent on the exchange.
pub record Reaction : Type 0 where
  pub protocol : SessionProtocol
  pub sessions : Sessions
  pub sent : List Sent

module _ (spake : Spake) (tlv : PaseTlv) where
  unfoldable pub on_protocol_message :
      SessionProtocol → Sessions → ℕ → ℕ → Buffer → Draws → Result Reaction
  unfolding new_pase
  on_protocol_message sp st opcode exchange app draws =
      if opcode == 0x20
      then elim (get_pase sp.pase_sessions exchange) [
        | some pase ↦ ok (record { protocol = sp; sessions = st; sent = [] })
        | none ↦ (do
          w ←
              on_exchange_message spake tlv (record { pase = create; sessions = st; sent = [] })
                opcode app draws
          ok record {
            protocol = new_pase sp exchange w.pase;
            sessions = w.sessions;
            sent = w.sent;
          })
      ]
      else ok (record { protocol = sp; sessions = st; sent = [] })
