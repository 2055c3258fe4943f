-- ===== src/InteractionModel/Dispatch/Unanswered.antt =====
-- Requests that src/protocols/interaction_model/InteractionModel.js leaves without an answer.
use matternode.Prelude.{ℕ, ◌≡◌, refl, ◌⊎◌, inl, inr, true, [], some, ok, type_error}
use matternode.Tlv.{Platform}
use matternode.Tlv.Element.{Elements, json_of_each, print_each, AreElements}
use matternode.Tlv.Element.RoundTrip.{decode-print}
use matternode.Tlv.Reader.{decode_json, json}
use matternode.InteractionModel.{Endpoints, any_bigint, stringified}
use matternode.InteractionModel.Clusters.{Credentials}
use matternode.InteractionModel.Commands.{on_invoke_command_request}
use matternode.InteractionModel.Reads.{on_read_request}
use matternode.InteractionModel.Dispatch.{on_protocol_message}

decode_json-print_each :
    (platform : Platform) (es : Elements)
    → AreElements platform es
    → decode_json platform (print_each platform es) ≡ ok (json_of_each es)
unfolding decode_json json
decode_json-print_each platform es h = rw (decode-print platform es h) refl

-- A read or an invoke request with an integer that is read as a BigInt, wherever in it that stands, is not
-- answered: the handler throws a TypeError when it puts the request into the log.
pub on_protocol_message_bigint :
    (platform : Platform) (credentials : Credentials) (endpoints : Endpoints) (opcode : ℕ)
    (es : Elements)
    → (opcode ≡ 2) ⊎ (opcode ≡ 8)
    → AreElements platform es
    → any_bigint (json_of_each es) ≡ true
    → on_protocol_message platform credentials endpoints opcode (print_each platform es)
      ≡ record { sent = []; error = some type_error }
unfolding on_protocol_message on_read_request on_invoke_command_request stringified
on_protocol_message_bigint platform credentials endpoints opcode es (inl reads) h wide =
    rw (reads, decode_json-print_each platform es h, wide) refl
on_protocol_message_bigint platform credentials endpoints opcode es (inr invokes) h wide =
    rw (invokes, decode_json-print_each platform es h, wide) refl
