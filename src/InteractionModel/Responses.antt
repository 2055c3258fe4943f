-- ===== src/InteractionModel/Responses.antt =====
-- src/protocols/interaction_model/ImCommandMixin.js: the two kinds of answer to a command.
use matternode.Prelude.{ℕ, false, List, [], ◌∷◌, Result, ok, ◌>>=◌}
use matternode.Tlv.{
  TypeName, num, field, untyped, untagged, struct, array, boolean, uint8, Value, Values, undefined,
  truth, array_of, nil, cons, Platform,
}
use matternode.Tlv.Writer.{encode}
use matternode.InteractionModel.{Reply}
use matternode.InteractionModel.Paths.{CommandPath, command_path_template}

abbrev tagged : ℕ → TypeName → Values → Value
tagged tag kind vs = field tag kind (array_of vs)

-- The InvokeResponseMessage around its one InvokeResponseIB.
invoke_response : Value → Value → Value
invoke_response suppress response = untagged struct (
    cons (field 0 boolean suppress) (
      cons (tagged 1 array (cons (untagged struct (cons response nil)) nil))
        (cons (field 0xFF uint8 (num 1)) nil)))

-- The parameters name suppressResponse, the template supressedResponse: it is undefined.
unfoldable pub response_status_template : CommandPath → ℕ → Value
unfolding invoke_response
response_status_template path status = invoke_response undefined (
    tagged 1 struct (
      cons (command_path_template path 0)
        (cons (tagged 1 struct (cons (untyped 0 (num status)) nil)) nil)))

unfoldable pub response_data_template : CommandPath → Values → Value
unfolding invoke_response
response_data_template path command_data = invoke_response (truth false) (
    tagged 0 struct (cons (command_path_template path 0) (cons (tagged 1 struct command_data) nil)))

module _ (platform : Platform) where
  -- sendInvokeCommandResponseRaw of what the writer encodes.
  send_response : Value → Result (List Reply)
  send_response template = do
    app ← encode platform [] template
    ok (record { opcode = 9; app = app } ∷ [])

  unfoldable pub send_response_status : CommandPath → ℕ → Result (List Reply)
  unfolding send_response
  send_response_status path status = send_response (response_status_template path status)

  unfoldable pub send_response_data : CommandPath → Values → Result (List Reply)
  unfolding send_response
  send_response_data path command_data = send_response (response_data_template path command_data)
