-- ===== src/Pase/Messages.antt =====
-- src/protocols/session/PaseSession.js: the templates of the handshake's messages, and how their handlers
-- read what TlvReader decodes. A buffer that stands as text in a template is its hexadecimal digits.
pub mod RoundTrip
pub mod Interface
use Prim.Native.String.{String}
use matternode.Prelude.{
  ℕ, ◌+◌, ◌-◌, ◌/◌, ◌%◌, Bool, true, false, List, [], ◌∷◌, ltb, if◌then◌else◌, Option, none, some,
  pos, Result, ok, throw, ◌>>=◌, type_error,
}
use matternode.Buffer.{Buffer}
use matternode.Tlv.{
  TypeName, num, field, untagged, Value, Values, undefined, text, bytes, array_of, nil, cons,
  Platform,
}
use matternode.Tlv.Text.{to_hex}
use matternode.Tlv.Parser.{map_fields, get}
use matternode.Tlv.Reader.{decode_json, value_at}

-- The parameters name the fourth field havePbkdfParameters, the template hasPbkdfParameters: it is undefined.
unfoldable pub param_request_template : Buffer → ℕ → ℕ → Value
param_request_template initiator_random initiator_session_id passcode_id =
    untagged TypeName.struct (
      cons (field 1 TypeName.buffer (bytes initiator_random)) (
        cons (field 2 TypeName.uint16 (num initiator_session_id)) (
          cons (field 3 TypeName.uint16 (num passcode_id)) (
            cons (field 4 TypeName.boolean undefined) (
              cons
                (field 5 TypeName.struct (
                  array_of (
                    cons (field 1 TypeName.uint32 (num 4000))
                      (cons (field 2 TypeName.uint32 (num 300)) nil))))
                nil)))))

unfoldable pub param_response_template : Buffer → Buffer → ℕ → ℕ → Buffer → Value
param_response_template initiator_random responder_random responder_session_id iterations salt =
    untagged TypeName.struct (
      cons (field 1 TypeName.buffer (text (to_hex initiator_random))) (
        cons (field 2 TypeName.buffer (text (to_hex responder_random))) (
          cons (field 3 TypeName.uint16 (num responder_session_id)) (
            cons
              (field 4 TypeName.struct (
                array_of (
                  cons (field 1 TypeName.uint16 (num iterations))
                    (cons (field 2 TypeName.buffer (text (to_hex salt))) nil))))
              nil))))

-- The templates of Pake1 and Pake3, and of Pake2.
unfoldable pub point_template : Buffer → Value
point_template point =
    untagged TypeName.struct (cons (field 1 TypeName.buffer (text (to_hex point))) nil)

unfoldable pub pake2_template : Buffer → Buffer → Value
pake2_template p_b c_b = untagged TypeName.struct (
    cons (field 1 TypeName.buffer (text (to_hex p_b)))
      (cons (field 2 TypeName.buffer (text (to_hex c_b))) nil))

-- MapMsgPasePbkdfParamRequest and MapMsgPasePbkdfParamResponse
abbrev request_names : List (ℕ × String)
request_names =
    (1, "initiatorRandom")
    ∷ (2, "initiatorSessionId")
    ∷ (3, "passcodeId")
    ∷ (4, "hasPbkdfParameters")
    ∷ (5, "initiatorSedParameters")
    ∷ []

abbrev response_names : List (ℕ × String)
response_names =
    (1, "initiatorRandom")
    ∷ (2, "responderRandom")
    ∷ (3, "responderSessionId")
    ∷ (4, "pbkdfParameters")
    ∷ []

-- The named fields of the outer struct.
named_fields : List (ℕ × String) → Value → Result Values
named_fields names (array_of fields) = map_fields fields names
named_fields names (bytes b) = ok nil
named_fields names other = throw type_error

outer_struct : Platform → Buffer → Result Value
outer_struct platform app = do decoded ← decode_json platform app; value_at (array_of decoded) 0

-- The random bytes, the session id and the passcode id of a parameter request.
unfoldable pub read_param_request : Platform → Buffer → Result (Value × Value × Value)
unfolding outer_struct named_fields
read_param_request platform app = do
  outer ← outer_struct platform app
  fields ← named_fields request_names outer
  initiator_random ← get fields "initiatorRandom"
  initiator_session_id ← get fields "initiatorSessionId"
  passcode_id ← get fields "passcodeId"
  ok (initiator_random, initiator_session_id, passcode_id)

-- The session id, the iterations and the salt of a parameter response.
unfoldable pub read_param_response : Platform → Buffer → Result (Value × Value × Value)
unfolding outer_struct named_fields
read_param_response platform app = do
  outer ← outer_struct platform app
  fields ← named_fields response_names outer
  responder_session_id ← get fields "responderSessionId"
  pbkdf_parameters ← get fields "pbkdfParameters"
  iterations ← value_at pbkdf_parameters 0
  salt ← value_at pbkdf_parameters 1
  ok (responder_session_id, iterations, salt)

-- The point of a Pake1 or the confirmation of a Pake3.
unfoldable pub read_point : Platform → Buffer → Result Value
unfolding outer_struct
read_point platform app = do outer ← outer_struct platform app; value_at outer 0

unfoldable pub read_pake2 : Platform → Buffer → Result (Value × Value)
unfolding outer_struct
read_pake2 platform app = do
  outer ← outer_struct platform app
  p_b ← value_at outer 0
  c_b ← value_at outer 1
  ok (p_b, c_b)
