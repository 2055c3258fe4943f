-- ===== src/Pase/Messages/Interface.antt =====
-- TlvWriter, TlvReader and the templates as the TLV structures that the handshake of
-- src/protocols/session/PaseSession.js takes. What is read as another type than the field's stands for no
-- field here.
use matternode.Prelude.{ℕ, ◌≡◌, refl, [], pos, Result, ok, throw, ◌>>=◌, type_error}
use matternode.Buffer.{Buffer}
use matternode.Spake.{ParamRequest, ResponseParams, Pake2, PaseTlv}
use matternode.Tlv.{Value, number, integer, bytes, Platform}
use matternode.Tlv.Writer.{encode}
use matternode.Pase.Messages.{
  param_request_template, param_response_template, point_template, pake2_template,
  read_param_request, read_param_response, read_point, read_pake2,
}
use matternode.Pase.Messages.RoundTrip.{
  Round, param_request-Round, param_response-Round, point-Round, pake2-Round,
}

-- A template that cannot be encoded is no message.
abbrev pub written : Result Buffer → Buffer
written (ok app) = app
written (throw error) = []

as_buffer : Value → Result Buffer
as_buffer (bytes b) = ok b
as_buffer other = throw type_error

as_number : Value → Result ℕ
as_number (number (integer (pos n))) = ok n
as_number other = throw type_error

as_request : Value × Value × Value → Result ParamRequest
unfolding as_buffer as_number
as_request (random, id, passcode) = do
  initiator_random ← as_buffer random
  initiator_session_id ← as_number id
  passcode_id ← as_number passcode
  ok record {
    initiator_random = initiator_random;
    initiator_session_id = initiator_session_id;
    passcode_id = passcode_id;
  }

as_response : Value × Value × Value → Result ResponseParams
unfolding as_buffer as_number
as_response (id, count, bytes_of_salt) = do
  responder_session_id ← as_number id
  iterations ← as_number count
  salt ← as_buffer bytes_of_salt
  ok record { responder_session_id = responder_session_id; iterations = iterations; salt = salt }

as_pake2 : Value × Value → Result Pake2
unfolding as_buffer
as_pake2 (point, confirmation) = do
  p_b ← as_buffer point
  c_b ← as_buffer confirmation
  ok record { p_b = p_b; c_b = c_b }

-- What is written of a template is read as its values, and these as the fields.
pub carried {ℓ} :
    {A B : Type ℓ} (platform : Platform) (template : Value) (value : A) (fields : B)
    (read : Buffer → Result A) (take : A → Result B)
    → Round platform template read value
    → take value ≡ ok fields
    → (read (written (encode platform [] template)) >>= take) ≡ ok fields
carried platform template value fields read take (app, encoded, reads) takes =
    rw (encoded, reads) takes

unfoldable pub pase_tlv : Platform → PaseTlv
unfolding as_request as_response as_pake2 as_buffer as_number
pase_tlv platform = record {
  encode_param_request = λ r. written (
      encode platform []
        (param_request_template r.initiator_random r.initiator_session_id r.passcode_id));
  decode_param_request = λ app. read_param_request platform app >>= as_request;
  encode_param_response = λ r. written (
      encode platform [] (
        param_response_template r.initiator_random r.responder_random r.responder_session_id
          r.iterations r.salt));
  decode_param_response = λ app. read_param_response platform app >>= as_response;
  encode_point = λ b. written (encode platform [] (point_template b));
  decode_point = λ app. read_point platform app >>= as_buffer;
  encode_pake2 = λ m. written (encode platform [] (pake2_template m.p_b m.c_b));
  decode_pake2 = λ app. read_pake2 platform app >>= as_pake2;
  param_request-Round = λ r random id passcode.
      carried platform _ _ r (read_param_request platform) as_request
        (param_request-Round platform r.initiator_random r.initiator_session_id r.passcode_id
          (random.1) id passcode)
        refl;
  param_response-Round = λ r initiator responder id iterations salt.
      carried platform _ _ _ (read_param_response platform) as_response
        (param_response-Round platform r.initiator_random r.responder_random r.responder_session_id
          r.iterations r.salt initiator responder id iterations salt)
        refl;
  point-Round = λ b short.
      carried platform _ _ b (read_point platform) as_buffer (point-Round platform b short) refl;
  pake2-Round = λ m p_b c_b.
      carried platform _ _ m (read_pake2 platform) as_pake2
        (pake2-Round platform m.p_b m.c_b p_b c_b) refl;
}
