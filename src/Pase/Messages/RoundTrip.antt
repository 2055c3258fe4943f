-- ===== src/Pase/Messages/RoundTrip.antt =====
-- The handshake's messages through TlvWriter and TlvReader.
use matternode.Prelude.{ℕ, ◌^◌, ◌<◌, ◌≡◌, refl, ◌∙◌, false, [], arith, length, Result, ok}
use matternode.Buffer.{Buffer, ShortBuffer}
use matternode.Tlv.{TypeName, num, Value, bytes, Platform}
use matternode.Tlv.Element.{
  context, anonymous, scalar, container, struct, unsigned, octets, Scalar, Element, no_more, more,
  json_of, value_of, print, IsElement,
}
use matternode.Tlv.Writer.{encode}
use matternode.Tlv.Reader.{value_at}
use matternode.Tlv.Parser.{map_fields, get, lookup_name}
use matternode.Tlv.Element.Templates.{
  Writes, nil-WritesEach, cons-WritesEach, hex-Writes, number-Writes, undefined-Writes,
  struct-Writes, bytes-Writes, decode_json-print, value_of-small,
}
use matternode.Pase.Messages.{
  param_request_template, param_response_template, point_template, pake2_template,
  read_param_request, read_param_response, read_point, read_pake2,
}

-- The template is written, and what is read of that is the value.
abbrev pub Round {ℓ} : {A : Type ℓ} → Platform → Value → (Buffer → Result A) → A → Type ℓ
Round platform template read value =
    (app : Buffer) × (encode platform [] template ≡ ok app) × (read app ≡ ok value)

request_element : Buffer → ℕ → ℕ → Element
request_element random id passcode = container anonymous struct (
    more (scalar (context 1) (octets random)) (
      more (scalar (context 2) (unsigned id)) (
        more (scalar (context 3) (unsigned passcode)) (
          more (scalar (context 4) (Scalar.boolean false)) (
            more
              (container (context 5) struct (
                more (scalar (context 1) (unsigned 4000))
                  (more (scalar (context 2) (unsigned 300)) no_more)))
              no_more)))))

module _ (platform : Platform) (random : Buffer) (id passcode : ℕ)
    (random_fits : length random < 256 ^ 4) (id_fits : id < 256 ^ 4)
    (passcode_fits : passcode < 256 ^ 4) where
  request_element-IsElement : IsElement platform (request_element random id passcode)
  unfolding request_element
  request_element-IsElement = omega arith

  param_request_template-Writes :
      Writes platform
        (param_request_template random id passcode)
        (request_element random id passcode)
  unfolding param_request_template request_element
  param_request_template-Writes = struct-Writes platform anonymous _ _ tt (
      cons-WritesEach platform _ _ _ _ (bytes-Writes platform 1 random (omega arith) random_fits) (
        cons-WritesEach platform _ _ _ _
          (number-Writes platform 2 TypeName.uint16 id (omega arith) (omega arith) refl)
          (cons-WritesEach platform _ _ _ _
            (number-Writes platform 3 TypeName.uint16 passcode (omega arith) (omega arith) refl)
            (cons-WritesEach platform _ _ _ _ (undefined-Writes platform 4 (omega arith)) (
              cons-WritesEach platform _ _ _ _
                (struct-Writes platform (context 5) _ _ (omega arith) (
                  cons-WritesEach platform _ _ _ _
                    (number-Writes platform 1 TypeName.uint32 4000 (omega arith) (omega arith) refl)
                    (cons-WritesEach platform _ _ _ _
                      (number-Writes platform 2 TypeName.uint32 300 (omega arith) (omega arith)
                        refl)
                      (nil-WritesEach platform))))
                (nil-WritesEach platform))))))

  read_param_request-values :
      read_param_request platform (print platform (request_element random id passcode))
      ≡ ok (value_of (octets random), value_of (unsigned id), value_of (unsigned passcode))
  unfolding read_param_request value_at map_fields get lookup_name request_element json_of
  read_param_request-values =
      rw (decode_json-print platform (request_element random id passcode) request_element-IsElement)
        refl

  read_param_request-print :
      read_param_request platform (print platform (request_element random id passcode))
      ≡ ok (bytes random, num id, num passcode)
  read_param_request-print =
      read_param_request-values
      ∙ rw (value_of-small id id_fits, value_of-small passcode passcode_fits)
          (unfold value_of in refl)

pub param_request-Round :
    (platform : Platform) (random : Buffer) (id passcode : ℕ)
    → length random < 256 ^ 4
    → id < 256 ^ 4
    → passcode < 256 ^ 4
    → Round platform
        (param_request_template random id passcode)
        (read_param_request platform)
        (bytes random, num id, num passcode)
param_request-Round platform random id passcode hr hi hp = (
  print platform (request_element random id passcode),
  param_request_template-Writes platform random id passcode hr hi hp [],
  read_param_request-print platform random id passcode hr hi hp,
)

response_element : Buffer → Buffer → ℕ → ℕ → Buffer → Element
response_element initiator responder id iterations salt = container anonymous struct (
    more (scalar (context 1) (octets initiator)) (
      more (scalar (context 2) (octets responder)) (
        more (scalar (context 3) (unsigned id)) (
          more
            (container (context 4) struct (
              more (scalar (context 1) (unsigned iterations))
                (more (scalar (context 2) (octets salt)) no_more)))
            no_more))))

pub param_response-Round :
    (platform : Platform) (initiator responder : Buffer) (id iterations : ℕ) (salt : Buffer)
    → ShortBuffer initiator
    → ShortBuffer responder
    → id < 256 ^ 4
    → iterations < 256 ^ 4
    → ShortBuffer salt
    → Round platform
        (param_response_template initiator responder id iterations salt)
        (read_param_response platform)
        (num id, num iterations, bytes salt)
unfolding param_response_template response_element
param_response-Round platform initiator responder id iterations salt hi hr hid hit hs = (
  print platform e,
  struct-Writes platform anonymous _ _ tt
      (cons-WritesEach platform _ _ _ _ (hex-Writes platform 1 initiator (omega arith) hi) (
        cons-WritesEach platform _ _ _ _ (hex-Writes platform 2 responder (omega arith) hr) (
          cons-WritesEach platform _ _ _ _
            (number-Writes platform 3 TypeName.uint16 id (omega arith) (omega arith) refl)
            (cons-WritesEach platform _ _ _ _
              (struct-Writes platform (context 4) _ _ (omega arith) (
                cons-WritesEach platform _ _ _ _
                  (number-Writes platform 1 TypeName.uint16 iterations (omega arith) (omega arith)
                    refl)
                  (cons-WritesEach platform _ _ _ _ (hex-Writes platform 2 salt (omega arith) hs)
                    (nil-WritesEach platform))))
              (nil-WritesEach platform)))))
      [],
  values ∙ rw (value_of-small id hid, value_of-small iterations hit) (unfold value_of in refl),
)
  where
    e : Element
    e = response_element initiator responder id iterations salt

    e-IsElement : IsElement platform e
    e-IsElement = omega (arith)

    values :
        read_param_response platform (print platform e)
        ≡ ok (value_of (unsigned id), value_of (unsigned iterations), value_of (octets salt))
    values =
        unfold read_param_response value_at map_fields get lookup_name response_element json_of in
        rw (decode_json-print platform e e-IsElement) refl

pub point-Round :
    (platform : Platform) (point : Buffer)
    → ShortBuffer point
    → Round platform (point_template point) (read_point platform) (bytes point)
unfolding point_template
point-Round platform point h = (
  print platform e,
  struct-Writes platform anonymous _ _ tt
      (cons-WritesEach platform _ _ _ _ (hex-Writes platform 1 point (omega arith) h)
        (nil-WritesEach platform))
      [],
  read,
)
  where
    e : Element
    e = container anonymous struct (more (scalar (context 1) (octets point)) no_more)

    e-IsElement : IsElement platform e
    e-IsElement = omega (arith)

    read : read_point platform (print platform e) ≡ ok (bytes point)
    read =
        unfold read_point value_at json_of value_of in
        rw (decode_json-print platform e e-IsElement) refl

pub pake2-Round :
    (platform : Platform) (p_b c_b : Buffer)
    → ShortBuffer p_b
    → ShortBuffer c_b
    → Round platform (pake2_template p_b c_b) (read_pake2 platform) (bytes p_b, bytes c_b)
unfolding pake2_template
pake2-Round platform p_b c_b hp hc = (
  print platform e,
  struct-Writes platform anonymous _ _ tt
      (cons-WritesEach platform _ _ _ _ (hex-Writes platform 1 p_b (omega arith) hp) (
        cons-WritesEach platform _ _ _ _ (hex-Writes platform 2 c_b (omega arith) hc)
          (nil-WritesEach platform)))
      [],
  read,
)
  where
    e : Element
    e =
        container anonymous struct
          (more (scalar (context 1) (octets p_b)) (more (scalar (context 2) (octets c_b)) no_more))

    e-IsElement : IsElement platform e
    e-IsElement = omega (arith)

    read : read_pake2 platform (print platform e) ≡ ok (bytes p_b, bytes c_b)
    read =
        unfold read_pake2 value_at json_of value_of in
        rw (decode_json-print platform e e-IsElement) refl

-- The five messages of a handshake, for buffers of fewer than 2^32 bytes and numbers below 2^32. Each
-- template is encoded, and its handler reads from the encoding: the request's random bytes, session id
-- and passcode id; the response's session id, iterations and salt; the point or confirmation of Pake1 and
-- Pake3; the point and the confirmation of Pake2.
pub messages-Round :
    (platform : Platform) (random responder salt point confirmation : Buffer)
    (initiator_id responder_id passcode iterations : ℕ)
    → ShortBuffer random
    → ShortBuffer responder
    → ShortBuffer salt
    → ShortBuffer point
    → ShortBuffer confirmation
    → initiator_id < 256 ^ 4
    → responder_id < 256 ^ 4
    → passcode < 256 ^ 4
    → iterations < 256 ^ 4
    → Round platform
        (param_request_template random initiator_id passcode)
        (read_param_request platform)
        (bytes random, num initiator_id, num passcode)
      × Round platform
          (param_response_template random responder responder_id iterations salt)
          (read_param_response platform)
          (num responder_id, num iterations, bytes salt)
      × Round platform (point_template point) (read_point platform) (bytes point)
      × Round platform
          (pake2_template point confirmation)
          (read_pake2 platform)
          (bytes point, bytes confirmation)
messages-Round platform random responder salt point confirmation iid rid passcode iterations hr hp
      hs hpt hc hi hri hpc hit =
    (
      param_request-Round platform random iid passcode hr.1 hi hpc,
      param_response-Round platform random responder rid iterations salt hr hp hri hit hs,
      point-Round platform point hpt,
      pake2-Round platform point confirmation hpt hc,
    )
