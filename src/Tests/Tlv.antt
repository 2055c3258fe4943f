-- ===== src/Tests/Tlv.antt =====
-- TLV elements and the handshake's messages at concrete values.
use matternode.Prelude.{
  ◌≡◌, ◌<◌, refl, true, false, none, some, [], ◌∷◌, arith, pos, negsuc, ok, throw, type_error,
}
use matternode.Tlv.{integer, fraction, uint16, bytes, num, field, array_of, nil, cons, Platform}
use matternode.Tlv.Codec.{encode_unsigned_int, encode_control_byte, tag_bytes}
use matternode.Buffer.{write_le, alloc}
use matternode.Tlv.Element.{
  Elements, no_more, more, scalar, container, struct as structure, list, anonymous, context, common,
  qualified, unsigned, signed, string, octets, double, Scalar, json_of_each, print_each,
}
use matternode.Tlv.Element.RoundTrip.{decode-encode}
use matternode.Tlv.Reader.{new_reader, decode}
use matternode.Tlv.Reader.Ends.{decode_total}
use matternode.Tlv.Text.{units, utf8}
use matternode.Tlv.Writer.{encode, encode_object, put_unsigned_int, put_string}
use matternode.Tlv.Writer.Limits.{encode_small_bigint, put_string_short, wide_json}
use matternode.Pase.Messages.{
  param_request_template, param_response_template, point_template, pake2_template,
  read_param_request, read_param_response, read_point, read_pake2,
}
use matternode.Pase.Messages.RoundTrip.{Round, messages-Round}

-- Every double is a fraction; no single is kept, and nothing coerces.
abbrev pub plain_platform : Platform
plain_platform = record {
  of_float = fraction;
  of_double = fraction;
  to_float = λ x. 0;
  to_float-lt = λ x. omega arith;
  is_nan = λ bits. false;
  to_number = λ v. integer (pos 0);
  to_byte = λ bits. 0;
  signed_other = λ v. throw type_error;
  unsigned_other = λ v. throw type_error;
}

-- A structure with a list in it, behind an element with a profile of its own.
abbrev two_elements : Elements
two_elements = more (scalar (qualified 0xFFF1 0x1_0000) (signed (negsuc 299))) (
    more
      (container anonymous structure (
        more (scalar (context 1) (unsigned 70000)) (
          more (scalar (context 2) (string (b'h' ∷ b'i' ∷ []))) (
            more (scalar (common 5) (octets (0xFF ∷ 0 ∷ []))) (
              more
                (container (context 3) list (
                  more (scalar anonymous (double 7))
                    (more (scalar (context 4) (Scalar.boolean true)) no_more)))
                no_more)))))
      no_more)

decode-encode_example :
    (encode plain_platform [] (array_of (json_of_each two_elements))
      ≡ ok (print_each plain_platform two_elements))
    × (decode plain_platform new_reader (print_each plain_platform two_elements)
        ≡ some (ok (record { filling = json_of_each two_elements; frames = [] })))
decode-encode_example = decode-encode plain_platform two_elements (
  omega arith,
  (
    (
      tt,
      (
        omega arith,
        (
          omega arith,
          (omega arith, ((omega arith, ((tt, (omega arith, refl)), (omega arith, tt))), tt)),
        ),
      ),
    ),
    tt,
  ),
)

-- A control byte without the value that it announces.
decode_total_example :
    (outcome : _) × (decode plain_platform new_reader (0x15 ∷ 0x24 ∷ []) ≡ some outcome)
decode_total_example = decode_total plain_platform new_reader (0x15 ∷ 0x24 ∷ [])

encode_small_bigint_example :
    (decode plain_platform new_reader (0x07 ∷ 5 ∷ 0 ∷ 0 ∷ 0 ∷ 0 ∷ 0 ∷ 0 ∷ 0 ∷ [])
      ≡ some (ok (record { filling = cons (wide_json 5) nil; frames = [] })))
    × (encode plain_platform [] (array_of (cons (wide_json 5) nil)) ≡ throw type_error)
encode_small_bigint_example = encode_small_bigint plain_platform 5 (omega arith)

-- A letter with an umlaut.
put_string_short_example :
    (put_string [] (0xE4 ∷ []) none none ≡ ok (0x0C ∷ 1 ∷ 0xC3 ∷ 0xA4 ∷ [])) × (1 < 2)
unfolding units utf8
put_string_short_example = put_string_short (0xE4 ∷ []) refl (omega arith)

messages-Round_example :
    Round plain_platform
      (param_request_template (1 ∷ 2 ∷ []) 7 0)
      (read_param_request plain_platform)
      (bytes (1 ∷ 2 ∷ []), num 7, num 0)
    × Round plain_platform
        (param_response_template (1 ∷ 2 ∷ []) (3 ∷ []) 8 1000 (9 ∷ []))
        (read_param_response plain_platform)
        (num 8, num 1000, bytes (9 ∷ []))
    × Round plain_platform
        (point_template (4 ∷ 0xAB ∷ []))
        (read_point plain_platform)
        (bytes (4 ∷ 0xAB ∷ []))
    × Round plain_platform
        (pake2_template (4 ∷ 0xAB ∷ []) (6 ∷ []))
        (read_pake2 plain_platform)
        (bytes (4 ∷ 0xAB ∷ []), bytes (6 ∷ []))
messages-Round_example =
    messages-Round plain_platform (1 ∷ 2 ∷ []) (3 ∷ []) (9 ∷ []) (4 ∷ 0xAB ∷ []) (6 ∷ []) 7 8 0 1000
      (omega arith) (omega arith) (omega arith) (omega arith) (omega arith) (omega arith)
      (omega arith) (omega arith) (omega arith)

-- Tests.
encode_tests :
    encode plain_platform [] (field 1 uint16 (num 70000)) ≡ ok (0x26 ∷ 1 ∷ 0x70 ∷ 0x11 ∷ 1 ∷ 0 ∷ [])
unfolding encode encode_object put_unsigned_int encode_unsigned_int write_le alloc
    encode_control_byte tag_bytes
encode_tests = refl
