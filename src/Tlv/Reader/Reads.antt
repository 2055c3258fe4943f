-- ===== src/Tlv/Reader/Reads.antt =====
-- What TlvReader makes of the bytes of an element is the element's JSON.
use matternode.Prelude.{
  ℕ, ◌+◌, ◌*◌, ◌/◌, ◌<◌, ◌≡◌, refl, ap, ◌∙◌, true, false, List, ◌∷◌, ◌++◌, append_assoc, ◌==◌,
  if◌then◌else◌, some, arith, length, drop, drop-append, get_elem?, ok,
}
use matternode.Buffer.{Buffer}
use matternode.Tlv.{
  Value, Values, undefined, array_of, object, nil, push, Platform, uint8, uint16, uint32, uint64,
  int8, int16, int32, int64, string_len, buffer_len,
}
use matternode.Tlv.Codec.Decode.{
  Control, TagLength, tag_controls, element_types, decode_value_and_length,
}
use matternode.Tlv.Codec.Numbers.{width, signed_width}
use matternode.Tlv.Codec.ControlByte.{decode_control_byte-print, decode_tag_and_length-print}
use matternode.Tlv.Element.{
  Tag, anonymous, tag_control, IsTag, tag_of, profile_of, print_head, print_tag, Scalar, Container,
  IsScalar, print_scalar, type_code, width_code, kind_of, value_of, container_code, container_kind,
  json_of, print, fields_of, scalar, unsigned, signed, single, string, octets, struct, array, list,
}
use matternode.Tlv.Writer.Pieces.{width-IsWidth, signed_width-IsWidth}
use matternode.Tlv.Reader.{Frame, cursor, place, decode_element}
use matternode.Tlv.Reader.Scalars.{at_width, decode_value_and_length-print}

-- The type that the reader names is that of the JSON.
type_at : (s : Scalar) → get_elem? element_types (type_code s) ≡ some (kind_of s)
unfolding type_code kind_of
type_at (unsigned n) =
    at_width
      (λ k.
        get_elem? element_types (0x04 + width_code k)
        ≡ some (
            if k == 1 then uint8 else if k == 2 then uint16 else if k == 4 then uint32 else uint64))
      (width n) (width-IsWidth n) refl refl refl refl
type_at (signed z) =
    at_width
      (λ k.
        get_elem? element_types (width_code k)
        ≡ some (if k == 1 then int8 else if k == 2 then int16 else if k == 4 then int32 else int64))
      (signed_width z) (signed_width-IsWidth z) refl refl refl refl
type_at (string s) =
    at_width (λ k. get_elem? element_types (0x0C + width_code k) ≡ some (string_len k))
      (width (length s)) (width-IsWidth (length s)) refl refl refl refl
type_at (octets b) =
    at_width (λ k. get_elem? element_types (0x10 + width_code k) ≡ some (buffer_len k))
      (width (length b)) (width-IsWidth (length b)) refl refl refl refl
type_at Scalar.null = refl
type_at (Scalar.boolean true) = refl
type_at (Scalar.boolean false) = refl
type_at (single x) = refl
type_at (Scalar.double bits) = refl

type_code-lt : (s : Scalar) → type_code s < 0x15
unfolding type_code width_code
type_code-lt (unsigned n) = ground arith
type_code-lt (signed z) = ground arith
type_code-lt (string s) = ground arith
type_code-lt (octets b) = ground arith
type_code-lt Scalar.null = omega arith
type_code-lt (Scalar.boolean b) = ground arith
type_code-lt (single x) = omega arith
type_code-lt (Scalar.double bits) = omega arith

-- What the reader knows after the head.
abbrev control_of : Tag → ℕ → Control
control_of tag code = record {
  type_num = code;
  tag_type = 32 * tag_control tag;
  kind = get_elem? element_types code;
  tag_type_name = get_elem? tag_controls (32 * tag_control tag / 32);
}

abbrev tag_read : Tag → TagLength
tag_read tag = record {
  tag = tag_of tag;
  tag_length = length (print_tag tag);
  profile = profile_of tag;
}

drop_head :
    (tag : Tag) (code : ℕ) (rest : Buffer)
    → drop 1 (print_head tag code ++ rest) ≡ print_tag tag ++ rest
unfolding print_head
drop_head tag code rest = refl

place-scalar :
    (tag : Tag) (s : Scalar) (body rest : Buffer) (filling : Values) (inner : List Frame)
    → place
        (control_of tag (type_code s))
        (tag_read tag)
        (body ++ rest)
        filling
        inner
        (value_of s, length body)
      ≡ cursor rest (push filling (object (fields_of tag (kind_of s)) (value_of s))) inner true
unfolding place
place-scalar tag s body rest filling inner =
    rw (drop-append body rest) (rw (type_at s) (ground (arith, type_code-lt s)))

module _ (platform : Platform) where
  -- A round at a head whose value is known.
  decode_element-head :
      (tag : Tag) (code : ℕ) (rest : Buffer) (filling : Values) (inner : List Frame) (v : Value × ℕ)
      → IsTag tag
      → code < 32
      → decode_value_and_length platform rest code ≡ ok v
      → decode_element platform (print_head tag code ++ rest) filling inner
        ≡ ok (place (control_of tag code) (tag_read tag) rest filling inner v)
  unfolding decode_element
  decode_element-head tag code rest filling inner v valid small value =
      rw (decode_control_byte-print tag code rest small) (
        rw (drop_head tag code rest) (
          rw (decode_tag_and_length-print tag rest valid)
            (rw (drop-append (print_tag tag) rest) (rw value refl))))

  -- A scalar joins the array.
  pub decode_element-scalar :
      (tag : Tag) (s : Scalar) (rest : Buffer) (filling : Values) (inner : List Frame)
      → IsTag tag
      → IsScalar platform s
      → decode_element platform (print platform (scalar tag s) ++ rest) filling inner
        ≡ ok (cursor rest (push filling (json_of (scalar tag s))) inner true)
  unfolding print json_of
  decode_element-scalar tag s rest filling inner valid h =
      let body = print_scalar platform s in
      rw (append_assoc (print_head tag (type_code s)) body rest) (
        decode_element-head tag (type_code s) (body ++ rest) filling inner (value_of s, length body)
          valid (omega (arith, type_code-lt s)) (decode_value_and_length-print platform s rest h)
        ∙ ap ok (place-scalar tag s body rest filling inner))

  -- A container's head opens it.
  pub decode_element-open :
      (tag : Tag) (kind : Container) (rest : Buffer) (filling : Values) (inner : List Frame)
      → IsTag tag
      → decode_element platform (print_head tag (container_code kind) ++ rest) filling inner
        ≡ ok (
            cursor rest nil
              (record { fields = fields_of tag (container_kind kind); outer = filling } ∷ inner)
              true)
  unfolding container_code container_kind
  decode_element-open tag struct rest filling inner valid =
      decode_element-head tag 0x15 rest filling inner (array_of nil, 0) valid (omega arith)
        (unfold decode_value_and_length in refl)
      ∙ unfold place in refl
  decode_element-open tag array rest filling inner valid =
      decode_element-head tag 0x16 rest filling inner (array_of nil, 0) valid (omega arith)
        (unfold decode_value_and_length in refl)
      ∙ unfold place in refl
  decode_element-open tag list rest filling inner valid =
      decode_element-head tag 0x17 rest filling inner (array_of nil, 0) valid (omega arith)
        (unfold decode_value_and_length in refl)
      ∙ unfold place in refl

  -- The end byte closes the innermost container.
  pub decode_element-close :
      (rest : Buffer) (filling : Values) (frame : Frame) (inner : List Frame)
      → decode_element platform (0x18 ∷ rest) filling (frame ∷ inner)
        ≡ ok (cursor rest (push frame.outer (object frame.fields (array_of filling))) inner true)
  unfolding print_head tag_control print_tag place
  decode_element-close rest filling frame inner =
      decode_element-head anonymous 0x18 rest filling (frame ∷ inner) (undefined, 0) tt
        (omega arith) (unfold decode_value_and_length in refl)
