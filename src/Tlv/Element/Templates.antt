-- ===== src/Tlv/Element/Templates.antt =====
-- JSON as the program writes it in its templates, where types and widths are not those that a reader
-- names, against the format's elements.
use matternode.Prelude.{
  ℕ, ◌^◌, ◌<◌, ◌≡◌, refl, sym, ap, ◌∙◌, Bool, true, false, [], ◌++◌, append_assoc, append-nil, none,
  some, arith, length, pos, ok,
}
use matternode.Buffer.{ShortBuffer, Buffer}
use matternode.Tlv.{
  TypeName, num, field, untyped, Value, Values, undefined, truth, text, bytes, array_of, object,
  nil, cons, Platform,
}
use matternode.Tlv.Codec.Numbers.{width}
use matternode.Tlv.Element.{
  Tag, Container, context, scalar, container, struct, unsigned, string, octets, Scalar, Element,
  Elements, no_more, more, json_of, json_of_each, type_code, print_scalar, kind_of, value_of,
  fields_of, container_kind, IsTag, print, print_each, IsElement,
}
use matternode.Tlv.Element.RoundTrip.{decode-print}
use matternode.Tlv.Text.{to_hex, from_hex-to_hex}
use matternode.Tlv.Writer.{encode, encode_each, encode_object, put_boolean, put_string}
use matternode.Tlv.Writer.Appends.{bracket, put_unsigned_int-number, put_bytes-print, encode-print}
use matternode.Tlv.Reader.{new_reader, decode, decode_json, json}

-- What a template's value appends is an element's bytes.
abbrev pub Writes : Platform → Value → Element → Type 0
Writes platform v e = (buf : Buffer) → encode platform buf v ≡ ok (buf ++ print platform e)

abbrev pub WritesEach : Platform → Values → Elements → Type 0
WritesEach platform vs es =
    (buf : Buffer) → encode_each platform buf vs ≡ ok (buf ++ print_each platform es)

-- The types under which a number is written as an unsigned integer.
abbrev pub is_unsigned : TypeName → Bool
is_unsigned TypeName.uint8 = true
is_unsigned TypeName.uint16 = true
is_unsigned TypeName.uint32 = true
is_unsigned TypeName.uint64 = true
is_unsigned TypeName.other = true
is_unsigned _ = false

print_each-one :
    (platform : Platform) (e : Element) → print_each platform (more e no_more) ≡ print platform e
unfolding print
print_each-one platform e = append-nil (print platform e)

module _ (platform : Platform) where
  pub nil-WritesEach : WritesEach platform nil no_more
  unfolding encode print
  nil-WritesEach buf = ap ok (sym (append-nil buf))

  pub cons-WritesEach :
      (v : Value) (vs : Values) (e : Element) (es : Elements)
      → Writes platform v e
      → WritesEach platform vs es
      → WritesEach platform (cons v vs) (more e es)
  unfolding encode print
  cons-WritesEach v vs e es first rest buf = rw (first buf) (
      rest (buf ++ print platform e)
      ∙ ap ok (append_assoc buf (print platform e) (print_each platform es)))

  pub hex-Writes :
      (t : ℕ) (b : Buffer)
      → t < 256
      → ShortBuffer b
      → Writes platform (field t TypeName.buffer (text (to_hex b))) (scalar (context t) (octets b))
  unfolding encode encode_object print
  hex-Writes t b small h buf =
      rw (from_hex-to_hex b h.0)
        (unfold type_code print_scalar in put_bytes-print platform buf (context t) small b h.1)

  pub number-Writes :
      (t : ℕ) (kind : TypeName) (n : ℕ)
      → t < 256
      → n < 256 ^ 8
      → is_unsigned kind ≡ true
      → Writes platform (field t kind (num n)) (scalar (context t) (unsigned n))
  unfolding encode encode_object
  number-Writes t TypeName.uint8 n small h e buf =
      put_unsigned_int-number platform buf (context t) small n h
  number-Writes t TypeName.uint16 n small h e buf =
      put_unsigned_int-number platform buf (context t) small n h
  number-Writes t TypeName.uint32 n small h e buf =
      put_unsigned_int-number platform buf (context t) small n h
  number-Writes t TypeName.uint64 n small h e buf =
      put_unsigned_int-number platform buf (context t) small n h
  number-Writes t TypeName.other n small h e buf =
      put_unsigned_int-number platform buf (context t) small n h
  number-Writes t kind n small h e buf = absurd (cc)

  -- A number without a type.
  pub untyped-Writes :
      (t n : ℕ)
      → t < 256
      → n < 256 ^ 8
      → Writes platform (untyped t (num n)) (scalar (context t) (unsigned n))
  unfolding encode encode_object
  untyped-Writes t n small h buf = put_unsigned_int-number platform buf (context t) small n h

  -- An empty text, of a type that is none of the writer's.
  pub empty_text-Writes :
      (t : ℕ)
      → t < 256
      → Writes platform (field t TypeName.other (text [])) (scalar (context t) (string []))
  unfolding encode encode_object
  empty_text-Writes t small buf =
      put_string-empty
      ∙ encode-print platform (scalar (context t) (string [])) buf (small, omega arith)
    where
      put_string-empty :
          put_string buf [] (some (pos t)) none
          ≡ encode platform buf (json_of (scalar (context t) (string [])))
      put_string-empty = unfold json_of kind_of value_of in refl

  pub truth-Writes :
      (t : ℕ) (b : Bool)
      → t < 256
      → Writes platform (field t TypeName.boolean (truth b)) (scalar (context t) (Scalar.boolean b))
  unfolding json_of kind_of value_of
  truth-Writes t b small buf =
      encode-print platform (scalar (context t) (Scalar.boolean b)) buf (small, tt)

  -- A flag that is undefined is written as false.
  pub undefined-Writes :
      (t : ℕ)
      → t < 256
      → Writes platform
          (field t TypeName.boolean undefined)
          (scalar (context t) (Scalar.boolean false))
  unfolding encode encode_object
  undefined-Writes t small buf =
      put_boolean-undefined
      ∙ encode-print platform (scalar (context t) (Scalar.boolean false)) buf (small, tt)
    where
      put_boolean-undefined :
          put_boolean platform buf undefined (some (pos t)) none
          ≡ encode platform buf (json_of (scalar (context t) (Scalar.boolean false)))
      put_boolean-undefined = unfold put_boolean json_of kind_of value_of in refl

  pub container-Writes :
      (tag : Tag) (kind : Container) (vs : Values) (es : Elements)
      → IsTag tag
      → WritesEach platform vs es
      → Writes platform
          (object (fields_of tag (container_kind kind)) (array_of vs))
          (container tag kind es)
  unfolding encode print
  container-Writes tag kind vs es valid inside buf =
      bracket platform buf tag kind (print_each platform es) (array_of vs) _ _ valid inside

  pub struct-Writes :
      (tag : Tag) (vs : Values) (es : Elements)
      → IsTag tag
      → WritesEach platform vs es
      → Writes platform
          (object (fields_of tag TypeName.struct) (array_of vs))
          (container tag struct es)
  unfolding container_kind
  struct-Writes tag vs es valid inside = container-Writes tag struct vs es valid inside

  pub bytes-Writes :
      (t : ℕ) (b : Buffer)
      → t < 256
      → length b < 256 ^ 4
      → Writes platform (field t TypeName.buffer (bytes b)) (scalar (context t) (octets b))
  unfolding encode encode_object print
  bytes-Writes t b small h buf =
      unfold type_code print_scalar in put_bytes-print platform buf (context t) small b h

  pub decode_json-print :
      (e : Element)
      → IsElement platform e
      → decode_json platform (print platform e) ≡ ok (cons (json_of e) nil)
  unfolding decode_json
  decode_json-print e h = rw (decoded) (unfold json json_of in refl)
    where
      decoded :
          decode platform new_reader (print platform e)
          ≡ some (ok (record { filling = json_of_each (more e no_more); frames = [] }))
      decoded =
          ap (decode platform new_reader) (sym (print_each-one platform e))
          ∙ decode-print platform (more e no_more) (h, tt)

-- A number below 2^32 is read as a number.
pub value_of-small : (n : ℕ) → n < 256 ^ 4 → value_of (unsigned n) ≡ num n
unfolding value_of width
value_of-small n h = ground arith
