-- ===== src/Tlv/Writer/Appends.antt =====
-- What TlvWriter appends for the JSON of an element is the element's bytes.
use matternode.Prelude.{
  ℕ, ◌+◌, ◌^◌, ◌<◌, ◌≡◌, refl, sym, ap, ◌∙◌, inl, inr, true, false, List, [], ◌∷◌, ◌++◌,
  append_assoc, append-nil, ◌==◌, arith, length, Bool-cases, ℤ, pos, to_word, FitsSigned, Result,
  ok, ◌>>=◌,
}
use matternode.Buffer.{Buffer, le_bytes}
use matternode.Buffer.Laws.{length-le_bytes}
use matternode.Tlv.{integer, Value, number, Platform}
use matternode.Tlv.Codec.Numbers.{
  width, signed_width, write_le-new, encode_unsigned_int-width, encode_signed_int-width,
}
use matternode.Tlv.Element.{
  Tag, IsTag, tag_of, profile_of, print_head, Scalar, Container, IsScalar, print_scalar, type_code,
  width_code, kind_of, value_of, container_code, container_kind, Element, Elements, json_of,
  json_of_each, print, print_each, IsElement, AreElements, fields_of, scalar, container, no_more,
  more, tag_control, print_tag, anonymous, unsigned, signed, single, string, octets, struct, array,
  list,
}
use matternode.Tlv.Text.{utf8-IsAscii, units-IsAscii}
use matternode.Tlv.Writer.{
  put_unsigned_int, put_signed_int, put_string, put_bytes, put_float, put_double, put_boolean,
  put_null, encode_object, encode, put, encode_each, unsigned_bytes, signed_bytes,
  put_container_end, is_truthy, to_number, put_number, put_struct_start, put_array_start,
  put_list_start,
}
use matternode.Tlv.Writer.Pieces.{
  width-IsWidth, signed_width-IsWidth, put_element-sized, put_element-fixed,
}

module _ (platform : Platform) (buf : Buffer) (tag : Tag) (valid : IsTag tag) where
  put_unsigned_int-print :
      (n : ℕ) (v : Value)
      → unsigned_bytes platform v ≡ ok (le_bytes (width n) n)
      → put_unsigned_int platform buf v (tag_of tag) (profile_of tag)
        ≡ ok (buf ++ (print_head tag (0x04 + width_code (width n)) ++ le_bytes (width n) n))
  unfolding put_unsigned_int
  put_unsigned_int-print n v e = rw e (
      put_element-sized buf 1 (width n) tag (le_bytes (width n) n) (le_bytes (width n) n)
        (omega arith) valid (width-IsWidth n) (length-le_bytes (width n) n))

  -- A number, whatever its size.
  pub put_unsigned_int-number :
      (n : ℕ)
      → n < 256 ^ 8
      → put_unsigned_int platform buf (number (integer (pos n))) (tag_of tag) (profile_of tag)
        ≡ ok (buf ++ print platform (scalar tag (unsigned n)))
  unfolding print type_code print_scalar
  put_unsigned_int-number n small =
      put_unsigned_int-print n (number (integer (pos n)))
        (unfold unsigned_bytes in encode_unsigned_int-width false n (λ e. absurd (cc)) small)

  put_signed_int-print :
      (z : ℤ) (v : Value)
      → signed_bytes platform v ≡ ok (le_bytes (signed_width z) (to_word (signed_width z) z))
      → put_signed_int platform buf v (tag_of tag) (profile_of tag)
        ≡ ok (
            buf
            ++ (print_head tag (width_code (signed_width z))
                ++ le_bytes (signed_width z) (to_word (signed_width z) z)))
  unfolding put_signed_int
  put_signed_int-print z v e =
      let body = le_bytes (signed_width z) (to_word (signed_width z) z) in
      rw e (
        put_element-sized buf 0 (signed_width z) tag body body (omega arith) valid
          (signed_width-IsWidth z) (length-le_bytes (signed_width z) (to_word (signed_width z) z))
        ∙ ap (λ c. ok (buf ++ (print_head tag c ++ body))) (omega arith))

  pub put_bytes-print :
      (b : Buffer)
      → length b < 256 ^ 4
      → put_bytes buf b (tag_of tag) (profile_of tag)
        ≡ ok (
            buf
            ++ (print_head tag (0x10 + width_code (width (length b)))
                ++ (le_bytes (width (length b)) (length b) ++ b)))
  unfolding put_bytes
  put_bytes-print b small =
      let len = le_bytes (width (length b)) (length b) in
      rw (encode_unsigned_int-width false (length b) (λ e. absurd (cc)) (omega arith)) (
        put_element-sized buf 4 (width (length b)) tag len (len ++ b) (omega arith) valid
          (width-IsWidth (length b)) (length-le_bytes (width (length b)) (length b)))

  put_string-print :
      (s : List ℕ)
      → IsScalar platform (string s)
      → put_string buf s (tag_of tag) (profile_of tag)
        ≡ ok (
            buf
            ++ (print_head tag (0x0C + width_code (width (length s)))
                ++ (le_bytes (width (length s)) (length s) ++ s)))
  unfolding put_string
  put_string-print s h =
      let len = le_bytes (width (length s)) (length s) in
      rw (units-IsAscii s h.0, utf8-IsAscii s h.0)
        (rw (encode_unsigned_int-width false (length s) (λ e. absurd (cc)) (omega arith)) (
          put_element-sized buf 3 (width (length s)) tag len (len ++ s) (omega arith) valid
            (width-IsWidth (length s)) (length-le_bytes (width (length s)) (length s))))

  -- The type that the JSON of an integer names leads to the writer's method for it.
  encode_object-unsigned :
      (n : ℕ) (nested generic : Buffer → Result Buffer)
      → encode_object platform buf
          (fields_of tag (kind_of (unsigned n)))
          (value_of (unsigned n))
          nested
          generic
        ≡ put_unsigned_int platform buf (value_of (unsigned n)) (tag_of tag) (profile_of tag)
  unfolding encode_object kind_of value_of
  encode_object-unsigned n nested generic = elim (width-IsWidth n) [
    | inl e ↦ rw e refl
    | inr (inl e) ↦ rw e refl
    | inr (inr (inl e)) ↦ rw e refl
    | inr (inr (inr e)) ↦ rw e refl
  ]

  encode_object-signed :
      (z : ℤ) (nested generic : Buffer → Result Buffer)
      → encode_object platform buf
          (fields_of tag (kind_of (signed z)))
          (value_of (signed z))
          nested
          generic
        ≡ put_signed_int platform buf (value_of (signed z)) (tag_of tag) (profile_of tag)
  unfolding encode_object kind_of value_of
  encode_object-signed z nested generic = elim (signed_width-IsWidth z) [
    | inl e ↦ rw e refl
    | inr (inl e) ↦ rw e refl
    | inr (inr (inl e)) ↦ rw e refl
    | inr (inr (inr e)) ↦ rw e refl
  ]

  unsigned_bytes-value :
      (n : ℕ)
      → n < 256 ^ 8
      → unsigned_bytes platform (value_of (unsigned n)) ≡ ok (le_bytes (width n) n)
  unfolding unsigned_bytes value_of
  unsigned_bytes-value n small = elim (Bool-cases (width n == 8)) [
    | inl wide ↦
        rw wide (encode_unsigned_int-width true n (λ e. unfold width in ground arith) small)
    | inr narrow ↦ rw narrow (encode_unsigned_int-width false n (λ e. absurd (cc)) small)
  ]

  signed_bytes-value :
      (z : ℤ)
      → FitsSigned 8 z
      → signed_bytes platform (value_of (signed z))
        ≡ ok (le_bytes (signed_width z) (to_word (signed_width z) z))
  unfolding signed_bytes value_of
  signed_bytes-value z fits = elim (Bool-cases (signed_width z == 8)) [
    | inl wide ↦ rw wide (encode_signed_int-width z fits)
    | inr narrow ↦ rw narrow (encode_signed_int-width z fits)
  ]

  -- A scalar's JSON is written as its bytes.
  encode-scalar :
      (s : Scalar)
      → IsScalar platform s
      → encode platform buf (json_of (scalar tag s)) ≡ ok (buf ++ print platform (scalar tag s))
  unfolding json_of print encode type_code print_scalar
  encode-scalar (unsigned n) h =
      encode_object-unsigned n _ _
      ∙ put_unsigned_int-print n (value_of (unsigned n)) (unsigned_bytes-value n h)
  encode-scalar (signed z) h =
      encode_object-signed z _ _
      ∙ put_signed_int-print z (value_of (signed z)) (signed_bytes-value z h)
  encode-scalar (string s) h = unfold encode_object kind_of value_of put in put_string-print s h
  encode-scalar (octets b) h = unfold encode_object kind_of value_of put in put_bytes-print b h
  encode-scalar Scalar.null h =
      unfold encode_object kind_of value_of put put_null in
      put_element-fixed buf 0x14 tag [] valid refl (omega arith)
  encode-scalar (Scalar.boolean true) h =
      unfold encode_object kind_of value_of put_boolean is_truthy in
      put_element-fixed buf 0x09 tag [] valid refl (omega arith)
  encode-scalar (Scalar.boolean false) h =
      unfold encode_object kind_of value_of put_boolean is_truthy in
      put_element-fixed buf 0x08 tag [] valid refl (omega arith)
  encode-scalar (single x) h =
      unfold encode_object kind_of value_of put_float to_number in
      rw (write_le-new 4 (platform.to_float x) (platform.to_float-lt x))
        (put_element-fixed buf 0x0A tag (le_bytes 4 (platform.to_float x)) valid refl (omega arith))
  encode-scalar (Scalar.double bits) h =
      unfold encode_object kind_of value_of put put_number put_double in
      rw (write_le-new 8 bits h.0)
        (put_element-fixed buf 0x0B tag (le_bytes 8 bits) valid refl (omega arith))

pub put_container_end-code : (buf : Buffer) → put_container_end buf ≡ ok (buf ++ (0x18 ∷ []))
unfolding put_container_end
put_container_end-code buf =
    unfold tag_control print_tag print_head in
    put_element-fixed buf 0x18 anonymous [] tt refl (omega arith)

close_bracket :
    (buf head inside : Buffer) (nested : Buffer → Result Buffer)
    → ((b : Buffer) → nested b ≡ ok (b ++ inside))
    → (nested (buf ++ (head ++ [])) >>= put_container_end)
      ≡ ok (buf ++ (head ++ (inside ++ (0x18 ∷ []))))
close_bracket buf head inside nested fill = rw (fill (buf ++ (head ++ []))) (
    put_container_end-code ((buf ++ (head ++ [])) ++ inside)
    ∙ ap ok (simp (append_assoc, append-nil)))

-- The brackets of a container around what its elements append.
pub bracket :
    (platform : Platform) (buf : Buffer) (tag : Tag) (kind : Container) (inside : Buffer)
    (v : Value) (nested generic : Buffer → Result Buffer)
    → IsTag tag
    → ((b : Buffer) → nested b ≡ ok (b ++ inside))
    → encode_object platform buf (fields_of tag (container_kind kind)) v nested generic
      ≡ ok (buf ++ (print_head tag (container_code kind) ++ (inside ++ (0x18 ∷ []))))
bracket platform buf tag struct inside v nested generic valid fill =
    unfold encode_object container_kind container_code put_struct_start in
    rw (put_element-fixed buf 0x15 tag [] valid refl (omega arith))
      (close_bracket buf (print_head tag 0x15) inside nested fill)
bracket platform buf tag array inside v nested generic valid fill =
    unfold encode_object container_kind container_code put_array_start in
    rw (put_element-fixed buf 0x16 tag [] valid refl (omega arith))
      (close_bracket buf (print_head tag 0x16) inside nested fill)
bracket platform buf tag list inside v nested generic valid fill =
    unfold encode_object container_kind container_code put_list_start in
    rw (put_element-fixed buf 0x17 tag [] valid refl (omega arith))
      (close_bracket buf (print_head tag 0x17) inside nested fill)

mutual
  unfolding encode json_of print

  pub encode-print :
      (platform : Platform) (e : Element) (buf : Buffer)
      → IsElement platform e
      → encode platform buf (json_of e) ≡ ok (buf ++ print platform e)
  encode-print platform (scalar tag s) buf h = encode-scalar platform buf tag h.0 s h.1
  encode-print platform (container tag kind es) buf h =
      bracket platform buf tag kind (print_each platform es) _ _ _ h.0
        (λ b. encode_each-print platform es b h.1)

  pub encode_each-print :
      (platform : Platform) (es : Elements) (buf : Buffer)
      → AreElements platform es
      → encode_each platform buf (json_of_each es) ≡ ok (buf ++ print_each platform es)
  encode_each-print platform no_more buf h = ap ok (sym (append-nil buf))
  encode_each-print platform (more e es) buf h = rw (encode-print platform e buf h.0) (
      encode_each-print platform es (buf ++ print platform e) h.1
      ∙ ap ok (append_assoc buf (print platform e) (print_each platform es)))
