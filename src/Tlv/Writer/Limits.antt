-- ===== src/Tlv/Writer/Limits.antt =====
-- Where src/tlv does not write what it read, or reads not what it wrote.
use matternode.Prelude.{
  ℕ, ◌^◌, ◌<◌, ◌≤◌, ◌≡◌, refl, ◌∙◌, Bool, true, false, List, [], ◌∷◌, ltb, ◌&&◌, none, some, arith,
  length, pos, ok, throw, type_error,
}
use matternode.Buffer.{le_bytes, read_le, write_le, alloc}
use matternode.Buffer.Laws.{read_le-bytes}
use matternode.Tlv.{uint64, bigint, Value, array_of, object, nil, cons, push, Platform}
use matternode.Tlv.Codec.{encode_unsigned_int, encode_control_byte, tag_bytes}
use matternode.Tlv.Codec.Decode.{
  decode_control_byte, decode_tag_and_length, decode_value_and_length,
}
use matternode.Tlv.Codec.Numbers.{width, encode_unsigned_int-width}
use matternode.Tlv.Reader.{new_reader, cursor, decode_rounds, decode_element, decode}
use matternode.Tlv.Text.{units, utf8}
use matternode.Tlv.Writer.{encode, encode_object, put_unsigned_int, put_string}

abbrev pub wide_json : ℕ → Value
wide_json n =
    object (record { tag = none; kind = some uint64; profile = none; tag_name = none })
      (bigint (pos n))

wide_value :
    (platform : Platform) (n : ℕ)
    → n < 256 ^ 8
    → decode_value_and_length platform (le_bytes 8 n) 0x07 ≡ ok (bigint (pos n), 8)
unfolding decode_value_and_length
wide_value platform n h = rw (read_le-bytes 8 n 0 [] [] h refl) refl

read_wide :
    (platform : Platform) (n : ℕ)
    → n < 256 ^ 8
    → decode_element platform (0x07 ∷ le_bytes 8 n) nil []
      ≡ ok (cursor [] (cons (wide_json n) nil) [] true)
unfolding decode_element decode_control_byte decode_tag_and_length push read_le
read_wide platform n h = rw (wide_value platform n h) refl

-- An unsigned integer below 2^32 that a peer encoded in eight bytes is read, as a BigInt, into a JSON
-- object that TlvWriter cannot encode: the encoder throws a TypeError, since the functions that write the
-- narrower widths take no BigInt.
pub encode_small_bigint :
    (platform : Platform) (n : ℕ)
    → n < 256 ^ 4
    → (decode platform new_reader (0x07 ∷ le_bytes 8 n)
        ≡ some (ok (record { filling = cons (wide_json n) nil; frames = [] })))
      × (encode platform [] (array_of (cons (wide_json n) nil)) ≡ throw type_error)
encode_small_bigint platform n small = (
  unfold decode new_reader decode_rounds in rw (read_wide platform n (omega arith)) refl,
  unfold encode encode_object put_unsigned_int encode_unsigned_int in ground arith,
)

-- Whether every code point is below 128.
abbrev pub is_ascii : List ℕ → Bool
is_ascii [] = true
is_ascii (c ∷ s) = ltb c 0x80 && is_ascii s

utf8-le : (s : List ℕ) → units s ≤ length (utf8 s)
unfolding units utf8
utf8-le [] = omega arith
utf8-le (c ∷ s) = ground (arith, utf8-le s)

utf8-lt : (s : List ℕ) → is_ascii s ≡ false → units s < length (utf8 s)
unfolding units utf8
utf8-lt [] h = cc
utf8-lt (c ∷ s) h = ground (arith, utf8-le s, utf8-lt s)

one_byte : (u : ℕ) → u < 256 → encode_unsigned_int false (pos u) ≡ ok (u ∷ [])
one_byte u h =
    encode_unsigned_int-width false u (λ e. absurd (cc)) (omega arith)
    ∙ unfold width in ground arith

-- A string with a character beyond ASCII, of fewer than 256 UTF-16 units, is written with a length that is
-- smaller than the number of its bytes, which follow it.
pub put_string_short :
    (s : List ℕ)
    → is_ascii s ≡ false
    → units s < 256
    → (put_string [] s none none ≡ ok (0x0C ∷ units s ∷ utf8 s)) × (units s < length (utf8 s))
put_string_short s wide small = (
  unfold put_string encode_control_byte tag_bytes alloc write_le in
      rw (one_byte (units s) small) refl,
  utf8-lt s wide,
)
