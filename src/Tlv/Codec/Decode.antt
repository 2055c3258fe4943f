-- ===== src/Tlv/Codec/Decode.antt =====
-- src/tlv/TlvCodec.ts: the names of types and tag controls, and the parts of an element as they are decoded.
use Prim.Native.String.{String}
use matternode.Prelude.{
  ℕ, ◌+◌, ◌/◌, true, false, ◌&&◌, ◌||◌, List, [], ◌∷◌, leb, ◌==◌, if◌then◌else◌, Option, none, some,
  get_elem?, bit_and, ℤ, pos, negsuc, of_word, Result, ok, ◌>>=◌,
}
use matternode.Buffer.{Buffer, read_le, subarray}
use matternode.Tlv.{
  integer, TypeName, int8, int16, int32, int64, uint8, uint16, uint32, uint64, boolean, float,
  double, null, struct, array, list, string_len, buffer_len, end_of_collection, Value, undefined,
  number, bigint, truth, text, bytes, array_of, nil, Platform,
}
use matternode.Tlv.Text.{utf8_decode}

-- TlvCodec.ElementTypes and TlvCodec.TagControls
abbrev pub element_types : List TypeName
element_types =
    int8
    ∷ int16
    ∷ int32
    ∷ int64
    ∷ uint8
    ∷ uint16
    ∷ uint32
    ∷ uint64
    ∷ boolean
    ∷ boolean
    ∷ float
    ∷ double
    ∷ string_len 1
    ∷ string_len 2
    ∷ string_len 4
    ∷ string_len 8
    ∷ buffer_len 1
    ∷ buffer_len 2
    ∷ buffer_len 4
    ∷ buffer_len 8
    ∷ null
    ∷ struct
    ∷ array
    ∷ list
    ∷ end_of_collection
    ∷ []

abbrev pub tag_controls : List String
tag_controls =
    "Anonymous" ∷ "Context 1-byte" ∷ "Common Profile 2-byte" ∷ "Common Profile 4-byte"
    ∷ "Implicit Profile 2-byte" ∷ "Implicit Profile 4-byte" ∷ "Fully Qualified 6-byte"
    ∷ "Fully Qualified 8-byte" ∷ []

pub record Control : Type 0 where
  pub type_num : ℕ
  pub tag_type : ℕ
  pub kind : Option TypeName
  pub tag_type_name : Option String

unfoldable pub decode_control_byte : Buffer → Result Control
decode_control_byte tlv = do
  control ← read_le 1 tlv 0
  let type_num = bit_and control 0x1F
  let tag_type = bit_and control 0xE0
  ok (record {
    type_num = type_num;
    tag_type = tag_type;
    kind = get_elem? element_types type_num;
    tag_type_name = get_elem? tag_controls (tag_type / 32);
  })

module _ (platform : Platform) where
  open platform use {of_float, of_double}

  -- The value of a fixed size, or the length of a text or a byte string.
  fixed_value : Buffer → ℕ → Result (Value × ℕ)
  fixed_value tlv t =
      if t == 0x14
      then ok (undefined, 0)
      else if t == 0x09
      then ok (truth true, 0)
      else if t == 0x08
      then ok (truth false, 0)
      else if t == 0x0C || t == 0x10 || t == 0x04
      then (read_le 1 tlv 0 >>= λ v. ok (number (integer (pos v)), 1))
      else if t == 0x0D || t == 0x11 || t == 0x05
      then (read_le 2 tlv 0 >>= λ v. ok (number (integer (pos v)), 2))
      else if t == 0x0E || t == 0x12 || t == 0x06
      then (read_le 4 tlv 0 >>= λ v. ok (number (integer (pos v)), 4))
      else if t == 0x0F || t == 0x13 || t == 0x07
      then (read_le 8 tlv 0 >>= λ v. ok (bigint (pos v), 8))
      else if t == 0x00
      then (read_le 1 tlv 0 >>= λ v. ok (number (integer (of_word 1 v)), 1))
      else if t == 0x01
      then (read_le 2 tlv 0 >>= λ v. ok (number (integer (of_word 2 v)), 2))
      else if t == 0x02
      then (read_le 4 tlv 0 >>= λ v. ok (number (integer (of_word 4 v)), 4))
      else if t == 0x03
      then (read_le 8 tlv 0 >>= λ v. ok (bigint (of_word 8 v), 8))
      else if t == 0x0A
      then (read_le 4 tlv 0 >>= λ v. ok (number (of_float v), 4))
      else if t == 0x0B
      then (read_le 8 tlv 0 >>= λ v. ok (number (of_double v), 8))
      else if t == 0x15 || t == 0x16 || t == 0x17
      then ok (array_of nil, 0)
      else ok (undefined, 0)

  -- A text or byte string behind its length, where that is a number.
  sized_value : Buffer → ℕ → Value × ℕ → Value × ℕ
  sized_value tlv t (number (integer (pos size)), l) =
      if leb 0x0C t && leb t 0x0F
      then (text (utf8_decode (subarray tlv l (l + size))), l + size)
      else if leb 0x10 t && leb t 0x13
      then (bytes (subarray tlv l (l + size)), l + size)
      else (number (integer (pos size)), l)
  sized_value tlv t other = other

  unfoldable pub decode_value_and_length : Buffer → ℕ → Result (Value × ℕ)
  unfolding fixed_value sized_value
  decode_value_and_length tlv t = do v ← fixed_value tlv t; ok (sized_value tlv t v)

pub record TagLength : Type 0 where
  pub tag : Option ℤ
  pub tag_length : ℕ
  pub profile : Option ℤ

tag_length : Option ℤ → ℕ → Option ℤ → TagLength
tag_length tag l profile = record { tag = tag; tag_length = l; profile = profile }

unfoldable pub decode_tag_and_length : Buffer → ℕ → Result TagLength
unfolding tag_length
decode_tag_and_length tlv tag_type =
    let implicit = tag_type == 0x80 || tag_type == 0xA0 in
    let profile : Option ℤ = if implicit then some (negsuc 0) else some (pos 0) in
    if tag_type == 0x00
    then ok (tag_length none 0 none)
    else if tag_type == 0x20
    then (read_le 1 tlv 0 >>= λ tag. ok (tag_length (some (pos tag)) 1 none))
    else if tag_type == 0x40 || tag_type == 0x80
    then (read_le 2 tlv 0 >>= λ tag. ok (tag_length (some (pos tag)) 2 profile))
    else if tag_type == 0x60 || tag_type == 0xA0
    then (read_le 4 tlv 0 >>= λ tag. ok (tag_length (some (pos tag)) 4 profile))
    else if tag_type == 0xC0
    then (do
      p ← read_le 4 tlv 0
      tag ← read_le 2 tlv 4
      ok (tag_length (some (pos tag)) 6 (some (pos p))))
    else if tag_type == 0xE0
    then (do
      p ← read_le 4 tlv 0
      tag ← read_le 4 tlv 4
      ok (tag_length (some (pos tag)) 8 (some (pos p))))
    else ok (tag_length (some (pos 0)) 0 none)
