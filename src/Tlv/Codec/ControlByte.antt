-- ===== src/Tlv/Codec/ControlByte.antt =====
-- The control byte and the tag of an element: what TlvCodec writes is the format's, and is read back.
use matternode.Prelude.{
  ℕ, ◌+◌, ◌-◌, ◌*◌, ◌/◌, ◌^◌, ◌<◌, ◌≡◌, refl, ap, ◌∙◌, true, ◌&&◌, [], ◌∷◌, ◌++◌, append-nil, ◌==◌,
  arith, length, get_elem?, all_below, all_below_sound₂, bit_and, bit_or, ok, ◌>>=◌,
}
use matternode.Buffer.{Buffer, le_bytes, alloc, read_le, write_le}
use matternode.Buffer.Laws.{write_le-blank, length-le_bytes, read_le-bytes}
use matternode.Tlv.Codec.{tag_bytes, encode_control_byte, length_bits}
use matternode.Tlv.Codec.Decode.{
  decode_control_byte, decode_tag_and_length, element_types, tag_controls,
}
use matternode.Tlv.Codec.Numbers.{write_le-new}
use matternode.Tlv.Element.{
  Tag, IsTag, tag_of, profile_of, tag_control, print_tag, print_head, anonymous, context, common,
  implicit, qualified,
}

bits_table :
    all_below 32 (λ t. all_below 8 (λ j.
      (bit_or t (32 * j) == t + 32 * j)
      && ((bit_and (t + 32 * j) 0x1F == t) && (bit_and (t + 32 * j) 0xE0 == 32 * j))))
    ≡ true
unfolding all_below
bits_table = refl

bits_at :
    (t j : ℕ)
    → t < 32
    → j < 8
    → (bit_or t (32 * j) ≡ t + 32 * j)
      × (bit_and (t + 32 * j) 0x1F ≡ t)
      × (bit_and (t + 32 * j) 0xE0 ≡ 32 * j)
bits_at t j ht hj = ground (
  arith,
  all_below_sound₂ 32 8
      (λ (t : ℕ) (j : ℕ).
        (bit_or t (32 * j) == t + 32 * j)
        && ((bit_and (t + 32 * j) 0x1F == t) && (bit_and (t + 32 * j) 0xE0 == 32 * j)))
      t j bits_table,
)

tag_control-lt : (tag : Tag) → tag_control tag < 8
unfolding tag_control
tag_control-lt anonymous = omega arith
tag_control-lt (context n) = omega arith
tag_control-lt (common n) = ground arith
tag_control-lt (implicit n) = ground arith
tag_control-lt (qualified p n) = ground arith

-- Two fields in one new buffer.
write_two :
    (k m : ℕ) (a b : ℕ)
    → a < 256 ^ k
    → b < 256 ^ m
    → (write_le k (alloc (k + m)) a 0 >>= λ buf. write_le m buf b k)
      ≡ ok (le_bytes k a ++ le_bytes m b)
write_two k m a b ha hb = rw (write_le-blank k a 0 (k + m) [] ha refl (omega arith)) (
    rw (write_le-blank m b k (k + m - k) (le_bytes k a) hb (length-le_bytes k a) (omega arith)) (
      ap (λ t. ok ((le_bytes k a ++ le_bytes m b) ++ alloc t)) {x = k + m - k - m} {y = 0}
        (omega arith)
      ∙ ap ok (unfold alloc in append-nil (le_bytes k a ++ le_bytes m b))))

tag_bytes-print :
    (tag : Tag)
    → IsTag tag
    → tag_bytes (tag_of tag) (profile_of tag) ≡ ok (32 * tag_control tag, print_tag tag)
unfolding tag_bytes tag_control print_tag
tag_bytes-print anonymous h = refl
tag_bytes-print (context n) h = ground (arith, write_le-new 1 n)
tag_bytes-print (common n) h = ground (arith, write_le-new 2 n, write_le-new 4 n)
tag_bytes-print (implicit n) h = ground (arith, write_le-new 2 n, write_le-new 4 n)
tag_bytes-print (qualified p n) h = ground (arith, write_two 4 2 p n, write_two 4 4 p n)

control_byte-new :
    (t j : ℕ) → t < 32 → j < 8 → write_le 1 (alloc 1) (bit_or t (32 * j)) 0 ≡ ok ((t + 32 * j) ∷ [])
control_byte-new t j ht hj =
    rw ((bits_at t j ht hj).0)
      (write_le-new 1 (t + 32 * j) (omega arith) ∙ ap (λ b. ok (b ∷ [])) (omega arith))

-- The writer's head of an element of type `kind`, with the bits of its length.
pub encode_control_byte-print :
    (kind len size : ℕ) (tag : Tag)
    → IsTag tag
    → length_bits len ≡ ok size
    → bit_or kind size < 32
    → encode_control_byte kind len (tag_of tag) (profile_of tag)
      ≡ ok (print_head tag (bit_or kind size))
unfolding encode_control_byte print_head
encode_control_byte-print kind len size tag valid bits small = rw bits (
    rw (tag_bytes-print tag valid)
      (rw (control_byte-new (bit_or kind size) (tag_control tag) small (tag_control-lt tag)) refl))

read_head : (c : ℕ) (rest : Buffer) → read_le 1 (c ∷ rest) 0 ≡ ok c
unfolding read_le
read_head c rest = ground arith

-- What is read of a head.
pub decode_control_byte-print :
    (tag : Tag) (code : ℕ) (rest : Buffer)
    → code < 32
    → decode_control_byte (print_head tag code ++ rest)
      ≡ ok (record {
        type_num = code;
        tag_type = 32 * tag_control tag;
        kind = get_elem? element_types code;
        tag_type_name = get_elem? tag_controls (32 * tag_control tag / 32);
      })
unfolding decode_control_byte print_head
decode_control_byte-print tag code rest small =
    let at = bits_at code (tag_control tag) small (tag_control-lt tag) in
    rw (read_head (code + 32 * tag_control tag) (print_tag tag ++ rest)) (rw (at.1, at.2) refl)

pub decode_tag_and_length-print :
    (tag : Tag) (rest : Buffer)
    → IsTag tag
    → decode_tag_and_length (print_tag tag ++ rest) (32 * tag_control tag)
      ≡ ok (record {
        tag = tag_of tag;
        tag_length = length (print_tag tag);
        profile = profile_of tag;
      })
unfolding decode_tag_and_length tag_control print_tag
decode_tag_and_length-print anonymous rest h = refl
decode_tag_and_length-print (context n) rest h = ground (arith, read_le-bytes 1 n 0 [] rest)
decode_tag_and_length-print (common n) rest h = ground (
  arith,
  read_le-bytes 2 n 0 [] rest,
  read_le-bytes 4 n 0 [] rest,
  length-le_bytes 2 n,
  length-le_bytes 4 n,
)
decode_tag_and_length-print (implicit n) rest h = ground (
  arith,
  read_le-bytes 2 n 0 [] rest,
  read_le-bytes 4 n 0 [] rest,
  length-le_bytes 2 n,
  length-le_bytes 4 n,
)
decode_tag_and_length-print (qualified p n) rest h = ground (
  arith,
  read_le-bytes 4 p 0 [] (le_bytes 2 n ++ rest),
  read_le-bytes 4 p 0 [] (le_bytes 4 n ++ rest),
  read_le-bytes 2 n 4 (le_bytes 4 p) rest,
  read_le-bytes 4 n 4 (le_bytes 4 p) rest,
)
