-- ===== src/Tlv/Writer/Pieces.antt =====
-- The control byte, tag and body that TlvWriter appends for one element.
use matternode.Prelude.{
  ℕ, ◌+◌, ◌*◌, ◌<◌, ◌≡◌, refl, ap, ◌⊎◌, true, ◌++◌, ◌==◌, arith, length, all_below,
  all_below_sound₂, bit_or, ℤ, ok,
}
use matternode.Buffer.{Buffer}
use matternode.Tlv.Codec.{length_bits, encode_control_byte}
use matternode.Tlv.Codec.Numbers.{width, signed_width}
use matternode.Tlv.Codec.ControlByte.{encode_control_byte-print}
use matternode.Tlv.Element.{Tag, IsTag, tag_of, profile_of, print_head, width_code}
use matternode.Tlv.Writer.{put_element}

abbrev pub IsWidth : ℕ → Type 0
IsWidth k = (k ≡ 1) ⊎ (k ≡ 2) ⊎ (k ≡ 4) ⊎ (k ≡ 8)

pub width-IsWidth : (n : ℕ) → IsWidth (width n)
unfolding width
width-IsWidth n = ground arith

pub signed_width-IsWidth : (z : ℤ) → IsWidth (signed_width z)
unfolding signed_width
signed_width-IsWidth z = ground arith

code_table : all_below 8 (λ q. all_below 4 (λ c. bit_or (4 * q) c == 4 * q + c)) ≡ true
unfolding all_below
code_table = refl

bit_or-code : (q c : ℕ) → q < 8 → c < 4 → bit_or (4 * q) c ≡ 4 * q + c
bit_or-code q c hq hc =
    ground (
      arith,
      all_below_sound₂ 8 4 (λ (q : ℕ) (c : ℕ). bit_or (4 * q) c == 4 * q + c) q c code_table,
    )

width_code-lt : (k : ℕ) → width_code k < 4
unfolding width_code
width_code-lt k = ground arith

length_bits-width_code : (k : ℕ) → IsWidth k → length_bits k ≡ ok (width_code k)
unfolding length_bits width_code
length_bits-width_code k w = ground arith

-- An element of a type that takes its width.
pub put_element-sized :
    (buf : Buffer) (q k : ℕ) (tag : Tag) (encoded body : Buffer)
    → q < 8
    → IsTag tag
    → IsWidth k
    → length encoded ≡ k
    → put_element buf (4 * q) (length encoded) (tag_of tag) (profile_of tag) body
      ≡ ok (buf ++ (print_head tag (4 * q + width_code k) ++ body))
unfolding put_element
put_element-sized buf q k tag encoded body hq valid w size =
    let code = bit_or-code q (width_code k) hq (width_code-lt k) in
    let written : encode_control_byte (4 * q) k (tag_of tag) (profile_of tag)
        ≡ ok (print_head tag (bit_or (4 * q) (width_code k))) =
      encode_control_byte-print (4 * q) k (width_code k) tag valid (length_bits-width_code k w)
        (omega (arith, code, width_code-lt k)) in
    rw size (rw written (ap (λ c. ok (buf ++ (print_head tag c ++ body))) code))

-- One of a type with a fixed size.
pub put_element-fixed :
    (buf : Buffer) (kind : ℕ) (tag : Tag) (body : Buffer)
    → IsTag tag
    → bit_or kind 0 ≡ kind
    → kind < 32
    → put_element buf kind 0 (tag_of tag) (profile_of tag) body
      ≡ ok (buf ++ (print_head tag kind ++ body))
unfolding put_element
put_element-fixed buf kind tag body valid same small =
    let written =
      encode_control_byte-print kind 0 0 tag valid (unfold length_bits in refl)
        (omega (arith, same)) in
    rw written (ap (λ c. ok (buf ++ (print_head tag c ++ body))) same)
