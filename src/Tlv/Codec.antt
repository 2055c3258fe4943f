-- ===== src/Tlv/Codec.antt =====
-- src/tlv/TlvCodec.ts: the bytes of numbers, and the control byte and tag of an element, as encoded. A JavaScript
-- comparison of an integer is `leq`; the 64-bit maxima are no doubles, and stand there for the powers
-- of two next to them, which is what the comparisons see.
pub mod Numbers
pub mod ControlByte
pub mod Decode
use Prim.Native.String.{String}
use matternode.Prelude.{
  ℕ, zero, suc, ◌+◌, ◌-◌, ◌*◌, ◌/◌, ◌%◌, ◌^◌, Bool, true, false, ◌&&◌, ◌||◌, List, [], ◌∷◌, ◌++◌,
  ltb, leb, ◌==◌, if◌then◌else◌, Option, none, some, length, get_elem?, bit_and, bit_or, ℤ, pos,
  negsuc, leq, is_negative, to_word, of_word, Result, ok, throw, ◌>>=◌, range_error, type_error,
  tlv_error,
}
use matternode.Buffer.{Buffer, alloc, read_le, write_le, subarray}
use matternode.Tlv.{
  Number, integer, fraction, TypeName, int8, int16, int32, int64, uint8, uint16, uint32, uint64,
  boolean, float, double, null, struct, array, list, string_len, buffer_len, end_of_collection,
  Value, undefined, number, bigint, truth, text, bytes, array_of, nil, Platform,
}
use matternode.Tlv.Text.{utf8_decode}

-- writeInt8, writeInt16LE, writeInt32LE and writeBigInt64LE into a new buffer of `k` bytes.
unfoldable pub write_int : ℕ → ℤ → Result Buffer
write_int k val =
    if leq (negsuc (256 ^ k / 2 - 1)) val && leq val (pos (256 ^ k / 2 - 1))
    then write_le k (alloc k) (to_word k val) 0
    else throw range_error

-- writeUInt8, writeUInt16LE, writeUInt32LE and writeBigUInt64LE of `val` at `offset`.
unfoldable pub write_uint : ℕ → Buffer → ℤ → ℕ → Result Buffer
write_uint k buf (pos n) offset = write_le k buf n offset
write_uint k buf (negsuc n) offset = throw range_error

unfoldable pub encode_signed_int : ℤ → Result Buffer
encode_signed_int val =
    if leq (negsuc 127) val && leq val (pos 127)
    then write_int 1 val
    else if leq (negsuc 32767) val && leq val (pos 32767)
    then write_int 2 val
    else if leq (negsuc 0x7FFF_FFFF) val && leq val (pos 0x7FFF_FFFF)
    then write_int 4 val
    else if leq (negsuc 0x7FFF_FFFF_FFFF_FFFF) val && leq val (pos 0x8000_0000_0000_0000)
    then write_int 8 val
    else throw tlv_error

pub encode_u64 : ℤ → Result Buffer
encode_u64 val = write_uint 8 (alloc 8) val 0

-- The widths below 8 are written by functions of numbers, which throw at a BigInt.
write_number : ℕ → Bool → ℤ → Result Buffer
write_number k big val = if big then throw type_error else write_uint k (alloc k) val 0

-- `big` tells a BigInt from a number.
unfoldable pub encode_unsigned_int : Bool → ℤ → Result Buffer
unfolding write_number write_uint
encode_unsigned_int big val =
    if is_negative val
    then throw tlv_error
    else if leq val (pos 255)
    then write_number 1 big val
    else if leq val (pos 0xFFFF)
    then write_number 2 big val
    else if leq val (pos 0xFFFF_FFFF)
    then write_number 4 big val
    else if leq val (pos 0x1_0000_0000_0000_0000)
    then write_uint 8 (alloc 8) val 0
    else throw tlv_error

-- The first test holds of every tag, whatever its size.
pub encode_tag : ℤ → Result Buffer
encode_tag tag =
    if leq (pos 0) tag || leq tag (pos 0xFFFF)
    then write_uint 2 (alloc 2) tag 0
    else if leq (pos 0x1_0000) tag || leq tag (pos 0xFFFF_FFFF)
    then write_uint 4 (alloc 4) tag 0
    else ok []

-- The low bits of the control byte, from the length in bytes of the value or of its length.
unfoldable pub length_bits : ℕ → Result ℕ
length_bits len =
    if len == 2
    then ok 1
    else if len == 4
    then ok 2
    else if len == 8
    then ok 3
    else if leb 2 len
    then throw tlv_error
    else ok 0

-- An undefined tag is an error under a profile.
defined : Option ℤ → Result ℤ
defined none = throw tlv_error
defined (some tag) = ok tag

with_bits : ℕ → Result Buffer → Result (ℕ × Buffer)
with_bits bits encoded = do buf ← encoded; ok (bits, buf)

-- A tag of two or four bytes under a profile that the control bits name.
profile_tag : ℕ → ℕ → Option ℤ → Result (ℕ × Buffer)
unfolding defined with_bits write_uint
profile_tag bits2 bits4 tag? = defined tag? >>= λ tag.
    if leq (pos 0) tag && leq tag (pos 0xFFFF)
    then with_bits bits2 (write_uint 2 (alloc 2) tag 0)
    else if leq (pos 0x1_0000) tag && leq tag (pos 0xFFFF_FFFF)
    then with_bits bits4 (write_uint 4 (alloc 4) tag 0)
    else throw tlv_error

-- The profile and the tag behind it; another tag leaves the control byte without its bits.
qualified_tag : ℤ → Option ℤ → Result (ℕ × Buffer)
unfolding defined with_bits write_uint
qualified_tag profile tag? = defined tag? >>= λ tag.
    if leq (pos 0) tag && leq tag (pos 0xFFFF)
    then with_bits 0xC0 (write_uint 4 (alloc 6) profile 0 >>= λ buf. write_uint 2 buf tag 4)
    else if leq (pos 0x1_0000) tag && leq tag (pos 0xFFFF_FFFF)
    then with_bits 0xE0 (write_uint 4 (alloc 8) profile 0 >>= λ buf. write_uint 4 buf tag 4)
    else ok (0, [])

context_tag : Option ℤ → Result (ℕ × Buffer)
unfolding with_bits write_uint
context_tag none = ok (0, [])
context_tag (some tag) =
    if is_negative tag || leq (pos 256) tag
    then throw tlv_error
    else with_bits 0x20 (write_uint 1 (alloc 1) tag 0)

is_one_of : ℤ → ℕ → ℕ → Bool
is_one_of (pos p) a b = p == a || p == b
is_one_of (negsuc n) a b = false

-- profile == 0, and profile == -1
is_common : ℤ → Bool
unfolding is_one_of
is_common (pos n) = n == 0 || is_one_of (pos n) 0x40 0x60
is_common (negsuc n) = false

is_implicit : ℤ → Bool
unfolding is_one_of
is_implicit (pos n) = is_one_of (pos n) 0x80 0xA0
is_implicit (negsuc n) = n == 0

-- The bits of the control byte for the tag, and the bytes behind it.
unfoldable pub tag_bytes : Option ℤ → Option ℤ → Result (ℕ × Buffer)
unfolding context_tag profile_tag qualified_tag is_common is_implicit
tag_bytes tag none = context_tag tag
tag_bytes tag (some profile) =
    if is_common profile
    then profile_tag 0x40 0x60 tag
    else if is_implicit profile
    then profile_tag 0x80 0xA0 tag
    else qualified_tag profile tag

unfoldable pub encode_control_byte : ℕ → ℕ → Option ℤ → Option ℤ → Result Buffer
unfolding length_bits
encode_control_byte kind len tag profile = do
  size ← length_bits len
  encoded ← tag_bytes tag profile
  control ← write_le 1 (alloc 1) (bit_or (bit_or kind size) encoded.0) 0
  ok (control ++ encoded.1)
