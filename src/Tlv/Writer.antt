-- ===== src/Tlv/Writer.antt =====
-- src/tlv/TlvWriter.ts. A method takes the buffer so far and returns the one after it; what was
-- appended before an error is not kept.
pub mod Appends
pub mod Pieces
pub mod Limits
pub mod Starts
use matternode.Prelude.{
  ℕ, ◌+◌, ◌%◌, ◌-◌, ◌*◌, Bool, true, false, not, List, [], ◌∷◌, ◌++◌, ◌==◌, if◌then◌else◌, Option,
  none, some, length, ℤ, pos, negsuc, is_negative, Result, ok, throw, ◌>>=◌, type_error, tlv_error,
}
use matternode.Buffer.{Buffer, alloc, write_le}
use matternode.Tlv.{
  Number, integer, fraction, TypeName, int8, int16, int32, int64, uint8, uint16, uint32, uint64,
  boolean, bool, float, struct, array, list, buffer, Fields, Value, Values, undefined, number,
  bigint, truth, text, bytes, array_of, object, nil, cons, Platform,
}
use matternode.Tlv.Text.{units, utf8, from_hex}
use matternode.Tlv.Codec.{encode_signed_int, encode_unsigned_int, encode_control_byte}

-- What an element consists of behind its control byte and tag, appended to the buffer.
pub put_element : Buffer → ℕ → ℕ → Option ℤ → Option ℤ → Buffer → Result Buffer
put_element buf kind len tag profile encoded = do
  control ← encode_control_byte kind len tag profile
  ok (buf ++ (control ++ encoded))

-- value ? true : false
is_truthy : Platform → Value → Bool
is_truthy platform undefined = false
is_truthy platform (number (integer (pos n))) = not (n == 0)
is_truthy platform (number (integer (negsuc n))) = true
is_truthy platform (number (fraction bits)) = not (platform.is_nan bits)
is_truthy platform (bigint (pos n)) = not (n == 0)
is_truthy platform (bigint (negsuc n)) = true
is_truthy platform (truth b) = b
is_truthy platform (text []) = false
is_truthy platform (text (c ∷ s)) = true
is_truthy platform (bytes b) = true
is_truthy platform (array_of vs) = true
is_truthy platform (object fields v) = true

-- The low byte of an integer.
byte_of : ℤ → ℕ
byte_of (pos n) = n % 256
byte_of (negsuc n) = 255 - n % 256

-- The number that a value is where a number is wanted; a BigInt throws.
to_number : Platform → Value → Result Number
to_number platform (number n) = ok n
to_number platform (bigint z) = throw type_error
to_number platform v = ok (platform.to_number v)

array_bytes : Platform → Values → Result Buffer
array_bytes platform nil = ok []
array_bytes platform (cons v vs) = do
  n ← to_number platform v
  rest ← array_bytes platform vs
  ok (elim n [ integer z ↦ byte_of z | fraction bits ↦ platform.to_byte bits ] ∷ rest)

-- The bytes under the type "Buffer": hexadecimal text, bytes, or an array of numbers.
bytes_of : Platform → Value → Result Buffer
bytes_of platform (text s) = ok (from_hex s)
bytes_of platform (bytes b) = ok b
bytes_of platform (array_of vs) = array_bytes platform vs
bytes_of platform _ = throw type_error

signed_bytes : Platform → Value → Result Buffer
signed_bytes platform (number (integer z)) = encode_signed_int z
signed_bytes platform (bigint z) = encode_signed_int z
signed_bytes platform undefined = throw tlv_error
signed_bytes platform v = platform.signed_other v

unsigned_bytes : Platform → Value → Result Buffer
unsigned_bytes platform (number (integer z)) = encode_unsigned_int false z
unsigned_bytes platform (bigint z) = encode_unsigned_int true z
unsigned_bytes platform undefined = throw tlv_error
unsigned_bytes platform v = platform.unsigned_other v

module _ (platform : Platform) where
  unfoldable pub put_unsigned_int : Buffer → Value → Option ℤ → Option ℤ → Result Buffer
  unfolding put_element unsigned_bytes
  put_unsigned_int buf v tag profile = do
    encoded ← unsigned_bytes platform v
    put_element buf 0x04 (length encoded) tag profile encoded

  unfoldable pub put_signed_int : Buffer → Value → Option ℤ → Option ℤ → Result Buffer
  unfolding put_element signed_bytes
  put_signed_int buf v tag profile = do
    encoded ← signed_bytes platform v
    put_element buf 0x00 (length encoded) tag profile encoded

  unfoldable pub put_float : Buffer → Value → Option ℤ → Option ℤ → Result Buffer
  unfolding put_element to_number
  put_float buf v tag profile = do
    n ← to_number platform v
    encoded ← write_le 4 (alloc 4) (platform.to_float n) 0
    put_element buf 0x0A 0 tag profile encoded

  unfoldable pub put_boolean : Buffer → Value → Option ℤ → Option ℤ → Result Buffer
  unfolding put_element is_truthy
  put_boolean buf v tag profile =
      put_element buf (if is_truthy platform v then 0x09 else 0x08) 0 tag profile []

-- The double whose bits these are.
unfoldable pub put_double : Buffer → ℕ → Option ℤ → Option ℤ → Result Buffer
unfolding put_element
put_double buf bits tag profile = do
  encoded ← write_le 8 (alloc 8) bits 0
  put_element buf 0x0B 0 tag profile encoded

unfoldable pub put_null : Buffer → Option ℤ → Option ℤ → Result Buffer
unfolding put_element
put_null buf tag profile = put_element buf 0x14 0 tag profile []

unfoldable pub put_bytes : Buffer → Buffer → Option ℤ → Option ℤ → Result Buffer
unfolding put_element
put_bytes buf b tag profile = do
  len ← encode_unsigned_int false (pos (length b))
  put_element buf 0x10 (length len) tag profile (len ++ b)

-- The length that is written is that of the string, not of its bytes.
unfoldable pub put_string : Buffer → List ℕ → Option ℤ → Option ℤ → Result Buffer
unfolding put_element
put_string buf s tag profile = do
  let encoded = utf8 s
  len ← encode_unsigned_int false (pos (units s))
  put_element buf 0x0C (length len) tag profile (len ++ encoded)

unfoldable pub put_struct_start : Buffer → Option ℤ → Option ℤ → Result Buffer
unfolding put_element
put_struct_start buf tag profile = put_element buf 0x15 0 tag profile []

unfoldable pub put_array_start : Buffer → Option ℤ → Option ℤ → Result Buffer
unfolding put_element
put_array_start buf tag profile = put_element buf 0x16 0 tag profile []

unfoldable pub put_list_start : Buffer → Option ℤ → Option ℤ → Result Buffer
unfolding put_element
put_list_start buf tag profile = put_element buf 0x17 0 tag profile []

unfoldable pub put_container_end : Buffer → Result Buffer
unfolding put_element
put_container_end buf = put_element buf 0x18 0 none none []

module _ (platform : Platform) where
  -- An integer by its sign.
  put_integer : Buffer → Bool → Value → Option ℤ → Option ℤ → Result Buffer
  put_integer buf negative v tag profile =
      if negative
      then put_signed_int platform buf v tag profile
      else put_unsigned_int platform buf v tag profile

  -- The part of put for a number.
  put_number : Buffer → Number → Option ℤ → Option ℤ → Result Buffer
  unfolding put_integer
  put_number buf (integer z) tag profile =
      put_integer buf (is_negative z) (number (integer z)) tag profile
  put_number buf (fraction bits) tag profile = put_double buf bits tag profile

  -- An object of a type: `nested` appends its value as JSON, `generic` as a value of any type.
  unfoldable pub encode_object :
      Buffer → Fields → Value → (Buffer → Result Buffer) → (Buffer → Result Buffer) → Result Buffer
  unfolding bytes_of array_bytes to_number byte_of
  encode_object buf fields v nested generic = elim fields.kind [
    | none ↦ generic buf
    | some kind ↦
        let tag = fields.tag in
        let profile = fields.profile in
        let signed = put_signed_int platform buf v tag profile in
        let unsigned = put_unsigned_int platform buf v tag profile in
        elim kind [
          | struct ↦ put_struct_start buf tag profile >>= nested >>= put_container_end
          | array ↦ put_array_start buf tag profile >>= nested >>= put_container_end
          | list ↦ put_list_start buf tag profile >>= nested >>= put_container_end
          | int8 ↦ signed
          | int16 ↦ signed
          | int32 ↦ signed
          | int64 ↦ signed
          | uint8 ↦ unsigned
          | uint16 ↦ unsigned
          | uint32 ↦ unsigned
          | uint64 ↦ unsigned
          | float ↦ put_float platform buf v tag profile
          | boolean ↦ put_boolean platform buf v tag profile
          | bool ↦ put_boolean platform buf v tag profile
          | buffer ↦ bytes_of platform v >>= λ b. put_bytes buf b tag profile
          | _ ↦ generic buf
        ]
  ]

  unfoldable mutual
    unfolding put_integer put_number

    pub encode : Buffer → Value → Result Buffer
    encode buf undefined = throw type_error
    encode buf (array_of vs) = encode_each buf vs
    encode buf (object fields v) =
        encode_object buf fields v (λ b. encode b v) (λ b. put b v fields.tag fields.profile)
    encode buf (bytes b) = put_null buf none none
    encode buf (number n) = put_number buf n none none
    encode buf (bigint z) = put_integer buf (is_negative z) (bigint z) none none
    encode buf (truth b) = put_boolean platform buf (truth b) none none
    encode buf (text s) = put_string buf s none none

    pub put : Buffer → Value → Option ℤ → Option ℤ → Result Buffer
    put buf undefined tag profile = put_null buf tag profile
    put buf (text s) tag profile = put_string buf s tag profile
    put buf (bytes b) tag profile = put_bytes buf b tag profile
    put buf (number n) tag profile = put_number buf n tag profile
    put buf (bigint z) tag profile = put_integer buf (is_negative z) (bigint z) tag profile
    put buf (truth b) tag profile = put_boolean platform buf (truth b) tag profile
    put buf (array_of vs) tag profile = encode_each buf vs
    put buf (object fields v) tag profile =
        encode_object buf (record fields { tag = tag; profile = profile }) v (λ b. encode b v)
          (λ b. put b v tag profile)

    pub encode_each : Buffer → Values → Result Buffer
    encode_each buf nil = ok buf
    encode_each buf (cons v vs) = encode buf v >>= λ b. encode_each b vs
