-- ===== src/Tlv/Element.antt =====
-- The TLV format apart from the code of src/tlv: elements with tags, their bytes, and the JSON object
-- that src/tlv/TlvType.ts has for each.
pub mod RoundTrip
pub mod Templates
use matternode.Prelude.{
  ℕ, ◌+◌, ◌*◌, ◌^◌, ◌<◌, ◌≡◌, ◌≢◌, Bool, true, false, List, [], ◌∷◌, ◌++◌, ltb, ◌==◌, if◌then◌else◌,
  Option, none, some, length, ℤ, pos, negsuc, to_word, FitsSigned,
}
use matternode.Buffer.{Buffer, le_bytes}
use matternode.Tlv.{
  Number, integer, fraction, TypeName, int8, int16, int32, int64, uint8, uint16, uint32, uint64,
  float, string_len, buffer_len, Fields, Value, Values, undefined, number, bigint, truth, text,
  bytes, array_of, object, nil, cons, Platform,
}
use matternode.Tlv.Codec.Numbers.{width, signed_width}
use matternode.Tlv.Text.{IsAscii}

-- No profile; the common or the implicit one; or a profile of its own.
pub data Tag : Type 0 where
  anonymous : Tag
  context common implicit : ℕ → Tag
  qualified : ℕ → ℕ → Tag

-- The five numbers that are excluded are those that the code takes for other profiles.
abbrev pub IsTag : Tag → Type 0
IsTag anonymous = Unit {0}
IsTag (context n) = n < 256
IsTag (common n) = n < 256 ^ 4
IsTag (implicit n) = n < 256 ^ 4
IsTag (qualified p n) =
    (p < 256 ^ 4) × (n < 256 ^ 4) × (p ≢ 0) × (p ≢ 0x40) × (p ≢ 0x60) × (p ≢ 0x80) × (p ≢ 0xA0)

abbrev pub tag_of : Tag → Option ℤ
tag_of anonymous = none
tag_of (context n) = some (pos n)
tag_of (common n) = some (pos n)
tag_of (implicit n) = some (pos n)
tag_of (qualified p n) = some (pos n)

abbrev pub profile_of : Tag → Option ℤ
profile_of anonymous = none
profile_of (context n) = none
profile_of (common n) = some (pos 0)
profile_of (implicit n) = some (negsuc 0)
profile_of (qualified p n) = some (pos p)

-- The tag control, the upper three bits of the control byte.
unfoldable pub tag_control : Tag → ℕ
tag_control anonymous = 0
tag_control (context n) = 1
tag_control (common n) = if ltb n 0x1_0000 then 2 else 3
tag_control (implicit n) = if ltb n 0x1_0000 then 4 else 5
tag_control (qualified p n) = if ltb n 0x1_0000 then 6 else 7

tag_width : ℕ → ℕ
tag_width n = if ltb n 0x1_0000 then 2 else 4

unfoldable pub print_tag : Tag → Buffer
unfolding tag_width
print_tag anonymous = []
print_tag (context n) = le_bytes 1 n
print_tag (common n) = le_bytes (tag_width n) n
print_tag (implicit n) = le_bytes (tag_width n) n
print_tag (qualified p n) = le_bytes 4 p ++ le_bytes (tag_width n) n

-- The control byte and the tag.
unfoldable pub print_head : Tag → ℕ → Buffer
print_head tag code = (code + 32 * tag_control tag) ∷ print_tag tag

pub data Scalar : Type 0 where
  null : Scalar
  boolean : Bool → Scalar
  unsigned : ℕ → Scalar
  signed : ℤ → Scalar
  single : Number → Scalar
  double : ℕ → Scalar
  string : List ℕ → Scalar
  octets : Buffer → Scalar

pub data Container : Type 0 where
  struct array list : Container

-- The last two bits of an element type: the width of its value or of its length.
unfoldable pub width_code : ℕ → ℕ
width_code k = if k == 1 then 0 else if k == 2 then 1 else if k == 4 then 2 else 3

unfoldable pub type_code : Scalar → ℕ
unfolding width_code
type_code null = 0x14
type_code (boolean b) = if b then 0x09 else 0x08
type_code (unsigned n) = 0x04 + width_code (width n)
type_code (signed z) = width_code (signed_width z)
type_code (single x) = 0x0A
type_code (double bits) = 0x0B
type_code (string s) = 0x0C + width_code (width (length s))
type_code (octets b) = 0x10 + width_code (width (length b))

unfoldable pub container_code : Container → ℕ
container_code struct = 0x15
container_code array = 0x16
container_code list = 0x17

module _ (platform : Platform) where
  -- What src/tlv reads back as it was. The lengths below 256 ^ 4 are those that it reads.
  abbrev pub IsScalar : Scalar → Type 0
  IsScalar null = Unit {0}
  IsScalar (boolean b) = Unit {0}
  IsScalar (unsigned n) = n < 256 ^ 8
  IsScalar (signed z) = FitsSigned 8 z
  IsScalar (single x) = platform.of_float (platform.to_float x) ≡ x
  IsScalar (double bits) = (bits < 256 ^ 8) × (platform.of_double bits ≡ fraction bits)
  IsScalar (string s) = IsAscii s × (length s < 256 ^ 4)
  IsScalar (octets b) = length b < 256 ^ 4

  unfoldable pub print_scalar : Scalar → Buffer
  print_scalar null = []
  print_scalar (boolean b) = []
  print_scalar (unsigned n) = le_bytes (width n) n
  print_scalar (signed z) = le_bytes (signed_width z) (to_word (signed_width z) z)
  print_scalar (single x) = le_bytes 4 (platform.to_float x)
  print_scalar (double bits) = le_bytes 8 bits
  print_scalar (string s) = le_bytes (width (length s)) (length s) ++ s
  print_scalar (octets b) = le_bytes (width (length b)) (length b) ++ b

-- The `type` of the JSON object, and its `value`: eight bytes are a BigInt.
unfoldable pub kind_of : Scalar → TypeName
kind_of null = TypeName.null
kind_of (boolean b) = TypeName.boolean
kind_of (unsigned n) =
    if width n == 1
    then uint8
    else if width n == 2
    then uint16
    else if width n == 4
    then uint32
    else uint64
kind_of (signed z) =
    if signed_width z == 1
    then int8
    else if signed_width z == 2
    then int16
    else if signed_width z == 4
    then int32
    else int64
kind_of (single x) = float
kind_of (double bits) = TypeName.double
kind_of (string s) = string_len (width (length s))
kind_of (octets b) = buffer_len (width (length b))

unfoldable pub value_of : Scalar → Value
value_of null = undefined
value_of (boolean b) = truth b
value_of (unsigned n) = if width n == 8 then bigint (pos n) else number (integer (pos n))
value_of (signed z) = if signed_width z == 8 then bigint z else number (integer z)
value_of (single x) = number x
value_of (double bits) = number (fraction bits)
value_of (string s) = text s
value_of (octets b) = bytes b

unfoldable pub container_kind : Container → TypeName
container_kind struct = TypeName.struct
container_kind array = TypeName.array
container_kind list = TypeName.list

mutual
  pub data Element : Type 0 where
    scalar : Tag → Scalar → Element
    container : Tag → Container → Elements → Element

  pub data Elements : Type 0 where
    no_more : Elements
    more : Element → Elements → Elements

abbrev pub fields_of : Tag → TypeName → Fields
fields_of tag kind = record {
  tag = tag_of tag;
  kind = some kind;
  profile = profile_of tag;
  tag_name = none;
}

unfoldable mutual
  pub json_of : Element → Value
  json_of (scalar tag s) = object (fields_of tag (kind_of s)) (value_of s)
  json_of (container tag kind es) =
      object (fields_of tag (container_kind kind)) (array_of (json_of_each es))

  pub json_of_each : Elements → Values
  json_of_each no_more = nil
  json_of_each (more e es) = cons (json_of e) (json_of_each es)

module _ (platform : Platform) where
  unfoldable mutual
    pub print : Element → Buffer
    print (scalar tag s) = print_head tag (type_code s) ++ print_scalar platform s
    print (container tag kind es) =
        print_head tag (container_code kind) ++ (print_each es ++ (0x18 ∷ []))

    pub print_each : Elements → Buffer
    print_each no_more = []
    print_each (more e es) = print e ++ print_each es

  abbrev mutual
    pub IsElement : Element → Type 0
    IsElement (scalar tag s) = IsTag tag × IsScalar platform s
    IsElement (container tag kind es) = IsTag tag × AreElements es

    pub AreElements : Elements → Type 0
    AreElements no_more = Unit {0}
    AreElements (more e es) = IsElement e × AreElements es
