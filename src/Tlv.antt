-- ===== src/Tlv.antt =====
-- The data of src/tlv: the values that the JavaScript code holds and the deterministic JSON of
-- src/tlv/TlvType.ts, an object for each element.
pub mod Text
pub mod Codec
pub mod Writer
pub mod Reader
pub mod Parser
pub mod Element
use Prim.Native.String.{String}
use matternode.Prelude.{ℕ, ◌^◌, ◌<◌, Bool, Option, none, some, List, Result, ℤ, pos}
use matternode.Buffer.{Buffer}

-- A JavaScript number: an integer, or else the bits of the double that it is.
pub data Number : Type 0 where
  integer : ℤ → Number
  fraction : ℕ → Number

-- The text of a JSON object's `type`. A length stands in its text by its bytes: 1 for `uint8`,
-- and so on.
pub data TypeName : Type 0 where
  int8 int16 int32 int64 uint8 uint16 uint32 uint64 : TypeName
  boolean bool float double null struct array list : TypeName
  string_len buffer_len : ℕ → TypeName
  buffer end_of_collection other : TypeName

-- `fields` of an object: what stands beside its `value`. A string is its code points; a lone half
-- of a surrogate pair counts as one.
pub record Fields : Type 0 where
  pub tag : Option ℤ
  pub kind : Option TypeName
  pub profile : Option ℤ
  pub tag_name : Option String

mutual
  pub data Value : Type 0 where
    undefined : Value
    number : Number → Value
    bigint : ℤ → Value
    truth : Bool → Value
    text : List ℕ → Value
    bytes : Buffer → Value
    array_of : Values → Value
    object : Fields → Value → Value

  pub data Values : Type 0 where
    nil : Values
    cons : Value → Values → Values

abbrev pub num : ℕ → Value
num n = number (integer (pos n))

-- { "tag": tag, "type": kind, "value": v }
abbrev pub field : ℕ → TypeName → Value → Value
field tag kind v =
    object (record { tag = some (pos tag); kind = some kind; profile = none; tag_name = none }) v

-- { "tag": tag, "value": v }
abbrev pub untyped : ℕ → Value → Value
untyped tag v =
    object (record { tag = some (pos tag); kind = none; profile = none; tag_name = none }) v

-- { "type": kind, "value": vs }
abbrev pub untagged : TypeName → Values → Value
untagged kind vs =
    object (record { tag = none; kind = some kind; profile = none; tag_name = none }) (array_of vs)

-- array.push(value)
unfoldable pub push : Values → Value → Values
push nil value = cons value nil
push (cons first rest) value = cons first (push rest value)

-- The doubles and singles of the platform, and its coercions: `to_number` of a value that is neither
-- a number nor a BigInt, `to_byte` of a double that is no integer, and what the integer encoders make
-- of a value that is neither an integer nor undefined.
pub record Platform : Type 0 where
  pub of_float : ℕ → Number
  pub of_double : ℕ → Number
  pub to_float : Number → ℕ
  pub to_float-lt : (n : Number) → to_float n < 256 ^ 4
  pub is_nan : ℕ → Bool
  pub to_number : Value → Number
  pub to_byte : ℕ → ℕ
  pub signed_other : Value → Result Buffer
  pub unsigned_other : Value → Result Buffer
