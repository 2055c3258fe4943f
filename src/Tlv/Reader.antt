-- ===== src/Tlv/Reader.antt =====
-- src/tlv/TlvReader.ts. The arrays that the reader fills are shared by the elements that hold them; the
-- model keeps an array that is being filled outside its element, which stands in a frame.
pub mod Ends
pub mod Reads
pub mod Scalars
use mathlib.Core.Option
use matternode.Prelude.{
  ℕ, zero, suc, Bool, true, false, ◌&&◌, ◌||◌, List, [], ◌∷◌, ◌++◌, ltb, ◌==◌, if◌then◌else◌,
  Option, none, some, length, drop, ℤ, pos, same, Result, ok, throw, ◌>>=◌, type_error,
}
use matternode.Buffer.{Buffer}
use matternode.Tlv.{
  Fields, Value, Values, undefined, number, bigint, truth, text, bytes, array_of, object, nil, cons,
  push, Platform,
}
use matternode.Tlv.Codec.Decode.{
  Control, TagLength, decode_control_byte, decode_tag_and_length, decode_value_and_length,
}

-- A container that is open: its fields, and the array that it was pushed to, without it.
pub record Frame : Type 0 where
  pub fields : Fields
  pub outer : Values

-- `filling` is the innermost open array, and `frames` are the containers around it.
pub record TlvReader : Type 0 where
  pub filling : Values
  pub frames : List Frame

unfoldable pub new_reader : TlvReader
new_reader = record { filling = nil; frames = [] }

close : List Frame → Values → Values
close [] filling = filling
close (frame ∷ frames) filling =
    close frames (push frame.outer (object frame.fields (array_of filling)))

-- get Json
unfoldable pub json : TlvReader → Values
unfolding close
json r = close r.frames r.filling

-- The value of the first element with the tag; undefined if there is none. Values that are no objects
-- have no tag, and undefined has no properties.
unfoldable pub find_entry : Values → ℕ → Result Value
find_entry nil tag = ok undefined
find_entry (cons undefined rest) tag = throw type_error
find_entry (cons (object fields v) rest) tag =
    let later = find_entry rest tag in
    elim fields.tag [ none ↦ later | some t ↦ if same t (pos tag) then ok v else later ]
find_entry (cons other rest) tag = find_entry rest tag

-- TlvReader.findTag of what should be an array; the bytes of a Buffer have no tags.
unfoldable pub find_tag : Value → ℕ → Result Value
find_tag (array_of vs) tag = find_entry vs tag
find_tag (bytes b) tag = ok undefined
find_tag other tag = throw type_error

-- A round of the loop of decode: what is left, the array that is filled and the containers that this
-- call has opened, and whether the depth is still positive.
pub record Cursor : Type 0 where
  pub tlv : Buffer
  pub filling : Values
  pub inner : List Frame
  pub running : Bool

abbrev pub cursor : Buffer → Values → List Frame → Bool → Cursor
cursor tlv filling inner running = record {
  tlv = tlv;
  filling = filling;
  inner = inner;
  running = running;
}

-- The end of a container returns to the array around it; that of the outermost level ends the loop.
end_container : Buffer → Values → List Frame → Cursor
end_container tlv filling [] = cursor tlv filling [] false
end_container tlv filling (frame ∷ inner) =
    cursor tlv (push frame.outer (object frame.fields (array_of filling))) inner true

-- A decoded element joins the array; a container is opened.
add_element : Buffer → Values → List Frame → ℕ → Fields → Value → Cursor
add_element tlv filling inner t fields v =
    if t == 0x15 || t == 0x16 || t == 0x17
    then cursor tlv nil (record { fields = fields; outer = filling } ∷ inner) true
    else cursor tlv (push filling (object fields v)) inner true

-- What becomes of a decoded element, with `tlv` behind its tag.
place : Control → TagLength → Buffer → Values → List Frame → Value × ℕ → Cursor
unfolding end_container add_element
place control tag tlv filling inner v =
    let rest = drop v.1 tlv in
    let fields : Fields = record {
      profile = tag.profile;
      tag = tag.tag;
      kind = control.kind;
      tag_name = none;
    } in
    if control.type_num == 0x18
    then end_container rest filling inner
    else add_element rest filling inner control.type_num fields v.0

after_element : (Cursor → Option (Result Cursor)) → Result Cursor → Option (Result Cursor)
after_element next_round (throw error) = some (throw error)
after_element next_round (ok next) = next_round next

-- The containers that are still open stand inside those of earlier calls.
read_so_far : TlvReader → Cursor → TlvReader
read_so_far reader c = record { filling = c.filling; frames = c.inner ++ reader.frames }

module _ (platform : Platform) where
  unfoldable pub decode_element : Buffer → Values → List Frame → Result Cursor
  unfolding place
  decode_element tlv filling inner = do
    control ← decode_control_byte tlv
    let tlv = drop 1 tlv
    tag ← decode_tag_and_length tlv control.tag_type
    let tlv = drop tag.tag_length tlv
    v ← decode_value_and_length platform tlv control.type_num
    ok (place control tag tlv filling inner v)

  -- The loop, with the rounds that it may take; none means that these ran out.
  unfoldable pub decode_rounds : ℕ → Cursor → Option (Result Cursor)
  unfolding after_element
  decode_rounds zero c = none
  decode_rounds (suc rounds) c =
      let go_on =
        after_element (λ next. decode_rounds rounds next)
          (decode_element c.tlv c.filling c.inner) in
      if ltb 0 (length c.tlv) && c.running then go_on else some (ok c)

  -- A call of decode on a reader, with a round for each byte, and one for the last test.
  unfoldable pub decode : TlvReader → Buffer → Option (Result TlvReader)
  unfolding read_so_far
  decode reader tlv =
      Option.map (λ ended. ended >>= λ c. ok (read_so_far reader c))
        (decode_rounds (suc (length tlv)) (cursor tlv reader.filling [] true))

-- Its Json afterwards; the rounds never run out.
decoded_json : Option (Result TlvReader) → Result Values
decoded_json none = throw type_error
decoded_json (some (throw error)) = throw error
decoded_json (some (ok reader)) = ok (json reader)

-- new TlvReader().decode(tlv).Json
unfoldable pub decode_json : Platform → Buffer → Result Values
unfolding decoded_json
decode_json platform tlv = decoded_json (decode platform new_reader tlv)

-- values[i].value
unfoldable pub value_at : Value → ℕ → Result Value
value_at (array_of nil) i = throw type_error
value_at (array_of (cons (object fields v) rest)) zero = ok v
value_at (array_of (cons undefined rest)) zero = throw type_error
value_at (array_of (cons other rest)) zero = ok undefined
value_at (array_of (cons first rest)) (suc i) = value_at (array_of rest) i
value_at (bytes b) i = if ltb i (length b) then ok undefined else throw type_error
value_at (text s) i = if ltb i (length s) then ok undefined else throw type_error
value_at other i = throw type_error
