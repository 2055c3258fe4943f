-- ===== src/Tlv/Parser.antt =====
-- src/tlv/TlvParser.ts: names for the tags of an array of decoded elements. TlvParser.findTag is
-- TlvReader.findTag.
use Prim.Native.String.{String}
use text.Mathlib.Text.{◌==◌}
use matternode.Prelude.{
  ℕ, List, [], ◌∷◌, if◌then◌else◌, Option, none, some, ℤ, pos, same, Result, ok, throw, ◌>>=◌,
  type_error,
}
use matternode.Tlv.{Fields, Value, Values, undefined, object, nil, cons}

-- Map.get of the names of tags.
unfoldable pub lookup_name : List (ℕ × String) → ℤ → Option String
lookup_name [] tag = none
lookup_name ((t, name) ∷ names) tag = if same (pos t) tag then some name else lookup_name names tag

-- A tag of 0 is falsy, and its element keeps the name that it had.
name_of : List (ℕ × String) → Fields → Option String
name_of names fields = elim fields.tag [
  | none ↦ fields.tag_name
  | some tag ↦
      if same tag (pos 0)
      then fields.tag_name
      else elim (lookup_name names tag) [ none ↦ fields.tag_name | some name ↦ some name ]
]

unfoldable pub map_fields : Values → List (ℕ × String) → Result Values
unfolding name_of
map_fields nil names = ok nil
map_fields (cons undefined rest) names = throw type_error
map_fields (cons (object fields v) rest) names = do
  named ← map_fields rest names
  ok (cons (object (record fields { tag_name = name_of names fields }) v) named)
map_fields (cons other rest) names = do named ← map_fields rest names; ok (cons other named)

-- The first element with the tag gets the name.
unfoldable pub set_name_for_tag : Values → ℕ → String → Result Values
set_name_for_tag nil tag name = ok nil
set_name_for_tag (cons undefined rest) tag name = throw type_error
set_name_for_tag (cons (object fields v) rest) tag name =
    let later = set_name_for_tag rest tag name >>= λ named. ok (cons (object fields v) named) in
    elim fields.tag [
      | none ↦ later
      | some t ↦
          if same t (pos tag)
          then ok (cons (object (record fields { tag_name = some name }) v) rest)
          else later
    ]
set_name_for_tag (cons other rest) tag name = do
  named ← set_name_for_tag rest tag name
  ok (cons other named)

-- The value of the first element with the name.
unfoldable pub get : Values → String → Result Value
get nil name = ok undefined
get (cons undefined rest) name = throw type_error
get (cons (object fields v) rest) name =
    let later = get rest name in
    elim fields.tag_name [ none ↦ later | some n ↦ if n == name then ok v else later ]
get (cons other rest) name = get rest name
