-- ===== src/Tlv/Reader/Ends.antt =====
-- TlvReader.decode ends: a round of its loop reads at least the control byte.
use matternode.Prelude.{
  ℕ, zero, suc, ◌≤◌, ◌<◌, ◌≡◌, refl, true, List, [], ◌∷◌, ◌==◌, ltb, ◌&&◌, Option, some, arith,
  length, drop, length-drop, Bool-cases, Result, ok, throw, ◌>>=◌, Ensures, >>=-Ensures, inl, inr,
}
use matternode.Buffer.{Buffer, read_le}
use matternode.Tlv.{Platform, Values, Value, Fields}
use matternode.Tlv.Codec.Decode.{
  Control, TagLength, decode_control_byte, decode_tag_and_length, decode_value_and_length,
}
use matternode.Tlv.Reader.{
  Frame, TlvReader, Cursor, place, after_element, read_so_far, cursor, end_container, add_element,
  decode_element, decode_rounds, decode,
}

decode_control_byte-pos :
    (tlv : Buffer) {control : Control} → decode_control_byte tlv ≡ ok control → 0 < length tlv
unfolding decode_control_byte read_le
decode_control_byte-pos [] h = cc
decode_control_byte-pos (b ∷ rest) h = omega arith

end_container-tlv :
    (tlv : Buffer) (filling : Values) (inner : List Frame)
    → (end_container tlv filling inner).tlv ≡ tlv
unfolding end_container
end_container-tlv tlv filling [] = refl
end_container-tlv tlv filling (frame ∷ inner) = refl

add_element-tlv :
    (tlv : Buffer) (filling : Values) (inner : List Frame) (t : ℕ) (fields : Fields) (v : Value)
    → (add_element tlv filling inner t fields v).tlv ≡ tlv
unfolding add_element
add_element-tlv tlv filling inner t fields v = ground arith

place-le :
    (control : Control) (tag : TagLength) (tlv : Buffer) (filling : Values) (inner : List Frame)
    (v : Value × ℕ)
    → length (place control tag tlv filling inner v).tlv ≤ length tlv
unfolding place
place-le control tag tlv filling inner v = elim (Bool-cases (control.type_num == 0x18)) [
  | inl end ↦
      rw end
        (rw (end_container-tlv (drop v.1 tlv) filling inner) (omega (arith, length-drop v.1 tlv)))
  | inr other ↦ rw other (
      rw (add_element-tlv (drop v.1 tlv) filling inner control.type_num _ v.0)
        (omega (arith, length-drop v.1 tlv)))
]

decode_element-lt :
    (platform : Platform) (tlv : Buffer) (filling : Values) (inner : List Frame)
    → Ensures (λ next. length next.tlv < length tlv) (decode_element platform tlv filling inner)
unfolding decode_element
decode_element-lt platform tlv filling inner =
    >>=-Ensures P (decode_control_byte tlv) _ λ control read.
      >>=-Ensures P (decode_tag_and_length (drop 1 tlv) control.tag_type) _ λ tag _.
        let behind = drop tag.tag_length (drop 1 tlv) in
        >>=-Ensures P (decode_value_and_length platform behind control.type_num) _ λ v _. omega (
          arith,
          place-le control tag behind filling inner v,
          decode_control_byte-pos tlv read,
          length-drop tag.tag_length (drop 1 tlv),
          length-drop 1 tlv,
        )
  where
    P : Cursor → Type 0
    P next = length next.tlv < length tlv

after_element_total :
    (next_round : Cursor → Option (Result Cursor)) (size : ℕ) (r : Result Cursor)
    → Ensures (λ next. length next.tlv < size) r
    → ((next : Cursor)
        → length next.tlv < size
        → (outcome : Result Cursor) × (next_round next ≡ some outcome))
    → (outcome : Result Cursor) × (after_element next_round r ≡ some outcome)
unfolding after_element
after_element_total next_round size (throw error) h all = (throw error, refl)
after_element_total next_round size (ok next) h all = all next h

-- Rounds beyond the length of what is left are enough.
pub decode_rounds_total :
    (platform : Platform) (rounds : ℕ) (c : Cursor)
    → length c.tlv < rounds
    → (outcome : Result Cursor) × (decode_rounds platform rounds c ≡ some outcome)
unfolding decode_rounds
decode_rounds_total platform zero c h = absurd (omega arith)
decode_rounds_total platform (suc rounds) c h =
    elim (Bool-cases (ltb 0 (length c.tlv) && c.running)) [
      | inr stopped ↦ (ok c, rw stopped refl)
      | inl runs ↦ rw runs (
          after_element_total (decode_rounds platform rounds) (length c.tlv)
            (decode_element platform c.tlv c.filling c.inner)
            (decode_element-lt platform c.tlv c.filling c.inner)
            (λ next small. decode_rounds_total platform rounds next (omega arith)))
    ]

-- More rounds than are enough give the same.
pub decode_rounds_more :
    (platform : Platform) (rounds more : ℕ) (c : Cursor) {outcome : Result Cursor}
    → decode_rounds platform rounds c ≡ some outcome
    → rounds ≤ more
    → decode_rounds platform more c ≡ some outcome
unfolding decode_rounds
decode_rounds_more platform zero more c h le = cc
decode_rounds_more platform (suc rounds) zero c h le = absurd (omega arith)
decode_rounds_more platform (suc rounds) (suc more) c h le =
    elim (Bool-cases (ltb 0 (length c.tlv) && c.running)) [
      | inr stopped ↦ rw stopped (rw stopped at h)
      | inl runs ↦ rw runs (
          same_after (decode_element platform c.tlv c.filling c.inner)
            (λ next e. decode_rounds_more platform rounds more next e (omega arith)) (rw runs at h))
    ]
  where
    same_after :
        {outcome : Result Cursor} (r : Result Cursor)
        → ((next : Cursor)
            → decode_rounds platform rounds next ≡ some outcome
            → decode_rounds platform more next ≡ some outcome)
        → after_element (decode_rounds platform rounds) r ≡ some outcome
        → after_element (decode_rounds platform more) r ≡ some outcome
    same_after (throw error) again e = e
    same_after (ok next) again e = again next e

-- decode returns, or throws, on every buffer: it never runs on.
pub decode_total :
    (platform : Platform) (reader : TlvReader) (tlv : Buffer)
    → (outcome : Result TlvReader) × (decode platform reader tlv ≡ some outcome)
unfolding decode
decode_total platform reader tlv =
    let start = cursor tlv reader.filling [] true in
    let (outcome, ends) = decode_rounds_total platform (suc (length tlv)) start (omega arith) in
    (outcome >>= (λ c. ok (read_so_far reader c)), rw ends refl)
