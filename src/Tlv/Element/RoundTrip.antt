-- ===== src/Tlv/Element/RoundTrip.antt =====
-- TlvWriter and TlvReader against the format: what is written of an element's JSON is its bytes, and
-- reading these gives the JSON back.
use matternode.Prelude.{
  ℕ, suc, ◌+◌, ◌<◌, ◌≤◌, ◌≡◌, refl, sym, ap, ◌∙◌, true, List, [], ◌∷◌, ◌++◌, append_assoc,
  append-nil, lt→ltb, some, arith, length, length-append, ok,
}
use matternode.Buffer.{Buffer}
use matternode.Tlv.{Value, Values, array_of, nil, cons, push, Platform}
use matternode.Tlv.Element.{
  Tag, Scalar, print_head, container_kind, container_code, Element, Elements, json_of, json_of_each,
  print, print_each, IsElement, AreElements, fields_of, scalar, container, no_more, more,
}
use matternode.Tlv.Reader.{Frame, Cursor, new_reader, decode_element, decode_rounds, decode, cursor}
use matternode.Tlv.Reader.Ends.{decode_rounds_more}
use matternode.Tlv.Reader.Reads.{decode_element-scalar, decode_element-open, decode_element-close}
use matternode.Tlv.Writer.{encode}
use matternode.Tlv.Writer.Appends.{encode_each-print}

-- Elements behind those of an array.
push_each : Values → Elements → Values
push_each filling no_more = filling
push_each filling (more e es) = push_each (push filling (json_of e)) es

append : Values → Values → Values
append nil ws = ws
append (cons v vs) ws = cons v (append vs ws)

append-push : (vs ws : Values) (v : Value) → append (push vs v) ws ≡ append vs (cons v ws)
unfolding append push
append-push nil ws v = refl
append-push (cons u vs) ws v = ap (cons u) (append-push vs ws v)

append-nil_values : (vs : Values) → append vs nil ≡ vs
unfolding append
append-nil_values nil = refl
append-nil_values (cons v vs) = ap (cons v) (append-nil_values vs)

push_each-append :
    (filling : Values) (es : Elements) → push_each filling es ≡ append filling (json_of_each es)
unfolding push_each json_of
push_each-append filling no_more = sym (append-nil_values filling)
push_each-append filling (more e es) =
    push_each-append (push filling (json_of e)) es
    ∙ append-push filling (json_of_each es) (json_of e)

push_each-nil : (es : Elements) → push_each nil es ≡ json_of_each es
unfolding append
push_each-nil es = push_each-append nil es

-- The rounds that elements take before another `rounds`.
mutual
  rounds_over : Element → ℕ → ℕ
  rounds_over (scalar tag s) rounds = suc rounds
  rounds_over (container tag kind es) rounds = suc (rounds_over_each es (suc rounds))

  rounds_over_each : Elements → ℕ → ℕ
  rounds_over_each no_more rounds = rounds
  rounds_over_each (more e es) rounds = rounds_over e (rounds_over_each es rounds)

-- A round whose element is known, at a buffer that is not empty.
round_at :
    (platform : Platform) (rounds : ℕ) (tlv : Buffer) (filling : Values) (inner : List Frame)
    (next : Cursor)
    → 0 < length tlv
    → decode_element platform tlv filling inner ≡ ok next
    → decode_rounds platform (suc rounds) (cursor tlv filling inner true)
      ≡ decode_rounds platform rounds next
unfolding decode_rounds
round_at platform rounds tlv filling inner next pos e = rw (lt→ltb 0 (length tlv) pos) (rw e refl)

head_pos : (tag : Tag) (code : ℕ) (rest : Buffer) → 0 < length (print_head tag code ++ rest)
unfolding print_head
head_pos tag code rest = omega arith

scalar_pos :
    (platform : Platform) (tag : Tag) (s : Scalar) (rest : Buffer)
    → 0 < length (print platform (scalar tag s) ++ rest)
unfolding print print_head
scalar_pos platform tag s rest = omega arith

regroup :
    (head inside rest : Buffer)
    → (head ++ (inside ++ (0x18 ∷ []))) ++ rest ≡ head ++ (inside ++ (0x18 ∷ rest))
regroup head inside rest = simp append_assoc

mutual
  unfolding rounds_over push_each print json_of

  rounds-print :
      (platform : Platform) (e : Element) (rounds : ℕ) (rest : Buffer) (filling : Values)
      (inner : List Frame)
      → IsElement platform e
      → decode_rounds platform
          (rounds_over e rounds)
          (cursor (print platform e ++ rest) filling inner true)
        ≡ decode_rounds platform rounds (cursor rest (push filling (json_of e)) inner true)
  rounds-print platform (scalar tag s) rounds rest filling inner h =
      round_at platform rounds (print platform (scalar tag s) ++ rest) filling inner _
        (scalar_pos platform tag s rest)
        (decode_element-scalar platform tag s rest filling inner h.0 h.1)
  rounds-print platform (container tag kind es) rounds rest filling inner h =
      let inside = print_each platform es ++ (0x18 ∷ rest) in
      let head = print_head tag (container_code kind) in
      let frame : Frame = record {
        fields = fields_of tag (container_kind kind);
        outer = filling;
      } in
      rw (regroup head (print_each platform es) rest) (
        round_at platform (rounds_over_each es (suc rounds)) (head ++ inside) filling inner _
          (head_pos tag (container_code kind) inside)
          (decode_element-open platform tag kind inside filling inner h.0)
        ∙ rounds-print_each platform es (suc rounds) (0x18 ∷ rest) nil (frame ∷ inner) h.1
        ∙ round_at platform rounds (0x18 ∷ rest) (push_each nil es) (frame ∷ inner) _ (omega arith)
            (decode_element-close platform rest (push_each nil es) frame inner)
        ∙ rw (push_each-nil es) refl)

  rounds-print_each :
      (platform : Platform) (es : Elements) (rounds : ℕ) (rest : Buffer) (filling : Values)
      (inner : List Frame)
      → AreElements platform es
      → decode_rounds platform
          (rounds_over_each es rounds)
          (cursor (print_each platform es ++ rest) filling inner true)
        ≡ decode_rounds platform rounds (cursor rest (push_each filling es) inner true)
  rounds-print_each platform no_more rounds rest filling inner h = refl
  rounds-print_each platform (more e es) rounds rest filling inner h =
      rw (append_assoc (print platform e) (print_each platform es) rest) (
        rounds-print platform e (rounds_over_each es rounds) (print_each platform es ++ rest)
          filling inner h.0
        ∙ rounds-print_each platform es rounds rest (push filling (json_of e)) inner h.1)

append-nil_length : (b : Buffer) → length (b ++ []) ≡ length b
append-nil_length b = rw (append-nil b) refl

-- A round reads a byte at least.
mutual
  unfolding rounds_over print

  rounds_over-le :
      (platform : Platform) (e : Element) (rounds : ℕ)
      → rounds_over e rounds ≤ rounds + length (print platform e)
  rounds_over-le platform (scalar tag s) rounds =
      omega (arith, scalar_pos platform tag s [], append-nil_length (print platform (scalar tag s)))
  rounds_over-le platform (container tag kind es) rounds =
      let head = print_head tag (container_code kind) in
      let inside = print_each platform es in
      omega (
        arith,
        rounds_over_each-le platform es (suc rounds),
        length-append head (inside ++ (0x18 ∷ [])),
        length-append inside (0x18 ∷ []),
        head_pos tag (container_code kind) [],
        append-nil_length head,
      )

  rounds_over_each-le :
      (platform : Platform) (es : Elements) (rounds : ℕ)
      → rounds_over_each es rounds ≤ rounds + length (print_each platform es)
  rounds_over_each-le platform no_more rounds = omega arith
  rounds_over_each-le platform (more e es) rounds = omega (
    arith,
    rounds_over-le platform e (rounds_over_each es rounds),
    rounds_over_each-le platform es rounds,
    length-append (print platform e) (print_each platform es),
  )

-- A new reader makes of the bytes of elements their JSON.
pub decode-print :
    (platform : Platform) (es : Elements)
    → AreElements platform es
    → decode platform new_reader (print_each platform es)
      ≡ some (ok (record { filling = json_of_each es; frames = [] }))
unfolding decode new_reader
decode-print platform es h =
    let tlv = print_each platform es in
    let read : decode_rounds platform (rounds_over_each es 1) (cursor tlv nil [] true)
        ≡ some (ok (cursor [] (json_of_each es) [] true)) =
      ap (λ t. decode_rounds platform (rounds_over_each es 1) (cursor t nil [] true))
        (sym (append-nil tlv))
      ∙ rounds-print_each platform es 1 [] nil [] h
      ∙ unfold decode_rounds in ap (λ vs. some (ok (cursor [] vs [] true))) (push_each-nil es) in
    rw
      (decode_rounds_more platform (rounds_over_each es 1) (suc (length tlv))
        (cursor tlv nil [] true) read (omega (arith, rounds_over_each-le platform es 1)))
      refl

-- For a list of elements whose values fit, TlvWriter encodes the array of their JSON objects as the
-- bytes that the TLV format has for them, and a new TlvReader decodes these bytes to the same objects,
-- with no container left open.
pub decode-encode :
    (platform : Platform) (es : Elements)
    → AreElements platform es
    → (encode platform [] (array_of (json_of_each es)) ≡ ok (print_each platform es))
      × (decode platform new_reader (print_each platform es)
          ≡ some (ok (record { filling = json_of_each es; frames = [] })))
unfolding encode
decode-encode platform es h = (encode_each-print platform es [] h, decode-print platform es h)
