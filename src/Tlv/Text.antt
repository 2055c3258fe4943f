-- ===== src/Tlv/Text.antt =====
-- The strings of JavaScript as src/tlv uses them: the length in UTF-16 units, Buffer.from(s, 'utf-8'),
-- toString('utf-8') and Buffer.from(s, 'hex').
use matternode.Prelude.{
  ℕ, ◌+◌, ◌-◌, ◌*◌, ◌/◌, ◌%◌, ◌<◌, true, false, ◌&&◌, List, [], ◌∷◌, ◌++◌, ltb, leb, ◌==◌,
  if◌then◌else◌, Option, none, some, All, all_below, all_below_sound, length, ◌≡◌, refl, ap, ◌∙◌,
  arith,
}
use matternode.Buffer.{Buffer, IsBuffer}

-- s.length
unfoldable pub units : List ℕ → ℕ
units [] = 0
units (c ∷ s) = (if ltb c 0x1_0000 then 1 else 2) + units s

-- The bytes of a code point. Half of a surrogate pair is written as U+FFFD.
utf8_of : ℕ → Buffer
utf8_of c =
    if ltb c 0x80
    then c ∷ []
    else if ltb c 0x800
    then (0xC0 + c / 64) ∷ (0x80 + c % 64) ∷ []
    else if leb 0xD800 c && leb c 0xDFFF
    then 0xEF ∷ 0xBF ∷ 0xBD ∷ []
    else if ltb c 0x1_0000
    then (0xE0 + c / 4096) ∷ (0x80 + c / 64 % 64) ∷ (0x80 + c % 64) ∷ []
    else (0xF0 + c / 262144) ∷ (0x80 + c / 4096 % 64) ∷ (0x80 + c / 64 % 64) ∷ (0x80 + c % 64) ∷ []

unfoldable pub utf8 : List ℕ → Buffer
unfolding utf8_of
utf8 [] = []
utf8 (c ∷ s) = utf8_of c ++ utf8 s

-- A code point that is being read: its bits so far, the bytes to come, and the bounds of the next.
record Pending : Type 0 where
  bits : ℕ
  needed : ℕ
  lower : ℕ
  upper : ℕ

pending : ℕ → ℕ → ℕ → ℕ → Option Pending
pending bits needed lower upper =
    some (record { bits = bits; needed = needed; lower = lower; upper = upper })

-- The first byte of a code point: what is put out, and what is then being read.
lead : ℕ → List ℕ × Option Pending
unfolding pending
lead b =
    if ltb b 0x80
    then (b ∷ [], none)
    else if leb 0xC2 b && leb b 0xDF
    then ([], pending (b - 0xC0) 1 0x80 0xBF)
    else if leb 0xE0 b && leb b 0xEF
    then (
      [],
      pending (b - 0xE0) 2 (if b == 0xE0 then 0xA0 else 0x80) (if b == 0xED then 0x9F else 0xBF),
    )
    else if leb 0xF0 b && leb b 0xF4
    then (
      [],
      pending (b - 0xF0) 3 (if b == 0xF0 then 0x90 else 0x80) (if b == 0xF4 then 0x8F else 0xBF),
    )
    else (0xFFFD ∷ [], none)

-- A byte that cannot continue a code point ends it as U+FFFD and is read as a first byte.
next_byte : Option Pending → ℕ → List ℕ × Option Pending
unfolding lead
next_byte none b = lead b
next_byte (some p) b =
    let bits' = p.bits * 64 + (b - 0x80) in
    if leb p.lower b && leb b p.upper
    then (if p.needed == 1
        then (bits' ∷ [], none)
        else ([], pending bits' (p.needed - 1) 0x80 0xBF))
    else (0xFFFD ∷ (lead b).0, (lead b).1)

decode_from : Option Pending → Buffer → List ℕ
unfolding next_byte
decode_from none [] = []
decode_from (some p) [] = 0xFFFD ∷ []
decode_from state (b ∷ buf) = let (out, state') = next_byte state b in out ++ decode_from state' buf

unfoldable pub utf8_decode : Buffer → List ℕ
unfolding decode_from
utf8_decode buf = decode_from none buf

hex_digit : ℕ → Option ℕ
hex_digit c =
    if leb b'0' c && leb c b'9'
    then some (c - b'0')
    else if leb b'a' c && leb c b'f'
    then some (c - b'a' + 10)
    else if leb b'A' c && leb c b'F'
    then some (c - b'A' + 10)
    else none

hex_pair : Option ℕ → Option ℕ → Option ℕ
hex_pair (some h) (some l) = some (16 * h + l)
hex_pair _ _ = none

before : Option ℕ → Buffer → Buffer
before none later = []
before (some b) later = b ∷ later

-- The pairs of digits up to the first that is none.
unfoldable pub from_hex : List ℕ → Buffer
unfolding hex_digit hex_pair before
from_hex [] = []
from_hex (h ∷ []) = []
from_hex (h ∷ l ∷ s) = before (hex_pair (hex_digit h) (hex_digit l)) (from_hex s)

hex_character : ℕ → ℕ
hex_character d = if ltb d 10 then b'0' + d else b'a' + (d - 10)

-- buf.toString("hex")
unfoldable pub to_hex : Buffer → List ℕ
unfolding hex_character
to_hex [] = []
to_hex (b ∷ buf) = hex_character (b / 16) ∷ hex_character (b % 16) ∷ to_hex buf

abbrev pub IsAscii : List ℕ → Type 0
IsAscii = All (λ c. c < 0x80)

utf8_of-ascii : (c : ℕ) → c < 0x80 → utf8_of c ≡ c ∷ []
unfolding utf8_of
utf8_of-ascii c h = ground arith

-- Text of 7-bit characters is its bytes, and has as many units.
pub utf8-IsAscii : (s : List ℕ) → IsAscii s → utf8 s ≡ s
unfolding utf8
utf8-IsAscii [] h = refl
utf8-IsAscii (c ∷ s) h = ground (arith, utf8_of-ascii c h.0, utf8-IsAscii s h.1)

pub units-IsAscii : (s : List ℕ) → IsAscii s → units s ≡ length s
unfolding units
units-IsAscii [] h = refl
units-IsAscii (c ∷ s) h = ground (arith, units-IsAscii s h.1)

next_byte-ascii : (b : ℕ) → b < 0x80 → next_byte none b ≡ (b ∷ [], none)
unfolding next_byte lead
next_byte-ascii b h = ground arith

decode_from-ascii : (s : List ℕ) → IsAscii s → decode_from none s ≡ s
unfolding decode_from
decode_from-ascii [] h = refl
decode_from-ascii (b ∷ s) h = rw (next_byte-ascii b h.0) (ap (◌∷◌ b) (decode_from-ascii s h.1))

pub utf8_decode-IsAscii : (s : List ℕ) → IsAscii s → utf8_decode s ≡ s
unfolding utf8_decode
utf8_decode-IsAscii s h = decode_from-ascii s h

hex_table :
    all_below 16 (λ d. elim (hex_digit (hex_character d)) [ none ↦ false | some v ↦ v == d ]) ≡ true
unfolding all_below hex_digit hex_character
hex_table = refl

hex_digit-hex_character : (d : ℕ) → d < 16 → hex_digit (hex_character d) ≡ some d
hex_digit-hex_character d h = ground (
  arith,
  all_below_sound 16
      (λ (d : ℕ). elim (hex_digit (hex_character d)) [ none ↦ false | some v ↦ v == d ]) d
      hex_table,
)

hex_pair-byte :
    (b : ℕ)
    → b < 256
    → hex_pair (hex_digit (hex_character (b / 16))) (hex_digit (hex_character (b % 16))) ≡ some b
unfolding hex_pair
hex_pair-byte b h = rw (hex_digit-hex_character (b / 16) (omega arith)) (
    rw (hex_digit-hex_character (b % 16) (omega arith))
      (ap some {x = 16 * (b / 16) + b % 16} {y = b} (omega arith)))

before-some : (b : ℕ) (buf : Buffer) → before (some b) buf ≡ b ∷ buf
unfolding before
before-some b buf = refl

-- A buffer's digits are read back as the buffer.
pub from_hex-to_hex : (b : Buffer) → IsBuffer b → from_hex (to_hex b) ≡ b
from_hex-to_hex [] h = unfold from_hex to_hex in refl
from_hex-to_hex (b ∷ buf) h =
    step
    ∙ rw (hex_pair-byte b h.0) (ap (before (some b)) (from_hex-to_hex buf h.1) ∙ before-some b buf)
  where
    step :
        from_hex (to_hex (b ∷ buf))
        ≡ before
            (hex_pair (hex_digit (hex_character (b / 16))) (hex_digit (hex_character (b % 16))))
            (from_hex (to_hex buf))
    step = unfold from_hex to_hex in refl
