-- ===== src/MsgCodec/Layout.antt =====
-- The bytes of the two headers of src/message/MsgCodec.js.
use matternode.Prelude.{
  ℕ, ◌+◌, ◌-◌, ◌^◌, ◌≤◌, ◌<◌, ◌≡◌, refl, ap, ◌∙◌, Bool, true, false, Option, none, some, [], ◌++◌,
  append_assoc, append-nil, arith, length, ◌>>=◌, length-append, ok,
}
use matternode.Buffer.{Buffer, le_bytes, alloc, subarray}
use matternode.Buffer.Laws.{length-le_bytes, write_le-blank, take_prefix}
use matternode.MsgCodec.{has_flag, write_optional, encode_header, encode_protocol_header}

-- What a field contributes that is present or not.
abbrev pub optional_bytes : ℕ → Option ℕ → Buffer
optional_bytes k none = []
optional_bytes k (some v) = le_bytes k v

-- The value that is written, given the flag that announces it.
abbrev pub carried : Bool → Option ℕ → Option ℕ
carried true o = o
carried false o = none

abbrev pub Fits : ℕ → Option ℕ → Type 0
Fits k none = Unit {0}
Fits k (some v) = v < 256 ^ k

pub length-optional_bytes : (k : ℕ) (o : Option ℕ) → length (optional_bytes k o) ≤ k
length-optional_bytes k none = omega arith
length-optional_bytes k (some v) = omega (arith, length-le_bytes k v)

sub-zero : (m : ℕ) → m - 0 ≡ m
sub-zero m = omega arith

add_nothing : (n : ℕ) → n + 0 ≡ n
add_nothing n = omega arith

write_optional-blank :
    (k : ℕ) (b : Bool) (o : Option ℕ) (xs : Buffer) (n m : ℕ)
    → Fits k o
    → length xs ≡ n
    → k ≤ m
    → write_optional k b o (xs ++ alloc m) n
      ≡ ok (
        (xs ++ optional_bytes k (carried b o))
            ++ alloc (m - length (optional_bytes k (carried b o))),
        n + length (optional_bytes k (carried b o)),
      )
unfolding write_optional
write_optional-blank k true (some v) xs n m fit at room =
    rw (write_le-blank k v n m xs fit at room) (rw (length-le_bytes k v) refl)
write_optional-blank k true none xs n m fit at room = rw (append-nil xs, sub-zero m, add_nothing n)
write_optional-blank k false o xs n m fit at room = rw (append-nil xs, sub-zero m, add_nothing n)

unfoldable pub header_bytes : ℕ → ℕ → ℕ → ℕ → Option ℕ → Option ℕ → Buffer
header_bytes msg_flags sec_flags session_id msg_counter src dst =
    le_bytes 1 msg_flags
    ++ (le_bytes 2 session_id
        ++ (le_bytes 1 sec_flags
            ++ (le_bytes 4 msg_counter ++ (optional_bytes 8 src ++ optional_bytes 8 dst))))

subarray_prefix : (xs ys : Buffer) (n : ℕ) → length xs ≡ n → subarray (xs ++ ys) 0 n ≡ xs
unfolding subarray
subarray_prefix xs ys n h = take_prefix n xs ys h

-- The two optional fields at the end of a header, and the cut to what was written.
optional_tail :
    (k₁ k₂ : ℕ) (b₁ b₂ : Bool) (o₁ o₂ : Option ℕ) (xs : Buffer) (n m : ℕ)
    → Fits k₁ o₁
    → Fits k₂ o₂
    → length xs ≡ n
    → k₁ + k₂ ≤ m
    → (write_optional k₁ b₁ o₁ (xs ++ alloc m) n >>= λ r.
        write_optional k₂ b₂ o₂ r.0 r.1 >>= λ t. ok (subarray t.0 0 t.1))
      ≡ ok (xs ++ (optional_bytes k₁ (carried b₁ o₁) ++ optional_bytes k₂ (carried b₂ o₂)))
optional_tail k₁ k₂ b₁ b₂ o₁ o₂ xs n m f₁ f₂ at room =
    rw (write_optional-blank k₁ b₁ o₁ xs n m f₁ at (omega arith)) (
      rw
        (write_optional-blank k₂ b₂ o₂ (xs ++ first) (n + length first) (m - length first) f₂
          (omega (arith, length-append xs first))
          (omega (arith, length-optional_bytes k₁ (carried b₁ o₁))))
        (ap ok (
          subarray_prefix ((xs ++ first) ++ second) (alloc (m - length first - length second))
            (n + length first + length second)
            (omega (arith, length-append (xs ++ first) second, length-append xs first))
          ∙ append_assoc xs first second)))
  where
    first : Buffer
    first = optional_bytes k₁ (carried b₁ o₁)

    second : Buffer
    second = optional_bytes k₂ (carried b₂ o₂)

pub encode_header_lem :
    (msg_flags sec_flags session_id msg_counter : ℕ) (src dst : Option ℕ)
    → msg_flags < 256
    → sec_flags < 256
    → session_id < 65536
    → msg_counter < 4294967296
    → Fits 8 src
    → Fits 8 dst
    → encode_header msg_flags sec_flags session_id msg_counter src dst
      ≡ ok (
          header_bytes msg_flags sec_flags session_id msg_counter
            (carried (has_flag msg_flags 0x04) src)
            (carried (has_flag msg_flags 0x01) dst))
unfolding encode_header header_bytes
encode_header_lem f c s n src dst hf hc hs hn fs fd =
    rw (write_le-blank 1 f 0 1280 [] hf refl (omega arith)) (
      rw (write_le-blank 2 s 1 1279 (le_bytes 1 f) hs refl (omega arith)) (
        rw (write_le-blank 1 c 3 1277 (le_bytes 1 f ++ le_bytes 2 s) hc refl (omega arith)) (
          rw
            (write_le-blank 4 n 4 1276 (le_bytes 1 f ++ (le_bytes 2 s ++ le_bytes 1 c)) hn refl
              (omega arith))
            (optional_tail 8 8 (has_flag f 0x04) (has_flag f 0x01) src dst
              (le_bytes 1 f ++ (le_bytes 2 s ++ (le_bytes 1 c ++ le_bytes 4 n))) 8 1272 fs fd refl
              (omega arith)))))

unfoldable pub protocol_bytes : ℕ → ℕ → ℕ → ℕ → Option ℕ → Option ℕ → Buffer
protocol_bytes exchange_flags exchange_id opcode protocol_id vendor_id ack =
    le_bytes 1 exchange_flags
    ++ (le_bytes 1 opcode
        ++ (le_bytes 2 exchange_id
            ++ (le_bytes 2 protocol_id ++ (optional_bytes 2 vendor_id ++ optional_bytes 4 ack))))

pub encode_protocol_header_lem :
    (exchange_flags exchange_id opcode protocol_id : ℕ) (vendor_id ack : Option ℕ)
    → exchange_flags < 256
    → exchange_id < 65536
    → opcode < 256
    → protocol_id < 65536
    → Fits 2 vendor_id
    → Fits 4 ack
    → encode_protocol_header exchange_flags exchange_id opcode protocol_id vendor_id ack
      ≡ ok (protocol_bytes exchange_flags exchange_id opcode protocol_id vendor_id ack)
unfolding encode_protocol_header protocol_bytes
encode_protocol_header_lem f e o p vendor ack hf he ho hp fv fa =
    rw (write_le-blank 1 f 0 1280 [] hf refl (omega arith)) (
      rw (write_le-blank 1 o 1 1279 (le_bytes 1 f) ho refl (omega arith)) (
        rw (write_le-blank 2 e 2 1278 (le_bytes 1 f ++ le_bytes 1 o) he refl (omega arith)) (
          rw
            (write_le-blank 2 p 4 1276 (le_bytes 1 f ++ (le_bytes 1 o ++ le_bytes 2 e)) hp refl
              (omega arith))
            (optional_tail 2 4 true true vendor ack
              (le_bytes 1 f ++ (le_bytes 1 o ++ (le_bytes 2 e ++ le_bytes 2 p))) 6 1274 fv fa refl
              (omega arith)))))
