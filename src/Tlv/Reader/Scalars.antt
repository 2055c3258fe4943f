-- ===== src/Tlv/Reader/Scalars.antt =====
-- The value of a scalar, as TlvCodec.decodeValueAndLength reads it from the format's bytes.
use matternode.Prelude.{
  ℕ, zero, suc, ◌+◌, ◌-◌, ◌^◌, ◌<◌, ◌≡◌, refl, sym, ap, subst, ◌∙◌, inl, inr, true, false, List, [],
  ◌∷◌, ◌++◌, append_assoc, ◌==◌, if◌then◌else◌, arith, length, take, drop, length-append,
  take-append, ℤ, pos, negsuc, to_word, FitsSigned, ok,
}
use matternode.Buffer.{Buffer, le_bytes, subarray}
use matternode.Buffer.Laws.{length-le_bytes, read_le-bytes}
use matternode.Tlv.{integer, fraction, number, bigint, text, bytes, Platform}
use matternode.Tlv.Codec.Decode.{decode_value_and_length}
use matternode.Tlv.Codec.Numbers.{width, signed_width}
use matternode.Tlv.Element.{
  Scalar, IsScalar, print_scalar, type_code, width_code, value_of, unsigned, signed, single, string,
  octets,
}
use matternode.Tlv.Text.{utf8_decode, utf8_decode-IsAscii}
use matternode.Tlv.Writer.Pieces.{IsWidth, width-IsWidth, signed_width-IsWidth}

width-lt : (n : ℕ) → n < 256 ^ 8 → n < 256 ^ width n
unfolding width
width-lt n h = ground arith

signed_width-Fits : (z : ℤ) → FitsSigned 8 z → FitsSigned (signed_width z) z
unfolding signed_width
signed_width-Fits (pos n) h = ground arith
signed_width-Fits (negsuc n) h = ground arith

-- To prove a claim at a width, prove it at each of the four.
pub at_width {ℓ} : (P : ℕ → Type ℓ) (k : ℕ) → IsWidth k → P 1 → P 2 → P 4 → P 8 → P k
at_width P k (inl e) p1 p2 p4 p8 = subst P (sym e) p1
at_width P k (inr (inl e)) p1 p2 p4 p8 = subst P (sym e) p2
at_width P k (inr (inr (inl e))) p1 p2 p4 p8 = subst P (sym e) p4
at_width P k (inr (inr (inr e))) p1 p2 p4 p8 = subst P (sym e) p8

module _ (platform : Platform) where
  abbrev ReadsUnsigned : ℕ → Buffer → ℕ → Type 0
  ReadsUnsigned n rest k =
      n < 256 ^ k
      → decode_value_and_length platform (le_bytes k n ++ rest) (0x04 + width_code k)
        ≡ ok (if k == 8 then bigint (pos n) else number (integer (pos n)), k)

  read_unsigned : (n : ℕ) (rest : Buffer) (k : ℕ) → IsWidth k → ReadsUnsigned n rest k
  unfolding decode_value_and_length width_code
  read_unsigned n rest k w =
      at_width (ReadsUnsigned n rest) k w (λ h. rw (read_le-bytes 1 n 0 [] rest h refl) refl)
        (λ h. rw (read_le-bytes 2 n 0 [] rest h refl) refl)
        (λ h. rw (read_le-bytes 4 n 0 [] rest h refl) refl)
        (λ h. rw (read_le-bytes 8 n 0 [] rest h refl) refl)

  abbrev ReadsSigned : ℤ → Buffer → ℕ → Type 0
  ReadsSigned z rest k =
      FitsSigned k z
      → decode_value_and_length platform (le_bytes k (to_word k z) ++ rest) (width_code k)
        ≡ ok (if k == 8 then bigint z else number (integer z), k)

  read_signed : (z : ℤ) (rest : Buffer) (k : ℕ) → IsWidth k → ReadsSigned z rest k
  unfolding decode_value_and_length width_code
  read_signed (pos n) rest k w =
      at_width (ReadsSigned (pos n) rest) k w (λ h. ground (arith, read_le-bytes 1 n 0 [] rest))
        (λ h. ground (arith, read_le-bytes 2 n 0 [] rest))
        (λ h. ground (arith, read_le-bytes 4 n 0 [] rest))
        (λ h. ground (arith, read_le-bytes 8 n 0 [] rest))
  read_signed (negsuc n) rest k w =
      at_width (ReadsSigned (negsuc n) rest) k w
        (λ h. ground (arith, read_le-bytes 1 (256 ^ 1 - suc n) 0 [] rest))
        (λ h. ground (arith, read_le-bytes 2 (256 ^ 2 - suc n) 0 [] rest))
        (λ h. ground (arith, read_le-bytes 4 (256 ^ 4 - suc n) 0 [] rest))
        (λ h. ground (arith, read_le-bytes 8 (256 ^ 8 - suc n) 0 [] rest))

  abbrev ReadsOctets : Buffer → Buffer → ℕ → Type 0
  ReadsOctets b rest k =
      k < 8
      → length b < 256 ^ k
      → decode_value_and_length platform (le_bytes k (length b) ++ (b ++ rest))
          (0x10 + width_code k)
        ≡ ok
            (bytes (subarray (le_bytes k (length b) ++ (b ++ rest)) k (k + length b)), k + length b)

  read_octets : (b rest : Buffer) (k : ℕ) → IsWidth k → ReadsOctets b rest k
  unfolding decode_value_and_length width_code
  read_octets b rest k w =
      at_width (ReadsOctets b rest) k w
        (λ l h. rw (read_le-bytes 1 (length b) 0 [] (b ++ rest) h refl) refl)
        (λ l h. rw (read_le-bytes 2 (length b) 0 [] (b ++ rest) h refl) refl)
        (λ l h. rw (read_le-bytes 4 (length b) 0 [] (b ++ rest) h refl) refl)
        (λ l h. absurd (omega arith))

  abbrev ReadsText : List ℕ → Buffer → ℕ → Type 0
  ReadsText b rest k =
      k < 8
      → length b < 256 ^ k
      → decode_value_and_length platform (le_bytes k (length b) ++ (b ++ rest))
          (0x0C + width_code k)
        ≡ ok (
          text (utf8_decode (subarray (le_bytes k (length b) ++ (b ++ rest)) k (k + length b))),
          k + length b,
        )

  read_text : (b rest : Buffer) (k : ℕ) → IsWidth k → ReadsText b rest k
  unfolding decode_value_and_length width_code
  read_text b rest k w =
      at_width (ReadsText b rest) k w
        (λ l h. rw (read_le-bytes 1 (length b) 0 [] (b ++ rest) h refl) refl)
        (λ l h. rw (read_le-bytes 2 (length b) 0 [] (b ++ rest) h refl) refl)
        (λ l h. rw (read_le-bytes 4 (length b) 0 [] (b ++ rest) h refl) refl)
        (λ l h. absurd (omega arith))

-- The part behind the length is what was put there.
subarray-behind :
    (head b rest : Buffer) (k : ℕ)
    → length head ≡ k
    → subarray (head ++ (b ++ rest)) k (k + length b) ≡ b
unfolding subarray
subarray-behind [] b rest zero h = ap (λ n. take n (b ++ rest)) (omega arith) ∙ take-append b rest
subarray-behind [] b rest (suc k) h = absurd (omega arith)
subarray-behind (x ∷ head) b rest zero h = absurd (omega arith)
subarray-behind (x ∷ head) b rest (suc k) h =
    ap (λ n. drop (suc k) (take n (x ∷ head ++ (b ++ rest)))) {x = suc k + length b}
      {y = suc (k + length b)} (omega arith)
    ∙ subarray-behind head b rest k (omega arith)

width_short : (n : ℕ) → n < 256 ^ 4 → (width n < 8) × (n < 256 ^ width n)
unfolding width
width_short n h = ground arith

length_behind : (n : ℕ) (b : List ℕ) → length (le_bytes (width n) n ++ b) ≡ width n + length b
length_behind n b =
    omega (arith, length-append (le_bytes (width n) n) b, length-le_bytes (width n) n)

module _ (platform : Platform) where
  -- The value of a scalar is read from its bytes, whatever follows.
  pub decode_value_and_length-print :
      (s : Scalar) (rest : Buffer)
      → IsScalar platform s
      → decode_value_and_length platform (print_scalar platform s ++ rest) (type_code s)
        ≡ ok (value_of s, length (print_scalar platform s))
  unfolding print_scalar type_code value_of
  decode_value_and_length-print (unsigned n) rest h =
      read_unsigned platform n rest (width n) (width-IsWidth n) (width-lt n h)
      ∙ ap (λ l. ok (value_of (unsigned n), l)) (sym (length-le_bytes (width n) n))
  decode_value_and_length-print (signed z) rest h =
      read_signed platform z rest (signed_width z) (signed_width-IsWidth z) (signed_width-Fits z h)
      ∙ ap (λ l. ok (value_of (signed z), l))
          (sym (length-le_bytes (signed_width z) (to_word (signed_width z) z)))
  decode_value_and_length-print (string s) rest h =
      let len = le_bytes (width (length s)) (length s) in
      let (narrow, small) = width_short (length s) h.1 in
      rw (append_assoc len s rest) (
        read_text platform s rest (width (length s)) (width-IsWidth (length s)) narrow small
        ∙ rw
            (subarray-behind len s rest (width (length s))
              (length-le_bytes (width (length s)) (length s)))
            (rw (utf8_decode-IsAscii s h.0)
              (ap (λ l. ok (text s, l)) (sym (length_behind (length s) s)))))
  decode_value_and_length-print (octets b) rest h =
      let len = le_bytes (width (length b)) (length b) in
      let (narrow, small) = width_short (length b) h in
      rw (append_assoc len b rest) (
        read_octets platform b rest (width (length b)) (width-IsWidth (length b)) narrow small
        ∙ rw
            (subarray-behind len b rest (width (length b))
              (length-le_bytes (width (length b)) (length b)))
            (ap (λ l. ok (bytes b, l)) (sym (length_behind (length b) b))))
  decode_value_and_length-print Scalar.null rest h = unfold decode_value_and_length in refl
  decode_value_and_length-print (Scalar.boolean true) rest h =
      unfold decode_value_and_length in refl
  decode_value_and_length-print (Scalar.boolean false) rest h =
      unfold decode_value_and_length in refl
  decode_value_and_length-print (single (integer (pos n))) rest h =
      unfold decode_value_and_length in
      rw
        (read_le-bytes 4 (platform.to_float (integer (pos n))) 0 [] rest
          (platform.to_float-lt (integer (pos n))) refl)
        (rw h refl)
  decode_value_and_length-print (single (integer (negsuc n))) rest h =
      unfold decode_value_and_length in
      rw
        (read_le-bytes 4 (platform.to_float (integer (negsuc n))) 0 [] rest
          (platform.to_float-lt (integer (negsuc n))) refl)
        (rw h refl)
  decode_value_and_length-print (single (fraction bits)) rest h =
      unfold decode_value_and_length in
      rw
        (read_le-bytes 4 (platform.to_float (fraction bits)) 0 [] rest
          (platform.to_float-lt (fraction bits)) refl)
        (rw h refl)
  decode_value_and_length-print (Scalar.double bits) rest h =
      unfold decode_value_and_length in rw (read_le-bytes 8 bits 0 [] rest h.0 refl) (rw (h.1) refl)
