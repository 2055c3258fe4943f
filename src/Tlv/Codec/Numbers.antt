-- ===== src/Tlv/Codec/Numbers.antt =====
-- Numbers written into new buffers: an encoder takes the least of the widths 1, 2, 4 and 8.
use native.Mathlib.Nat.{pow-suc}
use matternode.Prelude.{
  ℕ, suc, ◌-◌, ◌^◌, ◌≤◌, ◌<◌, ◌≡◌, refl, ap, ◌∙◌, Bool, true, [], ◌++◌, append-nil, ltb,
  if◌then◌else◌, arith, ℤ, pos, negsuc, to_word, FitsSigned, ok,
}
use matternode.Buffer.{le_bytes, alloc, write_le}
use matternode.Buffer.Laws.{write_le-blank}
use matternode.Tlv.Codec.{write_int, write_uint, encode_signed_int, encode_unsigned_int}

-- The bytes that an integer takes.
unfoldable pub width : ℕ → ℕ
width n =
    if ltb n 0x100 then 1 else if ltb n 0x1_0000 then 2 else if ltb n 0x1_0000_0000 then 4 else 8

-- The bytes that a signed integer takes: half of each range is negative.
abbrev within : ℤ → ℕ → Bool
within (pos n) half = ltb n half
within (negsuc n) half = ltb n half

unfoldable pub signed_width : ℤ → ℕ
signed_width z =
    if within z 0x80
    then 1
    else if within z 0x8000
    then 2
    else if within z 0x8000_0000
    then 4
    else 8

pub write_le-new : (k v : ℕ) → v < 256 ^ k → write_le k (alloc k) v 0 ≡ ok (le_bytes k v)
write_le-new k v small = write_le-blank k v 0 k [] small refl (omega arith) ∙ ap ok none_left
  where
    none_left : ([] ++ le_bytes k v) ++ alloc (k - k) ≡ le_bytes k v
    none_left =
        ap (λ t. le_bytes k v ++ alloc t) {x = k - k} {y = 0} (omega arith)
        ∙ unfold alloc in append-nil (le_bytes k v)

write_uint-new : (k n : ℕ) → n < 256 ^ k → write_uint k (alloc k) (pos n) 0 ≡ ok (le_bytes k n)
unfolding write_uint
write_uint-new k n h = write_le-new k n h

write_int-new :
    (j : ℕ) (z : ℤ)
    → FitsSigned (suc j) z
    → write_int (suc j) z ≡ ok (le_bytes (suc j) (to_word (suc j) z))
unfolding write_int
write_int-new j (pos n) fits = ground (arith, pow-suc 256 j, write_le-new (suc j) n)
write_int-new j (negsuc n) fits =
    ground (arith, pow-suc 256 j, write_le-new (suc j) (256 ^ suc j - suc n))

pub encode_unsigned_int-width :
    (big : Bool) (n : ℕ)
    → (big ≡ true → 256 ^ 4 ≤ n)
    → n < 256 ^ 8
    → encode_unsigned_int big (pos n) ≡ ok (le_bytes (width n) n)
unfolding encode_unsigned_int width
encode_unsigned_int-width big n wide small =
    ground (arith, write_le-new 1 n, write_le-new 2 n, write_le-new 4 n, write_le-new 8 n, wide)

pub encode_signed_int-width :
    (z : ℤ)
    → FitsSigned 8 z
    → encode_signed_int z ≡ ok (le_bytes (signed_width z) (to_word (signed_width z) z))
unfolding encode_signed_int signed_width
encode_signed_int-width (pos n) fits = ground (
  arith,
  write_int-new 0 (pos n),
  write_int-new 1 (pos n),
  write_int-new 3 (pos n),
  write_int-new 7 (pos n),
)
encode_signed_int-width (negsuc n) fits = ground (
  arith,
  write_int-new 0 (negsuc n),
  write_int-new 1 (negsuc n),
  write_int-new 3 (negsuc n),
  write_int-new 7 (negsuc n),
)
