-- ===== src/Buffer/Laws.antt =====
-- Laws of buffer access: what was written is read back, and the rest stays.
use native.Mathlib.Nat.{pow-suc}
use matternode.Prelude.{
  ℕ, zero, suc, ◌+◌, ◌-◌, ◌/◌, ◌^◌, ◌≤◌, ◌<◌, ◌≡◌, refl, sym, ap, ◌∙◌, [], ◌∷◌, ◌++◌, append_assoc,
  arith, lt→ltb, le→leb, length, take, drop, length-append, ok,
}
use matternode.Buffer.{Buffer, IsBuffer, le_bytes, le_value, alloc, read_le, write_le}

pub length-le_bytes : (k v : ℕ) → length (le_bytes k v) ≡ k
length-le_bytes zero v = refl
length-le_bytes (suc k) v = ap suc (length-le_bytes k (v / 256))

pub le_bytes-IsBuffer : (k v : ℕ) → IsBuffer (le_bytes k v)
le_bytes-IsBuffer zero v = tt
le_bytes-IsBuffer (suc k) v = (omega arith, le_bytes-IsBuffer k (v / 256))

div_small : (k v : ℕ) → v < 256 ^ suc k → v / 256 < 256 ^ k
div_small k v h = omega (arith, pow-suc 256 k)

-- Decoding the bytes of a value that fits gives the value.
pub le_value-le_bytes : (k v : ℕ) → v < 256 ^ k → le_value (le_bytes k v) ≡ v
le_value-le_bytes zero v h = omega arith
le_value-le_bytes (suc k) v h = omega (arith, le_value-le_bytes k (v / 256) (div_small k v h))

-- A value that is read fits the width that was read.
pub le_value-lt : (bs : Buffer) → IsBuffer bs → le_value bs < 256 ^ length bs
le_value-lt [] b = omega arith
le_value-lt (x ∷ xs) b = omega (arith, le_value-lt xs b.1, pow-suc 256 (length xs))

pub take_prefix : (k : ℕ) (xs ys : Buffer) → length xs ≡ k → take k (xs ++ ys) ≡ xs
take_prefix zero [] ys h = refl
take_prefix zero (x ∷ xs) ys h = absurd (omega arith)
take_prefix (suc k) [] ys h = absurd (omega arith)
take_prefix (suc k) (x ∷ xs) ys h = ap (◌∷◌ x) (take_prefix k xs ys (omega arith))

pub drop_prefix : (k : ℕ) (xs ys : Buffer) → length xs ≡ k → drop k (xs ++ ys) ≡ ys
drop_prefix zero [] ys h = refl
drop_prefix zero (x ∷ xs) ys h = absurd (omega arith)
drop_prefix (suc k) [] ys h = absurd (omega arith)
drop_prefix (suc k) (x ∷ xs) ys h = drop_prefix k xs ys (omega arith)

-- Reading where the bytes of a value stand gives the value.
pub read_le-bytes :
    (k v n : ℕ) (xs ys : Buffer)
    → v < 256 ^ k
    → length xs ≡ n
    → read_le k (xs ++ (le_bytes k v ++ ys)) n ≡ ok v
unfolding read_le
read_le-bytes k v n xs ys small at =
    rw (le→leb (n + k) (length (xs ++ (le_bytes k v ++ ys))) fits) (
      rw (drop_prefix n xs (le_bytes k v ++ ys) at) (
        rw (take_prefix k (le_bytes k v) ys (length-le_bytes k v))
          (ap ok (le_value-le_bytes k v small))))
  where
    fits : n + k ≤ length (xs ++ (le_bytes k v ++ ys))
    fits = omega (
      arith,
      length-append xs (le_bytes k v ++ ys),
      length-append (le_bytes k v) ys,
      length-le_bytes k v,
    )

-- Writing over `k` old bytes replaces them and nothing else.
pub write_le-over :
    (k v n : ℕ) (xs old ys : Buffer)
    → v < 256 ^ k
    → length xs ≡ n
    → length old ≡ k
    → write_le k (xs ++ (old ++ ys)) v n ≡ ok (xs ++ (le_bytes k v ++ ys))
unfolding write_le
write_le-over k v n xs old ys small at size = rw (lt→ltb v (256 ^ k) small) (
    rw (le→leb (n + k) (length (xs ++ (old ++ ys))) fits)
      (rw (take_prefix n xs (old ++ ys) at) (ap (λ t. ok (xs ++ (le_bytes k v ++ t))) behind)))
  where
    fits : n + k ≤ length (xs ++ (old ++ ys))
    fits = omega (arith, length-append xs (old ++ ys), length-append old ys)

    behind : drop (n + k) (xs ++ (old ++ ys)) ≡ ys
    behind =
        ap (drop (n + k)) (sym (append_assoc xs old ys))
        ∙ drop_prefix (n + k) (xs ++ old) ys (omega (arith, length-append xs old))

pub length-alloc : (n : ℕ) → length (alloc n) ≡ n
unfolding alloc
length-alloc zero = refl
length-alloc (suc n) = ap suc (length-alloc n)

-- Zeroed bytes split anywhere.
pub alloc-add : (k m : ℕ) → alloc (k + m) ≡ alloc k ++ alloc m
unfolding alloc
alloc-add zero m = ap alloc {x = zero + m} {y = m} (omega arith)
alloc-add (suc k) m =
    ap alloc {x = suc k + m} {y = suc (k + m)} (omega arith) ∙ ap (◌∷◌ 0) (alloc-add k m)

-- A write at the end of what is done, into the zeroed rest.
pub write_le-blank :
    (k v n m : ℕ) (xs : Buffer)
    → v < 256 ^ k
    → length xs ≡ n
    → k ≤ m
    → write_le k (xs ++ alloc m) v n ≡ ok ((xs ++ le_bytes k v) ++ alloc (m - k))
write_le-blank k v n m xs small at room =
    ap (λ t. write_le k (xs ++ t) v n) split
    ∙ write_le-over k v n xs (alloc k) (alloc (m - k)) small at (length-alloc k)
    ∙ ap ok (sym (append_assoc xs (le_bytes k v) (alloc (m - k))))
  where
    split : alloc m ≡ alloc k ++ alloc (m - k)
    split = ap alloc {x = m} {y = k + (m - k)} (omega arith) ∙ alloc-add k (m - k)

pub IsBuffer-append : (xs ys : Buffer) → IsBuffer xs → IsBuffer ys → IsBuffer (xs ++ ys)
IsBuffer-append [] ys hx hy = hy
IsBuffer-append (x ∷ xs) ys hx hy = (hx.0, IsBuffer-append xs ys hx.1 hy)
