-- ===== src/MsgCodec/Secrecy.antt =====
-- Encryption and decryption of src/message/MsgCodec.js over any AES-CCM.
use matternode.Prelude.{
  ok-injective, sym, >>=-eq-ok, ℕ, zero, suc, ◌+◌, ◌≤◌, ◌≡◌, refl, ap, true, inl, inr, some, List,
  [], ◌∷◌, ◌++◌, append_assoc, arith, length, take, drop, length-append, length-take,
  take-append-drop, Bool-cases, ok,
}
use matternode.Buffer.{Buffer, subarray, index_from_end}
use matternode.Buffer.Laws.{take_prefix, drop_prefix}
use matternode.Cipher.{AesCcm}
use matternode.MsgCodec.{has_flag, first_byte, header_size, get_nonce, encrypt, decrypt}

module _ {ℓ} {A : Type ℓ} where
  -- What stands before the cut of a prefix is not touched.
  take-take-append :
      (n m : ℕ) (xs ys : List A) → n ≤ m → m ≤ length xs → take n (take m xs ++ ys) ≡ take n xs
  take-take-append zero m xs ys h k = refl
  take-take-append (suc n) zero xs ys h k = absurd (omega arith)
  take-take-append (suc n) (suc m) [] ys h k = absurd (omega arith)
  take-take-append (suc n) (suc m) (x ∷ xs) ys h k =
      ap (◌∷◌ x) (take-take-append n m xs ys (omega arith) (omega arith))

-- A packet whose header is that of `msg`.
abbrev pub with_header : Buffer → Buffer → Buffer
with_header msg rest = take (header_size msg) msg ++ rest

header_size_min : (msg : Buffer) → 8 ≤ header_size msg
unfolding header_size
header_size_min msg = ground arith

header_size_source : (msg : Buffer) → has_flag (first_byte msg) 0x04 ≡ true → 16 ≤ header_size msg
unfolding header_size
header_size_source msg h = rw h (ground arith)

module _ (msg rest : Buffer) (long : header_size msg ≤ length msg) where
  first_byte-with_header : first_byte (with_header msg rest) ≡ first_byte msg
  first_byte-with_header = first (header_size msg) msg (header_size_min msg) long
    where
      first :
          (n : ℕ) (m : Buffer) → 8 ≤ n → n ≤ length m → first_byte (take n m ++ rest) ≡ first_byte m
      first zero m h k = absurd (omega arith)
      first (suc n) [] h k = absurd (omega arith)
      first (suc n) (b ∷ m) h k = unfold first_byte in refl

  header_size-with_header : header_size (with_header msg rest) ≡ header_size msg
  unfolding header_size
  header_size-with_header = rw first_byte-with_header

  get_nonce-with_header : get_nonce (with_header msg rest) 0 ≡ get_nonce msg 0
  unfolding get_nonce subarray
  get_nonce-with_header = elim (Bool-cases (has_flag (first_byte msg) 0x04)) [
    | inl source ↦ rw (
      first_byte-with_header,
      take-take-append 8 (header_size msg) msg rest (header_size_min msg) long,
      source,
      take-take-append 16 (header_size msg) msg rest (header_size_source msg source) long,
    )
    | inr none_given ↦ rw (
      first_byte-with_header,
      take-take-append 8 (header_size msg) msg rest (header_size_min msg) long,
      none_given,
    )
  ]

module _ (xs ys zs : Buffer) where
  index_from_end-append :
      length zs ≡ 16 → index_from_end (xs ++ (ys ++ zs)) 16 ≡ length xs + length ys
  unfolding index_from_end
  index_from_end-append h = ground (arith, length-append xs (ys ++ zs), length-append ys zs)

  subarray-middle : subarray (xs ++ (ys ++ zs)) (length xs) (length xs + length ys) ≡ ys
  unfolding subarray
  subarray-middle = rw (← append_assoc xs ys zs) (
      rw (take_prefix (length xs + length ys) (xs ++ ys) zs (length-append xs ys))
        (drop_prefix (length xs) xs ys refl))

  drop-tail : drop (length xs + length ys) (xs ++ (ys ++ zs)) ≡ zs
  drop-tail =
      rw (← append_assoc xs ys zs)
        (drop_prefix (length xs + length ys) (xs ++ ys) zs (length-append xs ys))

-- A message that holds its whole header.
module _ (aes : AesCcm) (msg key : Buffer) (long : header_size msg ≤ length msg) where
  length-aad : length (take (header_size msg) msg) ≡ header_size msg
  length-aad = omega (arith, length-take (header_size msg) msg)

  decrypt-sealed :
      (nonce sealed tag : Buffer)
      → get_nonce msg 0 ≡ ok nonce
      → aes.seal key nonce (take (header_size msg) msg) (drop (header_size msg) msg)
        ≡ ok (sealed, tag)
      → decrypt aes (with_header msg (sealed ++ tag)) key ≡ ok (some msg)
  unfolding decrypt
  decrypt-sealed nonce sealed tag hn hs =
      rw (get_nonce-with_header msg (sealed ++ tag) long, hn, same_size)
        (rw (cut_end, prefix, middle, end, aes.unseal-seal _ _ _ _ _ _ hs)
          (rw (same_size, prefix) (ap (λ t. ok (some t)) (take-append-drop (header_size msg) msg))))
    where
      aad : Buffer
      aad = take (header_size msg) msg

      same_size : header_size (with_header msg (sealed ++ tag)) ≡ header_size msg
      same_size = header_size-with_header msg (sealed ++ tag) long

      prefix : take (header_size msg) (with_header msg (sealed ++ tag)) ≡ aad
      prefix = take_prefix (header_size msg) aad (sealed ++ tag) length-aad

      cut_end :
          index_from_end (with_header msg (sealed ++ tag)) 16 ≡ header_size msg + length sealed
      cut_end = omega (
        arith,
        index_from_end-append aad sealed tag (aes.seal-sizes _ _ _ _ _ _ hs).1,
        length-aad,
      )

      middle :
          subarray
            (with_header msg (sealed ++ tag))
            (header_size msg)
            (header_size msg + length sealed)
          ≡ sealed
      middle = rw length-aad at (subarray-middle aad sealed tag)

      end : drop (header_size msg + length sealed) (with_header msg (sealed ++ tag)) ≡ tag
      end = rw length-aad at (drop-tail aad sealed tag)

  -- What `encrypt` made of a message that holds its whole header, `decrypt` turns back into that
  -- message, under the same key.
  pub decrypt-encrypt :
      (out : Buffer) → encrypt aes msg key ≡ ok out → decrypt aes out key ≡ ok (some msg)
  unfolding encrypt
  decrypt-encrypt out h =
      let (nonce, hn, h₁) = >>=-eq-ok (get_nonce msg 0) _ h in
      let (r, hs, h₂) = >>=-eq-ok (aes.seal key nonce _ _) _ h₁ in
      rw (← ok-injective h₂) (decrypt-sealed nonce r.0 r.1 hn hs)

  -- The header stays in the clear.
  pub encrypt-with_header :
      (out : Buffer) → encrypt aes msg key ≡ ok out → (rest : Buffer) × (out ≡ with_header msg rest)
  unfolding encrypt
  encrypt-with_header out h =
      let (nonce, hn, h₁) = >>=-eq-ok (get_nonce msg 0) _ h in
      let (r, hs, h₂) = >>=-eq-ok (aes.seal key nonce _ _) _ h₁ in
      (r.0 ++ r.1, sym (ok-injective h₂))
