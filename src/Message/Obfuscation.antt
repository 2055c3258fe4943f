-- ===== src/Message/Obfuscation.antt =====
-- The two directions of the header's obfuscation in src/message/Message.js.
use matternode.Prelude.{
  ℕ, zero, suc, ◌+◌, ◌-◌, ◌≤◌, ◌≡◌, refl, ap, sym, subst, ◌∙◌, true, Option, some, [], ◌∷◌, ◌++◌,
  append_assoc, take, drop, length, length-append, length-take, length-drop, drop-add,
  take-append-drop, take_all, le→leb, ◌/◌, ◌%◌, arith, Result, ok, ◌>>=◌, >>=-eq-ok, ok-injective,
}
use matternode.Buffer.{Buffer, subarray, index_from_end}
use matternode.Buffer.Laws.{take_prefix, drop_prefix}
use matternode.Cipher.{AesCcm, privacy_encrypt_bytes}
use matternode.Message.{Message, session_id, mic, p_flag, payload_offset}
use matternode.Message.Privacy.{
  privacy_nonce, fill_with, obfuscate, privacy_encrypt, privacy_decrypt,
}

-- A private message: its sealed bytes, the header's end, and the session id.
pub record IsPrivate (m : Message) (enc : Buffer) (offset id : ℕ) : Type 0 where
  pub sealed : m.encrypted ≡ some enc
  pub private : p_flag m ≡ ok true
  pub header_end : payload_offset m ≡ ok offset
  pub session : session_id m ≡ ok id
  pub behind_flags : 4 ≤ offset
  pub has_mic : offset + 16 ≤ length enc

-- The bytes with another header of the same length.
abbrev swapped : Buffer → ℕ → Buffer → Buffer
swapped enc offset header = take 4 enc ++ (header ++ drop offset enc)

module _ (enc header : Buffer) (offset : ℕ) (h₄ : 4 ≤ offset) (room : offset + 16 ≤ length enc)
    (same : length header ≡ offset - 4) where
  length-head : length (take 4 enc) ≡ 4
  length-head = omega (arith, length-take 4 enc)

  length-swapped : length (swapped enc offset header) ≡ length enc
  length-swapped = omega (
    arith,
    length-append (take 4 enc) (header ++ drop offset enc),
    length-append header (drop offset enc),
    length-drop offset enc,
    length-head,
  )

  take-swapped : take 4 (swapped enc offset header) ≡ take 4 enc
  take-swapped = take_prefix 4 (take 4 enc) _ length-head

  to_offset : length (take 4 enc ++ header) ≡ offset
  to_offset = omega (arith, length-append (take 4 enc) header, length-head)

  drop-swapped : drop offset (swapped enc offset header) ≡ drop offset enc
  drop-swapped =
      ap (drop offset) (sym (append_assoc (take 4 enc) header (drop offset enc)))
      ∙ drop_prefix offset (take 4 enc ++ header) (drop offset enc) to_offset

  middle-swapped : subarray (swapped enc offset header) 4 offset ≡ header
  unfolding subarray
  middle-swapped =
      ap (λ b. drop 4 (take offset b)) (sym (append_assoc (take 4 enc) header (drop offset enc)))
      ∙ ap (drop 4) (take_prefix offset (take 4 enc ++ header) (drop offset enc) to_offset)
      ∙ drop_prefix 4 (take 4 enc) header length-head

  tail-swapped : (k : ℕ) → offset ≤ k → drop k (swapped enc offset header) ≡ drop k enc
  tail-swapped k h =
      ap (λ n. drop n (swapped enc offset header)) {x = k} {y = offset + (k - offset)} (omega arith)
      ∙ drop-add offset (k - offset) (swapped enc offset header)
      ∙ ap (drop (k - offset)) drop-swapped
      ∙ sym (drop-add offset (k - offset) enc)
      ∙ ap (λ n. drop n enc) {x = offset + (k - offset)} {y = k} (omega arith)

take-take : (k n : ℕ) (xs : Buffer) → k ≤ n → take k (take n xs) ≡ take k xs
take-take zero n xs h = refl
take-take (suc k) zero xs h = absurd (omega arith)
take-take (suc k) (suc n) [] h = refl
take-take (suc k) (suc n) (x ∷ xs) h = ap (◌∷◌ x) (take-take k n xs (omega arith))

-- The header of the bytes themselves is between its first 4 bytes and its end.
restored :
    (enc : Buffer) (offset : ℕ) → 4 ≤ offset → swapped enc offset (subarray enc 4 offset) ≡ enc
unfolding subarray
restored enc offset h =
    ap (λ b. b ++ (drop 4 (take offset enc) ++ drop offset enc)) (sym (take-take 4 offset enc h))
    ∙ sym (append_assoc (take 4 (take offset enc)) (drop 4 (take offset enc)) (drop offset enc))
    ∙ ap (λ b. b ++ drop offset enc) (take-append-drop 4 (take offset enc))
    ∙ take-append-drop offset enc

mic_of : Buffer → Buffer
mic_of enc = subarray enc (index_from_end enc 16) (length enc)

-- The nonce of a session id and the sealed bytes.
nonce_of : ℕ → Buffer → Result Buffer
nonce_of id enc =
    fill_with (subarray (mic_of enc) 5 16) 11 >>= λ rest. ok (id / 256 ∷ id % 256 ∷ rest)

mic_of_lem : (enc : Buffer) → 16 ≤ length enc → mic_of enc ≡ drop (length enc - 16) enc
unfolding mic_of subarray index_from_end
mic_of_lem enc h =
    rw (le→leb 16 (length enc) h)
      (ap (drop (length enc - 16)) (take_all enc (length enc) (omega arith)))

mic_of-swapped :
    (enc header : Buffer) (offset : ℕ)
    → 4 ≤ offset
    → offset + 16 ≤ length enc
    → length header ≡ offset - 4
    → mic_of (swapped enc offset header) ≡ mic_of enc
mic_of-swapped enc header offset h₄ room same =
    mic_of_lem (swapped enc offset header)
      (omega (arith, length-swapped enc header offset h₄ room same))
    ∙ ap (λ n. drop (n - 16) (swapped enc offset header))
        (length-swapped enc header offset h₄ room same)
    ∙ tail-swapped enc header offset h₄ room same (length enc - 16) (omega arith)
    ∙ sym (mic_of_lem enc (omega arith))

nonce_of-swapped :
    (id : ℕ) (enc header : Buffer) (offset : ℕ)
    → 4 ≤ offset
    → offset + 16 ≤ length enc
    → length header ≡ offset - 4
    → nonce_of id (swapped enc offset header) ≡ nonce_of id enc
unfolding nonce_of
nonce_of-swapped id enc header offset h₄ room same =
    rw (mic_of-swapped enc header offset h₄ room same) refl

-- A second swap puts back what was there.
swapped-swapped :
    (enc header : Buffer) (offset : ℕ)
    → 4 ≤ offset
    → offset + 16 ≤ length enc
    → length header ≡ offset - 4
    → swapped (swapped enc offset header) offset (subarray enc 4 offset) ≡ enc
swapped-swapped enc header offset h₄ room same =
    rw (take-swapped enc header offset h₄ room same, drop-swapped enc header offset h₄ room same)
      (restored enc offset h₄)

length-subarray :
    (enc : Buffer) (offset : ℕ)
    → offset + 16 ≤ length enc
    → length (subarray enc 4 offset) ≡ offset - 4
unfolding subarray
length-subarray enc offset room =
    omega (arith, length-drop 4 (take offset enc), length-take offset enc)

returned :
    {m m' : Message} {a b : Buffer}
    → ◌≡◌ {A = Result (Message × Option Buffer)} (ok (m, some a)) (ok (m', some b))
    → a ≡ b
returned e = cc

module _ (aes : AesCcm) (key : Buffer) where
  abbrev reworked : Buffer → ℕ → ℕ → Result Buffer
  reworked enc offset id = nonce_of id enc >>= λ nonce.
      privacy_encrypt_bytes aes key (subarray enc 4 offset) nonce >>= λ header.
      ok (swapped enc offset header)

  obfuscate_lem :
      (m : Message) (enc : Buffer) (offset id : ℕ)
      → IsPrivate m enc offset id
      → obfuscate aes m key ≡ reworked enc offset id
  unfolding obfuscate privacy_nonce mic nonce_of mic_of
  obfuscate_lem m enc offset id p = rw (p.header_end, p.session) (rw (p.sealed) refl)

  -- What was put in the header's place is deciphered to the header that was there.
  reworked_twice :
      (enc out : Buffer) (offset id : ℕ)
      → 4 ≤ offset
      → offset + 16 ≤ length enc
      → reworked enc offset id ≡ ok out
      → reworked out offset id ≡ ok enc
  unfolding privacy_encrypt_bytes
  reworked_twice enc out offset id h₄ room e =
      let (nonce, has_nonce, e₁) = >>=-eq-ok (nonce_of id enc) _ e in
      let (header, enciphered, e₂) =
        >>=-eq-ok (privacy_encrypt_bytes aes key (subarray enc 4 offset) nonce) _ e₁ in
      let (r, sealed, e₃) =
        >>=-eq-ok (aes.seal key nonce [] (subarray enc 4 offset)) _ enciphered in
      let same : length header ≡ offset - 4 =
        ap length (sym (ok-injective e₃))
        ∙ (aes.seal-sizes _ _ _ _ _ _ sealed).0
        ∙ length-subarray enc offset room in
      subst (λ b. reworked b offset id ≡ ok enc) (ok-injective e₂)
        (back nonce header same has_nonce (
          subst (λ b. aes.seal key nonce [] (subarray enc 4 offset) ≡ ok (b, r.1)) (ok-injective e₃)
            sealed))
    where
      back :
          (nonce header : Buffer) {tag : Buffer}
          → length header ≡ offset - 4
          → nonce_of id enc ≡ ok nonce
          → aes.seal key nonce [] (subarray enc 4 offset) ≡ ok (header, tag)
          → reworked (swapped enc offset header) offset id ≡ ok enc
      back nonce header same has_nonce sealed =
          let (tag', again) = aes.seal_twice _ _ _ _ _ _ sealed in
          rw
            (
              nonce_of-swapped id enc header offset h₄ room same,
              has_nonce,
              middle-swapped enc header offset h₄ room same,
              again,
            )
            (ap ok (swapped-swapped enc header offset h₄ room same))

  -- A private message's header is restored by the receiver: where it reads the flags, the session id and
  -- the header's end of the sender's bytes, deciphering gives those bytes, in both of its buffers.
  pub privacy_decrypt-encrypt :
      (m m₁ r : Message) (enc out : Buffer) (offset id : ℕ)
      → IsPrivate m enc offset id
      → privacy_encrypt aes m key true ≡ ok (m₁, some out)
      → IsPrivate r out offset id
      → privacy_decrypt aes r key true
        ≡ ok (record r { buffer = enc; encrypted = some enc }, some enc)
  unfolding privacy_encrypt privacy_decrypt
  privacy_decrypt-encrypt m m₁ r enc out offset id p e p' =
      let (o, obfuscates, e₁) = >>=-eq-ok (obfuscate aes m key) _ (rw p.private at e) in
      rw
        (
          p'.private,
          obfuscate_lem r out offset id p',
          reworked_twice enc out offset id p.behind_flags p.has_mic
              (sym (obfuscate_lem m enc offset id p) ∙ obfuscates ∙ ap ok (returned e₁)),
        )
        refl
