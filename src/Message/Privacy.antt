-- ===== src/Message/Privacy.antt =====
-- src/message/Message.js: a message's own encryption, and the obfuscation of its header. The results
-- are the message afterwards and what the method returns.
use matternode.Prelude.{
  ℕ, zero, suc, ◌-◌, ◌/◌, ◌%◌, Bool, Option, none, some, [], ◌∷◌, ◌++◌, take, drop, if◌then◌else◌,
  Result, ok, throw, type_error, ◌>>=◌,
}
use matternode.Buffer.{Buffer, subarray}
use matternode.Cipher.{AesCcm, privacy_encrypt_bytes}
use matternode.MsgCodec
use matternode.Message.{Message, session_id, is_unencrypted, mic, p_flag, payload_offset}

-- buf.fill(value, offset): the bytes are repeated up to the end.
abbrev pub fill : Buffer → Buffer → ℕ → Buffer
fill all left zero = []
fill all (b ∷ left) (suc n) = b ∷ fill all left n
fill [] [] (suc n) = []
fill (a ∷ all) [] (suc n) = a ∷ fill (a ∷ all) all n

-- Filling with no bytes at all throws.
abbrev pub fill_with : Buffer → ℕ → Result Buffer
fill_with [] n = throw type_error
fill_with (b ∷ bs) n = ok (fill (b ∷ bs) (b ∷ bs) n)

-- The session id, highest byte first, and the last 11 bytes of the MIC.
unfoldable pub privacy_nonce : Message → Result Buffer
privacy_nonce m = do
  id ← session_id m
  code ← mic m
  rest ← fill_with (subarray code (16 - 11) 16) 11
  ok (id / 256 ∷ id % 256 ∷ rest)

abbrev pub encrypted_of : Message → Result Buffer
encrypted_of m = elim m.encrypted [ none ↦ throw type_error | some enc ↦ ok enc ]

module _ (aes : AesCcm) where
  unfoldable pub encrypt_message : Message → Buffer → Bool → Result (Message × Option Buffer)
  encrypt_message m key apply = do
    plain ← is_unencrypted m
    if plain then ok (m, none) else (do
      buf ← MsgCodec.encrypt aes m.buffer key
      ok ((if apply then record m { encrypted = some buf } else m), some buf))

  unfoldable pub decrypt_own : Message → Buffer → Bool → Result (Message × Option Buffer)
  decrypt_own m key apply = do
    plain ← is_unencrypted m
    if plain then ok (m, none) else (do
      enc ← encrypted_of m
      dmsg ← MsgCodec.decrypt aes enc key
      ok (elim dmsg [
        | none ↦ (m, none)
        | some d ↦ ((if apply then record m { buffer = d } else m), some d)
      ]))

  -- The header behind its first 4 bytes, enciphered.
  unfoldable pub obfuscate : Message → Buffer → Result Buffer
  obfuscate m key = do
    offset ← payload_offset m
    enc ← encrypted_of m
    nonce ← privacy_nonce m
    header ← privacy_encrypt_bytes aes key (subarray enc 4 offset) nonce
    ok (take 4 enc ++ (header ++ drop offset enc))

  unfoldable pub privacy_encrypt : Message → Buffer → Bool → Result (Message × Option Buffer)
  privacy_encrypt m key apply = do
    private ← p_flag m
    if private
        then (do
          out ← obfuscate m key
          ok ((if apply then record m { encrypted = some out } else m), some out))
        else ok (m, m.encrypted)

  unfoldable pub privacy_decrypt : Message → Buffer → Bool → Result (Message × Option Buffer)
  privacy_decrypt m key apply = do
    private ← p_flag m
    if private
        then (do
          out ← obfuscate m key
          ok ((if apply then record m { buffer = out; encrypted = some out } else m), some out))
        else ok (m, m.encrypted)
