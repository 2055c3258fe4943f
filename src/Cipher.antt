-- ===== src/Cipher.antt =====
-- What the message layer takes from Node's `crypto` module: AES-128-CCM with a tag of 16 bytes.
use matternode.Prelude.{◌≡◌, Option, some, [], Result, ok, ◌>>=◌, length}
use matternode.Buffer.{Buffer}

-- `seal` is createCipheriv, setAAD, update, final and getAuthTag: it may throw, on a bad key.
-- `unseal` is createDecipheriv, setAuthTag, setAAD, update and final: `none` where it throws.
-- What is sealed has the length of the text, a tag of 16 bytes, and is unsealed by the same key,
-- nonce and additional data. CCM adds a keystream of the key and the nonce, so sealing once more
-- gives the text back.
pub record AesCcm : Type 0 where
  pub seal : Buffer → Buffer → Buffer → Buffer → Result (Buffer × Buffer)
  pub unseal : Buffer → Buffer → Buffer → Buffer → Buffer → Option Buffer
  pub seal-sizes :
      (key nonce aad text sealed tag : Buffer)
      → seal key nonce aad text ≡ ok (sealed, tag)
      → (length sealed ≡ length text) × (length tag ≡ 16)
  pub unseal-seal :
      (key nonce aad text sealed tag : Buffer)
      → seal key nonce aad text ≡ ok (sealed, tag)
      → unseal key nonce aad sealed tag ≡ some text
  pub seal_twice :
      (key nonce aad text sealed tag : Buffer)
      → seal key nonce aad text ≡ ok (sealed, tag)
      → (tag' : Buffer) × (seal key nonce aad sealed ≡ ok (text, tag'))

-- src/crypto/Crypto.js, PrivacyEncrypt: the cipher text alone.
module _ (aes : AesCcm) where
  unfoldable pub privacy_encrypt_bytes : Buffer → Buffer → Buffer → Result Buffer
  privacy_encrypt_bytes symmetric_key plaintext nonce = do
    (ciphertext, tag) ← aes.seal symmetric_key nonce [] plaintext
    ok ciphertext
