-- ===== src/Tests/Helpers.antt =====
-- The queue and the obfuscation of headers, at concrete values.
use matternode.Prelude.{List, ℕ, ◌≡◌, refl, true, false, some, [], ◌∷◌, replicate, arith, ok}
use matternode.Buffer.{Buffer, read_le, subarray, index_from_end}
use matternode.Cipher.{privacy_encrypt_bytes}
use matternode.Message.{
  Message, p_flag, security_flags, payload_offset, destination_offset, s_flag, message_flags, dsiz,
  session_id, mic,
}
use matternode.Message.Privacy.{obfuscate, privacy_nonce, privacy_encrypt, privacy_decrypt}
use matternode.Message.Obfuscation.{IsPrivate, privacy_decrypt-encrypt}
use matternode.AsyncQueue.{empty_queue}
use matternode.AsyncQueue.Order.{Op, numbered, put, get, run, run-numbered}
use matternode.Tests.Data.{clear_cipher}

abbrev private_bytes : Buffer
private_bytes = 0 ∷ 22 ∷ 0 ∷ 0x80 ∷ 42 ∷ 0 ∷ 0 ∷ 0 ∷ 5 ∷ 6 ∷ replicate 16 7

abbrev private_message : Message
private_message = record {
  buffer = private_bytes;
  encrypted = some private_bytes;
  has_source = false;
  has_destination = false;
}

private_message-IsPrivate : IsPrivate private_message private_bytes 8 22
unfolding p_flag security_flags read_le payload_offset destination_offset s_flag message_flags dsiz
    session_id
private_message-IsPrivate = record {
  sealed = refl;
  private = refl;
  header_end = refl;
  session = refl;
  behind_flags = omega arith;
  has_mic = omega arith;
}

obfuscates :
    privacy_encrypt clear_cipher private_message [] true ≡ ok (private_message, some private_bytes)
unfolding p_flag security_flags read_le payload_offset destination_offset s_flag message_flags dsiz
    session_id privacy_encrypt obfuscate privacy_nonce mic subarray index_from_end
    privacy_encrypt_bytes
obfuscates = refl

privacy_decrypt-encrypt_example :
    privacy_decrypt clear_cipher private_message [] true ≡ ok (private_message, some private_bytes)
privacy_decrypt-encrypt_example =
    privacy_decrypt-encrypt clear_cipher [] private_message private_message private_message
      private_bytes private_bytes 8 22 private_message-IsPrivate obfuscates
      private_message-IsPrivate

-- A get that comes before the first put.
abbrev calls : List (Op ℕ)
calls = get ∷ put 10 ∷ put 20 ∷ get ∷ []

run-numbered_example :
    ((run empty_queue calls).0.settled ≡ numbered 0 (10 ∷ 20 ∷ []))
    × ((run empty_queue calls).1 ≡ some 0 ∷ some 1 ∷ [])
run-numbered_example = run-numbered calls
