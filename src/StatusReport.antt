-- ===== src/StatusReport.antt =====
-- src/protocols/session/StatusReport.js and the opcodes of src/protocols/session/SessionProtocolConst.js.
pub mod Fields
use matternode.Prelude.{ℕ, Option, none, some, ◌++◌, Result, ok, ◌>>=◌}
use matternode.Buffer.{Buffer, alloc, write_le}

abbrev pub success : ℕ
success = 0

abbrev pub session_establishment_success : ℕ
session_establishment_success = 0

abbrev pub secure_channel : ℕ
secure_channel = 0

-- The three codes are each written without an offset, so at 0.
unfoldable pub status_payload : ℕ → ℕ → ℕ → Option Buffer → Result Buffer
status_payload general_code protocol_id protocol_code protocol_data = do
  buf₁ ← write_le 2 (alloc 8) general_code 0
  buf₂ ← write_le 4 buf₁ protocol_id 0
  buf₃ ← write_le 2 buf₂ protocol_code 0
  ok (elim protocol_data [ none ↦ buf₃ | some more ↦ buf₃ ++ more ])
