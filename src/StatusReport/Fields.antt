-- ===== src/StatusReport/Fields.antt =====
-- What is left of the codes in a report of src/protocols/session/StatusReport.js.
use matternode.Prelude.{ℕ, ◌<◌, ◌≡◌, refl, none, [], ◌++◌, drop, replicate, ok}
use matternode.Buffer.{le_bytes, alloc}
use matternode.Buffer.Laws.{write_le-over}
use matternode.StatusReport.{status_payload}

-- For codes that fit their fields, a report without further data holds the protocol code, the upper half of the protocol id and four zeros: the general code
-- is overwritten.
pub status_payload_lem :
    (general_code protocol_id protocol_code : ℕ)
    → general_code < 65536
    → protocol_id < 4294967296
    → protocol_code < 65536
    → status_payload general_code protocol_id protocol_code none
      ≡ ok (le_bytes 2 protocol_code ++ (drop 2 (le_bytes 4 protocol_id) ++ replicate 4 0))
unfolding status_payload alloc
status_payload_lem g p c hg hp hc =
    rw (write_le-over 2 g 0 [] (replicate 2 0) (replicate 6 0) hg refl refl) (
      rw (write_le-over 4 p 0 [] (le_bytes 2 g ++ replicate 2 0) (replicate 4 0) hp refl refl) (
        rw
          (write_le-over 2 c 0 [] (le_bytes 2 p) (drop 2 (le_bytes 4 p) ++ replicate 4 0) hc refl
            refl)
          refl))
