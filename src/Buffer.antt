-- ===== src/Buffer.antt =====
-- Node's Buffer as the message layer uses it: a byte string with little-endian access that throws a
-- RangeError outside the buffer or for a value that the width cannot hold. `subarray` shares its
-- bytes in Node; where the program writes through one, the model writes at the shifted offset.
pub mod Laws
use matternode.Prelude.{
  ℕ, zero, suc, ◌+◌, ◌-◌, ◌*◌, ◌/◌, ◌%◌, ◌^◌, ◌<◌, Bool, ◌&&◌, List, [], ◌∷◌, ◌++◌, ltb, leb,
  if◌then◌else◌, length, take, drop, replicate, All, Result, ok, throw, range_error,
}

abbrev pub Buffer : Type 0
Buffer = List ℕ

abbrev pub IsBuffer : Buffer → Type 0
IsBuffer = All (λ b. b < 256)

-- Bytes whose number four bytes can tell.
abbrev pub ShortBuffer : Buffer → Type 0
ShortBuffer b = IsBuffer b × (length b < 256 ^ 4)

-- The `k` bytes of `v`, lowest first.
abbrev pub le_bytes : ℕ → ℕ → Buffer
le_bytes zero v = []
le_bytes (suc k) v = v % 256 ∷ le_bytes k (v / 256)

-- The number that the bytes stand for.
abbrev pub le_value : Buffer → ℕ
le_value [] = 0
le_value (b ∷ bs) = b + 256 * le_value bs

-- Buffer.alloc(n)
unfoldable pub alloc : ℕ → Buffer
alloc n = replicate n 0

-- buf.readUIntLE of `k` bytes at `offset`: readUInt8, readUInt16LE, readUInt32LE, readBigUInt64LE.
unfoldable pub read_le : ℕ → Buffer → ℕ → Result ℕ
read_le k buf offset =
    if leb (offset + k) (length buf)
    then ok (le_value (take k (drop offset buf)))
    else throw range_error

-- buf.writeUIntLE of `k` bytes at `offset`.
unfoldable pub write_le : ℕ → Buffer → ℕ → ℕ → Result Buffer
write_le k buf value offset =
    if ltb value (256 ^ k) && leb (offset + k) (length buf)
    then ok (take offset buf ++ (le_bytes k value ++ drop (offset + k) buf))
    else throw range_error

-- buf.subarray(start, end) with 0 ≤ start; `end` is cut at the length.
unfoldable pub subarray : Buffer → ℕ → ℕ → Buffer
subarray buf start end = drop start (take end buf)

-- The index that `buf.length - n` names in a call of subarray: a negative one counts from the end
-- once more, and stops at 0.
unfoldable pub index_from_end : Buffer → ℕ → ℕ
index_from_end buf n = if leb n (length buf) then length buf - n else length buf - (n - length buf)
