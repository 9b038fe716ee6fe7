-- ===== src/Protocol/Wire/Frame.antt =====
-- `frame_chunk` and `deframe_chunk` of crates/kanrin-protocol/src/wire.rs: the length prefix of
-- stream transports.
pub mod Stream
use kanrin.Common.{ℕ, ◌+◌, ◌%◌, ◌^◌, List, ◌++◌, Option, none, some, ltb, if◌then◌else◌, length}
use kanrin.Common.Bytes.{to_be, of_be}
use kanrin.Protocol.Error.{Result, ok, ◌>>=◌, slice}

-- `len() as u32` truncates.
unfoldable pub frame_chunk : List ℕ → List ℕ
frame_chunk chunk_data = to_be 4 (length chunk_data % 2 ^ 32) ++ chunk_data

-- What stands behind the length prefix, if all of it is there.
frame_body : List ℕ → (len : ℕ) → Result (Option (List ℕ × ℕ))
frame_body buf len = do body ← slice buf 4 (4 + len); ok (some (body, 4 + len))

pub deframe_chunk : List ℕ → Result (Option (List ℕ × ℕ))
unfolding frame_body
deframe_chunk buf = if ltb (length buf) 4 then ok none else do
  prefix ← slice buf 0 4
  if ltb (length buf) (4 + of_be prefix) then ok none else frame_body buf (of_be prefix)
