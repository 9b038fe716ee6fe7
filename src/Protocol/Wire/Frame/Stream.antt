-- ===== src/Protocol/Wire/Frame/Stream.antt =====
-- Frames on a stream: a whole one is found, a part of one is not.
use kanrin.Common.{
  ℕ, ◌+◌, ◌^◌, ◌<◌, ◌≡◌, ◌≢◌, List, [], ◌∷◌, ◌++◌, none, some, length, length-append, arith,
  Option-cases, inl, inr,
}
use kanrin.Common.Bytes.{to_be, of_be, of_be-to_be, slice?, slice?-append, slice?_total}
use kanrin.Protocol.Error.{ok, panic}
use kanrin.Protocol.Wire.Frame.{frame_chunk, deframe_chunk}

-- A frame of less than 2^32 bytes at the front of the stream is found, with the number of bytes
-- that it takes.
pub deframe_chunk-frame_chunk :
    (chunk rest : List ℕ)
    → length chunk < 2 ^ 32
    → deframe_chunk (frame_chunk chunk ++ rest) ≡ ok (some (chunk, 4 + length chunk))
unfolding frame_chunk deframe_chunk to_be
deframe_chunk-frame_chunk chunk rest h =
    let size = to_be 4 (length chunk) in
    ground (
      arith,
      of_be-to_be 4 (length chunk) h,
      length-append chunk rest,
      slice?-append [] size (chunk ++ rest) 0 4,
      slice?-append size chunk rest 4 (4 + length chunk),
    )

-- While bytes of a frame of less than 2^32 bytes are missing, nothing is taken from the stream.
pub deframe_chunk-incomplete :
    (chunk front back : List ℕ)
    → length chunk < 2 ^ 32
    → frame_chunk chunk ≡ front ++ back
    → length front < length (frame_chunk chunk)
    → deframe_chunk front ≡ ok none
unfolding frame_chunk deframe_chunk slice? to_be
deframe_chunk-incomplete chunk (a ∷ b ∷ c ∷ d ∷ front) back small e less =
    ground (arith, of_be-to_be 4 (length chunk) small)
deframe_chunk-incomplete chunk front back small e less = ground arith

-- Whatever is buffered, looking for a frame never indexes out of range.
deframe_chunk-ne-panic : (buf : List ℕ) → deframe_chunk buf ≢ panic
unfolding deframe_chunk
deframe_chunk-ne-panic buf = elim (Option-cases (slice? 0 4 buf)) [
  | inl f ↦ ground (arith, slice?_total 0 4 buf)
  | inr (ys, e) ↦ ground (arith, slice?_total 4 (4 + of_be ys) buf)
]
