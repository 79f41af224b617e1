-- ===== src/Job/Reader.antt =====
-- qedl-job/src/reader.rs: `ChunkedReader`. The file behind it is its content; how many bytes one
-- `read` of the buffered file returns is a parameter.
use qedl_rs.Prelude.{
  ℕ, ◌+◌, min, Bool, Option, ltb, length, take, drop, Outcome, ok, err, match_option,
}
use qedl_rs.Prelude.Bytes.{Bytes}
use qedl_rs.Job.Context.{JobError, io}

pub record ChunkedReader : Type 0 where
  pub content : Bytes
  pub position : ℕ
  pub chunk_size : ℕ
  pub total_size : ℕ
  pub bytes_read : ℕ

unfoldable pub ChunkedReader_new : Bytes → ℕ → ChunkedReader
ChunkedReader_new content chunk_size = record {
  content = content;
  position = 0;
  chunk_size = chunk_size;
  total_size = length content;
  bytes_read = 0;
}

-- `read position n` is the number of bytes a read into a buffer of `n` bytes at `position`
-- returns; `none` is an I/O error.
module _ (read : ℕ → ℕ → Option ℕ) where
  -- The bytes put in the buffer of `buf_len` bytes, in place of their number.
  unfoldable pub read_chunk : ℕ → ChunkedReader → Outcome JobError (Bytes × ChunkedReader)
  read_chunk buf_len r =
      let to_read = min buf_len r.chunk_size in
      match_option (read r.position to_read) (err io) λ n. ok (
        take n (drop r.position r.content),
        record r { position = r.position + n; bytes_read = r.bytes_read + n },
      )

unfoldable pub has_more : ChunkedReader → Bool
has_more r = ltb r.bytes_read r.total_size

unfoldable pub reset : ChunkedReader → ChunkedReader
reset r = record r { position = 0; bytes_read = 0 }
