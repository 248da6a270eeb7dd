-- ===== src/Chunk.antt =====
-- chunk.go: the decoder of a result chunk, and its buffer.
-- Buffer has the reader, the buffer and the cursor; Utf8 what the Go library's `utf8` and `utf16`
-- do; Decode the decoder; the other files are the proofs.
pub mod Utf8
pub mod Buffer
pub mod Decode
pub mod Cursor
pub mod Text
pub mod RoundTrip
mod Tests
