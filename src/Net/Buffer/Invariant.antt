-- ===== src/Net/Buffer/Invariant.antt =====
-- src/net/Buffer.h: the order of the two indices, and the readable bytes.
use mcp_server_cpp.Prelude.{
  ℕ, ◌+◌, ◌-◌, ◌^◌, ◌≤◌, ◌<◌, ◌≡◌, Bytes, length, arith, length-replicate, add_size,
}
use mcp_server_cpp.Net.Buffer.{
  Buffer, slice, of_size, readable_bytes, writable_bytes, cheap_prepend,
}
use mcp_server_cpp.Net.Buffer.Region.{length-slice}

-- The reader does not pass the writer, nor the writer the end of the vector, whose size is below
-- the largest that a vector may have. The area for `retrieve_all` is there.
pub record IsValid (b : Buffer) : Type 0 where
  pub ordered : b.reader ≤ b.writer
  pub inside : b.writer ≤ length b.buffer
  pub small : length b.buffer < 2 ^ 63
  pub prependable : cheap_prepend ≤ length b.buffer

-- The bytes that the reader has in front of it.
abbrev pub contents : Buffer → Bytes
contents b = slice b.buffer b.reader (b.writer - b.reader)

pub of_size-IsValid : (n : ℕ) → n + 8 < 2 ^ 63 → IsValid (of_size n)
unfolding of_size
of_size-IsValid n h = record {
  ordered = omega arith;
  inside = omega (arith, length-replicate {A = ℕ} (add_size 8 n) 0);
  small = omega (arith, length-replicate {A = ℕ} (add_size 8 n) 0);
  prependable = omega (arith, length-replicate {A = ℕ} (add_size 8 n) 0);
}

-- On a valid buffer the two differences do not wrap.
pub readable-valid : {b : Buffer} → IsValid b → readable_bytes b ≡ b.writer - b.reader
readable-valid v = omega arith

pub writable-valid : {b : Buffer} → IsValid b → writable_bytes b ≡ length b.buffer - b.writer
writable-valid v = omega arith

pub length-contents : {b : Buffer} → IsValid b → length (contents b) ≡ readable_bytes b
length-contents {b} v =
    omega (arith, length-slice b.buffer b.reader (b.writer - b.reader) (omega arith))
