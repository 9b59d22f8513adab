-- ===== src/Net/Buffer.antt =====
-- src/net/Buffer.h and Buffer.cc: the byte buffer between a socket and its handlers.
-- The vector is a list of bytes. A failed `assert` and an access outside the vector are `none`;
-- `readv` and `write` are system calls, whose outcome is an argument.
pub mod Region
pub mod Invariant
pub mod Room
pub mod Stream
pub mod Integers
mod Tests
use mcp_server_cpp.Prelude.{
  ℕ, zero, suc, ◌+◌, ◌-◌, List, [], ◌∷◌, ◌++◌, Option, none, some, Bool, true, false, Bytes, length,
  take, drop, replicate, ltb, leb, if◌then◌else◌, add_size, sub_size,
}
use mcp_server_cpp.Net.Endian.{le_bytes, le_value, byteswap}

pub record Buffer : Type 0 where
  pub buffer : Bytes
  pub reader : ℕ
  pub writer : ℕ

-- `KCheapPrepend` and `KInitialSize`
abbrev pub cheap_prepend : ℕ
cheap_prepend = 8

abbrev pub initial_size : ℕ
initial_size = 1024

-- The effect of `std::copy` and `memcpy`; nothing is written past the end of the vector.
unfoldable pub overwrite : Bytes → ℕ → Bytes → Bytes
overwrite [] i ds = []
overwrite (x ∷ xs) zero [] = x ∷ xs
overwrite (x ∷ xs) zero (d ∷ ds) = d ∷ overwrite xs zero ds
overwrite (x ∷ xs) (suc i) ds = x ∷ overwrite xs i ds

-- `len` bytes of the vector from `i` on.
abbrev pub slice : Bytes → ℕ → ℕ → Bytes
slice xs i len = take len (drop i xs)

-- `std::vector::resize`, which fills with zero bytes.
unfoldable pub resize : Bytes → ℕ → Bytes
resize xs n = take n (xs ++ replicate (n - length xs) 0)

-- The constructor for a size, and the one for some bytes.
unfoldable pub of_size : ℕ → Buffer
of_size n = record {
  buffer = replicate (add_size cheap_prepend n) 0;
  reader = cheap_prepend;
  writer = cheap_prepend;
}

unfoldable pub of_bytes : Bytes → Buffer
unfolding overwrite
of_bytes xs = record {
  buffer = overwrite (replicate (add_size cheap_prepend (length xs)) 0) cheap_prepend xs;
  reader = cheap_prepend;
  writer = add_size cheap_prepend (length xs);
}

abbrev pub readable_bytes : Buffer → ℕ
readable_bytes b = sub_size b.writer b.reader

abbrev pub writable_bytes : Buffer → ℕ
writable_bytes b = sub_size (length b.buffer) b.writer

abbrev pub prependable_bytes : Buffer → ℕ
prependable_bytes b = b.reader

unfoldable pub retrieve_all : Buffer → Buffer
retrieve_all b = record b { reader = cheap_prepend; writer = cheap_prepend }

unfoldable pub retrieve : Buffer → ℕ → Buffer
unfolding retrieve_all
retrieve b len =
    if ltb len (readable_bytes b)
    then record b { reader = add_size b.reader len }
    else retrieve_all b

-- `std::string result(peek(), len)`: the length is not compared with what is readable.
unfoldable pub retrieve_as_string : Buffer → ℕ → Option (Bytes × Buffer)
retrieve_as_string b len =
    if leb (b.reader + len) (length b.buffer)
    then some (slice b.buffer b.reader len, retrieve b len)
    else none

unfoldable pub retrieve_all_as_string : Buffer → Option (Bytes × Buffer)
retrieve_all_as_string b = retrieve_as_string b (readable_bytes b)

unfoldable pub make_space : Buffer → ℕ → Buffer
make_space b len =
    if ltb (add_size (writable_bytes b) (prependable_bytes b)) (add_size len cheap_prepend)
    then record b { buffer = resize b.buffer (add_size b.writer len) }
    else record {
      buffer = overwrite b.buffer cheap_prepend (slice b.buffer b.reader (readable_bytes b));
      reader = cheap_prepend;
      writer = add_size cheap_prepend (readable_bytes b);
    }

unfoldable pub ensure_writeable_bytes : Buffer → ℕ → Buffer
ensure_writeable_bytes b len = if ltb (writable_bytes b) len then make_space b len else b

-- What `append` does once there is room.
unfoldable pub write_at_end : Buffer → Bytes → Buffer
write_at_end b xs = record b {
  buffer = overwrite b.buffer b.writer xs;
  writer = add_size b.writer (length xs);
}

unfoldable pub append : Buffer → Bytes → Buffer
append b xs = write_at_end (ensure_writeable_bytes b (length xs)) xs

unfoldable pub prepend : Buffer → Bytes → Option Buffer
prepend b xs =
    if leb (length xs) (prependable_bytes b)
    then some (record b {
      reader = b.reader - length xs;
      buffer = overwrite b.buffer (b.reader - length xs) xs;
    })
    else none

-- `peekInt8` to `peekUint64`: the integers of `w` bytes, in network order.
unfoldable pub peek_int : ℕ → Buffer → Option ℕ
peek_int w b =
    if leb w (readable_bytes b)
    then some (byteswap w (le_value (slice b.buffer b.reader w)))
    else none

unfoldable pub retrieve_int : ℕ → Buffer → Option (ℕ × Buffer)
retrieve_int w b =
    if leb w (readable_bytes b)
    then some (byteswap w (le_value (slice b.buffer b.reader w)), retrieve b w)
    else none

unfoldable pub append_int : ℕ → Buffer → ℕ → Buffer
append_int w b v = append b (le_bytes w (byteswap w v))

unfoldable pub prepend_int : ℕ → Buffer → ℕ → Option Buffer
prepend_int w b v = prepend b (le_bytes w (byteswap w v))

-- What `readv` answers: an error number, or the bytes that it delivered.
pub data ReadResult : Type 0 where
  failed : ℕ → ReadResult
  delivered : Bytes → ReadResult

-- The size of the buffer on the stack.
abbrev pub extra_size : ℕ
extra_size = 65536

-- How many bytes `readv` is offered.
abbrev pub read_room : Buffer → ℕ
read_room b =
    if ltb (writable_bytes b) extra_size then writable_bytes b + extra_size else writable_bytes b

-- The bytes go to the free end of the vector first, and from there to the extra buffer.
unfoldable pub read_fd : Buffer → ReadResult → Buffer
read_fd b (failed errno) = b
read_fd b (delivered xs) =
    if leb (length xs) (writable_bytes b)
    then record b {
      buffer = overwrite b.buffer b.writer xs;
      writer = add_size b.writer (length xs);
    }
    else append
        (record b {
          buffer = overwrite b.buffer b.writer (take (writable_bytes b) xs);
          writer = length b.buffer;
        })
        (drop (writable_bytes b) xs)
