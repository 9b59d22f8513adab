-- ===== src/Net/Buffer/Stream.antt =====
-- src/net/Buffer.h and Buffer.cc: reading and writing, seen on the readable bytes.
use mcp_server_cpp.Prelude.{
  ℕ, ◌+◌, ◌-◌, ◌^◌, ◌≤◌, ◌<◌, ◌≡◌, refl, sym, ap, ap₂, ◌∙◌, Bytes, length, arith, some, none, ◌++◌,
  take, drop, length-take, length-drop, add_size, ltb, leb, Bool-cases, inl, inr, ◌⊎◌, append_assoc,
  take-append-drop,
}
use mcp_server_cpp.Net.Buffer.{
  Buffer, slice, overwrite, readable_bytes, writable_bytes, retrieve, retrieve_all, prepend,
  retrieve_as_string, write_at_end, append, delivered, read_fd,
}
use mcp_server_cpp.Net.Buffer.Region.{
  length-overwrite, take-slice, drop-slice, drop_all, slice-overwrite_self, slice-overwrite_behind,
  slice_add,
}
use mcp_server_cpp.Net.Buffer.Invariant.{IsValid, contents, length-contents}
use mcp_server_cpp.Net.Buffer.Room.{slice-cong, ensure_writeable_bytes-Roomy, write_at_end-contents}

-- `retrieve` drops the first bytes, all of them where fewer are readable, and keeps the buffer
-- valid.
pub retrieve_lem :
    {b : Buffer} (n : ℕ)
    → IsValid b
    → (contents (retrieve b n) ≡ drop n (contents b)) × IsValid (retrieve b n)
unfolding retrieve
retrieve_lem {b} n v = elim (Bool-cases (ltb n (readable_bytes b))) [
  | inl e ↦ rw e (
    slice-cong b.buffer b.buffer (add_size b.reader n) (b.reader + n)
          (b.writer - add_size b.reader n) (b.writer - (b.reader + n)) refl (ground arith)
          (ground arith)
        ∙ sym (
            drop-slice b.buffer b.reader (b.reader + n) n (b.writer - (b.reader + n))
              (b.writer - b.reader) refl (ground arith)),
    record {
      ordered = ground arith;
      inside = v.inside;
      small = v.small;
      prependable = v.prependable;
    },
  )
  | inr e ↦ rw e (
    sym (drop_all (contents b) n (ground (arith, length-contents v))),
    record {
      ordered = omega arith;
      inside = v.prependable;
      small = v.small;
      prependable = v.prependable;
    },
  )
]

-- Asked for no more bytes than are readable, `retrieveAsString` returns the first ones of them and
-- leaves what `retrieve` leaves.
pub retrieve_as_string_lem :
    {b : Buffer} (n : ℕ)
    → IsValid b
    → n ≤ readable_bytes b
    → retrieve_as_string b n ≡ some (take n (contents b), retrieve b n)
unfolding retrieve_as_string
retrieve_as_string_lem {b} n v h =
    ground (arith, take-slice b.buffer b.reader n (b.writer - b.reader))

-- Asked for more bytes than are readable, but within the vector, `retrieveAsString` returns all
-- readable bytes and behind them bytes that were never written to the stream, and it resets the
-- buffer.
pub retrieve_as_string_beyond :
    {b : Buffer} (n : ℕ)
    → IsValid b
    → readable_bytes b ≤ n
    → b.reader + n ≤ length b.buffer
    → retrieve_as_string b n
      ≡ some (contents b ++ slice b.buffer b.writer (n - readable_bytes b), retrieve_all b)
unfolding retrieve_as_string retrieve
retrieve_as_string_beyond {b} n v h k = ground (
  arith,
  slice_add b.buffer b.reader b.writer (b.writer - b.reader) (n - readable_bytes b) n (omega arith)
      (omega arith),
)

-- `append` puts the bytes behind those that are readable, whether it grows the vector, moves the
-- bytes to its front or finds room, and keeps the buffer valid, if the vector stays within its
-- largest size.
pub append_lem :
    {b : Buffer} (xs : Bytes)
    → IsValid b
    → b.writer + length xs < 2 ^ 63
    → (contents (append b xs) ≡ contents b ++ xs) × IsValid (append b xs)
unfolding append
append_lem {b} xs v h =
    let r = ensure_writeable_bytes-Roomy (length xs) v h in
    let (c, k) = write_at_end-contents xs r.valid r.room in (c ∙ ap (λ l. l ++ xs) r.same, k)

-- `prepend` is refused exactly where the area before the reader is too small; otherwise the bytes
-- become the first readable ones, and the buffer stays valid.
pub prepend_lem :
    {b : Buffer} (xs : Bytes)
    → IsValid b
    → ((prepend b xs ≡ none) × (b.reader < length xs))
      ⊎ ((r : Buffer) × (prepend b xs ≡ some r)
          × (length xs ≤ b.reader)
          × (contents r ≡ xs ++ contents b)
          × IsValid r)
unfolding prepend
prepend_lem {b} xs v = elim (Bool-cases (leb (length xs) b.reader)) [
  | inr e ↦ inl (rw e, ground arith)
  | inl e ↦
      let i = b.reader - length xs in
      let new = overwrite b.buffer i xs in
      let long = length-overwrite b.buffer i xs in
      let fits : length xs ≤ b.reader = ground arith in
      inr (
        record b { reader = i; buffer = new },
        rw e,
        fits,
        slice_add new i b.reader (length xs) (b.writer - b.reader) (b.writer - i) (omega arith)
              (omega arith)
            ∙ ap₂ ◌++◌ (slice-overwrite_self b.buffer i xs (omega arith))
                (slice-overwrite_behind b.buffer i xs b.reader (b.writer - b.reader) (omega arith)),
        record {
          ordered = omega arith;
          inside = omega (arith, long);
          small = omega (arith, long);
          prependable = omega (arith, long, v.prependable);
        },
      )
]

-- The two ways in which `readFd` places the bytes that `readv` delivered.
read_fd_cases :
    {b : Buffer} (xs : Bytes)
    → IsValid b
    → ((read_fd b (delivered xs) ≡ write_at_end b xs) × (b.writer + length xs ≤ length b.buffer))
      ⊎ ((read_fd b (delivered xs)
            ≡ append (write_at_end b (take (writable_bytes b) xs)) (drop (writable_bytes b) xs))
          × (length (take (writable_bytes b) xs) ≡ writable_bytes b)
          × (length b.buffer ≤ b.writer + length xs))
unfolding read_fd write_at_end
read_fd_cases {b} xs v = ground (arith, length-take (writable_bytes b) xs)

-- What `readv` delivered, in the vector alone or in the vector and the buffer on the stack, joins
-- the readable bytes at their end, in order; the buffer stays valid.
pub read_fd_lem :
    {b : Buffer} (xs : Bytes)
    → IsValid b
    → b.writer + length xs < 2 ^ 63
    → (contents (read_fd b (delivered xs)) ≡ contents b ++ xs) × IsValid (read_fd b (delivered xs))
read_fd_lem {b} xs v h = elim (read_fd_cases xs v) [
  | inl (e, room) ↦ rw e (write_at_end-contents xs v room)
  | inr (e, l, over) ↦
      let w = writable_bytes b in
      let first = write_at_end-contents (take w xs) v (omega arith) in
      let ahead : (write_at_end b (take w xs)).writer ≡ length b.buffer =
        unfold write_at_end in omega arith in
      let rest = append_lem (drop w xs) first.1 (omega (arith, ahead, length-drop w xs)) in
      rw e (
        rest.0
            ∙ ap (λ l. l ++ drop w xs) first.0
            ∙ append_assoc (contents b) (take w xs) (drop w xs)
            ∙ ap (λ l. contents b ++ l) (take-append-drop w xs),
        rest.1,
      )
]
