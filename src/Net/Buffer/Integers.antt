-- ===== src/Net/Buffer/Integers.antt =====
-- src/net/Buffer.h: integers in network order.
use mcp_server_cpp.Prelude.{
  ℕ, ◌+◌, ◌-◌, ◌^◌, ◌≤◌, ◌<◌, ◌≡◌, refl, sym, ap, ap₂, ◌∙◌, Bytes, length, arith, some, ◌++◌, [],
  ◌∷◌, take, drop, inl, inr, length-append,
}
use mcp_server_cpp.Net.Endian.{
  le_bytes, le_value, byteswap, be_bytes, le_bytes-byteswap, length-le_bytes, length-reverse,
  byteswap-byteswap,
}
use mcp_server_cpp.Net.Buffer.{
  Buffer, slice, readable_bytes, retrieve, peek_int, retrieve_int, append_int, prepend_int,
}
use mcp_server_cpp.Net.Buffer.Region.{take-slice}
use mcp_server_cpp.Net.Buffer.Invariant.{IsValid, contents, length-contents}
use mcp_server_cpp.Net.Buffer.Stream.{retrieve_lem, append_lem, prepend_lem}

length-be_bytes : (w v : ℕ) → length (be_bytes w v) ≡ w
length-be_bytes w v = length-reverse (le_bytes w v) ∙ length-le_bytes w v

take_prefix : (xs ys : Bytes) → take (length xs) (xs ++ ys) ≡ xs
take_prefix [] ys = refl
take_prefix (x ∷ xs) ys = ap (λ l. x ∷ l) (take_prefix xs ys)

drop_prefix : (xs ys : Bytes) → drop (length xs) (xs ++ ys) ≡ ys
drop_prefix [] ys = refl
drop_prefix (x ∷ xs) ys = drop_prefix xs ys

-- The first `w` readable bytes and the rest, where the contents begin with an integer.
split_contents :
    {b : Buffer} (w v : ℕ) (rest : Bytes)
    → IsValid b
    → contents b ≡ be_bytes w v ++ rest
    → (w ≤ readable_bytes b)
      × (slice b.buffer b.reader w ≡ be_bytes w v)
      × (drop w (contents b) ≡ rest)
split_contents {b} w v rest valid e =
    let l = length-be_bytes w v in
    let fits : w ≤ readable_bytes b = omega (
      arith,
      length-contents valid,
      ap length e,
      length-append (be_bytes w v) rest,
      length-be_bytes w v,
    ) in
    (
      fits,
      sym (take-slice b.buffer b.reader w (b.writer - b.reader) (omega (arith, fits)))
          ∙ ap₂ (λ (n : ℕ) c. take n c) (sym l) e
          ∙ take_prefix (be_bytes w v) rest,
      ap₂ (λ (n : ℕ) c. drop n c) (sym l) e ∙ drop_prefix (be_bytes w v) rest,
    )

read_back : (w v : ℕ) (xs : Bytes) → v < 256 ^ w → xs ≡ be_bytes w v → byteswap w (le_value xs) ≡ v
read_back w v xs h e =
    ap (λ ys. byteswap w (le_value ys)) e ∙ (unfold byteswap in byteswap-byteswap w v h)

-- `appendInt` writes the bytes of the integer with the highest first.
pub append_int_lem :
    {b : Buffer} (w v : ℕ)
    → IsValid b
    → b.writer + w < 2 ^ 63
    → (contents (append_int w b v) ≡ contents b ++ be_bytes w v) × IsValid (append_int w b v)
unfolding append_int
append_int_lem {b} w v valid h =
    let (c, k) =
      append_lem (le_bytes w (byteswap w v)) valid
        (omega (arith, length-le_bytes w (byteswap w v))) in
    (c ∙ ap (λ l. contents b ++ l) (le_bytes-byteswap w v), k)

-- Where the readable bytes begin with an integer in network order, `peekInt` and `retrieveInt`
-- read it, and `retrieveInt` leaves exactly the bytes behind it.
pub retrieve_int_lem :
    {b : Buffer} (w v : ℕ) (rest : Bytes)
    → IsValid b
    → v < 256 ^ w
    → contents b ≡ be_bytes w v ++ rest
    → (peek_int w b ≡ some v)
      × ((r : Buffer) × (retrieve_int w b ≡ some (v, r)) × (contents r ≡ rest) × IsValid r)
unfolding peek_int retrieve_int
retrieve_int_lem {b} w v rest valid small e =
    let (fits, first, others) = split_contents w v rest valid e in
    let value = read_back w v (slice b.buffer b.reader w) small first in
    let (c, k) = retrieve_lem w valid in
    (ground (arith, fits, value), (retrieve b w, ground (arith, fits, value), c ∙ others, k))

-- What `prependInt` puts in front is what `retrieveInt` reads first, and behind it stand the bytes
-- that were readable before.
pub retrieve_int-prepend_int :
    {b : Buffer} (w v : ℕ)
    → IsValid b
    → v < 256 ^ w
    → w ≤ b.reader
    → (r s : Buffer) × (prepend_int w b v ≡ some r)
      × (retrieve_int w r ≡ some (v, s))
      × (contents s ≡ contents b)
unfolding prepend_int
retrieve_int-prepend_int {b} w v valid small h =
    let bytes = le_bytes w (byteswap w v) in
    elim (prepend_lem bytes valid) [
      | inl (e, short) ↦ absurd (omega (arith, short, length-le_bytes w (byteswap w v)))
      | inr (r, e, fits, c, k) ↦
          let (peeked, (s, t, rest, k')) =
            retrieve_int_lem w v (contents b) k small
              (c ∙ ap (λ l. l ++ contents b) (le_bytes-byteswap w v)) in
          (r, s, e, t, rest)
    ]
