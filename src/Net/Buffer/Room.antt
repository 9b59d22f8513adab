-- ===== src/Net/Buffer/Room.antt =====
-- src/net/Buffer.h: making room for bytes behind those that are readable, and writing them.
use mcp_server_cpp.Prelude.{
  ℕ, ◌+◌, ◌-◌, ◌^◌, ◌≤◌, ◌<◌, ◌≡◌, refl, ap, ap₂, ◌∙◌, Bytes, length, arith, ◌++◌, inl, inr, ◌⊎◌,
}
use mcp_server_cpp.Net.Buffer.{
  Buffer, slice, overwrite, make_space, ensure_writeable_bytes, write_at_end, resize,
}
use mcp_server_cpp.Net.Buffer.Region.{
  length-overwrite, length-slice, slice-overwrite_self, slice-overwrite_before, slice_add,
  length-resize, slice-resize,
}
use mcp_server_cpp.Net.Buffer.Invariant.{IsValid, contents}

pub slice-cong :
    (xs ys : Bytes) (i j m n : ℕ) → xs ≡ ys → i ≡ j → m ≡ n → slice xs i m ≡ slice ys j n
slice-cong xs ys i j m n p q r = λ k. slice (p k) (q k) (r k)

-- What there is room for, after making room.
pub record Roomy (b : Buffer) (len : ℕ) (r : Buffer) : Type 0 where
  pub same : contents r ≡ contents b
  pub valid : IsValid r
  pub room : r.writer + len ≤ length r.buffer

grow-Roomy :
    {b : Buffer} (len : ℕ)
    → IsValid b
    → b.writer + len < 2 ^ 63
    → length b.buffer ≤ b.writer + len
    → Roomy b len (record b { buffer = resize b.buffer (b.writer + len) })
grow-Roomy {b} len v h k =
    let long = length-resize b.buffer (b.writer + len) k in
    record {
      same = slice-resize b.buffer (b.writer + len) b.reader (b.writer - b.reader) k (omega arith);
      valid = record {
        ordered = v.ordered;
        inside = omega (arith, long);
        small = omega (arith, long);
        prependable = omega (arith, long, v.prependable);
      };
      room = omega (arith, long);
    }

move-Roomy :
    {b : Buffer} (len : ℕ)
    → IsValid b
    → len + 8 ≤ (length b.buffer - b.writer) + b.reader
    → Roomy b len (record {
      buffer = overwrite b.buffer 8 (contents b);
      reader = 8;
      writer = 8 + (b.writer - b.reader);
    })
move-Roomy {b} len v h =
    let long = length-overwrite b.buffer 8 (contents b) in
    let held = length-slice b.buffer b.reader (b.writer - b.reader) (omega arith) in
    record {
      same =
          ap (slice (overwrite b.buffer 8 (contents b)) 8) (omega (arith, held))
          ∙ slice-overwrite_self b.buffer 8 (contents b) (omega (arith, held));
      valid = record {
        ordered = omega arith;
        inside = omega (arith, long);
        small = omega (arith, long);
        prependable = omega (arith, long, v.prependable);
      };
      room = omega (arith, long);
    }

-- The three ways in which `ensureWriteableBytes` may go, with its sums and differences not wrapping.
ensure_writeable_bytes_cases :
    {b : Buffer} (len : ℕ)
    → IsValid b
    → b.writer + len < 2 ^ 63
    → ((ensure_writeable_bytes b len ≡ b) × (b.writer + len ≤ length b.buffer))
      ⊎ ((ensure_writeable_bytes b len ≡ record b { buffer = resize b.buffer (b.writer + len) })
          × (length b.buffer ≤ b.writer + len))
      ⊎ ((ensure_writeable_bytes b len ≡ record {
        buffer = overwrite b.buffer 8 (contents b);
        reader = 8;
        writer = 8 + (b.writer - b.reader);
      })
          × (len + 8 ≤ (length b.buffer - b.writer) + b.reader))
unfolding ensure_writeable_bytes make_space
ensure_writeable_bytes_cases {b} len v h = ground arith

pub ensure_writeable_bytes-Roomy :
    {b : Buffer} (len : ℕ)
    → IsValid b
    → b.writer + len < 2 ^ 63
    → Roomy b len (ensure_writeable_bytes b len)
ensure_writeable_bytes-Roomy {b} len v h = elim (ensure_writeable_bytes_cases len v h) [
  | inl (e, k) ↦ rw e (record { same = refl; valid = v; room = k })
  | inr (inl (e, k)) ↦ rw e (grow-Roomy len v h k)
  | inr (inr (e, k)) ↦ rw e (move-Roomy len v k)
]

pub write_at_end-contents :
    {b : Buffer} (xs : Bytes)
    → IsValid b
    → b.writer + length xs ≤ length b.buffer
    → (contents (write_at_end b xs) ≡ contents b ++ xs) × IsValid (write_at_end b xs)
unfolding write_at_end
write_at_end-contents {b} xs v h =
    let new = overwrite b.buffer b.writer xs in
    let long = length-overwrite b.buffer b.writer xs in
    (
      ap (λ e. slice new b.reader (e - b.reader)) (omega arith)
          ∙ slice_add new b.reader b.writer (b.writer - b.reader) (length xs)
              (b.writer + length xs - b.reader) (omega arith) (omega arith)
          ∙ ap₂ ◌++◌
              (slice-overwrite_before b.buffer b.writer xs b.reader (b.writer - b.reader)
                (omega arith))
              (slice-overwrite_self b.buffer b.writer xs h),
      record {
        ordered = omega arith;
        inside = omega (arith, long);
        small = omega (arith, long);
        prependable = omega (arith, long, v.prependable);
      },
    )
