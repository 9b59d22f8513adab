-- ===== src/Net/Endian.antt =====
-- src/net/base/endian.h on a little-endian machine, for the widths of two, four and eight bytes.
-- An integer of `w` bytes is its bit pattern, below 256 ^ w, whether it is signed or not. `bswap_16`,
-- `bswap_32` and `bswap_64` of the C library reverse the bytes of the pattern.
use native.Mathlib.Nat.{pow-suc}
use mathlib.Core.List.{reverse, reverse-reverse, reverse-cons}
use mcp_server_cpp.Prelude.{
  ℕ, zero, suc, ◌+◌, ◌*◌, ◌/◌, ◌%◌, ◌^◌, ◌<◌, ◌≡◌, refl, ap, ap₂, ◌∙◌, [], ◌∷◌, ◌++◌, arith, Bytes,
  length, length-append, sym,
}

-- The bytes of an integer in memory, and the integer that `memcpy` reads from them.
unfoldable pub le_bytes : ℕ → ℕ → Bytes
le_bytes zero v = []
le_bytes (suc w) v = (v % 256) ∷ le_bytes w (v / 256)

unfoldable pub le_value : Bytes → ℕ
le_value [] = 0
le_value (b ∷ bs) = b + 256 * le_value bs

-- `byteswapOnLittleEndian`: here it always swaps.
unfoldable pub byteswap : ℕ → ℕ → ℕ
byteswap w v = le_value (reverse (le_bytes w v))

abbrev pub AreBytes : Bytes → Type 0
AreBytes [] = Unit {0}
AreBytes (b ∷ bs) = (b < 256) × AreBytes bs

-- The network order of an integer: its highest byte first.
abbrev pub be_bytes : ℕ → ℕ → Bytes
be_bytes w v = reverse (le_bytes w v)

pub length-le_bytes : (w v : ℕ) → length (le_bytes w v) ≡ w
unfolding le_bytes
length-le_bytes zero v = refl
length-le_bytes (suc w) v = ap suc (length-le_bytes w (v / 256))

le_bytes-AreBytes : (w v : ℕ) → AreBytes (le_bytes w v)
unfolding le_bytes
le_bytes-AreBytes zero v = tt
le_bytes-AreBytes (suc w) v = (omega arith, le_bytes-AreBytes w (v / 256))

AreBytes-append : (xs ys : Bytes) → AreBytes xs → AreBytes ys → AreBytes (xs ++ ys)
AreBytes-append [] ys h k = k
AreBytes-append (x ∷ xs) ys h k = (h.0, AreBytes-append xs ys h.1 k)

reverse-AreBytes : (xs : Bytes) → AreBytes xs → AreBytes (reverse xs)
reverse-AreBytes [] h = tt
reverse-AreBytes (x ∷ xs) h =
    rw (reverse-cons x xs)
      (AreBytes-append (reverse xs) (x ∷ []) (reverse-AreBytes xs h.1) (h.0, tt))

pub length-reverse : (xs : Bytes) → length (reverse xs) ≡ length xs
length-reverse [] = refl
length-reverse (x ∷ xs) =
    ap length (reverse-cons x xs)
    ∙ length-append (reverse xs) (x ∷ [])
    ∙ omega (arith, length-reverse xs)

pub le_value-le_bytes : (w v : ℕ) → v < 256 ^ w → le_value (le_bytes w v) ≡ v
unfolding le_bytes le_value
le_value-le_bytes zero v h = omega arith
le_value-le_bytes (suc w) v h =
    omega (arith, le_value-le_bytes w (v / 256) (omega (arith, h, pow-suc 256 w)))

le_bytes-le_value : (bs : Bytes) → AreBytes bs → le_bytes (length bs) (le_value bs) ≡ bs
unfolding le_bytes le_value
le_bytes-le_value [] h = refl
le_bytes-le_value (b ∷ bs) (hb, hs) =
    ap₂ ◌∷◌ (omega arith) (ap (le_bytes (length bs)) (omega arith) ∙ le_bytes-le_value bs hs)

-- In memory a swapped integer has the bytes of the integer in the other order.
pub le_bytes-byteswap : (w v : ℕ) → le_bytes w (byteswap w v) ≡ be_bytes w v
unfolding byteswap
le_bytes-byteswap w v =
    ap (λ n. le_bytes n (le_value (be_bytes w v)))
      (sym (length-reverse (le_bytes w v) ∙ length-le_bytes w v))
    ∙ le_bytes-le_value (be_bytes w v) (reverse-AreBytes (le_bytes w v) (le_bytes-AreBytes w v))

-- Swapping the bytes of an integer of `w` bytes twice gives it back.
pub byteswap-byteswap : (w v : ℕ) → v < 256 ^ w → byteswap w (byteswap w v) ≡ v
byteswap-byteswap w v h =
    unfold byteswap in
    ap (λ bs. le_value (reverse bs)) (le_bytes-byteswap w v)
    ∙ ap le_value (reverse-reverse (le_bytes w v))
    ∙ le_value-le_bytes w v h
