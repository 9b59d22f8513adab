-- ===== src/Net/Buffer/Region.antt =====
-- src/net/Buffer.h: what copying into a vector leaves of its regions.
use mcp_server_cpp.Prelude.{
  ℕ, zero, suc, ◌+◌, ◌-◌, ◌≤◌, ◌≡◌, refl, ap, ◌∙◌, sym, [], ◌∷◌, ◌++◌, arith, Bytes, length, take,
  drop, length-append, length-take, length-drop, replicate, length-replicate,
}
use mcp_server_cpp.Net.Buffer.{overwrite, slice, resize}

pub length-overwrite : (xs : Bytes) (i : ℕ) (ds : Bytes) → length (overwrite xs i ds) ≡ length xs
unfolding overwrite
length-overwrite [] i ds = refl
length-overwrite (x ∷ xs) zero [] = refl
length-overwrite (x ∷ xs) zero (d ∷ ds) = ap suc (length-overwrite xs zero ds)
length-overwrite (x ∷ xs) (suc i) ds = ap suc (length-overwrite xs i ds)

-- The bytes written stand where they were written.
pub slice-overwrite_self :
    (xs : Bytes) (i : ℕ) (ds : Bytes)
    → i + length ds ≤ length xs
    → slice (overwrite xs i ds) i (length ds) ≡ ds
unfolding overwrite
slice-overwrite_self [] zero [] h = refl
slice-overwrite_self [] zero (d ∷ ds) h = absurd (omega arith)
slice-overwrite_self [] (suc i) ds h = absurd (omega arith)
slice-overwrite_self (x ∷ xs) zero [] h = refl
slice-overwrite_self (x ∷ xs) zero (d ∷ ds) h =
    ap (λ l. d ∷ l) (slice-overwrite_self xs zero ds (omega arith))
slice-overwrite_self (x ∷ xs) (suc i) ds h = slice-overwrite_self xs i ds (omega arith)

-- A region in front of the bytes written stays as it was.
pub slice-overwrite_before :
    (xs : Bytes) (i : ℕ) (ds : Bytes) (j n : ℕ)
    → j + n ≤ i
    → slice (overwrite xs i ds) j n ≡ slice xs j n
unfolding overwrite
slice-overwrite_before [] i ds j n h = refl
slice-overwrite_before (x ∷ xs) zero ds zero zero h = refl
slice-overwrite_before (x ∷ xs) zero ds (suc j) n h = absurd (omega arith)
slice-overwrite_before (x ∷ xs) zero ds zero (suc n) h = absurd (omega arith)
slice-overwrite_before (x ∷ xs) (suc i) ds zero zero h = refl
slice-overwrite_before (x ∷ xs) (suc i) ds zero (suc n) h =
    ap (λ l. x ∷ l) (slice-overwrite_before xs i ds zero n (omega arith))
slice-overwrite_before (x ∷ xs) (suc i) ds (suc j) n h =
    slice-overwrite_before xs i ds j n (omega arith)

-- A region behind the bytes written stays as it was.
pub slice-overwrite_behind :
    (xs : Bytes) (i : ℕ) (ds : Bytes) (j n : ℕ)
    → i + length ds ≤ j
    → slice (overwrite xs i ds) j n ≡ slice xs j n
unfolding overwrite
slice-overwrite_behind [] i ds j n h = refl
slice-overwrite_behind (x ∷ xs) zero [] j n h = refl
slice-overwrite_behind (x ∷ xs) zero (d ∷ ds) zero n h = absurd (omega arith)
slice-overwrite_behind (x ∷ xs) zero (d ∷ ds) (suc j) n h =
    slice-overwrite_behind xs zero ds j n (omega arith)
slice-overwrite_behind (x ∷ xs) (suc i) ds zero n h = absurd (omega arith)
slice-overwrite_behind (x ∷ xs) (suc i) ds (suc j) n h =
    slice-overwrite_behind xs i ds j n (omega arith)

take-nil : (n : ℕ) → take {A = ℕ} n [] ≡ []
take-nil zero = refl
take-nil (suc n) = refl

drop-nil : (n : ℕ) → drop {A = ℕ} n [] ≡ []
drop-nil zero = refl
drop-nil (suc n) = refl

take_add : (xs : Bytes) (m n k : ℕ) → k ≡ m + n → take k xs ≡ take m xs ++ take n (drop m xs)
take_add xs zero n k e = ap (λ j. take j xs) (omega arith)
take_add xs (suc m) n zero e = absurd (omega arith)
take_add [] (suc m) n (suc k) e = sym (take-nil n)
take_add (x ∷ xs) (suc m) n (suc k) e = ap (λ l. x ∷ l) (take_add xs m n k (omega arith))

pub drop-drop : (xs : Bytes) (m n k : ℕ) → k ≡ m + n → drop n (drop m xs) ≡ drop k xs
drop-drop xs zero n k e = ap (λ j. drop j xs) (omega arith)
drop-drop xs (suc m) n zero e = absurd (omega arith)
drop-drop [] (suc m) n (suc k) e = drop-nil n
drop-drop (x ∷ xs) (suc m) n (suc k) e = drop-drop xs m n k (omega arith)

-- Two regions side by side are one.
pub slice_add :
    (xs : Bytes) (i j m n k : ℕ)
    → j ≡ i + m
    → k ≡ m + n
    → slice xs i k ≡ slice xs i m ++ slice xs j n
slice_add xs i j m n k e f =
    take_add (drop i xs) m n k f ∙ ap (λ l. slice xs i m ++ take n l) (drop-drop xs i m j e)

take-take : (xs : Bytes) (m n k : ℕ) → k ≡ m + n → take m (take k xs) ≡ take m xs
take-take xs zero n k e = refl
take-take xs (suc m) n zero e = absurd (omega arith)
take-take [] (suc m) n (suc k) e = refl
take-take (x ∷ xs) (suc m) n (suc k) e = ap (λ l. x ∷ l) (take-take xs m n k (omega arith))

drop-take : (xs : Bytes) (m n k : ℕ) → k ≡ m + n → drop m (take k xs) ≡ take n (drop m xs)
drop-take xs zero n k e = ap (λ j. take j xs) (omega arith)
drop-take xs (suc m) n zero e = absurd (omega arith)
drop-take [] (suc m) n (suc k) e = sym (take-nil n)
drop-take (x ∷ xs) (suc m) n (suc k) e = drop-take xs m n k (omega arith)

-- The first bytes of a region, and the region without them.
pub take-slice : (xs : Bytes) (i m k : ℕ) → m ≤ k → take m (slice xs i k) ≡ slice xs i m
take-slice xs i m k h = take-take (drop i xs) m (k - m) k (omega arith)

pub drop-slice :
    (xs : Bytes) (i j m n k : ℕ) → j ≡ i + m → k ≡ m + n → drop m (slice xs i k) ≡ slice xs j n
drop-slice xs i j m n k e f =
    drop-take (drop i xs) m n k f ∙ ap (λ l. take n l) (drop-drop xs i m j e)

pub take_all : (xs : Bytes) (n : ℕ) → length xs ≤ n → take n xs ≡ xs
take_all [] n h = take-nil n
take_all (x ∷ xs) zero h = absurd (omega arith)
take_all (x ∷ xs) (suc n) h = ap (λ l. x ∷ l) (take_all xs n (omega arith))

pub drop_all : (xs : Bytes) (n : ℕ) → length xs ≤ n → drop n xs ≡ []
drop_all [] n h = drop-nil n
drop_all (x ∷ xs) zero h = absurd (omega arith)
drop_all (x ∷ xs) (suc n) h = drop_all xs n (omega arith)

pub length-slice : (xs : Bytes) (i n : ℕ) → i + n ≤ length xs → length (slice xs i n) ≡ n
length-slice xs i n h = omega (arith, length-take n (drop i xs), length-drop i xs)

slice-append : (xs ys : Bytes) (j n : ℕ) → j + n ≤ length xs → slice (xs ++ ys) j n ≡ slice xs j n
slice-append xs ys zero zero h = refl
slice-append [] ys zero (suc n) h = absurd (omega arith)
slice-append (x ∷ xs) ys zero (suc n) h = ap (λ l. x ∷ l) (slice-append xs ys zero n (omega arith))
slice-append [] ys (suc j) n h = absurd (omega arith)
slice-append (x ∷ xs) ys (suc j) n h = slice-append xs ys j n (omega arith)

-- Growing a vector gives it the new length and keeps the bytes that it held.
pub length-resize : (xs : Bytes) (n : ℕ) → length xs ≤ n → length (resize xs n) ≡ n
unfolding resize
length-resize xs n h = omega (
  arith,
  length-take n (xs ++ replicate (n - length xs) 0),
  length-append xs (replicate (n - length xs) 0),
  length-replicate {A = ℕ} (n - length xs) 0,
)

pub slice-resize :
    (xs : Bytes) (m j n : ℕ)
    → length xs ≤ m
    → j + n ≤ length xs
    → slice (resize xs m) j n ≡ slice xs j n
unfolding resize
slice-resize xs m j n h k =
    ap (λ l. slice l j n) (take_all (xs ++ replicate (m - length xs) 0) m grown)
    ∙ slice-append xs (replicate (m - length xs) 0) j n k
  where
    grown : length (xs ++ replicate (m - length xs) 0) ≤ m
    grown = omega (
      arith,
      length-append xs (replicate (m - length xs) 0),
      length-replicate {A = ℕ} (m - length xs) 0,
    )
