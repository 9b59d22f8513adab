-- ===== src/Utils/BoundedQueue/Capacity.antt =====
-- src/utils/mpmc_bounded_queue.h: the constructor rounds the capacity up to a power of two.
use native.Mathlib.Nat.{mul_assoc, mul_comm, le-mul_of_pos_right}
use mcp_server_cpp.Prelude.{
  ℕ, zero, suc, ◌*◌, ◌%◌, ◌≤◌, ◌<◌, ◌^◌, ◌≡◌, ◌⊎◌, inl, inr, refl, ap, ◌∙◌, none, some, arith,
  dec_lt,
}
use mcp_server_cpp.Utils.BoundedQueue.{round_up}

-- The powers of two.
abbrev pub power : ℕ → ℕ
power zero = 1
power (suc k) = 2 * power k

-- What a capacity is rounded up to.
abbrev pub IsRounded : ℕ → ℕ → Type 0
IsRounded wanted r = ((k : ℕ) × (r ≡ power (suc k))) × (wanted ≤ r) × ((r ≡ 2) ⊎ (r < 2 * wanted))

power-one_le : (k : ℕ) → 1 ≤ power k
power-one_le zero = omega arith
power-one_le (suc k) = omega (arith, power-one_le k)

-- A doubling that does not wrap.
doubled :
    (p m : ℕ) → p * power (suc m) ≡ 2 ^ 63 → (p * 2 % 2 ^ 64 ≡ p * 2) × (p * 2 * power m ≡ 2 ^ 63)
doubled p m e =
    let whole : p * 2 * power m ≡ 2 ^ 63 = mul_assoc p 2 (power m) ∙ e in
    let small : p * 2 ≤ p * 2 * power m = le-mul_of_pos_right (p * 2) (power-one_le m) in
    (omega (arith, whole, small), whole)

-- From one power of two, while there is room for the doublings that are left.
climb :
    (m k p wanted : ℕ)
    → p ≡ power (suc k)
    → p * power m ≡ 2 ^ 63
    → wanted ≤ 2 ^ 63
    → (p ≡ 2) ⊎ (p < 2 * wanted)
    → (r : ℕ) × (round_up (suc m) p wanted ≡ some r) × IsRounded wanted r
unfolding round_up
climb zero k p wanted at e le ok = (p, ground arith, ((k, at), omega arith, ok))
climb (suc m) k p wanted at e le ok = elim (dec_lt p wanted) [
  | no enough ↦ (p, ground arith, ((k, at), omega arith, ok))
  | yes more ↦
      let (fits, whole) = doubled p m e in
      let (r, f, g) =
        climb m (suc k) (p * 2) wanted (ap (λ i. i * 2) at ∙ mul_comm (power (suc k)) 2) whole le
          (inr (omega arith)) in
      (r, ground (arith, f), g)
]

-- A capacity of at most 2 ^ 63 is rounded up: the loop of the constructor ends after 63 doublings
-- at most, with a power of two that is at least two, holds the capacity and is below its double
-- unless it is two.
pub round_up-IsRounded :
    (wanted : ℕ) → wanted ≤ 2 ^ 63 → (r : ℕ) × (round_up 63 2 wanted ≡ some r) × IsRounded wanted r
round_up-IsRounded wanted le = climb 62 0 2 wanted refl refl le (inl refl)

-- The doublings of a power of two, where the last one wraps to zero.
stuck :
    (fuel m p wanted : ℕ)
    → (p ≡ 0) ⊎ (p * power m ≡ 2 ^ 63)
    → 2 ^ 63 < wanted
    → round_up fuel p wanted ≡ none
unfolding round_up
stuck zero m p wanted at far = refl
stuck (suc fuel) m p wanted (inl z) far =
    ground (arith, stuck fuel m (p * 2 % 2 ^ 64) wanted (inl (omega arith)) far)
stuck (suc fuel) zero p wanted (inr e) far =
    ground (arith, stuck fuel zero (p * 2 % 2 ^ 64) wanted (inl (omega arith)) far)
stuck (suc fuel) (suc m) p wanted (inr e) far =
    let (fits, whole) = doubled p m e in
    let small : p ≤ p * power (suc m) = le-mul_of_pos_right p (power-one_le (suc m)) in
    ground (arith, stuck fuel m (p * 2) wanted (inr whole) far)

-- A capacity above 2 ^ 63 is never rounded up, whatever the number of iterations: the power of two
-- wraps to zero and the loop of the constructor does not end.
pub round_up-diverges : (fuel wanted : ℕ) → 2 ^ 63 < wanted → round_up fuel 2 wanted ≡ none
round_up-diverges fuel wanted far = stuck fuel 62 2 wanted (inr refl) far
