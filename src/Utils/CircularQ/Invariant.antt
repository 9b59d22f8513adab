-- ===== src/Utils/CircularQ/Invariant.antt =====
-- src/utils/circular_q.h: the representation invariant of the ring and what it rules out.
use native.Mathlib.Nat.{mod-eq_of_lt}
use mcp_server_cpp.Prelude.{
  ℕ, ◌+◌, ◌%◌, ◌^◌, ◌<◌, ◌≡◌, some, arith, length, length-set, length-replicate, ◌⊎◌, suc, dec_lt,
  sym, ap, ◌∙◌, inl, inr, leb, Bool-cases, add_size,
}
use mcp_server_cpp.Utils.CircularQ.{CircularQ, of_max_items, push_back, pop_front, size, capacity}

once_round : (t m : ℕ) → t < m → (t + m) % m ≡ t
once_round t m h = grind arith

-- The slot behind slot `t`: the first one, or the next.
pub next_slot :
    (t m : ℕ) → t < m → ((suc t ≡ m) × ((t + 1) % m ≡ 0)) ⊎ ((suc t < m) × ((t + 1) % m ≡ t + 1))
next_slot t m h = elim (dec_lt (t + 1) m) [
  | yes p ↦ inr (omega arith, mod-eq_of_lt p)
  | no p ↦ inl (omega arith, ap (λ k. k % m) (omega arith) ∙ once_round 0 m (omega arith))
]

-- The ring has a slot, as many as its vector, and both indices are slots.
pub record IsValid {ℓ} {A : Type ℓ} (q : CircularQ A) : Type ℓ where
  pub slots : length q.items ≡ q.max_items
  pub small : q.max_items < 2 ^ 64
  pub head_in : q.head < q.max_items
  pub tail_in : q.tail < q.max_items

module _ {ℓ} {A : Type ℓ} where
  pub of_max_items-IsValid : (d : A) (n : ℕ) → n + 1 < 2 ^ 64 → IsValid (of_max_items d n)
  unfolding of_max_items
  of_max_items-IsValid d n h = record {
    slots = length-replicate (add_size n 1) d;
    small = omega arith;
    head_in = omega arith;
    tail_in = omega arith;
  }

  -- `push_back` keeps a valid ring valid: both indexes stay slots of its vector.
  pub push_back-IsValid : {q : CircularQ A} (x : A) → IsValid q → IsValid (push_back q x)
  unfolding push_back
  push_back-IsValid {q} x v = ground (arith, length-set q.items q.tail x)

  pub pop_front-IsValid : {q r : CircularQ A} → IsValid q → pop_front q ≡ some r → IsValid r
  unfolding pop_front
  pop_front-IsValid v e = ground arith

  pub size-lt : {q : CircularQ A} → IsValid q → size q < q.max_items
  unfolding size
  size-lt v = ground arith

  pub capacity-valid : {q : CircularQ A} → IsValid q → capacity q + 1 ≡ q.max_items
  unfolding capacity
  capacity-valid v = omega arith

  -- The tail is the slot behind the last item.
  pub tail-size : {q : CircularQ A} → IsValid q → q.tail ≡ (q.head + size q) % q.max_items
  unfolding size
  tail-size {q} v = elim (Bool-cases (leb q.head q.tail)) [
    | inl e ↦ rw e (sym (ap (λ k. k % q.max_items) (ground arith) ∙ mod-eq_of_lt v.tail_in))
    | inr e ↦
        rw e
          (sym (ap (λ k. k % q.max_items) (ground arith) ∙ once_round q.tail q.max_items v.tail_in))
  ]

  pub capacity-push_back :
      {q : CircularQ A} (x : A) → IsValid q → capacity (push_back q x) ≡ capacity q
  unfolding capacity push_back
  capacity-push_back x v = ground arith

  pub capacity-pop_front : (q r : CircularQ A) → pop_front q ≡ some r → capacity r ≡ capacity q
  unfolding capacity pop_front
  capacity-pop_front q r e = ground arith
