-- ===== src/Utils/CircularQ/Refine.antt =====
-- src/utils/circular_q.h against a bounded queue that forgets its oldest item.
use mcp_server_cpp.Prelude.{
  ℕ, zero, suc, ◌+◌, ◌-◌, ◌%◌, ◌≡◌, ◌≢◌, ◌↔◌, refl, sym, ap, ◌∙◌, List, [], ◌∷◌, ◌++◌, some, true,
  false, arith, length, drop, inl, inr, ◌==◌, if◌then◌else◌, Bool-cases, add_size, set, get_or,
}
use mcp_server_cpp.Utils.CircularQ.{
  CircularQ, of_max_items, push_back, front, pop_front, size, capacity, full, empty,
}
use mcp_server_cpp.Utils.CircularQ.Window.{window, length-window, window-set, get_elem?_in_range}
use mcp_server_cpp.Utils.CircularQ.Invariant.{
  IsValid, next_slot, size-lt, tail-size, pop_front-IsValid,
}

-- The queue that the ring stands for: at the bound, a new item drives out the oldest.
unfoldable pub push_bounded {ℓ} : {A : Type ℓ} → ℕ → List A → A → List A
push_bounded cap xs x = if length xs == cap then drop 1 (xs ++ x ∷ []) else xs ++ x ∷ []

module _ {ℓ} {A : Type ℓ} (d : A) where
  -- Oldest first.
  abbrev pub contents : CircularQ A → List A
  contents q = window d q.items q.max_items q.head (size q)

  pub length-contents : (q : CircularQ A) → length (contents q) ≡ size q
  length-contents q = length-window d q.items q.max_items q.head (size q)

  window-suc :
      (items : List A) (m h n : ℕ)
      → n ≢ 0
      → window d items m h n ≡ get_or items h d ∷ window d items m ((h + 1) % m) (n - 1)
  window-suc items m h zero p = absurd (p refl)
  window-suc items m h (suc n) p = ap (λ k. window d items m h (suc k)) (omega arith)

  pub contents-of_max_items : (n : ℕ) → contents (of_max_items d n) ≡ []
  unfolding of_max_items size
  contents-of_max_items n = refl

module _ {ℓ} {A : Type ℓ} where
  pub full_iff : {q : CircularQ A} → IsValid q → (full q ≡ true) ↔ (size q ≡ capacity q)
  unfolding full size capacity
  full_iff {q} v = ground (arith, next_slot q.tail q.max_items)

  pub empty_iff : {q : CircularQ A} → IsValid q → (empty q ≡ true) ↔ (size q ≡ 0)
  unfolding empty size
  empty_iff v = ground arith

  -- When the ring is not full, the new size and the new head.
  push_back-room :
      {q : CircularQ A} (x : A)
      → IsValid q
      → full q ≡ false
      → let r = push_back q x in
        (size r ≡ suc (size q))
        × (r.head ≡ q.head)
        × (r.items ≡ set q.items q.tail x)
        × (r.max_items ≡ q.max_items)
        × (r.overrun_counter ≡ q.overrun_counter)
  unfolding full size push_back
  push_back-room {q} x v e =
      ground (arith, next_slot q.tail q.max_items, next_slot q.head q.max_items)

  push_back-full :
      {q : CircularQ A} (x : A)
      → IsValid q
      → full q ≡ true
      → let r = push_back q x in
        (suc (size r) ≡ q.max_items)
        × (r.head ≡ (q.head + 1) % q.max_items)
        × (r.items ≡ set q.items q.tail x)
        × (r.max_items ≡ q.max_items)
        × (r.overrun_counter ≡ add_size q.overrun_counter 1)
        × (suc (size q) ≡ q.max_items)
  unfolding full size push_back
  push_back-full {q} x v e =
      ground (arith, next_slot q.tail q.max_items, next_slot q.head q.max_items)

  pop_front-next :
      {q : CircularQ A}
      → IsValid q
      → size q ≢ 0
      → (r : CircularQ A) × (pop_front q ≡ some r)
        × (suc (size r) ≡ size q)
        × (r.head ≡ (q.head + 1) % q.max_items)
        × (r.items ≡ q.items)
        × (r.max_items ≡ q.max_items)
        × (r.overrun_counter ≡ q.overrun_counter)
  unfolding size pop_front
  pop_front-next {q} v h = (
    record q { head = add_size q.head 1 % q.max_items },
    ground arith,
    ground (arith, next_slot q.head q.max_items),
    ground arith,
    refl,
    refl,
    refl,
  )

module _ {ℓ} {A : Type ℓ} (d : A) where
  window-cong :
      {items items' : List A} {m m' h h' n n' : ℕ}
      → items ≡ items'
      → m ≡ m'
      → h ≡ h'
      → n ≡ n'
      → window d items m h n ≡ window d items' m' h' n'
  window-cong p q r s = λ i. window d (p i) (q i) (r i) (s i)

  push_bounded-full :
      (cap : ℕ) (xs : List A) (x : A)
      → length xs ≡ cap
      → push_bounded cap xs x ≡ drop 1 (xs ++ x ∷ [])
  unfolding push_bounded
  push_bounded-full cap xs x h = ground arith

  push_bounded-room :
      (cap : ℕ) (xs : List A) (x : A) → length xs ≢ cap → push_bounded cap xs x ≡ xs ++ x ∷ []
  unfolding push_bounded
  push_bounded-room cap xs x h = ground arith

  -- The run of items from the old head on, after the write.
  written :
      {q : CircularQ A} (x : A)
      → IsValid q
      → window d (set q.items q.tail x) q.max_items q.head (suc (size q)) ≡ contents d q ++ x ∷ []
  written {q} x v =
      window-set d q.items q.max_items x (size q) q.head q.tail (omega (arith, v.slots)) v.head_in
        (size-lt v) (tail-size v)

  -- `push_back` on a valid ring leaves the items that the bounded queue holds, and counts an
  -- overrun (modulo 2 ^ 64) exactly when the ring was full.
  pub push_back_refines :
      {q : CircularQ A} (x : A)
      → IsValid q
      → (contents d (push_back q x) ≡ push_bounded (capacity q) (contents d q) x)
        × ((push_back q x).overrun_counter
            ≡ (if full q then add_size q.overrun_counter 1 else q.overrun_counter))
  push_back_refines {q} x v = elim (Bool-cases (full q)) [
    | inl e ↦
        let (s, h, i, m, o, c) = push_back-full x v e in
        (
          window-cong i m h (omega arith)
              ∙ ap (drop 1) (written x v)
              ∙ sym (
                  push_bounded-full (capacity q) (contents d q) x
                    (length-contents d q ∙ (full_iff v).0 e)),
          rw (e, o),
        )
    | inr e ↦
        let (s, h, i, m, o) = push_back-room x v e in
        (
          window-cong i m h s
              ∙ written x v
              ∙ sym (
                  push_bounded-room (capacity q) (contents d q) x
                    (λ l. cc (e, (full_iff v).1 (sym (length-contents d q) ∙ l)))),
          rw (e, o),
        )
  ]

  -- On a valid ring that is not empty, `front` is the oldest item and `pop_front` removes just it.
  pub pop_front_refines :
      {q : CircularQ A} (x : A) (xs : List A)
      → IsValid q
      → contents d q ≡ x ∷ xs
      → (front q ≡ some x)
        × ((r : CircularQ A) × (pop_front q ≡ some r)
            × IsValid r
            × (contents d r ≡ xs)
            × (r.overrun_counter ≡ q.overrun_counter))
  unfolding front
  pop_front_refines {q} x xs v e =
      let some_left : size q ≢ 0 = omega (arith, sym (length-contents d q) ∙ ap length e) in
      let (r, p, s, h, i, m, o) = pop_front-next v some_left in
      let first = window-suc d q.items q.max_items q.head (size q) some_left in
      (
        get_elem?_in_range d q.items q.head (omega (arith, v.slots, v.head_in)) ∙ cc (first, e),
        (
          r,
          p,
          pop_front-IsValid v p,
          window-cong i m h (omega arith) ∙ ap (drop 1) (sym first ∙ e),
          o,
        ),
      )
