-- ===== src/Utils/CircularQ/Window.antt =====
-- A run of slots of a ring, read from one index on and round its end.
use native.Mathlib.Nat.{mod-add-mod, mod-eq_of_lt, mod-eq-sub-mod, add-zero}
use mcp_server_cpp.Prelude.{
  ℕ, zero, suc, ◌+◌, ◌-◌, ◌%◌, ◌≤◌, ◌<◌, ◌≡◌, ◌≢◌, refl, ap, ap₂, ◌∙◌, List, [], ◌∷◌, ◌++◌, arith,
  length, get_or, set, get_elem?, some, dec_lt,
}

module _ {ℓ} {A : Type ℓ} (d : A) where
  abbrev pub window : List A → ℕ → ℕ → ℕ → List A
  window items m h zero = []
  window items m h (suc n) = get_or items h d ∷ window items m ((h + 1) % m) n

  pub length-window : (items : List A) (m h n : ℕ) → length (window items m h n) ≡ n
  length-window items m h zero = refl
  length-window items m h (suc n) = ap suc (length-window items m ((h + 1) % m) n)

  get_or-set_hit : (xs : List A) (i : ℕ) (v : A) → i < length xs → get_or (set xs i v) i d ≡ v
  get_or-set_hit [] i v h = elim h [ ]
  get_or-set_hit (x ∷ xs) zero v h = refl
  get_or-set_hit (x ∷ xs) (suc i) v h = get_or-set_hit xs i v (omega arith)

  get_or-set_miss :
      (xs : List A) (i j : ℕ) (v : A) → i ≢ j → get_or (set xs i v) j d ≡ get_or xs j d
  get_or-set_miss [] i j v h = refl
  get_or-set_miss (x ∷ xs) zero zero v h = absurd (h refl)
  get_or-set_miss (x ∷ xs) zero (suc j) v h = refl
  get_or-set_miss (x ∷ xs) (suc i) zero v h = refl
  get_or-set_miss (x ∷ xs) (suc i) (suc j) v h = get_or-set_miss xs i j v (λ e. h (ap suc e))

  pub get_elem?_in_range :
      (xs : List A) (i : ℕ) → i < length xs → get_elem? xs i ≡ some (get_or xs i d)
  get_elem?_in_range [] i h = elim h [ ]
  get_elem?_in_range (x ∷ xs) zero h = refl
  get_elem?_in_range (x ∷ xs) (suc i) h = get_elem?_in_range xs i (omega arith)

-- Fewer than `m` steps, but at least one, do not lead back to where they began.
round-ne : (m h k : ℕ) → h < m → suc k < m → (h + suc k) % m ≢ h
round-ne m h k below short = elim (dec_lt (h + suc k) m) [
  | yes p ↦ omega (arith, mod-eq_of_lt p)
  | no p ↦ omega (
    arith,
    mod-eq-sub-mod {n = h + suc k} {m = m} (omega arith),
    mod-eq_of_lt {n = h + suc k - m} {m = m} (omega arith),
  )
]

module _ {ℓ} {A : Type ℓ} (d : A) where
  -- A write to the slot behind a run makes the run longer by the item written.
  pub window-set :
      (items : List A) (m : ℕ) (x : A) (n h i : ℕ)
      → m ≤ length items
      → h < m
      → n < m
      → i ≡ (h + n) % m
      → window d (set items i x) m h (suc n) ≡ window d items m h n ++ (x ∷ [])
  window-set items m x zero h i long below short e =
      let e' : i ≡ h = e ∙ rw add-zero (mod-eq_of_lt below) in
      ap (λ v. v ∷ []) (rw e' (get_or-set_hit d items h x (omega arith)))
  window-set items m x (suc n) h i long below short e =
      ap₂ ◌∷◌ (get_or-set_miss d items i h x (λ q. round-ne m h n below short (omega arith)))
        (window-set items m x n ((h + 1) % m) i long (omega arith) (omega arith) (e ∙ next))
    where
      next : (h + suc n) % m ≡ ((h + 1) % m + n) % m
      next = rw mod-add-mod (ap (λ k. k % m) (omega arith))
