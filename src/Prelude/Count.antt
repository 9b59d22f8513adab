-- ===== src/Prelude/Count.antt =====
-- How often a test holds along a list, and the addresses that an allocator gives.
use Prim.Native.Nat.{ℕ, ◌+◌, ◌≤◌}
use mathlib.Core.Path.{◌≡◌, refl}
use mathlib.Core.Bool.{Bool, true}
use mathlib.Core.List.{List, [], ◌∷◌, ◌++◌, map}
use native.Mathlib.Omega.{arith}
use mcp_server_cpp.Prelude.Tests.{if◌then◌else◌, ◌==◌}
use mcp_server_cpp.Prelude.Lists.{length}

abbrev pub bit : Bool → ℕ
bit b = if b then 1 else 0

unfoldable pub count {ℓ} : {A : Type ℓ} → (A → Bool) → List A → ℕ
count p [] = 0
count p (x ∷ xs) = bit (p x) + count p xs

pub length-count {ℓ} :
    {A : Type ℓ} (p : A → Bool) (l : List A) → ((x : A) → p x ≡ true) → length l ≡ count p l
unfolding count
length-count p [] h = refl
length-count p (x ∷ xs) h = ground (arith, h x, length-count p xs h)

-- A weaker test holds at least as often.
pub count-le {ℓ} :
    {A : Type ℓ} (p q : A → Bool) (l : List A)
    → ((x : A) → p x ≡ true → q x ≡ true)
    → count p l ≤ count q l
unfolding count
count-le p q [] h = omega arith
count-le p q (x ∷ xs) h = ground (arith, h x, count-le p q xs h)

pub count-append {ℓ} :
    {A : Type ℓ} (p : A → Bool) (xs ys : List A) → count p (xs ++ ys) ≡ count p xs + count p ys
unfolding count
count-append p [] ys = omega arith
count-append p (x ∷ xs) ys = omega (arith, count-append p xs ys)

pub count-map {ℓ κ} :
    {A : Type ℓ} {B : Type κ} (p : B → Bool) (f : A → B) (l : List A)
    → count p (map f l) ≡ count (λ x. p (f x)) l
unfolding count
count-map p f [] = refl
count-map p f (x ∷ xs) = omega (arith, count-map p f xs)

-- What the allocator gives is none of the addresses in use.
abbrev pub IsAllocator : (ℕ → List ℕ → ℕ) → Type 0
IsAllocator allocate = (n : ℕ) (l : List ℕ) → count (λ a. a == allocate n l) l ≡ 0

-- An allocator that goes past every address in use.
abbrev pub next_free : ℕ → List ℕ → ℕ
next_free n [] = 1
next_free n (a ∷ l) = next_free n l + a

next_free-positive : (n : ℕ) (l : List ℕ) → 1 ≤ next_free n l
next_free-positive n [] = omega arith
next_free-positive n (a ∷ l) = omega (arith, next_free-positive n l)

next_free-above : (n v : ℕ) (l : List ℕ) → next_free n l ≤ v → count (λ b. b == v) l ≡ 0
unfolding count
next_free-above n v [] h = refl
next_free-above n v (a ∷ l) h =
    ground (arith, next_free-positive n l, next_free-above n v l (omega (arith, h)))

pub next_free-fresh : IsAllocator next_free
next_free-fresh n l = next_free-above n (next_free n l) l (omega arith)
