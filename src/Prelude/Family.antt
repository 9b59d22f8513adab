-- ===== src/Prelude/Family.antt =====
-- Functions on the native numbers, changed at one argument: a memory, or the state of each thread.
use Prim.Native.Nat.{ℕ}
use mathlib.Core.Logic.{ite, ◌≢◌}
use mathlib.Core.Path.{◌≡◌}
use native.Mathlib.Decide.{ℕ_discrete}

abbrev pub update {ℓ} : {A : Type ℓ} → (ℕ → A) → ℕ → A → ℕ → A
update f at value i = ite (ℕ_discrete i at) value (f i)

-- A property of a value of a changed function: of the new value, or of an old one elsewhere.
pub update-elim {ℓ κ} :
    {A : Type ℓ} (P : A → Type κ) (f : ℕ → A) (at : ℕ) (value : A) (i : ℕ)
    → (i ≡ at → P value)
    → (i ≢ at → P (f i))
    → P (update f at value i)
update-elim P f at value i new old = elim (ℕ_discrete i at) as (λ d. P (ite d value (f i))) [
  | yes e ↦ new e
  | no e ↦ old e
]
