-- ===== src/Prelude/Text.antt =====
-- Bytes of a text, for the code that walks its input character by character.
use Prim.Native.Nat.{ℕ}
use mathlib.Core.Option
use mathlib.Core.Option.{Option, none, some}
use mathlib.Core.Bool.{Bool, true, false, ◌&&◌, ◌||◌}
use mathlib.Core.Path.{◌≡◌, refl}
use mathlib.Core.Logic.{◌↔◌, ◌≢◌, inl, inr}
use native.Mathlib.Omega.{arith}
use mcp_server_cpp.Prelude.Tests.{◌==◌, Option-cases, if◌then◌else◌}
use Prim.Native.Char.{code}
use Prim.Native.String
use Prim.Native.String.{String}
use mathlib.Core.List.{List, [], ◌∷◌, ◌++◌}

abbrev pub Bytes : Type 0
Bytes = List ℕ

-- The text of two texts.
abbrev pub concat : String → String → String
concat s t = String.◌++◌ s t

-- The code points of a literal; these are its bytes when the text is ASCII.
abbrev pub codes : String → Bytes
codes String.[] = []
codes (String.◌∷◌ c s) = code c ∷ codes s

-- The first occurrence of a byte: what stands before it, and what stands behind it.
unfoldable pub cut : ℕ → Bytes → Option (Bytes × Bytes)
cut b [] = none
cut b (c ∷ s) =
    if c == b then some ([], s) else Option.map (λ (p : Bytes × Bytes). (c ∷ p.0, p.1)) (cut b s)

abbrev pub has_byte : ℕ → Bytes → Bool
has_byte b [] = false
has_byte b (c ∷ s) = c == b || has_byte b s

abbrev pub is_empty : Bytes → Bool
is_empty [] = true
is_empty (c ∷ s) = false

-- Equality of two texts.
abbrev pub bytes_eq : Bytes → Bytes → Bool
bytes_eq [] [] = true
bytes_eq (c ∷ s) (d ∷ t) = c == d && bytes_eq s t
bytes_eq _ _ = false

-- The text behind a prefix, if it has that prefix.
unfoldable pub strip_prefix : Bytes → Bytes → Option Bytes
strip_prefix [] s = some s
strip_prefix (b ∷ p) [] = none
strip_prefix (b ∷ p) (c ∷ s) = if c == b then strip_prefix p s else none

abbrev pub Lacks : ℕ → Bytes → Type 0
Lacks b [] = Unit {0}
Lacks b (c ∷ s) = (c ≢ b) × Lacks b s

pub bytes_eq_iff : (s t : Bytes) → (bytes_eq s t ≡ true) ↔ (s ≡ t)
bytes_eq_iff [] [] = (λ e. refl, λ e. refl)
bytes_eq_iff [] (d ∷ t) = (λ e. cc, λ e. cc)
bytes_eq_iff (c ∷ s) [] = (λ e. cc, λ e. cc)
bytes_eq_iff (c ∷ s) (d ∷ t) = ground (arith, bytes_eq_iff s t)

pub has_byte_iff : (b : ℕ) (s : Bytes) → (has_byte b s ≡ false) ↔ Lacks b s
has_byte_iff b [] = (λ e. tt, λ e. refl)
has_byte_iff b (c ∷ s) = ground (arith, has_byte_iff b s)

-- What `cut` finds is the text again, and the part before the byte lacks it.
pub cut-some :
    (b : ℕ) (s before behind : Bytes)
    → cut b s ≡ some (before, behind)
    → (s ≡ before ++ b ∷ behind) × Lacks b before
unfolding cut
cut-some b [] x y e = cc
cut-some b (c ∷ s) x y e = elim (Option-cases (cut b s)) [
  | inl n ↦ ground arith
  | inr (p, f) ↦ ground (arith, cut-some b s p.0 p.1 f)
]

pub strip_prefix-some : (p s rest : Bytes) → strip_prefix p s ≡ some rest → s ≡ p ++ rest
unfolding strip_prefix
strip_prefix-some [] s rest e = ground arith
strip_prefix-some (b ∷ p) [] rest e = cc
strip_prefix-some (b ∷ p) (c ∷ s) rest e = ground (arith, strip_prefix-some p s rest)

pub strip_prefix-append : (p rest : Bytes) → strip_prefix p (p ++ rest) ≡ some rest
unfolding strip_prefix
strip_prefix-append [] rest = refl
strip_prefix-append (b ∷ p) rest = ground (arith, strip_prefix-append p rest)
