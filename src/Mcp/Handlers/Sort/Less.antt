-- ===== src/Mcp/Handlers/Sort/Less.antt =====
-- src/mcp/server/McpMethodHandlers.cc: the order of the texts by which the lists are sorted.
use Prim.Native.Nat.{Ordering}
use Prim.Native.String.{String, compare}
use Prim.Native.String.compare
use package.text.Mathlib.TextEquality.{path_by_compare}
use package.text.Mathlib.TextPositions.{compare_refl}
use mcp_server_cpp.Prelude.{◌≡◌, ◌≢◌, sym, ◌∙◌, true, false, arith}
use mcp_server_cpp.Mcp.Handlers.Sort.{less}

compare_flip : (s t : String) → compare s t ≡ Ordering.gt → compare t s ≡ Ordering.lt
compare_flip String.[] String.[] e = let h = sym (λ i. compare.nil-nil i) ∙ e in cc
compare_flip String.[] (String.◌∷◌ d t) e = let h = sym (compare.nil-cons d t) ∙ e in cc
compare_flip (String.◌∷◌ c s) String.[] e = compare.nil-cons c s
compare_flip (String.◌∷◌ c s) (String.◌∷◌ d t) e =
    let h = sym (compare.cons-cons c d s t) ∙ e in
    compare.cons-cons d c t s ∙ ground (arith, compare_flip s t)

compare_lt_trans :
    (s t u : String)
    → compare s t ≡ Ordering.lt
    → compare t u ≡ Ordering.lt
    → compare s u ≡ Ordering.lt
compare_lt_trans String.[] String.[] u e f = f
compare_lt_trans String.[] (String.◌∷◌ d t) String.[] e f =
    let h = sym (compare.cons-nil d t) ∙ f in cc
compare_lt_trans String.[] (String.◌∷◌ d t) (String.◌∷◌ c u) e f = compare.nil-cons c u
compare_lt_trans (String.◌∷◌ c s) String.[] u e f = let h = sym (compare.cons-nil c s) ∙ e in cc
compare_lt_trans (String.◌∷◌ c s) (String.◌∷◌ d t) String.[] e f =
    let h = sym (compare.cons-nil d t) ∙ f in cc
compare_lt_trans (String.◌∷◌ b s) (String.◌∷◌ c t) (String.◌∷◌ d u) e f =
    let h = sym (compare.cons-cons b c s t) ∙ e in
    let k = sym (compare.cons-cons c d t u) ∙ f in
    compare.cons-cons b d s u ∙ ground (arith, compare_lt_trans s t u)

-- Of two different texts the one that is not less is greater.
pub less_flip : (s t : String) → less s t ≡ false → s ≢ t → less t s ≡ true
less_flip s t e n = ground (arith, path_by_compare s t, compare_flip s t)

pub less_trans : (s t u : String) → less s t ≡ true → less t u ≡ true → less s u ≡ true
less_trans s t u e f = ground (arith, compare_lt_trans s t u)

pub less_asymm : (s t : String) → less s t ≡ true → less t s ≡ false
less_asymm s t e = ground (arith, less_trans t s t, compare_refl t)

-- What is less than one text and not less than another is, separates the two.
pub less_cross : (b c a : String) → less c b ≡ false → less c a ≡ true → less b a ≡ true
less_cross b c a e f = ground (arith, path_by_compare c b, compare_flip c b, less_trans b c a)
