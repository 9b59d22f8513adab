-- ===== src/Mcp/Validator/Sample.antt =====
-- What the validator needs besides `Json`, for the sample library: numbers that are not negative, and
-- no patterns. A value that is no list of others is its own only item, as in the JSON library.
use Prim.Native.String.{String}
use package.text.Mathlib.Text.{◌==◌}
use mathlib.Core.List.{Memᴰ}
use mcp_server_cpp.Prelude.{
  ℕ, zero, suc, concat, ◌+◌, ◌≤◌, ◌<◌, ◌≡◌, ap, Bool-cases, inl, inr, false, Option, none, some,
  List, [], ◌∷◌, ltb, arith,
}
use mcp_server_cpp.Mcp.Json.{pos}
use mcp_server_cpp.Mcp.Json.Sample.{
  Value, Fields, Items, nothing, arr, flag, num, text, obj, no_items, item, end, field, lookup,
  member, elements, sample,
}
use mcp_server_cpp.Mcp.Validator.{Schemas}

unfoldable mutual
  pub depth : Value → ℕ
  depth (obj fs) = suc (total fs)
  depth (arr vs) = suc (total_items vs)
  depth _ = 0

  pub total_items : Items → ℕ
  total_items no_items = 0
  total_items (item v vs) = depth v + total_items vs

  pub total : Fields → ℕ
  total end = 0
  total (field k v fs) = depth v + total fs

abbrev pub get_double : Value → Option ℕ
get_double (num (pos n)) = some n
get_double _ = none

abbrev pub pairs : Fields → List (String × Value)
pairs end = []
pairs (field k v fs) = (k, v) ∷ pairs fs

-- A text for each number.
abbrev pub to_string : ℕ → String
to_string zero = "0"
to_string (suc n) = concat "0+" (to_string n)

abbrev pub indexed : ℕ → Items → List (String × Value)
indexed i no_items = []
indexed i (item v vs) = (to_string i, v) ∷ indexed (suc i) vs

abbrev pub items : Value → List (String × Value)
items (obj fs) = pairs fs
items (arr vs) = indexed 0 vs
items nothing = []
items v = ("", v) ∷ []

abbrev values : Fields → List Value
values end = []
values (field k v fs) = v ∷ values fs

abbrev pub iterate : Value → List Value
iterate (obj fs) = values fs
iterate (arr vs) = elements (arr vs)
iterate nothing = []
iterate v = v ∷ []

lookup-total : (fs : Fields) (k : String) (x : Value) → lookup fs k ≡ some x → depth x ≤ total fs
unfolding depth total
lookup-total end k x e = cc
lookup-total (field j v fs) k x e = elim (Bool-cases (j == k)) [
  | inl y ↦ let same : v ≡ x = ground arith in omega (arith, ap depth same)
  | inr n ↦ omega (arith, lookup-total fs k x (ground arith))
]

pairs-total : (fs : Fields) (k : String) (x : Value) → Memᴰ (k, x) (pairs fs) → depth x ≤ total fs
unfolding depth total
pairs-total end k x m = elim m [ ]
pairs-total (field j v fs) k x m = elim m [
  | Memᴰ.head p ↦ omega (arith, ap (λ z. depth z.1) p)
  | Memᴰ.tail m' ↦ omega (arith, pairs-total fs k x m')
]

pub depth-lookup : (v : Value) (k : String) (x : Value) → member v k ≡ some x → depth x < depth v
unfolding depth
depth-lookup (obj fs) k x e = omega (arith, lookup-total fs k x e)
depth-lookup nothing k x e = cc
depth-lookup _ k x e = cc

indexed-total :
    (i : ℕ) (vs : Items) (k : String) (x : Value)
    → Memᴰ {A = String × Value} (k, x) (indexed i vs)
    → depth x ≤ total_items vs
unfolding depth total_items
indexed-total i no_items k x m = elim m [ ]
indexed-total i (item v vs) k x m = elim m [
  | Memᴰ.head p ↦ omega (arith, ap (λ z. depth z.1) p)
  | Memᴰ.tail m' ↦ omega (arith, indexed-total (suc i) vs k x m')
]

itself :
    (v : Value) (k : String) (x : Value)
    → Memᴰ {A = String × Value} (k, x) (("", v) ∷ [])
    → depth x ≤ depth v
itself v k x m = elim m [
  | Memᴰ.head p ↦ omega (arith, ap (λ z. depth z.1) p)
  | Memᴰ.tail m' ↦ elim m' [ ]
]

pub depth-pairs : (v : Value) (k : String) (x : Value) → Memᴰ (k, x) (items v) → depth x ≤ depth v
unfolding depth
depth-pairs (obj fs) k x m = omega (arith, pairs-total fs k x m)
depth-pairs (arr vs) k x m = omega (arith, indexed-total 0 vs k x m)
depth-pairs nothing k x m = elim m [ ]
depth-pairs (flag b) k x m = itself (flag b) k x m
depth-pairs (num n) k x m = itself (num n) k x m
depth-pairs (text s) k x m = itself (text s) k x m

abbrev pub schemas : (parse : String → Option Value) → Schemas (sample parse)
schemas parse = record {
  Double = ℕ;
  get_double = get_double;
  less = ltb;
  items = items;
  iterate = iterate;
  same = λ a b. false;
  matches = λ p s. none;
  type_name = λ v. "value";
  to_string = to_string;
  depth = depth;
  depth-member = depth-lookup;
  depth-items = depth-pairs;
}
