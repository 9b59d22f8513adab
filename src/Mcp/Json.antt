-- ===== src/Mcp/Json.antt =====
-- The JSON library that src/mcp calls (nlohmann::json) is not part of the repository: it is a record
-- of the operations that the code uses, with the laws that its documentation states. A thrown
-- exception is `none` in the record and `thrown` in the code.
pub mod Build
pub mod Sample
use Prim.Native.String.{String}
use text.Mathlib.Text.{◌==◌}
use mcp_server_cpp.Prelude.{
  ℕ, ◌<◌, ◌^◌, ◌≡◌, ◌≢◌, ◌↔◌, ◌⊎◌, inl, inr, refl, Bool, true, false, ◌||◌, Option, none, some,
  List, [], ◌∷◌, map, if◌then◌else◌,
}

-- `value_t`
pub data Kind : Type 0 where
  null object array string boolean number_integer number_unsigned number_float : Kind
  binary discarded : Kind

-- `negsuc n` is -(n + 1).
pub data ℤ : Type 0 where
  pos negsuc : ℕ → ℤ

-- The values of `int`.
abbrev pub FitsInt : ℤ → Type 0
FitsInt (pos n) = n < 2 ^ 31
FitsInt (negsuc n) = n < 2 ^ 31

-- `int64_t`
abbrev pub FitsInt64 : ℤ → Type 0
FitsInt64 (pos n) = n < 2 ^ 63
FitsInt64 (negsuc n) = n < 2 ^ 63

abbrev pub Int64 : Type 0
Int64 = (n : ℤ) × FitsInt64 n

abbrev pub is_object : Kind → Bool
is_object object = true
is_object _ = false

abbrev pub is_array : Kind → Bool
is_array array = true
is_array _ = false

abbrev pub is_string : Kind → Bool
is_string string = true
is_string _ = false

abbrev pub is_null : Kind → Bool
is_null null = true
is_null _ = false

abbrev pub is_boolean : Kind → Bool
is_boolean boolean = true
is_boolean _ = false

-- `is_number_integer`, which holds of unsigned numbers too.
abbrev pub is_number_integer : Kind → Bool
is_number_integer number_integer = true
is_number_integer number_unsigned = true
is_number_integer _ = false

-- What `operator[]` with a key can assign to.
abbrev pub can_hold : Kind → Bool
can_hold object = true
can_hold null = true
can_hold _ = false

pub record Json : Type 1 where
  pub Value : Type 0
  -- `type()`
  pub kind : Value → Kind
  -- `contains(key)` and `operator[](key)` on a constant value
  pub member : Value → String → Option Value
  -- `get<std::string>()`, `get<int64_t>()` and `get<int>()`
  pub get_string : Value → Option String
  pub get_int64 : Value → Option Int64
  pub get_int : Value → Option ℤ
  -- `get<bool>()`
  pub get_bool : Value → Option Bool
  -- The items of an array, in order.
  pub elements : Value → List Value
  -- `value == "text"`
  pub equals_text : Value → String → Bool
  -- `empty()`, which holds of null, and of arrays and objects without items
  pub is_empty : Value → Bool
  -- `json(nullptr)`, `json::object()` and the conversions
  pub null_value : Value
  pub empty_object : Value
  pub of_string : String → Value
  pub of_int : ℤ → Value
  pub of_bool : Bool → Value
  pub of_texts : List String → Value
  -- `json::array()` with items pushed to its end
  pub of_items : List Value → Value
  -- `value[key] = item`, on an object or null
  pub set : Value → String → Value → Value
  -- `json::parse`, which gives nothing where it throws: an `out_of_range` exception, for a number
  -- that is too large, for these texts, and a `parse_error` for the others.
  pub parse : String → Option Value
  pub out_of_range : String → Bool
  -- `dump`
  pub dump : Value → String
  pub kind-null : kind null_value ≡ null
  pub kind-empty_object : kind empty_object ≡ object
  pub member-empty_object : (k : String) → member empty_object k ≡ none
  pub kind-of_texts : (ss : List String) → kind (of_texts ss) ≡ array
  pub kind-of_items : (vs : List Value) → kind (of_items vs) ≡ array
  pub elements-of_items : (vs : List Value) → elements (of_items vs) ≡ vs
  pub elements-of_texts : (ss : List String) → elements (of_texts ss) ≡ map of_string ss
  pub get_bool-of_bool : (b : Bool) → get_bool (of_bool b) ≡ some b
  pub kind-of_string : (s : String) → kind (of_string s) ≡ string
  pub kind-of_int : (n : ℤ) → kind (of_int n) ≡ number_integer
  pub get_string-of_string : (s : String) → get_string (of_string s) ≡ some s
  pub get_int64-of_int : (n : Int64) → get_int64 (of_int n.0) ≡ some n
  pub get_int-of_int : (n : ℤ) → FitsInt n → get_int (of_int n) ≡ some n
  -- A conversion throws exactly where the type is wrong.
  pub get_string-none_iff : (v : Value) → (get_string v ≡ none) ↔ (is_string (kind v) ≡ false)
  pub get_bool-none_iff : (v : Value) → (get_bool v ≡ none) ↔ (is_boolean (kind v) ≡ false)
  pub get_int64_integer : (v : Value) → is_number_integer (kind v) ≡ true → get_int64 v ≢ none
  pub equals_text_iff :
      (v : Value) (s : String) → (equals_text v s ≡ true) ↔ (get_string v ≡ some s)
  -- Only an object has members.
  pub member-other : (v : Value) (k : String) → is_object (kind v) ≡ false → member v k ≡ none
  pub kind-set :
      (v : Value) (k : String) (x : Value) → can_hold (kind v) ≡ true → kind (set v k x) ≡ object
  pub member-set :
      (v : Value) (k : String) (x : Value) (j : String)
      → can_hold (kind v) ≡ true
      → member (set v k x) j ≡ (if k == j then some x else member v j)

-- What a function of the code does: it returns, or it throws.
pub data Result {ℓ} (A : Type ℓ) : Type ℓ where
  ok : A → Result A
  thrown : Result A

infixl 5 ◌>>=◌
abbrev pub ◌>>=◌ {ℓ κ} : {A : Type ℓ} {B : Type κ} → Result A → (A → Result B) → Result B
ok a >>= f = f a
thrown >>= f = thrown

-- The result of a call of the library that may throw.
abbrev pub or_throw {ℓ} : {A : Type ℓ} → Option A → Result A
or_throw (some a) = ok a
or_throw none = thrown

abbrev pub is_some {ℓ} : {A : Type ℓ} → Option A → Bool
is_some (some a) = true
is_some none = false

pub Result-cases {ℓ} : {A : Type ℓ} (x : Result A) → (x ≡ thrown) ⊎ ((a : A) × (x ≡ ok a))
Result-cases thrown = inl refl
Result-cases (ok a) = inr (a, refl)
