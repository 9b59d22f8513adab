-- ===== src/Mcp/Validator.antt =====
-- src/mcp/json_rpc/InputValidator.h: the checks of the arguments of a tool against its schema.
-- The errors that a check adds are its result. The schema is a value of the JSON library; the loops
-- into sub-schemas run on fuel, one more than the depth of the schema, which is enough. What `compile`
-- collects is never read, so only its exceptions are left of it.
pub mod Walk
pub mod Compile
pub mod Conforms
pub mod Checks
pub mod Parts
pub mod Node
pub mod Correct
pub mod Fuel
pub mod Create
pub mod Sample
mod Tests
use Prim.Native.String.{String, len}
use package.text.Mathlib.Text.{◌==◌}
use mathlib.Core.List.{Memᴰ}
use mcp_server_cpp.Prelude.{
  ℕ, zero, suc, ◌<◌, ◌≤◌, ◌+◌, ◌≡◌, Bool, true, false, not, Option, none, some, List, [], ◌∷◌, ◌++◌,
  concat, ltb, if◌then◌else◌,
}
use mcp_server_cpp.Mcp.Json.{
  Json, ℤ, pos, negsuc, Kind, number_integer, number_unsigned, number_float, is_object, is_array,
  is_string, is_null, is_boolean, is_number_integer, Result, ok, thrown, ◌>>=◌, or_throw, is_some,
}
use mcp_server_cpp.Mcp.Json.Build.{build}

-- `is_number`
abbrev pub is_number : Kind → Bool
is_number number_integer = true
is_number number_unsigned = true
is_number number_float = true
is_number _ = false

-- What the validator uses besides `Json`.
pub record Schemas (lib : Json) : Type 1 where
  pub Double : Type 0
  -- `get<double>()` and `<`
  pub get_double : lib.Value → Option Double
  pub less : Double → Double → Bool
  -- `items()`: the keys and values of an object, the indices and values of an array; of a value
  -- that is neither, the value itself under an empty key.
  pub items : lib.Value → List (String × lib.Value)
  -- What a loop over a value sees: the values of an array or of an object, or the value itself.
  pub iterate : lib.Value → List lib.Value
  -- `==` of two values
  pub same : lib.Value → lib.Value → Bool
  -- `std::regex_match` of a text against a pattern; `none` where one of the two throws.
  pub matches : String → String → Option Bool
  pub type_name : lib.Value → String
  pub to_string : ℕ → String
  -- A value is a finite tree: this is its height.
  pub depth : lib.Value → ℕ
  pub depth-member :
      (v : lib.Value) (k : String) (x : lib.Value) → lib.member v k ≡ some x → depth x < depth v
  pub depth-items :
      (v : lib.Value) (k : String) (x : lib.Value) → Memᴰ (k, x) (items v) → depth x ≤ depth v

abbrev pub check_type : String → Kind → Bool
check_type type k =
    if type == "string"
    then is_string k
    else if type == "integer"
    then is_number_integer k
    else if type == "number"
    then is_number k
    else if type == "boolean"
    then is_boolean k
    else if type == "array"
    then is_array k
    else if type == "object"
    then is_object k
    else if type == "null"
    then is_null k
    else true

-- `len < bound` of two values of type `int64_t`
abbrev pub less_int : ℕ → ℤ → Bool
less_int n (pos m) = ltb n m
less_int n (negsuc m) = false

abbrev pub more_int : ℕ → ℤ → Bool
more_int n (pos m) = ltb m n
more_int n (negsuc m) = true

-- The errors of two checks, one after the other.
abbrev pub also {ℓ} : {A : Type ℓ} → Result (List A) → Result (List A) → Result (List A)
also first second = first >>= λ es. second >>= λ fs. ok (es ++ fs)

-- A check after which no other one runs if it adds an error.
abbrev pub unless_wrong {ℓ} : {A : Type ℓ} → Result (List A) → Result (List A) → Result (List A)
unless_wrong thrown next = thrown
unless_wrong (ok []) next = next
unless_wrong (ok (e ∷ es)) next = ok (e ∷ es)

-- A check that runs only if there is a value, or only if a test holds.
abbrev pub given {ℓ} :
    {V : Type 0} {A : Type ℓ} → Option V → (V → Result (List A)) → Result (List A)
given none check = ok []
given (some v) check = check v

abbrev pub only_if {ℓ} : {A : Type ℓ} → Bool → Result (List A) → Result (List A)
only_if true check = check
only_if false check = ok []

module _ (lib : Json) (ops : Schemas lib) where
  open lib use {Value, kind, member, elements, get_string, get_int64, of_string, is_empty, dump}
  open ops use {get_double, less, items, iterate, same, matches, type_name, to_string}

  -- `errors.push_back({{"path", path}, {"message", message}})`
  abbrev pub an_error : String → String → Result (List Value)
  an_error path message =
      ok (build lib (("path", of_string path) ∷ ("message", of_string message) ∷ []) ∷ [])

  -- `path.empty() ? key : path + "." + key`
  abbrev pub below : String → String → String
  below path key = if path == "" then key else concat path (concat "." key)

  -- The loop over a list of types, which ends at the first one that fits.
  unfoldable pub any_type : List Value → Value → Result Bool
  any_type [] value = ok false
  any_type (t ∷ ts) value =
      let rest = any_type ts value in
      (or_throw (get_string t) >>= λ type. if check_type type (kind value) then ok true else rest)

  unfoldable pub type_ok : Value → Value → Result Bool
  type_ok type value =
      if is_string (kind type)
      then (or_throw (get_string type) >>= λ t. ok (check_type t (kind value)))
      else if is_array (kind type)
      then any_type (elements type) value
      else ok false

  unfoldable pub type_errors : Value → String → Value → Result (List Value)
  type_errors value path type = type_ok type value >>= λ fits.
      if fits
      then ok []
      else an_error path
          (concat "expected type " (concat (dump type) (concat ", got " (type_name value))))

  unfoldable pub required_errors : Value → String → List Value → Result (List Value)
  required_errors value path [] = ok []
  required_errors value path (r ∷ rs) =
      let rest = required_errors value path rs in
      also
        (or_throw (get_string r) >>= λ key.
          if is_some (member value key)
          then ok []
          else an_error (below path key) "required field missing")
        rest

  unfoldable pub has_same : Value → List Value → Bool
  has_same value [] = false
  has_same value (e ∷ es) = let rest = has_same value es in if same value e then true else rest

  unfoldable pub enum_errors : Value → String → Value → Result (List Value)
  enum_errors value path e =
      if has_same value (iterate e) then ok [] else an_error path "value not in enum"

  unfoldable pub minimum_errors : Value → String → Value → Result (List Value)
  minimum_errors value path bound = or_throw (get_double value) >>= λ x.
      or_throw (get_double bound) >>= λ b.
      if less x b then an_error path (concat "value below minimum " (dump bound)) else ok []

  unfoldable pub maximum_errors : Value → String → Value → Result (List Value)
  maximum_errors value path bound = or_throw (get_double value) >>= λ x.
      or_throw (get_double bound) >>= λ b.
      if less b x then an_error path (concat "value above maximum " (dump bound)) else ok []

  unfoldable pub min_length_errors : String → String → Value → Result (List Value)
  min_length_errors text path bound = or_throw (get_int64 bound) >>= λ b.
      if less_int (len text) b.0
      then an_error path (concat "string too short, min " (dump bound))
      else ok []

  unfoldable pub max_length_errors : String → String → Value → Result (List Value)
  max_length_errors text path bound = or_throw (get_int64 bound) >>= λ b.
      if more_int (len text) b.0
      then an_error path (concat "string too long, max " (dump bound))
      else ok []

  -- Whatever is thrown here is caught, and the pattern skipped.
  unfoldable pub pattern_errors : String → String → Value → Result (List Value)
  pattern_errors text path pattern = elim (get_string pattern) [
    | none ↦ ok []
    | some p ↦ elim (matches p text) [
      | none ↦ ok []
      | some fits ↦ if fits then ok [] else an_error path "string does not match pattern"
    ]
  ]

  unfoldable pub text_errors : Value → Value → String → Result (List Value)
  text_errors schema value path = or_throw (get_string value) >>= λ text.
      also (given (member schema "minLength") (min_length_errors text path)) (
        also (given (member schema "maxLength") (max_length_errors text path))
          (given (member schema "pattern") (pattern_errors text path)))
