-- ===== src/Mcp/Validator/Conforms.antt =====
-- src/mcp/json_rpc/InputValidator.h: which values a schema admits, said without errors and paths.
use Prim.Native.String.{String, len}
use mathlib.Core.List.{Memᴰ}
use mcp_server_cpp.Prelude.{◌≡◌, ◌⊎◌, Bool, true, false, not, some, List, [], ◌∷◌}
use mcp_server_cpp.Mcp.Json.{Json, Int64, is_object, is_array, is_string, is_null, is_some}
use mcp_server_cpp.Mcp.Validator.{Schemas, check_type, is_number, less_int, more_int}

module _ (lib : Json) (ops : Schemas lib) where
  open lib use {Value, kind, member, elements, get_string, get_int64, is_empty}
  open ops use {get_double, less, items, iterate, same, matches}

  -- A type of the list fits, and those before it are texts.
  abbrev pub AnyType : List Value → Value → Type 0
  AnyType [] value = ⊥
  AnyType (t ∷ ts) value =
      (s : String) × (get_string t ≡ some s)
      × ((check_type s (kind value) ≡ true) ⊎ AnyType ts value)

  -- The type of a schema admits the value.
  abbrev pub Admits : Value → Value → Type 0
  Admits value type =
      ((is_string (kind type) ≡ true)
        × ((s : String) × (get_string type ≡ some s) × (check_type s (kind value) ≡ true)))
      ⊎ ((is_string (kind type) ≡ false)
          × (is_array (kind type) ≡ true)
          × AnyType (elements type) value)

  -- Every required key is a text and is there.
  abbrev pub HasAll : Value → List Value → Type 0
  HasAll value keys =
      (r : Value)
      → Memᴰ r keys
      → (key : String) × (get_string r ≡ some key) × (is_some (member value key) ≡ true)

  abbrev pub IsOneOf : Value → Value → Type 0
  IsOneOf value e = (x : Value) × Memᴰ x (iterate e) × (same value x ≡ true)

  abbrev pub IsAtLeast : Value → Value → Type 0
  IsAtLeast value bound =
      (x : ops.Double) × (b : ops.Double) × (get_double value ≡ some x)
      × (get_double bound ≡ some b)
      × (less x b ≡ false)

  abbrev pub IsAtMost : Value → Value → Type 0
  IsAtMost value bound =
      (x : ops.Double) × (b : ops.Double) × (get_double value ≡ some x)
      × (get_double bound ≡ some b)
      × (less b x ≡ false)

  abbrev pub IsLong : String → Value → Type 0
  IsLong text bound = (b : Int64) × (get_int64 bound ≡ some b) × (less_int (len text) b.0 ≡ false)

  abbrev pub IsShort : String → Value → Type 0
  IsShort text bound = (b : Int64) × (get_int64 bound ≡ some b) × (more_int (len text) b.0 ≡ false)

  -- A pattern that is a valid one matches.
  abbrev pub Fits : String → Value → Type 0
  Fits text pattern =
      (p : String) (fits : Bool)
      → get_string pattern ≡ some p
      → matches p text ≡ some fits
      → fits ≡ true

  -- The value of a key, if the schema has it, meets a condition.
  abbrev pub Given : Value → String → (Value → Type 0) → Type 0
  Given schema key P = (v : Value) → member schema key ≡ some v → P v

  -- A text that meets the constraints on texts.
  abbrev pub MeetsText : Value → Value → Type 0
  MeetsText schema value =
      (text : String) × (get_string value ≡ some text)
      × Given schema "minLength" (IsLong text)
      × Given schema "maxLength" (IsShort text)
      × Given schema "pattern" (Fits text)

  -- What holds of the value itself, less its parts.
  pub record Meets (schema value : Value) : Type 0 where
    pub typed : Given schema "type" (Admits value)
    pub complete :
        is_object (kind value) ≡ true → Given schema "required" (λ r. HasAll value (iterate r))
    pub listed : not (is_null (kind value)) ≡ true → Given schema "enum" (IsOneOf value)
    pub at_least : is_number (kind value) ≡ true → Given schema "minimum" (IsAtLeast value)
    pub at_most : is_number (kind value) ≡ true → Given schema "maximum" (IsAtMost value)
    pub texts : is_string (kind value) ≡ true → MeetsText schema value

  pub data Conforms : Value → Value → Type 0 where
    anything : {schema value : Value} → is_empty schema ≡ true → Conforms schema value
    constrained :
        {schema value : Value}
        → is_empty schema ≡ false
        → Meets schema value
        → (is_object (kind value) ≡ true
            → (props : Value) → member schema "properties" ≡ some props
            → (key : String) (sub : Value) → Memᴰ (key, sub) (items props)
            → (v : Value) → member value key ≡ some v
            → Conforms sub v)
        → (is_array (kind value) ≡ true
            → (sub : Value) → member schema "items" ≡ some sub
            → (v : Value) → Memᴰ v (elements value)
            → Conforms sub v)
        → Conforms schema value
