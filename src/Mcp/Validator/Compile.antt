-- ===== src/Mcp/Validator/Compile.antt =====
-- src/mcp/json_rpc/InputValidator.h: `compile`, of which only the exceptions are left.
use Prim.Native.String.{String}
use mcp_server_cpp.Prelude.{ℕ, zero, suc, Option, none, some, List, [], ◌∷◌, if◌then◌else◌}
use mcp_server_cpp.Mcp.Json.{Json, is_object, is_array, Result, ok, thrown, ◌>>=◌, or_throw}
use mcp_server_cpp.Mcp.Validator.{Schemas}

module _ (lib : Json) (ops : Schemas lib) where
  open lib use {Value, kind, member, elements, get_string, get_int64, of_string, is_empty, dump}
  open ops use {get_double, less, items, iterate, same, matches, type_name, to_string}

  -- A conversion of the value of a key, if there is one.
  abbrev pub converts : {A : Type 0} → Value → String → (Value → Option A) → Result (Unit {0})
  converts schema key convert = elim (member schema key) [
    | none ↦ ok tt
    | some v ↦ or_throw (convert v) >>= λ a. ok tt
  ]

  unfoldable pub all_texts : List Value → Result (Unit {0})
  all_texts [] = ok tt
  all_texts (r ∷ rs) = let rest = all_texts rs in (or_throw (get_string r) >>= λ s. rest)

  -- The required keys are read only where they are an array.
  unfoldable pub required_texts : Value → Result (Unit {0})
  required_texts schema = elim (member schema "required") [
    | none ↦ ok tt
    | some r ↦ if is_array (kind r) then all_texts (elements r) else ok tt
  ]

  unfoldable pub all_compile :
      (Value → Result (Unit {0})) → List (String × Value) → Result (Unit {0})
  all_compile each [] = ok tt
  all_compile each ((key, sub) ∷ props) =
      let rest = all_compile each props in (each sub >>= λ u. rest)

  unfoldable pub compile_properties : (Value → Result (Unit {0})) → Value → Result (Unit {0})
  compile_properties each schema = elim (member schema "properties") [
    | none ↦ ok tt
    | some p ↦ if is_object (kind p) then all_compile each (items p) else ok tt
  ]

  unfoldable pub compile : ℕ → Value → Result (Unit {0})
  compile zero schema = thrown
  compile (suc fuel) schema =
      let properties = compile_properties (compile fuel) schema in
      if is_object (kind schema)
      then (converts schema "type" get_string >>= λ _. required_texts schema >>= λ _.
          converts schema "minimum" get_double >>= λ _.
          converts schema "maximum" get_double >>= λ _.
          converts schema "minLength" get_int64 >>= λ _.
          converts schema "maxLength" get_int64 >>= λ _.
          converts schema "pattern" get_string >>= λ _. properties)
      else ok tt

  -- The constructor.
  unfoldable pub create : Value → Result (Unit {0})
  create schema = compile (suc (ops.depth schema)) schema
