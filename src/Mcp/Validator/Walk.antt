-- ===== src/Mcp/Validator/Walk.antt =====
-- src/mcp/json_rpc/InputValidator.h: `validate_node`, which walks a schema and a value together.
use Prim.Native.String.{String}
use mcp_server_cpp.Prelude.{ℕ, zero, suc, not, List, [], ◌∷◌, concat, if◌then◌else◌}
use mcp_server_cpp.Mcp.Json.{Json, is_object, is_array, is_string, is_null, Result, ok, thrown}
use mcp_server_cpp.Mcp.Validator.{
  Schemas, is_number, unless_wrong, also, given, only_if, below, type_errors, required_errors,
  enum_errors, minimum_errors, maximum_errors, text_errors,
}

module _ (lib : Json) (ops : Schemas lib) where
  open lib use {Value, kind, member, elements, get_string, get_int64, of_string, is_empty, dump}
  open ops use {get_double, less, items, iterate, same, matches, type_name, to_string}

  -- The loops into sub-schemas, over what the check of a sub-schema is.
  module _ (node : Value → Value → String → Result (List Value)) where
    unfoldable pub properties_errors : Value → String → List (String × Value) → Result (List Value)
    properties_errors value path [] = ok []
    properties_errors value path ((key, sub) ∷ props) =
        let rest = properties_errors value path props in
        also (given (member value key) (λ v. node sub v (below lib ops path key))) rest

    unfoldable pub items_errors : Value → String → ℕ → List Value → Result (List Value)
    items_errors sub path i [] = ok []
    items_errors sub path i (v ∷ vs) =
        let rest = items_errors sub path (suc i) vs in
        also (node sub v (concat path (concat "[" (concat (to_string i) "]")))) rest

    -- The checks after that of the type.
    unfoldable pub node_errors : Value → Value → String → Result (List Value)
    node_errors schema value path =
        also
          (only_if (is_object (kind value)) (
            given (member schema "required") (λ r. required_errors lib ops value path (iterate r))))
          (also
            (only_if (not (is_null (kind value)))
              (given (member schema "enum") (enum_errors lib ops value path)))
            (also
              (only_if (is_number (kind value)) (
                also (given (member schema "minimum") (minimum_errors lib ops value path))
                  (given (member schema "maximum") (maximum_errors lib ops value path))))
              (also (only_if (is_string (kind value)) (text_errors lib ops schema value path)) (
                also
                  (only_if (is_object (kind value)) (
                    given (member schema "properties")
                      (λ p. properties_errors value path (items p))))
                  (only_if (is_array (kind value)) (
                    given (member schema "items")
                      (λ s. items_errors s path 0 (elements value))))))))

    unfoldable pub checked_errors : Value → Value → String → Result (List Value)
    checked_errors schema value path =
        if is_empty schema
        then ok []
        else unless_wrong (given (member schema "type") (type_errors lib ops value path))
            (node_errors schema value path)

  -- One level of the schema for each unit of fuel.
  unfoldable pub validate_node : ℕ → Value → Value → String → Result (List Value)
  validate_node zero schema value path = thrown
  validate_node (suc fuel) schema value path = checked_errors (validate_node fuel) schema value path

  -- `validate`, with `last_errors`
  unfoldable pub validate : Value → Value → Result (List Value)
  validate schema args = validate_node (suc (ops.depth schema)) schema args ""
