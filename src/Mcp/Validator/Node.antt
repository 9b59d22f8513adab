-- ===== src/Mcp/Validator/Node.antt =====
-- src/mcp/json_rpc/InputValidator.h: when one node of a schema adds no error.
use Prim.Native.String.{String}
use mcp_server_cpp.Prelude.{◌≡◌, ◌↔◌, Bool, true, not, List}
use mcp_server_cpp.Mcp.Json.{Json, is_object, is_array, is_string, is_null, Result}
use mcp_server_cpp.Mcp.Validator.{
  Schemas, is_number, also, given, only_if, type_errors, minimum_errors, maximum_errors,
  text_errors,
}
use mcp_server_cpp.Mcp.Validator.Walk.{properties_errors, items_errors, node_errors}
use mcp_server_cpp.Mcp.Validator.Conforms.{Admits, IsAtLeast, IsAtMost, Given, MeetsText, Meets}
use mcp_server_cpp.Mcp.Validator.Checks.{
  Clean, also_iff, given_iff, only_if_iff, minimum_errors_iff, maximum_errors_iff,
  required_errors_iff, enum_errors_iff,
}
use mcp_server_cpp.Mcp.Validator.Parts.{type_errors_iff, text_errors_iff}

module _ (lib : Json) (ops : Schemas lib) where
  open lib use {Value, kind, member, elements, get_string, is_empty}
  open ops use {items, iterate, depth}

  -- A check of a key of the schema, for a kind of values.
  gated_iff :
      (b : Bool) (schema : Value) (key : String) (check : Value → Result (List Value))
      (P : Value → Type 0)
      → ((v : Value) → Clean (check v) ↔ P v)
      → Clean (only_if b (given (member schema key) check))
        ↔ (b ≡ true → Given lib ops schema key P)
  gated_iff b schema key check P each =
      let (there, back) = given_iff P (member schema key) check each in
      (
        λ e h. there ((only_if_iff b (given (member schema key) check)).0 e h),
        λ h. (only_if_iff b (given (member schema key) check)).1 (λ t. back (h t)),
      )

  numbers_iff :
      (schema value : Value) (path : String)
      → Clean (
          only_if (is_number (kind value)) (
            also
              (given (member schema "minimum") (minimum_errors lib ops value path))
              (given (member schema "maximum") (maximum_errors lib ops value path))))
        ↔ ((is_number (kind value) ≡ true
              → Given lib ops schema "minimum" (IsAtLeast lib ops value))
            × (is_number (kind value) ≡ true
                → Given lib ops schema "maximum" (IsAtMost lib ops value)))
  numbers_iff schema value path =
      let low =
        given_iff (IsAtLeast lib ops value) (member schema "minimum") _
          (minimum_errors_iff lib ops value path) in
      let high =
        given_iff (IsAtMost lib ops value) (member schema "maximum") _
          (maximum_errors_iff lib ops value path) in
      (
        λ e. (
          λ h. low.0 ((also_iff _ _).0 ((only_if_iff (is_number (kind value)) _).0 e h)).0,
          λ h. high.0 ((also_iff _ _).0 ((only_if_iff (is_number (kind value)) _).0 e h)).1,
        ),
        λ (a, b).
            (only_if_iff (is_number (kind value)) _).1
              (λ h. (also_iff _ _).1 (low.1 (a h), high.1 (b h))),
      )

  texts_iff :
      (schema value : Value) (path : String)
      → Clean (only_if (is_string (kind value)) (text_errors lib ops schema value path))
        ↔ (is_string (kind value) ≡ true → MeetsText lib ops schema value)
  texts_iff schema value path =
      let (there, back) = text_errors_iff lib ops schema value path in
      (
        λ e h. there ((only_if_iff (is_string (kind value)) _).0 e h),
        λ h. (only_if_iff (is_string (kind value)) _).1 (λ t. back (h t)),
      )

  module _ (node : Value → Value → String → Result (List Value)) where
    -- The parts of a value, checked by the loops.
    abbrev pub Inside : Value → Value → String → Type 0
    Inside schema value path =
        (is_object (kind value) ≡ true
          → Given lib ops schema "properties"
              λ p. Clean (properties_errors lib ops node value path (items p)))
        × (is_array (kind value) ≡ true
            → Given lib ops schema "items"
                λ s. Clean (items_errors lib ops node s path 0 (elements value)))

    pub node_errors_iff :
        (schema value : Value) (path : String)
        → Clean (given (member schema "type") (type_errors lib ops value path))
        → Clean (node_errors lib ops node schema value path)
          ↔ (Meets lib ops schema value × Inside schema value path)
    unfolding node_errors
    node_errors_iff schema value path typed =
        let type =
          given_iff (Admits lib ops value) (member schema "type") _
            (type_errors_iff lib ops value path) in
        let required =
          gated_iff (is_object (kind value)) schema "required" _ _
            (λ r. required_errors_iff lib ops value path (iterate r)) in
        let enum =
          gated_iff (not (is_null (kind value))) schema "enum" _ _
            (enum_errors_iff lib ops value path) in
        let numbers = numbers_iff schema value path in
        let texts = texts_iff schema value path in
        let props =
          gated_iff (is_object (kind value)) schema "properties" _ _ (λ p. (λ z. z, λ z. z)) in
        let items = gated_iff (is_array (kind value)) schema "items" _ _ (λ s. (λ z. z, λ z. z)) in
        (
          λ e0.
              let (a, e1) = (also_iff _ _).0 e0 in
              let (b, e2) = (also_iff _ _).0 e1 in
              let (c, e3) = (also_iff _ _).0 e2 in
              let (d, e4) = (also_iff _ _).0 e3 in
              let (p, i) = (also_iff _ _).0 e4 in
              (
                record {
                  typed = type.0 typed;
                  complete = required.0 a;
                  listed = enum.0 b;
                  at_least = (numbers.0 c).0;
                  at_most = (numbers.0 c).1;
                  texts = texts.0 d;
                },
                (props.0 p, items.0 i),
              ),
          λ (m, (p, i)). (also_iff _ _).1 (
            required.1 m.complete,
            (also_iff _ _).1 (
              enum.1 m.listed,
              (also_iff _ _).1 (
                numbers.1 (m.at_least, m.at_most),
                (also_iff _ _).1 (texts.1 m.texts, (also_iff _ _).1 (props.1 p, items.1 i)),
              ),
            ),
          ),
        )
