-- ===== src/Mcp/Validator/Correct.antt =====
-- src/mcp/json_rpc/InputValidator.h: the validator against the description of what conforms.
use Prim.Native.String.{String}
use mcp_server_cpp.Prelude.{
  ℕ, zero, suc, ◌<◌, ◌≡◌, ◌↔◌, inl, inr, Bool-cases, true, List, [], arith,
}
use mcp_server_cpp.Mcp.Json.{Json, is_object, is_array, Result, ok}
use mcp_server_cpp.Mcp.Validator.{Schemas, unless_wrong, given, type_errors}
use mcp_server_cpp.Mcp.Validator.Walk.{
  properties_errors, items_errors, node_errors, checked_errors, validate_node, validate,
}
use mcp_server_cpp.Mcp.Validator.Conforms.{Admits, Given, Conforms, anything, constrained}
use mcp_server_cpp.Mcp.Validator.Checks.{Clean, given_iff}
use mcp_server_cpp.Mcp.Validator.Parts.{
  type_errors_iff, unless_wrong_iff, properties_errors_iff, items_errors-Clean, Clean-items_errors,
}
use mcp_server_cpp.Mcp.Validator.Node.{node_errors_iff}

module _ (lib : Json) (ops : Schemas lib) where
  open lib use {Value, kind, member, elements, get_string, is_empty}
  open ops use {items, iterate, depth, depth-member, depth-items}

  -- What the loops of a node check, said with what its check of a sub-schema says.
  checked_errors-Conforms :
      (node : Value → Value → String → Result (List Value)) (schema value : Value) (path : String)
      → ((sub v : Value) (p : String) → Clean (node sub v p) → Conforms lib ops sub v)
      → Clean (checked_errors lib ops node schema value path)
      → Conforms lib ops schema value
  unfolding checked_errors
  checked_errors-Conforms node schema value path each e = elim (Bool-cases (is_empty schema)) [
    | inl y ↦ anything y
    | inr n ↦
        let checks : Clean (
            unless_wrong (given (member schema "type") (type_errors lib ops value path))
              (node_errors lib ops node schema value path)) =
          ground arith in
        let (t, rest) = (unless_wrong_iff lib ops _ _).0 checks in
        let (m, (p, i)) = (node_errors_iff lib ops node schema value path t).0 rest in
        constrained n m
          (λ o props h key sub m v g. each sub v _ (
            (properties_errors_iff lib ops node value path (items props)).0 (p o props h) key sub m
              v g))
          (λ a sub h v m.
            let (q, f) =
              items_errors-Clean lib ops node sub path 0 (elements value) (i a sub h) v m in
            each sub v q f)
  ]

  Conforms-checked_errors :
      (node : Value → Value → String → Result (List Value)) (schema value : Value) (path : String)
      → ((sub v : Value) (p : String)
          → depth sub < depth schema
          → Conforms lib ops sub v
          → Clean (node sub v p))
      → Conforms lib ops schema value
      → Clean (checked_errors lib ops node schema value path)
  unfolding checked_errors
  Conforms-checked_errors node schema value path each (anything y) = ground arith
  Conforms-checked_errors node schema value path each (constrained n m props inside) =
      let typed =
        (given_iff (Admits lib ops value) (member schema "type") _
            (type_errors_iff lib ops value path)).1
          m.typed in
      let p : is_object (kind value) ≡ true
          → Given lib ops schema "properties"
              λ p. Clean (properties_errors lib ops node value path (items p)) =
        λ o ps h. (properties_errors_iff lib ops node value path (items ps)).1 λ key sub i v g.
          each sub v _
            (omega (arith, depth-member schema "properties" ps h, depth-items ps key sub i))
            (props o ps h key sub i v g) in
      let i : is_array (kind value) ≡ true
          → Given lib ops schema "items"
              λ s. Clean (items_errors lib ops node s path 0 (elements value)) =
        λ a sub h.
          Clean-items_errors lib ops node sub path 0 (elements value)
            λ v q k. each sub v q (depth-member schema "items" sub h) (inside a sub h v k) in
      let rest = (node_errors_iff lib ops node schema value path typed).1 (m, (p, i)) in
      let checks : Clean (
          unless_wrong (given (member schema "type") (type_errors lib ops value path))
            (node_errors lib ops node schema value path)) =
        (unless_wrong_iff lib ops _ _).1 (typed, rest) in
      ground arith

  validate_node-Conforms :
      (fuel : ℕ) (schema value : Value) (path : String)
      → Clean (validate_node lib ops fuel schema value path)
      → Conforms lib ops schema value
  unfolding validate_node
  validate_node-Conforms zero schema value path e = cc
  validate_node-Conforms (suc fuel) schema value path e =
      checked_errors-Conforms (validate_node lib ops fuel) schema value path
        (validate_node-Conforms fuel) e

  Conforms-validate_node :
      (fuel : ℕ) (schema value : Value) (path : String)
      → depth schema < fuel
      → Conforms lib ops schema value
      → Clean (validate_node lib ops fuel schema value path)
  unfolding validate_node
  Conforms-validate_node zero schema value path lt c = absurd (omega (arith, lt))
  Conforms-validate_node (suc fuel) schema value path lt c =
      Conforms-checked_errors (validate_node lib ops fuel) schema value path
        (λ sub v p d. Conforms-validate_node fuel sub v p (omega (arith, lt, d))) c

  -- The validator returns, without an error, for exactly the arguments that conform to the schema.
  pub validate_iff :
      (schema args : Value) → (validate lib ops schema args ≡ ok []) ↔ Conforms lib ops schema args
  unfolding validate
  validate_iff schema args = (
    validate_node-Conforms (suc (depth schema)) schema args "",
    Conforms-validate_node (suc (depth schema)) schema args "" (omega arith),
  )
