-- ===== src/Mcp/Validator/Fuel.antt =====
-- src/mcp/json_rpc/InputValidator.h: the fuel of the validator.
use Prim.Native.String.{String}
use mathlib.Core.List.{Memᴰ}
use mcp_server_cpp.Prelude.{
  ℕ, zero, suc, ◌<◌, ◌≡◌, refl, ap₂, Option, none, some, List, [], ◌∷◌, arith,
}
use mcp_server_cpp.Mcp.Json.{Json, Result}
use mcp_server_cpp.Mcp.Validator.{Schemas, also, given, below}
use mcp_server_cpp.Mcp.Validator.Walk.{
  properties_errors, items_errors, node_errors, checked_errors, validate_node,
}

module _ (lib : Json) (ops : Schemas lib) where
  open lib use {Value, kind, member, elements, is_empty}
  open ops use {items, depth, depth-member, depth-items}

  given_same :
      (o : Option Value) (f g : Value → Result (List Value))
      → ((v : Value) → o ≡ some v → f v ≡ g v)
      → given o f ≡ given o g
  given_same none f g h = refl
  given_same (some v) f g h = h v refl

  properties_same :
      (a b : Value → Value → String → Result (List Value)) (value : Value) (path : String)
      (props : List (String × Value))
      → ((key : String) (sub v : Value) (p : String)
          → Memᴰ (key, sub) props
          → a sub v p ≡ b sub v p)
      → properties_errors lib ops a value path props ≡ properties_errors lib ops b value path props
  unfolding properties_errors
  properties_same a b value path [] h = refl
  properties_same a b value path ((key, sub) ∷ props) h =
      ap₂ also
        (given_same (member value key) _ _
          (λ v e. h key sub v (below lib ops path key) (Memᴰ.head refl)))
        (properties_same a b value path props (λ k s v p m. h k s v p (Memᴰ.tail m)))

  items_same :
      (a b : Value → Value → String → Result (List Value)) (sub : Value) (path : String) (i : ℕ)
      (vs : List Value)
      → ((v : Value) (p : String) → a sub v p ≡ b sub v p)
      → items_errors lib ops a sub path i vs ≡ items_errors lib ops b sub path i vs
  unfolding items_errors
  items_same a b sub path i [] h = refl
  items_same a b sub path i (v ∷ vs) h = ap₂ also (h v _) (items_same a b sub path (suc i) vs h)

  checked_same :
      (a b : Value → Value → String → Result (List Value)) (schema value : Value) (path : String)
      → ((sub v : Value) (p : String) → depth sub < depth schema → a sub v p ≡ b sub v p)
      → checked_errors lib ops a schema value path ≡ checked_errors lib ops b schema value path
  unfolding checked_errors node_errors
  checked_same a b schema value path h =
      let props =
        given_same (member schema "properties")
          (λ p. properties_errors lib ops a value path (items p))
          (λ p. properties_errors lib ops b value path (items p))
          (λ ps e. properties_same a b value path (items ps) λ key sub v p m.
            h sub v p
              (omega (arith, depth-member schema "properties" ps e, depth-items ps key sub m))) in
      let inside =
        given_same (member schema "items") (λ s. items_errors lib ops a s path 0 (elements value))
          (λ s. items_errors lib ops b s path 0 (elements value))
          (λ s e.
            items_same a b s path 0 (elements value)
              λ v p. h s v p (depth-member schema "items" s e)) in
      rw (checked_errors, node_errors, props, inside) refl

  -- More fuel than the depth of the schema does not change what the validator does, so the fuel that
  -- `validate` is given never runs out.
  pub validate_node_fuel :
      (fuel more : ℕ) (schema value : Value) (path : String)
      → depth schema < fuel
      → depth schema < more
      → validate_node lib ops fuel schema value path ≡ validate_node lib ops more schema value path
  unfolding validate_node
  validate_node_fuel zero more schema value path a b = absurd (omega (arith, a))
  validate_node_fuel (suc fuel) zero schema value path a b = absurd (omega (arith, b))
  validate_node_fuel (suc fuel) (suc more) schema value path a b =
      checked_same (validate_node lib ops fuel) (validate_node lib ops more) schema value path
        λ sub v p d.
          validate_node_fuel fuel more sub v p (omega (arith, a, d)) (omega (arith, b, d))
