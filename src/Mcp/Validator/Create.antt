-- ===== src/Mcp/Validator/Create.antt =====
-- src/mcp/json_rpc/InputValidator.h: the constructor against the checks.
use Prim.Native.String.{String}
use mcp_server_cpp.Prelude.{◌≡◌, true, false, some, inr, [], arith}
use mcp_server_cpp.Mcp.Json.{Json, ok, thrown, is_object, is_array, is_string}
use mcp_server_cpp.Mcp.Validator.{Schemas, type_errors}
use mcp_server_cpp.Mcp.Validator.Compile.{compile, create}
use mcp_server_cpp.Mcp.Validator.Conforms.{AnyType}
use mcp_server_cpp.Mcp.Validator.Parts.{type_errors_iff}

module _ (lib : Json) (ops : Schemas lib) where
  open lib use {Value, kind, member, elements}

  -- The constructor throws for a schema whose type is a list of types, although the checks support
  -- such a list and add no error for a value that has one of the types.
  pub create-union :
      (schema type value : Value) (path : String)
      → is_object (kind schema) ≡ true
      → member schema "type" ≡ some type
      → is_array (kind type) ≡ true
      → is_string (kind type) ≡ false
      → AnyType lib ops (elements type) value
      → (create lib ops schema ≡ thrown) × (type_errors lib ops value path type ≡ ok [])
  unfolding create compile
  create-union schema type value path o t a s any = (
    ground (arith, lib.get_string-none_iff type),
    (type_errors_iff lib ops value path type).1 (inr (s, a, any)),
  )
