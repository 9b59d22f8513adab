-- ===== src/Mcp/JsonRpc/Shape.antt =====
-- src/mcp/json_rpc/JsonRpcTypes.h: the checks with which every `from_json` of a message begins.
use Prim.Native.String.{String}
use mcp_server_cpp.Prelude.{arith, ◌≡◌, Bool, true, false, ◌&&◌, Option, none, some, if◌then◌else◌}
use mcp_server_cpp.Mcp.Json.{Json, object, is_object, is_string}

module _ (lib : Json) where
  open lib use {
    Value, kind, member, equals_text, of_string, equals_text_iff, get_string-of_string,
    kind-of_string,
  }

  -- `j.is_object()`, and `j["jsonrpc"]` is there and is `JSONRPC_VERSION`
  unfoldable pub has_version : Value → Bool
  has_version j =
      is_object (kind j)
      && elim (member j "jsonrpc") [ none ↦ false | some version ↦ equals_text version "2.0" ]

  -- `j["method"]`, if it is there and is a text
  unfoldable pub method_value : Value → Option Value
  method_value j = elim (member j "method") [
    | none ↦ none
    | some method ↦ if is_string (kind method) then some method else none
  ]

  -- Where the checks succeed.
  pub has_version_lem :
      (j : Value)
      → kind j ≡ object
      → member j "jsonrpc" ≡ some (of_string "2.0")
      → has_version j ≡ true
  unfolding has_version
  has_version_lem j k m =
      ground (arith, (equals_text_iff (of_string "2.0") "2.0").1 (get_string-of_string "2.0"))

  pub method_value_lem :
      (j : Value) (name : String)
      → member j "method" ≡ some (of_string name)
      → method_value j ≡ some (of_string name)
  unfolding method_value
  method_value_lem j name m = ground (arith, kind-of_string name)
