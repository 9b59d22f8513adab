-- ===== src/Mcp/JsonRpc/RequestId.antt =====
-- src/mcp/json_rpc/JsonRpcTypes.h: `RequestId`, a text or a number of type `int64_t`.
use Prim.Native.String.{String}
use mcp_server_cpp.Prelude.{◌≡◌, ◌≢◌, ap, false, Option, none, some, if◌then◌else◌, arith}
use mcp_server_cpp.Mcp.Json.{
  Json, Int64, is_string, is_number_integer, is_null, Result, ok, thrown, ◌>>=◌, or_throw,
}

pub data RequestId : Type 0 where
  text : String → RequestId
  number : Int64 → RequestId

module _ (lib : Json) where
  open lib use {
    Value, kind, get_string, get_int64, of_string, of_int, kind-of_string, kind-of_int,
    get_string-of_string, get_int64-of_int, get_string-none_iff, get_int64_integer,
  }

  unfoldable pub to_json : RequestId → Value
  to_json (text s) = of_string s
  to_json (number n) = of_int n.0

  -- Null, floating-point numbers, objects and arrays are no identifiers.
  unfoldable pub from_json : Value → Result (Option RequestId)
  from_json v =
      if is_string (kind v)
      then (or_throw (get_string v) >>= λ s. ok (some (text s)))
      else if is_number_integer (kind v)
      then (or_throw (get_int64 v) >>= λ n. ok (some (number n)))
      else ok none

  pub from_json-to_json : (i : RequestId) → from_json (to_json i) ≡ ok (some i)
  unfolding from_json to_json
  from_json-to_json (text s) = ground (arith, kind-of_string s, get_string-of_string s)
  from_json-to_json (number n) = ground (arith, kind-of_int n.0, get_int64-of_int n)

  pub is_null-to_json : (i : RequestId) → is_null (kind (to_json i)) ≡ false
  unfolding to_json
  is_null-to_json (text s) = ap is_null (kind-of_string s)
  is_null-to_json (number n) = ap is_null (kind-of_int n.0)

  -- Reading an identifier does not throw.
  pub from_json_returns : (v : Value) → from_json v ≢ thrown
  unfolding from_json
  from_json_returns v = ground (arith, get_string-none_iff v, get_int64_integer v)
