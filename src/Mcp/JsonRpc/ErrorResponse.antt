-- ===== src/Mcp/JsonRpc/ErrorResponse.antt =====
-- src/mcp/json_rpc/JsonRpcTypes.h: `ErrorObject`, `ErrorResponse` and `make_error`.
use Prim.Native.String.{String}
use mcp_server_cpp.Prelude.{
  ◌≡◌, not, Option, none, some, [], ◌∷◌, if◌then◌else◌, arith, Option-cases, inl, inr,
}
use text.Mathlib.Text.{◌==◌}
use mcp_server_cpp.Mcp.Json.{
  Json, ℤ, negsuc, FitsInt, object, is_object, is_null, Result, ok, thrown, ◌>>=◌, or_throw,
}
use mcp_server_cpp.Mcp.Json.Build.{optional, build, kind-build, member-build}
use mcp_server_cpp.Mcp.JsonRpc.ErrorCode
use mcp_server_cpp.Mcp.JsonRpc.ErrorCode.{ErrorCode}
use mcp_server_cpp.Mcp.JsonRpc.RequestId
use mcp_server_cpp.Mcp.JsonRpc.RequestId.{RequestId}
use mcp_server_cpp.Mcp.JsonRpc.Shape.{has_version, has_version_lem}

pub record ErrorObject (V : Type 0) : Type 0 where
  pub code : ℤ
  pub message : String
  pub error_data : Option V

pub record ErrorResponse (V : Type 0) : Type 0 where
  pub id : Option RequestId
  pub error : ErrorObject V

module _ (lib : Json) where
  open lib use {
    Value, kind, member, of_string, of_int, get_string, get_int, null_value, kind-null,
    get_string-of_string, get_int-of_int,
  }

  unfoldable pub error_to_json : ErrorObject Value → Value
  error_to_json e =
      build lib
        (("code", of_int e.code) ∷ ("message", of_string e.message) ∷ optional "data" e.error_data)

  abbrev pub id_to_json : Option RequestId → Value
  id_to_json none = null_value
  id_to_json (some id) = RequestId.to_json lib id

  unfoldable pub to_json : ErrorResponse Value → Value
  to_json r = build lib (
      ("jsonrpc", of_string "2.0")
      ∷ ("id", id_to_json r.id)
      ∷ ("error", error_to_json r.error)
      ∷ [])

  -- `e.value(key, fallback)`, with `get` for the conversion; it throws where `e` is no object.
  unfoldable pub value_or : {A : Type 0} → (Value → Option A) → Value → String → A → Result A
  value_or get e key fallback =
      if is_object (kind e)
      then elim (member e key) [ none ↦ ok fallback | some v ↦ or_throw (get v) ]
      else thrown

  -- An identifier that is null or no identifier is left out.
  unfoldable pub read_id : Value → Result (Option RequestId)
  read_id j = elim (member j "id") [
    | none ↦ ok none
    | some id ↦ if is_null (kind id) then ok none else RequestId.from_json lib id
  ]

  unfoldable pub from_json : Value → Result (Option (ErrorResponse Value))
  unfolding read_id value_or
  from_json j = if not (has_version lib j) then ok none else elim (member j "error") [
    | none ↦ ok none
    | some e ↦ do
      id ← read_id j
      code ← value_or get_int e "code" (negsuc 32602)
      message ← value_or get_string e "message" "Unknown error"
      ok (
          some (record {
            id = id;
            error = record { code = code; message = message; error_data = member e "data" };
          }))
  ]

  unfoldable pub make_error : ErrorCode → Option RequestId → String → ErrorResponse Value
  make_error code id detail = record {
    id = id;
    error = record {
      code = ErrorCode.to_int code;
      message = ErrorCode.to_string code;
      error_data =
          if detail == "" then none else some (build lib (("detail", of_string detail) ∷ []));
    };
  }

  pub members :
      (r : ErrorResponse Value)
      → (kind (to_json r) ≡ object)
        × (member (to_json r) "jsonrpc" ≡ some (of_string "2.0"))
        × (member (to_json r) "id" ≡ some (id_to_json r.id))
        × (member (to_json r) "error" ≡ some (error_to_json r.error))
        × (member (to_json r) "method" ≡ none)
        × (member (to_json r) "result" ≡ none)
  unfolding to_json
  members r = (
    kind-build lib _ _ _,
    member-build lib _ _,
    member-build lib _ _,
    member-build lib _ _,
    member-build lib _ _,
    member-build lib _ _,
  )

  pub error_members :
      (e : ErrorObject Value)
      → (kind (error_to_json e) ≡ object)
        × (member (error_to_json e) "code" ≡ some (of_int e.code))
        × (member (error_to_json e) "message" ≡ some (of_string e.message))
        × (member (error_to_json e) "data" ≡ e.error_data)
  unfolding error_to_json
  error_members e = elim (Option-cases e.error_data) [
    | inl n ↦
        rw n
          (kind-build lib _ _ _, member-build lib _ _, member-build lib _ _, member-build lib _ _)
    | inr (d, n) ↦
        rw n
          (kind-build lib _ _ _, member-build lib _ _, member-build lib _ _, member-build lib _ _)
  ]

  read_id_lem :
      (j : Value) (id : Option RequestId) → member j "id" ≡ some (id_to_json id) → read_id j ≡ ok id
  unfolding read_id
  read_id_lem j none m = ground (arith, kind-null)
  read_id_lem j (some id) m =
      ground (arith, RequestId.is_null-to_json lib id, RequestId.from_json-to_json lib id)

  pub from_json-to_json :
      (r : ErrorResponse Value) → FitsInt r.error.code → from_json (to_json r) ≡ ok (some r)
  unfolding from_json
  from_json-to_json r fits =
      let (k, v, i, e, m, s) = members r in
      let (ek, c, t, d) = error_members r.error in
      ground (
        arith,
        has_version_lem lib (to_json r) k v,
        read_id_lem (to_json r) r.id i,
        get_int-of_int r.error.code fits,
        get_string-of_string r.error.message,
      )
