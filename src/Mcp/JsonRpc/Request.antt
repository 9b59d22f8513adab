-- ===== src/Mcp/JsonRpc/Request.antt =====
-- src/mcp/json_rpc/JsonRpcTypes.h: `Request`.
use Prim.Native.String.{String}
use mcp_server_cpp.Prelude.{
  ◌≡◌, not, Option, none, some, ◌∷◌, if◌then◌else◌, arith, Option-cases, inl, inr,
}
use mcp_server_cpp.Mcp.Json.{Json, object, Result, ok, ◌>>=◌, or_throw}
use mcp_server_cpp.Mcp.Json.Build.{optional, build, kind-build, member-build}
use mcp_server_cpp.Mcp.JsonRpc.RequestId
use mcp_server_cpp.Mcp.JsonRpc.RequestId.{RequestId}
use mcp_server_cpp.Mcp.JsonRpc.Shape.{has_version, method_value, has_version_lem, method_value_lem}

pub record Request (V : Type 0) : Type 0 where
  pub id : RequestId
  pub method : String
  pub params : Option V

module _ (lib : Json) where
  open lib use {
    Value, kind, member, of_string, get_string, equals_text, equals_text_iff, kind-of_string,
    get_string-of_string, get_string-none_iff,
  }

  unfoldable pub to_json : Request Value → Value
  to_json r = build lib (
      ("jsonrpc", of_string "2.0")
      ∷ ("id", RequestId.to_json lib r.id)
      ∷ ("method", of_string r.method)
      ∷ optional "params" r.params)

  unfoldable pub from_json : Value → Result (Option (Request Value))
  from_json j = if not (has_version lib j) then ok none else elim (method_value lib j) [
    | none ↦ ok none
    | some method ↦ elim (member j "id") [
      | none ↦ ok none
      | some id ↦ do
        rid ← RequestId.from_json lib id
        elim rid [
          | none ↦ ok none
          | some rid ↦ do
            name ← or_throw (get_string method)
            ok (some (record { id = rid; method = name; params = member j "params" }))
        ]
    ]
  ]

  -- The keys of a request that is written.
  pub members :
      (r : Request Value)
      → (kind (to_json r) ≡ object)
        × (member (to_json r) "jsonrpc" ≡ some (of_string "2.0"))
        × (member (to_json r) "id" ≡ some (RequestId.to_json lib r.id))
        × (member (to_json r) "method" ≡ some (of_string r.method))
        × (member (to_json r) "params" ≡ r.params)
  unfolding to_json
  members r = elim (Option-cases r.params) [
    | inl e ↦ rw e (
      kind-build lib _ _ _,
      member-build lib _ _,
      member-build lib _ _,
      member-build lib _ _,
      member-build lib _ _,
    )
    | inr (p, e) ↦ rw e (
      kind-build lib _ _ _,
      member-build lib _ _,
      member-build lib _ _,
      member-build lib _ _,
      member-build lib _ _,
    )
  ]

  -- A request that is written is read back as it was.
  pub from_json-to_json : (r : Request Value) → from_json (to_json r) ≡ ok (some r)
  unfolding from_json
  from_json-to_json r =
      let (k, v, i, m, p) = members r in
      ground (
        arith,
        has_version_lem lib (to_json r) k v,
        method_value_lem lib (to_json r) r.method m,
        RequestId.from_json-to_json lib r.id,
        get_string-of_string r.method,
      )
