-- ===== src/Mcp/JsonRpc/Notification.antt =====
-- src/mcp/json_rpc/JsonRpcTypes.h: `Notification`, a message without an identifier.
use Prim.Native.String.{String}
use mcp_server_cpp.Prelude.{
  ◌≡◌, not, Option, none, some, ◌∷◌, if◌then◌else◌, arith, Option-cases, inl, inr,
}
use mcp_server_cpp.Mcp.Json.{Json, object, Result, ok, ◌>>=◌, or_throw, is_some}
use mcp_server_cpp.Mcp.Json.Build.{optional, build, kind-build, member-build}
use mcp_server_cpp.Mcp.JsonRpc.Shape.{has_version, method_value, has_version_lem, method_value_lem}

pub record Notification (V : Type 0) : Type 0 where
  pub method : String
  pub params : Option V

module _ (lib : Json) where
  open lib use {Value, kind, member, of_string, get_string, get_string-of_string}

  unfoldable pub to_json : Notification Value → Value
  to_json n =
      build lib
        (("jsonrpc", of_string "2.0") ∷ ("method", of_string n.method) ∷ optional "params" n.params)

  -- A message with an identifier, be it null, is no notification.
  unfoldable pub from_json : Value → Result (Option (Notification Value))
  from_json j = if not (has_version lib j) then ok none else elim (method_value lib j) [
    | none ↦ ok none
    | some method ↦
        if is_some (member j "id")
        then ok none
        else (or_throw (get_string method) >>= λ name.
            ok (some (record { method = name; params = member j "params" })))
  ]

  pub members :
      (n : Notification Value)
      → (kind (to_json n) ≡ object)
        × (member (to_json n) "jsonrpc" ≡ some (of_string "2.0"))
        × (member (to_json n) "id" ≡ none)
        × (member (to_json n) "method" ≡ some (of_string n.method))
        × (member (to_json n) "params" ≡ n.params)
  unfolding to_json
  members n = elim (Option-cases n.params) [
    | inl e ↦ rw e (
      kind-build lib _ _ _,
      member-build lib _ _,
      member-build lib _ _,
      member-build lib _ _,
      member-build lib _ _,
    )
    | inr (p, e) ↦ rw e (
      kind-build lib _ _ _,
      member-build lib _ _,
      member-build lib _ _,
      member-build lib _ _,
      member-build lib _ _,
    )
  ]

  pub from_json-to_json : (n : Notification Value) → from_json (to_json n) ≡ ok (some n)
  unfolding from_json
  from_json-to_json n =
      let (k, v, i, m, p) = members n in
      ground (
        arith,
        has_version_lem lib (to_json n) k v,
        method_value_lem lib (to_json n) n.method m,
        get_string-of_string n.method,
      )
