-- ===== src/Mcp/JsonRpc/SuccessResponse.antt =====
-- src/mcp/json_rpc/JsonRpcTypes.h: `SuccessResponse`.
use mcp_server_cpp.Prelude.{◌≡◌, not, Option, none, some, [], ◌∷◌, if◌then◌else◌, arith}
use mcp_server_cpp.Mcp.Json.{Json, object, can_hold, Result, ok, thrown, ◌>>=◌, is_some}
use mcp_server_cpp.Mcp.Json.Build.{build, kind-build, member-build}
use mcp_server_cpp.Mcp.JsonRpc.RequestId
use mcp_server_cpp.Mcp.JsonRpc.RequestId.{RequestId}
use mcp_server_cpp.Mcp.JsonRpc.Shape.{has_version, has_version_lem}

pub record SuccessResponse (V : Type 0) : Type 0 where
  pub id : RequestId
  pub result : V

module _ (lib : Json) where
  open lib use {Value, kind, member, of_string, set}

  -- A result without a type is completed; the assignment throws where the result is neither an
  -- object nor null.
  unfoldable pub make : RequestId → Value → Result (SuccessResponse Value)
  make id result =
      if is_some (member result "resultType")
      then ok (record { id = id; result = result })
      else if can_hold (kind result)
      then ok (record { id = id; result = set result "resultType" (of_string "complete") })
      else thrown

  unfoldable pub to_json : SuccessResponse Value → Value
  to_json r = build lib (
      ("jsonrpc", of_string "2.0") ∷ ("id", RequestId.to_json lib r.id) ∷ ("result", r.result) ∷ [])

  unfoldable pub from_json : Value → Result (Option (SuccessResponse Value))
  from_json j = if not (has_version lib j) then ok none else elim (member j "id") [
    | none ↦ ok none
    | some id ↦ elim (member j "result") [
      | none ↦ ok none
      | some result ↦
          if is_some (member j "error")
          then ok none
          else (RequestId.from_json lib id >>= elim [
            | none ↦ ok none
            | some rid ↦ ok (some (record { id = rid; result = result }))
          ])
    ]
  ]

  pub members :
      (r : SuccessResponse Value)
      → (kind (to_json r) ≡ object)
        × (member (to_json r) "jsonrpc" ≡ some (of_string "2.0"))
        × (member (to_json r) "id" ≡ some (RequestId.to_json lib r.id))
        × (member (to_json r) "result" ≡ some r.result)
        × (member (to_json r) "error" ≡ none)
        × (member (to_json r) "method" ≡ none)
  unfolding to_json
  members r = (
    kind-build lib _ _ _,
    member-build lib _ _,
    member-build lib _ _,
    member-build lib _ _,
    member-build lib _ _,
    member-build lib _ _,
  )

  pub from_json-to_json : (r : SuccessResponse Value) → from_json (to_json r) ≡ ok (some r)
  unfolding from_json
  from_json-to_json r =
      let (k, v, i, m, e, h) = members r in
      ground (arith, has_version_lem lib (to_json r) k v, RequestId.from_json-to_json lib r.id)

  -- A response that is made has a result type: the one that the handler chose, or `complete`.
  pub make_typed :
      (id : RequestId) (result : Value) (r : SuccessResponse Value)
      → make id result ≡ ok r
      → (r.id ≡ id)
        × (member r.result "resultType" ≡ elim (member result "resultType") [
          | some chosen ↦ some chosen
          | none ↦ some (of_string "complete")
        ])
  unfolding make
  make_typed id result r e =
      ground (arith, lib.member-set result "resultType" (of_string "complete") "resultType")
