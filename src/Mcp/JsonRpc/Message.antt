-- ===== src/Mcp/JsonRpc/Message.antt =====
-- src/mcp/json_rpc/JsonRpcTypes.h: `JsonRpcMessage`, which tells the four kinds of message apart.
use mcp_server_cpp.Prelude.{◌≡◌, not, Bool, false, Option, none, some, if◌then◌else◌, arith}
use mcp_server_cpp.Mcp.Json.{Json, FitsInt, is_object, is_null, Result, ok, ◌>>=◌, is_some}
use mcp_server_cpp.Mcp.JsonRpc.RequestId
use mcp_server_cpp.Mcp.JsonRpc.Request
use mcp_server_cpp.Mcp.JsonRpc.Request.{Request}
use mcp_server_cpp.Mcp.JsonRpc.Notification
use mcp_server_cpp.Mcp.JsonRpc.Notification.{Notification}
use mcp_server_cpp.Mcp.JsonRpc.SuccessResponse
use mcp_server_cpp.Mcp.JsonRpc.SuccessResponse.{SuccessResponse}
use mcp_server_cpp.Mcp.JsonRpc.ErrorResponse
use mcp_server_cpp.Mcp.JsonRpc.ErrorResponse.{ErrorResponse}

pub data Message (V : Type 0) : Type 0 where
  request : Request V → Message V
  notification : Notification V → Message V
  success : SuccessResponse V → Message V
  error : ErrorResponse V → Message V

-- The kind of message that a value was read as.
abbrev pub tagged {ℓ κ} : {A : Type ℓ} {B : Type κ} → (A → B) → Option A → Option B
tagged f none = none
tagged f (some a) = some (f a)

-- The code of an error is an `int`.
abbrev pub IsWritable : {V : Type 0} → Message V → Type 0
IsWritable (error r) = FitsInt r.error.code
IsWritable _ = Unit {0}

module _ (lib : Json) where
  open lib use {Value, kind, member}

  -- `j["id"]` is there and is not null.
  unfoldable pub has_id : Value → Bool
  has_id j = elim (member j "id") [ none ↦ false | some id ↦ not (is_null (kind id)) ]

  unfoldable pub to_json : Message Value → Value
  to_json (request r) = Request.to_json lib r
  to_json (notification n) = Notification.to_json lib n
  to_json (success r) = SuccessResponse.to_json lib r
  to_json (error r) = ErrorResponse.to_json lib r

  unfoldable pub from_json : Value → Result (Option (Message Value))
  unfolding has_id
  from_json j =
      if not (is_object (kind j))
      then ok none
      else if is_some (member j "method")
      then if has_id j
        then (Request.from_json lib j >>= λ r. ok (tagged request r))
        else (Notification.from_json lib j >>= λ n. ok (tagged notification n))
      else if is_some (member j "result")
      then (SuccessResponse.from_json lib j >>= λ r. ok (tagged success r))
      else if is_some (member j "error")
      then (ErrorResponse.from_json lib j >>= λ r. ok (tagged error r))
      else ok none

  -- Every message that is written, of whatever kind, is read back as that kind of message and as
  -- it was, if the code of an error is an `int`.
  pub from_json-to_json : (m : Message Value) → IsWritable m → from_json (to_json m) ≡ ok (some m)
  unfolding from_json to_json
  from_json-to_json (request r) w =
      let (k, v, i, m, p) = Request.members lib r in
      ground (arith, RequestId.is_null-to_json lib r.id, Request.from_json-to_json lib r)
  from_json-to_json (notification n) w =
      let (k, v, i, m, p) = Notification.members lib n in
      ground (arith, Notification.from_json-to_json lib n)
  from_json-to_json (success r) w =
      let (k, v, i, s, e, m) = SuccessResponse.members lib r in
      ground (arith, SuccessResponse.from_json-to_json lib r)
  from_json-to_json (error r) w =
      let (k, v, i, e, m, s) = ErrorResponse.members lib r in
      ground (arith, ErrorResponse.from_json-to_json lib r w)
