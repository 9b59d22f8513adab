-- ===== src/Mcp/Dispatcher.antt =====
-- src/mcp/json_rpc/MethodDispatcher.h and MethodDispatcher.cc: from the text of a message to the
-- handler of its method, and back to what the transport sends.
-- A handler is a function of the request and its context that answers or throws; what it sends
-- through the writer is not modelled, nor is logging. A map is an association list. The lock is held
-- only for one look at a map, so each operation is one step.
pub mod Route
pub mod Throws
pub mod Progress
mod Tests
use Prim.Native.String.{String}
use package.text.Mathlib.Text.{◌==◌}
use mcp_server_cpp.Prelude.{
  Bool, true, false, not, ◌&&◌, Option, none, some, List, [], ◌∷◌, if◌then◌else◌,
}
use mcp_server_cpp.Mcp.Json.{
  Json, Int64, is_string, is_number_integer, is_array, is_null, Result, ok, thrown, ◌>>=◌, is_some,
}
use mcp_server_cpp.Mcp.JsonRpc.ErrorCode
use mcp_server_cpp.Mcp.JsonRpc.ErrorCode.{
  ErrorCode, parse_error, invalid_request, method_not_found, internal_error,
}
use mcp_server_cpp.Mcp.JsonRpc.RequestMeta
use mcp_server_cpp.Mcp.JsonRpc.RequestMeta.{RequestMeta}
use mcp_server_cpp.Mcp.JsonRpc.Request
use mcp_server_cpp.Mcp.JsonRpc.Request.{Request}
use mcp_server_cpp.Mcp.JsonRpc.Notification
use mcp_server_cpp.Mcp.JsonRpc.Notification.{Notification}
use mcp_server_cpp.Mcp.JsonRpc.SuccessResponse
use mcp_server_cpp.Mcp.JsonRpc.SuccessResponse.{SuccessResponse}
use mcp_server_cpp.Mcp.JsonRpc.ErrorResponse
use mcp_server_cpp.Mcp.JsonRpc.ErrorResponse.{ErrorResponse}
use mcp_server_cpp.Mcp.JsonRpc.Message.{has_id}

-- `DispatchOutcome`
pub data Outcome (V : Type 0) : Type 0 where
  response : V → Outcome V
  notification stream_opened : Outcome V

pub data ProgressToken : Type 0 where
  text : String → ProgressToken
  number : Int64 → ProgressToken

-- `DefaultRequestContext`, without its writer.
pub record Context (V : Type 0) : Type 0 where
  pub request_meta : RequestMeta V
  pub progress_token : Option ProgressToken

-- What a handler does: one of the three answers of `HandlerResult`, or an exception of the
-- protocol, or another exception that derives from `std::exception`, or throws something else.
pub data Handled (V : Type 0) : Type 0 where
  success : SuccessResponse V → Handled V
  failure : ErrorResponse V → Handled V
  opened : Handled V
  raises_mcp : ErrorCode → String → Option V → Handled V
  raises : String → Handled V
  raises_other : Handled V

abbrev pub Handler : Type 0 → Type 0
Handler V = Request V → Context V → Handled V

module _ {ℓ} {H : Type ℓ} where
  -- `find`
  unfoldable pub find : List (String × H) → String → Option H
  find [] k = none
  find ((j, h) ∷ m) k = if j == k then some h else find m k

  -- `emplace(...)`: a key that is there keeps its value.
  unfoldable pub emplace : List (String × H) → String → H → List (String × H) × Bool
  emplace m k h = if is_some (find m k) then (m, false) else ((k, h) ∷ m, true)

-- A notification handler is named; what it does stays outside.
pub record Dispatcher (V : Type 0) : Type 0 where
  pub handlers : List (String × Handler V)
  pub notification_handlers : List (String × String)

module _ {V : Type 0} where
  unfoldable pub register_handler : Dispatcher V → String → Handler V → Dispatcher V × Bool
  register_handler d method handler =
      let (m, fresh) = emplace d.handlers method handler in (record d { handlers = m }, fresh)

  unfoldable pub register_notification : Dispatcher V → String → String → Dispatcher V × Bool
  register_notification d method handler =
      let (m, fresh) = emplace d.notification_handlers method handler in
      (record d { notification_handlers = m }, fresh)

-- What a dispatch does: its outcome, and the notification handler that was called, with what.
pub record Dispatched (V : Type 0) : Type 0 where
  pub outcome : Outcome V
  pub called : Option (String × Notification V)

module _ (lib : Json) where
  open lib use {Value, kind, member, get_string, get_int64, parse, out_of_range, empty_object}

  abbrev pub answered : Outcome Value → Dispatched Value
  answered o = record { outcome = o; called = none }

  -- `make_response(make_error(...).to_json())`
  abbrev pub refused : ErrorResponse Value → Dispatched Value
  refused e = answered (response (ErrorResponse.to_json lib e))

  abbrev pub default_meta : RequestMeta Value
  default_meta = record {
    protocol_version = "2026-07-28";
    client_capabilities = empty_object;
    client_info = empty_object;
    progress_token = none;
  }

  unfoldable pub read_token : Option Value → Option ProgressToken
  read_token none = none
  read_token (some v) =
      if is_string (kind v)
      then elim (get_string v) [ none ↦ none | some s ↦ some (text s) ]
      else if is_number_integer (kind v)
      then elim (get_int64 v) [ none ↦ none | some n ↦ some (number n) ]
      else none

  unfoldable pub make_context : Request Value → Result (Context Value)
  make_context r = RequestMeta.extract_meta lib r >>= λ found.
      let m = RequestMeta.get_or found default_meta in
      ok (record { request_meta = m; progress_token = read_token m.progress_token })

  -- The answer of a handler, with the exceptions that are caught; what does not derive from
  -- `std::exception` is not.
  unfoldable pub settle : Request Value → Handled Value → Result (Outcome Value)
  settle r (success s) = ok (response (SuccessResponse.to_json lib s))
  settle r (failure e) = ok (response (ErrorResponse.to_json lib e))
  settle r opened = ok stream_opened
  settle r (raises_mcp code message extra) = ok (
      response (
        ErrorResponse.to_json lib (record {
          id = some r.id;
          error = record { code = ErrorCode.to_int code; message = message; error_data = extra };
        })))
  settle r (raises what) = ok (
      response
        (ErrorResponse.to_json lib (ErrorResponse.make_error lib internal_error (some r.id) what)))
  settle r raises_other = thrown

  -- The context is made outside the `try`.
  unfoldable pub handle_request : Dispatcher Value → Request Value → Result (Dispatched Value)
  handle_request d r = elim (find d.handlers r.method) [
    | none ↦ ok (refused (ErrorResponse.make_error lib method_not_found (some r.id) r.method))
    | some handler ↦
        make_context r >>= λ ctx. settle r (handler r ctx) >>= λ outcome. ok (answered outcome)
  ]

  unfoldable pub handle_notification : Dispatcher Value → Notification Value → Dispatched Value
  handle_notification d n = elim (find d.notification_handlers n.method) [
    | none ↦ answered notification
    | some handler ↦ record { outcome = notification; called = some (handler, n) }
  ]

  unfoldable pub dispatch_single : Dispatcher Value → Value → Result (Dispatched Value)
  dispatch_single d j =
      if is_some (member j "method")
      then if has_id lib j
        then (Request.from_json lib j >>= elim [
          | none ↦ ok (refused (ErrorResponse.make_error lib invalid_request none ""))
          | some r ↦ handle_request d r
        ])
        else (Notification.from_json lib j
            >>= elim [ none ↦ ok (answered notification) | some n ↦ ok (handle_notification d n) ])
      else ok (refused (ErrorResponse.make_error lib invalid_request none ""))

  -- Only a `parse_error` is caught: a number that is out of range leaves the call as an exception.
  unfoldable pub dispatch : Dispatcher Value → String → Result (Dispatched Value)
  dispatch d raw = elim (parse raw) [
    | none ↦
        if out_of_range raw
        then thrown
        else ok (refused (ErrorResponse.make_error lib parse_error none ""))
    | some j ↦
        if is_array (kind j)
        then ok (
            refused (
              ErrorResponse.make_error lib invalid_request none
                "Batch requests are not supported in MCP 2026-07-28"))
        else dispatch_single d j
  ]
