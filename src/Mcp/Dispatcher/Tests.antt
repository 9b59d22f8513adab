-- ===== src/Mcp/Dispatcher/Tests.antt =====
-- Runs of the dispatcher with the sample JSON library.
use mcp_server_cpp.Prelude.{arith, ◌≡◌, ◌↔◌, refl, none, some, [], ◌∷◌}
use mcp_server_cpp.Mcp.Json.{Json, pos, thrown}
use mcp_server_cpp.Mcp.Json.Build
use mcp_server_cpp.Mcp.Json.Sample.{an_array, Value, Fields, sample}
use mcp_server_cpp.Mcp.JsonRpc.ErrorCode
use mcp_server_cpp.Mcp.JsonRpc.ErrorCode.{ErrorCode, parse_error, invalid_request}
use mcp_server_cpp.Mcp.JsonRpc.RequestId
use mcp_server_cpp.Mcp.JsonRpc.RequestId.{RequestId}
use mcp_server_cpp.Mcp.JsonRpc.RequestMeta
use mcp_server_cpp.Mcp.JsonRpc.RequestMeta.{
  RequestMeta, build_mcp_params, extract_meta-build_mcp_params,
}
use mcp_server_cpp.Mcp.JsonRpc.Request
use mcp_server_cpp.Mcp.JsonRpc.Request.{Request}
use mcp_server_cpp.Mcp.JsonRpc.Notification.{Notification}
use mcp_server_cpp.Mcp.Dispatcher.{
  Dispatcher, Handler, opened, raises, find, make_context, handle_request, dispatch,
}
use mcp_server_cpp.Mcp.Dispatcher.Route.{dispatch-request}
use mcp_server_cpp.Mcp.Dispatcher.Throws.{Escapes, handle_request-throws}

-- A library whose `parse` reads every text as one value.
abbrev reading : Value → Json
reading v = sample (λ raw. some v)

abbrev open_stream : Handler Value
open_stream r ctx = opened

abbrev break_down : Handler Value
break_down r ctx = raises "out of memory"

abbrev d : Dispatcher Value
d = record {
  handlers = ("subscriptions/listen", open_stream) ∷ ("tools/call", break_down) ∷ [];
  notification_handlers = ("notifications/cancelled", "cancel") ∷ [];
}

abbrev call : Request Value
call = record { id = RequestId.number (pos 7, omega arith); method = "tools/call"; params = none }

abbrev cancelled : Notification Value
cancelled = record { method = "notifications/cancelled"; params = none }

abbrev bad_meta : Value
bad_meta = Value.obj (
    Fields.field "_meta"
      (Value.obj
        (Fields.field "io.modelcontextprotocol/protocolVersion" (Value.num (pos 3)) Fields.end))
      Fields.end)

abbrev bad_call : Request Value
bad_call = record {
  id = RequestId.number (pos 8, omega arith);
  method = "tools/call";
  params = some bad_meta;
}

abbrev silent : Value
silent = Value.obj (
    Fields.field "id" Value.nothing (
      Fields.field "method" (Value.text "tools/call")
        (Fields.field "jsonrpc" (Value.text "2.0") Fields.end)))

abbrev plain : Json
plain = reading an_array

dispatch-request_example :
    dispatch (reading (Request.to_json plain call)) d "{}"
    ≡ handle_request (reading (Request.to_json plain call)) d call
unfolding Request.to_json Build.build RequestId.to_json
dispatch-request_example = dispatch-request (reading (Request.to_json plain call)) d "{}" call refl

handle_request-throws_example :
    (handle_request plain d bad_call ≡ thrown) ↔ Escapes plain d bad_call
handle_request-throws_example = handle_request-throws plain d bad_call

-- A request with a handler whose protocol version is a number is answered by an exception.
bad_call_throws : handle_request plain d bad_call ≡ thrown
unfolding handle_request make_context RequestMeta.extract_meta RequestMeta.from_json find
bad_call_throws = refl

abbrev reporting : RequestMeta Value
reporting = record {
  protocol_version = "2026-07-28";
  client_capabilities = an_array;
  client_info = an_array;
  progress_token = some (Value.text "t");
}

abbrev long_call : Request Value
long_call = record call { params = some (build_mcp_params plain silent reporting) }
