-- ===== src/Mcp/JsonRpc/Tests.antt =====
-- Runs of the message types with the sample JSON library.
use mcp_server_cpp.Prelude.{◌≡◌, none, some, arith}
use mcp_server_cpp.Mcp.Json.{Json, negsuc, ok}
use mcp_server_cpp.Mcp.Json.Sample.{an_array, Value, Fields, sample}
use mcp_server_cpp.Mcp.JsonRpc.Message.{Message, from_json, to_json, from_json-to_json}
use mcp_server_cpp.Mcp.JsonRpc.RequestMeta.{RequestMeta}

abbrev lib : Json
lib = sample (λ raw. none)

-- An error without an identifier.
abbrev unreadable : Message Value
unreadable = Message.error (record {
  id = none;
  error = record { code = negsuc 32699; message = "Parse error"; error_data = some an_array };
})

from_json-to_json_example : from_json lib (to_json lib unreadable) ≡ ok (some unreadable)
from_json-to_json_example = from_json-to_json lib unreadable (omega arith)

abbrev tools : Value
tools = Value.obj (Fields.field "tools" an_array Fields.end)

abbrev client : RequestMeta Value
client = record {
  protocol_version = "2026-07-28";
  client_capabilities = tools;
  client_info = tools;
  progress_token = none;
}
