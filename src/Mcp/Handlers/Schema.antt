-- ===== src/Mcp/Handlers/Schema.antt =====
-- src/mcp/server/McpMethodHandlers.cc and src/mcp/json_rpc/InputValidator.h: a call of a tool with the
-- validator of this server.
use Prim.Native.String.{String}
use mcp_server_cpp.Mcp.Json.{Json}
use mcp_server_cpp.Mcp.JsonRpc.RequestMeta
use mcp_server_cpp.Mcp.JsonRpc.RequestMeta.{RequestMeta}
use mcp_server_cpp.Mcp.JsonRpc.Request.{Request}
use mcp_server_cpp.Mcp.Validator.Conforms.{Conforms}
use mcp_server_cpp.Mcp.Handlers.{Handlers}
