-- ===== src/Mcp/JsonRpc/ErrorCode.antt =====
-- src/mcp/json_rpc/JsonRpcTypes.h: `ErrorCode`, its numbers and its texts.
use Prim.Native.String.{String}
use mcp_server_cpp.Prelude.{arith}
use mcp_server_cpp.Mcp.Json.{ℤ, negsuc, FitsInt}

pub data ErrorCode : Type 0 where
  parse_error invalid_request method_not_found invalid_params internal_error : ErrorCode
  header_mismatch unsupported_protocol_version : ErrorCode

-- `static_cast<int>(code)`; `negsuc n` is -(n + 1).
unfoldable pub to_int : ErrorCode → ℤ
to_int parse_error = negsuc 32699
to_int invalid_request = negsuc 32599
to_int method_not_found = negsuc 32600
to_int invalid_params = negsuc 32601
to_int internal_error = negsuc 32602
to_int header_mismatch = negsuc 32019
to_int unsupported_protocol_version = negsuc 32020

unfoldable pub to_string : ErrorCode → String
to_string parse_error = "Parse error"
to_string invalid_request = "Invalid Request"
to_string method_not_found = "Method not found"
to_string invalid_params = "Invalid params"
to_string internal_error = "Internal error"
to_string header_mismatch = "Header mismatch"
to_string unsupported_protocol_version = "Unsupported protocol version"

pub to_int-FitsInt : (c : ErrorCode) → FitsInt (to_int c)
unfolding to_int
to_int-FitsInt parse_error = omega arith
to_int-FitsInt invalid_request = omega arith
to_int-FitsInt _ = omega arith
