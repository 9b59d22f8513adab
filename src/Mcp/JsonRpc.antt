-- ===== src/Mcp/JsonRpc.antt =====
-- src/mcp/json_rpc/JsonRpcTypes.h: the messages of JSON-RPC 2.0, as they are read and written.
pub mod ErrorCode
pub mod RequestId
pub mod RequestMeta
pub mod Shape
pub mod Request
pub mod Notification
pub mod SuccessResponse
pub mod ErrorResponse
pub mod Message
mod Tests
