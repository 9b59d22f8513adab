-- ===== src/Mcp.antt =====
-- src/mcp: the Model Context Protocol server.
pub mod Dispatcher
pub mod Handlers
pub mod HttpWriter
pub mod Json
pub mod JsonRpc
pub mod Server
pub mod Subscriptions
pub mod UriTemplate
pub mod Validator
