-- ===== src/Mcp/Server.antt =====
-- src/mcp/McpServer.h and McpServer.cc: the server, which takes registrations until it is started, once,
-- on HTTP or on standard input. The executor, the event loop and the HTTP server are left out; the
-- dispatcher is what the handlers are attached to.
pub mod Stdio
pub mod Started
mod Tests
use Prim.Native.String.{String}
use mcp_server_cpp.Prelude.{Bytes, ℕ, Bool, true, false, Option, none, some, List, [], ◌∷◌}
use mcp_server_cpp.Mcp.Json.{Json, ℤ, pos, Result, ok, thrown, ◌>>=◌}
use mcp_server_cpp.Mcp.Dispatcher.{Outcome, response, Dispatcher, Dispatched, dispatch}
use mcp_server_cpp.Mcp.Handlers.{
  Handlers, fresh, set_discover_config, freeze, register_tool, register_resource,
  register_resource_template, register_prompt,
}
use mcp_server_cpp.Mcp.Handlers.Descriptor.{
  ToolDescriptor, ResourceDescriptor, ResourceTemplateDescriptor, PromptDescriptor,
}

-- The options that the server reads for its handlers.
pub record Options : Type 0 where
  pub name : String
  pub version : String
  pub supported_versions : List String
  pub discover_ttl_ms : ℤ
  pub instructions : Option String

pub data Transport : Type 0 where
  no_transport : Transport
  http : String → ℕ → Transport
  stdio : Transport

pub record McpServer (V : Type 0) : Type 0 where
  pub handlers : Handlers V
  pub transport : Transport
  pub started : Bool

module _ {V : Type 0} where
  unfoldable pub create : Options → Result (McpServer V)
  create opts =
      set_discover_config fresh opts.name opts.version opts.supported_versions opts.instructions
        opts.discover_ttl_ms
      >>= λ h. ok (record { handlers = h; transport = no_transport; started = false })

  -- A registration: it throws once the server is started.
  unfoldable pub registers : McpServer V → (Handlers V → Result (Handlers V)) → Result (McpServer V)
  registers s register = elim s.started [
    | true ↦ thrown
    | false ↦ register s.handlers >>= λ h. ok (record s { handlers = h })
  ]

  unfoldable pub add_tool : McpServer V → ToolDescriptor V → Result (McpServer V)
  add_tool s t = registers s (λ h. register_tool h t)

  unfoldable pub add_resource : McpServer V → ResourceDescriptor V → Result (McpServer V)
  add_resource s r = registers s (λ h. register_resource h r)

  unfoldable pub add_resource_template :
      (String → Bytes) → McpServer V → ResourceTemplateDescriptor V → Result (McpServer V)
  add_resource_template bytes s r = registers s (λ h. register_resource_template bytes h r)

  unfoldable pub add_prompt : McpServer V → PromptDescriptor V → Result (McpServer V)
  add_prompt s p = registers s (λ h. register_prompt h p)

  -- `started_.exchange(true)`, and what follows until the transport blocks.
  unfoldable pub start : McpServer V → Transport → Result (McpServer V)
  start s transport = elim s.started [
    | true ↦ thrown
    | false ↦ ok (record { handlers = freeze s.handlers; transport = transport; started = true })
  ]

  unfoldable pub listen_http : McpServer V → String → ℕ → Result (McpServer V)
  listen_http s addr port = start s (http addr port)

  unfoldable pub run_stdio : McpServer V → Result (McpServer V)
  run_stdio s = start s stdio

module _ (lib : Json) where
  open lib use {Value, dump}

  -- The handler that `run_stdio` gives to its transport.
  unfoldable pub answer_line : Dispatcher Value → String → Result (Option String)
  answer_line d raw = dispatch lib d raw >>= λ result. elim result.outcome [
    | response payload ↦ ok (some (dump payload))
    | _ ↦ ok none
  ]
