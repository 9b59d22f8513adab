-- ===== src/Mcp/Handlers.antt =====
-- src/mcp/server/McpMethodHandlers.h and McpMethodHandlers.cc: the tables of what a server offers.
-- A map is an association list in the order in which it is iterated. The registry of the
-- subscriptions is in Mcp/Subscriptions. `bytes` is the text of a URI template as bytes.
pub mod Descriptor
pub mod Sort
pub mod Listing
pub mod Calls
pub mod Discover
pub mod Register
pub mod Lists
pub mod Tools
pub mod Serve
pub mod Schema
pub mod Resources
pub mod Prompts
pub mod Negotiate
mod Tests
use Prim.Native.String.{String}
use mcp_server_cpp.Prelude.{Bytes, Bool, true, false, Option, none, some, List, []}
use mcp_server_cpp.Mcp.Json.{ℤ, pos, Result, ok, thrown, ◌>>=◌}
use mcp_server_cpp.Mcp.Dispatcher.{emplace}
use mcp_server_cpp.Mcp.UriTemplate.{UriTemplate, parsed, parse}
use mcp_server_cpp.Mcp.Handlers.Descriptor.{
  ToolDescriptor, ResourceDescriptor, ResourceTemplateDescriptor, CompiledTemplate,
  PromptDescriptor,
}

pub record Handlers (V : Type 0) : Type 0 where
  pub tools : List (String × ToolDescriptor V)
  pub resources : List (String × ResourceDescriptor V)
  pub resource_templates : List (String × CompiledTemplate V)
  pub prompts : List (String × PromptDescriptor V)
  pub frozen : Bool
  pub server_name : String
  pub server_version : String
  pub supported_versions : List String
  pub instructions : Option String
  pub discover_ttl_ms : ℤ

-- The members as they are initialised.
abbrev pub fresh : {V : Type 0} → Handlers V
fresh = record {
  tools = [];
  resources = [];
  resource_templates = [];
  prompts = [];
  frozen = false;
  server_name = "mcp-server";
  server_version = "1.0.0";
  supported_versions = [];
  instructions = none;
  discover_ttl_ms = pos 3600000;
}

-- The constructor of `UriTemplate`, which throws where the template is not supported.
unfoldable pub compile : (String → Bytes) → String → Result UriTemplate
compile bytes text = elim (parse (bytes text)) [
  | none ↦ thrown
  | some p ↦ elim p [ parsed c ↦ ok (record { original = bytes text; compiled = c }) | _ ↦ thrown ]
]

module _ {V : Type 0} where
  -- An operation that throws leaves the tables as they were.
  unfoldable pub check_not_frozen : Handlers V → Result (Unit {0})
  check_not_frozen h = elim h.frozen [ true ↦ thrown | false ↦ ok tt ]

  unfoldable pub freeze : Handlers V → Handlers V
  freeze h = record h { frozen = true }

  unfoldable pub set_discover_config :
      Handlers V → String → String → List String → Option String → ℤ → Result (Handlers V)
  set_discover_config h name version versions instructions ttl = check_not_frozen h >>= λ _.
      ok (record h {
        server_name = name;
        server_version = version;
        supported_versions = versions;
        instructions = instructions;
        discover_ttl_ms = ttl;
      })

  unfoldable pub register_tool : Handlers V → ToolDescriptor V → Result (Handlers V)
  register_tool h t =
      check_not_frozen h >>= λ _. ok (record h { tools = (emplace h.tools t.name t).0 })

  unfoldable pub register_resource : Handlers V → ResourceDescriptor V → Result (Handlers V)
  register_resource h r =
      check_not_frozen h >>= λ _. ok (record h { resources = (emplace h.resources r.uri r).0 })

  -- The template is compiled before the table is looked at.
  unfoldable pub register_resource_template :
      (String → Bytes) → Handlers V → ResourceTemplateDescriptor V → Result (Handlers V)
  register_resource_template bytes h r = check_not_frozen h >>= λ _.
      compile bytes r.uri_template >>= λ t. ok (record h {
        resource_templates =
            (emplace h.resource_templates r.uri_template
              (record { compiled = t; descriptor = r })).0;
      })

  unfoldable pub register_prompt : Handlers V → PromptDescriptor V → Result (Handlers V)
  register_prompt h p =
      check_not_frozen h >>= λ _. ok (record h { prompts = (emplace h.prompts p.name p).0 })
