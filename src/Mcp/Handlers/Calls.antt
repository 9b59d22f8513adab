-- ===== src/Mcp/Handlers/Calls.antt =====
-- src/mcp/server/McpMethodHandlers.cc: `tools/call`, `resources/read` and `prompts/get`. `validate`
-- gives the errors of the arguments of a tool against its schema, or throws.
use Prim.Native.String.{String, ◌++◌}
use mcp_server_cpp.Prelude.{
  Bytes, true, not, ◌&&◌, Option, none, some, List, [], ◌∷◌, if◌then◌else◌,
}
use mcp_server_cpp.Mcp.Json.{Json, pos, is_string, Result, ok, thrown, is_some}
use mcp_server_cpp.Mcp.Json.Build.{build}
use mcp_server_cpp.Mcp.JsonRpc.ErrorCode.{invalid_params}
use mcp_server_cpp.Mcp.JsonRpc.RequestMeta
use mcp_server_cpp.Mcp.JsonRpc.RequestMeta.{get_or}
use mcp_server_cpp.Mcp.JsonRpc.Request.{Request}
use mcp_server_cpp.Mcp.Dispatcher.{Context, Handled, raises_mcp, raises, find}
use mcp_server_cpp.Mcp.Subscriptions.Listen.{accepts}
use mcp_server_cpp.Mcp.UriTemplate.{match_uri}
use mcp_server_cpp.Mcp.Handlers.{Handlers}
use mcp_server_cpp.Mcp.Handlers.Descriptor.{
  Called, returned, threw_mcp, threw, ToolResult, ToolDescriptor, CompiledTemplate, PromptArgument,
  result_to_json,
}
use mcp_server_cpp.Mcp.Handlers.Listing.{reply}

module _ (lib : Json) (json_error : String) where
  open lib use {Value, kind, member, get_string, of_string, of_int, of_items, empty_object}

  abbrev pub refuse : String → Option Value → Handled Value
  refuse message extra = raises_mcp invalid_params message extra

  -- The first check of each handler.
  unfoldable pub with_meta : Request Value → Handled Value → Handled Value
  with_meta r continue = elim (RequestMeta.extract_meta lib r) [
    | thrown ↦ raises json_error
    | ok m ↦ if accepts lib m then continue else refuse "Missing or invalid _meta in params" none
  ]

  -- A parameter that has to be a text. `contains` does not hold of what is no object.
  unfoldable pub param_text : Request Value → String → Option String
  param_text r key = elim r.params [
    | none ↦ none
    | some params ↦ elim (member params key) [
      | none ↦ none
      | some v ↦ if is_string (kind v) then get_string v else none
    ]
  ]

  -- `req.params->value("arguments", json::object())`
  unfoldable pub call_arguments : Request Value → Value
  call_arguments r = elim r.params [
    | none ↦ empty_object
    | some params ↦ get_or (member params "arguments") empty_object
  ]

  -- What an exception in a tool becomes.
  unfoldable pub tool_error : String → Value
  tool_error what = result_to_json lib (record {
    content =
        of_items (build lib (("type", of_string "text") ∷ ("text", of_string what) ∷ []) ∷ []);
    structured_content = none;
    is_error = true;
  })

  unfoldable pub execute : Request Value → Called Value (ToolResult Value) → Handled Value
  execute r (returned result) = reply lib json_error r.id (result_to_json lib result)
  execute r (threw_mcp code message extra) = reply lib json_error r.id (tool_error message)
  execute r (threw what) = reply lib json_error r.id (tool_error what)

  unfoldable pub call_tool :
      (Value → Value → Result (List Value))
      → ToolDescriptor Value
      → Request Value
      → Context Value
      → Handled Value
  call_tool validate t r ctx = elim (validate t.schema (call_arguments r)) [
    | thrown ↦ raises json_error
    | ok [] ↦ execute r (t.executor (call_arguments r) ctx)
    | ok (e ∷ errors) ↦
        refuse "Arguments do not match tool inputSchema"
          (some (build lib (("validation_errors", of_items (e ∷ errors)) ∷ [])))
  ]

  unfoldable pub tools_call :
      (Value → Value → Result (List Value))
      → Handlers Value
      → Request Value
      → Context Value
      → Handled Value
  tools_call validate h r ctx = with_meta r (elim (param_text r "name") [
    | none ↦ refuse "tools/call requires params.name" none
    | some name ↦ elim (find h.tools name) [
      | none ↦ refuse ("Unknown tool: " ++ name) none
      | some t ↦ call_tool validate t r ctx
    ]
  ])

  -- What a reader gives, as the answer to `resources/read`.
  unfoldable pub contents : Request Value → Called Value Value → Handled Value
  contents r (returned v) = reply lib json_error r.id (
      build lib (
        ("contents", v) ∷ ("ttlMs", of_int (pos 30000)) ∷ ("cacheScope", of_string "private") ∷ []))
  contents r (threw_mcp code message extra) = raises_mcp code message extra
  contents r (threw what) = raises what

  -- The loop over the templates, which ends at the first one that matches.
  unfoldable pub read_template :
      (String → Bytes)
      → Request Value
      → String
      → List (String × CompiledTemplate Value)
      → Handled Value
  read_template bytes r uri [] = refuse ("Unknown resource URI: " ++ uri) none
  read_template bytes r uri ((k, c) ∷ ts) = elim (match_uri c.compiled (bytes uri)) [
    | none ↦ read_template bytes r uri ts
    | some params ↦ contents r (c.descriptor.reader uri params)
  ]

  unfoldable pub resources_read : (String → Bytes) → Handlers Value → Request Value → Handled Value
  resources_read bytes h r = with_meta r (elim (param_text r "uri") [
    | none ↦ refuse "resources/read requires params.uri" none
    | some uri ↦ elim (find h.resources uri) [
      | none ↦ read_template bytes r uri h.resource_templates
      | some found ↦ contents r found.reader
    ]
  ])

  -- The first required argument that is not there.
  unfoldable pub missing_argument : Value → List PromptArgument → Option String
  missing_argument args [] = none
  missing_argument args (a ∷ rest) =
      let others = missing_argument args rest in
      if a.required && not (is_some (member args a.name)) then some a.name else others

  -- What a renderer gives, as the answer to `prompts/get`.
  unfoldable pub messages : Request Value → Called Value Value → Handled Value
  messages r (returned v) = reply lib json_error r.id (
      build lib
        (("messages", v) ∷ ("ttlMs", of_int (pos 0)) ∷ ("cacheScope", of_string "private") ∷ []))
  messages r (threw_mcp code message extra) = raises_mcp code message extra
  messages r (threw what) = raises what

  unfoldable pub prompts_get : Handlers Value → Request Value → Handled Value
  prompts_get h r = with_meta r (elim (param_text r "name") [
    | none ↦ refuse "prompts/get requires params.name" none
    | some name ↦ elim (find h.prompts name) [
      | none ↦ refuse ("Unknown prompt: " ++ name) none
      | some p ↦ elim (missing_argument (call_arguments r) p.arguments) [
        | some missing ↦ refuse ("Missing required argument: " ++ missing) none
        | none ↦ messages r (p.renderer (call_arguments r))
      ]
    ]
  ])
