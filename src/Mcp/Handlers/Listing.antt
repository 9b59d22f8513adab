-- ===== src/Mcp/Handlers/Listing.antt =====
-- src/mcp/server/McpMethodHandlers.cc: `tools/list`, `resources/list`, `resources/templates/list` and
-- `prompts/list`. `json_error` is the text of an exception that the JSON library throws.
use Prim.Native.String.{String}
use mcp_server_cpp.Prelude.{Bool, true, false, none, some, List, [], ◌∷◌, map}
use mcp_server_cpp.Mcp.Json.{Json, ℤ, pos, ok, thrown, is_some}
use mcp_server_cpp.Mcp.Json.Build.{build}
use mcp_server_cpp.Mcp.JsonRpc.ErrorCode.{invalid_params}
use mcp_server_cpp.Mcp.JsonRpc.RequestId.{RequestId}
use mcp_server_cpp.Mcp.JsonRpc.Request.{Request}
use mcp_server_cpp.Mcp.JsonRpc.SuccessResponse
use mcp_server_cpp.Mcp.Dispatcher.{Handled, success, raises_mcp, raises}
use mcp_server_cpp.Mcp.Handlers.{Handlers}
use mcp_server_cpp.Mcp.Handlers.Descriptor.{
  ToolDescriptor, ResourceDescriptor, CompiledTemplate, PromptDescriptor, tool_to_json,
  resource_to_json, template_to_json, prompt_to_json,
}
use mcp_server_cpp.Mcp.Handlers.Sort.{sort}

-- `it->second` for every entry of a map.
abbrev pub values : {H : Type 0} → List (String × H) → List H
values m = map (λ e. e.1) m

module _ {V : Type 0} where
  abbrev pub tool_name : ToolDescriptor V → String
  tool_name t = t.name

  abbrev pub resource_uri : ResourceDescriptor V → String
  resource_uri r = r.uri

  abbrev pub template_uri : CompiledTemplate V → String
  template_uri c = c.descriptor.uri_template

  abbrev pub prompt_name : PromptDescriptor V → String
  prompt_name p = p.name

module _ (lib : Json) (json_error : String) where
  open lib use {Value, member, of_string, of_int, of_items}

  -- `return SuccessResponse::make(req.id, result)`
  unfoldable pub reply : RequestId → Value → Handled Value
  reply id result = elim (SuccessResponse.make lib id result) [
    | ok s ↦ success s
    | thrown ↦ raises json_error
  ]

  -- The part of a result that the four lists have in common.
  unfoldable pub listing : Request Value → String → List Value → ℤ → String → Handled Value
  listing r key items ttl scope = reply r.id (
      build lib
        ((key, of_items items) ∷ ("ttlMs", of_int ttl) ∷ ("cacheScope", of_string scope) ∷ []))

  unfoldable pub has_cursor : Request Value → Bool
  has_cursor r = elim r.params [ none ↦ false | some params ↦ is_some (member params "cursor") ]

  unfoldable pub tools_list : Handlers Value → Request Value → Handled Value
  tools_list h r = elim (has_cursor r) [
    | true ↦ raises_mcp invalid_params "Pagination not yet implemented" none
    | false ↦
        listing r "tools" (map (tool_to_json lib) (sort tool_name (values h.tools))) (pos 300000)
          "public"
  ]

  unfoldable pub resources_list : Handlers Value → Request Value → Handled Value
  resources_list h r =
      listing r "resources" (map (resource_to_json lib) (sort resource_uri (values h.resources)))
        (pos 60000) "private"

  unfoldable pub resource_templates_list : Handlers Value → Request Value → Handled Value
  resource_templates_list h r =
      listing r "resourceTemplates"
        (map (template_to_json lib) (sort template_uri (values h.resource_templates))) (pos 300000)
        "public"

  unfoldable pub prompts_list : Handlers Value → Request Value → Handled Value
  prompts_list h r =
      listing r "prompts" (map (prompt_to_json lib) (sort prompt_name (values h.prompts)))
        (pos 300000) "public"
