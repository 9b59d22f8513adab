-- ===== src/Mcp/Handlers/Discover.antt =====
-- src/mcp/server/McpMethodHandlers.cc: `server/discover`, and the constructor, which registers the
-- handlers with the dispatcher. A handler of the dispatcher sees the tables as they are when it
-- runs; `attach` is given those.
use Prim.Native.String.{String}
use package.text.Mathlib.Text.{◌==◌}
use mcp_server_cpp.Prelude.{
  Bytes, Bool, true, false, not, ◌||◌, none, some, List, [], ◌∷◌, ◌++◌, concat, if◌then◌else◌,
}
use mcp_server_cpp.Mcp.Json.{Json, Result, ok, thrown}
use mcp_server_cpp.Mcp.Json.Build.{build, assign_all}
use mcp_server_cpp.Mcp.JsonRpc.ErrorCode.{unsupported_protocol_version}
use mcp_server_cpp.Mcp.JsonRpc.RequestMeta
use mcp_server_cpp.Mcp.JsonRpc.RequestMeta.{RequestMeta}
use mcp_server_cpp.Mcp.JsonRpc.Request.{Request}
use mcp_server_cpp.Mcp.Dispatcher.{
  Handled, Handler, Dispatcher, raises_mcp, raises, register_handler,
}
use mcp_server_cpp.Mcp.Handlers.{Handlers}
use mcp_server_cpp.Mcp.Handlers.Descriptor.{optional_text}
use mcp_server_cpp.Mcp.Handlers.Listing.{
  reply, tools_list, resources_list, resource_templates_list, prompts_list,
}
use mcp_server_cpp.Mcp.Handlers.Calls.{refuse, tools_call, resources_read, prompts_get}

-- `map.empty()`
abbrev pub is_empty : {H : Type 0} → List H → Bool
is_empty [] = true
is_empty (a ∷ l) = false

-- `std::find` on a list of texts.
unfoldable pub has_text : List String → String → Bool
has_text [] s = false
has_text (t ∷ ts) s = let rest = has_text ts s in if t == s then true else rest

module _ (lib : Json) (json_error : String) where
  open lib use {Value, of_string, of_int, of_bool, of_texts, empty_object}

  abbrev pub capability : String → Bool → Value → List (String × Value)
  capability key false v = []
  capability key true v = (key, v) ∷ []

  unfoldable pub capabilities : Handlers Value → Value
  capabilities h = assign_all lib empty_object (
      capability "tools" (not (is_empty h.tools)) empty_object
      ++ capability "resources" (not (is_empty h.resources) || not (is_empty h.resource_templates))
          (assign_all lib empty_object (("subscribe", of_bool true) ∷ []))
      ++ capability "prompts" (not (is_empty h.prompts)) empty_object)

  unfoldable pub server_info : Handlers Value → Value
  server_info h = build lib (
      (
        "io.modelcontextprotocol/serverInfo",
        build lib
            (("name", of_string h.server_name) ∷ ("version", of_string h.server_version) ∷ []),
      )
      ∷ [])

  unfoldable pub negotiate : Handlers Value → Request Value → RequestMeta Value → Handled Value
  negotiate h r m = elim (has_text h.supported_versions m.protocol_version) [
    | false ↦
        raises_mcp unsupported_protocol_version
          (concat "Unsupported protocol version: " m.protocol_version)
          (some (build lib (("supportedVersions", of_texts h.supported_versions) ∷ [])))
    | true ↦ reply lib json_error r.id (
        build lib (
          ("supportedVersions", of_texts h.supported_versions)
            ∷ ("capabilities", capabilities h)
            ∷ ("_meta", server_info h)
            ∷ optional_text lib "instructions" h.instructions
          ++ ("ttlMs", of_int h.discover_ttl_ms) ∷ ("cacheScope", of_string "public") ∷ []))
  ]

  unfoldable pub discover : Handlers Value → Request Value → Handled Value
  discover h r = elim (RequestMeta.extract_meta lib r) [
    | thrown ↦ raises json_error
    | ok none ↦ refuse lib json_error "Missing or invalid _meta in params" none
    | ok (some m) ↦
        if RequestMeta.is_valid lib m
        then negotiate h r m
        else refuse lib json_error "Missing or invalid _meta in params" none
  ]

  -- The handlers that the constructor registers, each under its method.
  unfoldable pub attach :
      (String → Bytes)
      → (Value → Value → Result (List Value))
      → Handler Value
      → Handlers Value
      → Dispatcher Value
      → Dispatcher Value
  attach bytes validate listen h d =
      let d1 = (register_handler d "tools/list" (λ r ctx. tools_list lib json_error h r)).0 in
      let d2 = (register_handler d1 "tools/call" (tools_call lib json_error validate h)).0 in
      let d3 =
        (register_handler d2 "resources/list" (λ r ctx. resources_list lib json_error h r)).0 in
      let d4 =
        (register_handler d3 "resources/read"
          (λ r ctx. resources_read lib json_error bytes h r)).0 in
      let d5 =
        (register_handler d4 "resources/templates/list"
          (λ r ctx. resource_templates_list lib json_error h r)).0 in
      let d6 = (register_handler d5 "prompts/list" (λ r ctx. prompts_list lib json_error h r)).0 in
      let d7 = (register_handler d6 "prompts/get" (λ r ctx. prompts_get lib json_error h r)).0 in
      let d8 = (register_handler d7 "server/discover" (λ r ctx. discover h r)).0 in
      (register_handler d8 "subscriptions/listen" listen).0
