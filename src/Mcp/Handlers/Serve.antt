-- ===== src/Mcp/Handlers/Serve.antt =====
-- src/mcp/server/McpMethodHandlers.cc: what keeps a tool from being called, and the handlers behind
-- the dispatcher.
use Prim.Native.String.{String}
use mcp_server_cpp.Prelude.{
  Bytes, ◌≡◌, refl, ap, ◌∙◌, Bool-cases, inl, inr, false, Option, none, some, List, [], ◌∷◌, concat,
  arith,
}
use mcp_server_cpp.Mcp.Json.{Json, Result, ok}
use mcp_server_cpp.Mcp.Json.Build.{build}
use mcp_server_cpp.Mcp.JsonRpc.ErrorCode
use mcp_server_cpp.Mcp.JsonRpc.ErrorCode.{ErrorCode, invalid_params}
use mcp_server_cpp.Mcp.JsonRpc.RequestId
use mcp_server_cpp.Mcp.JsonRpc.RequestMeta
use mcp_server_cpp.Mcp.JsonRpc.RequestMeta.{RequestMeta}
use mcp_server_cpp.Mcp.JsonRpc.Request
use mcp_server_cpp.Mcp.JsonRpc.Request.{Request}
use mcp_server_cpp.Mcp.Subscriptions.Listen.{accepts}
use mcp_server_cpp.Mcp.Dispatcher.{
  Context, Handler, Dispatcher, raises_mcp, find, response, answered, register_handler, emplace,
  make_context, dispatch, default_meta, read_token,
}
use mcp_server_cpp.Mcp.Dispatcher.Route.{dispatch-request}
use mcp_server_cpp.Mcp.Dispatcher.Throws.{IsError, mcp_exception, handle_request-Fails}
use mcp_server_cpp.Mcp.Handlers.{Handlers}
use mcp_server_cpp.Mcp.Handlers.Descriptor.{ToolDescriptor}
use mcp_server_cpp.Mcp.Handlers.Listing.{
  tools_list, resources_list, resource_templates_list, prompts_list,
}
use mcp_server_cpp.Mcp.Handlers.Discover.{discover, attach}
use mcp_server_cpp.Mcp.Handlers.Calls.{
  with_meta, param_text, call_arguments, call_tool, tools_call, resources_read, prompts_get,
}

module _ (lib : Json) (json_error : String)
    (validate : lib.Value → lib.Value → Result (List lib.Value)) where
  open lib use {Value, of_string, parse, member, elements, of_items}

  guarded :
      (r : Request Value) (m : Option (RequestMeta Value)) (message : String) (extra : Option Value)
      → RequestMeta.extract_meta lib r ≡ ok m
      → (said : String) × (more : Option Value) × (with_meta lib json_error r
            (raises_mcp invalid_params message extra)
          ≡ raises_mcp invalid_params said more)
  unfolding with_meta
  guarded r m message extra e = elim (Bool-cases (accepts lib m)) [
    | inl y ↦ (message, extra, ground arith)
    | inr n ↦ ("Missing or invalid _meta in params", none, ground arith)
  ]

  -- What keeps a tool from being called, but for exceptions of the reading of the metadata and of the
  -- validator.
  pub data Refused (h : Handlers Value) (r : Request Value) : Type 0 where
    no_meta : RequestMeta.extract_meta lib r ≡ ok none → Refused h r
    bad_meta :
        (m : RequestMeta Value)
        → RequestMeta.extract_meta lib r ≡ ok (some m)
        → RequestMeta.is_valid lib m ≡ false
        → Refused h r
    no_name :
        (m : Option (RequestMeta Value))
        → RequestMeta.extract_meta lib r ≡ ok m
        → param_text lib json_error r "name" ≡ none
        → Refused h r
    unknown :
        (m : Option (RequestMeta Value)) (name : String)
        → RequestMeta.extract_meta lib r ≡ ok m
        → param_text lib json_error r "name" ≡ some name
        → find h.tools name ≡ none
        → Refused h r
    ill_formed :
        (m : Option (RequestMeta Value)) (name : String) (t : ToolDescriptor Value) (e : Value)
        (errors : List Value)
        → RequestMeta.extract_meta lib r ≡ ok m
        → param_text lib json_error r "name" ≡ some name
        → find h.tools name ≡ some t
        → validate t.schema (call_arguments lib json_error r) ≡ ok (e ∷ errors)
        → Refused h r

  tools_call-Refused :
      (h : Handlers Value) (r : Request Value) (ctx : Context Value)
      → Refused h r
      → (message : String) × (extra : Option Value) × (tools_call lib json_error validate h r ctx
          ≡ raises_mcp invalid_params message extra)
  unfolding tools_call with_meta call_tool
  tools_call-Refused h r ctx (no_meta e) =
      ("Missing or invalid _meta in params", none, ground arith)
  tools_call-Refused h r ctx (bad_meta m e f) =
      ("Missing or invalid _meta in params", none, ground arith)
  tools_call-Refused h r ctx (no_name m e f) =
      let (message, extra, g) = guarded r m "tools/call requires params.name" none e in
      (message, extra, rw f g)
  tools_call-Refused h r ctx (unknown m name e f g) =
      let (message, extra, i) = guarded r m (concat "Unknown tool: " name) none e in
      (message, extra, rw (f, g) i)
  tools_call-Refused h r ctx (ill_formed m name t e errors x f g i) =
      let (message, extra, k) =
        guarded r m "Arguments do not match tool inputSchema"
          (some (build lib (("validation_errors", of_items (e ∷ errors)) ∷ []))) x in
      (message, extra, rw (f, g, call_tool, i) k)

  extracted :
      (h : Handlers Value) (r : Request Value)
      → Refused h r
      → (m : Option (RequestMeta Value)) × (RequestMeta.extract_meta lib r ≡ ok m)
  extracted h r (no_meta e) = (none, e)
  extracted h r (bad_meta m e f) = (some m, e)
  extracted h r (no_name m e f) = (m, e)
  extracted h r (unknown m name e f g) = (m, e)
  extracted h r (ill_formed m name t e errors x f g i) = (m, x)

  abbrev pub empty : Dispatcher Value
  empty = record { handlers = []; notification_handlers = [] }

  -- The handlers that are attached to an empty dispatcher, each under its method.
  pub attach_lem :
      (bytes : String → Bytes) (listen : Handler Value) (h : Handlers Value)
      → let found = find (attach lib json_error bytes validate listen h empty).handlers in
        (found "tools/list" ≡ some (λ r ctx. tools_list lib json_error h r))
        × (found "tools/call" ≡ some (tools_call lib json_error validate h))
        × (found "resources/list" ≡ some (λ r ctx. resources_list lib json_error h r))
        × (found "resources/read" ≡ some (λ r ctx. resources_read lib json_error bytes h r))
        × (found "resources/templates/list"
            ≡ some (λ r ctx. resource_templates_list lib json_error h r))
        × (found "prompts/list" ≡ some (λ r ctx. prompts_list lib json_error h r))
        × (found "prompts/get" ≡ some (λ r ctx. prompts_get lib json_error h r))
        × (found "server/discover" ≡ some (λ r ctx. discover lib json_error h r))
        × (found "subscriptions/listen" ≡ some listen)
  unfolding attach register_handler emplace find
  attach_lem bytes listen h = (refl, refl, refl, refl, refl, refl, refl, refl, refl)

  -- A text that is the request of a call of a tool is answered by an error of the protocol, with the
  -- identifier of the request and the code for invalid parameters, where reading its metadata does
  -- not throw and these are missing or not valid, or no name is given, or no tool has the name, or
  -- the validator returns errors for the arguments. Metadata that cannot be read, and a validator
  -- that throws, are not among these cases.
  pub dispatch-Refused :
      (bytes : String → Bytes) (listen : Handler Value) (h : Handlers Value) (raw : String)
      (r : Request Value)
      → parse raw ≡ some (Request.to_json lib r)
      → r.method ≡ "tools/call"
      → Refused h r
      → (v : Value) × (dispatch lib (attach lib json_error bytes validate listen h empty) raw
          ≡ ok (answered lib (response v)))
        × IsError lib v (RequestId.to_json lib r.id) (ErrorCode.to_int invalid_params)
  unfolding make_context
  dispatch-Refused bytes listen h raw r p m refused =
      let d = attach lib json_error bytes validate listen h empty in
      let (found, read) = extracted h r refused in
      let ctx : Context Value = record {
        request_meta = RequestMeta.get_or found (default_meta lib);
        progress_token =
            read_token lib (RequestMeta.get_or found (default_meta lib)).progress_token;
      } in
      let made : make_context lib r ≡ ok ctx = rw read refl in
      let (message, extra, e) = tools_call-Refused h r ctx refused in
      let known : find d.handlers r.method ≡ some (tools_call lib json_error validate h) =
        ap (find d.handlers) m ∙ (attach_lem bytes listen h).1 in
      let (v, answer, error) =
        handle_request-Fails lib d r _ (mcp_exception _ ctx message extra known made e) in
      (v, dispatch-request lib d raw r p ∙ answer, error)
