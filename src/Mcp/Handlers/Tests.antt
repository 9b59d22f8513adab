-- ===== src/Mcp/Handlers/Tests.antt =====
-- src/mcp/server/McpMethodHandlers.cc: runs of a small server with the sample JSON library.
use Prim.Native.String.{String}
use mathlib.Core.List.{Memᴰ, Permᴰ}
use mathlib.Core.List.Permᴰ
use mcp_server_cpp.Prelude.{
  arith, ◌++◌, codes, ◌≡◌, ◌⊎◌, inl, refl, true, false, Option, none, some, List, [], ◌∷◌, map,
  concat,
}
use mcp_server_cpp.Mcp.Json.{Json, pos, Result, ok}
use mcp_server_cpp.Mcp.Json.Build
use mcp_server_cpp.Mcp.Json.Sample
use mcp_server_cpp.Mcp.Json.Sample.{Value, Fields, an_array, sample}
use mcp_server_cpp.Mcp.JsonRpc.ErrorCode
use mcp_server_cpp.Mcp.JsonRpc.ErrorCode.{ErrorCode, invalid_params, unsupported_protocol_version}
use mcp_server_cpp.Mcp.JsonRpc.RequestId
use mcp_server_cpp.Mcp.JsonRpc.RequestId.{RequestId}
use mcp_server_cpp.Mcp.JsonRpc.RequestMeta
use mcp_server_cpp.Mcp.JsonRpc.RequestMeta.{RequestMeta}
use mcp_server_cpp.Mcp.JsonRpc.Request
use mcp_server_cpp.Mcp.JsonRpc.Request.{Request}
use mcp_server_cpp.Mcp.JsonRpc.SuccessResponse.{SuccessResponse}
use mcp_server_cpp.Mcp.Dispatcher.{
  Context, Handler, success, opened, raises_mcp, find, response, answered, dispatch,
}
use mcp_server_cpp.Mcp.Dispatcher.Throws.{IsError}
use mcp_server_cpp.Mcp.Handlers.{Handlers, fresh}
use mcp_server_cpp.Mcp.Handlers.Descriptor.{
  returned, threw, ToolResult, ToolDescriptor, ResourceDescriptor, PromptArgument, PromptDescriptor,
}
use mcp_server_cpp.Mcp.Validator.Conforms.{Conforms}
use mcp_server_cpp.Mcp.Handlers.Listing.{
  tools_list, resources_list, resource_templates_list, prompts_list,
}
use mcp_server_cpp.Mcp.Handlers.Tools
use mcp_server_cpp.Mcp.Handlers.Calls.{param_text, call_arguments, tools_call, resources_read}
use mcp_server_cpp.Mcp.Handlers.Discover.{attach, discover}
use mcp_server_cpp.Mcp.Handlers.Register.{
  adds_tool, freezes, run, IsValid, run-IsValid, run-freezes,
}
use mcp_server_cpp.Mcp.Handlers.Lists.{lists_deterministic}
use mcp_server_cpp.Mcp.Handlers.Tools.{IsCall, tools_call-returns, tools_call-throws}
use mcp_server_cpp.Mcp.Handlers.Serve.{Refused, unknown, empty, dispatch-Refused}
use mcp_server_cpp.Mcp.Handlers.Resources.{Answers, resources_read-Answers}
use mcp_server_cpp.Mcp.Handlers.Negotiate.{ShowsTables, discover_lem}

abbrev lib : Json
lib = sample (λ raw. none)

abbrev accept : Value → Value → Result (List Value)
accept schema args = ok []

abbrev done : ToolResult Value
done = record { content = an_array; structured_content = none; is_error = false }

abbrev echo : ToolDescriptor Value
echo = record {
  name = "echo";
  description = "";
  schema = Value.obj Fields.end;
  output_schema = none;
  executor = λ args ctx. returned done;
}

abbrev broken : ToolDescriptor Value
broken = record echo { name = "broken"; executor = λ args ctx. threw "no disk" }

abbrev page : ResourceDescriptor Value
page = record {
  uri = "a:1";
  name = "page";
  description = none;
  mime_type = none;
  reader = returned an_array;
}

abbrev city : PromptArgument
city = record { name = "city"; description = ""; required = true }

abbrev weather : PromptDescriptor Value
weather = record {
  name = "weather";
  description = none;
  arguments = city ∷ [];
  renderer = λ args. returned an_array;
}

abbrev server : Handlers Value
server = record fresh {
  tools = ("echo", echo) ∷ ("broken", broken) ∷ [];
  resources = ("a:1", page) ∷ [];
  prompts = ("weather", weather) ∷ [];
  supported_versions = "2026-07-28" ∷ [];
}

server-IsValid : IsValid codes server
unfolding find
server-IsValid = ((refl, refl, (refl, refl, tt)), (refl, refl, tt), tt, (refl, refl, tt), tt)

abbrev filled : Value
filled = Value.obj (Fields.field "name" (Value.text "client") Fields.end)

abbrev client : RequestMeta Value
client = record {
  protocol_version = "2026-07-28";
  client_capabilities = filled;
  client_info = filled;
  progress_token = none;
}

-- The parameters of a request: metadata, a name and a URI.
abbrev params_of : String → String → Value
params_of name uri = Value.obj (
    Fields.field "name" (Value.text name) (
      Fields.field "uri" (Value.text uri) (
        Fields.field "_meta"
          (Value.obj (
            Fields.field "io.modelcontextprotocol/protocolVersion" (Value.text "2026-07-28") (
              Fields.field "io.modelcontextprotocol/clientCapabilities" filled
                (Fields.field "io.modelcontextprotocol/clientInfo" filled Fields.end))))
          Fields.end)))

abbrev asking : String → String → String → Request Value
asking method name uri = record {
  id = RequestId.number (pos 1, omega arith);
  method = method;
  params = some (params_of name uri);
}

abbrev context : Context Value
context = record { request_meta = client; progress_token = none }

run-IsValid_example :
    IsValid codes (run codes fresh (adds_tool echo ∷ freezes ∷ adds_tool broken ∷ []))
run-IsValid_example = run-IsValid codes (adds_tool echo ∷ freezes ∷ adds_tool broken ∷ [])

run-freezes_example :
    run codes fresh ((adds_tool echo ∷ []) ++ freezes ∷ adds_tool broken ∷ [])
    ≡ record (run codes fresh (adds_tool echo ∷ [])) { frozen = true }
run-freezes_example = run-freezes codes fresh (adds_tool echo ∷ []) (adds_tool broken ∷ [])

abbrev listing : Request Value
listing = record {
  id = RequestId.number (pos 2, omega arith);
  method = "tools/list";
  params = none;
}

abbrev turned : Handlers Value
turned = record server { tools = ("broken", broken) ∷ ("echo", echo) ∷ [] }

lists_deterministic_example :
    (tools_list lib "" server listing ≡ tools_list lib "" turned listing)
    × (resources_list lib "" server listing ≡ resources_list lib "" turned listing)
    × (resource_templates_list lib "" server listing
        ≡ resource_templates_list lib "" turned listing)
    × (prompts_list lib "" server listing ≡ prompts_list lib "" turned listing)
lists_deterministic_example =
    lists_deterministic lib "" codes server turned listing server-IsValid (Permᴰ.swap refl refl)
      (Permᴰ.refl _) Permᴰ.nil (Permᴰ.refl _)

abbrev echoing : IsCall lib "" accept server (asking "tools/call" "echo" "") echo
unfolding RequestMeta.extract_meta RequestMeta.from_json RequestMeta.is_valid param_text find
echoing = record {
  request_meta = client;
  name = "echo";
  has_meta = refl;
  good_meta = refl;
  has_name = refl;
  is_tool = refl;
  conforms = refl;
}

abbrev breaking : IsCall lib "" accept server (asking "tools/call" "broken" "") broken
unfolding RequestMeta.extract_meta RequestMeta.from_json RequestMeta.is_valid param_text find
breaking = record {
  request_meta = client;
  name = "broken";
  has_meta = refl;
  good_meta = refl;
  has_name = refl;
  is_tool = refl;
  conforms = refl;
}

tools_call-throws_example :
    Tools.Shows lib ""
      (asking "tools/call" "broken" "")
      (tools_call lib "" accept server (asking "tools/call" "broken" "") context)
      (λ c.
        (item : Value) × (Sample.elements c ≡ item ∷ [])
        × (Sample.member item "type" ≡ some (Value.text "text"))
        × (Sample.member item "text" ≡ some (Value.text "no disk")))
      none
      true
tools_call-throws_example =
    tools_call-throws lib "" accept server (asking "tools/call" "broken" "") context broken
      "no disk" breaking (inl refl)

abbrev typo : Request Value
typo = asking "tools/call" "eco" ""

-- A library that reads every text as that request.
abbrev reading : Json
reading = sample (λ raw. some (Request.to_json lib typo))

abbrev listen : Handler Value
listen r ctx = opened

abbrev is_unknown : Refused reading "" accept server typo
unfolding RequestMeta.extract_meta RequestMeta.from_json param_text find
is_unknown = unknown (some client) "eco" refl refl refl

dispatch-Refused_example :
    (v : Value) × (dispatch reading
        (attach reading "" codes accept listen server (empty reading "" accept))
        "{}"
      ≡ ok (answered reading (response v)))
    × IsError reading v (RequestId.to_json reading typo.id) (ErrorCode.to_int invalid_params)
unfolding Request.to_json Build.build RequestId.to_json
dispatch-Refused_example =
    dispatch-Refused reading "" accept codes listen server "{}" typo refl refl is_unknown

abbrev reads : Request Value
reads = asking "resources/read" "" "a:1"

resources_read-Answers_example :
    Answers lib "" codes server reads "a:1" (resources_read lib "" codes server reads)
unfolding RequestMeta.extract_meta RequestMeta.from_json RequestMeta.is_valid param_text
resources_read-Answers_example =
    resources_read-Answers lib "" codes server reads "a:1"
      (record { request_meta = client; has_meta = refl; good_meta = refl; has_uri = refl })

abbrev forecast : Request Value
forecast = asking "prompts/get" "weather" ""

abbrev meeting : Request Value
meeting = asking "server/discover" "" ""

discover_example :
    (Memᴰ client.protocol_version server.supported_versions
      × ((s : SuccessResponse Value) × (shown : Value) × (v : Value) × (discover lib "" server
              meeting
            ≡ success s)
          × (s.id ≡ meeting.id)
          × (Sample.member s.result "capabilities" ≡ some shown)
          × ShowsTables lib "" server shown
          × (Sample.member s.result "supportedVersions" ≡ some v)
          × (Sample.elements v ≡ map Value.text server.supported_versions)))
    ⊎ ((Memᴰ client.protocol_version server.supported_versions → ⊥)
        × ((extra : Value) × (v : Value) × (discover lib "" server meeting
              ≡ raises_mcp unsupported_protocol_version
                  (concat "Unsupported protocol version: " client.protocol_version)
                  (some extra))
            × (Sample.member extra "supportedVersions" ≡ some v)
            × (Sample.elements v ≡ map Value.text server.supported_versions)))
unfolding RequestMeta.extract_meta RequestMeta.from_json RequestMeta.is_valid
discover_example = discover_lem lib "" server meeting client refl refl

abbrev no_text : String → Option Value
no_text raw = none

abbrev args : Value
args = call_arguments lib "" (asking "tools/call" "echo" "")
