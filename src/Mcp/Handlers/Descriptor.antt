-- ===== src/Mcp/Handlers/Descriptor.antt =====
-- src/mcp/server/ToolDescriptor.h, ResourceDescriptor.h and PromptDescriptor.h: what a server offers,
-- and how a list shows it. A function that the user of the library gives may answer or throw.
use Prim.Native.String.{String}
use mcp_server_cpp.Prelude.{Bool, true, Option, none, some, List, [], ◌∷◌, ◌++◌, map, if◌then◌else◌}
use mcp_server_cpp.Mcp.Json.{Json}
use mcp_server_cpp.Mcp.Json.Build.{build, optional}
use mcp_server_cpp.Mcp.JsonRpc.ErrorCode.{ErrorCode}
use mcp_server_cpp.Mcp.Dispatcher.{Context}
use mcp_server_cpp.Mcp.UriTemplate.{UriTemplate, Params}

-- A call of a function of the user: it returns, or it throws an exception of the protocol, or
-- another one that derives from `std::exception`.
pub data Called (V A : Type 0) : Type 0 where
  returned : A → Called V A
  threw_mcp : ErrorCode → String → Option V → Called V A
  threw : String → Called V A

pub record ToolResult (V : Type 0) : Type 0 where
  pub content : V
  pub structured_content : Option V
  pub is_error : Bool

-- The schema stands for the validator, which keeps it.
pub record ToolDescriptor (V : Type 0) : Type 0 where
  pub name : String
  pub description : String
  pub schema : V
  pub output_schema : Option V
  pub executor : V → Context V → Called V (ToolResult V)

pub record ResourceDescriptor (V : Type 0) : Type 0 where
  pub uri : String
  pub name : String
  pub description : Option String
  pub mime_type : Option String
  pub reader : Called V V

pub record ResourceTemplateDescriptor (V : Type 0) : Type 0 where
  pub uri_template : String
  pub name : String
  pub description : Option String
  pub mime_type : Option String
  pub reader : String → Params → Called V V

pub record CompiledTemplate (V : Type 0) : Type 0 where
  pub compiled : UriTemplate
  pub descriptor : ResourceTemplateDescriptor V

pub record PromptArgument : Type 0 where
  pub name : String
  pub description : String
  pub required : Bool

pub record PromptDescriptor (V : Type 0) : Type 0 where
  pub name : String
  pub description : Option String
  pub arguments : List PromptArgument
  pub renderer : V → Called V V

module _ (lib : Json) where
  open lib use {Value, of_string, of_bool, of_items}

  -- A text that is shown only if there is one.
  abbrev pub optional_text : String → Option String → List (String × Value)
  optional_text key none = []
  optional_text key (some text) = (key, of_string text) ∷ []

  unfoldable pub result_to_json : ToolResult Value → Value
  result_to_json r = build lib (
      ("content", r.content) ∷ optional "structuredContent" r.structured_content
      ++ (if r.is_error then ("isError", of_bool true) ∷ [] else []))

  unfoldable pub tool_to_json : ToolDescriptor Value → Value
  tool_to_json t = build lib (
      ("name", of_string t.name)
      ∷ ("description", of_string t.description)
      ∷ ("inputSchema", t.schema)
      ∷ optional "outputSchema" t.output_schema)

  unfoldable pub resource_to_json : ResourceDescriptor Value → Value
  resource_to_json r = build lib (
      ("uri", of_string r.uri)
        ∷ ("name", of_string r.name)
        ∷ optional_text "description" r.description
      ++ optional_text "mimeType" r.mime_type)

  unfoldable pub template_to_json : CompiledTemplate Value → Value
  template_to_json c = build lib (
      ("uriTemplate", of_string c.descriptor.uri_template)
        ∷ ("name", of_string c.descriptor.name)
        ∷ optional_text "description" c.descriptor.description
      ++ optional_text "mimeType" c.descriptor.mime_type)

  unfoldable pub argument_to_json : PromptArgument → Value
  argument_to_json a = build lib (
      ("name", of_string a.name)
      ∷ ("description", of_string a.description)
      ∷ ("required", of_bool a.required)
      ∷ [])

  abbrev pub arguments_field : List PromptArgument → List (String × Value)
  arguments_field [] = []
  arguments_field (a ∷ args) = ("arguments", of_items (map argument_to_json (a ∷ args))) ∷ []

  unfoldable pub prompt_to_json : PromptDescriptor Value → Value
  prompt_to_json p = build lib (
      ("name", of_string p.name) ∷ optional_text "description" p.description
      ++ arguments_field p.arguments)
