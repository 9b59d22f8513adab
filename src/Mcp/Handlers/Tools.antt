-- ===== src/Mcp/Handlers/Tools.antt =====
-- src/mcp/server/McpMethodHandlers.cc, `tools/call`: when the executor of a tool runs, and what a
-- client is answered.
use Prim.Native.String.{String}
use package.text.Mathlib.TextEquality.{eq_iff}
use mcp_server_cpp.Prelude.{
  ◌≡◌, ◌⊎◌, refl, ap, ◌∙◌, inl, inr, Bool, true, false, Option, none, some, List, [], ◌∷◌, ◌++◌,
  if◌then◌else◌, arith,
}
use mcp_server_cpp.Mcp.Json.{Json, Result, ok}
use mcp_server_cpp.Mcp.Json.Build.{build, last_of, optional, member-build}
use mcp_server_cpp.Mcp.JsonRpc.ErrorCode.{ErrorCode}
use mcp_server_cpp.Mcp.JsonRpc.RequestMeta
use mcp_server_cpp.Mcp.JsonRpc.RequestMeta.{RequestMeta}
use mcp_server_cpp.Mcp.JsonRpc.Request.{Request}
use mcp_server_cpp.Mcp.JsonRpc.SuccessResponse.{SuccessResponse}
use mcp_server_cpp.Mcp.Dispatcher.{Context, Handled, success, find}
use mcp_server_cpp.Mcp.Handlers.{Handlers}
use mcp_server_cpp.Mcp.Handlers.Descriptor.{
  returned, threw_mcp, threw, ToolResult, ToolDescriptor, result_to_json,
}
use mcp_server_cpp.Mcp.Handlers.Listing.{reply}
use mcp_server_cpp.Mcp.Handlers.Lists.{reply-build}
use mcp_server_cpp.Mcp.Handlers.Calls.{
  with_meta, param_text, call_arguments, tool_error, execute, call_tool, tools_call,
}

module _ (lib : Json) (json_error : String) where
  open lib use {Value, member, elements, of_string, of_bool, of_items}

  result_fields :
      (content : Value) (structured : Option Value) (failed : Bool)
      → let fields =
          ("content", content) ∷ optional "structuredContent" structured
          ++ (if failed then ("isError", of_bool true) ∷ [] else []) in
        (last_of fields "content" none ≡ some content)
        × (last_of fields "structuredContent" none ≡ structured)
        × (last_of fields "isError" none ≡ (if failed then some (of_bool true) else none))
        × (last_of fields "resultType" none ≡ none)
  result_fields content none true = (ground arith, ground arith, ground arith, ground arith)
  result_fields content none false = (ground arith, ground arith, ground arith, ground arith)
  result_fields content (some v) true = (ground arith, ground arith, ground arith, ground arith)
  result_fields content (some v) false = (ground arith, ground arith, ground arith, ground arith)

  -- The answer is a result with these parts, and not an error.
  abbrev pub Shows : Request Value → Handled Value → (Value → Type 0) → Option Value → Bool → Type 0
  Shows r answer IsContent structured failed =
      (s : SuccessResponse Value) × (content : Value) × (answer ≡ success s)
      × (s.id ≡ r.id)
      × (member s.result "content" ≡ some content)
      × IsContent content
      × (member s.result "structuredContent" ≡ structured)
      × (member s.result "isError" ≡ (if failed then some (of_bool true) else none))
      × (member s.result "resultType" ≡ some (of_string "complete"))

  item_fields :
      (what : String)
      → let item = build lib (("type", of_string "text") ∷ ("text", of_string what) ∷ []) in
        (member item "type" ≡ some (of_string "text"))
        × (member item "text" ≡ some (of_string what))
  item_fields what = (member-build lib _ "type", member-build lib _ "text")

  result-Shows :
      (r : Request Value) (result : ToolResult Value)
      → Shows r
          (reply lib json_error r.id (result_to_json lib result))
          (λ c. c ≡ result.content)
          result.structured_content
          result.is_error
  unfolding result_to_json
  result-Shows r result =
      let (a, b, c, d) = result_fields result.content result.structured_content result.is_error in
      let (s, e, i, k, f) = reply-build lib json_error r.id "content" result.content _ d in
      (
        s,
        result.content,
        e,
        i,
        f "content" (λ g. ground (arith, eq_iff "content" "resultType")) ∙ a,
        refl,
        f "structuredContent" (λ g. ground (arith, eq_iff "structuredContent" "resultType")) ∙ b,
        f "isError" (λ g. ground (arith, eq_iff "isError" "resultType")) ∙ c,
        k,
      )

  error-Shows :
      (r : Request Value) (what : String)
      → Shows r
          (reply lib json_error r.id (tool_error lib json_error what))
          (λ c.
            (item : Value) × (elements c ≡ item ∷ [])
            × (member item "type" ≡ some (of_string "text"))
            × (member item "text" ≡ some (of_string what)))
          none
          true
  unfolding tool_error
  error-Shows r what =
      let (s, c, e, i, x, y, none_given, failed, typed) = result-Shows r _ in
      let shown = ap elements y ∙ lib.elements-of_items _ in
      (
        s,
        c,
        e,
        i,
        x,
        (_, shown, (item_fields what).0, (item_fields what).1),
        none_given,
        failed,
        typed,
      )

module _ (lib : Json) (json_error : String)
    (validate : lib.Value → lib.Value → Result (List lib.Value)) where
  open lib use {Value, of_string, parse, member, elements, of_items}

  -- The request names a tool that there is, with metadata and with arguments that the schema of the
  -- tool accepts.
  pub record IsCall (h : Handlers Value) (r : Request Value) (t : ToolDescriptor Value)
      : Type 0 where
    pub request_meta : RequestMeta Value
    pub name : String
    pub has_meta : RequestMeta.extract_meta lib r ≡ ok (some request_meta)
    pub good_meta : RequestMeta.is_valid lib request_meta ≡ true
    pub has_name : param_text lib json_error r "name" ≡ some name
    pub is_tool : find h.tools name ≡ some t
    pub conforms : validate t.schema (call_arguments lib json_error r) ≡ ok []

  tools_call-IsCall :
      (h : Handlers Value) (r : Request Value) (ctx : Context Value) (t : ToolDescriptor Value)
      → IsCall h r t
      → tools_call lib json_error validate h r ctx
        ≡ execute lib json_error r (t.executor (call_arguments lib json_error r) ctx)
  unfolding tools_call with_meta call_tool
  tools_call-IsCall h r ctx t c =
      ground (arith, c.has_meta, c.good_meta, c.has_name, c.is_tool, c.conforms)

  -- Where a tool is called with metadata and with arguments that its schema accepts, and its executor
  -- returns, the client is answered the result of the executor.
  pub tools_call-returns :
      (h : Handlers Value) (r : Request Value) (ctx : Context Value) (t : ToolDescriptor Value)
      (result : ToolResult Value)
      → IsCall h r t
      → t.executor (call_arguments lib json_error r) ctx ≡ returned result
      → Shows lib json_error r
          (tools_call lib json_error validate h r ctx)
          (λ c. c ≡ result.content)
          result.structured_content
          result.is_error
  unfolding execute
  tools_call-returns h r ctx t result c e =
      rw (tools_call-IsCall h r ctx t c, e) (result-Shows lib json_error r result)

  -- Where its executor throws something that derives from `std::exception`, the client is answered
  -- a result that is marked as an error and has the text of the exception: no such exception of a
  -- tool becomes an error of the protocol.
  pub tools_call-throws :
      (h : Handlers Value) (r : Request Value) (ctx : Context Value) (t : ToolDescriptor Value)
      (what : String)
      → IsCall h r t
      → (t.executor (call_arguments lib json_error r) ctx ≡ threw what)
        ⊎ ((code : ErrorCode) × (extra : Option Value) × (t.executor
                (call_arguments lib json_error r)
                ctx
              ≡ threw_mcp code what extra))
      → Shows lib json_error r
          (tools_call lib json_error validate h r ctx)
          (λ c.
            (item : Value) × (elements c ≡ item ∷ [])
            × (member item "type" ≡ some (of_string "text"))
            × (member item "text" ≡ some (of_string what)))
          none
          true
  unfolding execute
  tools_call-throws h r ctx t what c (inl e) =
      rw (tools_call-IsCall h r ctx t c, e) (error-Shows lib json_error r what)
  tools_call-throws h r ctx t what c (inr (code, extra, e)) =
      rw (tools_call-IsCall h r ctx t c, e) (error-Shows lib json_error r what)
