-- ===== src/Mcp/Dispatcher/Progress.antt =====
-- src/mcp/json_rpc/DefaultRequestContext.cc: what a handler reports while it works. The numbers are
-- floating-point numbers, which are given as they stand in the message.
use Prim.Native.String.{String}
use mcp_server_cpp.Prelude.{
  ◌≡◌, refl, Bool, true, Option, none, some, [], ◌∷◌, ◌++◌, if◌then◌else◌, arith,
}
use mcp_server_cpp.Mcp.Json.{Json, ok}
use mcp_server_cpp.Mcp.Json.Build.{optional, build, member-build}
use mcp_server_cpp.Mcp.JsonRpc.RequestMeta
use mcp_server_cpp.Mcp.JsonRpc.RequestMeta.{RequestMeta}
use mcp_server_cpp.Mcp.JsonRpc.Request.{Request}
use mcp_server_cpp.Mcp.Dispatcher.{ProgressToken, text, number, Context, make_context, read_token}

module _ (lib : Json) where
  open lib use {Value, kind, member, of_string, of_int}

  abbrev pub token_to_json : ProgressToken → Value
  token_to_json (text s) = of_string s
  token_to_json (number n) = of_int n.0

  abbrev pub text_value : Option String → Option Value
  text_value none = none
  text_value (some s) = some (of_string s)

  abbrev pub progress_params : Value → Value → Option Value → Option String → Value
  progress_params token progress total message = build lib (
      ("progressToken", token)
      ∷ ("progress", progress)
      ∷ (optional "total" total ++ optional "message" (text_value message)))

  -- The notification that is written, if the client gave a token and there is a writer.
  unfoldable pub report_progress :
      Context Value → Bool → Value → Option Value → Option String → Option Value
  report_progress ctx has_writer progress total message = elim ctx.progress_token [
    | none ↦ none
    | some token ↦
        if has_writer
        then some (
            build lib (
              ("jsonrpc", of_string "2.0")
              ∷ ("method", of_string "notifications/progress")
              ∷ ("params", progress_params (token_to_json token) progress total message)
              ∷ []))
        else none
  ]

  members :
      (token progress : Value) (total : Option Value) (message : Option String)
      → let ps = progress_params token progress total message in
        (member ps "progressToken" ≡ some token)
        × (member ps "progress" ≡ some progress)
        × (member ps "total" ≡ total)
        × (member ps "message" ≡ text_value message)
  members token progress none none =
      (member-build lib _ _, member-build lib _ _, member-build lib _ _, member-build lib _ _)
  members token progress none (some s) =
      (member-build lib _ _, member-build lib _ _, member-build lib _ _, member-build lib _ _)
  members token progress (some t) none =
      (member-build lib _ _, member-build lib _ _, member-build lib _ _, member-build lib _ _)
  members token progress (some t) (some s) =
      (member-build lib _ _, member-build lib _ _, member-build lib _ _, member-build lib _ _)

  read_token-token_to_json :
      (token : ProgressToken) → read_token lib (some (token_to_json token)) ≡ some token
  unfolding read_token
  read_token-token_to_json (text s) =
      ground (arith, lib.kind-of_string s, lib.get_string-of_string s)
  read_token-token_to_json (number n) = ground (arith, lib.kind-of_int n.0, lib.get_int64-of_int n)

  -- A request that carries a progress token gets a context in which every report is written as a
  -- notification with that token and with what was reported.
  pub report_progress-make_context :
      (r : Request Value) (m : RequestMeta Value) (token : ProgressToken) (progress : Value)
      (total : Option Value) (message : Option String)
      → RequestMeta.extract_meta lib r ≡ ok (some m)
      → m.progress_token ≡ some (token_to_json token)
      → (ctx : Context Value) × (n : Value) × (ps : Value) × (make_context lib r ≡ ok ctx)
        × (report_progress ctx true progress total message ≡ some n)
        × (member n "method" ≡ some (of_string "notifications/progress"))
        × (member n "id" ≡ none)
        × (member n "params" ≡ some ps)
        × (member ps "progressToken" ≡ some (token_to_json token))
        × (member ps "progress" ≡ some progress)
        × (member ps "total" ≡ total)
        × (member ps "message" ≡ text_value message)
  unfolding make_context report_progress
  report_progress-make_context r m token progress total message e t =
      let (a, b, c, d) = members (token_to_json token) progress total message in
      (
        record { request_meta = m; progress_token = some token },
        build lib (
            ("jsonrpc", of_string "2.0")
            ∷ ("method", of_string "notifications/progress")
            ∷ ("params", progress_params (token_to_json token) progress total message)
            ∷ []),
        progress_params (token_to_json token) progress total message,
        ground (arith, read_token-token_to_json token),
        refl,
        member-build lib _ _,
        member-build lib _ _,
        member-build lib _ _,
        a,
        b,
        c,
        d,
      )
