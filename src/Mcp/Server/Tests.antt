-- ===== src/Mcp/Server/Tests.antt =====
-- src/mcp/McpServer.cc and src/mcp/transport/StdioTransport.cc: runs of a server.
use Prim.Native.String.{String}
use package.text.Mathlib.Text.{◌==◌}
use mcp_server_cpp.Prelude.{
  codes, ◌≡◌, refl, List, none, true, false, Option, some, [], ◌∷◌, ◌++◌, if◌then◌else◌,
}
use mcp_server_cpp.Mcp.Json.{Result, ok, thrown, pos}
use mcp_server_cpp.Mcp.Json.Sample.{Value, an_array}
use mcp_server_cpp.Mcp.Handlers.{fresh, set_discover_config, check_not_frozen}
use mcp_server_cpp.Mcp.Handlers.Descriptor.{PromptDescriptor, returned}
use mcp_server_cpp.Mcp.Server.{McpServer, Options, http, no_transport, create}
use mcp_server_cpp.Mcp.Server.Started.{
  Call, calls_stdio, calls_listen, calls_prompt, run, returns, run-started,
}
use mcp_server_cpp.Mcp.Server.Stdio
use mcp_server_cpp.Mcp.Server.Stdio.{read_line, has_newline, respond, start}

abbrev opts : Options
opts = record {
  name = "demo";
  version = "1";
  supported_versions = [];
  discover_ttl_ms = pos 0;
  instructions = none;
}

abbrev hello : PromptDescriptor Value
hello = record {
  name = "hello";
  description = none;
  arguments = [];
  renderer = λ args. returned an_array;
}

abbrev created : McpServer Value
created = record {
  handlers = record fresh { server_name = "demo"; server_version = "1"; discover_ttl_ms = pos 0 };
  transport = no_transport;
  started = false;
}

run-started_example :
    let before : List (Call Value) = calls_prompt hello ∷ [] in
    let after : List (Call Value) = calls_stdio ∷ calls_prompt hello ∷ [] in
    let c : Call Value = calls_listen "localhost" 80 in
    let served : McpServer Value = record {
      handlers = record (run codes created before).handlers { frozen = true };
      transport = http "localhost" 80;
      started = true;
    } in
    (run codes created (before ++ c ∷ after) ≡ served)
    × (returns codes (run codes created (before ++ c ∷ [])) after ≡ false ∷ false ∷ [])
unfolding create set_discover_config check_not_frozen
run-started_example =
    run-started codes opts created (calls_prompt hello ∷ []) (calls_stdio ∷ calls_prompt hello ∷ [])
      (calls_listen "localhost" 80) (http "localhost" 80) refl (refl, tt) refl

-- A handler that answers a ping and throws for the rest.
abbrev ping : String → Result (Option String)
ping line = if line == "ping" then ok (some "pong") else thrown

one_answer : start ping ("x" ∷ "ping\r" ∷ "" ∷ []) ≡ "pong" ∷ []
unfolding start respond read_line Stdio.send has_newline
one_answer = refl
