-- ===== src/Mcp/Subscriptions/Tests.antt =====
-- Runs of the registry with the sample JSON library.
use mcp_server_cpp.Prelude.{
  Bytes, codes, some, arith, String, List, ℕ, leb, ◌≡◌, refl, Bool, true, false, none, [], ◌∷◌,
}
use mcp_server_cpp.Mcp.Json.{Json, pos}
use mcp_server_cpp.Mcp.JsonRpc.ErrorResponse
use mcp_server_cpp.Mcp.JsonRpc.RequestId
use mcp_server_cpp.Mcp.JsonRpc.RequestMeta
use mcp_server_cpp.Mcp.JsonRpc.RequestMeta.{RequestMeta, build_mcp_params}
use mcp_server_cpp.Mcp.JsonRpc.Request.{Request}
use mcp_server_cpp.Mcp.Json.Build
use mcp_server_cpp.Mcp.Json.Sample.{Value, Fields, sample}
use mcp_server_cpp.Mcp.Subscriptions.{
  Filter, Entry, Registry, method_tools_list_changed, notify, message, honored_filter_matches,
  label,
}
use mcp_server_cpp.Mcp.Subscriptions.Notify.{Delivers, notify-Delivers}

abbrev lib : Json
lib = sample (λ raw. none)

abbrev tools : Filter
tools = record {
  tools_list_changed = true;
  prompts_list_changed = false;
  resources_list_changed = false;
  resource_subscriptions = [];
}

abbrev prompts : Filter
prompts = record tools { tools_list_changed = false; prompts_list_changed = true }

-- Two subscriptions to the tools, one of which lost its writer, and one to the prompts.
abbrev three : Registry
three =
    ("1", record { subscription_id = "1"; honored_filter = tools; writer = 4 })
    ∷ ("2", record { subscription_id = "2"; honored_filter = prompts; writer = 5 })
    ∷ ("3", record { subscription_id = "3"; honored_filter = tools; writer = 6 })
    ∷ []

abbrev up_to_five : ℕ → Bool
up_to_five w = leb w 5

abbrev no_params : Value
no_params = Value.obj Fields.end

abbrev first : Entry
first = record { subscription_id = "1"; honored_filter = tools; writer = 4 }

abbrev tools_changed : Value
tools_changed = Value.obj (
    Fields.field "params"
      (Value.obj (
        Fields.field "_meta"
          (Value.obj
            (Fields.field "io.modelcontextprotocol/subscriptionId" (Value.text "1") Fields.end))
          Fields.end))
      (Fields.field "method" (Value.text method_tools_list_changed)
        (Fields.field "jsonrpc" (Value.text "2.0") Fields.end)))

notify-Delivers_example :
    ((notify lib up_to_five three method_tools_list_changed no_params).finished ≡ true)
    × Delivers lib up_to_five method_tools_list_changed no_params three
        (notify lib up_to_five three method_tools_list_changed no_params).writes
notify-Delivers_example =
    notify-Delivers lib up_to_five three method_tools_list_changed no_params (refl, refl)

-- One subscription of the three is written to.
one_write :
    (notify lib up_to_five three method_tools_list_changed no_params).writes
    ≡ (4, tools_changed) ∷ []
unfolding notify honored_filter_matches message label Build.build
one_write = refl

-- The bytes of the texts of these tests.
abbrev bytes : String → Bytes
bytes s = codes s

abbrev asked : List String
asked = "a:1" ∷ "a:2" ∷ []

abbrev of_asked : Filter
of_asked = record tools { tools_list_changed = false; resource_subscriptions = asked }

abbrev client : RequestMeta Value
client = record {
  protocol_version = "2026-07-28";
  client_capabilities = tools_changed;
  client_info = tools_changed;
  progress_token = none;
}

-- A request that asks for no notification; the sample library prints every identifier as an empty
-- text.
abbrev listening : Request Value
listening = record {
  id = RequestId.number (pos 4, omega arith);
  method = "subscriptions/listen";
  params = some (build_mcp_params lib no_params client);
}

abbrev nothing_asked : Filter
nothing_asked = record tools { tools_list_changed = false }
