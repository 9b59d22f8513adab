-- ===== src/Mcp/Subscriptions.antt =====
-- src/mcp/server/SubscriptionFilter.h and SubscriptionRegistry.h: which client hears of which change.
-- The map of the registry is an association list in the order in which it is iterated; no theorem
-- depends on that order. A writer is a number; a weak reference to it is that number and, when it is
-- followed, the answer whether the writer is still there. A write returns.
pub mod Registry
pub mod Notify
pub mod Listen
pub mod Honor
pub mod Acknowledge
mod Tests
use Prim.Native.String.{String}
use package.text.Mathlib.Text.{◌==◌}
use mcp_server_cpp.Prelude.{
  ℕ, Bool, true, false, not, ◌&&◌, Option, none, some, List, [], ◌∷◌, if◌then◌else◌,
}
use mcp_server_cpp.Mcp.Json.{Json, is_string, is_array, can_hold, Result, ok, thrown, ◌>>=◌}
use mcp_server_cpp.Mcp.Json.Build.{build}
use mcp_server_cpp.Mcp.JsonRpc.RequestMeta.{get_or}
use mcp_server_cpp.Mcp.JsonRpc.ErrorResponse.{value_or}
use mcp_server_cpp.Mcp.Dispatcher.{emplace}

pub record Filter : Type 0 where
  pub tools_list_changed : Bool
  pub prompts_list_changed : Bool
  pub resources_list_changed : Bool
  pub resource_subscriptions : List String

abbrev pub method_tools_list_changed : String
method_tools_list_changed = "notifications/tools/list_changed"

abbrev pub method_prompts_list_changed : String
method_prompts_list_changed = "notifications/prompts/list_changed"

abbrev pub method_resources_list_changed : String
method_resources_list_changed = "notifications/resources/list_changed"

abbrev pub method_resources_updated : String
method_resources_updated = "notifications/resources/updated"

abbrev pub key_subscription_id : String
key_subscription_id = "io.modelcontextprotocol/subscriptionId"

abbrev pub no_uris : List String → Bool
no_uris [] = true
no_uris _ = false

unfoldable pub is_empty : Filter → Bool
is_empty f =
    not f.tools_list_changed
    && not f.prompts_list_changed
    && not f.resources_list_changed
    && no_uris f.resource_subscriptions

-- `SubscriptionEntry`
pub record Entry : Type 0 where
  pub subscription_id : String
  pub honored_filter : Filter
  pub writer : ℕ

unfoldable pub honored_filter_matches : Entry → String → Bool
honored_filter_matches e method =
    if method == method_tools_list_changed
    then e.honored_filter.tools_list_changed
    else if method == method_prompts_list_changed
    then e.honored_filter.prompts_list_changed
    else if method == method_resources_list_changed
    then e.honored_filter.resources_list_changed
    else if method == method_resources_updated
    then not (no_uris e.honored_filter.resource_subscriptions)
    else false

abbrev pub Registry : Type 0
Registry = List (String × Entry)

unfoldable pub add : Registry → String → Filter → ℕ → Registry × Bool
add reg id honored writer =
    emplace reg id (record { subscription_id = id; honored_filter = honored; writer = writer })

unfoldable pub remove : Registry → String → Registry
remove [] id = []
remove ((j, e) ∷ reg) id = if j == id then reg else (j, e) ∷ remove reg id

-- What `notify` did: the writes in their order, and whether it came to the end of the map.
pub record Sent (V : Type 0) : Type 0 where
  pub writes : List (ℕ × V)
  pub finished : Bool

module _ (lib : Json) where
  open lib use {Value, kind, member, get_string, get_bool, elements, of_string, null_value, set}

  abbrev pub text_of : Value → Option String
  text_of v = if is_string (kind v) then get_string v else none

  unfoldable pub texts : List Value → List String
  texts [] = []
  texts (v ∷ vs) = elim (text_of v) [ none ↦ texts vs | some s ↦ s ∷ texts vs ]

  abbrev pub read_uris : Option Value → List String
  read_uris none = []
  read_uris (some v) = if is_array (kind v) then texts (elements v) else []

  -- `SubscriptionFilter::from_json`
  unfoldable pub from_json : Value → Result Filter
  from_json j = do
    tools ← value_or lib get_bool j "toolsListChanged" false
    prompts ← value_or lib get_bool j "promptsListChanged" false
    resources ← value_or lib get_bool j "resourcesListChanged" false
    ok (record {
      tools_list_changed = tools;
      prompts_list_changed = prompts;
      resources_list_changed = resources;
      resource_subscriptions = read_uris (member j "resourceSubscriptions");
    })

  -- `params["_meta"][KEY_SUBSCRIPTION_ID] = id`, which throws where `params` or its `_meta` is
  -- neither an object nor null.
  unfoldable pub label : Value → String → Result Value
  label params id =
      let meta = get_or (member params "_meta") null_value in
      if can_hold (kind params) && can_hold (kind meta)
      then ok (set params "_meta" (set meta key_subscription_id (of_string id)))
      else thrown

  unfoldable pub message : Entry → String → Value → Result Value
  message e method params = label params e.subscription_id >>= λ labelled. ok (
      build lib
        (("jsonrpc", of_string "2.0") ∷ ("method", of_string method) ∷ ("params", labelled) ∷ []))

  unfoldable pub notify : (ℕ → Bool) → Registry → String → Value → Sent Value
  notify alive [] method params = record { writes = []; finished = true }
  notify alive ((k, e) ∷ reg) method params =
      let rest = notify alive reg method params in
      if honored_filter_matches e method && alive e.writer
      then elim (message e method params) [
        | thrown ↦ record { writes = []; finished = false }
        | ok v ↦ record { writes = (e.writer, v) ∷ rest.writes; finished = rest.finished }
      ]
      else rest
