-- ===== src/Mcp/Subscriptions/Listen.antt =====
-- src/mcp/server/McpMethodHandlers.cc: `handle_subscriptions_listen`, which opens a subscription.
-- The tables of the server are an association list of resources and the list of the templates, in
-- the order of their iteration. `bytes` is the text of a URI as bytes. The callback that removes the
-- subscription when an HTTP stream closes is left out.
use Prim.Native.String.{String}
use mcp_server_cpp.Prelude.{
  ℕ, Bytes, Bool, true, false, not, Option, none, some, List, [], ◌∷◌, ◌++◌, if◌then◌else◌,
}
use mcp_server_cpp.Mcp.Json.{Json, is_object, ok, thrown, is_some}
use mcp_server_cpp.Mcp.Json.Build.{build, assign_all}
use mcp_server_cpp.Mcp.JsonRpc.RequestId
use mcp_server_cpp.Mcp.JsonRpc.RequestMeta
use mcp_server_cpp.Mcp.JsonRpc.RequestMeta.{RequestMeta, get_or}
use mcp_server_cpp.Mcp.JsonRpc.Request.{Request}
use mcp_server_cpp.Mcp.JsonRpc.ErrorCode.{ErrorCode, invalid_params}
use mcp_server_cpp.Mcp.Dispatcher.{find}
use mcp_server_cpp.Mcp.UriTemplate.{UriTemplate, match_uri}
use mcp_server_cpp.Mcp.Subscriptions.{Filter, Registry, key_subscription_id, add, from_json}

-- What the handler does: an exception of the protocol, another one, or a message that is written
-- first and the registry that it leaves; the stream is open then.
pub data Listened (V : Type 0) : Type 0 where
  refuses : ErrorCode → String → Listened V
  fails : Listened V
  opens : V → Registry → Listened V

-- The URI once for every template that matches it.
unfoldable pub by_templates : (String → Bytes) → List UriTemplate → String → List String
by_templates bytes [] uri = []
by_templates bytes (t ∷ ts) uri =
    let rest = by_templates bytes ts uri in
    if is_some (match_uri t (bytes uri)) then uri ∷ rest else rest

module _ {ℓ} {R : Type ℓ} (bytes : String → Bytes) (resources : List (String × R))
    (templates : List UriTemplate) where
  unfoldable pub honored_uris : List String → List String
  honored_uris [] = []
  honored_uris (uri ∷ uris) =
      let rest = honored_uris uris in
      if is_some (find resources uri) then uri ∷ rest else by_templates bytes templates uri ++ rest

  unfoldable pub honor : Filter → Filter
  honor requested = record {
    tools_list_changed = false;
    prompts_list_changed = false;
    resources_list_changed = false;
    resource_subscriptions = honored_uris requested.resource_subscriptions;
  }

module _ (lib : Json) where
  open lib use {Value, kind, member, of_string, of_bool, of_texts, empty_object, dump}

  abbrev pub flag_field : String → Bool → List (String × Value)
  flag_field key false = []
  flag_field key true = (key, of_bool true) ∷ []

  abbrev pub uris_field : List String → List (String × Value)
  uris_field [] = []
  uris_field uris = ("resourceSubscriptions", of_texts uris) ∷ []

  -- `ack_notifications`
  unfoldable pub acknowledged : Filter → Value
  acknowledged f = assign_all lib empty_object (
      flag_field "toolsListChanged" f.tools_list_changed
      ++ flag_field "promptsListChanged" f.prompts_list_changed
      ++ flag_field "resourcesListChanged" f.resources_list_changed
      ++ uris_field f.resource_subscriptions)

  unfoldable pub acknowledgement : String → Filter → Value
  acknowledgement id f = build lib (
      ("jsonrpc", of_string "2.0")
      ∷ ("method", of_string "notifications/subscriptions/acknowledged")
      ∷ (
        "params",
        build lib (
            ("_meta", build lib ((key_subscription_id, of_string id) ∷ []))
            ∷ ("notifications", acknowledged f)
            ∷ []),
      )
      ∷ [])

  -- `req.params["notifications"]`, or an empty object.
  unfoldable pub requested_notifications : Request Value → Value
  requested_notifications r = elim r.params [
    | none ↦ empty_object
    | some params ↦
        if is_object (kind params)
        then get_or (member params "notifications") empty_object
        else empty_object
  ]

  abbrev pub accepts : Option (RequestMeta Value) → Bool
  accepts none = false
  accepts (some m) = RequestMeta.is_valid lib m

  unfoldable pub listen : (Filter → Filter) → Registry → ℕ → Request Value → Listened Value
  listen honoring reg writer r = elim (RequestMeta.extract_meta lib r) [
    | thrown ↦ fails
    | ok m ↦
        if not (accepts m)
        then refuses invalid_params "Missing or invalid _meta in params"
        else elim (from_json lib (requested_notifications r)) [
          | thrown ↦ fails
          | ok requested ↦
              let id = dump (RequestId.to_json lib r.id) in
              let honored = honoring requested in
              opens (acknowledgement id honored) (add reg id honored writer).0
        ]
  ]
