-- ===== src/Mcp/Subscriptions/Acknowledge.antt =====
-- src/mcp/server/McpMethodHandlers.cc: what a client that opens a subscription is told, and what the
-- registry holds then.
use Prim.Native.String.{String}
use mcp_server_cpp.Prelude.{
  ◌≡◌, refl, ap, ◌∙◌, Bool, true, false, Option, none, some, List, [], ◌∷◌, ◌++◌, map,
  if◌then◌else◌, arith,
}
use mcp_server_cpp.Mcp.Json.{Json, object, can_hold, ok}
use mcp_server_cpp.Mcp.Json.Build.{last_of, member-assign_all, kind-assign_all}
use mcp_server_cpp.Mcp.JsonRpc.RequestId
use mcp_server_cpp.Mcp.JsonRpc.RequestMeta
use mcp_server_cpp.Mcp.JsonRpc.RequestMeta.{RequestMeta}
use mcp_server_cpp.Mcp.JsonRpc.Request.{Request}
use mcp_server_cpp.Mcp.JsonRpc.ErrorResponse.{value_or}
use mcp_server_cpp.Mcp.Subscriptions.{Filter, Registry, from_json, read_uris, texts}
use mcp_server_cpp.Mcp.Subscriptions.Listen.{flag_field, uris_field, acknowledged}

module _ (lib : Json) where
  open lib use {Value, kind, member, get_bool, of_string, of_bool, of_texts, empty_object, dump}

  abbrev fields : Filter → List (String × Value)
  fields f =
      flag_field lib "toolsListChanged" f.tools_list_changed
      ++ flag_field lib "promptsListChanged" f.prompts_list_changed
      ++ flag_field lib "resourcesListChanged" f.resources_list_changed
      ++ uris_field lib f.resource_subscriptions

  abbrev flag_value : Bool → Option Value
  flag_value b = if b then some (of_bool true) else none

  abbrev uris_value : List String → Option Value
  uris_value [] = none
  uris_value (u ∷ us) = some (of_texts (u ∷ us))

  last_of-fields :
      (a b c : Bool) (us : List String)
      → let fs =
          flag_field lib "toolsListChanged" a
          ++ flag_field lib "promptsListChanged" b
          ++ flag_field lib "resourcesListChanged" c
          ++ uris_field lib us in
        (last_of fs "toolsListChanged" none ≡ flag_value a)
        × (last_of fs "promptsListChanged" none ≡ flag_value b)
        × (last_of fs "resourcesListChanged" none ≡ flag_value c)
        × (last_of fs "resourceSubscriptions" none ≡ uris_value us)
  last_of-fields a b c [] = (ground arith, ground arith, ground arith, ground arith)
  last_of-fields a b c (u ∷ us) = (ground arith, ground arith, ground arith, ground arith)

  member-acknowledged :
      (f : Filter) (k : String) → member (acknowledged lib f) k ≡ last_of (fields f) k none
  unfolding acknowledged
  member-acknowledged f k =
      member-assign_all lib empty_object (fields f) k (ap can_hold lib.kind-empty_object)
      ∙ ap (last_of (fields f) k) (lib.member-empty_object k)

  kind-acknowledged : (f : Filter) → kind (acknowledged lib f) ≡ object
  unfolding acknowledged
  kind-acknowledged f = kind-assign_all lib empty_object (fields f) lib.kind-empty_object

  read_flag :
      (v : Value) (k : String) (b : Bool)
      → kind v ≡ object
      → member v k ≡ flag_value b
      → value_or lib get_bool v k false ≡ ok b
  unfolding value_or
  read_flag v k true o m = ground (arith, lib.get_bool-of_bool true)
  read_flag v k false o m = ground arith

  texts-of_string : (us : List String) → texts lib (map of_string us) ≡ us
  unfolding texts
  texts-of_string [] = refl
  texts-of_string (u ∷ us) =
      ground (arith, texts-of_string us, lib.kind-of_string u, lib.get_string-of_string u)

  read_uris-uris_value : (us : List String) → read_uris lib (uris_value us) ≡ us
  read_uris-uris_value [] = refl
  read_uris-uris_value (u ∷ us) = ground (
    arith,
    lib.kind-of_texts (u ∷ us),
    ap (texts lib) (lib.elements-of_texts (u ∷ us)),
    texts-of_string (u ∷ us),
  )

  -- What is acknowledged is what the subscription covers: read as a filter, it is the filter that
  -- was honored.
  pub from_json-acknowledged : (f : Filter) → from_json lib (acknowledged lib f) ≡ ok f
  unfolding from_json
  from_json-acknowledged f =
      let (t, p, r, u) =
        last_of-fields f.tools_list_changed f.prompts_list_changed f.resources_list_changed
          f.resource_subscriptions in
      let v = acknowledged lib f in
      let o = kind-acknowledged f in
      ground (
        arith,
        read_flag v "toolsListChanged" f.tools_list_changed o (member-acknowledged f _ ∙ t),
        read_flag v "promptsListChanged" f.prompts_list_changed o (member-acknowledged f _ ∙ p),
        read_flag v "resourcesListChanged" f.resources_list_changed o (member-acknowledged f _ ∙ r),
        ap (read_uris lib) (member-acknowledged f "resourceSubscriptions" ∙ u),
        read_uris-uris_value f.resource_subscriptions,
      )
