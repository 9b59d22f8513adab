-- ===== src/Mcp/Handlers/Lists.antt =====
-- src/mcp/server/McpMethodHandlers.cc: what the four lists show.
use Prim.Native.String.{String}
use package.text.Mathlib.Text.{◌==◌}
use package.text.Mathlib.TextEquality.{eq_iff}
use mathlib.Core.List.{Permᴰ}
use mcp_server_cpp.Prelude.{
  Bytes, ◌≡◌, ◌≢◌, refl, sym, ap, ◌∙◌, Bool-cases, inl, inr, false, none, some, List, [], ◌∷◌, map,
  arith,
}
use mcp_server_cpp.Mcp.Json.{Json, ℤ, object, can_hold}
use mcp_server_cpp.Mcp.Json.Build.{build, last_of, kind-build, member-build}
use mcp_server_cpp.Mcp.JsonRpc.RequestId.{RequestId}
use mcp_server_cpp.Mcp.JsonRpc.Request.{Request}
use mcp_server_cpp.Mcp.JsonRpc.SuccessResponse
use mcp_server_cpp.Mcp.JsonRpc.SuccessResponse.{SuccessResponse}
use mcp_server_cpp.Mcp.Dispatcher.{Handled, success, find}
use mcp_server_cpp.Mcp.Handlers.{Handlers}
use mcp_server_cpp.Mcp.Handlers.Descriptor.{
  tool_to_json, resource_to_json, template_to_json, prompt_to_json,
}
use mcp_server_cpp.Mcp.Handlers.Register.{IsKeyed, IsValid}
use mcp_server_cpp.Mcp.Handlers.Sort.{sort}
use mcp_server_cpp.Mcp.Handlers.Sort.Order.{
  Ascends, Differs, Distinct, sort_perm, sort-Perm, sort-Ascends,
}
use mcp_server_cpp.Mcp.Handlers.Listing.{
  values, tool_name, resource_uri, template_uri, prompt_name, reply, listing, has_cursor,
  tools_list, resources_list, resource_templates_list, prompts_list,
}

module _ {H : Type 0} (key : H → String) where
  find-Differs :
      (k : String) (m : List (String × H))
      → find m k ≡ none
      → IsKeyed key m
      → Differs key k (values m)
  unfolding find
  find-Differs k [] e v = tt
  find-Differs k ((j, a) ∷ m) e (s, n, v) = elim (Bool-cases (j == k)) [
    | inl y ↦ absurd (ground arith)
    | inr y ↦ (λ f. ground (arith, eq_iff j k), find-Differs k m (ground arith) v)
  ]

  -- The keys of a table are distinct.
  keyed-Distinct : (m : List (String × H)) → IsKeyed key m → Distinct key (values m)
  keyed-Distinct [] v = tt
  keyed-Distinct ((k, a) ∷ m) (s, n, v) =
      (find-Differs (key a) m (ap (find m) (sym s) ∙ n) v, keyed-Distinct m v)

  values_perm : {m m' : List (String × H)} → Permᴰ m m' → Permᴰ (values m) (values m')
  values_perm Permᴰ.nil = Permᴰ.nil
  values_perm (Permᴰ.cons e p) = Permᴰ.cons (ap (λ x. x.1) e) (values_perm p)
  values_perm (Permᴰ.swap e f) = Permᴰ.swap (ap (λ x. x.1) e) (ap (λ x. x.1) f)
  values_perm (Permᴰ.trans p q) = Permᴰ.trans (values_perm p) (values_perm q)

  same_order :
      {m m' : List (String × H)}
      → IsKeyed key m
      → Permᴰ m m'
      → sort key (values m) ≡ sort key (values m')
  same_order {m} v p = sort_perm key (values_perm p) (keyed-Distinct m v)

module _ (lib : Json) (json_error : String) where
  open lib use {Value, member, elements, of_string, of_int, of_items}

  -- Where the entries stand under their own names and URIs, each once, the four lists do not depend on
  -- the order in which the tables are iterated.
  pub lists_deterministic :
      (bytes : String → Bytes) (h h' : Handlers Value) (r : Request Value)
      → IsValid bytes h
      → Permᴰ h.tools h'.tools
      → Permᴰ h.resources h'.resources
      → Permᴰ h.resource_templates h'.resource_templates
      → Permᴰ h.prompts h'.prompts
      → (tools_list lib json_error h r ≡ tools_list lib json_error h' r)
        × (resources_list lib json_error h r ≡ resources_list lib json_error h' r)
        × (resource_templates_list lib json_error h r ≡ resource_templates_list lib json_error h' r)
        × (prompts_list lib json_error h r ≡ prompts_list lib json_error h' r)
  unfolding tools_list resources_list resource_templates_list prompts_list
  lists_deterministic bytes h h' r v pt pr pc pp =
      let a = same_order tool_name v.0 pt in
      let b = same_order resource_uri v.1 pr in
      let c = same_order template_uri v.2 pc in
      let d = same_order prompt_name v.3 pp in
      (
        elim (Bool-cases (has_cursor lib json_error r)) [
          | inl y ↦ rw (tools_list, y) refl
          | inr n ↦ rw (tools_list, n, a) refl
        ],
        rw b refl,
        rw c refl,
        rw d refl,
      )

  -- A result that is built without a type is sent as a complete one.
  pub reply-build :
      (id : RequestId) (k : String) (x : Value) (fields : List (String × Value))
      → last_of ((k, x) ∷ fields) "resultType" none ≡ none
      → (s : SuccessResponse Value) × (reply lib json_error id (build lib ((k, x) ∷ fields))
          ≡ success s)
        × (s.id ≡ id)
        × (member s.result "resultType" ≡ some (of_string "complete"))
        × ((j : String) → j ≢ "resultType" → member s.result j ≡ last_of ((k, x) ∷ fields) j none)
  unfolding reply SuccessResponse.make
  reply-build id k x fields e =
      let v = build lib ((k, x) ∷ fields) in
      let o : lib.kind v ≡ object = kind-build lib k x fields in
      let h = ap can_hold o in
      let n = member-build lib ((k, x) ∷ fields) "resultType" ∙ e in
      (
        record { id = id; result = lib.set v "resultType" (of_string "complete") },
        ground arith,
        refl,
        ground (arith, lib.member-set v "resultType" (of_string "complete") "resultType" h),
        λ j d. ground (
          arith,
          eq_iff "resultType" j,
          lib.member-set v "resultType" (of_string "complete") j h,
          member-build lib ((k, x) ∷ fields) j,
        ),
      )

  -- The answer of a list: under its field it has all the entries of the table, one after the other by
  -- their key.
  abbrev pub Shows :
      {H : Type 0}
      → (H → String)
      → (H → Value)
      → RequestId
      → String
      → Handled Value
      → List H
      → Type 0
  Shows {H} key to_json id field answer table =
      (s : SuccessResponse Value) × (v : Value) × (shown : List H) × (answer ≡ success s)
      × (s.id ≡ id)
      × (member s.result field ≡ some v)
      × (elements v ≡ map to_json shown)
      × Ascends key shown
      × Permᴰ shown table

  listing-Shows :
      {H : Type 0} (key : H → String) (to_json : H → Value) (r : Request Value) (field : String)
      (ttl : ℤ) (scope : String) (m : List (String × H))
      → IsKeyed key m
      → (field == "resultType") ≡ false
      → ("ttlMs" == field) ≡ false
      → ("cacheScope" == field) ≡ false
      → Shows key to_json r.id field
          (listing lib json_error r field (map to_json (sort key (values m))) ttl scope)
          (values m)
  unfolding listing
  listing-Shows key to_json r field ttl scope m k a b c =
      let shown = sort key (values m) in
      let items = of_items (map to_json shown) in
      let (s, e, i, t, f) =
        reply-build r.id field items (("ttlMs", of_int ttl) ∷ ("cacheScope", of_string scope) ∷ [])
          (ground arith) in
      (
        s,
        items,
        shown,
        e,
        i,
        f field (λ g. ground (arith, eq_iff field "resultType"))
            ∙ ground (arith, eq_iff field field),
        lib.elements-of_items (map to_json shown),
        sort-Ascends key (values m) (keyed-Distinct key m k),
        sort-Perm key (values m),
      )

  -- Where the entries stand under their own names and URIs, each once, and the request has no cursor,
  -- each list shows all that is registered, once, in the order of the names or URIs.
  pub lists_sorted :
      (bytes : String → Bytes) (h : Handlers Value) (r : Request Value)
      → IsValid bytes h
      → has_cursor lib json_error r ≡ false
      → Shows tool_name
          (tool_to_json lib)
          r.id
          "tools"
          (tools_list lib json_error h r)
          (values h.tools)
        × Shows resource_uri
            (resource_to_json lib)
            r.id
            "resources"
            (resources_list lib json_error h r)
            (values h.resources)
        × Shows template_uri
            (template_to_json lib)
            r.id
            "resourceTemplates"
            (resource_templates_list lib json_error h r)
            (values h.resource_templates)
        × Shows prompt_name
            (prompt_to_json lib)
            r.id
            "prompts"
            (prompts_list lib json_error h r)
            (values h.prompts)
  unfolding tools_list resources_list resource_templates_list prompts_list
  lists_sorted bytes h r v n = (
    rw (tools_list, n)
        (listing-Shows tool_name (tool_to_json lib) r "tools" _ _ h.tools v.0 refl refl refl),
    listing-Shows resource_uri (resource_to_json lib) r "resources" _ _ h.resources v.1 refl refl
        refl,
    listing-Shows template_uri (template_to_json lib) r "resourceTemplates" _ _ h.resource_templates
        v.2 refl refl refl,
    listing-Shows prompt_name (prompt_to_json lib) r "prompts" _ _ h.prompts v.3 refl refl refl,
  )
