-- ===== src/Mcp/Handlers/Negotiate.antt =====
-- src/mcp/server/McpMethodHandlers.cc, `server/discover`: which version is accepted, and what a
-- server says that it can do.
use Prim.Native.String.{String}
use package.text.Mathlib.Text.{◌==◌}
use package.text.Mathlib.TextEquality.{eq_iff}
use mathlib.Core.List.{Memᴰ}
use mcp_server_cpp.Prelude.{
  ◌≡◌, ◌↔◌, ◌⊎◌, refl, sym, ap, ◌∙◌, Bool-cases, inl, inr, Bool, true, false, not, ◌||◌, Option,
  none, some, List, [], ◌∷◌, ◌++◌, map, concat, if◌then◌else◌, arith,
}
use mcp_server_cpp.Mcp.Json.{Json, ok, can_hold}
use mcp_server_cpp.Mcp.Json.Build.{build, assign_all, last_of, member-assign_all, member-build}
use mcp_server_cpp.Mcp.JsonRpc.ErrorCode.{unsupported_protocol_version}
use mcp_server_cpp.Mcp.JsonRpc.RequestMeta
use mcp_server_cpp.Mcp.JsonRpc.RequestMeta.{RequestMeta}
use mcp_server_cpp.Mcp.JsonRpc.Request.{Request}
use mcp_server_cpp.Mcp.JsonRpc.SuccessResponse.{SuccessResponse}
use mcp_server_cpp.Mcp.Dispatcher.{success, raises_mcp}
use mcp_server_cpp.Mcp.Handlers.{Handlers}
use mcp_server_cpp.Mcp.Handlers.Descriptor.{optional_text}
use mcp_server_cpp.Mcp.Handlers.Discover.{
  is_empty, has_text, capability, capabilities, server_info, negotiate, discover,
}
use mcp_server_cpp.Mcp.Handlers.Listing.{reply}
use mcp_server_cpp.Mcp.Handlers.Lists.{reply-build}

has_text_iff : (ts : List String) (s : String) → (has_text ts s ≡ true) ↔ Memᴰ s ts
unfolding has_text
has_text_iff [] s = (λ e. cc, λ m. elim m [ ])
has_text_iff (t ∷ ts) s =
    let (there, back) = has_text_iff ts s in
    elim (Bool-cases (t == s)) [
      | inl y ↦ rw y (λ e. Memᴰ.head (sym ((eq_iff t s).0 y)), λ m. refl)
      | inr n ↦ rw n (
        λ e. Memᴰ.tail (there e),
        λ m. elim m [
          | Memᴰ.head p ↦ absurd (ground (arith, (eq_iff t s).1 (sym p)))
          | Memᴰ.tail m' ↦ back m'
        ],
      )
    ]

module _ (lib : Json) (json_error : String) where
  open lib use {Value, member, elements, of_string, of_int, of_bool, of_texts, empty_object}

  capability_fields :
      (a b c : Bool) (v : Value)
      → let fs =
          capability lib json_error "tools" a empty_object
          ++ capability lib json_error "resources" b v
          ++ capability lib json_error "prompts" c empty_object in
        (last_of fs "tools" none ≡ (if a then some empty_object else none))
        × (last_of fs "resources" none ≡ (if b then some v else none))
        × (last_of fs "prompts" none ≡ (if c then some empty_object else none))
  capability_fields true true true v = (ground arith, ground arith, ground arith)
  capability_fields true true false v = (ground arith, ground arith, ground arith)
  capability_fields true false true v = (ground arith, ground arith, ground arith)
  capability_fields true false false v = (ground arith, ground arith, ground arith)
  capability_fields false true true v = (ground arith, ground arith, ground arith)
  capability_fields false true false v = (ground arith, ground arith, ground arith)
  capability_fields false false true v = (ground arith, ground arith, ground arith)
  capability_fields false false false v = (ground arith, ground arith, ground arith)

  -- The capabilities that are shown, one for each table that is not empty.
  abbrev pub ShowsTables : Handlers Value → Value → Type 0
  ShowsTables h v =
      (resources : Value) × (member v "tools"
        ≡ (if is_empty h.tools then none else some empty_object))
      × (member v "resources" ≡ (
          if is_empty h.resources
          then if is_empty h.resource_templates then none else some resources
          else some resources))
      × (member v "prompts" ≡ (if is_empty h.prompts then none else some empty_object))
      × (member resources "subscribe" ≡ some (of_bool true))

  member-assigned :
      (fs : List (String × Value)) (k : String)
      → member (assign_all lib empty_object fs) k ≡ last_of fs k none
  member-assigned fs k =
      member-assign_all lib empty_object fs k (ap can_hold lib.kind-empty_object)
      ∙ ap (last_of fs k) (lib.member-empty_object k)

  capabilities-ShowsTables : (h : Handlers Value) → ShowsTables h (capabilities lib json_error h)
  unfolding capabilities
  capabilities-ShowsTables h =
      let r = assign_all lib empty_object (("subscribe", of_bool true) ∷ []) in
      let (a, b, c) =
        capability_fields (not (is_empty h.tools))
          (not (is_empty h.resources) || not (is_empty h.resource_templates))
          (not (is_empty h.prompts)) r in
      (
        r,
        member-assigned _ "tools" ∙ a ∙ ground arith,
        member-assigned _ "resources" ∙ b ∙ ground arith,
        member-assigned _ "prompts" ∙ c ∙ ground arith,
        member-assigned _ "subscribe",
      )

  abbrev fields : Handlers Value → Option String → List (String × Value)
  fields h instructions =
      ("supportedVersions", of_texts h.supported_versions)
        ∷ ("capabilities", capabilities lib json_error h)
        ∷ ("_meta", server_info lib json_error h)
        ∷ optional_text lib "instructions" instructions
      ++ ("ttlMs", of_int h.discover_ttl_ms) ∷ ("cacheScope", of_string "public") ∷ []

  fields_lem :
      (h : Handlers Value) (instructions : Option String)
      → (last_of (fields h instructions) "resultType" none ≡ none)
        × (last_of (fields h instructions) "supportedVersions" none
            ≡ some (of_texts h.supported_versions))
        × (last_of (fields h instructions) "capabilities" none
            ≡ some (capabilities lib json_error h))
  fields_lem h none = (ground arith, ground arith, ground arith)
  fields_lem h (some text) = (ground arith, ground arith, ground arith)

  negotiated :
      (h : Handlers Value) (r : Request Value) (m : RequestMeta Value)
      → has_text h.supported_versions m.protocol_version ≡ true
      → negotiate lib json_error h r m
        ≡ reply lib json_error r.id (build lib (fields h h.instructions))
  unfolding negotiate
  negotiated h r m y = rw (negotiate, y) refl

  refused :
      (h : Handlers Value) (r : Request Value) (m : RequestMeta Value)
      → has_text h.supported_versions m.protocol_version ≡ false
      → negotiate lib json_error h r m
        ≡ raises_mcp unsupported_protocol_version
            (concat "Unsupported protocol version: " m.protocol_version)
            (some (build lib (("supportedVersions", of_texts h.supported_versions) ∷ [])))
  unfolding negotiate
  refused h r m n = rw (negotiate, n) refl

  -- With valid metadata, a request for discovery is answered the versions that the server supports, and one
  -- capability for each table that is not empty, exactly where the version of the client is among
  -- those; otherwise the error tells the client the versions that are supported.
  pub discover_lem :
      (h : Handlers Value) (r : Request Value) (m : RequestMeta Value)
      → RequestMeta.extract_meta lib r ≡ ok (some m)
      → RequestMeta.is_valid lib m ≡ true
      → (Memᴰ m.protocol_version h.supported_versions
          × ((s : SuccessResponse Value) × (shown : Value) × (v : Value) × (discover lib json_error
                  h r
                ≡ success s)
              × (s.id ≡ r.id)
              × (member s.result "capabilities" ≡ some shown)
              × ShowsTables h shown
              × (member s.result "supportedVersions" ≡ some v)
              × (elements v ≡ map of_string h.supported_versions)))
        ⊎ ((Memᴰ m.protocol_version h.supported_versions → ⊥)
            × ((extra : Value) × (v : Value) × (discover lib json_error h r
                  ≡ raises_mcp unsupported_protocol_version
                      (concat "Unsupported protocol version: " m.protocol_version)
                      (some extra))
                × (member extra "supportedVersions" ≡ some v)
                × (elements v ≡ map of_string h.supported_versions)))
  unfolding discover
  discover_lem h r m e f =
      let vs = lib.elements-of_texts h.supported_versions in
      let (there, back) = has_text_iff h.supported_versions m.protocol_version in
      let asked : discover lib json_error h r ≡ negotiate lib json_error h r m = ground arith in
      elim (Bool-cases (has_text h.supported_versions m.protocol_version)) [
        | inl y ↦
            let (a, b, c) = fields_lem h h.instructions in
            let (s, q, i, t, g) = reply-build lib json_error r.id _ _ _ a in
            inl (
              there y,
              (
                s,
                capabilities lib json_error h,
                of_texts h.supported_versions,
                asked ∙ (negotiated h r m y ∙ q),
                i,
                g "capabilities" (λ d. ground (arith, eq_iff "capabilities" "resultType")) ∙ c,
                capabilities-ShowsTables h,
                g "supportedVersions" (λ d. ground (arith, eq_iff "supportedVersions" "resultType"))
                    ∙ b,
                vs,
              ),
            )
        | inr n ↦ inr (
          λ i. ground (arith, back i),
          (
            _,
            of_texts h.supported_versions,
            asked ∙ refused h r m n,
            member-build lib _ "supportedVersions",
            vs,
          ),
        )
      ]
