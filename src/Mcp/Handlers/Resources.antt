-- ===== src/Mcp/Handlers/Resources.antt =====
-- src/mcp/server/McpMethodHandlers.cc, `resources/read`: which reader answers.
use Prim.Native.String.{String}
use mathlib.Core.List.{Memᴰ}
use mcp_server_cpp.Prelude.{
  Bytes, ◌≡◌, refl, ap, ◌∙◌, Option-cases, inl, inr, true, none, some, List, [], ◌∷◌, concat, arith,
}
use mcp_server_cpp.Mcp.Json.{Json, ok}
use mcp_server_cpp.Mcp.JsonRpc.ErrorCode.{invalid_params}
use mcp_server_cpp.Mcp.JsonRpc.RequestMeta
use mcp_server_cpp.Mcp.JsonRpc.RequestMeta.{RequestMeta}
use mcp_server_cpp.Mcp.JsonRpc.Request.{Request}
use mcp_server_cpp.Mcp.Dispatcher.{Handled, raises_mcp, find}
use mcp_server_cpp.Mcp.UriTemplate.{Params, match_uri}
use mcp_server_cpp.Mcp.Handlers.{Handlers}
use mcp_server_cpp.Mcp.Handlers.Descriptor.{ResourceDescriptor, CompiledTemplate}
use mcp_server_cpp.Mcp.Handlers.Calls.{
  with_meta, param_text, contents, read_template, resources_read,
}

module _ (lib : Json) (json_error : String) (bytes : String → Bytes) where
  open lib use {Value}

  -- The request asks for this URI and has metadata.
  pub record Asks (r : Request Value) (uri : String) : Type 0 where
    pub request_meta : RequestMeta Value
    pub has_meta : RequestMeta.extract_meta lib r ≡ ok (some request_meta)
    pub good_meta : RequestMeta.is_valid lib request_meta ≡ true
    pub has_uri : param_text lib json_error r "uri" ≡ some uri

  -- What the answer to a read of a URI may be.
  pub data Answers (h : Handlers Value) (r : Request Value) (uri : String)
      : Handled Value → Type 0 where
    resource :
        (found : ResourceDescriptor Value)
        → find h.resources uri ≡ some found
        → Answers h r uri (contents lib json_error r found.reader)
    template :
        (k : String) (c : CompiledTemplate Value) (params : Params)
        → find h.resources uri ≡ none
        → Memᴰ (k, c) h.resource_templates
        → match_uri c.compiled (bytes uri) ≡ some params
        → Answers h r uri (contents lib json_error r (c.descriptor.reader uri params))
    unknown :
        find h.resources uri ≡ none
        → ((k : String) (c : CompiledTemplate Value)
            → Memᴰ (k, c) h.resource_templates
            → match_uri c.compiled (bytes uri) ≡ none)
        → Answers h r uri (raises_mcp invalid_params (concat "Unknown resource URI: " uri) none)

  -- The loop over the templates.
  pub data Reads (r : Request Value) (uri : String) (ts : List (String × CompiledTemplate Value))
      : Handled Value → Type 0 where
    matched :
        (k : String) (c : CompiledTemplate Value) (params : Params)
        → Memᴰ (k, c) ts
        → match_uri c.compiled (bytes uri) ≡ some params
        → Reads r uri ts (contents lib json_error r (c.descriptor.reader uri params))
    unmatched :
        ((k : String) (c : CompiledTemplate Value)
          → Memᴰ (k, c) ts
          → match_uri c.compiled (bytes uri) ≡ none)
        → Reads r uri ts (raises_mcp invalid_params (concat "Unknown resource URI: " uri) none)

  Reads-later :
      (r : Request Value) (uri k : String) (c : CompiledTemplate Value)
      (ts : List (String × CompiledTemplate Value)) (answer : Handled Value)
      → match_uri c.compiled (bytes uri) ≡ none
      → Reads r uri ts answer
      → Reads r uri ((k, c) ∷ ts) answer
  Reads-later r uri k c ts _ n (matched j d params m e) = matched j d params (Memᴰ.tail m) e
  Reads-later r uri k c ts _ n (unmatched f) = unmatched λ j d m. elim m [
    | Memᴰ.head p ↦ ap (λ z. match_uri z.1.compiled (bytes uri)) p ∙ n
    | Memᴰ.tail m' ↦ f j d m'
  ]

  read_template-Reads :
      (r : Request Value) (uri : String) (ts : List (String × CompiledTemplate Value))
      → Reads r uri ts (read_template lib json_error bytes r uri ts)
  unfolding read_template
  read_template-Reads r uri [] = unmatched λ k c m. elim m [ ]
  read_template-Reads r uri ((k, c) ∷ ts) = elim (Option-cases (match_uri c.compiled (bytes uri))) [
    | inr (params, e) ↦ rw (read_template, e) (matched k c params (Memᴰ.head refl) e)
    | inl n ↦ rw (read_template, n) (Reads-later r uri k c ts _ n (read_template-Reads r uri ts))
  ]

  Reads-Answers :
      (h : Handlers Value) (r : Request Value) (uri : String) (answer : Handled Value)
      → find h.resources uri ≡ none
      → Reads r uri h.resource_templates answer
      → Answers h r uri answer
  Reads-Answers h r uri _ n (matched k c params m e) = template k c params n m e
  Reads-Answers h r uri _ n (unmatched f) = unknown n f

  asked :
      (h : Handlers Value) (r : Request Value) (uri : String)
      → Asks r uri
      → resources_read lib json_error bytes h r ≡ elim (find h.resources uri) [
        | none ↦ read_template lib json_error bytes r uri h.resource_templates
        | some found ↦ contents lib json_error r found.reader
      ]
  unfolding resources_read with_meta
  asked h r uri a = ground (arith, a.has_meta, a.good_meta, a.has_uri)

  -- With valid metadata, a read of a URI is answered by the reader of the resource of that URI; where there is none, by the
  -- reader of a template that matches it, with the values of its variables; and by an error with the
  -- code for invalid parameters exactly where no template matches.
  pub resources_read-Answers :
      (h : Handlers Value) (r : Request Value) (uri : String)
      → Asks r uri
      → Answers h r uri (resources_read lib json_error bytes h r)
  resources_read-Answers h r uri a = elim (Option-cases (find h.resources uri)) [
    | inr (found, e) ↦ rw (asked h r uri a, e) (resource found e)
    | inl n ↦
        rw (asked h r uri a, n)
          (Reads-Answers h r uri _ n (read_template-Reads r uri h.resource_templates))
  ]
