-- ===== src/Mcp/Handlers/Prompts.antt =====
-- src/mcp/server/McpMethodHandlers.cc, `prompts/get`: when the renderer of a prompt runs.
use Prim.Native.String.{String}
use mathlib.Core.List.{Memᴰ}
use mcp_server_cpp.Prelude.{
  ◌≡◌, ◌⊎◌, refl, ap, Bool-cases, inl, inr, true, ◌&&◌, not, none, some, List, [], ◌∷◌, concat,
  arith,
}
use mcp_server_cpp.Mcp.Json.{Json, ok, is_some}
use mcp_server_cpp.Mcp.JsonRpc.ErrorCode.{invalid_params}
use mcp_server_cpp.Mcp.JsonRpc.RequestMeta
use mcp_server_cpp.Mcp.JsonRpc.RequestMeta.{RequestMeta}
use mcp_server_cpp.Mcp.JsonRpc.Request.{Request}
use mcp_server_cpp.Mcp.Dispatcher.{raises_mcp, find}
use mcp_server_cpp.Mcp.Handlers.{Handlers}
use mcp_server_cpp.Mcp.Handlers.Descriptor.{PromptArgument, PromptDescriptor}
use mcp_server_cpp.Mcp.Handlers.Calls.{
  with_meta, param_text, call_arguments, missing_argument, messages, prompts_get,
}

module _ (lib : Json) (json_error : String) where
  open lib use {Value, member}

  -- Every required argument is given.
  abbrev pub AllGiven : Value → List PromptArgument → Type 0
  AllGiven args arguments =
      (a : PromptArgument)
      → Memᴰ a arguments
      → a.required ≡ true
      → is_some (member args a.name) ≡ true

  -- A required argument is not given.
  abbrev pub IsMissing : Value → List PromptArgument → String → Type 0
  IsMissing args arguments name =
      (a : PromptArgument) × Memᴰ a arguments
      × (a.name ≡ name)
      × (a.required ≡ true)
      × (member args a.name ≡ none)

  missing_argument_lem :
      (args : Value) (arguments : List PromptArgument)
      → ((missing_argument lib json_error args arguments ≡ none) × AllGiven args arguments)
        ⊎ ((name : String) × (missing_argument lib json_error args arguments ≡ some name)
            × IsMissing args arguments name)
  unfolding missing_argument
  missing_argument_lem args [] = inl (refl, λ a m. elim m [ ])
  missing_argument_lem args (a ∷ rest) =
      elim (Bool-cases (a.required && not (is_some (member args a.name)))) [
        | inl y ↦ inr (a.name, rw y refl, (a, Memᴰ.head refl, refl, ground arith, ground arith))
        | inr n ↦ elim (missing_argument_lem args rest) [
          | inl (e, all) ↦ inl (
            rw n e,
            λ b m q. elim m [
              | Memᴰ.head p ↦
                  ground (arith, ap (λ z. z.required) p, ap (λ z. is_some (member args z.name)) p)
              | Memᴰ.tail m' ↦ all b m' q
            ],
          )
          | inr (name, e, (b, m, s, q, g)) ↦ inr (name, rw n e, (b, Memᴰ.tail m, s, q, g))
        ]
      ]

  -- With valid metadata and the name of a prompt that there is, the prompt is rendered, with the
  -- arguments of the request, where every argument that it requires is given; otherwise the answer is an
  -- error with the code for invalid parameters that names a required argument that is not given.
  pub prompts_get_lem :
      (h : Handlers Value) (r : Request Value) (m : RequestMeta Value) (name : String)
      (p : PromptDescriptor Value)
      → RequestMeta.extract_meta lib r ≡ ok (some m)
      → RequestMeta.is_valid lib m ≡ true
      → param_text lib json_error r "name" ≡ some name
      → find h.prompts name ≡ some p
      → let args = call_arguments lib json_error r in
        (AllGiven args p.arguments
          × (prompts_get lib json_error h r ≡ messages lib json_error r (p.renderer args)))
        ⊎ ((missing : String) × IsMissing args p.arguments missing
            × (prompts_get lib json_error h r
                ≡ raises_mcp invalid_params (concat "Missing required argument: " missing) none))
  unfolding prompts_get with_meta
  prompts_get_lem h r m name p a b c d =
      elim (missing_argument_lem (call_arguments lib json_error r) p.arguments) [
        | inl (e, all) ↦ inl (all, ground arith)
        | inr (missing, e, is) ↦ inr (missing, is, ground arith)
      ]
