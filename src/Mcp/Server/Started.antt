-- ===== src/Mcp/Server/Started.antt =====
-- src/mcp/McpServer.cc: the calls of a server, before and after its start.
use Prim.Native.String.{String}
use mcp_server_cpp.Prelude.{
  Bytes, ℕ, ◌≡◌, refl, ap, ◌∙◌, Bool, true, false, Option, none, some, List, [], ◌∷◌, ◌++◌, length,
  replicate, Bool-cases, inl, inr, arith,
}
use mcp_server_cpp.Mcp.Json.{Result, ok, thrown, Result-cases}
use mcp_server_cpp.Mcp.Handlers.{Handlers, freeze, set_discover_config, check_not_frozen}
use mcp_server_cpp.Mcp.Handlers.Descriptor.{
  ToolDescriptor, ResourceDescriptor, ResourceTemplateDescriptor, PromptDescriptor,
}
use mcp_server_cpp.Mcp.Server.{
  McpServer, Options, Transport, http, stdio, create, registers, add_tool, add_resource,
  add_resource_template, add_prompt, start, listen_http, run_stdio,
}

-- A call of a method of the server.
pub data Call (V : Type 0) : Type 0 where
  calls_tool : ToolDescriptor V → Call V
  calls_resource : ResourceDescriptor V → Call V
  calls_template : ResourceTemplateDescriptor V → Call V
  calls_prompt : PromptDescriptor V → Call V
  calls_listen : String → ℕ → Call V
  calls_stdio : Call V

-- What a call starts the server on.
abbrev pub transport_of : {V : Type 0} → Call V → Option Transport
transport_of (calls_listen addr port) = some (http addr port)
transport_of calls_stdio = some stdio
transport_of _ = none

abbrev pub OnlyRegisters : {V : Type 0} → List (Call V) → Type 0
OnlyRegisters [] = Unit {0}
OnlyRegisters (c ∷ cs) = (transport_of c ≡ none) × OnlyRegisters cs

abbrev pub has_returned {ℓ} : {A : Type ℓ} → Result A → Bool
has_returned (ok a) = true
has_returned thrown = false

module _ {V : Type 0} (bytes : String → Bytes) where
  unfoldable pub perform : McpServer V → Call V → Result (McpServer V)
  perform s (calls_tool t) = add_tool s t
  perform s (calls_resource r) = add_resource s r
  perform s (calls_template r) = add_resource_template bytes s r
  perform s (calls_prompt p) = add_prompt s p
  perform s (calls_listen addr port) = listen_http s addr port
  perform s calls_stdio = run_stdio s

  abbrev or_unchanged : McpServer V → Result (McpServer V) → McpServer V
  or_unchanged s (ok s') = s'
  or_unchanged s thrown = s

  unfoldable pub run : McpServer V → List (Call V) → McpServer V
  run s [] = s
  run s (c ∷ cs) = run (or_unchanged s (perform s c)) cs

  perform-started : (s : McpServer V) (c : Call V) → s.started ≡ true → perform s c ≡ thrown
  unfolding perform add_tool add_resource add_resource_template add_prompt listen_http run_stdio
      start registers
  perform-started s (calls_tool t) e = ground arith
  perform-started s c e = ground arith

  stays : (s : McpServer V) (cs : List (Call V)) → s.started ≡ true → run s cs ≡ s
  unfolding run
  stays s [] e = refl
  stays s (c ∷ cs) e = ap (λ x. run (or_unchanged s x) cs) (perform-started s c e) ∙ stays s cs e

  -- Which of the calls return.
  unfoldable pub returns : McpServer V → List (Call V) → List Bool
  returns s [] = []
  returns s (c ∷ cs) =
      let rest = returns (or_unchanged s (perform s c)) cs in has_returned (perform s c) ∷ rest

  none_returns :
      (s : McpServer V) (cs : List (Call V))
      → s.started ≡ true
      → returns s cs ≡ replicate (length cs) false
  unfolding returns
  none_returns s [] e = refl
  none_returns s (c ∷ cs) e =
      ap (λ x. has_returned x ∷ returns (or_unchanged s x) cs) (perform-started s c e)
      ∙ ap (λ l. false ∷ l) (none_returns s cs e)

  registers-started :
      (s : McpServer V) (register : Handlers V → Result (Handlers V))
      → (or_unchanged s (registers s register)).started ≡ s.started
  unfolding registers
  registers-started s register = elim (Bool-cases s.started) [
    | inl y ↦ rw y refl
    | inr n ↦ elim (Result-cases (register s.handlers)) [
      | inl x ↦ rw (n, x) refl
      | inr (h, x) ↦ rw (n, x) refl
    ]
  ]

  perform-unstarted :
      (s : McpServer V) (c : Call V)
      → transport_of c ≡ none
      → (or_unchanged s (perform s c)).started ≡ s.started
  unfolding perform add_tool add_resource add_resource_template add_prompt
  perform-unstarted s (calls_tool t) e = registers-started s _
  perform-unstarted s (calls_resource r) e = registers-started s _
  perform-unstarted s (calls_template r) e = registers-started s _
  perform-unstarted s (calls_prompt p) e = registers-started s _
  perform-unstarted s _ e = cc

  starts :
      (s : McpServer V) (c : Call V) (t : Transport)
      → s.started ≡ false
      → transport_of c ≡ some t
      → or_unchanged s (perform s c)
        ≡ record { handlers = record s.handlers { frozen = true }; transport = t; started = true }
  unfolding perform listen_http run_stdio start freeze
  starts s (calls_listen a p) t n e = ground arith
  starts s calls_stdio t n e = ground arith
  starts s _ t n e = cc

  from_unstarted :
      (s : McpServer V) (before after : List (Call V)) (c : Call V) (t : Transport)
      → s.started ≡ false
      → OnlyRegisters before
      → transport_of c ≡ some t
      → let served : McpServer V = record {
        handlers = record (run s before).handlers { frozen = true };
        transport = t;
        started = true;
      } in
        (run s (before ++ c ∷ after) ≡ served)
        × (returns (run s (before ++ c ∷ [])) after ≡ replicate (length after) false)
  unfolding run
  from_unstarted s [] after c t n o e =
      let now = starts s c t n e in
      (
        ap (λ z. run z after) now ∙ stays _ after refl,
        ap (λ z. returns z after) now ∙ none_returns _ after refl,
      )
  from_unstarted s (b ∷ before) after c t n (o, os) e =
      from_unstarted (or_unchanged s (perform s b)) before after c t (perform-unstarted s b o ∙ n)
        os e

  -- A server that is created, takes registrations and is then started serves for ever what was
  -- registered until then, frozen, on the transport that it was started with: of the calls
  -- afterwards, registrations and further starts, every one throws and none changes the server.
  pub run-started :
      (opts : Options) (s : McpServer V) (before after : List (Call V)) (c : Call V) (t : Transport)
      → create opts ≡ ok s
      → OnlyRegisters before
      → transport_of c ≡ some t
      → let served : McpServer V = record {
        handlers = record (run s before).handlers { frozen = true };
        transport = t;
        started = true;
      } in
        (run s (before ++ c ∷ after) ≡ served)
        × (returns (run s (before ++ c ∷ [])) after ≡ replicate (length after) false)
  unfolding create set_discover_config check_not_frozen
  run-started opts s before after c t made o e =
      from_unstarted s before after c t (ground arith) o e
