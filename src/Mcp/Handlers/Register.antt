-- ===== src/Mcp/Handlers/Register.antt =====
-- src/mcp/server/McpMethodHandlers.cc: what any sequence of registrations leaves in the tables.
use Prim.Native.String.{String}
use mcp_server_cpp.Prelude.{
  Bytes, ◌≡◌, refl, sym, ap, ◌∙◌, Option, none, some, true, List, [], ◌∷◌, ◌++◌, arith,
  Option-cases, inl, inr,
}
use mcp_server_cpp.Mcp.Json.{ℤ, Result, ok, thrown, Result-cases}
use mcp_server_cpp.Mcp.Dispatcher.{find, emplace}
use mcp_server_cpp.Mcp.Dispatcher.Route.{find-emplace}
use mcp_server_cpp.Mcp.Handlers.{
  Handlers, fresh, compile, check_not_frozen, freeze, set_discover_config, register_tool,
  register_resource, register_resource_template, register_prompt,
}
use mcp_server_cpp.Mcp.Handlers.Descriptor.{
  ToolDescriptor, ResourceDescriptor, ResourceTemplateDescriptor, CompiledTemplate,
  PromptDescriptor,
}
use mcp_server_cpp.Mcp.Handlers.Listing.{tool_name, resource_uri, template_uri, prompt_name}

module _ {H : Type 0} (key : H → String) where
  -- Every entry stands under its own key, and no key stands twice.
  abbrev pub IsKeyed : List (String × H) → Type 0
  IsKeyed [] = Unit {0}
  IsKeyed ((k, a) ∷ m) = (k ≡ key a) × (find m k ≡ none) × IsKeyed m

  emplace-IsKeyed : (m : List (String × H)) (a : H) → IsKeyed m → IsKeyed (emplace m (key a) a).0
  unfolding emplace
  emplace-IsKeyed m a v = elim (Option-cases (find m (key a))) [
    | inl n ↦ rw n (refl, n, v)
    | inr (b, s) ↦ rw s v
  ]

-- An entry that is there is not replaced.
emplace_stays :
    {H : Type 0} (m : List (String × H)) (k j : String) (a b : H)
    → find m k ≡ some a
    → find (emplace m j b).0 k ≡ some a
emplace_stays m k j a b e = ground (arith, find-emplace m j b k)

-- Every template is the compiled form of its text.
abbrev pub AreCompiled :
    {V : Type 0} → (String → Bytes) → List (String × CompiledTemplate V) → Type 0
AreCompiled bytes [] = Unit {0}
AreCompiled bytes ((k, c) ∷ m) =
    (compile bytes c.descriptor.uri_template ≡ ok c.compiled) × AreCompiled bytes m

emplace-AreCompiled :
    {V : Type 0} (bytes : String → Bytes) (m : List (String × CompiledTemplate V)) (k : String)
    (c : CompiledTemplate V)
    → compile bytes c.descriptor.uri_template ≡ ok c.compiled
    → AreCompiled bytes m
    → AreCompiled bytes (emplace m k c).0
unfolding emplace
emplace-AreCompiled bytes m k c e v = elim (Option-cases (find m k)) [
  | inl n ↦ rw n (e, v)
  | inr (b, s) ↦ rw s v
]

-- A call that sets the tables up.
pub data Setup (V : Type 0) : Type 0 where
  configures : String → String → List String → Option String → ℤ → Setup V
  adds_tool : ToolDescriptor V → Setup V
  adds_resource : ResourceDescriptor V → Setup V
  adds_template : ResourceTemplateDescriptor V → Setup V
  adds_prompt : PromptDescriptor V → Setup V
  freezes : Setup V

module _ {V : Type 0} (bytes : String → Bytes) where
  abbrev pub or_unchanged : Handlers V → Result (Handlers V) → Handlers V
  or_unchanged h (ok h') = h'
  or_unchanged h thrown = h

  -- A call that throws leaves the tables as they were.
  unfoldable pub set_up : Handlers V → Setup V → Handlers V
  set_up h (configures name version versions instructions ttl) =
      or_unchanged h (set_discover_config h name version versions instructions ttl)
  set_up h (adds_tool t) = or_unchanged h (register_tool h t)
  set_up h (adds_resource r) = or_unchanged h (register_resource h r)
  set_up h (adds_template r) = or_unchanged h (register_resource_template bytes h r)
  set_up h (adds_prompt p) = or_unchanged h (register_prompt h p)
  set_up h freezes = freeze h

  unfoldable pub run : Handlers V → List (Setup V) → Handlers V
  run h [] = h
  run h (c ∷ cs) = run (set_up h c) cs

  abbrev pub IsValid : Handlers V → Type 0
  IsValid h =
      IsKeyed tool_name h.tools
      × IsKeyed resource_uri h.resources
      × IsKeyed template_uri h.resource_templates
      × IsKeyed prompt_name h.prompts
      × AreCompiled bytes h.resource_templates

  set_up-IsValid : (h : Handlers V) (c : Setup V) → IsValid h → IsValid (set_up h c)
  unfolding set_up set_discover_config register_tool register_resource register_resource_template
      register_prompt freeze
  set_up-IsValid h (adds_tool t) v = elim (Result-cases (check_not_frozen h)) [
    | inl y ↦ rw y v
    | inr (_, n) ↦ rw n (emplace-IsKeyed tool_name h.tools t v.0, v.1, v.2, v.3, v.4)
  ]
  set_up-IsValid h (adds_resource r) v = elim (Result-cases (check_not_frozen h)) [
    | inl y ↦ rw y v
    | inr (_, n) ↦ rw n (v.0, emplace-IsKeyed resource_uri h.resources r v.1, v.2, v.3, v.4)
  ]
  set_up-IsValid h (adds_template r) v = elim (Result-cases (check_not_frozen h)) [
    | inl y ↦ rw y v
    | inr (_, n) ↦ elim (Result-cases (compile bytes r.uri_template)) [
      | inl e ↦ rw (n, e) v
      | inr (t, e) ↦
          let c : CompiledTemplate V = record { compiled = t; descriptor = r } in
          rw (n, e)
            (
              v.0,
              v.1,
              emplace-IsKeyed template_uri h.resource_templates c v.2,
              v.3,
              emplace-AreCompiled bytes h.resource_templates r.uri_template c e v.4,
            )
    ]
  ]
  set_up-IsValid h (adds_prompt p) v = elim (Result-cases (check_not_frozen h)) [
    | inl y ↦ rw y v
    | inr (_, n) ↦ rw n (v.0, v.1, v.2, emplace-IsKeyed prompt_name h.prompts p v.3, v.4)
  ]
  set_up-IsValid h (configures name version versions instructions ttl) v =
      elim (Result-cases (check_not_frozen h)) [ inl y ↦ rw y v | inr (_, n) ↦ rw n v ]
  set_up-IsValid h freezes v = v

  run_keeps : (h : Handlers V) (cs : List (Setup V)) → IsValid h → IsValid (run h cs)
  unfolding run
  run_keeps h [] v = v
  run_keeps h (c ∷ cs) v = run_keeps (set_up h c) cs (set_up-IsValid h c v)

  -- Whatever is called on a new server, in whatever order: every entry of a table stands under its
  -- own name or URI, no name or URI stands twice, and every template is the compiled form of its
  -- text.
  pub run-IsValid : (cs : List (Setup V)) → IsValid (run fresh cs)
  run-IsValid cs = run_keeps fresh cs (tt, tt, tt, tt, tt)

  -- What a name or a URI stands for in the first tables, it stands for in the second.
  abbrev pub Extends : Handlers V → Handlers V → String → Type 0
  Extends h h' k =
      ((t : ToolDescriptor V) → find h.tools k ≡ some t → find h'.tools k ≡ some t)
      × ((r : ResourceDescriptor V) → find h.resources k ≡ some r → find h'.resources k ≡ some r)
      × ((c : CompiledTemplate V)
          → find h.resource_templates k ≡ some c
          → find h'.resource_templates k ≡ some c)
      × ((p : PromptDescriptor V) → find h.prompts k ≡ some p → find h'.prompts k ≡ some p)

  set_up-Extends : (h : Handlers V) (c : Setup V) (k : String) → Extends h (set_up h c) k
  unfolding set_up set_discover_config register_tool register_resource register_resource_template
      register_prompt freeze
  set_up-Extends h (adds_tool t) k = elim (Result-cases (check_not_frozen h)) [
    | inl y ↦ rw y (λ t e. e, λ r e. e, λ c e. e, λ p e. e)
    | inr (_, n) ↦ rw n (λ s e. emplace_stays h.tools k t.name s t e, λ r e. e, λ c e. e, λ p e. e)
  ]
  set_up-Extends h (adds_resource r) k = elim (Result-cases (check_not_frozen h)) [
    | inl y ↦ rw y (λ t e. e, λ r e. e, λ c e. e, λ p e. e)
    | inr (_, n) ↦
        rw n (λ t e. e, λ s e. emplace_stays h.resources k r.uri s r e, λ c e. e, λ p e. e)
  ]
  set_up-Extends h (adds_template r) k = elim (Result-cases (check_not_frozen h)) [
    | inl y ↦ rw y (λ t e. e, λ r e. e, λ c e. e, λ p e. e)
    | inr (_, n) ↦ elim (Result-cases (compile bytes r.uri_template)) [
      | inl f ↦ rw (n, f) (λ t e. e, λ r e. e, λ c e. e, λ p e. e)
      | inr (t, f) ↦
          rw (n, f)
            (
              λ t e. e,
              λ r e. e,
              λ c e.
                  emplace_stays h.resource_templates k r.uri_template c
                    (record { compiled = t; descriptor = r }) e,
              λ p e. e,
            )
    ]
  ]
  set_up-Extends h (adds_prompt p) k = elim (Result-cases (check_not_frozen h)) [
    | inl y ↦ rw y (λ t e. e, λ r e. e, λ c e. e, λ p e. e)
    | inr (_, n) ↦
        rw n (λ t e. e, λ r e. e, λ c e. e, λ q e. emplace_stays h.prompts k p.name q p e)
  ]
  set_up-Extends h (configures name version versions instructions ttl) k =
      elim (Result-cases (check_not_frozen h)) [
        | inl y ↦ rw y (λ t e. e, λ r e. e, λ c e. e, λ p e. e)
        | inr (_, n) ↦ rw n (λ t e. e, λ r e. e, λ c e. e, λ p e. e)
      ]
  set_up-Extends h freezes k = (λ t e. e, λ r e. e, λ c e. e, λ p e. e)

  -- The first registration of a name or of a URI wins: whatever is called afterwards, it stands for
  -- the same tool, resource, template or prompt.
  pub run-Extends : (h : Handlers V) (cs : List (Setup V)) (k : String) → Extends h (run h cs) k
  unfolding run
  run-Extends h [] k = (λ t e. e, λ r e. e, λ c e. e, λ p e. e)
  run-Extends h (c ∷ cs) k =
      let (t, r, c', p) = set_up-Extends h c k in
      let (t2, r2, c2, p2) = run-Extends (set_up h c) cs k in
      (λ a e. t2 a (t a e), λ a e. r2 a (r a e), λ a e. c2 a (c' a e), λ a e. p2 a (p a e))

  set_up-frozen : (h : Handlers V) (c : Setup V) → h.frozen ≡ true → set_up h c ≡ h
  unfolding set_up check_not_frozen set_discover_config register_tool register_resource
      register_resource_template register_prompt freeze
  set_up-frozen h freezes e = ap (λ b. record h { frozen = b }) (sym e)
  set_up-frozen h (adds_tool t) e = ground arith
  set_up-frozen h c e = ground arith

  run_frozen : (h : Handlers V) (cs : List (Setup V)) → h.frozen ≡ true → run h cs ≡ h
  unfolding run
  run_frozen h [] e = refl
  run_frozen h (c ∷ cs) e =
      let same = set_up-frozen h c e in ap (λ g. run g cs) same ∙ run_frozen h cs e

  -- After `freeze` the tables are for ever what they were when it was called, with the mark that
  -- they are frozen, whatever was called before and is called afterwards.
  pub run-freezes :
      (h : Handlers V) (cs ds : List (Setup V))
      → run h (cs ++ freezes ∷ ds) ≡ record (run h cs) { frozen = true }
  unfolding run set_up freeze
  run-freezes h [] ds = run_frozen (record h { frozen = true }) ds refl
  run-freezes h (c ∷ cs) ds = run-freezes (set_up h c) cs ds
