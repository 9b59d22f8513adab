-- ===== src/Mcp/Subscriptions/Notify.antt =====
-- src/mcp/server/SubscriptionRegistry.h: who is notified, and of what.
use Prim.Native.String.{String}
use package.text.Mathlib.Text.{◌==◌}
use package.text.Mathlib.TextEquality.{eq_iff}
use mcp_server_cpp.Prelude.{
  ◌≢◌, ℕ, ◌≡◌, refl, ap, ◌∙◌, Bool, true, false, not, ◌&&◌, none, some, List, [], ◌∷◌, arith,
  Bool-cases, inl, inr,
}
use mcp_server_cpp.Mcp.Json.{Json, can_hold, ok}
use mcp_server_cpp.Mcp.Json.Build.{build, member-build}
use mcp_server_cpp.Mcp.JsonRpc.RequestMeta.{get_or}
use mcp_server_cpp.Mcp.Subscriptions.{
  Filter, no_uris, method_tools_list_changed, method_prompts_list_changed,
  method_resources_list_changed, method_resources_updated, Entry, Registry, key_subscription_id,
  honored_filter_matches, label, message, notify,
}

module _ (lib : Json) where
  open lib use {Value, kind, member, of_string, null_value, set, member-set}

  -- `_meta` can take a key, and so can the parameters.
  abbrev pub CanLabel : Value → Type 0
  CanLabel params =
      (can_hold (kind params) ≡ true)
      × (can_hold (kind (get_or (member params "_meta") null_value)) ≡ true)

  -- The notification of a method for one subscription, whose `_meta` has the identifier of the
  -- subscription; all other keys are those of the parameters given and of their `_meta`.
  abbrev pub IsNotification : Value → String → String → Value → Type 0
  IsNotification params method id v =
      (labelled : Value) × (meta : Value) × (member v "jsonrpc" ≡ some (of_string "2.0"))
      × (member v "method" ≡ some (of_string method))
      × (member v "params" ≡ some labelled)
      × (member v "id" ≡ none)
      × ((k : String) → k ≢ "_meta" → member labelled k ≡ member params k)
      × (member labelled "_meta" ≡ some meta)
      × (member meta key_subscription_id ≡ some (of_string id))
      × ((k : String)
          → k ≢ key_subscription_id
          → member meta k ≡ member (get_or (member params "_meta") null_value) k)

  -- If the parameters and their `_meta` can take a key, the message for a subscription is a
  -- notification of the method without an identifier, whose `_meta` names the subscription.
  pub message_lem :
      (e : Entry) (method : String) (params : Value)
      → CanLabel params
      → (v : Value) × (message lib e method params ≡ ok v)
        × IsNotification params method e.subscription_id v
  unfolding message label
  message_lem e method params (p, m) =
      let meta = get_or (member params "_meta") null_value in
      let new_meta = set meta key_subscription_id (of_string e.subscription_id) in
      (
        build lib (
            ("jsonrpc", of_string "2.0")
            ∷ ("method", of_string method)
            ∷ ("params", set params "_meta" new_meta)
            ∷ []),
        ground arith,
        (
          set params "_meta" new_meta,
          new_meta,
          member-build lib _ _,
          member-build lib _ _,
          member-build lib _ _,
          member-build lib _ _,
          (λ k n. ground (arith, eq_iff "_meta" k, member-set params "_meta" new_meta k p)),
          member-set params "_meta" new_meta "_meta" p,
          member-set meta key_subscription_id (of_string e.subscription_id) key_subscription_id m,
          (λ k n. ground (
            arith,
            eq_iff key_subscription_id k,
            member-set meta key_subscription_id (of_string e.subscription_id) k m,
          )),
        ),
      )

  -- The notifications that a client has subscribed to: the three changes of a list by their names,
  -- and the update of a resource where it named any resource.
  pub data Wants (f : Filter) (method : String) : Type 0 where
    wants_tools :
        method ≡ "notifications/tools/list_changed" → f.tools_list_changed ≡ true → Wants f method
    wants_prompts :
        method ≡ "notifications/prompts/list_changed"
        → f.prompts_list_changed ≡ true
        → Wants f method
    wants_resources :
        method ≡ "notifications/resources/list_changed"
        → f.resources_list_changed ≡ true
        → Wants f method
    wants_updates :
        method ≡ "notifications/resources/updated" → f.resource_subscriptions ≢ [] → Wants f method

  some_uri : (us : List String) → not (no_uris us) ≡ true → us ≢ []
  some_uri [] h e = cc
  some_uri (u ∷ us) h e = cc

  uri_some : (us : List String) → us ≢ [] → not (no_uris us) ≡ true
  uri_some [] h = absurd (h refl)
  uri_some (u ∷ us) h = refl

  matches-Wants :
      (e : Entry) (method : String)
      → honored_filter_matches e method ≡ true
      → Wants e.honored_filter method
  unfolding honored_filter_matches
  matches-Wants e method h = elim (Bool-cases (method == method_tools_list_changed)) [
    | inl t ↦ wants_tools ((eq_iff method _).0 t) (ground arith)
    | inr t ↦ elim (Bool-cases (method == method_prompts_list_changed)) [
      | inl p ↦ wants_prompts ((eq_iff method _).0 p) (ground arith)
      | inr p ↦ elim (Bool-cases (method == method_resources_list_changed)) [
        | inl r ↦ wants_resources ((eq_iff method _).0 r) (ground arith)
        | inr r ↦ elim (Bool-cases (method == method_resources_updated)) [
          | inl u ↦
              wants_updates ((eq_iff method _).0 u)
                (some_uri e.honored_filter.resource_subscriptions (ground arith))
          | inr u ↦ absurd (ground arith)
        ]
      ]
    ]
  ]

  Wants-matches :
      (e : Entry) (method : String)
      → Wants e.honored_filter method
      → honored_filter_matches e method ≡ true
  unfolding honored_filter_matches
  Wants-matches e method (wants_tools m h) = ap (honored_filter_matches e) m ∙ h
  Wants-matches e method (wants_prompts m h) = ap (honored_filter_matches e) m ∙ h
  Wants-matches e method (wants_resources m h) = ap (honored_filter_matches e) m ∙ h
  Wants-matches e method (wants_updates m h) =
      ap (honored_filter_matches e) m ∙ uri_some e.honored_filter.resource_subscriptions h

  -- What is to be written: one notification for each subscription that wants the method and whose
  -- writer is there, to that writer, in the order of the registry, and nothing else.
  pub data Delivers (alive : ℕ → Bool) (method : String) (params : Value)
      : Registry → List (ℕ × Value) → Type 0 where
    ends : Delivers alive method params [] []
    goes :
        {k : String} {e : Entry} {reg : Registry} {v : Value} {writes : List (ℕ × Value)}
        → Wants e.honored_filter method
        → alive e.writer ≡ true
        → IsNotification params method e.subscription_id v
        → Delivers alive method params reg writes
        → Delivers alive method params ((k, e) ∷ reg) ((e.writer, v) ∷ writes)
    skips :
        {k : String} {e : Entry} {reg : Registry} {writes : List (ℕ × Value)}
        → (Wants e.honored_filter method → alive e.writer ≡ false)
        → Delivers alive method params reg writes
        → Delivers alive method params ((k, e) ∷ reg) writes

  -- If the parameters and their `_meta` can take a key, `notify` comes to the end of the registry,
  -- and what it writes is, in the order of the registry, one notification for each subscription that
  -- wants the method and whose writer is there, with the identifier of that subscription in its
  -- `_meta`, and nothing else.
  pub notify-Delivers :
      (alive : ℕ → Bool) (reg : Registry) (method : String) (params : Value)
      → CanLabel params
      → ((notify lib alive reg method params).finished ≡ true)
        × Delivers alive method params reg (notify lib alive reg method params).writes
  unfolding notify
  notify-Delivers alive [] method params c = (refl, ends)
  notify-Delivers alive ((k, e) ∷ reg) method params c =
      let (fin, rest) = notify-Delivers alive reg method params c in
      let (u, sent, is) = message_lem e method params c in
      elim (Bool-cases (honored_filter_matches e method && alive e.writer)) [
        | inl t ↦
            rw (t, sent) (fin, goes (matches-Wants e method (ground arith)) (ground arith) is rest)
        | inr f ↦ rw f (fin, skips (λ w. ground (arith, Wants-matches e method w)) rest)
      ]
