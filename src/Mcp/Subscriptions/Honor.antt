-- ===== src/Mcp/Subscriptions/Honor.antt =====
-- src/mcp/server/McpMethodHandlers.cc: which resources a subscription covers, and what its
-- acknowledgement says.
use Prim.Native.String.{String}
use mathlib.Core.List.{Memᴰ}
use mcp_server_cpp.Prelude.{
  Bytes, ◌≡◌, ◌↔◌, ◌⊎◌, refl, sym, ap, ◌∙◌, true, List, [], ◌∷◌, ◌++◌, arith, Bool-cases, inl, inr,
}
use mcp_server_cpp.Mcp.Json.{is_some}
use mcp_server_cpp.Mcp.Dispatcher.{find}
use mcp_server_cpp.Mcp.UriTemplate.{UriTemplate, match_uri}
use mcp_server_cpp.Mcp.Subscriptions.Listen.{by_templates, honored_uris}

by_templates_iff :
    (bytes : String → Bytes) (ts : List UriTemplate) (uri u : String)
    → Memᴰ u (by_templates bytes ts uri)
      ↔ ((u ≡ uri) × ((t : UriTemplate) × Memᴰ t ts × (is_some (match_uri t (bytes uri)) ≡ true)))
unfolding by_templates
by_templates_iff bytes [] uri u = (λ m. elim m [ ], λ (e, (t, m, h)). elim m [ ])
by_templates_iff bytes (s ∷ ts) uri u =
    let (there, back) = by_templates_iff bytes ts uri u in
    elim (Bool-cases (is_some (match_uri s (bytes uri)))) [
      | inl y ↦ rw y (
        λ m. elim m [
          | Memᴰ.head p ↦ (p, (s, Memᴰ.head refl, y))
          | Memᴰ.tail m' ↦ let (e, (t, i, h)) = there m' in (e, (t, Memᴰ.tail i, h))
        ],
        λ (e, _). Memᴰ.head e,
      )
      | inr n ↦ rw n (
        λ m. let (e, (t, i, h)) = there m in (e, (t, Memᴰ.tail i, h)),
        λ (e, (t, i, h)). elim i [
          | Memᴰ.head p ↦ absurd (ground (arith, ap (λ z. match_uri z (bytes uri)) p))
          | Memᴰ.tail i' ↦ back (e, (t, i', h))
        ],
      )
    ]

append_iff : (xs ys : List String) (u : String) → Memᴰ u (xs ++ ys) ↔ (Memᴰ u xs ⊎ Memᴰ u ys)
append_iff [] ys u = (λ m. inr m, λ s. elim s [ inl m ↦ elim m [ ] | inr m ↦ m ])
append_iff (x ∷ xs) ys u =
    let (there, back) = append_iff xs ys u in
    (
      λ m. elim m [
        | Memᴰ.head p ↦ inl (Memᴰ.head p)
        | Memᴰ.tail m' ↦ elim (there m') [ inl i ↦ inl (Memᴰ.tail i) | inr i ↦ inr i ]
      ],
      λ s. elim s [
        | inl m ↦ elim m [ Memᴰ.head p ↦ Memᴰ.head p | Memᴰ.tail i ↦ Memᴰ.tail (back (inl i)) ]
        | inr i ↦ Memᴰ.tail (back (inr i))
      ],
    )

module _ {ℓ} {R : Type ℓ} (bytes : String → Bytes) (resources : List (String × R))
    (templates : List UriTemplate) where
  -- The server has a resource of this name, or a template that matches it.
  abbrev pub IsServed : String → Type 0
  IsServed uri =
      (is_some (find resources uri) ≡ true)
      ⊎ ((t : UriTemplate) × Memᴰ t templates × (is_some (match_uri t (bytes uri)) ≡ true))

  -- The URIs that a subscription covers are exactly those that were asked for and that the server
  -- has, by their name or by a template.
  pub honored_uris-IsServed :
      (uris : List String) (u : String)
      → Memᴰ u (honored_uris bytes resources templates uris) ↔ (Memᴰ u uris × IsServed u)
  unfolding honored_uris
  honored_uris-IsServed [] u = (λ m. elim m [ ], λ (m, _). elim m [ ])
  honored_uris-IsServed (uri ∷ uris) u =
      let (there, back) = honored_uris-IsServed uris u in
      elim (Bool-cases (is_some (find resources uri))) [
        | inl y ↦ rw y (
          λ m. elim m [
            | Memᴰ.head p ↦ (Memᴰ.head p, inl (ap (λ z. is_some (find resources z)) p ∙ y))
            | Memᴰ.tail m' ↦ let (i, s) = there m' in (Memᴰ.tail i, s)
          ],
          λ (m, s). elim m [ Memᴰ.head p ↦ Memᴰ.head p | Memᴰ.tail i ↦ Memᴰ.tail (back (i, s)) ],
        )
        | inr n ↦ rw n (
          λ m.
              elim ((append_iff (by_templates bytes templates uri)
                  (honored_uris bytes resources templates uris) u).0
                m) [
                  | inl i ↦
                      let (e, (t, j, h)) = (by_templates_iff bytes templates uri u).0 i in
                      (Memᴰ.head e, inr (t, j, ap (λ z. is_some (match_uri t (bytes z))) e ∙ h))
                  | inr i ↦ let (j, s) = there i in (Memᴰ.tail j, s)
                ],
          λ (m, s).
              (append_iff (by_templates bytes templates uri)
                  (honored_uris bytes resources templates uris) u).1
                (elim m [
                  | Memᴰ.head p ↦ elim s [
                    | inl f ↦ absurd (ground (arith, ap (λ z. find resources z) p))
                    | inr (t, j, h) ↦ inl (
                        (by_templates_iff bytes templates uri u).1
                          (p, (t, j, ap (λ z. is_some (match_uri t (bytes z))) (sym p) ∙ h)))
                  ]
                  | Memᴰ.tail i ↦ inr (back (i, s))
                ]),
        )
      ]
