-- ===== src/Mcp/UriTemplate/Adjacent.antt =====
-- src/mcp/server/UriTemplate.cc: a template in which one variable stands right behind another.
use mcp_server_cpp.Prelude.{
  ◌≡◌, ◌≢◌, ◌⊎◌, inl, inr, refl, sym, ◌∙◌, List, [], ◌∷◌, ◌++◌, none, Bytes, Option-cases, true,
}
use mcp_server_cpp.Mcp.UriTemplate.{
  SegmentType, literal, var, reserved_var, Segment, Params, assign, match_segments, match_uri,
  UriTemplate,
}
use mcp_server_cpp.Mcp.UriTemplate.Value.{Allowed}
use mcp_server_cpp.Mcp.UriTemplate.Match.{Covers, match_segments_iff}

-- Somewhere in the list two variables stand side by side.
abbrev pub HasAdjacent : List Segment → Type 0
HasAdjacent [] = ⊥
HasAdjacent (s ∷ []) = ⊥
HasAdjacent (s ∷ t ∷ segments) =
    ((s.kind ≢ literal) × (t.kind ≢ literal)) ⊎ HasAdjacent (t ∷ segments)

Allowed-ne-nil : (kind : SegmentType) (value : Bytes) → Allowed kind value → value ≢ []
Allowed-ne-nil var value a = a.0
Allowed-ne-nil _ value a = a

append-ne-nil : (xs ys : Bytes) → xs ≢ [] → xs ++ ys ≢ []
append-ne-nil [] ys h e = absurd (h refl)
append-ne-nil (x ∷ xs) ys h e = cc

-- A variable needs a byte of the URI.
variable-uri :
    (kind : SegmentType) (name : Bytes) (segments : List Segment) (uri : Bytes)
    (params result : Params)
    → kind ≢ literal
    → Covers (record { kind = kind; value = name } ∷ segments) uri params result
    → uri ≢ []
variable-uri literal name segments uri params result v c e = absurd (v refl)
variable-uri kind name segments uri params result v (value, rest, same, ends, allowed, c) e =
    append-ne-nil value rest (Allowed-ne-nil kind value allowed) (sym same ∙ e)

-- What the other segments cover, whatever the first segment is.
rest_covered :
    (kind : SegmentType) (name : Bytes) (segments : List Segment) (uri : Bytes)
    (params result : Params)
    → Covers (record { kind = kind; value = name } ∷ segments) uri params result
    → (rest : Bytes) × (later : Params) × Covers segments rest later result
rest_covered literal name segments uri params result c = (c.0, params, c.2)
rest_covered _ name segments uri params result c = (c.1, assign name c.0 params, c.5)

-- A variable right behind a variable finds nothing left of the URI.
side_by_side :
    (a b : SegmentType) (n m : Bytes) (segments : List Segment) (uri : Bytes)
    (params result : Params)
    → a ≢ literal
    → b ≢ literal
    → ¬ Covers
        (record { kind = a; value = n } ∷ record { kind = b; value = m } ∷ segments)
        uri
        params
        result
side_by_side literal b n m segments uri params result u v c = u refl
side_by_side var literal n m segments uri params result u v c = v refl
side_by_side reserved_var literal n m segments uri params result u v c = v refl
side_by_side a b n m segments uri params result u v (value, rest, same, ends, allowed, c) =
    variable-uri b m segments rest _ result v c ends

not-Covers :
    (segments : List Segment) (uri : Bytes) (params result : Params)
    → HasAdjacent segments
    → ¬ Covers segments uri params result
not-Covers [] uri params result a c = absurd a
not-Covers (s ∷ []) uri params result a c = absurd a
not-Covers (s ∷ t ∷ segments) uri params result (inl (u, v)) c =
    side_by_side s.kind t.kind s.value t.value segments uri params result u v c
not-Covers (s ∷ t ∷ segments) uri params result (inr a) c =
    let (rest, later, c') = rest_covered s.kind s.value (t ∷ segments) uri params result c in
    not-Covers (t ∷ segments) rest later result a c'

-- A compiled template in which two variables stand side by side matches no URI at all.
pub match_uri-adjacent :
    (t : UriTemplate) (uri : Bytes)
    → t.compiled.has_vars ≡ true
    → HasAdjacent t.compiled.segments
    → match_uri t uri ≡ none
unfolding match_uri
match_uri-adjacent t uri v a = elim (Option-cases (match_segments t.compiled.segments uri [])) [
  | inl e ↦ rw v e
  | inr (result, e) ↦ absurd (
      not-Covers t.compiled.segments uri [] result a
        ((match_segments_iff t.compiled.segments uri [] result).0 e))
]
