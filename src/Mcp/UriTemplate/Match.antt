-- ===== src/Mcp/UriTemplate/Match.antt =====
-- src/mcp/server/UriTemplate.cc, `match`: which URIs a template matches, and with which values.
use mcp_server_cpp.Prelude.{
  ◌≡◌, ◌≢◌, ◌↔◌, List, [], ◌∷◌, ◌++◌, Option, none, some, true, false, Bytes, strip_prefix,
  strip_prefix-some, strip_prefix-append, arith, Bool-cases, Option-cases, inl, inr, bytes_eq,
  bytes_eq_iff,
}
use mcp_server_cpp.Mcp.UriTemplate.{
  SegmentType, literal, Segment, Params, assign, next_literal, match_segments, match_uri,
  UriTemplate,
}
use mcp_server_cpp.Mcp.UriTemplate.Value.{Ends, Allowed, is_empty_iff, read_value_iff}

-- The segments cover the URI, and reading their values into `params` gives `result`.
abbrev pub Covers : List Segment → Bytes → Params → Params → Type 0
Covers [] uri params result = (uri ≡ []) × (params ≡ result)
Covers (s ∷ segments) uri params result = elim s.kind [
  | literal ↦ (rest : Bytes) × (uri ≡ s.value ++ rest) × Covers segments rest params result
  | kind ↦
      (value : Bytes) × (rest : Bytes) × (uri ≡ value ++ rest)
      × Ends (next_literal segments) value rest
      × Allowed kind value
      × Covers segments rest (assign s.value value params) result
]

literal_iff :
    (text uri : Bytes) (continue : Bytes → Option Params) (result : Params)
    → (elim (strip_prefix text uri) as (λ _. Option Params) [
      | none ↦ none
      | some rest ↦ continue rest
    ]
        ≡ some result)
      ↔ ((rest : Bytes) × (uri ≡ text ++ rest) × (continue rest ≡ some result))
literal_iff text uri continue result = (there, back)
  where
    there :
        elim (strip_prefix text uri) as (λ _. Option Params) [
          | none ↦ none
          | some rest ↦ continue rest
        ]
          ≡ some result
        → (rest : Bytes) × (uri ≡ text ++ rest) × (continue rest ≡ some result)
    there h = elim (Option-cases (strip_prefix text uri)) [
      | inl n ↦ absurd (ground arith)
      | inr (rest, f) ↦ (rest, strip_prefix-some text uri rest f, ground arith)
    ]

    back :
        (rest : Bytes) × (uri ≡ text ++ rest) × (continue rest ≡ some result)
        → elim (strip_prefix text uri) as (λ _. Option Params) [
          | none ↦ none
          | some rest ↦ continue rest
        ]
          ≡ some result
    back (rest, same, h) = rw (same, strip_prefix-append text rest) h

-- One segment, with the claim about the other segments given.
segment_iff :
    (kind : SegmentType) (name : Bytes) (segments : List Segment) (uri : Bytes)
    (params result : Params)
    → ((rest : Bytes) (later : Params)
        → (match_segments segments rest later ≡ some result) ↔ Covers segments rest later result)
    → (match_segments (record { kind = kind; value = name } ∷ segments) uri params ≡ some result)
      ↔ Covers (record { kind = kind; value = name } ∷ segments) uri params result
unfolding match_segments
segment_iff literal name segments uri params result ih =
    let e = literal_iff name uri (λ rest. match_segments segments rest params) result in
    (
      λ h. let (rest, same, k) = e.0 h in (rest, same, (ih rest params).0 k),
      λ (rest, same, k). e.1 (rest, same, (ih rest params).1 k),
    )
segment_iff kind name segments uri params result ih =
    let e =
      read_value_iff kind (next_literal segments) uri
        (λ value rest. match_segments segments rest (assign name value params)) result in
    (
      λ h.
          let (value, rest, same, ends, allowed, k) = e.0 h in
          (value, rest, same, ends, allowed, (ih rest (assign name value params)).0 k),
      λ (value, rest, same, ends, allowed, k).
          e.1 (value, rest, same, ends, allowed, (ih rest (assign name value params)).1 k),
    )

pub match_segments_iff :
    (segments : List Segment) (uri : Bytes) (params result : Params)
    → (match_segments segments uri params ≡ some result) ↔ Covers segments uri params result
match_segments_iff [] uri params result =
    unfold match_segments in (λ h. ground (arith, is_empty_iff uri), λ (e, f). rw (e, f))
match_segments_iff (s ∷ segments) uri params result =
    segment_iff s.kind s.value segments uri params result
      (λ rest later. match_segments_iff segments rest later result)

-- A template with variables matches a URI, with the result `result`, exactly when its segments
-- cover the whole URI: each literal stands where it must, and each variable takes a value that is
-- not empty, that holds no `/` unless the variable is reserved, and that ends at the first
-- occurrence of the literal behind the variable, or at the end of the URI where no literal follows.
pub match_uri_iff :
    (t : UriTemplate) (uri : Bytes) (result : Params)
    → t.compiled.has_vars ≡ true
    → (match_uri t uri ≡ some result) ↔ Covers t.compiled.segments uri [] result
unfolding match_uri
match_uri_iff t uri result v = rw v (match_segments_iff t.compiled.segments uri [] result)

-- A template without variables matches just its own text.
pub match_uri-plain :
    (t : UriTemplate) (uri : Bytes)
    → t.compiled.has_vars ≡ false
    → ((match_uri t uri ≡ some []) ↔ (uri ≡ t.original))
      × ((match_uri t uri ≡ none) ↔ (uri ≢ t.original))
unfolding match_uri
match_uri-plain t uri v = elim (Bool-cases (bytes_eq uri t.original)) [
  | inl e ↦
      let same = (bytes_eq_iff uri t.original).0 e in
      ((λ h. same, λ h. ground arith), (λ h n. cc (h, e, v), λ n. absurd (n same)))
  | inr e ↦
      let differs : uri ≢ t.original = λ q. cc (e, (bytes_eq_iff uri t.original).1 q) in
      ((λ h. absurd (ground arith), λ q. absurd (differs q)), (λ h. differs, λ n. ground arith))
]
