-- ===== src/Mcp/UriTemplate/Value.antt =====
-- src/mcp/server/UriTemplate.cc, `match`: the value that a variable takes.
use mcp_server_cpp.Prelude.{
  ◌≡◌, ◌≢◌, ◌↔◌, refl, sym, ap, ◌∙◌, [], ◌∷◌, ◌++◌, append-nil, Option, none, some, true, false,
  ◌||◌, Bytes, has_byte_iff, Lacks, is_empty, strip_prefix, strip_prefix-some, strip_prefix-append,
  arith, Bool-cases, Option-cases, inl, inr,
}
use mcp_server_cpp.Mcp.UriTemplate.{SegmentType, var, Params, find, bound, crosses, read_value}
use mathlib.Core.Option.{some-injective}
use mathlib.Core.Path.{subst}

-- The text does not begin with `needle`, neither at its start nor at one of the bytes of `before`.
abbrev pub Absent : Bytes → Bytes → Bytes → Type 0
Absent needle [] from = Unit {0}
Absent needle (c ∷ before) from =
    (strip_prefix needle (c ∷ before ++ from) ≡ none) × Absent needle before from

-- Where the value of a variable ends: at the first occurrence of the literal behind the variable,
-- or, where none follows, at the end of the URI.
abbrev pub Ends : Option Bytes → Bytes → Bytes → Type 0
Ends none value from = from ≡ []
Ends (some text) value from = ((rest : Bytes) × (from ≡ text ++ rest)) × Absent text value from

-- The value of a variable is not empty, and that of a plain variable holds no `/`.
abbrev pub Allowed : SegmentType → Bytes → Type 0
Allowed var value = (value ≢ []) × Lacks b'/' value
Allowed _ value = value ≢ []

-- What `find` gives: the text again, whose second part begins with the needle, for the first time.
abbrev Found : Bytes → Bytes → Bytes × Bytes → Type 0
Found needle s p =
    (s ≡ p.0 ++ p.1) × ((rest : Bytes) × (p.1 ≡ needle ++ rest)) × Absent needle p.0 p.1

find-Found : (needle s : Bytes) (p : Bytes × Bytes) → find needle s ≡ some p → Found needle s p
unfolding find
find-Found [] [] p h = subst (Found [] []) (some-injective _ _ h) (refl, ([], refl), tt)
find-Found (b ∷ needle) [] p h = cc
find-Found needle (c ∷ s) p h = elim (Option-cases (strip_prefix needle (c ∷ s))) [
  | inr (rest, e) ↦
      let q : some ([], c ∷ s) ≡ some p = ground arith in
      subst (Found needle (c ∷ s)) (some-injective _ _ q)
        (refl, (rest, strip_prefix-some needle (c ∷ s) rest e), tt)
  | inl n ↦ elim (Option-cases (find needle s)) [
    | inl m ↦ absurd (ground arith)
    | inr ((x, y), f) ↦
        let q : some (c ∷ x, y) ≡ some p = ground arith in
        let (same, begins, absent) = find-Found needle s (x, y) f in
        subst (Found needle (c ∷ s)) (some-injective _ _ q) (
          ap (λ l. c ∷ l) same,
          begins,
          (ap (λ l. strip_prefix needle (c ∷ l)) (sym same) ∙ n, absent),
        )
  ]
]

-- The other way round: the first occurrence is what `find` finds.
find-first :
    (needle before from rest : Bytes)
    → from ≡ needle ++ rest
    → Absent needle before from
    → find needle (before ++ from) ≡ some (before, from)
unfolding find
find-first [] [] [] rest e a = refl
find-first (b ∷ needle) [] [] rest e a = cc
find-first needle [] (c ∷ from) rest e a =
    let found : strip_prefix needle (c ∷ from) ≡ some rest =
      ap (strip_prefix needle) e ∙ strip_prefix-append needle rest in
    ground arith
find-first needle (c ∷ before) from rest e a =
    ground (arith, find-first needle before from rest e a.1)

bound-Ends :
    (next : Option Bytes) (uri : Bytes) (p : Bytes × Bytes)
    → bound next uri ≡ some p
    → (uri ≡ p.0 ++ p.1) × Ends next p.0 p.1
unfolding bound
bound-Ends none uri p h =
    subst (λ (q : Bytes × Bytes). (uri ≡ q.0 ++ q.1) × Ends none q.0 q.1) (some-injective _ _ h)
      (sym (append-nil uri), refl)
bound-Ends (some text) uri p h =
    let (same, begins, absent) = find-Found text uri p h in (same, (begins, absent))

Ends-bound :
    (next : Option Bytes) (uri value from : Bytes)
    → uri ≡ value ++ from
    → Ends next value from
    → bound next uri ≡ some (value, from)
unfolding bound
Ends-bound none uri value from e h = ground (arith, append-nil value)
Ends-bound (some text) uri value from e ((rest, f), a) =
    ap (find text) e ∙ find-first text value from rest f a

Allowed-iff :
    (kind : SegmentType) (value : Bytes)
    → ((is_empty value || crosses kind value) ≡ false) ↔ Allowed kind value
Allowed-iff var [] = (λ h. cc, λ h. absurd (h.0 refl))
Allowed-iff _ [] = (λ h. cc, λ h. absurd (h refl))
Allowed-iff var (c ∷ value) = (
  λ h. (λ e. cc, (has_byte_iff b'/' (c ∷ value)).0 h),
  λ h. (has_byte_iff b'/' (c ∷ value)).1 h.1,
)
Allowed-iff _ (c ∷ value) = (λ h e. cc, λ h. refl)

pub is_empty_iff : (s : Bytes) → (is_empty s ≡ true) ↔ (s ≡ [])
is_empty_iff [] = (λ e. refl, λ e. refl)
is_empty_iff (c ∷ s) = (λ e. cc, λ e. cc)

pub read_value_iff :
    (kind : SegmentType) (next : Option Bytes) (uri : Bytes)
    (continue : Bytes → Bytes → Option Params) (result : Params)
    → (read_value kind next uri continue ≡ some result) ↔ (
        (value : Bytes) × (rest : Bytes) × (uri ≡ value ++ rest)
        × Ends next value rest
        × Allowed kind value
        × (continue value rest ≡ some result))
unfolding read_value
read_value_iff kind next uri continue result = (there, back)
  where
    there :
        read_value kind next uri continue ≡ some result
        → (value : Bytes) × (rest : Bytes) × (uri ≡ value ++ rest)
          × Ends next value rest
          × Allowed kind value
          × (continue value rest ≡ some result)
    there h = elim (Option-cases (bound next uri)) [
      | inl n ↦ absurd (ground arith)
      | inr ((value, rest), f) ↦ elim (Bool-cases (is_empty value || crosses kind value)) [
        | inl t ↦ absurd (ground arith)
        | inr t ↦
            let (same, ends) = bound-Ends next uri (value, rest) f in
            (value, rest, same, ends, (Allowed-iff kind value).0 t, ground arith)
      ]
    ]

    back :
        (value : Bytes) × (rest : Bytes) × (uri ≡ value ++ rest)
          × Ends next value rest
          × Allowed kind value
          × (continue value rest ≡ some result)
        → read_value kind next uri continue ≡ some result
    back (value, rest, same, ends, allowed, h) =
        rw (Ends-bound next uri value rest same ends, read_value)
          (rw ((Allowed-iff kind value).1 allowed) h)
