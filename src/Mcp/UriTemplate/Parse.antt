-- ===== src/Mcp/UriTemplate/Parse.antt =====
-- src/mcp/server/UriTemplate.cc, `parse`: the rounds of its loop.
use mcp_server_cpp.Prelude.{
  ℕ, zero, suc, ◌<◌, ◌≡◌, ◌≢◌, refl, ap, [], ◌∷◌, ◌++◌, some, true, Bytes, length, length-append,
  ◌==◌, cut, cut-some, arith, Bool-cases, Option-cases, inl, inr, ◌⊎◌,
}
use mcp_server_cpp.Mcp.UriTemplate.{
  Segment, Invalid, Parsed, parsed, invalid, unclosed, Compiled, expression, flush, scan, parse,
  nothing_yet,
}

cut-shorter :
    (b : ℕ) (s before behind : Bytes) → cut b s ≡ some (before, behind) → length behind < length s
cut-shorter b s before behind e =
    omega (arith, ap length (cut-some b s before behind e).0, length-append before (b ∷ behind))

Parsed-cases {ℓ} :
    {A : Type ℓ} (p : Parsed A) → ((x : Invalid) × (p ≡ invalid x)) ⊎ ((a : A) × (p ≡ parsed a))
Parsed-cases (parsed a) = inr (a, refl)
Parsed-cases (invalid x) = inl (x, refl)

-- What the loop holds after the variable `s`.
abbrev pub with_variable : Compiled → Bytes → Segment → Compiled
with_variable done text s = record {
  segments = flush done.segments text ++ s ∷ [];
  has_vars = true;
}

scan_total :
    (fuel : ℕ) (rest text : Bytes) (done : Compiled)
    → length rest < fuel
    → (r : Parsed Compiled) × (scan fuel rest text done ≡ some r)
unfolding scan
scan_total zero rest text done h = elim h [ ]
scan_total (suc fuel) [] text done h = (_, refl)
scan_total (suc fuel) (c ∷ rest) text done h = elim (Bool-cases (c == b'{')) [
  | inr e ↦ rw (e, scan) (scan_total fuel rest (text ++ c ∷ []) done (omega arith))
  | inl e ↦ elim (Option-cases (cut b'}' rest)) [
    | inl n ↦ (invalid unclosed, rw (e, n, scan))
    | inr ((expr, behind), f) ↦ elim (Parsed-cases (expression expr)) [
      | inl (x, g) ↦ (invalid x, ground arith)
      | inr (s, g) ↦
          let (r, k) =
            scan_total fuel behind []
              (record { segments = flush done.segments text ++ s ∷ []; has_vars = true })
              (omega (arith, cut-shorter b'}' rest expr behind f)) in
          (r, ground (arith, k))
    ]
  ]
]

-- The loop of `parse` ends within as many rounds as the template has bytes, and one: every
-- template is compiled or refused.
pub parse_total : (tmpl : Bytes) → (r : Parsed Compiled) × (parse tmpl ≡ some r)
unfolding parse
parse_total tmpl = scan_total (suc (length tmpl)) tmpl [] nothing_yet (omega arith)

-- One round of a loop that accepts: a byte of literal text, or a variable.
pub scan_round :
    (fuel c : ℕ) (rest text : Bytes) (done d : Compiled)
    → scan (suc fuel) (c ∷ rest) text done ≡ some (parsed d)
    → ((c ≢ b'{') × (scan fuel rest (text ++ c ∷ []) done ≡ some (parsed d)))
      ⊎ ((c ≡ b'{')
          × ((expr : Bytes) × (behind : Bytes) × (s : Segment) × (cut b'}' rest
                ≡ some (expr, behind))
              × (expression expr ≡ parsed s)
              × (scan fuel behind [] (with_variable done text s) ≡ some (parsed d))))
unfolding scan
scan_round fuel c rest text done d h = elim (Bool-cases (c == b'{')) [
  | inr e ↦ inl (ground arith, ground arith)
  | inl e ↦ elim (Option-cases (cut b'}' rest)) [
    | inl n ↦ absurd (ground arith)
    | inr ((expr, behind), f) ↦ elim (Parsed-cases (expression expr)) [
      | inl (x, g) ↦ absurd (ground arith)
      | inr (s, g) ↦ inr (ground arith, (expr, behind, s, f, g, ground arith))
    ]
  ]
]
