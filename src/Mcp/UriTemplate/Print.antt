-- ===== src/Mcp/UriTemplate/Print.antt =====
-- src/mcp/server/UriTemplate.cc, `parse`: the segments are the template, cut at its variables.
use mcp_server_cpp.Prelude.{
  ℕ, zero, suc, ◌≡◌, refl, sym, ap, ap₂, ◌∙◌, List, [], ◌∷◌, ◌++◌, append_assoc, append-nil, some,
  Bytes, length, cut-some, arith, inl, inr,
}
use mcp_server_cpp.Mcp.UriTemplate.{
  literal, var, reserved_var, Segment, parsed, Compiled, expression, flush, scan, parse,
  nothing_yet,
}
use mcp_server_cpp.Mcp.UriTemplate.Parse.{scan_round, with_variable}

-- A segment as it is written in a template.
unfoldable pub print_segment : Segment → Bytes
print_segment s = elim s.kind [
  | literal ↦ s.value
  | var ↦ b'{' ∷ (s.value ++ b'}' ∷ [])
  | reserved_var ↦ b'{' ∷ b'+' ∷ (s.value ++ b'}' ∷ [])
]

unfoldable pub print : List Segment → Bytes
print [] = []
print (s ∷ segments) = print_segment s ++ print segments

print-append : (xs ys : List Segment) → print (xs ++ ys) ≡ print xs ++ print ys
unfolding print
print-append [] ys = refl
print-append (s ∷ xs) ys =
    ap (λ l. print_segment s ++ l) (print-append xs ys)
    ∙ sym (append_assoc (print_segment s) (print xs) (print ys))

print-flush : (xs : List Segment) (text : Bytes) → print (flush xs text) ≡ print xs ++ text
unfolding flush
print-flush xs [] = sym (append-nil (print xs))
print-flush xs (c ∷ text) =
    print-append xs (record { kind = literal; value = c ∷ text } ∷ [])
    ∙ ap (λ l. print xs ++ l) (unfold print print_segment in append-nil (c ∷ text))

print-expression :
    (expr : Bytes) (s : Segment)
    → expression expr ≡ parsed s
    → print_segment s ≡ b'{' ∷ (expr ++ b'}' ∷ [])
unfolding expression print_segment
print-expression [] s e = cc
print-expression (c ∷ name) s e = ground arith

print-one : (s : Segment) → print (s ∷ []) ≡ print_segment s
unfolding print
print-one s = append-nil (print_segment s)

print-variable :
    (xs : List Segment) (text expr : Bytes) (s : Segment)
    → expression expr ≡ parsed s
    → print (flush xs text ++ s ∷ []) ≡ (print xs ++ text) ++ b'{' ∷ (expr ++ b'}' ∷ [])
print-variable xs text expr s g =
    print-append (flush xs text) (s ∷ [])
    ∙ ap₂ ◌++◌ (print-flush xs text) (print-one s ∙ print-expression expr s g)

print-scan :
    (fuel : ℕ) (rest text : Bytes) (done d : Compiled)
    → scan fuel rest text done ≡ some (parsed d)
    → print d.segments ≡ print done.segments ++ (text ++ rest)
unfolding scan
print-scan zero rest text done d h = cc
print-scan (suc fuel) [] text done d h =
    let e : flush done.segments text ≡ d.segments = ground arith in
    ap print (sym e)
    ∙ print-flush done.segments text
    ∙ ap (λ l. print done.segments ++ l) (sym (append-nil text))
print-scan (suc fuel) (c ∷ rest) text done d h = elim (scan_round fuel c rest text done d h) [
  | inl (ne, k) ↦
      print-scan fuel rest (text ++ c ∷ []) done d k
      ∙ ap (λ l. print done.segments ++ l) (append_assoc text (c ∷ []) rest)
  | inr (eq, (expr, behind, s, f, g, k)) ↦
      print-scan fuel behind [] (with_variable done text s) d k
      ∙ ap (λ l. l ++ behind) (print-variable done.segments text expr s g)
      ∙ simp append_assoc (
          ap (λ l. print done.segments ++ (text ++ l))
            (ap₂ ◌∷◌ (sym eq) (sym (cut-some b'}' rest expr behind f).0)))
]

-- The segments of a template that is accepted print as the template itself: no byte of it is lost,
-- and none is read twice.
pub print-parse :
    (tmpl : Bytes) (d : Compiled) → parse tmpl ≡ some (parsed d) → print d.segments ≡ tmpl
unfolding parse
print-parse tmpl d h = print-scan (suc (length tmpl)) tmpl [] nothing_yet d h ∙ unfold print in refl
