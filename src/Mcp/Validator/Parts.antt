-- ===== src/Mcp/Validator/Parts.antt =====
-- src/mcp/json_rpc/InputValidator.h: when the checks of texts, types and parts add no error.
use Prim.Native.String.{String}
use mathlib.Core.List.{Memᴰ}
use mathlib.Core.Path.{subst}
use mcp_server_cpp.Prelude.{
  ℕ, suc, ◌≡◌, ◌↔◌, refl, sym, ap, ◌∙◌, inl, inr, Bool-cases, Option-cases, Bool, true, false, some,
  List, [], ◌∷◌, concat, if◌then◌else◌, arith,
}
use mcp_server_cpp.Mcp.Json.{Json, is_array, is_string, Result, ok, thrown, ◌>>=◌}
use mcp_server_cpp.Mcp.Validator.{
  Schemas, an_error, unless_wrong, type_ok, type_errors, below, pattern_errors, text_errors,
}
use mcp_server_cpp.Mcp.Validator.Walk.{properties_errors, items_errors}
use mcp_server_cpp.Mcp.Validator.Conforms.{Admits, IsLong, IsShort, Fits, MeetsText}
use mcp_server_cpp.Mcp.Validator.Checks.{
  Clean, also_iff, given_iff, bind_iff, when_iff, any_type_iff, min_length_errors_iff,
  max_length_errors_iff,
}

module _ (lib : Json) (ops : Schemas lib) where
  open lib use {Value, kind, member, elements, get_string, is_empty}
  open ops use {items, iterate, matches, depth}

  skipped :
      (fits : Bool) (text path : String) (pattern : Value) (p : String)
      → get_string pattern ≡ some p
      → matches p text ≡ some fits
      → Clean (pattern_errors lib ops text path pattern)
      → Clean (if fits then ok [] else an_error lib ops path "string does not match pattern")
  unfolding pattern_errors
  skipped fits text path pattern p g m e = ground arith

  pattern_errors_iff :
      (text path : String) (pattern : Value)
      → Clean (pattern_errors lib ops text path pattern) ↔ Fits lib ops text pattern
  unfolding pattern_errors
  pattern_errors_iff text path pattern = elim (Option-cases (get_string pattern)) [
    | inl n ↦ (λ e p fits g m. absurd (cc (g, n)), λ h. rw (pattern_errors, n) refl)
    | inr (p, g) ↦ elim (Option-cases (matches p text)) [
      | inl n ↦
          (λ e q fits h m. absurd (ground (arith, g, h, n, m)), λ h. rw (pattern_errors, g, n) refl)
      | inr (fits, m) ↦ (
        λ e q f h k.
            ground
              (arith, g, h, m, k, (when_iff fits _).0 (skipped fits text path pattern p g m e)),
        λ h. rw (pattern_errors, g, m) ((when_iff fits _).1 (h p fits g m)),
      )
    ]
  ]

  type_ok_iff :
      (value type : Value) → (type_ok lib ops type value ≡ ok true) ↔ Admits lib ops value type
  unfolding type_ok
  type_ok_iff value type =
      let (there, back) = any_type_iff lib ops (elements type) value in
      (
        λ e. elim (Bool-cases (is_string (kind type))) [
          | inl y ↦ elim (Option-cases (get_string type)) [
            | inl n ↦ absurd (ground arith)
            | inr (s, g) ↦ inl (y, (s, g, ground arith))
          ]
          | inr n ↦ elim (Bool-cases (is_array (kind type))) [
            | inl y ↦ inr (n, y, there (ground arith))
            | inr k ↦ absurd (ground arith)
          ]
        ],
        λ a. elim a [
          | inl (y, (s, g, c)) ↦ ground arith
          | inr (n, y, any) ↦ ground (arith, back any)
        ],
      )

  decided_iff :
      (x : Result Bool) (e : Value)
      → Clean (x >>= λ fits. if fits then ok [] else ok (e ∷ [])) ↔ (x ≡ ok true)
  decided_iff thrown e = (λ h. cc, λ h. cc)
  decided_iff (ok true) e = (λ h. refl, λ h. refl)
  decided_iff (ok false) e = (λ h. cc, λ h. cc)

  pub type_errors_iff :
      (value : Value) (path : String) (type : Value)
      → Clean (type_errors lib ops value path type) ↔ Admits lib ops value type
  unfolding type_errors
  type_errors_iff value path type =
      let (there, back) = type_ok_iff value type in
      let (clean, made) = decided_iff (type_ok lib ops type value) _ in
      (λ e. there (clean e), λ a. made (back a))

  pub text_errors_iff :
      (schema value : Value) (path : String)
      → Clean (text_errors lib ops schema value path) ↔ MeetsText lib ops schema value
  unfolding text_errors
  text_errors_iff schema value path = (
    λ e.
        let (text, g, f) = (bind_iff (get_string value) _).0 e in
        let (a, f') = (also_iff _ _).0 f in
        let (b, c) = (also_iff _ _).0 f' in
        (
          text,
          g,
          (given_iff (IsLong lib ops text) _ _ (min_length_errors_iff lib ops text path)).0 a,
          (given_iff (IsShort lib ops text) _ _ (max_length_errors_iff lib ops text path)).0 b,
          (given_iff (Fits lib ops text) _ _ (pattern_errors_iff text path)).0 c,
        ),
    λ (text, g, a, b, c). (bind_iff (get_string value) _).1 (
      text,
      g,
      (also_iff _ _).1 (
        (given_iff (IsLong lib ops text) _ _ (min_length_errors_iff lib ops text path)).1 a,
        (also_iff _ _).1 (
          (given_iff (IsShort lib ops text) _ _ (max_length_errors_iff lib ops text path)).1 b,
          (given_iff (Fits lib ops text) _ _ (pattern_errors_iff text path)).1 c,
        ),
      ),
    ),
  )

  pub unless_wrong_iff :
      (x y : Result (List Value)) → Clean (unless_wrong x y) ↔ (Clean x × Clean y)
  unless_wrong_iff thrown y = (λ e. cc, λ (e, f). cc)
  unless_wrong_iff (ok []) y = (λ e. (refl, e), λ (e, f). f)
  unless_wrong_iff (ok (a ∷ es)) y = (λ e. cc, λ (e, f). cc)

  module _ (node : Value → Value → String → Result (List Value)) where
    -- What the loop over the properties checks.
    pub properties_errors_iff :
        (value : Value) (path : String) (props : List (String × Value))
        → Clean (properties_errors lib ops node value path props) ↔ (
            (key : String) (sub : Value)
            → Memᴰ (key, sub) props
            → (v : Value) → member value key ≡ some v
            → Clean (node sub v (below lib ops path key)))
    unfolding properties_errors
    properties_errors_iff value path [] = (λ e k s m. elim m [ ], λ h. refl)
    properties_errors_iff value path ((key, sub) ∷ props) =
        let (there, back) = properties_errors_iff value path props in
        (
          λ e k s m v h.
              let (f, g) = (also_iff _ _).0 e in
              elim m [
                | Memᴰ.head p ↦
                    let same_key : k ≡ key = ap (λ z. z.0) p in
                    subst (λ z. Clean (node z.1 v (below lib ops path z.0))) (sym p)
                      ((given_iff (λ v. Clean (node sub v (below lib ops path key))) _ _
                          (λ v. (λ z. z, λ z. z))).0
                        f v (ap (member value) (sym same_key) ∙ h))
                | Memᴰ.tail m' ↦ there g k s m' v h
              ],
          λ h. (also_iff _ _).1 (
            (given_iff (λ v. Clean (node sub v (below lib ops path key))) _ _
                  (λ v. (λ z. z, λ z. z))).1
                (h key sub (Memᴰ.head refl)),
            back (λ k s m. h k s (Memᴰ.tail m)),
          ),
        )

    pub items_errors-Clean :
        (sub : Value) (path : String) (i : ℕ) (vs : List Value)
        → Clean (items_errors lib ops node sub path i vs)
        → (v : Value) → Memᴰ v vs
        → (p : String) × Clean (node sub v p)
    unfolding items_errors
    items_errors-Clean sub path i [] e v m = elim m [ ]
    items_errors-Clean sub path i (a ∷ vs) e v m =
        let (f, g) = (also_iff _ _).0 e in
        elim m [
          | Memᴰ.head p ↦
              let there = concat path (concat "[" (concat (ops.to_string i) "]")) in
              (there, subst (λ z. Clean (node sub z there)) (sym p) f)
          | Memᴰ.tail m' ↦ items_errors-Clean sub path (suc i) vs g v m'
        ]

    pub Clean-items_errors :
        (sub : Value) (path : String) (i : ℕ) (vs : List Value)
        → ((v : Value) (p : String) → Memᴰ v vs → Clean (node sub v p))
        → Clean (items_errors lib ops node sub path i vs)
    unfolding items_errors
    Clean-items_errors sub path i [] h = refl
    Clean-items_errors sub path i (a ∷ vs) h = (also_iff _ _).1 (
      h a _ (Memᴰ.head refl),
      Clean-items_errors sub path (suc i) vs (λ v p m. h v p (Memᴰ.tail m)),
    )
