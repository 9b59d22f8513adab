-- ===== src/Mcp/Validator/Checks.antt =====
-- src/mcp/json_rpc/InputValidator.h: when each check adds no error.
use Prim.Native.String.{String, len}
use mathlib.Core.List.{Memᴰ}
use mathlib.Core.Path.{subst}
use mcp_server_cpp.Prelude.{
  ◌≡◌, ◌↔◌, refl, sym, ap, ◌∙◌, inl, inr, Bool-cases, Option-cases, Bool, true, false, Option, none,
  some, List, [], ◌∷◌, if◌then◌else◌, arith,
}
use mcp_server_cpp.Mcp.Json.{Json, Result, ok, thrown, or_throw, ◌>>=◌, is_some}
use mcp_server_cpp.Mcp.Validator.{
  Schemas, check_type, less_int, more_int, also, given, only_if, any_type, required_errors,
  has_same, enum_errors, minimum_errors, maximum_errors, min_length_errors, max_length_errors,
}
use mcp_server_cpp.Mcp.Validator.Conforms.{
  AnyType, HasAll, IsOneOf, IsAtLeast, IsAtMost, IsLong, IsShort,
}

-- The check adds no error and does not throw.
abbrev pub Clean : {A : Type 0} → Result (List A) → Type 0
Clean r = r ≡ ok []

pub also_iff : {A : Type 0} (x y : Result (List A)) → Clean (also x y) ↔ (Clean x × Clean y)
also_iff thrown y = (λ e. cc, λ (e, f). cc)
also_iff (ok es) thrown = (λ e. cc, λ (e, f). cc)
also_iff (ok []) (ok fs) = (λ e. (refl, e), λ (e, f). f)
also_iff (ok (a ∷ es)) (ok fs) = (λ e. cc, λ (e, f). cc)

pub given_iff :
    {V A : Type 0} (P : V → Type 0) (o : Option V) (check : V → Result (List A))
    → ((v : V) → Clean (check v) ↔ P v)
    → Clean (given o check) ↔ ((v : V) → o ≡ some v → P v)
given_iff P none check each = (λ e v h. cc, λ h. refl)
given_iff P (some a) check each =
    (λ e v h. (each v).0 (subst (λ z. Clean (given z check)) h e), λ h. (each a).1 (h a refl))

pub only_if_iff :
    {A : Type 0} (b : Bool) (check : Result (List A))
    → Clean (only_if b check) ↔ (b ≡ true → Clean check)
only_if_iff true check = (λ e h. e, λ h. h refl)
only_if_iff false check = (λ e h. cc, λ h. refl)

pub bind_iff :
    {V A : Type 0} (o : Option V) (f : V → Result (List A))
    → Clean (or_throw o >>= f) ↔ ((v : V) × (o ≡ some v) × Clean (f v))
bind_iff none f = (λ e. cc, λ (v, h, e). cc)
bind_iff (some a) f =
    (λ e. (a, refl, e), λ (v, h, e). subst (λ z. Clean (or_throw z >>= f)) (sym h) e)

pub when_iff :
    {A : Type 0} (b : Bool) (a : A) → Clean (if b then ok [] else ok (a ∷ [])) ↔ (b ≡ true)
when_iff true a = (λ e. refl, λ e. refl)
when_iff false a = (λ e. cc, λ e. cc)

unless_iff :
    {A : Type 0} (b : Bool) (a : A) → Clean (if b then ok (a ∷ []) else ok []) ↔ (b ≡ false)
unless_iff false a = (λ e. refl, λ e. refl)
unless_iff true a = (λ e. cc, λ e. cc)

module _ (lib : Json) (ops : Schemas lib) where
  open lib use {Value, kind, member, elements, get_string, get_int64}
  open ops use {get_double, less, iterate, same, matches}

  pub any_type_iff :
      (ts : List Value) (value : Value)
      → (any_type lib ops ts value ≡ ok true) ↔ AnyType lib ops ts value
  unfolding any_type
  any_type_iff [] value = (λ e. cc, λ b. absurd b)
  any_type_iff (t ∷ ts) value =
      let (there, back) = any_type_iff ts value in
      elim (Option-cases (get_string t)) [
        | inl n ↦ rw n (λ e. cc, λ (s, f, g). cc)
        | inr (s, f) ↦ elim (Bool-cases (check_type s (kind value))) [
          | inl y ↦ rw (f, y) (λ e. (s, refl, inl y), λ g. refl)
          | inr n ↦
              rw (f, n)
                (
                  λ e. (s, refl, inr (there e)),
                  λ (s', g, fits). elim fits [ inl y ↦ absurd (cc (g, n, y)) | inr any ↦ back any ],
                )
        ]
      ]

  pub minimum_errors_iff :
      (value : Value) (path : String) (bound : Value)
      → Clean (minimum_errors lib ops value path bound) ↔ IsAtLeast lib ops value bound
  unfolding minimum_errors
  minimum_errors_iff value path bound = (
    λ e.
        let (x, p, f) = (bind_iff (get_double value) _).0 e in
        let (b, q, g) = (bind_iff (get_double bound) _).0 f in
        (x, b, p, q, (unless_iff (less x b) _).0 g),
    λ (x, b, p, q, g).
        (bind_iff (get_double value) _).1
          (x, p, (bind_iff (get_double bound) _).1 (b, q, (unless_iff (less x b) _).1 g)),
  )

  pub maximum_errors_iff :
      (value : Value) (path : String) (bound : Value)
      → Clean (maximum_errors lib ops value path bound) ↔ IsAtMost lib ops value bound
  unfolding maximum_errors
  maximum_errors_iff value path bound = (
    λ e.
        let (x, p, f) = (bind_iff (get_double value) _).0 e in
        let (b, q, g) = (bind_iff (get_double bound) _).0 f in
        (x, b, p, q, (unless_iff (less b x) _).0 g),
    λ (x, b, p, q, g).
        (bind_iff (get_double value) _).1
          (x, p, (bind_iff (get_double bound) _).1 (b, q, (unless_iff (less b x) _).1 g)),
  )

  pub min_length_errors_iff :
      (text path : String) (bound : Value)
      → Clean (min_length_errors lib ops text path bound) ↔ IsLong lib ops text bound
  unfolding min_length_errors
  min_length_errors_iff text path bound = (
    λ e.
        let (b, q, g) = (bind_iff (get_int64 bound) _).0 e in
        (b, q, (unless_iff (less_int (len text) b.0) _).0 g),
    λ (b, q, g).
        (bind_iff (get_int64 bound) _).1 (b, q, (unless_iff (less_int (len text) b.0) _).1 g),
  )

  pub max_length_errors_iff :
      (text path : String) (bound : Value)
      → Clean (max_length_errors lib ops text path bound) ↔ IsShort lib ops text bound
  unfolding max_length_errors
  max_length_errors_iff text path bound = (
    λ e.
        let (b, q, g) = (bind_iff (get_int64 bound) _).0 e in
        (b, q, (unless_iff (more_int (len text) b.0) _).0 g),
    λ (b, q, g).
        (bind_iff (get_int64 bound) _).1 (b, q, (unless_iff (more_int (len text) b.0) _).1 g),
  )

  pub required_errors_iff :
      (value : Value) (path : String) (rs : List Value)
      → Clean (required_errors lib ops value path rs) ↔ HasAll lib ops value rs
  unfolding required_errors
  required_errors_iff value path [] = (λ e r m. elim m [ ], λ h. refl)
  required_errors_iff value path (r ∷ rs) =
      let (there, back) = required_errors_iff value path rs in
      (
        λ e q m.
            let (f, g) = (also_iff _ _).0 e in
            let (key, s, k) = (bind_iff (get_string r) _).0 f in
            elim m [
              | Memᴰ.head p ↦
                  (key, ap get_string p ∙ s, (when_iff (is_some (member value key)) _).0 k)
              | Memᴰ.tail m' ↦ there g q m'
            ],
        λ h.
            let (key, s, k) = h r (Memᴰ.head refl) in
            (also_iff _ _).1 (
              (bind_iff (get_string r) _).1 (key, s, (when_iff (is_some (member value key)) _).1 k),
              back (λ q m. h q (Memᴰ.tail m)),
            ),
      )

  has_same_iff :
      (value : Value) (es : List Value)
      → (has_same lib ops value es ≡ true) ↔ ((x : Value) × Memᴰ x es × (same value x ≡ true))
  unfolding has_same
  has_same_iff value [] = (λ e. cc, λ (x, m, s). elim m [ ])
  has_same_iff value (a ∷ es) =
      let (there, back) = has_same_iff value es in
      elim (Bool-cases (same value a)) [
        | inl y ↦ rw y (λ e. (a, Memᴰ.head refl, y), λ h. refl)
        | inr n ↦ rw n (
          λ e. let (x, m, s) = there e in (x, Memᴰ.tail m, s),
          λ (x, m, s). elim m [
            | Memᴰ.head p ↦ absurd (ground (arith, ap (same value) p))
            | Memᴰ.tail m' ↦ back (x, m', s)
          ],
        )
      ]

  pub enum_errors_iff :
      (value : Value) (path : String) (e : Value)
      → Clean (enum_errors lib ops value path e) ↔ IsOneOf lib ops value e
  unfolding enum_errors
  enum_errors_iff value path e =
      let (there, back) = has_same_iff value (iterate e) in
      let (clean, made) = when_iff (has_same lib ops value (iterate e)) _ in
      (λ h. there (clean h), λ h. made (back h))
