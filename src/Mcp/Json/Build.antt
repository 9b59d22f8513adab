-- ===== src/Mcp/Json/Build.antt =====
-- Objects that src/mcp builds by a sequence of assignments `j[key] = item`.
use Prim.Native.String.{String}
use text.Mathlib.Text.{◌==◌}
use mcp_server_cpp.Prelude.{
  ◌≡◌, refl, ap, ◌∙◌, true, Option, none, some, List, [], ◌∷◌, if◌then◌else◌,
}
use mcp_server_cpp.Mcp.Json.{Json, object, can_hold, is_object}

abbrev pub Field : Json → Type 0
Field lib = String × lib.Value

-- A field that is set only if there is a value for it.
abbrev pub optional : {V : Type 0} → String → Option V → List (String × V)
optional k none = []
optional k (some x) = (k, x) ∷ []

-- What the assignments give for a key, over what was there before.
abbrev pub last_of : {V : Type 0} → List (String × V) → String → Option V → Option V
last_of [] k before = before
last_of ((j, x) ∷ fields) k before = last_of fields k (if j == k then some x else before)

module _ (lib : Json) where
  open lib use {Value, kind, member, set, null_value, kind-null, kind-set, member-set}

  unfoldable pub assign_all : Value → List (String × Value) → Value
  assign_all v [] = v
  assign_all v ((k, x) ∷ fields) = assign_all (set v k x) fields

  -- `json j; j[key] = item; ...`
  unfoldable pub build : List (String × Value) → Value
  unfolding assign_all
  build fields = assign_all null_value fields

  pub kind-assign_all :
      (v : Value) (fields : List (String × Value))
      → kind v ≡ object
      → kind (assign_all v fields) ≡ object
  unfolding assign_all
  kind-assign_all v [] h = h
  kind-assign_all v ((k, x) ∷ fields) h =
      kind-assign_all (set v k x) fields (kind-set v k x (ap can_hold h))

  pub member-assign_all :
      (v : Value) (fields : List (String × Value)) (k : String)
      → can_hold (kind v) ≡ true
      → member (assign_all v fields) k ≡ last_of fields k (member v k)
  unfolding assign_all
  member-assign_all v [] k h = refl
  member-assign_all v ((j, x) ∷ fields) k h =
      member-assign_all (set v j x) fields k (ap can_hold (kind-set v j x h))
      ∙ ap (last_of fields k) (member-set v j x k h)

  pub kind-build :
      (k : String) (x : Value) (fields : List (String × Value))
      → kind (build ((k, x) ∷ fields)) ≡ object
  unfolding build
  kind-build k x fields =
      kind-assign_all (set null_value k x) fields (kind-set null_value k x (ap can_hold kind-null))

  -- An object that is built has the last value assigned to a key, and no other keys.
  pub member-build :
      (fields : List (String × Value)) (k : String)
      → member (build fields) k ≡ last_of fields k none
  unfolding build
  member-build fields k =
      member-assign_all null_value fields k (ap can_hold kind-null)
      ∙ ap (last_of fields k) (lib.member-other null_value k (ap is_object kind-null))
