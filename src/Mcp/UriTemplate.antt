-- ===== src/Mcp/UriTemplate.antt =====
-- src/mcp/server/UriTemplate.h and UriTemplate.cc: URI templates with `{var}` and `{+var}`.
-- Texts are lists of bytes, and the part of a text from a position on is that part itself. The map
-- of variables is an association list without repeated keys.
pub mod Parse
pub mod Print
pub mod Value
pub mod Match
pub mod Adjacent
mod Tests
use mcp_server_cpp.Prelude.{
  ℕ, zero, suc, ◌+◌, List, [], ◌∷◌, ◌++◌, Option, none, some, Bool, true, false, ◌||◌, ◌&&◌, Bytes,
  length, ◌==◌, cut, has_byte, is_empty, bytes_eq, strip_prefix, if◌then◌else◌,
}

-- `Segment::Type`
pub data SegmentType : Type 0 where
  literal var reserved_var : SegmentType

pub record Segment : Type 0 where
  pub kind : SegmentType
  pub value : Bytes

-- The texts with which the constructor throws `std::invalid_argument`.
pub data Invalid : Type 0 where
  unclosed empty_expression empty_name multi_variable : Invalid
  unsupported : ℕ → Invalid

pub data Parsed {ℓ} (A : Type ℓ) : Type ℓ where
  parsed : A → Parsed A
  invalid : Invalid → Parsed A

-- `segments_` and `has_vars_`
pub record Compiled : Type 0 where
  pub segments : List Segment
  pub has_vars : Bool

pub record UriTemplate : Type 0 where
  pub original : Bytes
  pub compiled : Compiled

abbrev is_unsupported : ℕ → Bool
is_unsupported c = c == b'?' || c == b'#' || c == b'/' || c == b'.' || c == b';' || c == b'&'

-- The checks on the name of a variable.
checked : SegmentType → Bytes → Parsed Segment
checked kind name =
    if is_empty name
    then invalid empty_name
    else if has_byte b',' name
    then invalid multi_variable
    else parsed (record { kind = kind; value = name })

-- The expression between the braces.
unfoldable pub expression : Bytes → Parsed Segment
unfolding checked
expression [] = invalid empty_expression
expression (c ∷ name) =
    if c == b'+'
    then checked reserved_var name
    else if is_unsupported c
    then invalid (unsupported c)
    else checked var (c ∷ name)

-- `if (!literal.empty()) segments_.push_back(literal)`
unfoldable pub flush : List Segment → Bytes → List Segment
flush segments [] = segments
flush segments (c ∷ text) = segments ++ record { kind = literal; value = c ∷ text } ∷ []

-- The loop of `parse` over the unread text, one round for each unit of fuel; `none` is a loop that
-- ran out of fuel.
unfoldable pub scan : ℕ → Bytes → Bytes → Compiled → Option (Parsed Compiled)
scan zero rest text done = none
scan (suc fuel) [] text done = some (parsed (record done { segments = flush done.segments text }))
scan (suc fuel) (c ∷ rest) text done = elim (c == b'{') [
  | false ↦ scan fuel rest (text ++ c ∷ []) done
  | true ↦ elim (cut b'}' rest) [
    | none ↦ some (invalid unclosed)
    | some (expr, behind) ↦ elim (expression expr) [
      | invalid e ↦ some (invalid e)
      | parsed segment ↦
          scan fuel behind []
            (record { segments = flush done.segments text ++ segment ∷ []; has_vars = true })
    ]
  ]
]

abbrev pub nothing_yet : Compiled
nothing_yet = record { segments = []; has_vars = false }

unfoldable pub parse : Bytes → Option (Parsed Compiled)
parse tmpl = scan (suc (length tmpl)) tmpl [] nothing_yet

abbrev pub Params : Type 0
Params = List (Bytes × Bytes)

-- `params[name] = value`
unfoldable pub assign : Bytes → Bytes → Params → Params
assign name value [] = (name, value) ∷ []
assign name value ((k, v) ∷ params) =
    if bytes_eq k name then (k, value) ∷ params else (k, v) ∷ assign name value params

-- `uri.find(next_literal, pos)`: the text up to the first occurrence, and the text from it on.
unfoldable pub find : Bytes → Bytes → Option (Bytes × Bytes)
find needle [] = if is_empty needle then some ([], []) else none
find needle (c ∷ s) = elim (strip_prefix needle (c ∷ s)) [
  | some behind ↦ some ([], c ∷ s)
  | none ↦ elim (find needle s) [ none ↦ none | some (before, from) ↦ some (c ∷ before, from) ]
]

abbrev pub next_literal : List Segment → Option Bytes
next_literal [] = none
next_literal (s ∷ segments) = elim s.kind [ literal ↦ some s.value | _ ↦ none ]

-- The value of a variable, and the URI from its end on.
unfoldable pub bound : Option Bytes → Bytes → Option (Bytes × Bytes)
bound (some text) uri = find text uri
bound none uri = some (uri, [])

abbrev pub crosses : SegmentType → Bytes → Bool
crosses var value = has_byte b'/' value
crosses _ value = false

-- The value that a variable takes here, with the rest of the loop as `continue`.
unfoldable pub read_value :
    SegmentType → Option Bytes → Bytes → (Bytes → Bytes → Option Params) → Option Params
read_value kind next uri continue = elim (bound next uri) [
  | none ↦ none
  | some (value, rest) ↦ elim (is_empty value || crosses kind value) [
    | true ↦ none
    | false ↦ continue value rest
  ]
]

-- The loop of `match` over the segments and the URI from `pos` on.
unfoldable pub match_segments : List Segment → Bytes → Params → Option Params
match_segments [] uri params = if is_empty uri then some params else none
match_segments (s ∷ segments) uri params = elim s.kind [
  | literal ↦ elim (strip_prefix s.value uri) [
    | none ↦ none
    | some rest ↦ match_segments segments rest params
  ]
  | kind ↦
      read_value kind (next_literal segments) uri
        λ value rest. match_segments segments rest (assign s.value value params)
]

unfoldable pub match_uri : UriTemplate → Bytes → Option Params
match_uri t uri =
    if t.compiled.has_vars
    then match_segments t.compiled.segments uri []
    else if bytes_eq uri t.original
    then some []
    else none
