-- ===== src/Mcp/Json/Sample.antt =====
-- A small JSON library that meets the laws of `Json`, for runs at concrete values. What `parse` does
-- with a text is an argument.
use Prim.Native.String.{String}
use package.text.Mathlib.Text.{◌==◌}
use package.text.Mathlib.TextEquality.{eq_iff}
use native.Mathlib.Bridge.{le_prop}
use mcp_server_cpp.Prelude.{
  ◌^◌, dec_lt, ◌≡◌, ◌≢◌, ◌↔◌, refl, ap, map, Bool, true, false, Option, none, some, List, [], ◌∷◌,
  if◌then◌else◌, arith,
}
use mcp_server_cpp.Mcp.Json.{
  Json, ℤ, Kind, null, object, array, string, boolean, number_integer, is_object, is_string,
  is_number_integer, is_boolean, can_hold, Int64, FitsInt64, pos, negsuc,
}

mutual
  pub data Value : Type 0 where
    nothing : Value
    arr : Items → Value
    flag : Bool → Value
    num : ℤ → Value
    text : String → Value
    obj : Fields → Value

  pub data Items : Type 0 where
    no_items : Items
    item : Value → Items → Items

  pub data Fields : Type 0 where
    end : Fields
    field : String → Value → Fields → Fields

-- The first field of a key counts.
abbrev pub lookup : Fields → String → Option Value
lookup end k = none
lookup (field j v fs) k = if j == k then some v else lookup fs k

abbrev pub kind : Value → Kind
kind nothing = null
kind (arr vs) = array
kind (flag b) = boolean
kind (num n) = number_integer
kind (text s) = string
kind (obj fs) = object

abbrev pub member : Value → String → Option Value
member (obj fs) k = lookup fs k
member _ k = none

abbrev pub get_string : Value → Option String
get_string (text s) = some s
get_string _ = none

abbrev pub get_int : Value → Option ℤ
get_int (num n) = some n
get_int _ = none

-- The value if it fits.
abbrev clip_if : (n : ℤ) → Dec (FitsInt64 n) → Int64
clip_if n (yes h) = (n, h)
clip_if n (no h) = (pos 0, omega arith)

abbrev fits : (n : ℤ) → Dec (FitsInt64 n)
fits (pos n) = dec_lt n (2 ^ 63)
fits (negsuc n) = dec_lt n (2 ^ 63)

abbrev pub get_int64 : Value → Option Int64
get_int64 (num n) = some (clip_if n (fits n))
get_int64 _ = none

FitsInt64-IsProp : (n : ℤ) → IsProp (FitsInt64 n)
FitsInt64-IsProp (pos n) = le_prop
FitsInt64-IsProp (negsuc n) = le_prop

clip_if_lem : (n : ℤ) (d : Dec (FitsInt64 n)) (h : FitsInt64 n) → clip_if n d ≡ (n, h)
clip_if_lem n (yes g) h = ap (λ p. (n, p)) (FitsInt64-IsProp n g h)
clip_if_lem n (no g) h = absurd (g h)

pub get_int64-of_int : (n : Int64) → get_int64 (num n.0) ≡ some n
get_int64-of_int (n, h) = ap some (clip_if_lem n (fits n) h)

abbrev pub get_bool : Value → Option Bool
get_bool (flag b) = some b
get_bool _ = none

abbrev items : Items → List Value
items no_items = []
items (item v vs) = v ∷ items vs

abbrev pub elements : Value → List Value
elements (arr vs) = items vs
elements _ = []

abbrev pub an_array : Value
an_array = arr no_items

abbrev of_texts : List String → Items
of_texts [] = no_items
of_texts (s ∷ ss) = item (text s) (of_texts ss)

abbrev of_items : List Value → Items
of_items [] = no_items
of_items (v ∷ vs) = item v (of_items vs)

pub items-of_items : (vs : List Value) → items (of_items vs) ≡ vs
items-of_items [] = refl
items-of_items (v ∷ vs) = ap (λ us. v ∷ us) (items-of_items vs)

pub items-of_texts : (ss : List String) → items (of_texts ss) ≡ map text ss
items-of_texts [] = refl
items-of_texts (s ∷ ss) = ap (λ vs. text s ∷ vs) (items-of_texts ss)

abbrev pub equals_text : Value → String → Bool
equals_text (text t) s = t == s
equals_text _ s = false

abbrev pub is_empty : Value → Bool
is_empty nothing = true
is_empty (arr no_items) = true
is_empty (obj end) = true
is_empty _ = false

abbrev pub set : Value → String → Value → Value
set (obj fs) k x = obj (field k x fs)
set _ k x = obj (field k x end)

pub get_string-none : (v : Value) → (get_string v ≡ none) ↔ (is_string (kind v) ≡ false)
get_string-none (text s) = (λ e. cc, λ e. cc)
get_string-none _ = (λ e. refl, λ e. refl)

pub get_bool-none : (v : Value) → (get_bool v ≡ none) ↔ (is_boolean (kind v) ≡ false)
get_bool-none (flag b) = (λ e. cc, λ e. cc)
get_bool-none _ = (λ e. refl, λ e. refl)

pub get_int-integer : (v : Value) → is_number_integer (kind v) ≡ true → get_int64 v ≢ none
get_int-integer (num n) h e = cc
get_int-integer _ h e = cc

pub equals_text_iff : (v : Value) (s : String) → (equals_text v s ≡ true) ↔ (get_string v ≡ some s)
equals_text_iff (text t) s = ground (arith, eq_iff t s)
equals_text_iff _ s = (λ e. cc, λ e. cc)

pub member-none : (v : Value) (k : String) → is_object (kind v) ≡ false → member v k ≡ none
member-none (obj fs) k h = cc
member-none _ k h = refl

pub set-object : (v : Value) (k : String) (x : Value) → kind (set v k x) ≡ object
set-object (obj fs) k x = refl
set-object _ k x = refl

pub set-member :
    (v : Value) (k : String) (x : Value) (j : String)
    → can_hold (kind v) ≡ true
    → member (set v k x) j ≡ (if k == j then some x else member v j)
set-member (obj fs) k x j h = refl
set-member nothing k x j h = refl
set-member _ k x j h = cc

abbrev pub sample : (String → Option Value) → Json
sample parse = record {
  Value = Value;
  kind = kind;
  member = member;
  get_string = get_string;
  get_int64 = get_int64;
  get_int = get_int;
  get_bool = get_bool;
  elements = elements;
  equals_text = equals_text;
  is_empty = is_empty;
  null_value = nothing;
  empty_object = obj end;
  of_string = text;
  of_int = num;
  of_bool = flag;
  of_texts = λ ss. arr (of_texts ss);
  of_items = λ vs. arr (of_items vs);
  set = set;
  parse = parse;
  out_of_range = λ text. text == "1e999";
  dump = λ v. "";
  kind-null = refl;
  kind-empty_object = refl;
  member-empty_object = λ k. refl;
  kind-of_texts = λ ss. refl;
  kind-of_items = λ vs. refl;
  elements-of_items = items-of_items;
  elements-of_texts = items-of_texts;
  get_bool-of_bool = λ b. refl;
  kind-of_string = λ s. refl;
  kind-of_int = λ n. refl;
  get_string-of_string = λ s. refl;
  get_int64-of_int = get_int64-of_int;
  get_int-of_int = λ n h. refl;
  get_string-none_iff = get_string-none;
  get_bool-none_iff = get_bool-none;
  get_int64_integer = get_int-integer;
  equals_text_iff = equals_text_iff;
  member-other = member-none;
  kind-set = λ v k x h. set-object v k x;
  member-set = set-member;
}
