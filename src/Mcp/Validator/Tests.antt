-- ===== src/Mcp/Validator/Tests.antt =====
-- src/mcp/json_rpc/InputValidator.h: runs of the validator with the sample JSON library.
use Prim.Native.String.{String}
use mcp_server_cpp.Prelude.{ℕ, ◌≡◌, ◌↔◌, refl, inl, Option, none, [], arith}
use mcp_server_cpp.Mcp.Json.{Json, pos, ok, thrown}
use mcp_server_cpp.Mcp.Json.Sample.{Value, Items, Fields, sample}
use mcp_server_cpp.Mcp.Validator
use mcp_server_cpp.Mcp.Validator.Walk
use mcp_server_cpp.Mcp.Validator.{Schemas, type_errors}
use mcp_server_cpp.Mcp.Validator.Walk.{validate_node, validate}
use mcp_server_cpp.Mcp.Validator.Compile.{create}
use mcp_server_cpp.Mcp.Validator.Conforms.{Conforms}
use mcp_server_cpp.Mcp.Validator.Correct.{validate_iff}
use mcp_server_cpp.Mcp.Validator.Fuel.{validate_node_fuel}
use mcp_server_cpp.Mcp.Validator.Create.{create-union}
use mcp_server_cpp.Mcp.Validator.Sample
use mcp_server_cpp.Mcp.Validator.Sample.{schemas}

abbrev no_text : String → Option Value
no_text raw = none

abbrev lib : Json
lib = sample no_text

abbrev ops : Schemas lib
ops = schemas no_text

-- An object with a number `n` that is at least three.
abbrev counted : Value
counted = Value.obj (
    Fields.field "type" (Value.text "object") (
      Fields.field "required" (Value.arr (Items.item (Value.text "n") Items.no_items)) (
        Fields.field "properties"
          (Value.obj (
            Fields.field "n" (Value.obj (Fields.field "minimum" (Value.num (pos 3)) Fields.end))
              Fields.end))
          Fields.end)))

abbrev args_of : ℕ → Value
args_of n = Value.obj (Fields.field "n" (Value.num (pos n)) Fields.end)

four_is_enough : validate lib ops counted (args_of 4) ≡ ok []
unfolding validate validate_node Walk.checked_errors Walk.node_errors type_errors Validator.type_ok
    Validator.required_errors Walk.properties_errors Validator.minimum_errors Sample.depth
four_is_enough = refl

validate_iff_example :
    (validate lib ops counted (args_of 4) ≡ ok []) ↔ Conforms lib ops counted (args_of 4)
validate_iff_example = validate_iff lib ops counted (args_of 4)

validate_node_fuel_example :
    validate_node lib ops 9 counted (args_of 2) "" ≡ validate_node lib ops 20 counted (args_of 2) ""
unfolding Sample.depth
validate_node_fuel_example =
    validate_node_fuel lib ops 9 20 counted (args_of 2) "" (omega arith) (omega arith)

abbrev names : Value
names = Value.arr (Items.item (Value.text "string") (Items.item (Value.text "null") Items.no_items))

-- A text or null.
abbrev union : Value
union = Value.obj (Fields.field "type" names Fields.end)

create-union_example :
    (create lib ops union ≡ thrown) × (type_errors lib ops (Value.text "x") "" names ≡ ok [])
create-union_example =
    create-union lib ops union names (Value.text "x") "" refl refl refl refl
      ("string", refl, inl refl)
