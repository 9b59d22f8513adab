-- ===== src/Mcp/Handlers/Sort.antt =====
-- src/mcp/server/McpMethodHandlers.cc: `std::sort` by a text, as the handlers of the lists call it.
pub mod Less
pub mod Order
use Prim.Native.Nat.{Ordering}
use Prim.Native.String.{String, compare}
use mcp_server_cpp.Prelude.{Bool, true, false, List, [], ◌∷◌, if◌then◌else◌}

-- `operator<` of `std::string`: by the bytes, which for UTF-8 is by the characters.
abbrev pub less : String → String → Bool
less s t = elim (compare s t) [ Ordering.lt ↦ true | _ ↦ false ]

module _ {H : Type 0} (key : H → String) where
  unfoldable pub insert : H → List H → List H
  insert a [] = a ∷ []
  insert a (b ∷ l) = let rest = insert a l in if less (key b) (key a) then b ∷ rest else a ∷ b ∷ l

  unfoldable pub sort : List H → List H
  sort [] = []
  sort (a ∷ l) = insert a (sort l)
