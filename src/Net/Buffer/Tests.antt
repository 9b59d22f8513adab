-- ===== src/Net/Buffer/Tests.antt =====
-- Runs of src/net/Buffer.h on a small buffer, and the theorems at it.
use mcp_server_cpp.Prelude.{[], ◌∷◌, none, ◌≡◌, refl, arith}
use mcp_server_cpp.Net.Endian.{byteswap, le_bytes, le_value}
use mcp_server_cpp.Net.Buffer.{
  Buffer, append, prepend, ensure_writeable_bytes, make_space, overwrite, write_at_end, resize,
}
use mcp_server_cpp.Net.Buffer.Invariant.{IsValid, contents}
use mcp_server_cpp.Net.Buffer.Stream.{append_lem}

-- Twelve bytes, of which the two at 9 and 10 are readable; the last one is stale.
abbrev small : Buffer
small = record {
  buffer = 0 ∷ 0 ∷ 0 ∷ 0 ∷ 0 ∷ 0 ∷ 0 ∷ 0 ∷ 1 ∷ 2 ∷ 3 ∷ 4 ∷ [];
  reader = 9;
  writer = 11;
}

small-IsValid : IsValid small
small-IsValid = omega arith

swaps : byteswap 4 0x01020304 ≡ 0x04030201
unfolding byteswap le_bytes le_value
swaps = refl

appends : contents (append small (5 ∷ 6 ∷ [])) ≡ 2 ∷ 3 ∷ 5 ∷ 6 ∷ []
unfolding append ensure_writeable_bytes make_space overwrite write_at_end resize
appends = refl

refuses_long_prefix : prepend small (0 ∷ 0 ∷ 0 ∷ 0 ∷ 0 ∷ 0 ∷ 0 ∷ 0 ∷ 0 ∷ 0 ∷ []) ≡ none
unfolding prepend
refuses_long_prefix = refl

append_lem_example :
    (contents (append small (5 ∷ 6 ∷ [])) ≡ 2 ∷ 3 ∷ 5 ∷ 6 ∷ [])
    × IsValid (append small (5 ∷ 6 ∷ []))
append_lem_example = append_lem (5 ∷ 6 ∷ []) small-IsValid (omega arith)
