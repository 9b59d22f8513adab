-- ===== src/Mcp/Server/Stdio.antt =====
-- src/mcp/transport/StdioTransport.cc: the loop over the lines of standard input. The lines are those
-- that are read until the input ends or the transport is stopped; the result is what is written.
use Prim.Native.Char.{code}
use Prim.Native.String.{String}
use mcp_server_cpp.Prelude.{
  ◌≡◌, Bool, true, false, ◌&&◌, ◌||◌, Option, none, some, List, [], ◌∷◌, ◌++◌, ◌==◌, if◌then◌else◌,
}
use mcp_server_cpp.Mcp.Json.{Result, ok, thrown}

abbrev pub is_empty : String → Bool
is_empty String.[] = true
is_empty (String.◌∷◌ c s) = false

-- The line without a carriage return at its end.
unfoldable pub read_line : String → String
read_line String.[] = String.[]
read_line (String.◌∷◌ c s) =
    let rest = read_line s in if code c == 13 && is_empty s then String.[] else String.◌∷◌ c rest

unfoldable pub has_newline : String → Bool
has_newline String.[] = false
has_newline (String.◌∷◌ c s) = code c == 10 || has_newline s

-- What is written for a message: nothing if it has a newline in it.
unfoldable pub send : String → List String
send raw = if has_newline raw then [] else raw ∷ []

-- An exception of the handler is logged, and the line skipped.
unfoldable pub respond : (String → Result (Option String)) → String → List String
respond handler line =
    if is_empty line
    then []
    else elim (handler line) [ thrown ↦ [] | ok none ↦ [] | ok (some raw) ↦ send raw ]

unfoldable pub start : (String → Result (Option String)) → List String → List String
start handler [] = []
start handler (line ∷ lines) = respond handler (read_line line) ++ start handler lines

module _ (handler : String → Result (Option String)) where
  -- Every text of the list stays on one line.
  abbrev pub OnOneLine : List String → Type 0
  OnOneLine [] = Unit {0}
  OnOneLine (s ∷ ss) = (has_newline s ≡ false) × OnOneLine ss
