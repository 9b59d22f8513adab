-- ===== src/Mcp/UriTemplate/Tests.antt =====
-- Runs of src/mcp/server/UriTemplate.cc, and the theorems at concrete templates.
use mcp_server_cpp.Prelude.{
  ◌≡◌, ◌↔◌, refl, [], ◌∷◌, none, some, true, false, Bytes, codes, cut, strip_prefix,
}
use mcp_server_cpp.Mcp.UriTemplate.{
  literal, var, reserved_var, Segment, unclosed, multi_variable, unsupported, empty_expression,
  parsed, invalid, parse, scan, expression, flush, assign, find, bound, read_value, match_segments,
  match_uri, UriTemplate,
}
use mcp_server_cpp.Mcp.UriTemplate.Match.{Covers, match_uri_iff}

abbrev lit : Bytes → Segment
lit s = record { kind = literal; value = s }

-- "a/{x}.log"
abbrev log_template : UriTemplate
log_template = record {
  original = codes "a/{x}.log";
  compiled = record {
    segments =
        lit (codes "a/") ∷ record { kind = var; value = codes "x" } ∷ lit (codes ".log") ∷ [];
    has_vars = true;
  };
}

-- "{a}{+b}"
abbrev adjacent_template : UriTemplate
adjacent_template = record {
  original = codes "{a}{+b}";
  compiled = record {
    segments =
        record { kind = var; value = codes "a" }
        ∷ record { kind = reserved_var; value = codes "b" }
        ∷ [];
    has_vars = true;
  };
}

abbrev plain_template : UriTemplate
plain_template = record {
  original = codes "a/b";
  compiled = record { segments = lit (codes "a/b") ∷ []; has_vars = false };
}

parse-log : parse log_template.original ≡ some (parsed log_template.compiled)
unfolding parse scan cut expression flush
parse-log = refl

parse-adjacent : parse adjacent_template.original ≡ some (parsed adjacent_template.compiled)
unfolding parse scan cut expression flush
parse-adjacent = refl

parse_refuses :
    (parse (codes "a{b") ≡ some (invalid unclosed))
    × (parse (codes "{?q}") ≡ some (invalid (unsupported b'?')))
    × (parse (codes "{a,b}") ≡ some (invalid multi_variable))
    × (parse (codes "x{}") ≡ some (invalid empty_expression))
unfolding parse scan cut expression flush
parse_refuses = (refl, refl, refl, refl)

match-log :
    (match_uri log_template (codes "a/today.log") ≡ some ((codes "x", codes "today") ∷ []))
    × (match_uri log_template (codes "a/b/c.log") ≡ none)
    × (match_uri log_template (codes "a/.log") ≡ none)
    × (match_uri log_template (codes "a/today.log.log") ≡ none)
unfolding match_uri match_segments strip_prefix read_value bound find assign
match-log = (refl, refl, refl, refl)

match_uri_iff_example :
    (match_uri log_template (codes "a/t.log") ≡ some ((codes "x", codes "t") ∷ []))
    ↔ Covers log_template.compiled.segments (codes "a/t.log") [] ((codes "x", codes "t") ∷ [])
match_uri_iff_example =
    match_uri_iff log_template (codes "a/t.log") ((codes "x", codes "t") ∷ []) refl
