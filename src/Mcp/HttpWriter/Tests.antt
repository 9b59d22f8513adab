-- ===== src/Mcp/HttpWriter/Tests.antt =====
-- src/mcp/transport/StreamableHttpMessageWriter.cc: a stream with a keepalive and a late answer.
use mcp_server_cpp.Prelude.{ℕ, ◌≡◌, refl, true, some, List, [], ◌∷◌}
use mcp_server_cpp.Mcp.HttpWriter.{
  sse_header, keepalive, shutdown, sse_event, make_writer, start_keepalive, upgrade_to_sse,
  write_notification, write_response, write_accepted, keepalive_tick, Call, notifies, responds,
  accepts, ticks, step, run,
}
use mcp_server_cpp.Mcp.HttpWriter.Wire.{expected, reads, run-reads}

abbrev calls : List (Call ℕ)
calls = ticks true ∷ notifies 1 ∷ ticks true ∷ responds 2 ∷ notifies 3 ∷ ticks true ∷ accepts ∷ []

sent_test :
    (run calls (make_writer true)).1
    ≡ sse_header ∷ sse_event 1 ∷ keepalive ∷ sse_event 2 ∷ shutdown ∷ shutdown ∷ []
unfolding run step write_notification write_response write_accepted keepalive_tick upgrade_to_sse
    start_keepalive
sent_test = refl

run-reads_example :
    reads (expected (make_writer true).state) (run calls (make_writer true)).1
    ≡ some (expected (run calls (make_writer true)).0.state)
run-reads_example = run-reads calls (make_writer true)
