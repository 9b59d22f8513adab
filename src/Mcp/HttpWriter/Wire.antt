-- ===== src/Mcp/HttpWriter/Wire.antt =====
-- src/mcp/transport/StreamableHttpMessageWriter.cc: what a client reads from the connection.
use mcp_server_cpp.Prelude.{
  ◌≡◌, refl, ap, ◌∙◌, Option, none, some, List, [], ◌∷◌, ◌++◌, arith, Option-cases, inl, inr,
}
use mcp_server_cpp.Mcp.HttpWriter.{
  State, direct, streaming, closed, Sent, sse_header, keepalive, accepted, shutdown, json_response,
  sse_event, Writer, start_keepalive, upgrade_to_sse, write_notification, write_response,
  write_accepted, keepalive_tick, Call, notifies, responds, accepts, ticks, step, run,
}

-- What a client that reads an answer expects next.
pub data Expects : Type 0 where
  head events end nothing : Expects

-- What is expected of a writer in this state.
abbrev pub expected : State → Expects
expected direct = head
expected streaming = events
expected closed = nothing

module _ {ℓ} {V : Type ℓ} where
  -- HTTP: one head, which is an answer or the begin of a stream; events and comments in a stream
  -- only; and nothing behind the end, which may be said again.
  abbrev pub next : Expects → Sent V → Option Expects
  next head (json_response v) = some end
  next head accepted = some end
  next head sse_header = some events
  next events (sse_event v) = some events
  next events keepalive = some events
  next events shutdown = some nothing
  next end shutdown = some nothing
  next nothing shutdown = some nothing
  next _ _ = none

  unfoldable pub reads : Expects → List (Sent V) → Option Expects
  reads e [] = some e
  reads e (x ∷ xs) = elim (next e x) [ none ↦ none | some e' ↦ reads e' xs ]

  abbrev onward : List (Sent V) → Option Expects → Option Expects
  onward ys none = none
  onward ys (some e) = reads e ys

  reads-append :
      (e e' : Expects) (xs ys : List (Sent V))
      → reads e xs ≡ some e'
      → reads e (xs ++ ys) ≡ reads e' ys
  unfolding reads
  reads-append e e' [] ys h = ap (onward ys) h
  reads-append e e' (x ∷ xs) ys h = elim (Option-cases (next e x)) [
    | inl n ↦ absurd (ground arith)
    | inr (m, n) ↦ ground (arith, reads-append m e' xs ys)
  ]

  step-reads :
      (c : Call V) (w : Writer) (s : State)
      → w.state ≡ s
      → reads (expected s) (step c w).1 ≡ some (expected (step c w).0.state)
  unfolding reads step write_notification write_response write_accepted keepalive_tick
      upgrade_to_sse start_keepalive
  step-reads (notifies v) w direct e = ground arith
  step-reads (notifies v) w streaming e = ground arith
  step-reads (notifies v) w closed e = ground arith
  step-reads (responds v) w direct e = ground arith
  step-reads (responds v) w streaming e = ground arith
  step-reads (responds v) w closed e = ground arith
  step-reads accepts w direct e = ground arith
  step-reads accepts w streaming e = ground arith
  step-reads accepts w closed e = ground arith
  step-reads (ticks b) w direct e = ground arith
  step-reads (ticks b) w streaming e = ground arith
  step-reads (ticks b) w closed e = ground arith

  -- Whatever notifications, answers and keepalives are written, in any order, a client reads one
  -- well-formed answer: a single head, events only in a stream, and nothing behind the end.
  pub run-reads :
      (cs : List (Call V)) (w : Writer)
      → reads (expected w.state) (run cs w).1 ≡ some (expected (run cs w).0.state)
  unfolding run reads
  run-reads [] w = refl
  run-reads (c ∷ cs) w =
      let (w', sent) = step c w in
      reads-append (expected w.state) (expected w'.state) sent (run cs w').1
        (step-reads c w w.state refl)
      ∙ run-reads cs w'
