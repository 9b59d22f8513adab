-- ===== src/Mcp/HttpWriter.antt =====
-- src/mcp/transport/StreamableHttpMessageWriter.cc: what is written to a connection over HTTP.
-- The writer decides late: its first message makes it answer with JSON, or open a stream of
-- events. The texts that it writes are values of `Sent`, one for each call of `send` and `shutdown`
-- of the connection; the keepalive is a timer of the loop that is set or not. The cleanup of a
-- subscription, when the writer is destroyed, is what it is given.
pub mod Wire
mod Tests
use mcp_server_cpp.Prelude.{
  ℕ, Bool, true, false, Option, none, some, List, [], ◌∷◌, ◌++◌, if◌then◌else◌, ◌&&◌,
}

pub data State : Type 0 where
  direct streaming closed : State

pub data Sent {ℓ} (V : Type ℓ) : Type ℓ where
  -- The headers of a stream, a comment that keeps it open, the answer 202, and the end.
  sse_header keepalive accepted shutdown : Sent V
  -- An answer with a body, and one event of a stream.
  json_response sse_event : V → Sent V

pub record Writer : Type 0 where
  pub state : State
  -- `keepalive_interval_ > 0.0`.
  pub keeps_alive : Bool
  -- `keepalive_timer_id_.valid()`.
  pub keepalive_timer : Bool
  pub subscription_id : Option ℕ

abbrev pub make_writer : Bool → Writer
make_writer keeps_alive = record {
  state = direct;
  keeps_alive = keeps_alive;
  keepalive_timer = false;
  subscription_id = none;
}

abbrev pub is_streaming : Writer → Bool
is_streaming w = elim w.state [ streaming ↦ true | _ ↦ false ]

abbrev pub cancel_keepalive : Writer → Writer
cancel_keepalive w = record w { keepalive_timer = false }

-- A timer that is set is cancelled first.
unfoldable pub start_keepalive : Writer → Writer
start_keepalive w = if w.keeps_alive then record w { keepalive_timer = true } else w

abbrev pub set_subscription_cleanup : ℕ → Writer → Writer
set_subscription_cleanup id w = record w { subscription_id = some id }

-- The destructor, with the subscription that is cleaned up.
unfoldable pub destroy : Writer → Writer × Option ℕ
destroy w = (cancel_keepalive w, w.subscription_id)

module _ {ℓ} {V : Type ℓ} where
  unfoldable pub upgrade_to_sse : Writer → Writer × List (Sent V)
  unfolding start_keepalive
  upgrade_to_sse w = (start_keepalive (record w { state = streaming }), sse_header ∷ [])

  -- `write_notification`, by the state.
  abbrev pub notified : State → V → Writer → Writer × List (Sent V)
  notified closed v w = (w, [])
  notified streaming v w = (w, sse_event v ∷ [])
  notified direct v w = let (w', header) = upgrade_to_sse w in (w', header ++ sse_event v ∷ [])

  unfoldable pub write_notification : V → Writer → Writer × List (Sent V)
  write_notification v w = notified w.state v w

  -- `write_response`, by the state.
  abbrev pub responded : State → V → Writer → Writer × List (Sent V)
  responded closed v w = (w, [])
  responded direct v w = (record w { state = closed }, json_response v ∷ shutdown ∷ [])
  responded streaming v w =
      (record (cancel_keepalive w) { state = closed }, sse_event v ∷ shutdown ∷ [])

  unfoldable pub write_response : V → Writer → Writer × List (Sent V)
  write_response v w = responded w.state v w

  -- `write_accepted`, by the state.
  abbrev pub acknowledged : State → Writer → Writer × List (Sent V)
  acknowledged direct w = (record w { state = closed }, accepted ∷ shutdown ∷ [])
  acknowledged _ w = (record w { state = closed }, shutdown ∷ [])

  unfoldable pub write_accepted : Writer → Writer × List (Sent V)
  write_accepted w = acknowledged w.state w

  -- The callback of the timer, where it is set; `connected` is what the connection answers.
  unfoldable pub keepalive_tick : Bool → Writer → Writer × List (Sent V)
  keepalive_tick connected w =
      if w.keepalive_timer
      then if is_streaming w && connected then (w, keepalive ∷ []) else (cancel_keepalive w, [])
      else (w, [])

pub data Call {ℓ} (V : Type ℓ) : Type ℓ where
  notifies responds : V → Call V
  accepts : Call V
  ticks : Bool → Call V

module _ {ℓ} {V : Type ℓ} where
  unfoldable pub step : Call V → Writer → Writer × List (Sent V)
  step (notifies v) w = write_notification v w
  step (responds v) w = write_response v w
  step accepts w = write_accepted w
  step (ticks connected) w = keepalive_tick connected w

  -- What is sent, in order.
  unfoldable pub run : List (Call V) → Writer → Writer × List (Sent V)
  run [] w = (w, [])
  run (c ∷ cs) w = let (w', sent) = step c w in let (w'', more) = run cs w' in (w'', sent ++ more)
