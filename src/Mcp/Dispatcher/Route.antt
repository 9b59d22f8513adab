-- ===== src/Mcp/Dispatcher/Route.antt =====
-- src/mcp/json_rpc/MethodDispatcher.cc: which messages reach which handler, and what is answered to
-- those that reach none.
use Prim.Native.String.{String}
use package.text.Mathlib.Text.{◌==◌}
use package.text.Mathlib.TextEquality.{eq_iff}
use mcp_server_cpp.Prelude.{◌≡◌, true, false, not, none, some, List, if◌then◌else◌, arith}
use mcp_server_cpp.Mcp.Json.{Json, is_array, is_null, ok, is_some}
use mcp_server_cpp.Mcp.JsonRpc.RequestId
use mcp_server_cpp.Mcp.JsonRpc.Request
use mcp_server_cpp.Mcp.JsonRpc.Request.{Request}
use mcp_server_cpp.Mcp.JsonRpc.Notification
use mcp_server_cpp.Mcp.JsonRpc.Notification.{Notification}
use mcp_server_cpp.Mcp.JsonRpc.Message.{has_id}
use mcp_server_cpp.Mcp.Dispatcher.{
  Dispatcher, notification, Handler, find, emplace, register_handler, answered, handle_request,
  handle_notification, dispatch_single, dispatch,
}

module _ (lib : Json) where
  open lib use {Value, kind, member, parse}

  -- The text of a written request is given to `handle_request` with the request that was written.
  pub dispatch-request :
      (d : Dispatcher Value) (raw : String) (r : Request Value)
      → parse raw ≡ some (Request.to_json lib r)
      → dispatch lib d raw ≡ handle_request lib d r
  unfolding dispatch dispatch_single has_id
  dispatch-request d raw r p =
      let (k, v, i, m, q) = Request.members lib r in
      ground (arith, RequestId.is_null-to_json lib r.id, Request.from_json-to_json lib r)

  -- The text of a written notification is given to `handle_notification` with the notification that
  -- was written, and the dispatch returns.
  pub dispatch-notification :
      (d : Dispatcher Value) (raw : String) (n : Notification Value)
      → parse raw ≡ some (Notification.to_json lib n)
      → dispatch lib d raw ≡ ok (handle_notification lib d n)
  unfolding dispatch dispatch_single has_id
  dispatch-notification d raw n p =
      let (k, v, i, m, q) = Notification.members lib n in
      ground (arith, Notification.from_json-to_json lib n)

  -- A message with a method whose identifier is null is taken for a notification and then dropped:
  -- no handler runs, and no answer goes out.
  pub dispatch-null_id :
      (d : Dispatcher Value) (raw : String) (j m i : Value)
      → parse raw ≡ some j
      → is_array (kind j) ≡ false
      → member j "method" ≡ some m
      → member j "id" ≡ some i
      → is_null (kind i) ≡ true
      → dispatch lib d raw ≡ ok (answered lib notification)
  unfolding dispatch dispatch_single has_id Notification.from_json
  dispatch-null_id d raw j m i p a hm hi n = ground (arith)

-- An insertion keeps the value of a key that is there.
pub find-emplace {ℓ} :
    {H : Type ℓ} (m : List (String × H)) (k : String) (h : H) (j : String)
    → find (emplace m k h).0 j
      ≡ elim (find m j) [ some g ↦ some g | none ↦ if k == j then some h else none ]
unfolding find emplace
find-emplace m k h j = ground (arith, eq_iff k j)

-- Registration of a handler: a method that has a handler keeps it, every other method has what it
-- had, and the new one has the handler given; the answer tells whether the method had none.
pub register_handler_lem :
    {V : Type 0} (d : Dispatcher V) (method : String) (handler : Handler V) (k : String)
    → (find (register_handler d method handler).0.handlers k ≡ elim (find d.handlers k) [
      | none ↦ if method == k then some handler else none
      | some g ↦ some g
    ])
      × ((register_handler d method handler).1 ≡ not (is_some (find d.handlers method)))
unfolding register_handler emplace
register_handler_lem d method handler k = (find-emplace d.handlers method handler k, ground arith)
