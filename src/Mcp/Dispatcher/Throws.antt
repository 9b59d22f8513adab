-- ===== src/Mcp/Dispatcher/Throws.antt =====
-- src/mcp/json_rpc/MethodDispatcher.cc: what `dispatch` answers to a message that it does not
-- accept, and when an exception leaves it.
use Prim.Native.String.{String}
use mcp_server_cpp.Prelude.{
  ◌≡◌, ◌≢◌, ◌↔◌, refl, true, false, Option, none, some, arith, Bool-cases, Option-cases, inl, inr,
}
use mcp_server_cpp.Mcp.Json.{Json, ℤ, is_array, Result, ok, thrown, ◌>>=◌, is_some, Result-cases}
use mcp_server_cpp.Mcp.JsonRpc.ErrorCode
use mcp_server_cpp.Mcp.JsonRpc.ErrorCode.{
  ErrorCode, parse_error, invalid_request, method_not_found, internal_error,
}
use mcp_server_cpp.Mcp.JsonRpc.RequestId
use mcp_server_cpp.Mcp.JsonRpc.RequestId.{RequestId}
use mcp_server_cpp.Mcp.JsonRpc.RequestMeta
use mcp_server_cpp.Mcp.JsonRpc.RequestMeta.{RequestMeta, HasBadVersion}
use mcp_server_cpp.Mcp.JsonRpc.Request
use mcp_server_cpp.Mcp.JsonRpc.Request.{Request}
use mcp_server_cpp.Mcp.JsonRpc.ErrorResponse
use mcp_server_cpp.Mcp.JsonRpc.ErrorResponse.{ErrorResponse}
use mcp_server_cpp.Mcp.JsonRpc.Message.{has_id}
use mcp_server_cpp.Mcp.Dispatcher.{
  Dispatcher, Outcome, response, Handler, Handled, raises, raises_mcp, raises_other, find, Context,
  make_context, settle, answered, handle_request, dispatch_single, dispatch,
}

module _ (lib : Json) where
  open lib use {
    Value, kind, member, get_string, of_int, null_value, parse, out_of_range, get_int64_integer,
    get_string-none_iff,
  }

  -- An error response as its reader sees it: the identifier, and the code of the error.
  abbrev pub IsError : Value → Value → ℤ → Type 0
  IsError v id code =
      (e : Value) × (member v "id" ≡ some id)
      × (member v "error" ≡ some e)
      × (member e "code" ≡ some (of_int code))
      × (member v "result" ≡ none)

  -- The texts that are no request and no notification, with the code that they are answered with.
  pub data IsMalformed : String → ErrorCode → Type 0 where
    unparsable :
        {raw : String} → parse raw ≡ none → out_of_range raw ≡ false → IsMalformed raw parse_error
    batch :
        {raw : String} (j : Value)
        → parse raw ≡ some j
        → is_array (kind j) ≡ true
        → IsMalformed raw invalid_request
    no_method :
        {raw : String} (j : Value)
        → parse raw ≡ some j
        → member j "method" ≡ none
        → IsMalformed raw invalid_request
    bad_request :
        {raw : String} (j : Value)
        → parse raw ≡ some j
        → is_array (kind j) ≡ false
        → is_some (member j "method") ≡ true
        → has_id lib j ≡ true
        → Request.from_json lib j ≡ ok none
        → IsMalformed raw invalid_request

  -- The requests that are answered with an error, with its code: no handler has the name, or the
  -- handler throws.
  pub data Fails (d : Dispatcher Value) (r : Request Value) : ℤ → Type 0 where
    no_handler : find d.handlers r.method ≡ none → Fails d r (ErrorCode.to_int method_not_found)
    mcp_exception :
        {code : ErrorCode} (h : Handler Value) (ctx : Context Value) (message : String)
        (extra : Option Value)
        → find d.handlers r.method ≡ some h
        → make_context lib r ≡ ok ctx
        → h r ctx ≡ raises_mcp code message extra
        → Fails d r (ErrorCode.to_int code)
    exception :
        (h : Handler Value) (ctx : Context Value) (what : String)
        → find d.handlers r.method ≡ some h
        → make_context lib r ≡ ok ctx
        → h r ctx ≡ raises what
        → Fails d r (ErrorCode.to_int internal_error)

  to_json-IsError :
      (e : ErrorResponse Value)
      → IsError (ErrorResponse.to_json lib e) (ErrorResponse.id_to_json lib e.id) e.error.code
  to_json-IsError e =
      let (k, v, i, f, m, s) = ErrorResponse.members lib e in
      let (ek, c, t, x) = ErrorResponse.error_members lib e.error in
      (ErrorResponse.error_to_json lib e.error, i, f, c, s)

  make_error-IsError :
      (c : ErrorCode) (id : Option RequestId) (detail : String)
      → IsError
          (ErrorResponse.to_json lib (ErrorResponse.make_error lib c id detail))
          (ErrorResponse.id_to_json lib id)
          (ErrorCode.to_int c)
  unfolding ErrorResponse.make_error
  make_error-IsError c id detail = to_json-IsError (ErrorResponse.make_error lib c id detail)

  -- A text that is no request and no notification is answered, without an exception and without a
  -- call of a handler, by an error with a null identifier and the code of what is wrong with it.
  pub dispatch-malformed :
      (d : Dispatcher Value) (raw : String) (code : ErrorCode)
      → IsMalformed raw code
      → (v : Value) × (dispatch lib d raw ≡ ok (answered lib (response v)))
        × IsError v null_value (ErrorCode.to_int code)
  unfolding dispatch dispatch_single
  dispatch-malformed d raw _ (unparsable p o) =
      (_, ground arith, make_error-IsError parse_error none "")
  dispatch-malformed d raw _ (batch j p a) = (
    _,
    ground arith,
    make_error-IsError invalid_request none "Batch requests are not supported in MCP 2026-07-28",
  )
  dispatch-malformed d raw _ (no_method j p m) = elim (Bool-cases (is_array (kind j))) [
    | inl t ↦ (
      _,
      ground arith,
      make_error-IsError invalid_request none "Batch requests are not supported in MCP 2026-07-28",
    )
    | inr f ↦ (_, ground arith, make_error-IsError invalid_request none "")
  ]
  dispatch-malformed d raw _ (bad_request j p a m i f) =
      (_, ground arith, make_error-IsError invalid_request none "")

  pub handle_request-Fails :
      (d : Dispatcher Value) (r : Request Value) (code : ℤ)
      → Fails d r code
      → (v : Value) × (handle_request lib d r ≡ ok (answered lib (response v)))
        × IsError v (RequestId.to_json lib r.id) code
  unfolding handle_request settle
  handle_request-Fails d r _ (no_handler f) =
      (_, ground arith, make_error-IsError method_not_found (some r.id) r.method)
  handle_request-Fails d r _ (mcp_exception {code = code} h ctx message extra f c e) = (
    _,
    ground arith,
    to_json-IsError (record {
      id = some r.id;
      error = record { code = ErrorCode.to_int code; message = message; error_data = extra };
    }),
  )
  handle_request-Fails d r _ (exception h ctx what f c e) =
      (_, ground arith, make_error-IsError internal_error (some r.id) what)

  -- What makes an exception leave the call of a handler.
  pub data Escapes (d : Dispatcher Value) (r : Request Value) : Type 0 where
    bad_version : HasBadVersion lib r → find d.handlers r.method ≢ none → Escapes d r
    foreign :
        (h : Handler Value) (ctx : Context Value)
        → find d.handlers r.method ≡ some h
        → make_context lib r ≡ ok ctx
        → h r ctx ≡ raises_other
        → Escapes d r

  settle-thrown :
      (r : Request Value) (x : Handled Value) → settle lib r x ≡ thrown → x ≡ raises_other
  unfolding settle
  settle-thrown r raises_other e = refl
  settle-thrown r x e = cc

  make_context-thrown :
      (r : Request Value) → make_context lib r ≡ thrown → RequestMeta.extract_meta lib r ≡ thrown
  unfolding make_context
  make_context-thrown r t = elim (Result-cases (RequestMeta.extract_meta lib r)) [
    | inl x ↦ x
    | inr (m, e) ↦ absurd (ground arith)
  ]

  unanswered : (x : Result (Outcome Value)) → (x >>= λ o. ok (answered lib o)) ≡ thrown → x ≡ thrown
  unanswered thrown e = refl
  unanswered (ok o) e = cc

  handle_request-Escapes :
      (d : Dispatcher Value) (r : Request Value) → handle_request lib d r ≡ thrown → Escapes d r
  unfolding handle_request
  handle_request-Escapes d r t = elim (Option-cases (find d.handlers r.method)) [
    | inl n ↦ absurd (ground arith)
    | inr (h, f) ↦ elim (Result-cases (make_context lib r)) [
      | inl x ↦
          bad_version (RequestMeta.thrown-extract_meta lib r (make_context-thrown r x))
            (ground arith)
      | inr (ctx, c) ↦
          foreign h ctx f c
            (settle-thrown r (h r ctx) (unanswered (settle lib r (h r ctx)) (ground arith)))
    ]
  ]

  -- An exception leaves `handle_request` exactly where the request has a handler and either its
  -- metadata have a protocol version that is no text, or the handler throws something that does
  -- not derive from `std::exception`.
  pub handle_request-throws :
      (d : Dispatcher Value) (r : Request Value) → (handle_request lib d r ≡ thrown) ↔ Escapes d r
  unfolding handle_request make_context settle
  handle_request-throws d r = (
    handle_request-Escapes d r,
    λ e. elim e [
      | bad_version b f ↦ ground (arith, RequestMeta.extract_meta-thrown lib r b)
      | foreign h ctx f c x ↦ ground arith
    ],
  )
