-- ===== src/Mcp/JsonRpc/RequestMeta.antt =====
-- src/mcp/json_rpc/JsonRpcTypes.h: `RequestMeta`, and `Request::extract_meta`.
use Prim.Native.String.{String}
use text.Mathlib.Text.{◌==◌}
use package.text.Mathlib.TextEquality.{eq_iff}
use mcp_server_cpp.Prelude.{
  ◌≢◌, refl, Bool-cases, inl, inr, ◌≡◌, not, Bool, true, false, ◌&&◌, Option, none, some, ◌∷◌,
  if◌then◌else◌, arith, Option-cases, inl, inr,
}
use mcp_server_cpp.Mcp.JsonRpc.RequestId.{RequestId}
use mcp_server_cpp.Mcp.Json.{
  Kind, can_hold, Json, object, is_object, is_string, Result, ok, thrown, ◌>>=◌, or_throw,
}
use mcp_server_cpp.Mcp.Json.Build.{optional, build, kind-build, member-build}
use mcp_server_cpp.Mcp.JsonRpc.Request.{Request}

pub record RequestMeta (V : Type 0) : Type 0 where
  pub protocol_version : String
  pub client_capabilities : V
  pub client_info : V
  pub progress_token : Option V

-- `KEY_PROTOCOL_VERSION`, `KEY_CLIENT_CAPABILITIES`, `KEY_CLIENT_INFO`
abbrev pub key_protocol_version : String
key_protocol_version = "io.modelcontextprotocol/protocolVersion"

abbrev pub key_client_capabilities : String
key_client_capabilities = "io.modelcontextprotocol/clientCapabilities"

abbrev pub key_client_info : String
key_client_info = "io.modelcontextprotocol/clientInfo"

abbrev pub get_or {ℓ} : {A : Type ℓ} → Option A → A → A
get_or (some a) d = a
get_or none d = d

is_object-can_hold : (k : Kind) → is_object k ≡ true → can_hold k ≡ true
is_object-can_hold object h = refl
is_object-can_hold _ h = cc

module _ (lib : Json) where
  open lib use {
    set, Value, kind, member, of_string, get_string, empty_object, is_empty, get_string-of_string,
    get_string-none_iff,
  }

  unfoldable pub to_json : RequestMeta Value → Value
  to_json m = build lib (
      (key_protocol_version, of_string m.protocol_version)
      ∷ (key_client_capabilities, m.client_capabilities)
      ∷ (key_client_info, m.client_info)
      ∷ optional "progressToken" m.progress_token)

  -- The version of a `_meta`; the conversion throws where it is there and is no text.
  unfoldable pub read_version : Value → Result String
  read_version j = elim (member j key_protocol_version) [
    | none ↦ ok "2026-07-28"
    | some v ↦ or_throw (get_string v)
  ]

  unfoldable pub from_json : Value → Result (Option (RequestMeta Value))
  unfolding read_version
  from_json j =
      if not (is_object (kind j))
      then ok none
      else (read_version j >>= λ version. ok (
          some (record {
            protocol_version = version;
            client_capabilities = get_or (member j key_client_capabilities) empty_object;
            client_info = get_or (member j key_client_info) empty_object;
            progress_token = member j "progressToken";
          })))

  unfoldable pub is_valid : RequestMeta Value → Bool
  is_valid m =
      not (m.protocol_version == "")
      && is_object (kind m.client_capabilities)
      && is_object (kind m.client_info)
      && not (is_empty m.client_capabilities)
      && not (is_empty m.client_info)

  unfoldable pub extract_meta : Request Value → Result (Option (RequestMeta Value))
  extract_meta r = elim r.params [
    | none ↦ ok none
    | some params ↦
        if not (is_object (kind params))
        then ok none
        else elim (member params "_meta") [ none ↦ ok none | some m ↦ from_json m ]
  ]

  members :
      (m : RequestMeta Value)
      → (kind (to_json m) ≡ object)
        × (member (to_json m) key_protocol_version ≡ some (of_string m.protocol_version))
        × (member (to_json m) key_client_capabilities ≡ some m.client_capabilities)
        × (member (to_json m) key_client_info ≡ some m.client_info)
        × (member (to_json m) "progressToken" ≡ m.progress_token)
  unfolding to_json
  members m = elim (Option-cases m.progress_token) [
    | inl e ↦ rw e (
      kind-build lib _ _ _,
      member-build lib _ _,
      member-build lib _ _,
      member-build lib _ _,
      member-build lib _ _,
    )
    | inr (p, e) ↦ rw e (
      kind-build lib _ _ _,
      member-build lib _ _,
      member-build lib _ _,
      member-build lib _ _,
      member-build lib _ _,
    )
  ]

  -- The metadata of a request that are written are read back as they were.
  pub from_json-to_json : (m : RequestMeta Value) → from_json (to_json m) ≡ ok (some m)
  unfolding from_json
  from_json-to_json m =
      let (k, v, c, i, t) = members m in ground (arith, get_string-of_string m.protocol_version)

  -- The request has metadata whose protocol version is there and is no text.
  abbrev pub HasBadVersion : Request Value → Type 0
  HasBadVersion r =
      (params : Value) × (m : Value) × (v : Value) × (r.params ≡ some params)
      × (is_object (kind params) ≡ true)
      × (member params "_meta" ≡ some m)
      × (is_object (kind m) ≡ true)
      × (member m key_protocol_version ≡ some v)
      × (is_string (kind v) ≡ false)

  pub extract_meta-thrown : (r : Request Value) → HasBadVersion r → extract_meta r ≡ thrown
  unfolding extract_meta from_json
  extract_meta-thrown r (params, m, v, p, po, e, mo, f, s) = ground (arith, get_string-none_iff v)

  pub thrown-extract_meta : (r : Request Value) → extract_meta r ≡ thrown → HasBadVersion r
  unfolding extract_meta from_json
  thrown-extract_meta r h = elim (Option-cases r.params) [
    | inl n ↦ absurd (ground arith)
    | inr (params, p) ↦ elim (Option-cases (member params "_meta")) [
      | inl n ↦ absurd (ground arith)
      | inr (m, e) ↦ elim (Option-cases (member m key_protocol_version)) [
        | inl n ↦ absurd (ground arith)
        | inr (v, f) ↦ (
          params,
          m,
          v,
          p,
          ground arith,
          e,
          ground arith,
          f,
          ground (arith, get_string-none_iff v),
        )
      ]
    ]
  ]

  unfoldable pub build_mcp_params : Value → RequestMeta Value → Value
  build_mcp_params params m =
      set (if is_object (kind params) then params else empty_object) "_meta" (to_json m)

  base-can_hold :
      (params : Value)
      → can_hold (kind (if is_object (kind params) then params else empty_object)) ≡ true
  base-can_hold params = elim (Bool-cases (is_object (kind params))) [
    | inl t ↦ rw t (is_object-can_hold (kind params) t)
    | inr f ↦ rw (f, lib.kind-empty_object)
  ]

  -- The metadata that are put into the parameters of a request are what `extract_meta` finds there,
  -- whatever the parameters were; every other key has what it had, or what it has in an empty object
  -- where the parameters were no object.
  pub extract_meta-build_mcp_params :
      (id : RequestId) (method : String) (params : Value) (m : RequestMeta Value) (k : String)
      → k ≢ "_meta"
      → (extract_meta
            (record { id = id; method = method; params = some (build_mcp_params params m) })
          ≡ ok (some m))
        × (member (build_mcp_params params m) k
            ≡ member (if is_object (kind params) then params else empty_object) k)
  unfolding extract_meta build_mcp_params
  extract_meta-build_mcp_params id method params m k h =
      let base = if is_object (kind params) then params else empty_object in
      let holds = base-can_hold params in
      (
        ground (
          arith,
          from_json-to_json m,
          lib.kind-set base "_meta" (to_json m) holds,
          lib.member-set base "_meta" (to_json m) "_meta" holds,
        ),
        ground (arith, eq_iff "_meta" k, lib.member-set base "_meta" (to_json m) k holds),
      )
