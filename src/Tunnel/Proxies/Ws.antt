-- ===== src/Tunnel/Proxies/Ws.antt =====
-- tunnel/wsproxy.go: a websocket's upgrade request goes to the local server, and then the two
-- connections are joined.
use mylittleproxy.Base.{
  ℕ, Bytes, bytes, Bool, true, false, ◌||◌, nat_eq, not, Option, none, some, List, [], ◌∷◌, Map,
  Result, ok, err, if◌then◌else◌, is_empty, ◌==◌, all,
}
use mylittleproxy.Proto
use mylittleproxy.Proto.{ControlMessage}
use mylittleproxy.Std.Net.{cut_last, join_host_port, is_digit}
use mylittleproxy.Tunnel.Headers.{apply_custom_headers}
use mylittleproxy.Tunnel.Server.Connect.{Request}
use mylittleproxy.Tunnel.Proxies.Http.{Url}

-- `URL.Hostname` and `URL.Port`: the last colon ends the host if only digits follow it.
abbrev pub unbracketed : Bytes → Bytes
unbracketed [] = []
unbracketed (c ∷ s) =
    if nat_eq c b'['
    then elim (cut_last b']' s) [
      | none ↦ c ∷ s
      | some (inner, behind) ↦ if is_empty behind then inner else c ∷ s
    ]
    else c ∷ s

abbrev pub host_and_port : Bytes → Option (Bytes × Bytes) → Bytes × Bytes
host_and_port host none = (host, [])
host_and_port host (some (before, behind)) =
    if all is_digit behind then (before, behind) else (host, [])

unfoldable pub split_host : Bytes → Bytes × Bytes
unfolding cut_last
split_host host =
    let parts = host_and_port host (cut_last b':' host) in (unbracketed parts.0, parts.1)

-- The errors of `targetAddress`.
pub data TargetError : Type 0 where
  invalid_target : Bytes → TargetError
  unsupported_scheme : Bytes → TargetError
  names_no_host : Bytes → TargetError

-- Whether a scheme wants TLS; none for one that is not supported.
unfoldable pub scheme_tls : Bytes → Option Bool
scheme_tls scheme =
    if scheme == bytes "https" || scheme == bytes "wss"
    then some true
    else if scheme == bytes "http" || scheme == bytes "ws" || is_empty scheme
    then some false
    else none

abbrev pub default_port : Bool → Bytes
default_port true = bytes "443"
default_port false = bytes "80"

abbrev with_port : Bytes → Bytes × Bytes → Bool → Bytes
with_port host (hostname, port) use_tls =
    if is_empty port then join_host_port hostname (default_port use_tls) else host

-- The address to dial, and whether with TLS.
unfoldable pub target_address :
    (parse : Bytes → Option Url) → (target : Bytes) → Result TargetError (Bytes × Bool)
unfolding scheme_tls split_host
target_address parse target = elim (parse target) [
  | none ↦ err (invalid_target target)
  | some u ↦ elim (scheme_tls u.scheme) [
    | none ↦ err (unsupported_scheme u.scheme)
    | some use_tls ↦
        if is_empty u.host
        then err (names_no_host target)
        else ok (with_port u.host (split_host u.host) use_tls, use_tls)
  ]
]

unfoldable pub host_header_for : (parse : Bytes → Option Url) → (target original : Bytes) → Bytes
host_header_for parse target original = elim (parse target) [
  | none ↦ original
  | some u ↦ if is_empty u.host then original else u.host
]

-- What the two connections do: `dial` is for an address, with TLS or not.
pub record WsIo : Type 0 where
  pub read_request : Option Request
  pub dial : (addr : Bytes) → (use_tls : Bool) → Option ℕ
  pub write_request : Bool
  pub buffered : Bytes
  pub copy_buffered : Bool

-- What `WSProxy.Proxy` does, in order; `answer_unavailable` also closes the tunnel's stream.
pub data WsEffect : Type 0 where
  close_remote : WsEffect
  answer_unavailable : WsEffect
  wrote_upgrade : (local : ℕ) → Request → WsEffect
  close_local : (local : ℕ) → WsEffect
  copied : (local : ℕ) → Bytes → WsEffect
  joined : (local : ℕ) → WsEffect

abbrev dial_target : WsIo → Result TargetError (Bytes × Bool) → Option ℕ
dial_target io (err e) = none
dial_target io (ok (addr, use_tls)) = io.dial addr use_tls

-- From the written request on.
unfoldable pub forward_upgrade : WsIo → (local : ℕ) → List WsEffect
forward_upgrade io local =
    if is_empty io.buffered
    then joined local ∷ []
    else if io.copy_buffered
    then copied local io.buffered ∷ joined local ∷ []
    else close_local local ∷ []

abbrev pub upgrade_request :
    (parse : Bytes → Option Url) → (target : Bytes) → Map Bytes → Request → Request
upgrade_request parse target headers r =
    apply_custom_headers headers (record r { host = host_header_for parse target r.host })

abbrev upgrade_over : WsIo → Request → Option ℕ → List WsEffect
upgrade_over io r none = answer_unavailable ∷ []
upgrade_over io r (some local) =
    if io.write_request
    then wrote_upgrade local r ∷ forward_upgrade io local
    else close_local local ∷ answer_unavailable ∷ []

unfoldable pub ws_proxy :
    (parse : Bytes → Option Url)
    → (target : Bytes) → Map Bytes
    → WsIo
    → ControlMessage
    → List WsEffect
unfolding target_address host_header_for forward_upgrade
ws_proxy parse target headers io msg =
    if not (nat_eq msg.protocol Proto.ws) then close_remote ∷ [] else elim io.read_request [
      | none ↦ answer_unavailable ∷ []
      | some r ↦
          upgrade_over io (upgrade_request parse target headers r)
            (dial_target io (target_address parse target))
    ]
