-- ===== src/Tunnel/Server/Public.antt =====
-- The public side of tunnel/server.go: `handleHTTP`, `rewriteRequest`, and the handlers
-- `PublicHandler`, `ControlHandler` and `ServeHTTP`.
use mylittleproxy.Tunnel.Server.Exchange.{
  Writer, fresh, write_error, PublicIo, handle_ws_conn, exchange,
}
use mylittleproxy.Base.{
  ℕ, Bytes, bytes, Bool, true, not, ◌&&◌, Option, none, some, List, [], ◌∷◌, any, ok, err, lookup,
  is_empty, if◌then◌else◌, ◌==◌,
}
use mylittleproxy.Proto
use mylittleproxy.Proto.{ConnectionConfig}
use mylittleproxy.Std.Text.{to_lower, equal_fold, split, trim_space}
use mylittleproxy.Std.Net.{split_host_port, parse_uint16}
use mylittleproxy.Std.Path.{clean}
use mylittleproxy.Tunnel.Regexp.{Regexp}
use mylittleproxy.Tunnel.Errors.{Error, host_is_empty, no_virtual_host, no_rewrite_rule}
use mylittleproxy.Tunnel.VirtualHosts.{
  HttpRewriteRule, VirtualHosts, get_identifier, get_virtual_host,
}
use mylittleproxy.Tunnel.Server.{Server}
use mylittleproxy.Tunnel.Server.Handshake.{Sign, HandshakeIo}
use mylittleproxy.Tunnel.Server.Connect.{
  Request, text, message, Reply, http_error, taken_over, check_connect,
}
use mylittleproxy.Tunnel.Server.Dial.{dial}

-- The host without its port; empty, beside an error, where the address has no such form.
unfoldable pub parse_host_port : Bytes → Option (Bytes × ℕ)
parse_host_port addr = elim (split_host_port addr) [
  | none ↦ none
  | some (host, port) ↦ elim (parse_uint16 port) [ none ↦ none | some n ↦ some (host, n) ]
]

abbrev pub host_of : Option (Bytes × ℕ) → Bytes
host_of none = []
host_of (some (host, port)) = host

-- `strings.EqualFold(strings.TrimSpace(v), value)` for an element of a header line.
unfoldable pub header_contains : List Bytes → Bytes → Bool
header_contains header value =
    any (λ h. any (λ v. equal_fold (trim_space v) value) (split b',' h)) header

abbrev lines_of : Option (List Bytes) → List Bytes
lines_of none = []
lines_of (some v) = v

unfoldable pub is_websocket_conn : Request → Bool
unfolding header_contains
is_websocket_conn r =
    r.method == bytes "GET"
    && header_contains (lines_of (lookup (bytes "Connection") r.header)) (bytes "upgrade")
    && header_contains (lines_of (lookup (bytes "Upgrade") r.header)) (bytes "websocket")

module _ {R : Type 0} where
  -- The identifier that a request is routed to: by the host with its port, else by the host alone.
  unfoldable pub find_identifier : Bytes → VirtualHosts R → Option Bytes
  unfolding parse_host_port
  find_identifier host_port v = elim (get_identifier host_port v) [
    | some identifier ↦ some identifier
    | none ↦ get_identifier (host_of (parse_host_port host_port)) v
  ]

  -- `handleHTTP` from the rewritten request on.
  unfoldable pub tunnel_request :
      PublicIo → Request → Bytes → Writer → Server R → Option Error × Writer × Server R
  unfolding is_websocket_conn handle_ws_conn exchange
  tunnel_request p r identifier w s =
      if is_websocket_conn r
      then handle_ws_conn p r identifier 0 w s
      else let d = dial p.dial identifier Proto.http 0 s in
        elim d.0 [ err e ↦ (some e, w, d.1) | ok stream ↦ exchange p r stream w d.1 ]

module _ (re : Regexp) where
  open re use {Regex, match_string, replace_all_string}

  -- The path after the first rule that matches.
  unfoldable pub rewrite_path : List (HttpRewriteRule Regex) → Bytes → Option Bytes
  rewrite_path [] path = none
  rewrite_path (rule ∷ rules) path =
      let rest = rewrite_path rules path in
      if match_string rule.re path
      then some (replace_all_string rule.re path rule.replacement)
      else rest

  abbrev rewritten : Request → Option Bytes → Option Request
  rewritten r none = none
  rewritten r (some path) = some (record r { host = []; path = path })

  -- The request for the client, without a host; `none` where the code returns false.
  unfoldable pub rewrite_request : Request → Bytes → VirtualHosts Regex → Option Request
  unfolding rewrite_path
  rewrite_request r identifier v = elim (get_virtual_host identifier v) [
    | none ↦ none
    | some (vh, host) ↦ rewritten r (rewrite_path vh.rewrite r.path)
  ]

  unfoldable pub handle_http :
      PublicIo → Request → Writer → Server Regex → Option Error × Writer × Server Regex
  unfolding find_identifier rewrite_request tunnel_request
  handle_http p r w s =
      if is_empty (to_lower r.host)
      then (some host_is_empty, w, s)
      else elim (find_identifier (to_lower r.host) s.virtual_hosts) [
        | none ↦ (some (no_virtual_host (to_lower r.host)), w, s)
        | some identifier ↦ elim (rewrite_request r identifier s.virtual_hosts) [
          | none ↦ (some no_rewrite_rule, write_error 403 (text (bytes "403 Forbidden")) w, s)
          | some r' ↦ tunnel_request p r' identifier w s
        ]
      ]

  abbrev pub with_bad_gateway : Option Error × Writer × Server Regex → Writer × Server Regex
  with_bad_gateway (none, w, s) = (w, s)
  with_bad_gateway (some e, w, s) = (write_error 502 (message e) w, s)

  -- `PublicHandler`; the director, if there is one, runs on the request first.
  unfoldable pub public_handler :
      Option (Request → Request) → PublicIo → Request → Server Regex → Writer × Server Regex
  unfolding handle_http
  public_handler director p r s =
      with_bad_gateway (handle_http p (elim director [ none ↦ r | some d ↦ d r ]) fresh s)

  unfoldable pub is_control_request : Request → Server Regex → Bool
  is_control_request r s = clean r.path == s.settings.control_path

  abbrev pub of_reply : Reply → Writer
  of_reply (http_error code b) = write_error code b fresh
  of_reply taken_over = record fresh { hijacked = true }

  module _ (sign : Sign) (decode : Bytes → Option ConnectionConfig) where
    abbrev control_reply : HandshakeIo → Request → Server Regex → Writer × Server Regex
    control_reply h r s = let c = check_connect re sign decode h r s in (of_reply c.0, c.1)

    unfoldable pub control_listener : HandshakeIo → Request → Server Regex → Writer × Server Regex
    unfolding is_control_request
    control_listener h r s =
        if not (is_control_request r s)
        then (write_error 404 (text (bytes "404 page not found")) fresh, s)
        else control_reply h r s

    unfoldable pub serve_http :
        Option (Request → Request)
        → HandshakeIo
        → PublicIo
        → Request
        → Server Regex
        → Writer × Server Regex
    unfolding is_control_request public_handler
    serve_http director h p r s =
        if is_control_request r s then control_reply h r s else public_handler director p r s
