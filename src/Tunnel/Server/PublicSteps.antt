-- ===== src/Tunnel/Server/PublicSteps.antt =====
-- A public request keeps the server consistent.
use mylittleproxy.Base.{
  ℕ, Bytes, Option, none, some, Result-cases, Option-cases, Bool-cases, inl, inr, is_empty,
}
use mylittleproxy.Proto
use mylittleproxy.Proto.{ConnectionConfig}
use mylittleproxy.Std.Text.{to_lower}
use mylittleproxy.Tunnel.Regexp.{Regexp}
use mylittleproxy.Tunnel.Errors.{Error}
use mylittleproxy.Tunnel.Server.{Server}
use mylittleproxy.Tunnel.Server.Connect.{Request}
use mylittleproxy.Tunnel.Server.Dial.{dial}
use mylittleproxy.Tunnel.Server.Exchange.{
  Writer, PublicIo, upgrade_on, handle_ws_conn, exchange, fresh,
}
use mylittleproxy.Tunnel.Server.Public.{
  tunnel_request, rewrite_request, find_identifier, handle_http, public_handler, is_websocket_conn,
  with_bad_gateway,
}
use mylittleproxy.Tunnel.Server.Invariant.{IsConsistent, emit-IsConsistent}
use mylittleproxy.Tunnel.Server.Steps.{dial-IsConsistent}

module _ {R : Type 0} where
  pub upgrade_on-IsConsistent :
      (p : PublicIo) (r : Request) (conn : ℕ) (id : Bytes) (port : ℕ) (s : Server R)
      → IsConsistent s
      → IsConsistent (upgrade_on p r conn id port s).1
  unfolding upgrade_on
  upgrade_on-IsConsistent p r conn id port s v =
      let d = dial-IsConsistent p.dial id Proto.ws port s v in
      elim (Result-cases (dial p.dial id Proto.ws port s).0) [
        | inr (e, f) ↦ rw (f, upgrade_on) d
        | inl (stream, f) ↦ rw (f, upgrade_on) (emit-IsConsistent _ _ d)
      ]

  pub handle_ws_conn-IsConsistent :
      (p : PublicIo) (r : Request) (id : Bytes) (port : ℕ) (w : Writer) (s : Server R)
      → IsConsistent s
      → IsConsistent (handle_ws_conn p r id port w s).2
  unfolding handle_ws_conn
  handle_ws_conn-IsConsistent p r id port w s v = elim (Bool-cases p.is_hijacker) [
    | inr n ↦ rw (n, handle_ws_conn) v
    | inl y ↦ elim (Result-cases p.hijack) [
      | inr (e, k) ↦ rw (y, k, handle_ws_conn) v
      | inl (conn, k) ↦ rw (y, k, handle_ws_conn) (upgrade_on-IsConsistent p r conn id port s v)
    ]
  ]

  pub exchange-IsConsistent :
      (p : PublicIo) (r : Request) (stream : ℕ) (w : Writer) (s : Server R)
      → IsConsistent s
      → IsConsistent (exchange p r stream w s).2
  unfolding exchange
  exchange-IsConsistent p r stream w s v = elim (Option-cases p.write_request) [
    | inr (e, k) ↦ rw (k, exchange) (emit-IsConsistent _ s v)
    | inl k ↦ elim (Result-cases p.read_response) [
      | inr (e, m) ↦ rw (k, m, exchange) (emit-IsConsistent _ s v)
      | inl (resp, m) ↦ rw (k, m, exchange) (emit-IsConsistent _ s v)
    ]
  ]

  pub tunnel_request-IsConsistent :
      (p : PublicIo) (r : Request) (id : Bytes) (w : Writer) (s : Server R)
      → IsConsistent s
      → IsConsistent (tunnel_request p r id w s).2
  unfolding tunnel_request
  tunnel_request-IsConsistent p r id w s v = elim (Bool-cases (is_websocket_conn r)) [
    | inl y ↦ rw (y, tunnel_request) (handle_ws_conn-IsConsistent p r id 0 w s v)
    | inr n ↦
        let d = dial-IsConsistent p.dial id Proto.http 0 s v in
        elim (Result-cases (dial p.dial id Proto.http 0 s).0) [
          | inr (e, f) ↦ rw (n, f, tunnel_request) d
          | inl (stream, f) ↦ rw (n, f, tunnel_request) (exchange-IsConsistent p r stream w _ d)
        ]
  ]

module _ (re : Regexp) where
  open re use {Regex}

  pub handle_http-IsConsistent :
      (p : PublicIo) (r : Request) (w : Writer) (s : Server Regex)
      → IsConsistent s
      → IsConsistent (handle_http re p r w s).2
  unfolding handle_http
  handle_http-IsConsistent p r w s v = elim (Bool-cases (is_empty (to_lower r.host))) [
    | inl y ↦ rw (y, handle_http) v
    | inr n ↦ elim (Option-cases (find_identifier (to_lower r.host) s.virtual_hosts)) [
      | inl f ↦ rw (n, f, handle_http) v
      | inr (id, f) ↦ elim (Option-cases (rewrite_request re r id s.virtual_hosts)) [
        | inl g ↦ rw (n, f, g, handle_http) v
        | inr (r', g) ↦ rw (n, f, g, handle_http) (tunnel_request-IsConsistent p r' id w s v)
      ]
    ]
  ]

  pub with_bad_gateway-IsConsistent :
      (t : Option Error × Writer × Server Regex)
      → IsConsistent t.2
      → IsConsistent (with_bad_gateway re t).1
  with_bad_gateway-IsConsistent (none, w, s) v = v
  with_bad_gateway-IsConsistent (some e, w, s) v = v

  pub public_handler-IsConsistent :
      (director : Option (Request → Request)) (p : PublicIo) (r : Request) (s : Server Regex)
      → IsConsistent s
      → IsConsistent (public_handler re director p r s).1
  unfolding public_handler
  public_handler-IsConsistent director p r s v =
      with_bad_gateway-IsConsistent _ (handle_http-IsConsistent p _ fresh s v)
