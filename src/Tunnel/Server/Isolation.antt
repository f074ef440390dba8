-- ===== src/Tunnel/Server/Isolation.antt =====
-- What a public request can do to the server's tables: it can lose a broken control, and no more.
use mylittleproxy.Base.{
  ℕ, Bytes, ◌≡◌, refl, Option, none, some, Result-cases, Option-cases, Bool-cases, inl, inr,
  is_empty, arith, lookup, lookup-delete, List,
}
use mylittleproxy.Proto
use mylittleproxy.Std.Text.{to_lower}
use mylittleproxy.Tunnel.Regexp.{Regexp}
use mylittleproxy.Tunnel.Errors.{Error}
use mylittleproxy.Tunnel.Server.{Server, Effect, emit, get_session, delete_control, close_control}
use mylittleproxy.Tunnel.Server.Connect.{Request}
use mylittleproxy.Tunnel.Server.Handshake.{Accept}
use mylittleproxy.Tunnel.Server.Dial.{DialIo, dial, request_stream, finish_dial}
use mylittleproxy.Tunnel.Server.Exchange.{
  Writer, PublicIo, upgrade_on, handle_ws_conn, exchange, fresh,
}
use mylittleproxy.Tunnel.Server.Public.{
  tunnel_request, rewrite_request, find_identifier, handle_http, public_handler, is_websocket_conn,
  with_bad_gateway,
}

-- Nothing is registered: sessions, hosts, states, callbacks and settings are the same, and each
-- control that is found was found before.
pub record RegistersNothing {R : Type 0} (s t : Server R) : Type 0 where
  pub same_settings : t.settings ≡ s.settings
  pub same_sessions : t.sessions ≡ s.sessions
  pub same_hosts : t.virtual_hosts ≡ s.virtual_hosts
  pub same_states : t.states ≡ s.states
  pub same_on_connect : t.on_connect_callbacks ≡ s.on_connect_callbacks
  pub same_on_disconnect : t.on_disconnect_callbacks ≡ s.on_disconnect_callbacks
  pub old_controls :
      (id : Bytes) (p : ℕ) → lookup id t.controls ≡ some p → lookup id s.controls ≡ some p

module _ {R : Type 0} where
  RegistersNothing-refl : (s : Server R) → RegistersNothing s s
  RegistersNothing-refl s = record {
    same_settings = refl;
    same_sessions = refl;
    same_hosts = refl;
    same_states = refl;
    same_on_connect = refl;
    same_on_disconnect = refl;
    old_controls = λ id p e. e;
  }

  finish_dial-RegistersNothing :
      (a : Accept) (ct : ℕ) (id : Bytes) (e : Option Error) (s t : Server R)
      → RegistersNothing s t
      → RegistersNothing s (finish_dial a ct id e t).1
  unfolding delete_control close_control
  finish_dial-RegistersNothing a ct id none s t v = v
  finish_dial-RegistersNothing a ct id (some e) s t v = record {
    same_settings = v.same_settings;
    same_sessions = v.same_sessions;
    same_hosts = v.same_hosts;
    same_states = v.same_states;
    same_on_connect = v.same_on_connect;
    same_on_disconnect = v.same_on_disconnect;
    old_controls = λ j p f. v.old_controls j p (ground (arith, lookup-delete id j t.controls));
  }

  dial-RegistersNothing :
      (d : DialIo) (id : Bytes) (protocol port : ℕ) (s : Server R)
      → RegistersNothing s (dial d id protocol port s).1
  unfolding dial request_stream
  dial-RegistersNothing d id protocol port s = elim (Option-cases (lookup id s.controls)) [
    | inl n ↦ rw (n, dial) (RegistersNothing-refl s)
    | inr (ct, l) ↦ elim (Result-cases (get_session id s)) [
      | inr (e, m) ↦ rw (l, m, dial) (RegistersNothing-refl s)
      | inl (session, m) ↦
          rw (l, m, dial)
            (finish_dial-RegistersNothing d.accept ct id _ s _ (record {
              same_settings = refl;
              same_sessions = refl;
              same_hosts = refl;
              same_states = refl;
              same_on_connect = refl;
              same_on_disconnect = refl;
              old_controls = λ j p e. e;
            }))
    ]
  ]

  emit-RegistersNothing :
      (es : List Effect) (s t : Server R) → RegistersNothing s t → RegistersNothing s (emit es t)
  emit-RegistersNothing es s t v = record {
    same_settings = v.same_settings;
    same_sessions = v.same_sessions;
    same_hosts = v.same_hosts;
    same_states = v.same_states;
    same_on_connect = v.same_on_connect;
    same_on_disconnect = v.same_on_disconnect;
    old_controls = v.old_controls;
  }

  upgrade_on-RegistersNothing :
      (p : PublicIo) (r : Request) (conn : ℕ) (id : Bytes) (port : ℕ) (s : Server R)
      → RegistersNothing s (upgrade_on p r conn id port s).1
  unfolding upgrade_on
  upgrade_on-RegistersNothing p r conn id port s =
      let d = dial-RegistersNothing p.dial id Proto.ws port s in
      elim (Result-cases (dial p.dial id Proto.ws port s).0) [
        | inr (e, f) ↦ rw (f, upgrade_on) d
        | inl (stream, f) ↦ rw (f, upgrade_on) (emit-RegistersNothing _ s _ d)
      ]

  handle_ws_conn-RegistersNothing :
      (p : PublicIo) (r : Request) (id : Bytes) (port : ℕ) (w : Writer) (s : Server R)
      → RegistersNothing s (handle_ws_conn p r id port w s).2
  unfolding handle_ws_conn
  handle_ws_conn-RegistersNothing p r id port w s = elim (Bool-cases p.is_hijacker) [
    | inr n ↦ rw (n, handle_ws_conn) (RegistersNothing-refl s)
    | inl y ↦ elim (Result-cases p.hijack) [
      | inr (e, k) ↦ rw (y, k, handle_ws_conn) (RegistersNothing-refl s)
      | inl (conn, k) ↦ rw (y, k, handle_ws_conn) (upgrade_on-RegistersNothing p r conn id port s)
    ]
  ]

  exchange-RegistersNothing :
      (p : PublicIo) (r : Request) (stream : ℕ) (w : Writer) (s t : Server R)
      → RegistersNothing s t
      → RegistersNothing s (exchange p r stream w t).2
  unfolding exchange
  exchange-RegistersNothing p r stream w s t v = elim (Option-cases p.write_request) [
    | inr (e, k) ↦ rw (k, exchange) (emit-RegistersNothing _ s t v)
    | inl k ↦ elim (Result-cases p.read_response) [
      | inr (e, m) ↦ rw (k, m, exchange) (emit-RegistersNothing _ s t v)
      | inl (resp, m) ↦ rw (k, m, exchange) (emit-RegistersNothing _ s t v)
    ]
  ]

  tunnel_request-RegistersNothing :
      (p : PublicIo) (r : Request) (id : Bytes) (w : Writer) (s : Server R)
      → RegistersNothing s (tunnel_request p r id w s).2
  unfolding tunnel_request
  tunnel_request-RegistersNothing p r id w s = elim (Bool-cases (is_websocket_conn r)) [
    | inl y ↦ rw (y, tunnel_request) (handle_ws_conn-RegistersNothing p r id 0 w s)
    | inr n ↦
        let d = dial-RegistersNothing p.dial id Proto.http 0 s in
        elim (Result-cases (dial p.dial id Proto.http 0 s).0) [
          | inr (e, f) ↦ rw (n, f, tunnel_request) d
          | inl (stream, f) ↦
              rw (n, f, tunnel_request) (exchange-RegistersNothing p r stream w s _ d)
        ]
  ]

module _ (re : Regexp) where
  open re use {Regex}

  handle_http-RegistersNothing :
      (p : PublicIo) (r : Request) (w : Writer) (s : Server Regex)
      → RegistersNothing s (handle_http re p r w s).2
  unfolding handle_http
  handle_http-RegistersNothing p r w s = elim (Bool-cases (is_empty (to_lower r.host))) [
    | inl y ↦ rw (y, handle_http) (RegistersNothing-refl s)
    | inr n ↦ elim (Option-cases (find_identifier (to_lower r.host) s.virtual_hosts)) [
      | inl f ↦ rw (n, f, handle_http) (RegistersNothing-refl s)
      | inr (id, f) ↦ elim (Option-cases (rewrite_request re r id s.virtual_hosts)) [
        | inl g ↦ rw (n, f, g, handle_http) (RegistersNothing-refl s)
        | inr (r', g) ↦ rw (n, f, g, handle_http) (tunnel_request-RegistersNothing p r' id w s)
      ]
    ]
  ]

  with_bad_gateway-RegistersNothing :
      (s : Server Regex) (t : Option Error × Writer × Server Regex)
      → RegistersNothing s t.2
      → RegistersNothing s (with_bad_gateway re t).1
  with_bad_gateway-RegistersNothing s (none, w, u) v = v
  with_bad_gateway-RegistersNothing s (some e, w, u) v = v

  -- Whatever a request on the public handler is, a control request too, and whatever the calls that
  -- it makes return, it registers nothing: the sessions, the hosts, the states, the callbacks and
  -- the settings stay as they were, and every control that is there afterwards was there before.
  pub public_handler-RegistersNothing :
      (director : Option (Request → Request)) (p : PublicIo) (r : Request) (s : Server Regex)
      → RegistersNothing s (public_handler re director p r s).1
  unfolding public_handler
  public_handler-RegistersNothing director p r s =
      with_bad_gateway-RegistersNothing s _ (handle_http-RegistersNothing p _ fresh s)
