-- ===== src/Tunnel/Server/Routing.antt =====
-- Where `handleHTTP` sends a public request: which client, and on which path.
use mylittleproxy.Proto
use mylittleproxy.Base.{
  err, ap, ◌∙◌, Result, ℕ, bytes, true, ◌∷◌, ok, Bytes, ◌≡◌, refl, false, none, some, [], lookup,
  is_empty,
}
use mylittleproxy.Std.Text.{to_lower}
use mylittleproxy.Tunnel.Regexp.{Regexp}
use mylittleproxy.Tunnel.Errors.{Error, no_virtual_host, no_rewrite_rule, no_client_session}
use mylittleproxy.Tunnel.VirtualHosts.{VirtualHost, VirtualHosts, get_identifier}
use mylittleproxy.Tunnel.VirtualHosts.Find.{IsWellFormed, get_virtual_host_of_lookup}
use mylittleproxy.Tunnel.Server.{Server}
use mylittleproxy.Tunnel.Server.Connect.{Request, message, text}
use mylittleproxy.Tunnel.Server.Exchange.{
  Writer, fresh, write_error, PublicIo, handle_ws_conn, upgrade_on,
}
use mylittleproxy.Tunnel.Server.Dial.{dial}
use mylittleproxy.Tunnel.Server.Public.{
  host_of, parse_host_port, find_identifier, rewrite_path, rewrite_request, tunnel_request,
  handle_http, public_handler, is_websocket_conn,
}

module _ {R : Type 0} where
  -- The entry that serves an address: at the address with its port, or else at the host alone.
  pub data Serves (address : Bytes) (v : VirtualHosts R) : Bytes → VirtualHost R → Type 0 where
    at_address : (x : VirtualHost R) → lookup address v ≡ some x → Serves address v address x
    at_host :
        (x : VirtualHost R)
        → lookup address v ≡ none
        → lookup (host_of (parse_host_port address)) v ≡ some x
        → Serves address v (host_of (parse_host_port address)) x

  find_identifier-Serves :
      (address host : Bytes) (x : VirtualHost R) (v : VirtualHosts R)
      → Serves address v host x
      → (find_identifier address v ≡ some x.identifier) × (lookup host v ≡ some x)
  unfolding find_identifier get_identifier
  find_identifier-Serves address host x v (at_address _ l) =
      (rw (l, find_identifier, get_identifier), l)
  find_identifier-Serves address host x v (at_host _ n l) =
      (rw (n, l, find_identifier, get_identifier), l)

module _ (re : Regexp) where
  open re use {Regex}

  -- A public request with a host, whose address an entry of a well-formed table serves, goes to the
  -- client of that entry, without a host and on the path that the entry's first matching rule
  -- makes.
  pub handle_http-Serves :
      (p : PublicIo) (r : Request) (w : Writer) (s : Server Regex) (host path : Bytes)
      (x : VirtualHost Regex)
      → IsWellFormed s.virtual_hosts
      → is_empty (to_lower r.host) ≡ false
      → Serves (to_lower r.host) s.virtual_hosts host x
      → rewrite_path re x.rewrite r.path ≡ some path
      → handle_http re p r w s
        ≡ tunnel_request p (record r { host = []; path = path }) x.identifier w s
  unfolding handle_http rewrite_request
  handle_http-Serves p r w s host path x v has serves rewritten =
      let (found, l) = find_identifier-Serves (to_lower r.host) host x s.virtual_hosts serves in
      let entry = get_virtual_host_of_lookup x.identifier host x s.virtual_hosts v l refl in
      rw (has, found, handle_http) (rw (entry, rewritten))

  -- A public request with a host that no entry serves, neither at the address nor at the host
  -- alone, is answered 502 and leaves the server as it was, without a director.
  pub public_handler_unserved :
      (p : PublicIo) (r : Request) (s : Server Regex)
      → is_empty (to_lower r.host) ≡ false
      → lookup (to_lower r.host) s.virtual_hosts ≡ none
      → lookup (host_of (parse_host_port (to_lower r.host))) s.virtual_hosts ≡ none
      → public_handler re none p r s
        ≡ (write_error 502 (message (no_virtual_host (to_lower r.host))) fresh, s)
  unfolding public_handler handle_http find_identifier get_identifier
  public_handler_unserved p r s has a b = rw (has, a, b, handle_http)

  -- A public request whose address an entry serves, and whose path no rule of the entry matches, is
  -- answered 403, and a second text follows the first in the same body; the server is as it was,
  -- without a director.
  pub public_handler_unmatched :
      (p : PublicIo) (r : Request) (s : Server Regex) (host : Bytes) (x : VirtualHost Regex)
      → IsWellFormed s.virtual_hosts
      → is_empty (to_lower r.host) ≡ false
      → Serves (to_lower r.host) s.virtual_hosts host x
      → rewrite_path re x.rewrite r.path ≡ none
      → public_handler re none p r s ≡ (
        record fresh {
          status = some 403;
          body = text (bytes "403 Forbidden") ∷ message no_rewrite_rule ∷ [];
        },
        s,
      )
  unfolding public_handler handle_http rewrite_request
  public_handler_unmatched p r s host x v has serves unmatched =
      let (found, l) = find_identifier-Serves (to_lower r.host) host x s.virtual_hosts serves in
      let entry = get_virtual_host_of_lookup x.identifier host x s.virtual_hosts v l refl in
      rw (has, found, handle_http) (rw (entry, unmatched) refl)

  dial_free :
      (p : PublicIo) (port : ℕ) (identifier : Bytes) (s : Server Regex)
      → lookup identifier s.controls ≡ none
      → dial p.dial identifier Proto.ws port s ≡ (err no_client_session, s)
  unfolding dial
  dial_free p port identifier s l = rw (l, dial)

  upgrade_on_free :
      (p : PublicIo) (r : Request) (conn port : ℕ) (identifier : Bytes) (s : Server Regex)
      → lookup identifier s.controls ≡ none
      → upgrade_on p r conn identifier port s ≡ (some no_client_session, s)
  unfolding upgrade_on
  upgrade_on_free p r conn port identifier s l =
      let d = dial_free p port identifier s l in
      rw (d, upgrade_on)
        (ap (λ (x : Result Error ℕ × Server Regex). (some no_client_session, x.1)) d)

  handle_ws_conn_free :
      (p : PublicIo) (r : Request) (identifier : Bytes) (port conn : ℕ) (w : Writer)
      (s : Server Regex)
      → p.is_hijacker ≡ true
      → p.hijack ≡ ok conn
      → lookup identifier s.controls ≡ none
      → handle_ws_conn p r identifier port w s
        ≡ (some no_client_session, record w { hijacked = true }, s)
  unfolding handle_ws_conn
  handle_ws_conn_free p r identifier port conn w s a b l =
      rw (a, b, handle_ws_conn) (rw (upgrade_on_free p r conn port identifier s l) refl)

  -- A websocket request that an entry of a well-formed table serves, on a path that one of its rules
  -- makes, for a client that has no control connection: the public connection is taken over, and then
  -- nothing is written to it, not the 502 that follows either, and it is not closed; the server stays
  -- as it was. There is no director.
  pub public_handler_unanswered :
      (p : PublicIo) (r : Request) (s : Server Regex) (host path : Bytes) (x : VirtualHost Regex)
      (conn : ℕ)
      → IsWellFormed s.virtual_hosts
      → is_empty (to_lower r.host) ≡ false
      → Serves (to_lower r.host) s.virtual_hosts host x
      → rewrite_path re x.rewrite r.path ≡ some path
      → is_websocket_conn r ≡ true
      → p.is_hijacker ≡ true
      → p.hijack ≡ ok conn
      → lookup x.identifier s.controls ≡ none
      → let (w, t) = public_handler re none p r s in
        (w.hijacked ≡ true) × (w.status ≡ none) × (w.header ≡ []) × (w.body ≡ []) × (t ≡ s)
  unfolding public_handler tunnel_request is_websocket_conn
  public_handler_unanswered p r s host path x conn v has serves rewritten ws a b free =
      let r' = record r { host = []; path = path } in
      let upgrades : is_websocket_conn r' ≡ true = ws in
      let failed : tunnel_request p r' x.identifier fresh s
          ≡ (some no_client_session, record fresh { hijacked = true }, s) =
        rw (upgrades, tunnel_request)
          (handle_ws_conn_free p r' x.identifier 0 conn fresh s a b free) in
      rw (handle_http-Serves p r fresh s host path x v has serves rewritten ∙ failed)
        (refl, refl, refl, refl, refl)
