-- ===== src/Tunnel/Server/PublicTests.antt =====
-- Public requests on small inputs: Alice's host, with and without her control connection.
use mylittleproxy.Base.{
  Option, Bytes, bytes, ◌≡◌, refl, inl, true, none, some, [], ◌∷◌, lookup, ok, ◌==◌,
}
use mylittleproxy.Proto.{client_identifier_header, client_identifier_signature}
use mylittleproxy.Tunnel.Errors.{no_virtual_host}
use mylittleproxy.Tunnel.Controls.{identify, new_control}
use mylittleproxy.Tunnel.Server.{Server}
use mylittleproxy.Tunnel.Server.Handshake.{accepted}
use mylittleproxy.Tunnel.Server.Connect.{Request, message}
use mylittleproxy.Tunnel.Server.Public.{parse_host_port, rewrite_path, public_handler}
use mylittleproxy.Std.Text.{to_lower, equal_fold, split, trim_space, trim_left, trim_right}
use mylittleproxy.Std.Net.{split_host_port, cut_first, cut_last, parse_uint16}
use mylittleproxy.Tunnel.Server.Exchange.{PublicIo, fresh, write_error}
use mylittleproxy.Proto
use mylittleproxy.Tunnel.Server.Dial.{dial}
use mylittleproxy.Tunnel.Server.Exchange.{Response}
use mylittleproxy.Tunnel.Server.Public.{is_websocket_conn, header_contains}
use mylittleproxy.Tunnel.Proxies.Http.{Url, ProxyIo}
use mylittleproxy.Tunnel.Serving.{tunnelled}
use mylittleproxy.Tunnel.Server.Isolation.{RegistersNothing, public_handler-RegistersNothing}
use mylittleproxy.Tunnel.Server.Unreachable.{public_handler_unreachable}
use mylittleproxy.Tunnel.Server.Routing.{public_handler_unanswered, Serves, at_host}
use mylittleproxy.Tunnel.Server.Samples.{literal, alice, domain, rules, empty_server, hosts}
use mylittleproxy.Tunnel.Server.Tests.{earlier, hosts-IsWellFormed}

abbrev visit : Request
visit = record {
  host = bytes "A.org:80";
  method = bytes "GET";
  path = bytes "/";
  header = [];
  body = [];
}

abbrev page : Response
page = record {
  status = 200;
  header = (bytes "A", bytes "1" ∷ []) ∷ (bytes "B", bytes "2" ∷ []) ∷ [];
  body = bytes "hi";
}

-- The tunnel answers with a page.
abbrev answered : PublicIo
answered = record {
  is_hijacker = true;
  hijack = ok 6;
  dial = record { encode = none; accept = accepted 7 };
  write_request = none;
  read_response = ok page;
  write_upgrade = none;
  buffered = [];
  copy_buffered = none;
}

visit-Serves :
    Serves
      (to_lower visit.host)
      earlier.virtual_hosts
      domain
      (record { identifier = alice; rewrite = rules })
unfolding to_lower parse_host_port split_host_port cut_first cut_last parse_uint16 lookup ◌==◌
visit-Serves = at_host (record { identifier = alice; rewrite = rules }) refl refl

abbrev untidy : Request
untidy = record visit { path = bytes "/other" }

-- A websocket upgrade for Alice's host.
abbrev upgrade_visit : Request
upgrade_visit = record visit {
  method = bytes "GET";
  header =
      (bytes "Connection", bytes "Upgrade" ∷ []) ∷ (bytes "Upgrade", bytes "websocket" ∷ []) ∷ [];
}

public_handler_unanswered_example :
    let (w, t) = public_handler literal none answered upgrade_visit earlier in
    (w.hijacked ≡ true) × (w.status ≡ none) × (w.header ≡ []) × (w.body ≡ []) × (t ≡ earlier)
unfolding to_lower rewrite_path is_websocket_conn header_contains equal_fold split trim_space
    trim_left trim_right lookup ◌==◌
public_handler_unanswered_example =
    public_handler_unanswered literal answered upgrade_visit earlier domain (bytes "/")
      (record { identifier = alice; rewrite = rules }) 6 hosts-IsWellFormed refl visit-Serves refl
      refl refl refl refl

-- Alice's host with an upper-case letter, and a request for it as it is written.
abbrev unreachable : Server Bytes
unreachable = record earlier {
  virtual_hosts = (bytes "A.org", record { identifier = alice; rewrite = rules }) ∷ [];
}

abbrev exact : Request
exact = record visit { host = bytes "A.org" }

public_handler_unreachable_example :
    public_handler literal none answered exact unreachable
    ≡ (write_error 502 (message (no_virtual_host (to_lower exact.host))) fresh, unreachable)
public_handler_unreachable_example =
    public_handler_unreachable literal answered exact unreachable refl (inl (inl refl), tt)

public_handler-RegistersNothing_example :
    RegistersNothing earlier (public_handler literal none answered visit earlier).1
public_handler-RegistersNothing_example =
    public_handler-RegistersNothing literal none answered visit earlier

-- Alice is connected, by the control 0 and the session 2.
abbrev online : Server Bytes
online = record empty_server {
  virtual_hosts = hosts;
  sessions = (alice, some 2) ∷ [];
  controls = (alice, 0) ∷ [];
  heap = identify alice (new_control 3) ∷ [];
}

abbrev local_url : Url
local_url = record { scheme = bytes "http"; host = bytes "l.org" }

abbrev parse_local : Bytes → Option Url
parse_local s = some local_url

abbrev local_server : ProxyIo
local_server = record {
  read_request = some (tunnelled (bytes "/") visit);
  do_request = λ l. some page;
}
