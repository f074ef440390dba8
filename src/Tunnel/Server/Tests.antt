-- ===== src/Tunnel/Server/Tests.antt =====
-- The server on small inputs: one client, which connects, connects again, and fails to.
use mylittleproxy.Base.{
  ℕ, Bytes, bytes, ◌≡◌, refl, ◌≢◌, ◌↔◌, ◌⊎◌, inl, inr, false, none, some, List, [], ◌∷◌, ◌++◌, map,
  lookup, insert, ok, get_elem?, IsIn, ◌==◌, arith,
}
use mylittleproxy.Proto.{handshake_response, client_identifier_header, client_identifier_signature}
use mylittleproxy.Tunnel.Errors.{io, control_exists, after_hijack, session_timeout}
use mylittleproxy.Tunnel.Controls.{Control, identify, new_control, mark_closed}
use mylittleproxy.Tunnel.VirtualHosts.{
  HttpRewriteRule, VirtualHosts, add_host, get_host, release_others,
}
use mylittleproxy.Tunnel.Server.{write, Server, close_conn, run_callback, add_session, add_control}
use mylittleproxy.Tunnel.Server.Handshake.{
  HandshakeIo, status_line, timed_out, open_control_stream, listen_fail, control_handler,
}
use mylittleproxy.Tunnel.Server.Connect.{
  http_error, taken_over, message, check_connect, header_get, admit, conclude,
}
use mylittleproxy.Tunnel.Server.Public.{control_listener}
use mylittleproxy.Tunnel.Server.Samples.{
  literal, alice, domain, sign, rules, config, decode, settings, knock, smooth, empty_server, hosts,
}
use mylittleproxy.Tunnel.Server.Invariant.{
  IsConsistent, add_control-IsConsistent, add_session-IsConsistent,
}
use mylittleproxy.Tunnel.VirtualHosts.Find.{IsWellFormed}
use mylittleproxy.Tunnel.VirtualHosts.AddHost.{add_host-IsWellFormed}
use mylittleproxy.Tunnel.Server.Admission.{IsAdmitted, admit_iff}
use mylittleproxy.Tunnel.Server.Release.{IsGone, IsUntouched, listen_fail_stale}
use mylittleproxy.Tunnel.Server.Conclude.{Succeeds}
use mylittleproxy.Tunnel.Server.Outcomes.{check_connect_cases, IsClientError}
use mylittleproxy.Tunnel.Server.Sequels.{
  check_connect_again, check_connect_connects, check_connect_aborts, check_connect_unwritten,
}
use mylittleproxy.Tunnel.Server.Reach.{Reach, here, next, controls, Reach-IsConsistent}

abbrev stalled : HandshakeIo
stalled = record smooth { accept = timed_out }

abbrev unwritable : HandshakeIo
unwritable = record smooth { write_connected = some (io (bytes "reset")) }

-- The server with Alice connected, and with Alice connected over the second of two controls.
abbrev connected_once : Server Bytes
connected_once = (control_listener literal sign decode smooth knock empty_server).1

abbrev empty_reached : Reach literal sign decode empty_server empty_server
empty_reached = here

empty-IsConsistent : IsConsistent empty_server
empty-IsConsistent = Reach-IsConsistent literal sign decode settings none empty_reached

Reach-IsConsistent_example : IsConsistent connected_once
Reach-IsConsistent_example =
    Reach-IsConsistent literal sign decode settings none (next here (controls smooth knock))

knock-IsAdmitted : IsAdmitted literal sign decode settings knock domain rules
unfolding header_get lookup ◌==◌
knock-IsAdmitted = record {
  method = refl;
  allowed = inr (inl refl);
  signed = refl;
  config = config;
  decoded = refl;
  named = refl;
  host_allowed = inl refl;
  converted = (refl, refl, tt);
}

domain_added : add_host domain (header_get client_identifier_header knock) rules [] ≡ ok hosts
unfolding add_host release_others lookup insert ◌==◌ header_get
domain_added = refl

unknown : lookup (header_get client_identifier_header knock) empty_server.controls ≡ none
unfolding lookup
unknown = refl

pub hosts-IsWellFormed : IsWellFormed hosts
unfolding header_get lookup ◌==◌
hosts-IsWellFormed =
    add_host-IsWellFormed domain alice rules [] hosts empty-IsConsistent.hosts domain_added

-- The heap of a server on which an earlier control of Alice was closed.
abbrev pub earlier : Server Bytes
earlier = record empty_server {
  virtual_hosts = hosts;
  heap = mark_closed (identify alice (new_control 3)) ∷ [];
}

earlier-IsConsistent : IsConsistent earlier
unfolding lookup
earlier-IsConsistent = record {
  hosts = hosts-IsWellFormed;
  registered = λ id p e. absurd (cc);
  backed = λ id p e. absurd (cc);
}

-- Alice is connected, over the second control of the heap.
abbrev reconnected : Server Bytes
reconnected = add_control alice 5 (add_session alice (some 4) earlier)

reconnected-IsConsistent : IsConsistent reconnected
unfolding add_session lookup insert ◌==◌
reconnected-IsConsistent =
    add_control-IsConsistent alice 5 (add_session alice (some 4) earlier) (some 4) refl
      (add_session-IsConsistent alice (some 4) earlier earlier-IsConsistent)

reconnected_control : lookup alice reconnected.controls ≡ some 1
unfolding add_control add_session lookup insert ◌==◌
reconnected_control = refl

check_connect_cases_example :
    (IsClientError (check_connect literal sign decode stalled knock empty_server).0
      × ((check_connect literal sign decode stalled knock empty_server).1 ≡ empty_server)
      × ((d : Bytes) (rs : List (HttpRewriteRule Bytes)) (v : VirtualHosts Bytes)
          → IsAdmitted literal sign decode settings knock d rs
          → add_host d (header_get client_identifier_header knock) rs [] ≢ ok v))
    ⊎ ((d : Bytes) × (rs : List (HttpRewriteRule Bytes)) × (v : VirtualHosts Bytes) × IsAdmitted
          literal sign decode settings knock d rs
        × (add_host d (header_get client_identifier_header knock) rs [] ≡ ok v)
        × (check_connect literal sign decode stalled knock empty_server
            ≡ conclude (header_get client_identifier_header knock) (
                control_handler sign stalled
                  (header_get client_identifier_header knock)
                  (header_get client_identifier_signature knock)
                  (record empty_server { virtual_hosts = v }))))
check_connect_cases_example = check_connect_cases literal sign decode stalled knock empty_server

smooth-Succeeds : Succeeds smooth 1 2 3
smooth-Succeeds = record {
  can_hijack = refl;
  hijacks = refl;
  writes = refl;
  clears = refl;
  muxes = refl;
  accepts = refl;
  reads = refl;
  responds = refl;
}

check_connect_connects_example :
    let (reply, t) = check_connect literal sign decode smooth knock empty_server in
    (reply ≡ taken_over)
    × (lookup (header_get client_identifier_header knock) t.controls ≡ some 0)
    × (get_elem? t.heap 0
        ≡ some (identify (header_get client_identifier_header knock) (new_control 3)))
    × (lookup (header_get client_identifier_header knock) t.sessions ≡ some (some 2))
    × (get_host (header_get client_identifier_header knock) t.virtual_hosts ≡ some domain)
    × IsIn (write 1 status_line) t.effects
    × IsIn (write 3 handshake_response) t.effects
check_connect_connects_example =
    check_connect_connects literal sign decode smooth knock empty_server domain rules hosts 1 2 3
      empty-IsConsistent knock-IsAdmitted domain_added unknown smooth-Succeeds

-- The client never opens its control stream.
check_connect_aborts_example :
    let (reply, t) = check_connect literal sign decode stalled knock empty_server in
    (reply ≡ taken_over)
    × IsGone (header_get client_identifier_header knock) t
    × IsIn (close_conn 1) t.effects
unfolding open_control_stream
check_connect_aborts_example =
    check_connect_aborts literal sign decode stalled knock empty_server domain rules hosts 1 2 none
      (after_hijack session_timeout) empty-IsConsistent knock-IsAdmitted domain_added unknown refl
      refl refl refl refl refl

check_connect_unwritten_example :
    let (reply, t) = check_connect literal sign decode unwritable knock empty_server in
    (reply ≡ taken_over)
    × ((ran : List ℕ) × (t.effects ≡ [] ++ map run_callback ran))
    × (get_host (header_get client_identifier_header knock) t.virtual_hosts ≡ some domain)
check_connect_unwritten_example =
    check_connect_unwritten literal sign decode unwritable knock empty_server domain rules hosts 1
      (io (bytes "reset")) empty-IsConsistent knock-IsAdmitted domain_added unknown refl refl refl

check_connect_again_example :
    ((check_connect literal sign decode smooth knock reconnected).0
      ≡ http_error 502 (message (control_exists (header_get client_identifier_header knock))))
    × IsGone
        (header_get client_identifier_header knock)
        (check_connect literal sign decode smooth knock reconnected).1
    × ((j : Bytes)
        → j ≢ header_get client_identifier_header knock
        → IsUntouched j reconnected (check_connect literal sign decode smooth knock reconnected).1)
unfolding add_control add_session lookup insert ◌==◌ header_get add_host release_others
check_connect_again_example =
    check_connect_again literal sign decode smooth knock reconnected domain rules hosts 1
      reconnected-IsConsistent knock-IsAdmitted refl reconnected_control

listen_fail_stale_example :
    IsGone alice (listen_fail 0 (io (bytes "EOF")) reconnected)
    × ((c : Control) × (get_elem? (listen_fail 0 (io (bytes "EOF")) reconnected).heap 1 ≡ some c)
        × (c.closed ≡ false))
    × ((j : Bytes)
        → j ≢ alice
        → IsUntouched j reconnected (listen_fail 0 (io (bytes "EOF")) reconnected))
unfolding add_control add_session
listen_fail_stale_example =
    listen_fail_stale 0 1 (io (bytes "EOF")) alice (mark_closed (identify alice (new_control 3)))
      reconnected reconnected-IsConsistent refl refl reconnected_control (λ e. ground arith)

admit_iff_example :
    (admit literal sign decode settings knock ≡ ok (domain, rules))
    ↔ IsAdmitted literal sign decode settings knock domain rules
admit_iff_example = admit_iff literal sign decode settings knock domain rules
