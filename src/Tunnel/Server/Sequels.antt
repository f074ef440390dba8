-- ===== src/Tunnel/Server/Sequels.antt =====
-- What an admitted control request leaves behind: a connected client, or what its failure does.
use mylittleproxy.Base.{
  ℕ, Bytes, ◌≡◌, refl, ◌≢◌, ◌∙◌, true, Option, none, some, List, [], ◌∷◌, ◌++◌, map, length, eq_iff,
  lookup, lookup-insert_self, ok, err, get_elem?, IsIn, IsIn-append_left, IsIn-append_right, inl,
  ap,
}
use mylittleproxy.Proto.{
  ConnectionConfig, client_identifier_header, client_identifier_signature, handshake_response,
}
use mylittleproxy.Tunnel.Regexp.{Regexp}
use mylittleproxy.Tunnel.Errors.{Error, control_exists, after_hijack, writing_response}
use mylittleproxy.Tunnel.Controls.{identify, new_control}
use mylittleproxy.Tunnel.Controls.Heap.{get_elem?-append_new}
use mylittleproxy.Tunnel.VirtualHosts.{HttpRewriteRule, VirtualHosts, add_host, get_host}
use mylittleproxy.Tunnel.VirtualHosts.AddHost.{add_host_lem, add_host-IsWellFormed}
use mylittleproxy.Tunnel.Server.{
  Server, close_conn, write, run_callback, add_session, add_control, emit,
}
use mylittleproxy.Tunnel.Server.Handshake.{
  Sign, HandshakeIo, check_identifier_signature, control_handler, hijack, finish, status_line,
  open_control_stream, drop_client,
}
use mylittleproxy.Tunnel.Server.Connect.{
  Request, http_error, taken_over, message, conclude, check_connect, header_get,
}
use mylittleproxy.Tunnel.Server.Admission.{IsAdmitted, admit_complete}
use mylittleproxy.Tunnel.Server.Invariant.{IsConsistent}
use mylittleproxy.Tunnel.Server.Release.{IsGone, IsUntouched, drop_client_lem}
use mylittleproxy.Tunnel.Server.Conclude.{
  conclude-reply, conclude-IsGone, conclude-IsUntouched, open_control_stream_fails, conclude-IsIn,
  conclude-effects, hijack_lem, after_hijacking_lem, after_hijacking_unwritten, finish_aborts,
  open_control_stream_lem, Succeeds,
}

module _ (re : Regexp) (sign : Sign) (decode : Bytes → Option ConnectionConfig) where
  open re use {Regex}

  abbrev id_of : Request → Bytes
  id_of r = header_get client_identifier_header r

  abbrev signature_of : Request → Bytes
  signature_of r = header_get client_identifier_signature r

  abbrev with_hosts : Server Regex → VirtualHosts Regex → Server Regex
  with_hosts s hosts = record s { virtual_hosts = hosts }

  check_connect_admitted :
      (h : HandshakeIo) (r : Request) (s : Server Regex) (domain : Bytes)
      (rules : List (HttpRewriteRule Regex)) (hosts : VirtualHosts Regex)
      → IsAdmitted re sign decode s.settings r domain rules
      → add_host domain (id_of r) rules s.virtual_hosts ≡ ok hosts
      → check_connect re sign decode h r s
        ≡ conclude
            (id_of r)
            (control_handler sign h (id_of r) (signature_of r) (with_hosts s hosts))
  unfolding check_connect
  check_connect_admitted h r s domain rules hosts ad added =
      rw (admit_complete re sign decode s.settings r domain rules ad, added, check_connect)

  signed :
      (r : Request) (s : Server Regex) (domain : Bytes) (rules : List (HttpRewriteRule Regex))
      → IsAdmitted re sign decode s.settings r domain rules
      → check_identifier_signature sign (id_of r) s.settings.signature_key (signature_of r) ≡ true
  unfolding check_identifier_signature
  signed r s domain rules ad = (eq_iff _ _).1 ad.signed

  -- In a consistent state, a client that is connected and sends an admitted control request, whose
  -- domain is not taken by another client, is answered 502; its control, session and host are
  -- removed, and no other client is touched.
  pub check_connect_again :
      (h : HandshakeIo) (r : Request) (s : Server Regex) (domain : Bytes)
      (rules : List (HttpRewriteRule Regex)) (hosts : VirtualHosts Regex) (ct : ℕ)
      → IsConsistent s
      → IsAdmitted re sign decode s.settings r domain rules
      → add_host domain (id_of r) rules s.virtual_hosts ≡ ok hosts
      → lookup (id_of r) s.controls ≡ some ct
      → ((check_connect re sign decode h r s).0
          ≡ http_error 502 (message (control_exists (id_of r))))
        × IsGone (id_of r) (check_connect re sign decode h r s).1
        × ((j : Bytes) → j ≢ id_of r → IsUntouched j s (check_connect re sign decode h r s).1)
  unfolding control_handler
  check_connect_again h r s domain rules hosts ct v ad added l =
      let (_, found, _, others) =
        add_host_lem domain (id_of r) rules s.virtual_hosts hosts v.hosts added in
      let t = with_hosts s hosts in
      let w : IsConsistent t = record {
        hosts = add_host-IsWellFormed domain (id_of r) rules s.virtual_hosts hosts v.hosts added;
        registered = v.registered;
        backed = v.backed;
      } in
      let (gone, kept) = drop_client_lem ct ct (id_of r) t w l in
      let e : check_connect re sign decode h r s
          ≡ conclude (id_of r) (some (control_exists (id_of r)), drop_client ct (id_of r) t) =
        check_connect_admitted h r s domain rules hosts ad added
        ∙ rw (signed r s domain rules ad, found, l, control_handler) in
      rw e (
        conclude-reply (id_of r) _ _,
        conclude-IsGone (id_of r) (id_of r) _ _ gone,
        λ j ne. conclude-IsUntouched j (id_of r) _ s _ (record {
          same_control = (kept j ne).same_control;
          same_session = (kept j ne).same_session;
          same_host = (kept j ne).same_host ∙ others j ne;
        }),
      )

  -- In a consistent state, a client that is admitted, is not connected, asks for a domain that is
  -- not taken by another client and completes the handshake is connected: its new control is
  -- registered, open and named after it, its session is kept, and its domain is its host. There is
  -- no HTTP response; the status line is written to the connection, and the answer to the greeting
  -- to the stream.
  pub check_connect_connects :
      (h : HandshakeIo) (r : Request) (s : Server Regex) (domain : Bytes)
      (rules : List (HttpRewriteRule Regex)) (hosts : VirtualHosts Regex) (conn session stream : ℕ)
      → IsConsistent s
      → IsAdmitted re sign decode s.settings r domain rules
      → add_host domain (id_of r) rules s.virtual_hosts ≡ ok hosts
      → lookup (id_of r) s.controls ≡ none
      → Succeeds h conn session stream
      → let (reply, t) = check_connect re sign decode h r s in
        (reply ≡ taken_over)
        × (lookup (id_of r) t.controls ≡ some (length s.heap))
        × (get_elem? t.heap (length s.heap) ≡ some (identify (id_of r) (new_control stream)))
        × (lookup (id_of r) t.sessions ≡ some (some session))
        × (get_host (id_of r) t.virtual_hosts ≡ some domain)
        × IsIn (write conn status_line) t.effects
        × IsIn (write stream handshake_response) t.effects
  unfolding control_handler conclude add_session add_control
  check_connect_connects h r s domain rules hosts conn session stream v ad added free f =
      let found = (add_host_lem domain (id_of r) rules s.virtual_hosts hosts v.hosts added).1 in
      rw
        (
          check_connect_admitted h r s domain rules hosts ad added,
          signed r s domain rules ad,
          found,
          free,
          f.can_hijack,
          f.hijacks,
          f.writes,
          f.clears,
          f.muxes,
          control_handler,
        )
        (rw (open_control_stream_lem h conn session stream f, finish)
          (
            refl,
            lookup-insert_self (id_of r) (length s.heap) s.controls,
            get_elem?-append_new s.heap (identify (id_of r) (new_control stream)),
            lookup-insert_self (id_of r) (some session) s.sessions,
            found,
            IsIn-append_left (write conn status_line) (s.effects ++ write conn status_line ∷ []) _
                (IsIn-append_right (write conn status_line) s.effects _ (inl refl)),
            IsIn-append_right (write stream handshake_response)
                (s.effects ++ write conn status_line ∷ []) _ (inl refl),
          ))

  control_handler_free :
      (h : HandshakeIo) (r : Request) (s : Server Regex) (domain : Bytes)
      (rules : List (HttpRewriteRule Regex)) (hosts : VirtualHosts Regex)
      → IsConsistent s
      → IsAdmitted re sign decode s.settings r domain rules
      → add_host domain (id_of r) rules s.virtual_hosts ≡ ok hosts
      → lookup (id_of r) s.controls ≡ none
      → control_handler sign h (id_of r) (signature_of r) (with_hosts s hosts)
        ≡ hijack h (id_of r) (with_hosts s hosts)
  unfolding control_handler
  control_handler_free h r s domain rules hosts v ad added free =
      let found = (add_host_lem domain (id_of r) rules s.virtual_hosts hosts v.hosts added).1 in
      rw (signed r s domain rules ad, found, free, control_handler)

  -- In a consistent state, for a client that is admitted, is not connected and asks for a domain
  -- that is not taken by another client: if the session is made and the handshake then fails in any
  -- way, nothing of the client is left, its connection is closed, and there is no HTTP response.
  pub check_connect_aborts :
      (h : HandshakeIo) (r : Request) (s : Server Regex) (domain : Bytes)
      (rules : List (HttpRewriteRule Regex)) (hosts : VirtualHosts Regex) (conn session : ℕ)
      (opened : Option ℕ) (e : Error)
      → IsConsistent s
      → IsAdmitted re sign decode s.settings r domain rules
      → add_host domain (id_of r) rules s.virtual_hosts ≡ ok hosts
      → lookup (id_of r) s.controls ≡ none
      → h.is_hijacker ≡ true
      → h.hijack ≡ ok conn
      → h.write_connected ≡ none
      → h.set_deadline ≡ none
      → h.yamux_server ≡ ok session
      → open_control_stream h ≡ (opened, err e)
      → let (reply, t) = check_connect re sign decode h r s in
        (reply ≡ taken_over) × IsGone (id_of r) t × IsIn (close_conn conn) t.effects
  unfolding add_session
  check_connect_aborts h r s domain rules hosts conn session opened e v ad added free a b c d f g =
      let id = id_of r in
      let t = with_hosts s hosts in
      let w = add_host-IsWellFormed domain id rules s.virtual_hosts hosts v.hosts added in
      let u = add_session id (some session) (emit (write conn status_line ∷ []) t) in
      let (x, fin, gone, closed) =
        finish_aborts id conn opened e u (some session) w free
          (lookup-insert_self id (some session) s.sessions) in
      let handled : control_handler sign h id (signature_of r) t ≡ (some e, x) =
        control_handler_free h r s domain rules hosts v ad added free
        ∙ hijack_lem h id conn t a b
        ∙ after_hijacking_lem h id conn t session c d f
        ∙ ap (λ o. finish id conn o u) g
        ∙ fin in
      rw (check_connect_admitted h r s domain rules hosts ad added ∙ ap (conclude id) handled) (
        conclude-reply id e x ∙ open_control_stream_fails h opened e g,
        conclude-IsGone id id e x gone,
        conclude-IsIn (close_conn conn) id e x closed,
      )

  -- In a consistent state, for a client that is admitted, is not connected and asks for a domain
  -- that is not taken by another client: if writing the status line to the hijacked connection
  -- fails, there is no HTTP response, nothing but callbacks runs, so the connection is not closed,
  -- and the client's domain stays taken.
  pub check_connect_unwritten :
      (h : HandshakeIo) (r : Request) (s : Server Regex) (domain : Bytes)
      (rules : List (HttpRewriteRule Regex)) (hosts : VirtualHosts Regex) (conn : ℕ) (e : Error)
      → IsConsistent s
      → IsAdmitted re sign decode s.settings r domain rules
      → add_host domain (id_of r) rules s.virtual_hosts ≡ ok hosts
      → lookup (id_of r) s.controls ≡ none
      → h.is_hijacker ≡ true
      → h.hijack ≡ ok conn
      → h.write_connected ≡ some e
      → let (reply, t) = check_connect re sign decode h r s in
        (reply ≡ taken_over)
        × ((ran : List ℕ) × (t.effects ≡ s.effects ++ map run_callback ran))
        × (get_host (id_of r) t.virtual_hosts ≡ some domain)
  check_connect_unwritten h r s domain rules hosts conn e v ad added free a b c =
      let id = id_of r in
      let t = with_hosts s hosts in
      let f = after_hijack (writing_response e) in
      let found = (add_host_lem domain id rules s.virtual_hosts hosts v.hosts added).1 in
      let handled : control_handler sign h id (signature_of r) t ≡ (some f, t) =
        control_handler_free h r s domain rules hosts v ad added free
        ∙ hijack_lem h id conn t a b
        ∙ after_hijacking_unwritten h id conn t e c in
      rw (check_connect_admitted h r s domain rules hosts ad added ∙ ap (conclude id) handled) (
        conclude-reply id f t,
        conclude-effects id f t,
        (conclude-IsUntouched id id f t t
              (record { same_control = refl; same_session = refl; same_host = refl })).same_host
            ∙ found,
      )
