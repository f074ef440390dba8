-- ===== src/Tunnel/Server/Steps.antt =====
-- Every handler, every goroutine's turn and every exported method keeps the server consistent, so
-- every state that a server can reach, by any interleaving of them, is consistent.
use mylittleproxy.Base.{
  ℕ, Bytes, ◌≡◌, Option, none, some, [], ◌∷◌, arith, lookup, lookup-delete_self, lookup-insert_self,
  get_elem?, Result, ok, err, Result-cases, Option-cases, Bool-cases, inl, inr,
}
use mylittleproxy.Proto.{ConnectionConfig, client_identifier_header}
use mylittleproxy.Tunnel.Regexp.{Regexp}
use mylittleproxy.Tunnel.Errors.{Error}
use mylittleproxy.Tunnel.Controls.{Control}
use mylittleproxy.Tunnel.VirtualHosts.{add_host, get_host}
use mylittleproxy.Tunnel.VirtualHosts.AddHost.{add_host-IsWellFormed}
use mylittleproxy.Tunnel.Server.{Server, add_session, delete_control, close_control, get_session}
use mylittleproxy.Tunnel.Server.Handshake.{
  Sign, HandshakeIo, finish, after_hijacking, hijack, drop_client, control_handler, identifier_at,
  listen_start, listen_fail, check_identifier_signature, open_control_stream,
}
use mylittleproxy.Tunnel.Server.Connect.{Request, admit, conclude, check_connect, header_get}
use mylittleproxy.Tunnel.Server.Dial.{DialIo, session_request, request_stream, dial, send_at}
use mylittleproxy.Tunnel.Server.Invariant.{
  IsConsistent, emit-IsConsistent, on_connect-IsConsistent, on_disconnect-IsConsistent,
  add_session-IsConsistent, delete_session-IsConsistent, add_control-IsConsistent,
  close-delete-IsConsistent,
}

module _ {R : Type 0} where
  drop_client-IsConsistent :
      (p : ℕ) (id : Bytes) (s : Server R)
      → ((c : Control) → get_elem? s.heap p ≡ some c → c.identifier ≡ id)
      → IsConsistent s
      → IsConsistent (drop_client p id s)
  unfolding drop_client delete_control close_control
  drop_client-IsConsistent p id s own v =
      delete_session-IsConsistent id _ (lookup-delete_self id s.controls)
        (close-delete-IsConsistent p id s own v)

  finish-IsConsistent :
      (id : Bytes) (conn : ℕ) (r : Option ℕ × Result Error ℕ) (s : Server R) (session : Option ℕ)
      → lookup id s.sessions ≡ some session
      → lookup id s.controls ≡ none
      → IsConsistent s
      → IsConsistent (finish id conn r s).1
  unfolding finish
  finish-IsConsistent id conn (opened, ok stream) s session l free v =
      add_control-IsConsistent id stream _ session l (emit-IsConsistent _ s v)
  finish-IsConsistent id conn (opened, err e) s session l free v =
      emit-IsConsistent _ _ (delete_session-IsConsistent id _ free (emit-IsConsistent _ s v))

  after_hijacking-IsConsistent :
      (h : HandshakeIo) (id : Bytes) (conn : ℕ) (s : Server R)
      → lookup id s.controls ≡ none
      → IsConsistent s
      → IsConsistent (after_hijacking h id conn s).1
  unfolding after_hijacking add_session
  after_hijacking-IsConsistent h id conn s free v = elim (Option-cases h.write_connected) [
    | inr (e, w) ↦ rw (w, after_hijacking) v
    | inl w ↦ elim (Option-cases h.set_deadline) [
      | inr (e, d) ↦ rw (w, d, after_hijacking) (emit-IsConsistent _ s v)
      | inl d ↦ elim (Result-cases h.yamux_server) [
        | inr (e, y) ↦ rw (w, d, y, after_hijacking) (emit-IsConsistent _ s v)
        | inl (session, y) ↦
            rw (w, d, y, after_hijacking)
              (finish-IsConsistent id conn (open_control_stream h) _ (some session)
                (lookup-insert_self id (some session) s.sessions) free
                (add_session-IsConsistent id (some session) _ (emit-IsConsistent _ s v)))
      ]
    ]
  ]

  hijack-IsConsistent :
      (h : HandshakeIo) (id : Bytes) (s : Server R)
      → lookup id s.controls ≡ none
      → IsConsistent s
      → IsConsistent (hijack h id s).1
  unfolding hijack
  hijack-IsConsistent h id s free v = elim (Bool-cases h.is_hijacker) [
    | inr n ↦ rw (n, hijack) v
    | inl y ↦ elim (Result-cases h.hijack) [
      | inr (e, k) ↦ rw (y, k, hijack) v
      | inl (conn, k) ↦ rw (y, k, hijack) (after_hijacking-IsConsistent h id conn s free v)
    ]
  ]

  pub control_handler-IsConsistent :
      (sign : Sign) (h : HandshakeIo) (id signature : Bytes) (s : Server R)
      → IsConsistent s
      → IsConsistent (control_handler sign h id signature s).1
  unfolding control_handler
  control_handler-IsConsistent sign h id signature s v =
      elim (Bool-cases (check_identifier_signature sign id s.settings.signature_key signature)) [
        | inr bad ↦ rw (bad, control_handler) v
        | inl good ↦ elim (Option-cases (get_host id s.virtual_hosts)) [
          | inl n ↦ rw (good, n, control_handler) v
          | inr (host, g) ↦ elim (Option-cases (lookup id s.controls)) [
            | inl free ↦ rw (good, g, free, control_handler) (hijack-IsConsistent h id s free v)
            | inr (ct, l) ↦
                let (c, at, r) = v.registered id ct l in
                rw (good, g, l, control_handler)
                  (drop_client-IsConsistent ct id s (λ d e. ground (arith, r.named)) v)
          ]
        ]
      ]

  pub listen_start-IsConsistent :
      (p : ℕ) (s : Server R) → IsConsistent s → IsConsistent (listen_start p s)
  unfolding listen_start
  listen_start-IsConsistent p s v = on_connect-IsConsistent _ s v

  pub listen_fail-IsConsistent :
      (p : ℕ) (e : Error) (s : Server R) → IsConsistent s → IsConsistent (listen_fail p e s)
  unfolding listen_fail
  listen_fail-IsConsistent p e s v =
      on_disconnect-IsConsistent _ (some e) _
        (drop_client-IsConsistent p (identifier_at p s) s (λ c at. ground arith) v)

  request_stream-IsConsistent :
      (d : DialIo) (ct : ℕ) (id : Bytes) (protocol port : ℕ) (s : Server R)
      → lookup id s.controls ≡ some ct
      → IsConsistent s
      → IsConsistent (request_stream d ct id (session_request protocol port) s).1
  unfolding request_stream
  request_stream-IsConsistent d ct id protocol port s l v =
      elim (Option-cases (send_at ct d.encode s).0) [
        | inl n ↦ rw (n, request_stream) (emit-IsConsistent _ s v)
        | inr (e, f) ↦
            let (c, at, r) = v.registered id ct l in
            rw (f, request_stream)
              (close-delete-IsConsistent ct id _ (λ d e. ground (arith, r.named))
                (emit-IsConsistent _ s v))
      ]

  pub dial-IsConsistent :
      (d : DialIo) (id : Bytes) (protocol port : ℕ) (s : Server R)
      → IsConsistent s
      → IsConsistent (dial d id protocol port s).1
  unfolding dial
  dial-IsConsistent d id protocol port s v = elim (Option-cases (lookup id s.controls)) [
    | inl n ↦ rw (n, dial) v
    | inr (ct, l) ↦ elim (Result-cases (get_session id s)) [
      | inr (e, g) ↦ rw (l, g, dial) v
      | inl (session, g) ↦ rw (l, g, dial) (request_stream-IsConsistent d ct id protocol port s l v)
    ]
  ]

  conclude-IsConsistent :
      (id : Bytes) (r : Option Error × Server R) → IsConsistent r.1 → IsConsistent (conclude id r).1
  unfolding conclude
  conclude-IsConsistent id (none, s) v = v
  conclude-IsConsistent [] (some e, s) v = v
  conclude-IsConsistent (c ∷ cs) (some e, s) v = on_disconnect-IsConsistent (c ∷ cs) (some e) s v

module _ (re : Regexp) (sign : Sign) (decode : Bytes → Option ConnectionConfig) where
  open re use {Regex}

  -- A control request, whatever it holds and however the connection behaves, keeps the server
  -- consistent.
  pub check_connect-IsConsistent :
      (h : HandshakeIo) (r : Request) (s : Server Regex)
      → IsConsistent s
      → IsConsistent (check_connect re sign decode h r s).1
  unfolding check_connect
  check_connect-IsConsistent h r s v = elim (Result-cases (admit re sign decode s.settings r)) [
    | inr (reply, a) ↦ rw (a, check_connect) v
    | inl ((domain, rules), a) ↦
        let id = header_get client_identifier_header r in
        elim (Result-cases (add_host domain id rules s.virtual_hosts)) [
          | inr (e, b) ↦ rw (a, b, check_connect) v
          | inl (hosts, b) ↦
              rw (a, b, check_connect)
                (conclude-IsConsistent id _ (
                  control_handler-IsConsistent sign h id _ _ (record {
                    hosts = add_host-IsWellFormed domain id rules s.virtual_hosts hosts v.hosts b;
                    registered = v.registered;
                    backed = v.backed;
                  })))
        ]
  ]
