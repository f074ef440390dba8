-- ===== src/Tunnel/Server/Threads.antt =====
-- The goroutines of tunnel/server.go that serve control requests and listen on control connections,
-- with a step for each call that takes a mutex: `checkConnect`, `controlHandler` and `listenControl`
-- cut where another goroutine can come between. `deleteSession` keeps `sessionsMu` while it takes the
-- mutex of the hosts twice, so it is two steps, and in the second the goroutine holds `sessionsMu`.
pub mod System
pub mod Branches
pub mod Ends
pub mod Careful
pub mod Others
pub mod Orderly
pub mod Schedules
pub mod Races
mod Tests
pub mod Alone
use mylittleproxy.Base.{
  ℕ, zero, suc, Bytes, Bool, true, false, not, Option, none, some, List, [], ◌∷◌, ◌++◌, map, Result,
  ok, err, lookup, delete, length, is_empty, if◌then◌else◌,
}
use mylittleproxy.Base.{bytes}
use mylittleproxy.Proto.{
  ConnectionConfig, client_identifier_header, client_identifier_signature, handshake_response,
}
use mylittleproxy.Tunnel.Regexp.{Regexp}
use mylittleproxy.Tunnel.Errors.{
  Error, invalid_signature, no_host_for, control_exists, no_hijacking, hijack_failed, after_hijack,
  writing_response, setting_deadline,
}
use mylittleproxy.Tunnel.ClientState.{client_connected, client_closed}
use mylittleproxy.Tunnel.Callbacks.{call}
use mylittleproxy.Tunnel.VirtualHosts.{
  HttpRewriteRule, add_host, delete_host, get_host, get_virtual_host,
}
use mylittleproxy.Tunnel.Server.{
  Server, Settings, close_conn, write, run_callback, emit, add_session, add_control, delete_control,
  close_control, stop_session, change_state,
}
use mylittleproxy.Tunnel.Server.Handshake.{
  Sign, HandshakeIo, check_identifier_signature, open_control_stream, close_stream, status_line,
  identifier_at,
}
use mylittleproxy.Tunnel.Server.Connect.{
  Request, Reply, http_error, text, taken_over, admit, header_get, reply_of,
}

-- Which goroutine drops a client: that of a request, which then answers, or a listener, which ends.
pub data Role : Type 0 where
  answers : Role
  listens : Role

-- Where a goroutine stands: the call that it makes next. `h` is what its connection will do, and
-- `hung` the connection that `controlHandler` closes once `deleteSession` is through.
pub data Routine (R : Type 0) : Type 0 where
  adds :
      (h : HandshakeIo) (domain : Bytes) (rules : List (HttpRewriteRule R)) (id signature : Bytes)
      → Routine R
  checks : (h : HandshakeIo) (id signature : Bytes) → Routine R
  looks : (h : HandshakeIo) (id : Bytes) → Routine R
  upgrades : (h : HandshakeIo) (id : Bytes) → Routine R
  adds_session : (h : HandshakeIo) (id : Bytes) (conn session : ℕ) → Routine R
  greets : (h : HandshakeIo) (id : Bytes) (conn : ℕ) → Routine R
  registers : (id : Bytes) (stream : ℕ) → Routine R
  closes : (ct : ℕ) (id : Bytes) (e : Error) (role : Role) → Routine R
  unregisters : (id : Bytes) (e : Error) (role : Role) → Routine R
  releases : (hung : Option ℕ) (id : Bytes) (e : Error) (role : Role) → Routine R
  frees : (host : Bytes) (hung : Option ℕ) (id : Bytes) (e : Error) (role : Role) → Routine R
  reports : (hung : Option ℕ) (id : Bytes) (e : Error) (role : Role) → Routine R
  announces : (id : Bytes) (e : Error) (role : Role) → Routine R
  starts : (ct : ℕ) → Routine R
  hails : (ct : ℕ) (id : Bytes) → Routine R
  waits : (ct : ℕ) → Routine R
  replied : Reply → Routine R
  ended : Routine R

abbrev pub final : {R : Type 0} → Role → Error → Routine R
final answers e = replied (reply_of e)
final listens e = ended

abbrev pub fails : {R : Type 0} → Bytes → Error → Routine R
fails id e = reports none id e answers

module _ {R : Type 0} where
  abbrev pub hang_up : Option ℕ → Server R → Server R
  hang_up none s = s
  hang_up (some conn) s = emit (close_conn conn ∷ []) s

  abbrev pub call_on_connect : Bytes → Server R → Server R
  call_on_connect id s =
      let r = call id s.on_connect_callbacks in
      emit (map run_callback r.1) (record s { on_connect_callbacks = r.2 })

  abbrev pub call_on_disconnect : Bytes → Server R → Server R
  call_on_disconnect id s =
      let r = call id s.on_disconnect_callbacks in
      emit (map run_callback r.1) (record s { on_disconnect_callbacks = r.2 })

  -- Hijacking, up to the session. Nothing of it takes a mutex of the server.
  unfoldable pub take_over : HandshakeIo → Bytes → Server R → Routine R × Server R
  take_over h id s =
      if h.is_hijacker
      then elim h.hijack [
        | err e ↦ (fails id (hijack_failed e), s)
        | ok conn ↦ elim h.write_connected [
          | some e ↦ (fails id (after_hijack (writing_response e)), s)
          | none ↦ elim h.set_deadline [
            | some e ↦
                (fails id (after_hijack (setting_deadline e)), emit (write conn status_line ∷ []) s)
            | none ↦ elim h.yamux_server [
              | err e ↦ (fails id (after_hijack e), emit (write conn status_line ∷ []) s)
              | ok session ↦ (adds_session h id conn session, emit (write conn status_line ∷ []) s)
            ]
          ]
        ]
      ]
      else (fails id no_hijacking, s)

  -- The handshake over the control stream. The deferred clean-up closes the stream first.
  unfoldable pub after_greeting :
      Bytes → ℕ → Option ℕ × Result Error ℕ → Server R → Routine R × Server R
  after_greeting id conn (opened, ok stream) s =
      (registers id stream, emit (write stream handshake_response ∷ []) s)
  after_greeting id conn (opened, err e) s =
      (releases (some conn) id e answers, emit (close_stream opened) s)

  -- `deleteSession` up to `GetVirtualHost`.
  unfoldable pub release : Option ℕ → Bytes → Error → Role → Server R → Routine R × Server R
  release hung id e role s = elim (lookup id s.sessions) [
    | none ↦ (reports hung id e role, s)
    | some session ↦ (
      elim (get_virtual_host id s.virtual_hosts) [
        | none ↦ reports hung id e role
        | some (x, host) ↦ frees host hung id e role
      ],
      record s { sessions = delete id s.sessions; effects = s.effects ++ stop_session session },
    )
  ]

  -- `checkConnect` tells of an error if the identifier is not empty, `listenControl` always.
  unfoldable pub report : Role → Bytes → Error → Server R → Routine R × Server R
  report answers [] e s = (final answers e, s)
  report answers (c ∷ cs) e s = (announces (c ∷ cs) e answers, call_on_disconnect (c ∷ cs) s)
  report listens id e s = (announces id e listens, call_on_disconnect id s)

  -- The goroutines that a step starts: `go s.listenControl(ct)`.
  abbrev pub spawned : Routine R → Server R → List (Routine R)
  spawned (registers id stream) s = starts (length s.heap) ∷ []
  spawned pc s = []

module _ {R : Type 0} (sign : Sign) where
  -- One step of a goroutine. A listener that waits for a message does nothing by itself.
  unfoldable pub advance : Routine R → Server R → Routine R × Server R
  unfolding take_over after_greeting release report
  advance (adds h domain rules id signature) s = elim (add_host domain id rules s.virtual_hosts) [
    | err _ ↦ (replied (http_error 409 (text (bytes "409 host already in use\n"))), s)
    | ok hosts ↦ (checks h id signature, record s { virtual_hosts = hosts })
  ]
  advance (checks h id signature) s =
      if not (check_identifier_signature sign id s.settings.signature_key signature)
      then (fails id (invalid_signature id), s)
      else elim (get_host id s.virtual_hosts) [
        | none ↦ (fails id (no_host_for id), s)
        | some host ↦ (looks h id, s)
      ]
  advance (looks h id) s = elim (lookup id s.controls) [
    | some ct ↦ (closes ct id (control_exists id) answers, s)
    | none ↦ (upgrades h id, s)
  ]
  advance (upgrades h id) s = take_over h id s
  advance (adds_session h id conn session) s = (greets h id conn, add_session id (some session) s)
  advance (greets h id conn) s = after_greeting id conn (open_control_stream h) s
  advance (registers id stream) s = (replied taken_over, add_control id stream s)
  advance (closes ct id e role) s = (unregisters id e role, close_control ct s)
  advance (unregisters id e role) s = (releases none id e role, delete_control id s)
  advance (releases hung id e role) s = release hung id e role s
  advance (frees host hung id e role) s =
      (reports hung id e role, record s { virtual_hosts = delete_host host s.virtual_hosts })
  advance (reports hung id e role) s = report role id e (hang_up hung s)
  advance (announces id e role) s = (final role e, (change_state id client_closed (some e) s).1)
  advance (starts ct) s = (hails ct (identifier_at ct s), call_on_connect (identifier_at ct s) s)
  advance (hails ct id) s = (waits ct, (change_state id client_connected none s).1)
  advance (waits ct) s = (waits ct, s)
  advance (replied reply) s = (replied reply, s)
  advance ended s = (ended, s)

  -- `n` steps in a row.
  unfoldable pub advances : ℕ → Routine R × Server R → Routine R × Server R
  unfolding advance
  advances zero x = x
  advances (suc n) x = advances n (advance x.0 x.1)

-- The goroutine of a request, once the checks that read no table are through.
unfoldable pub arrive :
    (re : Regexp) (sign : Sign) (decode : Bytes → Option ConnectionConfig)
    → Settings re.Regex
    → HandshakeIo
    → Request
    → Routine re.Regex
arrive re sign decode c h r = elim (admit re sign decode c r) [
  | err reply ↦ replied reply
  | ok (domain, rules) ↦
      adds h domain rules (header_get client_identifier_header r)
        (header_get client_identifier_signature r)
]
