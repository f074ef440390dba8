-- ===== src/Tunnel/Meeting.antt =====
-- The two ends of a control connection together: the handshake of `connect` in tunnel/client.go
-- against that of `controlHandler` in tunnel/server.go.
use mylittleproxy.Base.{
  ℕ, Bytes, ◌≡◌, refl, sym, ap, subst, Option, none, some, List, [], ◌∷◌, ◌++◌, ok, arith, eq_iff,
  ◌==◌, lookup, length, IsIn, IsIn-append_left, IsIn-append_right, inl, inr, true, Result-cases,
}
use mylittleproxy.Proto.{ConnectionConfig, connected, handshake_request, handshake_response}
use mylittleproxy.Std.Http.{read_status_line}
use mylittleproxy.Tunnel.Regexp.{Regexp}
use mylittleproxy.Tunnel.ClientState.{client_connected}
use mylittleproxy.Tunnel.VirtualHosts.{HttpRewriteRule, VirtualHosts, add_host}
use mylittleproxy.Tunnel.Server.{Server, write}
use mylittleproxy.Tunnel.Server.Handshake.{Sign, HandshakeIo, accepted, status_line}
use mylittleproxy.Tunnel.Server.Connect.{taken_over, check_connect}
use mylittleproxy.Tunnel.Server.Admission.{IsAdmitted}
use mylittleproxy.Tunnel.Server.Invariant.{IsConsistent}
use mylittleproxy.Tunnel.Server.Conclude.{Succeeds}
use mylittleproxy.Tunnel.Server.Sequels.{check_connect_connects}
use mylittleproxy.Tunnel.ControlRequest.{header_get-control_request}
use mylittleproxy.Tunnel.Client.{
  Client, wrote, sent_request, emit, change_state, start_notify_if_needed,
}
use mylittleproxy.Tunnel.Client.Connect.{
  opening, listening, sent_greeting, OpenIo, GreetIo, ControlResponse, opened, open_conn,
  accept_response, check_response, assign_session, answered, connect_session, request_of,
  greet_server, greeted, greet, on_opened, connect_stream, begin_listening,
}

-- Every call of the client up to its session succeeds.
pub record Opens (o : OpenIo) (conn session : ℕ) : Type 0 where
  pub sends : open_conn o ≡ ok conn
  pub response : ControlResponse
  pub reads : o.read_response ≡ ok response
  pub muxes : o.yamux_client ≡ ok session

-- And so do those of its handshake, up to what it reads.
pub record Greets (g : GreetIo) (stream : ℕ) : Type 0 where
  pub opens : g.session_open ≡ opened stream
  pub writes : g.write ≡ none

-- Every call of the server's handshake succeeds, up to what it reads.
pub record Greeted (h : HandshakeIo) (conn session stream : ℕ) : Type 0 where
  pub can_hijack : h.is_hijacker ≡ true
  pub hijacks : h.hijack ≡ ok conn
  pub writes : h.write_connected ≡ none
  pub clears : h.set_deadline ≡ none
  pub muxes : h.yamux_server ≡ ok session
  pub accepts : h.accept ≡ accepted stream
  pub responds : h.write_response ≡ none

Greeted-Succeeds :
    (h : HandshakeIo) (conn session stream : ℕ)
    → Greeted h conn session stream
    → h.read ≡ ok handshake_request
    → Succeeds h conn session stream
Greeted-Succeeds h conn session stream v e = record {
  can_hijack = v.can_hijack;
  hijacks = v.hijacks;
  writes = v.writes;
  clears = v.clears;
  muxes = v.muxes;
  accepts = v.accepts;
  reads = e;
  responds = v.responds;
}

status_line-accepted :
    (response : ControlResponse)
    → read_status_line status_line ≡ some (response.status_code, response.status)
    → check_response response ≡ ok tt
unfolding read_status_line check_response
status_line-accepted response e =
    let code : response.status_code ≡ 200 = cc in
    let status : response.status ≡ connected = cc in
    ground (arith, code, eq_iff response.status connected)

-- The client takes the response for what the server wrote.
abbrev pub IsRead : (written : Bytes) → ControlResponse → Type 0
IsRead written response = read_status_line written ≡ some (response.status_code, response.status)

accepted-Opens :
    (o : OpenIo) (conn session : ℕ) (v : Opens o conn session)
    → IsRead status_line v.response
    → accept_response o ≡ ok tt
unfolding accept_response
accepted-Opens o conn session v e =
    rw (v.reads, accept_response) (status_line-accepted v.response e)

answered-Opens :
    (o : OpenIo) (conn session : ℕ) (c : Client) (v : Opens o conn session)
    → IsRead status_line v.response
    → answered o c ≡ (opening, record c { session = some session })
unfolding answered assign_session
answered-Opens o conn session c v e =
    rw (accepted-Opens o conn session v e, answered) (rw v.muxes refl)

greeted-Greets :
    (g : GreetIo) (stream : ℕ)
    → Greets g stream
    → g.read ≡ ok handshake_response
    → greet_server g ≡ ok tt
unfolding greet_server greeted ◌==◌
greeted-Greets g stream v e = rw (v.writes, greet_server) (rw e refl)

greet-writes :
    (g : GreetIo) (stream : ℕ) (c : Client)
    → g.write ≡ none
    → IsIn (wrote stream handshake_request) (greet g stream c).1.effects
unfolding greet begin_listening change_state start_notify_if_needed
greet-writes g stream c w =
    let x = wrote stream handshake_request in
    let said : IsIn x (c.effects ++ sent_greeting stream g.write) =
      rw w (IsIn-append_right x c.effects (x ∷ []) (inl refl)) in
    elim (Result-cases (greet_server g)) [
      | inl (a, e) ↦ rw (e, greet) (IsIn-append_left x _ _ said)
      | inr (a, e) ↦ rw (e, greet) said
    ]

-- What a client whose stream opens writes to it, whatever it reads then.
connect_stream-writes :
    (g : GreetIo) (stream : ℕ) (c : Client)
    → Greets g stream
    → IsIn (wrote stream handshake_request) (connect_stream g c).1.effects
unfolding connect_stream on_opened
connect_stream-writes g stream c v =
    subst (λ o. IsIn (wrote stream handshake_request) (on_opened o g c).1.effects) (sym v.opens)
      (greet-writes g stream c v.writes)

connect_stream-Greets :
    (g : GreetIo) (stream : ℕ) (c : Client)
    → Greets g stream
    → g.read ≡ ok handshake_response
    → ((connect_stream g c).0 ≡ listening) × ((connect_stream g c).1.state ≡ client_connected)
unfolding connect_stream on_opened greet begin_listening change_state start_notify_if_needed
connect_stream-Greets g stream c v read =
    rw (v.opens, connect_stream) (rw (greeted-Greets g stream v read, greet) (refl, refl))

module _ (re : Regexp) (sign : Sign) (encode : ConnectionConfig → Bytes)
    (decode : Bytes → Option ConnectionConfig) where
  open re use {Regex}

  -- A client and a server meet: if the request that the client sends is one that the consistent
  -- server admits, for a domain not taken by another client and a client that is not connected,
  -- and all calls on both sides succeed, and what the server reads from its stream is what the
  -- client writes to its own, what the client reads from its stream is what the server writes to
  -- its own, and the response that the client reads is made of what the server writes to the
  -- connection, then the server has registered the client with a control, a session and no HTTP
  -- response, and the client listens on its control connection, in the state connected.
  pub both_connect :
      (c : Client) (o : OpenIo) (g : GreetIo) (identifier key : Bytes) (dialled mux control : ℕ)
      (h : HandshakeIo) (s : Server Regex) (domain : Bytes) (rules : List (HttpRewriteRule Regex))
      (hosts : VirtualHosts Regex) (conn session stream : ℕ)
      → (opens : Opens o dialled mux) → Greets g control
      → IsConsistent s
      → IsAdmitted re sign decode s.settings
          (request_of sign encode o identifier key c)
          domain
          rules
      → add_host domain identifier rules s.virtual_hosts ≡ ok hosts
      → lookup identifier s.controls ≡ none
      → Greeted h conn session stream
      → ((b : Bytes)
          → IsIn
              (wrote control b)
              (connect_stream g (connect_session sign encode o identifier key c).1).1.effects
          → h.read ≡ ok b)
      → ((b : Bytes)
          → IsIn
              (write conn b)
              (check_connect re sign decode h
                (request_of sign encode o identifier key c)
                s).1.effects
          → IsRead b opens.response)
      → ((b : Bytes)
          → IsIn
              (write stream b)
              (check_connect re sign decode h
                (request_of sign encode o identifier key c)
                s).1.effects
          → g.read ≡ ok b)
      → let (reply, t) =
          check_connect re sign decode h (request_of sign encode o identifier key c) s in
        let (pc, d) = connect_session sign encode o identifier key c in
        (reply ≡ taken_over)
        × (lookup identifier t.controls ≡ some (length s.heap))
        × (lookup identifier t.sessions ≡ some (some session))
        × (pc ≡ opening)
        × (d.session ≡ some mux)
        × ((connect_stream g d).0 ≡ listening)
        × ((connect_stream g d).1.state ≡ client_connected)
  unfolding connect_session
  both_connect c o g identifier key dialled mux control h s domain rules hosts conn session stream
        opens greets v ad added free calls heard answered_by greeted_by =
      let c' = (connect_session sign encode o identifier key c).1 in
      let f =
        Greeted-Succeeds h conn session stream calls
          (heard handshake_request (connect_stream-writes g control c' greets)) in
      let named =
        (header_get-control_request sign encode o.remote c.config.control_method
          c.config.control_path c.config.connection_config identifier key).0 in
      let (reply, registered, _, stored, _, line, answer) =
        check_connect_connects re sign decode h (request_of sign encode o identifier key c) s domain
          rules hosts conn session stream v ad (rw named added) (rw named free) f in
      let sent = emit (sent_request dialled (request_of sign encode o identifier key c) ∷ []) c in
      let e : connect_session sign encode o identifier key c
          ≡ (opening, record sent { session = some mux }) =
        rw (opens.sends, connect_session)
          (answered-Opens o dialled mux sent opens (answered_by status_line line)) in
      let t = (check_connect re sign decode h (request_of sign encode o identifier key c) s).1 in
      let (listens, state) =
        connect_stream-Greets g control (connect_session sign encode o identifier key c).1 greets
          (greeted_by handshake_response answer) in
      (
        reply,
        subst (λ i. lookup i t.controls ≡ some (length s.heap)) named registered,
        subst (λ i. lookup i t.sessions ≡ some (some session)) named stored,
        ap (λ x. x.0) e,
        ap (λ x. x.1.session) e,
        listens,
        state,
      )
