-- ===== src/Tunnel/Client/Run/Sound.antt =====
-- What holds of a client and its goroutines between two steps.
use mylittleproxy.Base.{
  ℕ, ◌+◌, Bytes, ◌≡◌, refl, sym, ap, ◌∙◌, subst, ◌⊎◌, inl, inr, true, false, Option, none, some,
  List, [], ◌∷◌, ◌++◌, arith, ok, err, Result-cases, Option-cases, Bool-cases, Result,
}
use mylittleproxy.Proto.{ConnectionConfig, ControlMessage}
use mylittleproxy.Tunnel.Errors.{Error}
use mylittleproxy.Tunnel.ClientState.{
  ClientState, client_unknown, client_started, client_connecting, client_connected,
  client_disconnected, client_closed,
}
use mylittleproxy.Tunnel.Server.Handshake.{Sign}
use mylittleproxy.Tunnel.Client.{
  Client, change_state, set_closed, start_notify_if_needed, is_retry, emit, go_away,
}
use mylittleproxy.Tunnel.Client.Connect.{
  Pc, idle, looping, backing_off, sleeping, fetching, connecting, opening, listening, draining,
  ended, returned, OpenIo, GreetIo, Handler, count_request, connect_session, receive,
  finish_request, disconnect, answered, assign_session, greet, begin_listening, opened, open_failed,
  open_timed_out, greet_server, accept_response, on_opened, open_conn, Opened,
}
use mylittleproxy.Tunnel.Client.Run.{
  Machine, start, loop_head, back_off, unless_closed, fetch_settings, FetchIo, close, close_with,
  at, at_handlers, fetch_all,
}

abbrev pub count_requests : List Handler → ℕ
count_requests [] = 0
count_requests (h ∷ hs) = count_request h.is_http + count_requests hs

-- The state of a client whose `Start` is at its loop's head, or past a connection.
pub data IsRunning : ClientState → Type 0 where
  connecting_runs : IsRunning client_connecting
  connected_runs : IsRunning client_connected
  disconnected_runs : IsRunning client_disconnected

-- The state that goes with where `Start` stands, the session that is in use there, and the flag.
abbrev pub Fits : Pc → Client → Type 0
Fits idle c = c.state ≡ client_unknown
Fits (looping _) c = (c.state ≡ client_started) ⊎ IsRunning c.state
Fits (backing_off _) c = c.state ≡ client_connecting
Fits (sleeping _) c = c.state ≡ client_connecting
Fits (fetching _) c = c.state ≡ client_connecting
Fits (connecting _ _ _) c = c.state ≡ client_connecting
Fits opening c = (c.state ≡ client_connecting) × ((session : ℕ) × (c.session ≡ some session))
Fits listening c = (c.state ≡ client_connected) × ((session : ℕ) × (c.session ≡ some session))
Fits (draining _) c = (c.state ≡ client_connected) × ((session : ℕ) × (c.session ≡ some session))
Fits (ended _) c = IsRunning c.state
Fits returned c = (c.state ≡ client_closed) × (c.closed ≡ true)

pub record IsSound (m : Machine) : Type 0 where
  pub fits : Fits m.pc m.client
  pub counted : m.client.requests ≡ count_requests m.handlers

-- What a turn of `Start` gives: it fits, and the requests are counted as before.
abbrev pub Keeps : Client → Pc × Client → Type 0
Keeps c (pc, d) = Fits pc d × (d.requests ≡ c.requests)

pub start-Keeps : (c : Client) → Keeps c (start c)
unfolding start change_state
start-Keeps c = (inl refl, refl)

pub loop_head-Keeps : (last : Option Error) (c : Client) → Keeps c (loop_head last c)
unfolding loop_head change_state
loop_head-Keeps last c = elim (Bool-cases (is_retry c.state)) [
  | inl y ↦ rw (y, loop_head) (refl, refl)
  | inr n ↦ rw (n, loop_head) (refl, refl)
]

pub back_off-Keeps :
    (pause : Option ℕ) (last : Option Error) (c : Client)
    → c.state ≡ client_connecting
    → Keeps c (back_off pause last c)
unfolding back_off change_state set_closed
back_off-Keeps none last c f = ((refl, refl), refl)
back_off-Keeps (some dur) last c f = (f, refl)

pub unless_closed_open :
    (last : Option Error) (pc : Pc) (c : Client)
    → c.closed ≡ false
    → unless_closed last pc c ≡ (pc, c)
unfolding unless_closed
unless_closed_open last pc c n = rw (n, unless_closed)

pub unless_closed_closed :
    (last : Option Error) (pc : Pc) (c : Client)
    → c.closed ≡ true
    → unless_closed last pc c ≡ (returned, (change_state client_closed last c).1)
unfolding unless_closed
unless_closed_closed last pc c y = rw (y, unless_closed)

pub unless_closed-Keeps :
    (last : Option Error) (pc : Pc) (c : Client) → Fits pc c → Keeps c (unless_closed last pc c)
unfolding change_state
unless_closed-Keeps last pc c f = elim (Bool-cases c.closed) [
  | inl y ↦ subst (Keeps c) (sym (unless_closed_closed last pc c y)) ((refl, y), refl)
  | inr n ↦ subst (Keeps c) (sym (unless_closed_open last pc c n)) (f, refl)
]

pub fetch_settings-Keeps :
    (io : FetchIo) (c : Client) → c.state ≡ client_connecting → Keeps c (fetch_settings io c)
unfolding fetch_settings set_closed
fetch_settings-Keeps io c f = elim (Result-cases (fetch_all io c.config)) [
  | inl (x, e) ↦ rw (e, fetch_settings) (f, refl)
  | inr (x, e) ↦ rw (e, fetch_settings) (inr (rw f connecting_runs), refl)
]

assign_session-Keeps :
    (r : Result Error ℕ) (c : Client) → c.state ≡ client_connecting → Keeps c (assign_session r c)
unfolding assign_session
assign_session-Keeps (ok session) c f = ((f, (session, refl)), refl)
assign_session-Keeps (err e) c f = (rw f connecting_runs, refl)

answered-Keeps : (io : OpenIo) (c : Client) → c.state ≡ client_connecting → Keeps c (answered io c)
unfolding answered
answered-Keeps io c f = elim (Result-cases (accept_response io)) [
  | inl (x, e) ↦ rw (e, answered) (assign_session-Keeps io.yamux_client c f)
  | inr (x, e) ↦ rw (e, answered) (rw f connecting_runs, refl)
]

greet-Keeps :
    (io : GreetIo) (stream : ℕ) (c : Client) → Fits opening c → Keeps c (greet io stream c)
unfolding greet begin_listening change_state start_notify_if_needed
greet-Keeps io stream c (f, (session, l)) = elim (Result-cases (greet_server io)) [
  | inr (x, e) ↦ rw (e, greet) (rw f connecting_runs, refl)
  | inl (x, e) ↦ rw (e, greet) ((refl, (session, l)), refl)
]

pub on_opened-Keeps :
    (o : Opened) (io : GreetIo) (c : Client) → Fits opening c → Keeps c (on_opened o io c)
unfolding on_opened
on_opened-Keeps (opened stream) io c f = greet-Keeps io stream c f
on_opened-Keeps (open_failed e) io c f = (rw f.0 connecting_runs, refl)
on_opened-Keeps (open_timed_out late) io c f = (rw f.0 connecting_runs, refl)

pub disconnect-Keeps : (e : Error) (c : Client) → Keeps c (disconnect e c)
unfolding disconnect change_state
disconnect-Keeps e c = (disconnected_runs, refl)

module _ (sign : Sign) (encode : ConnectionConfig → Bytes) where
  pub connect_session-Keeps :
      (io : OpenIo) (identifier signature_key : Bytes) (c : Client)
      → c.state ≡ client_connecting
      → Keeps c (connect_session sign encode io identifier signature_key c)
  unfolding connect_session
  connect_session-Keeps io identifier signature_key c f = elim (Result-cases (open_conn io)) [
    | inl (x, e) ↦ rw (e, connect_session) (answered-Keeps io _ f)
    | inr (x, e) ↦ rw (e, connect_session) (rw f connecting_runs, refl)
  ]

-- A change beside `Start` that leaves the state and the session, and closes at most.
pub record IsBeside (c d : Client) : Type 0 where
  pub same_state : d.state ≡ c.state
  pub same_session : d.session ≡ c.session
  pub still_closed : c.closed ≡ true → d.closed ≡ true

pub Fits-beside : (pc : Pc) (c d : Client) → IsBeside c d → Fits pc c → Fits pc d
Fits-beside idle c d b f = b.same_state ∙ f
Fits-beside (looping last) c d b f = rw b.same_state f
Fits-beside (backing_off last) c d b f = b.same_state ∙ f
Fits-beside (sleeping last) c d b f = b.same_state ∙ f
Fits-beside (fetching last) c d b f = b.same_state ∙ f
Fits-beside (connecting i a k) c d b f = b.same_state ∙ f
Fits-beside opening c d b (f, (s, l)) = (b.same_state ∙ f, (s, b.same_session ∙ l))
Fits-beside listening c d b (f, (s, l)) = (b.same_state ∙ f, (s, b.same_session ∙ l))
Fits-beside (draining e) c d b (f, (s, l)) = (b.same_state ∙ f, (s, b.same_session ∙ l))
Fits-beside (ended e) c d b f = rw b.same_state f
Fits-beside returned c d b (f, y) = (b.same_state ∙ f, b.still_closed y)

count_requests-append :
    (before after : List Handler)
    → count_requests (before ++ after) ≡ count_requests before + count_requests after
count_requests-append [] after = omega arith
count_requests-append (h ∷ before) after = omega (arith, count_requests-append before after)

pub at-IsSound :
    (m : Machine) (pc : Pc) (r : Pc × Client)
    → IsSound m
    → m.pc ≡ pc
    → (Fits pc m.client → Keeps m.client r)
    → IsSound (at m r)
at-IsSound m pc r v e keep =
    let (f, n) = keep (subst (λ p. Fits p m.client) e v.fits) in
    record { fits = f; counted = n ∙ v.counted }

pub receive-IsSound :
    (m : Machine) (msg : ControlMessage) (stream : Result Error ℕ)
    → IsSound m
    → m.pc ≡ listening
    → IsSound (at_handlers m (receive msg stream m.client))
unfolding receive
receive-IsSound m msg (err x) v e =
    let (f, _) = subst (λ p. Fits p m.client) e v.fits in
    record { fits = rw f connected_runs; counted = v.counted }
receive-IsSound m msg (ok remote) v e = record {
  fits = subst (λ p. Fits p m.client) e v.fits;
  counted = omega (arith, v.counted);
}

pub finish_request-IsSound :
    (m : Machine) (before after : List Handler) (h : Handler)
    → IsSound m
    → m.handlers ≡ before ++ h ∷ after
    → IsSound (record m { handlers = before ++ after; client = finish_request h m.client })
unfolding finish_request
finish_request-IsSound m before after h v e = record {
  fits =
      Fits-beside m.pc m.client (finish_request h m.client)
        (record { same_state = refl; same_session = refl; still_closed = λ y. y }) v.fits;
  counted = omega (
    arith,
    v.counted,
    ap count_requests e,
    count_requests-append before (h ∷ after),
    count_requests-append before after,
  );
}

pub close-IsSound : (m : Machine) → IsSound m → IsSound (close m)
unfolding close set_closed
close-IsSound m v = elim (Option-cases m.client.session) [
  | inl n ↦ subst IsSound (ap (λ x. close_with x m) (sym n)) (record {
    fits =
        Fits-beside m.pc m.client (set_closed true m.client)
          (record { same_state = refl; same_session = refl; still_closed = λ y. refl }) v.fits;
    counted = v.counted;
  })
  | inr (s, l) ↦ subst IsSound (ap (λ x. close_with x m) (sym l)) (record {
    fits =
        Fits-beside m.pc m.client (emit (go_away (some s)) m.client)
          (record { same_state = refl; same_session = refl; still_closed = λ y. y }) v.fits;
    counted = v.counted;
  })
]
