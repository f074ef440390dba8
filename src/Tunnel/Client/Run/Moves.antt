-- ===== src/Tunnel/Client/Run/Moves.antt =====
-- The state diagram of a client, and which move each step of its goroutines makes.
use mylittleproxy.Base.{
  ℕ, Bytes, ◌≡◌, refl, sym, ◌⊎◌, ◌∙◌, subst, inl, inr, Option, none, some, Result, ok, err,
  Result-cases, Bool-cases,
}
use mylittleproxy.Proto.{ConnectionConfig, ControlMessage}
use mylittleproxy.Tunnel.Errors.{Error}
use mylittleproxy.Tunnel.ClientState.{
  ClientState, client_unknown, client_started, client_connecting, client_connected,
  client_disconnected, client_closed, notify,
}
use mylittleproxy.Tunnel.Server.Handshake.{Sign}
use mylittleproxy.Tunnel.Client.{Client, change_state, set_closed, start_notify_if_needed, emit}
use mylittleproxy.Tunnel.Client.Connect.{
  Pc, looping, sleeping, fetching, opening, draining, OpenIo, GreetIo, Opened, opened, open_failed,
  open_timed_out, open_conn, accept_response, assign_session, answered, connect_session, greet,
  greet_server, begin_listening, on_opened, connect_stream, receive, finish_request, disconnect,
  sent_greeting,
}
use mylittleproxy.Tunnel.Client.Run.{
  Machine, FetchIo, fetch_all, fetch_settings, start, loop_head, back_off, close, close_with,
  unless_closed, Step, heads, backs_off, wakes, fetches, connects, greets, receives, breaks, drains,
  ends, finishes, closes, closes_session, closed, notifies, CanStart, first, again,
}
use mylittleproxy.Tunnel.Client.Run.Sound.{
  Fits, IsRunning, connecting_runs, unless_closed_closed, unless_closed_open,
}

-- The state diagram of a client.
pub data IsMove : ClientState → ClientState → Type 0 where
  begins : IsMove client_unknown client_started
  begins_again : IsMove client_closed client_started
  tries : IsMove client_started client_connecting
  tries_again : {s : ClientState} → IsRunning s → IsMove s client_connecting
  succeeds : IsMove client_connecting client_connected
  fails : IsMove client_connected client_disconnected
  gives_up : {s : ClientState} → IsRunning s → IsMove s client_closed

-- What one step does to the state: nothing, or one move, which it reports.
pub data Moves (c d : Client) : Type 0 where
  stays : d.config ≡ c.config → d.state ≡ c.state → d.state_ch ≡ c.state_ch → Moves c d
  moves :
      (t : ClientState) (e : Option Error)
      → d.config ≡ c.config
      → d.state ≡ t
      → IsMove c.state t
      → d.state_ch
        ≡ notify
            (record {
              identifier = c.config.identifier;
              previous = c.state;
              current = t;
              error = e;
            })
            c.state_ch
      → Moves c d

back_off-Moves :
    (pause : Option ℕ) (last : Option Error) (c : Client)
    → c.state ≡ client_connecting
    → Moves c (back_off pause last c).1
unfolding back_off change_state set_closed
back_off-Moves none last c f =
    moves client_closed _ refl refl (rw f (gives_up connecting_runs)) refl
back_off-Moves (some dur) last c f = stays refl refl refl

unless_closed-Moves :
    (last : Option Error) (pc : Pc) (c : Client)
    → IsRunning c.state
    → Moves c (unless_closed last pc c).1
unfolding change_state
unless_closed-Moves last pc c f = elim (Bool-cases c.closed) [
  | inl y ↦
      subst (λ (r : Pc × Client). Moves c r.1) (sym (unless_closed_closed last pc c y))
        (moves client_closed last refl refl (gives_up f) refl)
  | inr n ↦
      subst (λ (r : Pc × Client). Moves c r.1) (sym (unless_closed_open last pc c n))
        (stays refl refl refl)
]

fetch_settings-Moves : (io : FetchIo) (c : Client) → Moves c (fetch_settings io c).1
unfolding fetch_settings set_closed
fetch_settings-Moves io c = elim (Result-cases (fetch_all io c.config)) [
  | inl (x, e) ↦ rw (e, fetch_settings) (stays refl refl refl)
  | inr (x, e) ↦ rw (e, fetch_settings) (stays refl refl refl)
]

assign_session-Moves : (r : Result Error ℕ) (c : Client) → Moves c (assign_session r c).1
unfolding assign_session
assign_session-Moves (ok session) c = stays refl refl refl
assign_session-Moves (err e) c = stays refl refl refl

answered-Moves : (io : OpenIo) (c : Client) → Moves c (answered io c).1
unfolding answered
answered-Moves io c = elim (Result-cases (accept_response io)) [
  | inl (x, e) ↦ rw (e, answered) (assign_session-Moves io.yamux_client c)
  | inr (x, e) ↦ rw (e, answered) (stays refl refl refl)
]

Moves-emit :
    (c d b : Client)
    → d.config ≡ c.config
    → d.state ≡ c.state
    → d.state_ch ≡ c.state_ch
    → Moves d b
    → Moves c b
Moves-emit c d b f s h (stays g t i) = stays (g ∙ f) (t ∙ s) (i ∙ h)
Moves-emit c d b f s h (moves t e g r m i) =
    moves t e (g ∙ f) r (subst (λ x. IsMove x t) s m) (i ∙ rw (f, s, h))

begin_listening-Moves : (c : Client) → c.state ≡ client_connecting → Moves c (begin_listening c).1
unfolding begin_listening change_state start_notify_if_needed
begin_listening-Moves c f = moves client_connected none refl refl (rw f succeeds) refl

greet-Moves :
    (io : GreetIo) (stream : ℕ) (c : Client)
    → c.state ≡ client_connecting
    → Moves c (greet io stream c).1
unfolding greet
greet-Moves io stream c f = elim (Result-cases (greet_server io)) [
  | inr (x, e) ↦ rw (e, greet) (stays refl refl refl)
  | inl (x, e) ↦
      rw (e, greet)
        (Moves-emit c (emit (sent_greeting stream io.write) c) _ refl refl refl
          (begin_listening-Moves _ f))
]

on_opened-Moves :
    (o : Opened) (io : GreetIo) (c : Client)
    → c.state ≡ client_connecting
    → Moves c (on_opened o io c).1
unfolding on_opened
on_opened-Moves (opened stream) io c f = greet-Moves io stream c f
on_opened-Moves (open_failed e) io c f = stays refl refl refl
on_opened-Moves (open_timed_out late) io c f = stays refl refl refl

loop_head-IsMove :
    (s : ClientState) → (s ≡ client_started) ⊎ IsRunning s → IsMove s client_connecting
loop_head-IsMove s (inl e) = rw e tries
loop_head-IsMove s (inr r) = tries_again r

receive-Moves :
    (msg : ControlMessage) (stream : Result Error ℕ) (c : Client) → Moves c (receive msg stream c).1
unfolding receive
receive-Moves msg (ok remote) c = stays refl refl refl
receive-Moves msg (err e) c = stays refl refl refl

close-Moves : (s : Option ℕ) (m : Machine) → Moves m.client (close_with s m).client
unfolding set_closed
close-Moves none m = stays refl refl refl
close-Moves (some session) m = stays refl refl refl

start-IsMove : {pc : Pc} (c : Client) → CanStart pc → Fits pc c → IsMove c.state client_started
start-IsMove c first f = rw f begins
start-IsMove c again (f, y) = rw f begins_again

pub start-Moves :
    (m : Machine) → CanStart m.pc → Fits m.pc m.client → Moves m.client (start m.client).1
unfolding start change_state
start-Moves m s v = moves client_started none refl refl (start-IsMove m.client s v) refl

module _ (sign : Sign) (encode : ConnectionConfig → Bytes) where
  connect_session-Moves :
      (io : OpenIo) (identifier key : Bytes) (c : Client)
      → Moves c (connect_session sign encode io identifier key c).1
  unfolding connect_session
  connect_session-Moves io identifier key c = elim (Result-cases (open_conn io)) [
    | inl (x, e) ↦ rw (e, connect_session) (Moves-emit c _ _ refl refl refl (answered-Moves io _))
    | inr (x, e) ↦ rw (e, connect_session) (stays refl refl refl)
  ]

  pub Step-Moves :
      {m n : Machine} → Step sign encode m n → Fits m.pc m.client → Moves m.client n.client
  unfolding loop_head change_state connect_stream disconnect finish_request set_closed close
  Step-Moves {m} (heads last e) v =
      let f : Fits (looping last) m.client = subst (λ p. Fits p m.client) e v in
      moves client_connecting last refl refl (loop_head-IsMove m.client.state f) refl
  Step-Moves {m} (backs_off last pause e) v =
      back_off-Moves pause last m.client (subst (λ p. Fits p m.client) e v)
  Step-Moves {m} (wakes last e) v =
      let f : Fits (sleeping last) m.client = subst (λ p. Fits p m.client) e v in
      unless_closed-Moves last (fetching last) m.client (rw f connecting_runs)
  Step-Moves {m} (fetches last io e) v = fetch_settings-Moves io m.client
  Step-Moves {m} (connects i a k io e) v = connect_session-Moves io i k m.client
  Step-Moves {m} (greets io e) v =
      let f : Fits opening m.client = subst (λ p. Fits p m.client) e v in
      on_opened-Moves io.session_open io m.client f.0
  Step-Moves {m} (receives msg stream e) v = receive-Moves msg stream m.client
  Step-Moves (breaks x e) v = stays refl refl refl
  Step-Moves {m} (drains x e none_left) v =
      let f : Fits (draining x) m.client = subst (λ p. Fits p m.client) e v in
      moves client_disconnected (some x) refl refl (rw f.0 fails) refl
  Step-Moves {m} (ends x e) v =
      unless_closed-Moves (some x) (looping (some x)) m.client (subst (λ p. Fits p m.client) e v)
  Step-Moves (finishes before after h e) v = stays refl refl refl
  Step-Moves {m} closes v = close-Moves m.client.session m
  Step-Moves (closes_session n e) v = stays refl refl refl
  Step-Moves (closed n e) v = stays refl refl refl
  Step-Moves notifies v = stays refl refl refl
