-- ===== src/Tunnel/Client/Run/Recovery.antt =====
-- A client that is not closed can always get connected again.
use mylittleproxy.Base.{
  Bytes, ◌≡◌, refl, ap, ◌∙◌, subst, inl, inr, Bool, true, false, Option, none, some, [], ok,
  Bool-cases, ◌==◌, if◌then◌else◌,
}
use mylittleproxy.Proto.{ConnectionConfig, connected, handshake_response}
use mylittleproxy.Tunnel.Errors.{Error, decoding_control}
use mylittleproxy.Tunnel.ClientState.{client_connected}
use mylittleproxy.Tunnel.Server.Handshake.{Sign}
use mylittleproxy.Tunnel.Client.{
  Client, ClientSettings, new_client, set_closed, change_state, start_notify_if_needed, is_retry,
}
use mylittleproxy.Tunnel.Client.Connect.{
  Pc, idle, looping, backing_off, sleeping, fetching, connecting, opening, listening, draining,
  ended, returned, OpenIo, GreetIo, opened, connect_session, connect_stream, on_opened, greet,
  greet_server, greeted, begin_listening, answered, accept_response, check_response, assign_session,
  open_conn, disconnect,
}
use mylittleproxy.Tunnel.Client.Run.{
  Machine, FetchIo, fetch, fetched, fetch_all, fetch_settings, loop_head, back_off, unless_closed,
  at, Step, heads, backs_off, wakes, fetches, connects, greets, drains, ends, Steps, here, next,
  Reach,
}
use mylittleproxy.Tunnel.Client.Run.Sound.{Fits, IsSound, unless_closed_open}
use mylittleproxy.Tunnel.Client.Run.Reachable.{Reach-IsSound}
use mylittleproxy.Tunnel.Client.Run.Closing.{finish_all}

-- `Start` is in its loop.
abbrev pub IsBusy : Pc → Type 0
IsBusy idle = ⊥
IsBusy returned = ⊥
IsBusy _ = Unit

abbrev good_fetch : FetchIo
good_fetch = record { identifier = ok []; server_addr = ok []; signature_key = ok [] }

abbrev good_open : OpenIo
good_open = record {
  dial = ok 0;
  remote = [];
  new_request = none;
  write = none;
  read_response = ok (record { status_code = 200; status = connected; body = ok [] });
  yamux_client = ok 0;
}

abbrev good_greeting : GreetIo
good_greeting = record { session_open = opened 0; write = none; read = ok handshake_response }

fetch-ok : (set : Bool) (field : Bytes) → fetch set (ok []) field ≡ ok (if set then [] else field)
fetch-ok true field = refl
fetch-ok false field = refl

fetch_all-good :
    (c : ClientSettings) → (x : Bytes × Bytes × Bytes) × (fetch_all good_fetch c ≡ ok x)
unfolding fetch_all
fetch_all-good c = (
  (
    if c.fetches_identifier then [] else c.identifier,
    if c.fetches_server_addr then [] else c.server_addr,
    if c.fetches_signature_key then [] else c.signature_key,
  ),
  rw (
    fetch-ok c.fetches_identifier c.identifier,
    fetch-ok c.fetches_server_addr c.server_addr,
    fetch-ok c.fetches_signature_key c.signature_key,
  ),
)

module _ (sign : Sign) (encode : ConnectionConfig → Bytes) where
  -- Some steps lead to a connected client.
  abbrev pub CanConnect : Machine → Type 0
  CanConnect m =
      (n : Machine) × Steps sign encode m n
      × (n.pc ≡ listening)
      × (n.client.state ≡ client_connected)

  first : {m n o : Machine} → Step sign encode m n → Steps sign encode n o → Steps sign encode m o
  first st here = next here st
  first st (next r u) = next (first st r) u

  step_on : {m n : Machine} → Step sign encode m n → CanConnect n → CanConnect m
  step_on st (n, r, p, q) = (n, first st r, p, q)

  join : {m n : Machine} → Steps sign encode m n → CanConnect n → CanConnect m
  join here c = c
  join (next r st) c = join r (step_on st c)

  opening-CanConnect : (m : Machine) → m.pc ≡ opening → CanConnect m
  unfolding connect_stream on_opened greet greet_server greeted begin_listening change_state
      start_notify_if_needed ◌==◌
  opening-CanConnect m p = (_, next here (greets good_greeting p), refl, refl)

  connecting-CanConnect : (m : Machine) (i a k : Bytes) → m.pc ≡ connecting i a k → CanConnect m
  unfolding connect_session answered accept_response check_response assign_session open_conn ◌==◌
  connecting-CanConnect m i a k p =
      let r = connect_session sign encode good_open i k m.client in
      step_on {m = m} (connects i a k good_open p) (opening-CanConnect (at m r) refl)

  fetching-CanConnect : (m : Machine) (last : Option Error) → m.pc ≡ fetching last → CanConnect m
  unfolding fetch_settings set_closed
  fetching-CanConnect m last p =
      let ((i, a, k), e) = fetch_all-good m.client.config in
      let r = fetch_settings good_fetch m.client in
      step_on {m = m} (fetches last good_fetch p)
        (connecting-CanConnect (at m r) i a k (ap (λ x. (fetched x m.client).0) e))

  sleeping-CanConnect :
      (m : Machine) (last : Option Error)
      → m.pc ≡ sleeping last
      → m.client.closed ≡ false
      → CanConnect m
  sleeping-CanConnect m last p y =
      let r = unless_closed last (fetching last) m.client in
      step_on {m = m} (wakes last p) (
        fetching-CanConnect (at m r) last
          (ap (λ (x : Pc × Client). x.0) (unless_closed_open last (fetching last) m.client y)))

  backing_off-CanConnect :
      (m : Machine) (last : Option Error)
      → m.pc ≡ backing_off last
      → m.client.closed ≡ false
      → CanConnect m
  unfolding back_off
  backing_off-CanConnect m last p y =
      step_on {m = m} (backs_off last (some 0) p)
        (sleeping-CanConnect (at m (back_off (some 0) last m.client)) last refl y)

  looping-CanConnect :
      (m : Machine) (last : Option Error)
      → m.pc ≡ looping last
      → m.client.closed ≡ false
      → CanConnect m
  unfolding loop_head change_state
  looping-CanConnect m last p y =
      let n = at m (loop_head last m.client) in
      elim (Bool-cases (is_retry m.client.state)) [
        | inl retry ↦ step_on {m = m} (heads last p) (
            backing_off-CanConnect n last
              (ap (λ b. if b then backing_off last else fetching last) retry) y)
        | inr fresh ↦ step_on {m = m} (heads last p) (
            fetching-CanConnect n last
              (ap (λ b. if b then backing_off last else fetching last) fresh))
      ]

  ended-CanConnect :
      (m : Machine) (e : Error) → m.pc ≡ ended e → m.client.closed ≡ false → CanConnect m
  ended-CanConnect m e p y =
      let o = unless_closed_open (some e) (looping (some e)) m.client y in
      step_on {m = m} (ends e p) (
        looping-CanConnect (at m (unless_closed (some e) (looping (some e)) m.client)) (some e)
          (ap (λ (x : Pc × Client). x.0) o) (ap (λ (x : Pc × Client). x.1.closed) o ∙ y))

  draining-CanConnect :
      (m : Machine) (e : Error)
      → IsSound m
      → m.pc ≡ draining e
      → m.client.closed ≡ false
      → CanConnect m
  unfolding disconnect change_state
  draining-CanConnect m e v p y =
      let (o, r, q, z, none_left) = finish_all sign encode false m.handlers m e here refl v p y in
      join r (
        step_on {m = o} (drains e q none_left)
          (ended-CanConnect (at o (disconnect e o.client)) (decoding_control e) refl z))

  sound-CanConnect :
      (pc : Pc) (m : Machine)
      → IsSound m
      → m.pc ≡ pc
      → IsBusy pc
      → m.client.closed ≡ false
      → CanConnect m
  sound-CanConnect idle m v p b y = absurd b
  sound-CanConnect returned m v p b y = absurd b
  sound-CanConnect (looping last) m v p b y = looping-CanConnect m last p y
  sound-CanConnect (backing_off last) m v p b y = backing_off-CanConnect m last p y
  sound-CanConnect (sleeping last) m v p b y = sleeping-CanConnect m last p y
  sound-CanConnect (fetching last) m v p b y = fetching-CanConnect m last p
  sound-CanConnect (connecting i a k) m v p b y = connecting-CanConnect m i a k p
  sound-CanConnect opening m v p b y = opening-CanConnect m p
  sound-CanConnect listening m v p b y = (m, here, p, (subst (λ x. Fits x m.client) p v.fits).0)
  sound-CanConnect (draining e) m v p b y = draining-CanConnect m e v p y
  sound-CanConnect (ended e) m v p b y = ended-CanConnect m e p y

  -- Wherever the goroutine of `Start` of a new client has got to, under every interleaving with calls
  -- of `Close` and with proxied requests, as long as it runs and the client is not flagged closed,
  -- there are steps that get it connected: no failure leaves it stuck.
  pub Reach-CanConnect :
      (config : ClientSettings) (c : Client) {m : Machine}
      → new_client config ≡ ok c
      → Reach sign encode c m
      → IsBusy m.pc
      → m.client.closed ≡ false
      → CanConnect m
  Reach-CanConnect config c {m} made r b y =
      sound-CanConnect m.pc m (Reach-IsSound sign encode config c made r) refl b y
