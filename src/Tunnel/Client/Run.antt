-- ===== src/Tunnel/Client/Run.antt =====
-- `Start` and `Close` of tunnel/client.go as steps of the goroutines that run them. A step is what
-- happens between two points where another goroutine can make a difference.
pub mod Sound
pub mod Reachable
pub mod Closing
pub mod Returning
pub mod Recovery
pub mod Moves
pub mod Events
use mylittleproxy.Base.{
  ℕ, zero, suc, Bytes, Bool, true, false, Option, none, some, List, [], ◌∷◌, ◌++◌, ◌≡◌, Result, ok,
  err, ◌>>=◌, if◌then◌else◌,
}
use mylittleproxy.Proto.{ConnectionConfig, ControlMessage}
use mylittleproxy.Tunnel.Errors.{Error, redial_aborted}
use mylittleproxy.Tunnel.ClientState.{client_started, client_connecting, client_closed}
use mylittleproxy.Tunnel.Server.Handshake.{Sign}
use mylittleproxy.Tunnel.Client.{
  Client, ClientSettings, reset_backoff, emit, change_state, set_closed, is_retry, go_away,
  close_session, new_client,
}
use mylittleproxy.Tunnel.Client.Connect.{
  Pc, idle, looping, backing_off, sleeping, fetching, connecting, opening, listening, draining,
  ended, returned, OpenIo, GreetIo, Handler, connect_session, connect_stream, receive,
  finish_request, disconnect,
}

-- What the functions that fetch settings would return.
pub record FetchIo : Type 0 where
  pub identifier : Result Error Bytes
  pub server_addr : Result Error Bytes
  pub signature_key : Result Error Bytes

abbrev pub fetch : Bool → Result Error Bytes → Bytes → Result Error Bytes
fetch true fetched field = fetched
fetch false fetched field = ok field

-- `Start` up to its loop.
unfoldable pub start : Client → Pc × Client
unfolding change_state
start c = (looping none, emit (reset_backoff ∷ []) (change_state client_started none c).1)

-- The head of the loop.
unfoldable pub loop_head : Option Error → Client → Pc × Client
unfolding change_state
loop_head last c =
    let (prev, c') = change_state client_connecting last c in
    (if is_retry prev then backing_off last else fetching last, c')

-- What `NextBackOff` gives; `none` is a negative duration.
unfoldable pub back_off : Option ℕ → Option Error → Client → Pc × Client
unfolding change_state set_closed
back_off none last c =
    (returned, (change_state client_closed (some redial_aborted) (set_closed true c)).1)
back_off (some dur) last c = (sleeping last, c)

-- `if c.isClosed() { … return }`, or what follows.
unfoldable pub unless_closed : Option Error → Pc → Client → Pc × Client
unfolding change_state
unless_closed last pc c =
    if c.closed then (returned, (change_state client_closed last c).1) else (pc, c)

abbrev pub fetched : Result Error (Bytes × Bytes × Bytes) → Client → Pc × Client
fetched (err e) c = (looping (some e), c)
fetched (ok (identifier, server_addr, signature_key)) c =
    (connecting identifier server_addr signature_key, set_closed false c)

unfoldable pub fetch_all : FetchIo → ClientSettings → Result Error (Bytes × Bytes × Bytes)
fetch_all io c = do
  identifier ← fetch c.fetches_identifier io.identifier c.identifier
  server_addr ← fetch c.fetches_server_addr io.server_addr c.server_addr
  signature_key ← fetch c.fetches_signature_key io.signature_key c.signature_key
  ok (identifier, server_addr, signature_key)

unfoldable pub fetch_settings : FetchIo → Client → Pc × Client
unfolding fetch_all set_closed
fetch_settings io c = fetched (fetch_all io c.config) c

-- `waiting` calls of `Close` wait for requests to finish, at most 10 seconds; `finishing` ones have
-- closed the session.
pub record Machine : Type 0 where
  pub client : Client
  pub pc : Pc
  pub handlers : List Handler
  pub waiting : ℕ
  pub finishing : ℕ

abbrev pub at : Machine → Pc × Client → Machine
at m (pc, c) = record m { pc = pc; client = c }

abbrev pub at_handlers : Machine → Pc × Client × List Handler → Machine
at_handlers m (pc, c, hs) = record m { pc = pc; client = c; handlers = hs ++ m.handlers }

abbrev pub close_with : Option ℕ → Machine → Machine
close_with none m = record m { client = set_closed true m.client }
close_with (some session) m = record m {
  client = emit (go_away (some session)) m.client;
  waiting = suc m.waiting;
}

-- `Close` up to the wait; without a session it returns an error at once.
unfoldable pub close : Machine → Machine
unfolding set_closed
close m = close_with m.client.session m

-- The machine of a client that was just made.
abbrev pub new_machine : Client → Machine
new_machine c = record { client = c; pc = idle; handlers = []; waiting = 0; finishing = 0 }

pub data CanStart : Pc → Type 0 where
  first : CanStart idle
  again : CanStart returned

module _ (sign : Sign) (encode : ConnectionConfig → Bytes) where
  -- One step, with what the step's calls return. The first eleven are of the goroutine of `Start`,
  -- then come the proxying goroutines, calls of `Close`, and a reader of `StartNotify`.
  pub data Step (m : Machine) : Machine → Type 0 where
    heads : (last : Option Error) → m.pc ≡ looping last → Step m (at m (loop_head last m.client))
    backs_off :
        (last : Option Error) (pause : Option ℕ)
        → m.pc ≡ backing_off last
        → Step m (at m (back_off pause last m.client))
    wakes :
        (last : Option Error)
        → m.pc ≡ sleeping last
        → Step m (at m (unless_closed last (fetching last) m.client))
    fetches :
        (last : Option Error) (io : FetchIo)
        → m.pc ≡ fetching last
        → Step m (at m (fetch_settings io m.client))
    connects :
        (identifier server_addr signature_key : Bytes) (io : OpenIo)
        → m.pc ≡ connecting identifier server_addr signature_key
        → Step m (at m (connect_session sign encode io identifier signature_key m.client))
    greets : (io : GreetIo) → m.pc ≡ opening → Step m (at m (connect_stream io m.client))
    receives :
        (msg : ControlMessage) (stream : Result Error ℕ)
        → m.pc ≡ listening
        → Step m (at_handlers m (receive msg stream m.client))
    breaks : (e : Error) → m.pc ≡ listening → Step m (record m { pc = draining e })
    drains :
        (e : Error)
        → m.pc ≡ draining e
        → m.client.requests ≡ 0
        → Step m (at m (disconnect e m.client))
    ends :
        (e : Error)
        → m.pc ≡ ended e
        → Step m (at m (unless_closed (some e) (looping (some e)) m.client))
    finishes :
        (before after : List Handler) (h : Handler)
        → m.handlers ≡ before ++ h ∷ after
        → Step m (record m { handlers = before ++ after; client = finish_request h m.client })
    closes : Step m (close m)
    closes_session :
        (n : ℕ)
        → m.waiting ≡ suc n
        → Step m (record m {
          waiting = n;
          finishing = suc m.finishing;
          client = emit (close_session m.client.session) m.client;
        })
    closed :
        (n : ℕ)
        → m.finishing ≡ suc n
        → Step m (record m { finishing = n; client = set_closed true m.client })
    notifies : Step m (record m { client = record m.client { start_notify = false } })

  pub data Steps (m : Machine) : Machine → Type 0 where
    here : Steps m m
    next : {n o : Machine} → Steps m n → Step n o → Steps m o

  -- The machines that a new client gets to. `Start` is called by one goroutine at a time.
  pub data Reach (c : Client) : Machine → Type 0 where
    new : Reach c (new_machine c)
    starts : {m : Machine} → Reach c m → CanStart m.pc → Reach c (at m (start m.client))
    steps : {m n : Machine} → Reach c m → Step m n → Reach c n
