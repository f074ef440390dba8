-- ===== src/Tunnel/Client.antt =====
-- tunnel/client.go: the client that keeps a control connection open. Here are its state and the
-- methods that change it; Run has the loop of `Start` and what runs beside it.
pub mod Connect
pub mod Run
pub mod Leaks
mod Tests
use mylittleproxy.Base.{
  ℕ, ◌+◌, ◌-◌, Bytes, Bool, true, false, ◌&&◌, ◌||◌, not, Option, none, some, List, [], ◌∷◌, ◌++◌,
  Map, Result, ok, err, is_empty, if◌then◌else◌,
}
use mylittleproxy.Proto.{ConnectionConfig, ControlMessage}
use mylittleproxy.Tunnel.Errors.{Error, no_server_addr, no_identifier}
use mylittleproxy.Tunnel.ClientState.{
  ClientState, client_unknown, client_started, client_connecting, client_connected,
  client_disconnected, client_closed, ClientStateChange, Channel, notify,
}
use mylittleproxy.Tunnel.Headers.{validate_custom_headers}
use mylittleproxy.Tunnel.Server.Connect.{Request}

-- `tunnel.ClientConfig`. Of a function field the record says whether it is set; `yamux_config` is
-- what `yamux.VerifyConfig` says of one that is set.
pub record ClientSettings : Type 0 where
  pub identifier : Bytes
  pub signature_key : Bytes
  pub fetches_identifier : Bool
  pub server_addr : Bytes
  pub fetches_server_addr : Bool
  pub fetches_signature_key : Bool
  pub state_changes : Option Channel
  pub yamux_config : Option (Option Error)
  pub connection_config : ConnectionConfig
  pub custom_headers : Map Bytes
  pub control_path : Bytes
  pub control_method : Bytes

-- What the client does to the world outside its own state. Numbers name sessions, connections and
-- streams.
pub data ClientEffect : Type 0 where
  reset_backoff : ClientEffect
  sent_request : (conn : ℕ) → Request → ClientEffect
  wrote : (stream : ℕ) → Bytes → ClientEffect
  closed_stream : (stream : ℕ) → ClientEffect
  went_away : (session : ℕ) → ClientEffect
  closed_session : (session : ℕ) → ClientEffect
  proxied : (stream : ℕ) → ControlMessage → ClientEffect

-- `start_notify` says whether the channel, of capacity 1, holds its value; `requests` is the counter
-- of `reqWg`. `ctrlWg` is left out: `listenControl` and the wait for it run one after the other.
pub record Client : Type 0 where
  pub config : ClientSettings
  pub session : Option ℕ
  pub start_notify : Bool
  pub closed : Bool
  pub requests : ℕ
  pub state : ClientState
  pub state_ch : Option Channel
  pub effects : List ClientEffect

abbrev refusal : Option (Option Error) → Map Bytes → Option Error
refusal (some (some e)) headers = some e
refusal (some none) headers = validate_custom_headers headers
refusal none headers = validate_custom_headers headers

unfoldable pub verify : ClientSettings → Option Error
unfolding validate_custom_headers
verify c =
    if is_empty c.server_addr && not c.fetches_server_addr
    then some no_server_addr
    else if is_empty c.identifier && not c.fetches_identifier
    then some no_identifier
    else refusal c.yamux_config c.custom_headers

unfoldable pub new_client : ClientSettings → Result Error Client
new_client c = elim (verify c) [
  | some e ↦ err e
  | none ↦ ok (record {
    config = c;
    session = none;
    start_notify = false;
    closed = false;
    requests = 0;
    state = client_unknown;
    state_ch = c.state_changes;
    effects = [];
  })
]

abbrev pub emit : List ClientEffect → Client → Client
emit es c = record c { effects = c.effects ++ es }

-- The state before, and the client after. Only one goroutine changes the state, so the
-- `CompareAndSwap` swaps.
unfoldable pub change_state : ClientState → Option Error → Client → ClientState × Client
unfolding notify
change_state state e c = (
  c.state,
  record c {
    state = state;
    state_ch =
        notify
          (record {
            identifier = c.config.identifier;
            previous = c.state;
            current = state;
            error = e;
          })
          c.state_ch;
  },
)

-- Opening the client again also empties the channel.
unfoldable pub set_closed : Bool → Client → Client
set_closed closed c = record c { closed = closed; start_notify = c.start_notify && closed }

unfoldable pub start_notify_if_needed : Client → Client
start_notify_if_needed c = record c { start_notify = c.start_notify || not c.closed }

abbrev pub is_retry : ClientState → Bool
is_retry client_started = false
is_retry client_closed = false
is_retry _ = true

-- `c.session.GoAway()` and `c.session.Close()`.
abbrev pub go_away : Option ℕ → List ClientEffect
go_away none = []
go_away (some session) = went_away session ∷ []

abbrev pub close_session : Option ℕ → List ClientEffect
close_session none = []
close_session (some session) = closed_session session ∷ []
