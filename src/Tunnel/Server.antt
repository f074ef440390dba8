-- ===== src/Tunnel/Server.antt =====
-- The state of tunnel/server.go's `Server`, and the operations on it that the handlers are made of.
-- Each one holds the mutex of what it touches from start to end, but for the hosts in `delete_session`,
-- which Threads takes apart. Logging is left out.
pub mod Handshake
pub mod Connect
pub mod Dial
pub mod Exchange
pub mod Public
pub mod Invariant
pub mod Admission
pub mod Release
pub mod Outcomes
pub mod Conclude
pub mod Sequels
pub mod Steps
pub mod PublicSteps
pub mod Reach
pub mod Routing
pub mod Unreachable
pub mod Isolation
pub mod Streams
pub mod Threads
pub mod Samples
mod Tests
mod PublicTests
use mylittleproxy.Base.{
  ℕ, Bytes, Bool, true, false, Option, none, some, List, [], ◌∷◌, ◌++◌, map, length, get_elem?, Map,
  lookup, insert, delete, Result, ok, err, if◌then◌else◌,
}
use mylittleproxy.Proto.{ControlMessage}
use mylittleproxy.Tunnel.Errors.{Error, no_session_for}
use mylittleproxy.Tunnel.ClientState.{
  ClientState, client_unknown, client_connected, client_closed, ClientStateChange, Channel, notify,
}
use mylittleproxy.Tunnel.Controls.{
  Control, Heap, Controls, new_control, update, mark_closed, closed_conn, identify,
}
use mylittleproxy.Tunnel.Callbacks.{Callbacks, call}
use mylittleproxy.Tunnel.VirtualHosts.{
  VirtualHosts, VirtualHost, delete_host, get_virtual_host, new_virtual_hosts,
}

-- What the server does to the world outside its own state. Numbers name sessions, connections,
-- streams and callback functions.
pub data Effect : Type 0 where
  go_away : ℕ → Effect
  close_session : ℕ → Effect
  close_conn : ℕ → Effect
  write : ℕ → Bytes → Effect
  send_message : (control : ℕ) → ControlMessage → Effect
  run_callback : ℕ → Effect
  forward_request : (stream : ℕ) → (path : Bytes) → Effect
  join_streams : (conn stream : ℕ) → Effect

-- What `NewServer` sets once and for all.
pub record Settings (R : Type 0) : Type 0 where
  pub signature_key : Bytes
  pub allowed_hosts : List R
  pub allowed_clients : List Bytes
  pub control_path : Bytes
  pub control_method : Bytes

-- A session is a `*yamux.Session`, which may be nil. `heap` holds the control objects, and `effects`
-- what was done outside, the latest last.
pub record Server (R : Type 0) : Type 0 where
  pub settings : Settings R
  pub sessions : Map (Option ℕ)
  pub controls : Controls
  pub heap : Heap
  pub virtual_hosts : VirtualHosts R
  pub on_connect_callbacks : Callbacks
  pub on_disconnect_callbacks : Callbacks
  pub states : Map ClientState
  pub state_ch : Option Channel
  pub effects : List Effect

-- The server that `NewServer` makes.
abbrev pub initial : {R : Type 0} → Settings R → Option Channel → Server R
initial settings ch = record {
  settings = settings;
  sessions = [];
  controls = [];
  heap = [];
  virtual_hosts = new_virtual_hosts;
  on_connect_callbacks = [];
  on_disconnect_callbacks = [];
  states = [];
  state_ch = ch;
  effects = [];
}

-- Go gives the zero value, `ClientUnknown`, for a missing key.
abbrev pub state_of : Option ClientState → ClientState
state_of none = client_unknown
state_of (some st) = st

abbrev pub stop_session : Option ℕ → List Effect
stop_session none = []
stop_session (some session) = go_away session ∷ close_session session ∷ []

module _ {R : Type 0} where
  abbrev pub emit : List Effect → Server R → Server R
  emit es s = record s { effects = s.effects ++ es }

  pub change_state : Bytes → ClientState → Option Error → Server R → ClientState × Server R
  change_state identifier state e s =
      let prev = state_of (lookup identifier s.states) in
      (
        prev,
        record s {
          states = insert identifier state s.states;
          state_ch =
              notify
                (record { identifier = identifier; previous = prev; current = state; error = e })
                s.state_ch;
        },
      )

  pub on_connect : Bytes → Server R → Server R
  unfolding change_state
  on_connect identifier s =
      let r = call identifier s.on_connect_callbacks in
      (change_state identifier client_connected none
        (emit (map run_callback r.1) (record s { on_connect_callbacks = r.2 }))).1

  pub on_disconnect : Bytes → Option Error → Server R → Server R
  unfolding change_state
  on_disconnect identifier e s =
      let r = call identifier s.on_disconnect_callbacks in
      (change_state identifier client_closed e
        (emit (map run_callback r.1) (record s { on_disconnect_callbacks = r.2 }))).1

  pub get_session : Bytes → Server R → Result Error (Option ℕ)
  get_session identifier s = elim (lookup identifier s.sessions) [
    | none ↦ err (no_session_for identifier)
    | some session ↦ ok session
  ]

  unfoldable pub add_session : Bytes → Option ℕ → Server R → Server R
  add_session identifier session s = record s { sessions = insert identifier session s.sessions }

  -- The virtual hosts after `deleteSession` of an identifier that had a session.
  pub release_host : Bytes → VirtualHosts R → VirtualHosts R
  release_host identifier v = elim (get_virtual_host identifier v) [
    | none ↦ v
    | some (hst, host_id) ↦ delete_host host_id v
  ]

  pub delete_session : Bytes → Server R → Server R
  unfolding release_host
  delete_session identifier s = elim (lookup identifier s.sessions) [
    | none ↦ s
    | some session ↦ record s {
      sessions = delete identifier s.sessions;
      virtual_hosts = release_host identifier s.virtual_hosts;
      effects = s.effects ++ stop_session session;
    }
  ]

  -- `newControl` and `addControl`: a new object on the heap, registered under the identifier.
  unfoldable pub add_control : Bytes → ℕ → Server R → Server R
  add_control identifier stream s = record s {
    controls = insert identifier (length s.heap) s.controls;
    heap = s.heap ++ identify identifier (new_control stream) ∷ [];
  }

  pub delete_control : Bytes → Server R → Server R
  delete_control identifier s = record s { controls = delete identifier s.controls }

  -- `ct.Close()` for the object at a pointer.
  pub close_control : ℕ → Server R → Server R
  close_control p s = record s {
    heap = update p mark_closed s.heap;
    effects = s.effects ++ map close_conn (closed_conn (get_elem? s.heap p));
  }
