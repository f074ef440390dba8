-- ===== src/Tunnel/Client/Tests.antt =====
-- A client on small inputs.
use mylittleproxy.Base.{◌≤◌, Bytes, bytes, ◌≡◌, refl, true, false, none, some, [], ◌∷◌, ok, arith}
use mylittleproxy.Proto.{ConnectionConfig}
use mylittleproxy.Tunnel.Errors.{Error, io}
use mylittleproxy.Tunnel.ClientState.{
  client_unknown, client_started, client_connected, ClientStateChange, notify, offer,
}
use mylittleproxy.Tunnel.Headers.{validate_custom_headers}
use mylittleproxy.Tunnel.Server.Samples.{sign, alice, key, config}
use mylittleproxy.Tunnel.Client.{Client, ClientSettings, verify, new_client, change_state}
use mylittleproxy.Tunnel.Client.Connect.{fetching, connecting, listening, draining, OpenIo}
use mylittleproxy.Tunnel.Client.Run.{
  Machine, FetchIo, fetch_all, start, loop_head, close, at, new_machine, first, new, starts, steps,
  heads, breaks, here, next, Reach, Steps,
}
use mylittleproxy.Tunnel.Client.Run.Sound.{IsSound}
use mylittleproxy.Tunnel.Client.Run.Reachable.{Reach-IsSound}
use mylittleproxy.Tunnel.Client.Run.Closing.{IsClosing, Steps-IsClosing, close_forgotten}
use mylittleproxy.Tunnel.Client.Run.Returning.{IsLeaving, left_to_do, Returns, Steps-Returns}
use mylittleproxy.Tunnel.Client.Run.Events.{Leads, Reach-Leads}
use mylittleproxy.Tunnel.Client.Run.Recovery.{CanConnect, Reach-CanConnect}

abbrev encode : ConnectionConfig → Bytes
encode c = []

abbrev client_settings : ClientSettings
client_settings = record {
  identifier = alice;
  signature_key = key;
  fetches_identifier = false;
  server_addr = bytes "s:80";
  fetches_server_addr = false;
  fetches_signature_key = false;
  state_changes = some (record { capacity = 3; queue = [] });
  yamux_config = none;
  connection_config = config;
  custom_headers = [];
  control_path = [];
  control_method = bytes "POST";
}

abbrev made : Client
made = record {
  config = client_settings;
  session = none;
  start_notify = false;
  closed = false;
  requests = 0;
  state = client_unknown;
  state_ch = client_settings.state_changes;
  effects = [];
}

made_new : new_client client_settings ≡ ok made
unfolding new_client verify validate_custom_headers
made_new = refl

abbrev started : Machine
started = at (new_machine made) (start made)

started_reached : Reach sign encode made started
started_reached = starts new first

Reach-IsSound_example : IsSound (at started (loop_head none started.client))
unfolding start
Reach-IsSound_example =
    Reach-IsSound sign encode client_settings made made_new
      (steps started_reached (heads none refl))

Reach-CanConnect_example : CanConnect sign encode (at started (loop_head none started.client))
unfolding start loop_head change_state
Reach-CanConnect_example =
    Reach-CanConnect sign encode client_settings made made_new
      (steps started_reached (heads none refl)) tt refl

abbrev first_change : ClientStateChange
first_change = record {
  identifier = alice;
  previous = client_unknown;
  current = client_started;
  error = none;
}

Reach-Leads_example :
    Leads started.client.config.identifier client_unknown (first_change ∷ []) started.client.state
unfolding start change_state notify offer
Reach-Leads_example =
    Reach-Leads sign encode client_settings made
      (record { capacity = 3; queue = first_change ∷ [] }) (λ ch e. cc) made_new started_reached
      refl (omega arith)

-- Connected, flagged closed, with one request on its way.
abbrev connected_client : Machine
connected_client = record {
  client = record made { session = some 2; closed = true; state = client_connected; requests = 1 };
  pc = listening;
  handlers = record { remote = 5; is_http = true } ∷ [];
  waiting = 0;
  finishing = 0;
}

abbrev eof : Error
eof = io (bytes "EOF")

Steps-IsClosing_example : IsClosing (record connected_client { pc = draining eof })
Steps-IsClosing_example =
    Steps-IsClosing sign encode (next {n = connected_client} here (breaks eof refl))
      (record { past = tt; shut = refl })

-- The control connection of a closed client has broken, while a request is being proxied.
abbrev leaving_client : Machine
leaving_client = record connected_client {
  pc = draining eof;
  client = record connected_client.client { requests = 1 };
  handlers = record { remote = 5; is_http = true } ∷ [];
}

Steps-Returns_example :
    IsLeaving leaving_client.pc
    × (left_to_do leaving_client ≤ left_to_do leaving_client)
    × Returns sign encode leaving_client
Steps-Returns_example =
    Steps-Returns sign encode {m = leaving_client} here
      (record { fits = (refl, (2, refl)); counted = refl }) tt refl

abbrev fetching_client : Machine
fetching_client = record (new_machine made) { pc = fetching none }

abbrev nothing_fetched : FetchIo
nothing_fetched = record { identifier = ok []; server_addr = ok []; signature_key = ok [] }

close_forgotten_example :
    ((close fetching_client).client.closed ≡ true)
    × ((n : Machine) × Steps sign encode (close fetching_client) n
        × (n.pc ≡ connecting alice (bytes "s:80") key)
        × (n.client.closed ≡ false))
unfolding fetch_all
close_forgotten_example =
    close_forgotten sign encode fetching_client none nothing_fetched alice (bytes "s:80") key refl
      refl refl

-- The server refuses the request.
abbrev forbidden : OpenIo
forbidden = record {
  dial = ok 1;
  remote = bytes "s:80";
  new_request = none;
  write = none;
  read_response = ok (record { status_code = 403; status = bytes "403 Forbidden"; body = ok [] });
  yamux_client = ok 2;
}
