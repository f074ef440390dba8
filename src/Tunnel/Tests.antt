-- ===== src/Tunnel/Tests.antt =====
-- A client and a server that meet.
use mylittleproxy.Base.{
  Bytes, bytes, ◌≡◌, refl, subst, inl, inr, IsIn, ◌∷◌, delete, false, none, some, [], ok, lookup,
  insert, ◌==◌,
}
use mylittleproxy.Proto.{ConnectionConfig, connected, handshake_response}
use mylittleproxy.Std.Http.{read_status_line, trim_spaces}
use mylittleproxy.Std.Net.{cut_first}
use mylittleproxy.Tunnel.ClientState.{client_unknown, client_connected}
use mylittleproxy.Tunnel.VirtualHosts.{add_host, get_host, release_others}
use mylittleproxy.Tunnel.Server.{Server, write, add_session, add_control}
use mylittleproxy.Tunnel.Server.Handshake.{
  status_line, control_handler, check_identifier_signature, hijack, after_hijacking,
  open_control_stream, finish,
}
use mylittleproxy.Tunnel.Server.Connect.{
  conclude, admit, check_identifier, check_host, convert_rules, header_get, taken_over,
  check_connect,
}
use mylittleproxy.Tunnel.Server.Reach.{here, Reach-IsConsistent}
use mylittleproxy.Tunnel.Server.Samples.{
  literal, alice, domain, key, sign, rules, config, decode, settings, smooth, empty_server, hosts,
}
use mylittleproxy.Tunnel.ControlRequest.{control_request}
use mylittleproxy.Tunnel.Client.{Client, wrote, change_state, start_notify_if_needed}
use mylittleproxy.Tunnel.Client.Connect.{
  OpenIo, GreetIo, opened, opening, listening, open_conn, request_of, connect_session,
  connect_stream, on_opened, greet, greet_server, greeted, begin_listening, answered,
  assign_session, accept_response, check_response,
}
use mylittleproxy.Tunnel.Meeting.{Opens, both_connect}

abbrev encode : ConnectionConfig → Bytes
encode c = []

abbrev fresh_client : Client
fresh_client = record {
  config = record {
    identifier = alice;
    signature_key = key;
    fetches_identifier = false;
    server_addr = bytes "s:80";
    fetches_server_addr = false;
    fetches_signature_key = false;
    state_changes = none;
    yamux_config = none;
    connection_config = config;
    custom_headers = [];
    control_path = bytes "/c";
    control_method = bytes "POST";
  };
  session = none;
  start_notify = false;
  closed = false;
  requests = 0;
  state = client_unknown;
  state_ch = none;
  effects = [];
}

abbrev accepting : OpenIo
accepting = record {
  dial = ok 1;
  remote = bytes "s:80";
  new_request = none;
  write = none;
  read_response = ok (record { status_code = 200; status = connected; body = ok [] });
  yamux_client = ok 2;
}

abbrev greeting : GreetIo
greeting = record { session_open = opened 3; write = none; read = ok handshake_response }

accepting-Opens : Opens accepting 1 2
unfolding open_conn
accepting-Opens = record {
  sends = refl;
  response = record { status_code = 200; status = connected; body = ok [] };
  reads = refl;
  muxes = refl;
}

-- The client writes its greeting to the stream, and nothing else.
client_said :
    (b : Bytes)
    → IsIn
        (wrote 3 b)
        (connect_stream greeting
          (connect_session sign encode accepting alice key fresh_client).1).1.effects
    → smooth.read ≡ ok b
unfolding connect_stream connect_session on_opened greet greet_server greeted begin_listening
    answered assign_session open_conn accept_response check_response change_state
    start_notify_if_needed ◌==◌
client_said b (inl e) = cc
client_said b (inr (inl e)) = cc
client_said b (inr (inr (inl e))) = cc
client_said b (inr (inr (inr i))) = elim i [ ]

abbrev met : Server Bytes
met =
    (check_connect literal sign decode smooth
      (request_of sign encode accepting alice key fresh_client) empty_server).1

met-effects : met.effects ≡ write 1 status_line ∷ write 3 handshake_response ∷ []
unfolding check_connect admit check_identifier check_host convert_rules control_request header_get
    lookup insert delete add_host release_others control_handler conclude get_host
    check_identifier_signature hijack after_hijacking open_control_stream finish add_control
    add_session ◌==◌
met-effects = refl

line_alone :
    (b : Bytes)
    → IsIn (write 1 b) (write 1 status_line ∷ write 3 handshake_response ∷ [])
    → read_status_line b ≡ some (200, connected)
unfolding read_status_line trim_spaces cut_first
line_alone b (inl e) =
    let same : status_line ≡ b = cc in
    subst (λ l. read_status_line l ≡ some (200, connected)) same refl
line_alone b (inr (inl e)) = absurd (cc)
line_alone b (inr (inr i)) = elim i [ ]

answer_alone :
    (b : Bytes)
    → IsIn (write 3 b) (write 1 status_line ∷ write 3 handshake_response ∷ [])
    → greeting.read ≡ ok b
answer_alone b (inl e) = absurd (cc)
answer_alone b (inr (inl e)) = cc
answer_alone b (inr (inr i)) = elim i [ ]

line_read : (b : Bytes) → IsIn (write 1 b) met.effects → read_status_line b ≡ some (200, connected)
line_read b i = line_alone b (subst (λ l. IsIn (write 1 b) l) met-effects i)

server_said : (b : Bytes) → IsIn (write 3 b) met.effects → greeting.read ≡ ok b
server_said b i = answer_alone b (subst (λ l. IsIn (write 3 b) l) met-effects i)

both_connect_example :
    let (reply, t) =
      check_connect literal sign decode smooth
        (request_of sign encode accepting alice key fresh_client)
        empty_server in
    let (pc, d) = connect_session sign encode accepting alice key fresh_client in
    (reply ≡ taken_over)
    × (lookup alice t.controls ≡ some 0)
    × (lookup alice t.sessions ≡ some (some 2))
    × (pc ≡ opening)
    × (d.session ≡ some 2)
    × ((connect_stream greeting d).0 ≡ listening)
    × ((connect_stream greeting d).1.state ≡ client_connected)
unfolding control_request header_get lookup insert add_host release_others accepting-Opens ◌==◌
both_connect_example =
    both_connect literal sign encode decode fresh_client accepting greeting alice key 1 2 3 smooth
      empty_server domain rules hosts 1 2 3 accepting-Opens (record { opens = refl; writes = refl })
      (Reach-IsConsistent literal sign decode settings none here)
      (record {
        method = refl;
        allowed = inr (inl refl);
        signed = refl;
        config = config;
        decoded = refl;
        named = refl;
        host_allowed = inl refl;
        converted = (refl, refl, tt);
      })
      refl refl
      (record {
        can_hijack = refl;
        hijacks = refl;
        writes = refl;
        clears = refl;
        muxes = refl;
        accepts = refl;
        responds = refl;
      })
      client_said line_read server_said
