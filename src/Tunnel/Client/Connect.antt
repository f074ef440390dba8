-- ===== src/Tunnel/Client/Connect.antt =====
-- `connect` and `listenControl` of tunnel/client.go. What the network and yamux do comes in as a
-- value, with one outcome for each call.
use mylittleproxy.Base.{
  ℕ, ◌+◌, ◌-◌, Bytes, Bool, true, false, ◌&&◌, nat_eq, Option, none, some, List, [], ◌∷◌, ◌++◌,
  Result, ok, err, ◌>>=◌, ◌>>◌, if◌then◌else◌, ◌==◌,
}
use mylittleproxy.Proto
use mylittleproxy.Proto.{
  ConnectionConfig, ControlMessage, connected, handshake_request, handshake_response,
}
use mylittleproxy.Tunnel.Errors.{
  Error, creating_request, writing_connect, reading_connect, tunnel_error, tunnel_error_unread,
  session_failed, waiting_for_session, opening_timeout, writing_handshake, reading_handshake,
  invalid_handshake, decoding_control,
}
use mylittleproxy.Tunnel.ClientState.{client_connected, client_disconnected}
use mylittleproxy.Tunnel.Server.Handshake.{Sign, fill}
use mylittleproxy.Tunnel.Server.Connect.{Request}
use mylittleproxy.Tunnel.ControlRequest.{control_request}
use mylittleproxy.Tunnel.Client.{
  Client, ClientEffect, sent_request, wrote, closed_stream, proxied, reset_backoff, emit,
  change_state, start_notify_if_needed, go_away, close_session,
}

-- The answer to the control request: `body` is what reading all of it gives.
pub record ControlResponse : Type 0 where
  pub status_code : ℕ
  pub status : Bytes
  pub body : Result Error Bytes

-- Up to the session. `remote` is the address of the other end of the connection.
pub record OpenIo : Type 0 where
  pub dial : Result Error ℕ
  pub remote : Bytes
  pub new_request : Option Error
  pub write : Option Error
  pub read_response : Result Error ControlResponse
  pub yamux_client : Result Error ℕ

-- How `select` over `session.Open` and the timeout ends. With the timeout, the stream may have been
-- opened late.
pub data Opened : Type 0 where
  opened : (stream : ℕ) → Opened
  open_failed : Error → Opened
  open_timed_out : (late : Option ℕ) → Opened

-- From the session on. `read` is what the one call of `stream.Read` puts into the buffer.
pub record GreetIo : Type 0 where
  pub session_open : Opened
  pub write : Option Error
  pub read : Result Error Bytes

abbrev failing : Option Error → (Error → Error) → Result Error (Unit {0})
failing none f = ok tt
failing (some e) f = err (f e)

abbrev relabel : {A : Type 0} → Result Error A → (Error → Error) → Result Error A
relabel (ok a) f = ok a
relabel (err e) f = err (f e)

abbrev refused : ℕ → Result Error Bytes → Error
refused code (ok body) = tunnel_error code body
refused code (err e) = tunnel_error_unread code e

-- `resp.StatusCode != http.StatusOK || resp.Status != proto.Connected`.
unfoldable pub check_response : ControlResponse → Result Error (Unit {0})
check_response resp =
    if nat_eq resp.status_code 200 && resp.status == connected
    then ok tt
    else err (refused resp.status_code resp.body)

-- The connection that a request was written to, or the error before that.
unfoldable pub open_conn : OpenIo → Result Error ℕ
open_conn io = do
  conn ← io.dial
  failing io.new_request creating_request
  failing io.write writing_connect
  ok conn

-- Whether the request is answered as the protocol wants it.
unfoldable pub accept_response : OpenIo → Result Error (Unit {0})
unfolding check_response
accept_response io = do resp ← relabel io.read_response reading_connect; check_response resp

unfoldable pub greeted : Bytes → Result Error (Unit {0})
greeted buf = if buf == handshake_response then ok tt else err (invalid_handshake buf)

abbrev read_greeting : Result Error Bytes → Result Error (Unit {0})
read_greeting (err e) = err (reading_handshake e)
read_greeting (ok got) = greeted (fill 9 got)

-- The handshake over the opened stream.
unfoldable pub greet_server : GreetIo → Result Error (Unit {0})
unfolding greeted
greet_server io = do failing io.write writing_handshake; read_greeting io.read

abbrev pub sent_greeting : ℕ → Option Error → List ClientEffect
sent_greeting stream none = wrote stream handshake_request ∷ []
sent_greeting stream (some e) = []

abbrev close_late : Option ℕ → List ClientEffect
close_late none = []
close_late (some stream) = closed_stream stream ∷ []

-- Where the goroutine that runs `Start` stands. `last` is `lastErr`; from the control request on it is
-- not needed, since `connect` ends with an error always.
pub data Pc : Type 0 where
  idle : Pc
  looping : (last : Option Error) → Pc
  backing_off : (last : Option Error) → Pc
  sleeping : (last : Option Error) → Pc
  fetching : (last : Option Error) → Pc
  connecting : (identifier server_addr signature_key : Bytes) → Pc
  opening : Pc
  listening : Pc
  draining : Error → Pc
  ended : Error → Pc
  returned : Pc

-- `c.session, err = yamux.Client(…)`: an error leaves nil in the field.
unfoldable pub assign_session : Result Error ℕ → Client → Pc × Client
assign_session (err e) c = (ended (session_failed e), record c { session = none })
assign_session (ok session) c = (opening, record c { session = some session })

unfoldable pub answered : OpenIo → Client → Pc × Client
unfolding accept_response assign_session
answered io c = elim (accept_response io) [
  | err e ↦ (ended e, c)
  | ok _ ↦ assign_session io.yamux_client c
]

module _ (sign : Sign) (encode : ConnectionConfig → Bytes) where
  abbrev pub request_of : OpenIo → (identifier signature_key : Bytes) → Client → Request
  request_of io identifier signature_key c =
      control_request sign encode io.remote c.config.control_method c.config.control_path
        c.config.connection_config identifier signature_key

  -- `connect` up to the session.
  unfoldable pub connect_session :
      OpenIo → (identifier signature_key : Bytes) → Client → Pc × Client
  unfolding open_conn answered
  connect_session io identifier signature_key c = elim (open_conn io) [
    | err e ↦ (ended e, c)
    | ok conn ↦
        answered io (emit (sent_request conn (request_of io identifier signature_key c) ∷ []) c)
  ]

-- The end of `connect` and the beginning of `listenControl`.
unfoldable pub begin_listening : Client → Pc × Client
unfolding change_state start_notify_if_needed
begin_listening c = (
  listening,
  (change_state client_connected none (start_notify_if_needed (emit (reset_backoff ∷ []) c))).1,
)

unfoldable pub greet : GreetIo → (stream : ℕ) → Client → Pc × Client
unfolding greet_server begin_listening
greet io stream c =
    let c' = emit (sent_greeting stream io.write) c in
    elim (greet_server io) [ err e ↦ (ended e, c') | ok _ ↦ begin_listening c' ]

unfoldable pub on_opened : Opened → GreetIo → Client → Pc × Client
unfolding greet
on_opened (opened stream) io c = greet io stream c
on_opened (open_failed e) io c = (ended (waiting_for_session e), c)
on_opened (open_timed_out late) io c = (ended opening_timeout, emit (close_late late) c)

-- `connect` from the session on, with the first part of `listenControl`.
unfoldable pub connect_stream : GreetIo → Client → Pc × Client
unfolding on_opened
connect_stream io c = on_opened io.session_open io c

-- A goroutine that proxies a stream, and whether `reqWg` counts it.
pub record Handler : Type 0 where
  pub remote : ℕ
  pub is_http : Bool

abbrev handler_of : ℕ → ControlMessage → Handler
handler_of remote msg = record { remote = remote; is_http = nat_eq msg.protocol Proto.http }

abbrev pub count_request : Bool → ℕ
count_request true = 1
count_request false = 0

-- One round of the loop of `listenControl` for a message that decodes: the goroutine that it starts,
-- if any.
unfoldable pub receive : ControlMessage → Result Error ℕ → Client → Pc × Client × List Handler
receive msg (err e) c = (ended e, c, [])
receive msg (ok remote) c =
    let h = handler_of remote msg in
    (
      listening,
      record c {
        requests = c.requests + count_request h.is_http;
        effects = c.effects ++ proxied remote msg ∷ [];
      },
      h ∷ [],
    )

-- The end of such a goroutine.
unfoldable pub finish_request : Handler → Client → Client
finish_request h c = record c {
  requests = c.requests - count_request h.is_http;
  effects = c.effects ++ closed_stream h.remote ∷ [];
}

-- The end of `listenControl`, once `reqWg` is at 0.
unfoldable pub disconnect : Error → Client → Pc × Client
unfolding change_state
disconnect e c = (
  ended (decoding_control e),
  (change_state client_disconnected (some e)
      (emit (close_session c.session) (emit (go_away c.session) c))).1,
)
