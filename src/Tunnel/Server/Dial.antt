-- ===== src/Tunnel/Server/Dial.antt =====
-- `dial` of tunnel/server.go: asks a client for a stream, and waits for it.
use mylittleproxy.Base.{
  ℕ, Bytes, Bool, true, false, Option, none, some, List, [], ◌∷◌, Result, ok, err, lookup,
  get_elem?,
}
use mylittleproxy.Proto.{ControlMessage, request_client_session}
use mylittleproxy.Tunnel.Errors.{Error, no_client_session, encoder_missing, session_timeout}
use mylittleproxy.Tunnel.Controls.{send}
use mylittleproxy.Tunnel.Server.{
  Server, Effect, send_message, emit, get_session, delete_control, close_control,
}
use mylittleproxy.Tunnel.Server.Handshake.{Accept, accepted, accept_failed, timed_out}

-- What `Encode` on the control connection and the wait for the stream give.
pub record DialIo : Type 0 where
  pub encode : Option Error
  pub accept : Accept

abbrev pub session_request : (protocol port : ℕ) → ControlMessage
session_request protocol port = record {
  action = request_client_session;
  protocol = protocol;
  local_port = port;
}

abbrev pub accept_result : Accept → Result Error ℕ
accept_result (accepted stream) = ok stream
accept_result (accept_failed e) = err e
accept_result timed_out = err session_timeout

abbrev sent : ℕ → ControlMessage → Bool → List Effect
sent ct msg true = send_message ct msg ∷ []
sent ct msg false = []

module _ {R : Type 0} where
  -- `control.send` through a pointer. A pointer of the map is never dangling.
  unfoldable pub send_at : ℕ → Option Error → Server R → Option Error × Bool
  unfolding send
  send_at ct encoded s = elim (get_elem? s.heap ct) [
    | none ↦ (some encoder_missing, false)
    | some c ↦ send c encoded
  ]

  abbrev pub finish_dial : Accept → ℕ → Bytes → Option Error → Server R → Result Error ℕ × Server R
  finish_dial a ct id none s = (accept_result a, s)
  finish_dial a ct id (some e) s = (err no_client_session, delete_control id (close_control ct s))

  -- After both look-ups succeeded.
  unfoldable pub request_stream :
      DialIo → ℕ → Bytes → ControlMessage → Server R → Result Error ℕ × Server R
  unfolding send_at
  request_stream d ct id msg s =
      let r = send_at ct d.encode s in finish_dial d.accept ct id r.0 (emit (sent ct msg r.1) s)

  unfoldable pub dial : DialIo → Bytes → (protocol port : ℕ) → Server R → Result Error ℕ × Server R
  unfolding request_stream get_session
  dial d id protocol port s = elim (lookup id s.controls) [
    | none ↦ (err no_client_session, s)
    | some ct ↦ elim (get_session id s) [
      | err e ↦ (err e, s)
      | ok session ↦ request_stream d ct id (session_request protocol port) s
    ]
  ]
