-- ===== src/Tunnel/Server/Handshake.antt =====
-- `controlHandler` and `listenControl` of tunnel/server.go. What the connection, yamux and the
-- client do comes in as a value: one outcome for each call that the handler makes.
use mylittleproxy.Base.{
  ℕ, zero, suc, Bytes, Bool, not, Option, none, some, List, [], ◌∷◌, Result, ok, err, ◌>>◌, ◌++◌,
  bytes, lookup, get_elem?, if◌then◌else◌, ◌==◌,
}
use mylittleproxy.Proto.{connected, handshake_request, handshake_response}
use mylittleproxy.Tunnel.Errors.{
  Error, invalid_signature, no_host_for, control_exists, no_hijacking, hijack_failed, after_hijack,
  writing_response, setting_deadline, session_timeout, handshake_aborted,
}
use mylittleproxy.Tunnel.VirtualHosts.{get_host}
use mylittleproxy.Tunnel.Server.{
  Server, Effect, close_conn, write, emit, add_session, delete_session, add_control, delete_control,
  close_control, on_connect, on_disconnect,
}

-- How `select` over `session.Accept` and the timeout ends.
pub data Accept : Type 0 where
  accepted : (stream : ℕ) → Accept
  accept_failed : Error → Accept
  timed_out : Accept

-- `none` is a nil error. `read` is what the one call of `stream.Read` puts into the buffer.
pub record HandshakeIo : Type 0 where
  pub is_hijacker : Bool
  pub hijack : Result Error ℕ
  pub write_connected : Option Error
  pub set_deadline : Option Error
  pub yamux_server : Result Error ℕ
  pub accept : Accept
  pub read : Result Error Bytes
  pub write_response : Option Error

-- The package's HMAC and its encoding: `sign key id` is `signIdentifier(id, key)`.
abbrev pub Sign : Type 0
Sign = (id key : Bytes) → Bytes

-- `hmac.Equal` compares the two strings.
unfoldable pub check_identifier_signature : Sign → (id key signature : Bytes) → Bool
check_identifier_signature sign id key signature = signature == sign id key

-- `make([]byte, n)` after a read: what was read, and zeros behind it.
abbrev pub fill : ℕ → Bytes → Bytes
fill zero d = []
fill (suc n) [] = 0 ∷ fill n []
fill (suc n) (c ∷ d) = c ∷ fill n d

abbrev failing : Option Error → (Error → Error) → Result Error (Unit {0})
failing none f = ok tt
failing (some e) f = err (f e)

abbrev read_request : Bytes → Result Error (Unit {0})
read_request buf =
    if buf == handshake_request then ok tt else err (after_hijack (handshake_aborted buf))

-- The handshake over the accepted stream.
unfoldable pub greet : HandshakeIo → ℕ → Result Error ℕ
greet h stream = elim h.read [
  | err e ↦ err (after_hijack e)
  | ok got ↦ do read_request (fill 16 got); failing h.write_response after_hijack; ok stream
]

-- The variable `stream` when the handler returns, and its result.
unfoldable pub open_control_stream : HandshakeIo → Option ℕ × Result Error ℕ
unfolding greet
open_control_stream h = elim h.accept [
  | accepted stream ↦ (some stream, greet h stream)
  | accept_failed e ↦ (none, err (after_hijack e))
  | timed_out ↦ (none, err (after_hijack session_timeout))
]

abbrev pub close_stream : Option ℕ → List Effect
close_stream none = []
close_stream (some stream) = close_conn stream ∷ []

-- `"HTTP/1.1 "+proto.Connected+"\n\n"`.
abbrev pub status_line : Bytes
status_line = bytes "HTTP/1.1 " ++ connected ++ bytes "\n\n"

module _ {R : Type 0} where
  -- From `addSession` on: the deferred clean-up runs if the result is an error.
  unfoldable pub finish : Bytes → ℕ → Option ℕ × Result Error ℕ → Server R → Option Error × Server R
  finish id conn (opened, ok stream) s =
      (none, add_control id stream (emit (write stream handshake_response ∷ []) s))
  finish id conn (opened, err e) s =
      (some e, emit (close_conn conn ∷ []) (delete_session id (emit (close_stream opened) s)))

  -- From the hijacked connection to the session.
  unfoldable pub after_hijacking : HandshakeIo → Bytes → ℕ → Server R → Option Error × Server R
  unfolding open_control_stream finish
  after_hijacking h id conn s = elim h.write_connected [
    | some e ↦ (some (after_hijack (writing_response e)), s)
    | none ↦ elim h.set_deadline [
      | some e ↦ (some (after_hijack (setting_deadline e)), emit (write conn status_line ∷ []) s)
      | none ↦ elim h.yamux_server [
        | err e ↦ (some (after_hijack e), emit (write conn status_line ∷ []) s)
        | ok session ↦
            finish id conn (open_control_stream h)
              (add_session id (some session) (emit (write conn status_line ∷ []) s))
      ]
    ]
  ]

  unfoldable pub hijack : HandshakeIo → Bytes → Server R → Option Error × Server R
  unfolding after_hijacking
  hijack h id s =
      if h.is_hijacker
      then elim h.hijack [
        | err e ↦ (some (hijack_failed e), s)
        | ok conn ↦ after_hijacking h id conn s
      ]
      else (some no_hijacking, s)

  -- `ct.Close()`, `deleteControl` and `deleteSession`, in the order of the code.
  unfoldable pub drop_client : ℕ → Bytes → Server R → Server R
  drop_client p id s = delete_session id (delete_control id (close_control p s))

  -- The error that the handler returns, and the server after it. A nil error leaves the new control
  -- at the end of the heap, with `listenControl` running on it.
  unfoldable pub control_handler :
      Sign → HandshakeIo → (identifier signature : Bytes) → Server R → Option Error × Server R
  unfolding hijack drop_client
  control_handler sign h id signature s =
      if not (check_identifier_signature sign id s.settings.signature_key signature)
      then (some (invalid_signature id), s)
      else elim (get_host id s.virtual_hosts) [
        | none ↦ (some (no_host_for id), s)
        | some host ↦ elim (lookup id s.controls) [
          | some ct ↦ (some (control_exists id), drop_client ct id s)
          | none ↦ hijack h id s
        ]
      ]

  abbrev pub identifier_at : ℕ → Server R → Bytes
  identifier_at p s = elim (get_elem? s.heap p) [ none ↦ [] | some c ↦ c.identifier ]

  -- `listenControl` up to its loop.
  unfoldable pub listen_start : ℕ → Server R → Server R
  listen_start p s = on_connect (identifier_at p s) s

  -- One round of its loop, when decoding fails; a message that decodes changes nothing.
  unfoldable pub listen_fail : ℕ → Error → Server R → Server R
  unfolding drop_client
  listen_fail p e s =
      on_disconnect (identifier_at p s) (some e) (drop_client p (identifier_at p s) s)
