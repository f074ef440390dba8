-- ===== src/Tunnel/Server/Exchange.antt =====
-- `handleWSConn` of tunnel/server.go, and `handleHTTP` once its stream is open. What the public
-- connection and the tunnel do comes in as a value.
use mylittleproxy.Base.{
  ℕ, Bytes, Bool, true, false, not, Option, none, some, List, [], ◌∷◌, ◌++◌, Result, ok, err, Map,
  insert, is_empty, if◌then◌else◌,
}
use mylittleproxy.Proto
use mylittleproxy.Proto.{ConnectionConfig}
use mylittleproxy.Tunnel.Errors.{
  Error, no_hijacking, hijack_failed, read_from_tunnel, writing_upgrade_request,
  reading_upgrade_response, writing_upgrade_response, forwarding_frames,
}
use mylittleproxy.Tunnel.Server.{Server, Effect, close_conn, forward_request, join_streams, emit}
use mylittleproxy.Tunnel.Server.Connect.{Request, Body, text}
use mylittleproxy.Tunnel.Server.Dial.{DialIo, dial}

-- A response that came back through the tunnel: `body` is what could be copied of it.
pub record Response : Type 0 where
  pub status : ℕ
  pub header : Map (List Bytes)
  pub body : Bytes

-- What was written to the public connection so far. A status is sent once; a hijacked writer takes
-- nothing.
pub record Writer : Type 0 where
  pub status : Option ℕ
  pub header : Map (List Bytes)
  pub body : List Body
  pub hijacked : Bool

abbrev pub fresh : Writer
fresh = record { status = none; header = []; body = []; hijacked = false }

abbrev pub write_status : ℕ → Option ℕ → Option ℕ
write_status code none = some code
write_status code (some old) = some old

-- `http.Error`, less the content type that it sets.
abbrev pub write_error : ℕ → Body → Writer → Writer
write_error code b w =
    if w.hijacked
    then w
    else record w { status = write_status code w.status; body = w.body ++ b ∷ [] }

-- `copyHeader`.
abbrev pub copy_header : Map (List Bytes) → Map (List Bytes) → Map (List Bytes)
copy_header dst [] = dst
copy_header dst ((k, v) ∷ src) = copy_header (insert k v dst) src

-- What the public connection and the tunnel do during one request.
pub record PublicIo : Type 0 where
  pub is_hijacker : Bool
  pub hijack : Result Error ℕ
  pub dial : DialIo
  pub write_request : Option Error
  pub read_response : Result Error Response
  pub write_upgrade : Option Error
  pub buffered : Bytes
  pub copy_buffered : Option Error

-- `handleWSConn` from the stream on. A failing step closes the stream and returns; `nonil` keeps
-- its error.
unfoldable pub upgrade : PublicIo → Request → (conn stream : ℕ) → Option Error × List Effect
upgrade p r conn stream = elim p.write_request [
  | some e ↦ (some (writing_upgrade_request e), close_conn stream ∷ [])
  | none ↦ elim p.read_response [
    | err e ↦
        (some (reading_upgrade_response e), forward_request stream r.path ∷ close_conn stream ∷ [])
    | ok resp ↦ elim p.write_upgrade [
      | some e ↦ (
        some (writing_upgrade_response e),
        forward_request stream r.path ∷ close_conn stream ∷ [],
      )
      | none ↦ elim (if is_empty p.buffered then none else p.copy_buffered) [
        | some e ↦
            (some (forwarding_frames e), forward_request stream r.path ∷ close_conn stream ∷ [])
        | none ↦ (none, forward_request stream r.path ∷ join_streams conn stream ∷ [])
      ]
    ]
  ]
]

abbrev pub respond : Response → Writer → Writer
respond resp w = record w {
  status = write_status resp.status w.status;
  header = copy_header w.header resp.header;
  body = w.body ++ text resp.body ∷ [];
}

module _ {R : Type 0} where
  abbrev after_upgrade : Option Error × List Effect → Server R → Option Error × Server R
  after_upgrade (e, es) s = (e, emit es s)

  -- After `Hijack` gave `conn`.
  unfoldable pub upgrade_on :
      PublicIo → Request → (conn : ℕ) → Bytes → ℕ → Server R → Option Error × Server R
  unfolding upgrade
  upgrade_on p r conn identifier port s =
      let d = dial p.dial identifier Proto.ws port s in
      elim d.0 [ err e ↦ (some e, d.1) | ok stream ↦ after_upgrade (upgrade p r conn stream) d.1 ]

  unfoldable pub handle_ws_conn :
      PublicIo → Request → Bytes → ℕ → Writer → Server R → Option Error × Writer × Server R
  unfolding upgrade_on
  handle_ws_conn p r identifier port w s =
      if not p.is_hijacker then (some no_hijacking, w, s) else elim p.hijack [
        | err e ↦ (some (hijack_failed e), w, s)
        | ok conn ↦
            let u = upgrade_on p r conn identifier port s in
            (u.0, record w { hijacked = true }, u.1)
      ]

  -- `handleHTTP` from the stream on. The stream is closed however it ends.
  unfoldable pub exchange :
      PublicIo → Request → (stream : ℕ) → Writer → Server R → Option Error × Writer × Server R
  exchange p r stream w s = elim p.write_request [
    | some e ↦ (some e, w, emit (close_conn stream ∷ []) s)
    | none ↦ elim p.read_response [
      | err e ↦ (
        some (read_from_tunnel e),
        w,
        emit (forward_request stream r.path ∷ close_conn stream ∷ []) s,
      )
      | ok resp ↦
          (none, respond resp w, emit (forward_request stream r.path ∷ close_conn stream ∷ []) s)
    ]
  ]
