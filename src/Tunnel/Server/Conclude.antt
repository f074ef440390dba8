-- ===== src/Tunnel/Server/Conclude.antt =====
-- The parts of `controlHandler` on its way, and what `checkConnect` makes of its result.
use mathlib.Core.List.{append-nil}
use mylittleproxy.Base.{
  ℕ, Bytes, ◌≡◌, refl, inl, true, Option, none, some, List, [], ◌∷◌, ◌++◌, map, arith, ◌==◌, lookup,
  ok, err, IsIn, IsIn-append_left, IsIn-append_right, sym,
}
use mylittleproxy.Proto.{handshake_request}
use mylittleproxy.Tunnel.Errors.{Error, after_hijack, writing_response}
use mylittleproxy.Tunnel.VirtualHosts.Find.{IsWellFormed}
use mylittleproxy.Tunnel.Server.{
  Server, Effect, close_conn, write, run_callback, on_disconnect, add_session, delete_session, emit,
}
use mylittleproxy.Tunnel.Server.Handshake.{
  HandshakeIo, accepted, hijack, after_hijacking, finish, close_stream, status_line,
  open_control_stream, greet,
}
use mylittleproxy.Tunnel.Server.Connect.{taken_over, conclude, reply_of}
use mylittleproxy.Tunnel.Server.Release.{IsGone, IsUntouched, delete_session_lem}

module _ {R : Type 0} where
  pub conclude-reply :
      (i : Bytes) (e : Error) (s : Server R) → (conclude i (some e, s)).0 ≡ reply_of e
  unfolding conclude
  conclude-reply i e s = refl

  -- `conclude` reports an error, and touches none of the tables.
  pub conclude-IsGone :
      (id i : Bytes) (e : Error) (s : Server R) → IsGone id s → IsGone id (conclude i (some e, s)).1
  unfolding conclude on_disconnect
  conclude-IsGone id [] e s g = g
  conclude-IsGone id (c ∷ cs) e s g = record {
    no_control = g.no_control;
    no_session = g.no_session;
    no_host = g.no_host;
  }

  pub conclude-IsUntouched :
      (j i : Bytes) (e : Error) (s t : Server R)
      → IsUntouched j s t
      → IsUntouched j s (conclude i (some e, t)).1
  unfolding conclude on_disconnect
  conclude-IsUntouched j [] e s t g = g
  conclude-IsUntouched j (c ∷ cs) e s t g = record {
    same_control = g.same_control;
    same_session = g.same_session;
    same_host = g.same_host;
  }

pub open_control_stream_fails :
    (h : HandshakeIo) (opened : Option ℕ) (e : Error)
    → open_control_stream h ≡ (opened, err e)
    → reply_of e ≡ taken_over
unfolding open_control_stream greet
open_control_stream_fails h opened e f = ground arith

module _ {R : Type 0} where
  pub conclude-IsIn :
      (x : Effect) (i : Bytes) (e : Error) (s : Server R)
      → IsIn x s.effects
      → IsIn x (conclude i (some e, s)).1.effects
  unfolding conclude on_disconnect
  conclude-IsIn x [] e s h = h
  conclude-IsIn x (c ∷ cs) e s h = IsIn-append_left x s.effects _ h

  pub conclude-effects :
      (i : Bytes) (e : Error) (s : Server R)
      → (ran : List ℕ) × ((conclude i (some e, s)).1.effects ≡ s.effects ++ map run_callback ran)
  unfolding conclude on_disconnect
  conclude-effects [] e s = ([], sym (append-nil s.effects))
  conclude-effects (c ∷ cs) e s = (_, refl)

module _ {R : Type 0} (h : HandshakeIo) (id : Bytes) (conn : ℕ) (s : Server R) where
  pub hijack_lem :
      h.is_hijacker ≡ true → h.hijack ≡ ok conn → hijack h id s ≡ after_hijacking h id conn s
  unfolding hijack
  hijack_lem a b = rw (a, b, hijack)

  pub after_hijacking_lem :
      (session : ℕ)
      → h.write_connected ≡ none
      → h.set_deadline ≡ none
      → h.yamux_server ≡ ok session
      → after_hijacking h id conn s
        ≡ finish id conn
            (open_control_stream h)
            (add_session id (some session) (emit (write conn status_line ∷ []) s))
  unfolding after_hijacking
  after_hijacking_lem session c d f = rw (c, d, f, after_hijacking)

  pub after_hijacking_unwritten :
      (e : Error)
      → h.write_connected ≡ some e
      → after_hijacking h id conn s ≡ (some (after_hijack (writing_response e)), s)
  unfolding after_hijacking
  after_hijacking_unwritten e c = rw (c, after_hijacking)

pub finish_aborts :
    {R : Type 0} (id : Bytes) (conn : ℕ) (opened : Option ℕ) (e : Error) (s : Server R)
    (session : Option ℕ)
    → IsWellFormed s.virtual_hosts
    → lookup id s.controls ≡ none
    → lookup id s.sessions ≡ some session
    → (r : Server R) × (finish id conn (opened, err e) s ≡ (some e, r))
      × IsGone id r
      × IsIn (close_conn conn) r.effects
unfolding finish
finish_aborts id conn opened e s session w free l =
    let t = emit (close_stream opened) s in
    let (gone, _) = delete_session_lem id session t w free l in
    let u = delete_session id t in
    (
      emit (close_conn conn ∷ []) u,
      refl,
      record { no_control = gone.no_control; no_session = gone.no_session; no_host = gone.no_host },
      IsIn-append_right (close_conn conn) u.effects (close_conn conn ∷ []) (inl refl),
    )

-- Every call of the handshake succeeds, and the client says what it has to say.
pub record Succeeds (h : HandshakeIo) (conn session stream : ℕ) : Type 0 where
  pub can_hijack : h.is_hijacker ≡ true
  pub hijacks : h.hijack ≡ ok conn
  pub writes : h.write_connected ≡ none
  pub clears : h.set_deadline ≡ none
  pub muxes : h.yamux_server ≡ ok session
  pub accepts : h.accept ≡ accepted stream
  pub reads : h.read ≡ ok handshake_request
  pub responds : h.write_response ≡ none

pub open_control_stream_lem :
    (h : HandshakeIo) (conn session stream : ℕ)
    → Succeeds h conn session stream
    → open_control_stream h ≡ (some stream, ok stream)
unfolding open_control_stream ◌==◌
open_control_stream_lem h conn session stream f =
    rw (f.accepts, open_control_stream) (rw (f.reads, greet) (rw f.responds))
