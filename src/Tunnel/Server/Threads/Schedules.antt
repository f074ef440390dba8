-- ===== src/Tunnel/Server/Threads/Schedules.antt =====
-- Schedules written out: one chosen goroutine after another, with the results of their steps.
use mathlib.Core.List.{append-nil}
use mylittleproxy.Base.{
  any, ℕ, suc, Bytes, ◌≡◌, refl, ap, ◌∙◌, subst, false, none, some, List, [], ◌∷◌, ◌++◌, lookup,
}
use mylittleproxy.Proto.{handshake_response}
use mylittleproxy.Tunnel.Server.{Server, write, emit, add_session}
use mylittleproxy.Tunnel.Server.Handshake.{Sign, HandshakeIo, status_line}
use mylittleproxy.Tunnel.Server.Conclude.{Succeeds, open_control_stream_lem}
use mylittleproxy.Tunnel.Server.Threads.{
  Routine, looks, upgrades, adds_session, greets, registers, take_over, after_greeting, advance,
  spawned,
}
use mylittleproxy.Tunnel.Server.Threads.System.{
  System, turn, Moves, next, client_of, is_at_rest, is_blocked, needs_sessions, holds_sessions,
}

module _ {R : Type 0} (sign : Sign) where
  -- The steps of a handshake that succeeds, on a client without a control.
  module _ (h : HandshakeIo) (conn session stream : ℕ) (good : Succeeds h conn session stream) where
    pub advance-looks :
        (id : Bytes) (s : Server R)
        → lookup id s.controls ≡ none
        → advance sign (looks h id) s ≡ (upgrades h id, s)
    unfolding advance
    advance-looks id s l = rw (l, advance)

    pub advance-upgrades :
        (id : Bytes) (s : Server R)
        → advance sign (upgrades h id) s
          ≡ (adds_session h id conn session, emit (write conn status_line ∷ []) s)
    unfolding advance take_over
    advance-upgrades id s =
        simp
          (good.can_hijack, good.hijacks, good.writes, good.clears, good.muxes, take_over, advance)

    pub advance-greets :
        (id : Bytes) (c : ℕ) (s : Server R)
        → advance sign (greets h id c) s
          ≡ (registers id stream, emit (write stream handshake_response ∷ []) s)
    unfolding advance after_greeting
    advance-greets id c s =
        rw (open_control_stream_lem h conn session stream good, after_greeting, advance)

  -- One step with a known result, that starts no goroutine.
  pub turn_to :
      {p q : System R} {n : ℕ} (before after : List (Routine R)) (pc pc' : Routine R) (t : Server R)
      → Moves sign p n q
      → q.threads ≡ before ++ pc ∷ after
      → advance sign pc q.server ≡ (pc', t)
      → is_at_rest pc ≡ false
      → is_blocked pc (before ++ after) ≡ false
      → spawned pc q.server ≡ []
      → Moves sign p (suc n) (record { server = t; threads = before ++ pc' ∷ after })
  turn_to {p} {q} {n} before after pc pc' t ts at moves rest free quiet =
      subst
        (λ (more : List (Routine R)).
          Moves sign p (suc n) (record { server = t; threads = before ++ pc' ∷ more }))
        (ap (λ more. after ++ more) quiet ∙ append-nil after)
        (subst
          (λ (x : Routine R × Server R).
            Moves sign p (suc n)
              (record { server = x.1; threads = before ++ x.0 ∷ (after ++ spawned pc q.server) }))
          moves (next (client_of pc q.server) ts (turn before after pc at rest free refl)))

  module _ (h : HandshakeIo) (conn session stream : ℕ) (good : Succeeds h conn session stream) where
    -- A handshake from `getControl` on to `stream.Write`, without an interruption.
    pub greet_turns :
        {p q : System R} {n : ℕ} (before after : List (Routine R)) (id : Bytes)
        → Moves sign p n q
        → q.threads ≡ before ++ upgrades h id ∷ after
        → any holds_sessions (before ++ after) ≡ false
        → Moves sign p (suc (suc (suc n))) (record {
          server =
              emit
                (write stream handshake_response ∷ [])
                (add_session id (some session) (emit (write conn status_line ∷ []) q.server));
          threads = before ++ registers id stream ∷ after;
        })
    unfolding advance is_at_rest is_blocked needs_sessions
    greet_turns {q = q} before after id ts at free =
        let s = emit (write conn status_line ∷ []) q.server in
        let t = add_session id (some session) s in
        turn_to before after (greets h id conn) (registers id stream)
          (emit (write stream handshake_response ∷ []) t)
          (turn_to before after (adds_session h id conn session) (greets h id conn) t
            (turn_to before after (upgrades h id) (adds_session h id conn session) s ts at
              (advance-upgrades h conn session stream good id q.server) refl refl refl)
            refl refl refl free refl)
          refl (advance-greets h conn session stream good id conn t) refl refl refl
