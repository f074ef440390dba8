-- ===== src/Tunnel/Client/Leaks.antt =====
-- What a failing `connect` of tunnel/client.go leaves open.
use mylittleproxy.Base.{ℕ, Bytes, ◌≡◌, refl, inl, inr, [], ◌∷◌, ◌++◌, Result, ok, err, Result-cases}
use mylittleproxy.Proto.{ConnectionConfig}
use mylittleproxy.Tunnel.Errors.{Error}
use mylittleproxy.Tunnel.Server.Handshake.{Sign}
use mylittleproxy.Tunnel.Client.{Client, sent_request}
use mylittleproxy.Tunnel.Client.Connect.{
  ended, OpenIo, open_conn, accept_response, answered, assign_session, connect_session, request_of,
}

assign_session-effects :
    (r : Result Error ℕ) (c : Client) → (assign_session r c).1.effects ≡ c.effects
unfolding assign_session
assign_session-effects (ok session) c = refl
assign_session-effects (err e) c = refl

answered-effects : (io : OpenIo) (c : Client) → (answered io c).1.effects ≡ c.effects
unfolding answered
answered-effects io c = elim (Result-cases (accept_response io)) [
  | inl (x, e) ↦ rw (e, answered) (assign_session-effects io.yamux_client c)
  | inr (x, e) ↦ rw (e, answered)
]

refused_ends :
    (io : OpenIo) (c : Client) (e : Error)
    → accept_response io ≡ err e
    → (answered io c).0 ≡ ended e
unfolding answered
refused_ends io c e r = rw (r, answered)

module _ (sign : Sign) (encode : ConnectionConfig → Bytes) where
  -- If the control request was written and its answer is not the protocol's, or does not come,
  -- `connect` ends with that error and has done nothing but write: the connection stays open, and
  -- the session is as before.
  pub connect_session_refused :
      (io : OpenIo) (identifier key : Bytes) (c : Client) (conn : ℕ) (e : Error)
      → open_conn io ≡ ok conn
      → accept_response io ≡ err e
      → let (pc, d) = connect_session sign encode io identifier key c in
        (pc ≡ ended e)
        × (d.effects
            ≡ c.effects ++ sent_request conn (request_of sign encode io identifier key c) ∷ [])
        × (d.session ≡ c.session)
  unfolding connect_session answered
  connect_session_refused io identifier key c conn e o r =
      rw (o, connect_session) (rw (r, answered) (refl, refl, refl))
