-- ===== src/Tunnel/Server/Threads/Branches.antt =====
-- How the steps of `deleteSession` and of the hijacking go on, on each branch, beside what the
-- handlers in one piece do there.
use mylittleproxy.Base.{
  delete, ◌++◌, ℕ, Bytes, ◌≡◌, refl, Option, some, [], ◌∷◌, lookup, Option-cases, Result-cases,
  Bool-cases, inl, inr, ◌⊎◌,
}
use mylittleproxy.Tunnel.Errors.{
  Error, no_hijacking, hijack_failed, after_hijack, writing_response, setting_deadline,
}
use mylittleproxy.Tunnel.VirtualHosts.{get_virtual_host, delete_host, VirtualHost}
use mylittleproxy.Tunnel.Server.{
  Server, delete_session, release_host, stop_session, emit, write, add_session,
}
use mylittleproxy.Tunnel.Server.Handshake.{
  HandshakeIo, hijack, after_hijacking, finish, open_control_stream, status_line,
}
use mylittleproxy.Tunnel.Server.Threads.{
  adds_session, frees, reports, Role, fails, take_over, release,
}

module _ {R : Type 0} where
  -- `deleteSession` up to the hosts.
  abbrev pub without_session : Bytes → Option ℕ → Server R → Server R
  without_session id session s = record s {
    sessions = delete id s.sessions;
    effects = s.effects ++ stop_session session;
  }

  -- The first half of `deleteSession`: either it is the whole of it, or the second frees a host.
  pub release-cases :
      (hung : Option ℕ) (id : Bytes) (e : Error) (role : Role) (s : Server R)
      → ((t : Server R) × (release hung id e role s ≡ (reports hung id e role, t))
          × (delete_session id s ≡ t))
        ⊎ ((host : Bytes) × (t : Server R) × (release hung id e role s
              ≡ (frees host hung id e role, t))
            × (delete_session id s ≡ record t { virtual_hosts = delete_host host t.virtual_hosts }))
  unfolding release delete_session release_host
  release-cases hung id e role s = elim (Option-cases (lookup id s.sessions)) [
    | inl l ↦ inl (s, rw (l, release), rw (l, delete_session))
    | inr (session, l) ↦ elim (Option-cases (get_virtual_host id s.virtual_hosts)) [
      | inl g ↦ inl (
        without_session id session s,
        rw (l, release) (rw g),
        rw (l, delete_session) (rw (g, release_host)),
      )
      | inr ((x, host), g) ↦ inr (
        host,
        without_session id session s,
        rw (l, release) (rw g),
        rw (l, delete_session) (rw (g, release_host)),
      )
    ]
  ]

  -- Hijacking fails and leaves the tables as they were, or there is a session.
  pub take_over-cases :
      (h : HandshakeIo) (id : Bytes) (s : Server R)
      → ((e : Error) × (t : Server R) × (take_over h id s ≡ (fails id e, t))
          × (hijack h id s ≡ (some e, t))
          × (t.virtual_hosts ≡ s.virtual_hosts)
          × (t.controls ≡ s.controls)
          × (t.sessions ≡ s.sessions))
        ⊎ ((conn : ℕ) × (session : ℕ) × (take_over h id s
              ≡ (adds_session h id conn session, emit (write conn status_line ∷ []) s))
            × (hijack h id s
                ≡ finish id conn
                    (open_control_stream h)
                    (add_session id (some session) (emit (write conn status_line ∷ []) s))))
  unfolding take_over hijack after_hijacking
  take_over-cases h id s = elim (Bool-cases h.is_hijacker) [
    | inr a ↦ inl (no_hijacking, s, rw (a, take_over), rw (a, hijack), refl, refl, refl)
    | inl a ↦ elim (Result-cases h.hijack) [
      | inr (e, b) ↦
          inl (hijack_failed e, s, rw (a, b, take_over), rw (a, b, hijack), refl, refl, refl)
      | inl (conn, b) ↦ elim (Option-cases h.write_connected) [
        | inr (e, c) ↦ inl (
          after_hijack (writing_response e),
          s,
          rw (a, b, c, take_over),
          rw (a, b, c, hijack, after_hijacking),
          refl,
          refl,
          refl,
        )
        | inl c ↦ elim (Option-cases h.set_deadline) [
          | inr (e, d) ↦ inl (
            after_hijack (setting_deadline e),
            emit (write conn status_line ∷ []) s,
            rw (a, b, c, d, take_over),
            rw (a, b, c, d, hijack, after_hijacking),
            refl,
            refl,
            refl,
          )
          | inl d ↦ elim (Result-cases h.yamux_server) [
            | inr (e, f) ↦ inl (
              after_hijack e,
              emit (write conn status_line ∷ []) s,
              rw (a, b, c, d, f, take_over),
              rw (a, b, c, d, f, hijack, after_hijacking),
              refl,
              refl,
              refl,
            )
            | inl (session, f) ↦ inr (
              conn,
              session,
              simp (a, b, c, d, f, take_over),
              rw (a, b, c, d, f, hijack, after_hijacking),
            )
          ]
        ]
      ]
    ]
  ]

  pub release-frees :
      (hung : Option ℕ) (id : Bytes) (e : Error) (role : Role) (s : Server R) (session : Option ℕ)
      (x : VirtualHost R) (host : Bytes)
      → lookup id s.sessions ≡ some session
      → get_virtual_host id s.virtual_hosts ≡ some (x, host)
      → release hung id e role s ≡ (frees host hung id e role, without_session id session s)
  unfolding release
  release-frees hung id e role s session x host l g = rw (l, release) (rw g)
