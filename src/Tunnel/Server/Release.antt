-- ===== src/Tunnel/Server/Release.antt =====
-- What `deleteSession` and the close of a control leave behind: nothing of the client, and
-- everything of the others.
use mylittleproxy.Base.{
  ℕ, Bytes, ◌≡◌, refl, subst, ◌≢◌, ◌↔◌, ◌∙◌, inl, inr, false, Option, none, some, arith, eq_iff,
  lookup, lookup-delete, lookup-delete_self, Option-cases, get_elem?, nat_eq_iff,
}
use mylittleproxy.Tunnel.Errors.{Error}
use mylittleproxy.Tunnel.Controls.{Control, mark_closed}
use mylittleproxy.Tunnel.Controls.Heap.{get_elem?-update}
use mylittleproxy.Tunnel.VirtualHosts.{
  VirtualHost, VirtualHosts, delete_host, get_virtual_host, get_host, get_identifier,
}
use mylittleproxy.Tunnel.VirtualHosts.Find.{
  IsWellFormed, get_host_sound, get_virtual_host_sound, get_host-get_virtual_host, get_host_ext,
}
use mylittleproxy.Tunnel.VirtualHosts.AddHost.{delete_host-IsWellFormed}
use mylittleproxy.Tunnel.Server.{
  Server, delete_session, delete_control, close_control, on_disconnect, release_host,
}
use mylittleproxy.Tunnel.Server.Handshake.{drop_client, listen_fail, identifier_at}
use mylittleproxy.Tunnel.Server.Invariant.{IsConsistent}

module _ {R : Type 0} where
  pub get_host-delete_host :
      (id host : Bytes) (x : VirtualHost R) (v : VirtualHosts R)
      → IsWellFormed v
      → get_virtual_host id v ≡ some (x, host)
      → get_host id (delete_host host v) ≡ none
  unfolding delete_host
  get_host-delete_host id host x v w g = elim (Option-cases (get_host id (delete_host host v))) [
    | inl n ↦ n
    | inr (j, f) ↦
        let (l, i) = get_virtual_host_sound id host x v w.distinct g in
        let (y, m, k) =
          get_host_sound id j (delete_host host v) (delete_host-IsWellFormed host v w).distinct f in
        absurd (ground (arith, lookup-delete host j v, w.one_host host j x y, i, k, eq_iff host j))
  ]

  pub get_host-release_host :
      (id : Bytes) (v : VirtualHosts R) → IsWellFormed v → get_host id (release_host id v) ≡ none
  unfolding release_host
  get_host-release_host id v w = elim (Option-cases (get_virtual_host id v)) [
    | inl n ↦ rw (n, release_host) (rw (get_host-get_virtual_host id v, n))
    | inr ((x, h), g) ↦ rw (g, release_host) (get_host-delete_host id h x v w g)
  ]

  get_identifier-delete_host :
      (id j host i : Bytes) (x : VirtualHost R) (v : VirtualHosts R)
      → IsWellFormed v
      → get_virtual_host id v ≡ some (x, host)
      → j ≢ id
      → (get_identifier i (delete_host host v) ≡ some j) ↔ (get_identifier i v ≡ some j)
  unfolding delete_host get_identifier
  get_identifier-delete_host id j host i x v w g ne =
      let (l, k) = get_virtual_host_sound id host x v w.distinct g in
      ground (arith, lookup-delete host i v, eq_iff host i, l, k, ne)

  pub get_host-release_host_other :
      (id j : Bytes) (v : VirtualHosts R)
      → IsWellFormed v
      → j ≢ id
      → get_host j (release_host id v) ≡ get_host j v
  unfolding release_host
  get_host-release_host_other id j v w ne = elim (Option-cases (get_virtual_host id v)) [
    | inl n ↦ rw (n, release_host)
    | inr ((x, h), g) ↦
        rw (g, release_host)
          (get_host_ext j _ v (delete_host-IsWellFormed h v w) w
            (λ i. get_identifier-delete_host id j h i x v w g ne))
  ]

  -- Nothing of a client is left.
  pub record IsGone (id : Bytes) (s : Server R) : Type 0 where
    pub no_control : lookup id s.controls ≡ none
    pub no_session : lookup id s.sessions ≡ none
    pub no_host : get_host id s.virtual_hosts ≡ none

  -- A client is served alike in two states.
  pub record IsUntouched (id : Bytes) (s t : Server R) : Type 0 where
    pub same_control : lookup id t.controls ≡ lookup id s.controls
    pub same_session : lookup id t.sessions ≡ lookup id s.sessions
    pub same_host : get_host id t.virtual_hosts ≡ get_host id s.virtual_hosts

  pub delete_session_lem :
      (id : Bytes) (session : Option ℕ) (s : Server R)
      → IsWellFormed s.virtual_hosts
      → lookup id s.controls ≡ none
      → lookup id s.sessions ≡ some session
      → IsGone id (delete_session id s)
        × ((j : Bytes) → j ≢ id → IsUntouched j s (delete_session id s))
  unfolding delete_session
  delete_session_lem id session s w free l =
      rw (l, delete_session)
        (
          record {
            no_control = free;
            no_session = lookup-delete_self id s.sessions;
            no_host = get_host-release_host id s.virtual_hosts w;
          },
          λ j ne. record {
            same_control = refl;
            same_session = ground (arith, lookup-delete id j s.sessions, eq_iff id j, ne);
            same_host = get_host-release_host_other id j s.virtual_hosts w ne;
          },
        )

  -- In a consistent state, dropping a client that is connected, through whichever of its controls,
  -- removes its control, its session and its host, and touches no other client.
  pub drop_client_lem :
      (p q : ℕ) (id : Bytes) (s : Server R)
      → IsConsistent s
      → lookup id s.controls ≡ some q
      → IsGone id (drop_client p id s)
        × ((j : Bytes) → j ≢ id → IsUntouched j s (drop_client p id s))
  unfolding drop_client delete_control close_control
  drop_client_lem p q id s v l =
      let (session, m) = v.backed id q l in
      let (gone, others) =
        delete_session_lem id session (delete_control id (close_control p s)) v.hosts
          (lookup-delete_self id s.controls) m in
      (
        gone,
        λ j ne. record {
          same_control =
              (others j ne).same_control
              ∙ ground (arith, lookup-delete id j s.controls, eq_iff id j, ne);
          same_session = (others j ne).same_session;
          same_host = (others j ne).same_host;
        },
      )

  heap-drop_client :
      (p q : ℕ) (id : Bytes) (s : Server R)
      → p ≢ q
      → get_elem? (drop_client p id s).heap q ≡ get_elem? s.heap q
  unfolding drop_client delete_session delete_control close_control
  heap-drop_client p q id s ne =
      ground (arith, get_elem?-update p q mark_closed s.heap, nat_eq_iff p q, ne)

  -- In a consistent state, the end of a listener on an old control `p` of a client that has
  -- connected again: the new control `q` is left open, and yet the client's control, session and
  -- host are removed. No other client is touched.
  pub listen_fail_stale :
      (p q : ℕ) (e : Error) (id : Bytes) (old : Control) (s : Server R)
      → IsConsistent s
      → get_elem? s.heap p ≡ some old
      → old.identifier ≡ id
      → lookup id s.controls ≡ some q
      → p ≢ q
      → IsGone id (listen_fail p e s)
        × ((c : Control) × (get_elem? (listen_fail p e s).heap q ≡ some c) × (c.closed ≡ false))
        × ((j : Bytes) → j ≢ id → IsUntouched j s (listen_fail p e s))
  unfolding listen_fail on_disconnect
  listen_fail_stale p q e id old s v at named l ne =
      let i : identifier_at p s ≡ id = ground arith in
      let (gone, others) = drop_client_lem p q (identifier_at p s) s v (rw i l) in
      let (c, found, r) = v.registered id q l in
      (
        subst (λ k. IsGone k (listen_fail p e s)) i
            (record {
              no_control = gone.no_control;
              no_session = gone.no_session;
              no_host = gone.no_host;
            }),
        (c, heap-drop_client p q (identifier_at p s) s ne ∙ found, r.opened),
        λ j other.
            let u = others j (λ x. other (x ∙ i)) in
            record {
              same_control = u.same_control;
              same_session = u.same_session;
              same_host = u.same_host;
            },
      )
