-- ===== src/Tunnel/Server/Invariant.antt =====
-- What the operations of the server keep true of its tables: hosts, controls, the control objects
-- behind the pointers, and sessions.
use mylittleproxy.Base.{
  ℕ, Bytes, ◌≡◌, refl, true, false, Option, none, some, List, arith, ◌==◌, eq_iff, eq_refl, lookup,
  lookup-insert, lookup-delete, get_elem?, length, nat_eq_iff, Option-cases, Bool-cases, inl, inr,
}
use mylittleproxy.Tunnel.Errors.{Error}
use mylittleproxy.Tunnel.Controls.{Control, mark_closed, identify, new_control}
use mylittleproxy.Tunnel.Controls.Heap.{
  get_elem?-update, get_elem?-append_old, get_elem?-append_new,
}
use mylittleproxy.Tunnel.VirtualHosts.{get_virtual_host}
use mylittleproxy.Tunnel.VirtualHosts.Find.{IsWellFormed}
use mylittleproxy.Tunnel.VirtualHosts.AddHost.{delete_host-IsWellFormed}
use mylittleproxy.Tunnel.Server.{
  Server, Effect, emit, add_session, delete_session, add_control, delete_control, close_control,
  on_connect, on_disconnect, release_host,
}

-- The object behind a registered pointer.
pub record IsRegistered (id : Bytes) (c : Control) : Type 0 where
  pub named : c.identifier ≡ id
  pub opened : c.closed ≡ false
  pub usable : c.has_enc ≡ true

module _ {R : Type 0} where
  pub record IsConsistent (s : Server R) : Type 0 where
    pub hosts : IsWellFormed s.virtual_hosts
    pub registered :
        (id : Bytes) (p : ℕ)
        → lookup id s.controls ≡ some p
        → (c : Control) × (get_elem? s.heap p ≡ some c) × IsRegistered id c
    pub backed :
        (id : Bytes) (p : ℕ)
        → lookup id s.controls ≡ some p
        → (session : Option ℕ) × (lookup id s.sessions ≡ some session)

  pub emit-IsConsistent :
      (es : List Effect) (s : Server R) → IsConsistent s → IsConsistent (emit es s)
  emit-IsConsistent es s v = record {
    hosts = v.hosts;
    registered = v.registered;
    backed = v.backed;
  }

  pub on_connect-IsConsistent :
      (id : Bytes) (s : Server R) → IsConsistent s → IsConsistent (on_connect id s)
  unfolding on_connect
  on_connect-IsConsistent id s v = record {
    hosts = v.hosts;
    registered = v.registered;
    backed = v.backed;
  }

  pub on_disconnect-IsConsistent :
      (id : Bytes) (e : Option Error) (s : Server R)
      → IsConsistent s
      → IsConsistent (on_disconnect id e s)
  unfolding on_disconnect
  on_disconnect-IsConsistent id e s v = record {
    hosts = v.hosts;
    registered = v.registered;
    backed = v.backed;
  }

  pub release_host-IsWellFormed :
      (id : Bytes) (s : Server R)
      → IsWellFormed s.virtual_hosts
      → IsWellFormed (release_host id s.virtual_hosts)
  unfolding release_host
  release_host-IsWellFormed id s w = elim (Option-cases (get_virtual_host id s.virtual_hosts)) [
    | inl n ↦ rw (n, release_host) w
    | inr ((x, h), g) ↦ rw (g, release_host) (delete_host-IsWellFormed h s.virtual_hosts w)
  ]

  pub add_session-IsConsistent :
      (id : Bytes) (session : Option ℕ) (s : Server R)
      → IsConsistent s
      → IsConsistent (add_session id session s)
  unfolding add_session
  add_session-IsConsistent id session s v = record {
    hosts = v.hosts;
    registered = v.registered;
    backed = λ j p e.
        let (old, l) = v.backed j p e in
        elim (Option-cases (lookup j (add_session id session s).sessions)) [
          | inl n ↦ absurd (ground (arith, lookup-insert id j session s.sessions))
          | inr (x, m) ↦ (x, m)
        ];
  }

  pub delete_session-IsConsistent :
      (id : Bytes) (s : Server R)
      → lookup id s.controls ≡ none
      → IsConsistent s
      → IsConsistent (delete_session id s)
  unfolding delete_session
  delete_session-IsConsistent id s free v = elim (Option-cases (lookup id s.sessions)) [
    | inl n ↦ rw (n, delete_session) v
    | inr (x, l) ↦
        rw (l, delete_session)
          (record {
            hosts = release_host-IsWellFormed id s v.hosts;
            registered = v.registered;
            backed = λ j p e.
                let (old, m) = v.backed j p e in
                (old, ground (arith, lookup-delete id j s.sessions, eq_iff id j));
          })
  ]

  pub add_control-IsConsistent :
      (id : Bytes) (stream : ℕ) (s : Server R) (session : Option ℕ)
      → lookup id s.sessions ≡ some session
      → IsConsistent s
      → IsConsistent (add_control id stream s)
  unfolding add_control
  add_control-IsConsistent id stream s session l v = record {
    hosts = v.hosts;
    registered = λ j p e. elim (Bool-cases (id == j)) [
      | inl same ↦ (
        identify id (new_control stream),
        ground (
          arith,
          lookup-insert id j (length s.heap) s.controls,
          get_elem?-append_new s.heap (identify id (new_control stream)),
        ),
        record { named = (eq_iff id j).0 same; opened = refl; usable = refl },
      )
      | inr differ ↦
          let (c, at, r) =
            v.registered j p (ground (arith, lookup-insert id j (length s.heap) s.controls)) in
          (c, get_elem?-append_old s.heap _ p c at, r)
    ];
    backed = λ j p e. elim (Bool-cases (id == j)) [
      | inl same ↦ (session, ground (arith, eq_iff id j))
      | inr differ ↦ v.backed j p (ground (arith, lookup-insert id j (length s.heap) s.controls))
    ];
  }

  -- `ct.Close()` and `deleteControl`, for a pointer whose object, if any, has that identifier.
  pub close-delete-IsConsistent :
      (p : ℕ) (id : Bytes) (s : Server R)
      → ((c : Control) → get_elem? s.heap p ≡ some c → c.identifier ≡ id)
      → IsConsistent s
      → IsConsistent (delete_control id (close_control p s))
  unfolding delete_control close_control
  close-delete-IsConsistent p id s own v = record {
    hosts = v.hosts;
    registered = λ j q e.
        let still : lookup j s.controls ≡ some q = ground (arith, lookup-delete id j s.controls) in
        let (c, at, r) = v.registered j q still in
        (
          c,
          ground (
            arith,
            get_elem?-update p q mark_closed s.heap,
            nat_eq_iff p q,
            own c,
            r.named,
            lookup-delete id j s.controls,
            eq_refl id,
          ),
          r,
        );
    backed = λ j q e. v.backed j q (ground (arith, lookup-delete id j s.controls));
  }
