-- ===== src/Tunnel/Server/Threads/Races.antt =====
-- What can go wrong between two calls of one handler, when another request or listener comes between.
use mylittleproxy.Base.{
  ℕ, suc, Bytes, ◌≡◌, refl, ap, ◌∙◌, ◌≢◌, true, none, some, List, [], ◌∷◌, ◌++◌, Option, arith, ok,
  lookup, insert, lookup-delete_self, lookup-insert_self, eq_iff, get_elem?, length, length-append,
}
use mathlib.Core.List.{append_assoc}
use mylittleproxy.Proto.{handshake_response}
use mylittleproxy.Tunnel.Errors.{Error, no_host_for}
use mylittleproxy.Tunnel.Controls.{identify, new_control}
use mylittleproxy.Tunnel.Controls.Heap.{get_elem?-append_old, get_elem?-append_new}
use mylittleproxy.Tunnel.VirtualHosts.{
  HttpRewriteRule, VirtualHosts, VirtualHost, add_host, release_others, delete_host, get_host,
  get_virtual_host,
}
use mylittleproxy.Tunnel.VirtualHosts.Find.{IsWellFormed, get_virtual_host_sound}
use mylittleproxy.Tunnel.VirtualHosts.AddHost.{add_host-IsWellFormed, add_host_lem, lookup-add_host}
use mylittleproxy.Tunnel.Server.{Server, write, emit, add_session, add_control, delete_control}
use mylittleproxy.Tunnel.Server.Handshake.{
  Sign, HandshakeIo, status_line, check_identifier_signature,
}
use mylittleproxy.Tunnel.Server.Connect.{taken_over}
use mylittleproxy.Tunnel.Server.Release.{get_host-delete_host}
use mylittleproxy.Tunnel.Server.Conclude.{Succeeds}
use mylittleproxy.Tunnel.Server.Threads.{
  adds, checks, looks, upgrades, registers, unregisters, releases, frees, reports, starts, replied,
  Role, listens, fails, advance,
}
use mylittleproxy.Tunnel.Server.Threads.System.{
  System, turn, Moves, here, next, client_of, is_at_rest, is_blocked, needs_sessions,
  holds_sessions,
}
use mylittleproxy.Tunnel.Server.Threads.Branches.{without_session, release-frees}
use mylittleproxy.Tunnel.Server.Threads.Schedules.{advance-looks, turn_to, greet_turns}

module _ {R : Type 0} (sign : Sign) where
  -- Two control requests of one client that both look for a control before either has registered
  -- one, and whose handshakes succeed, are both answered as connected. Only the second is registered:
  -- the control of the first stays open without an entry, and its session is replaced in the table
  -- and not closed. The only effects are the four writes of the two handshakes.
  pub handshakes_overlap :
      (a b : HandshakeIo) (id : Bytes) (s : Server R)
      (conn conn' session session' stream stream' : ℕ)
      → Succeeds a conn session stream
      → Succeeds b conn' session' stream'
      → lookup id s.controls ≡ none
      → (q : System R) × Moves sign
          (record { server = s; threads = looks a id ∷ looks b id ∷ [] })
          10
          q
        × (q.threads
            ≡ replied taken_over
              ∷ replied taken_over
              ∷ starts (length s.heap)
              ∷ starts (suc (length s.heap))
              ∷ [])
        × (lookup id q.server.controls ≡ some (suc (length s.heap)))
        × (lookup id q.server.sessions ≡ some (some session'))
        × (get_elem? q.server.heap (length s.heap) ≡ some (identify id (new_control stream)))
        × (q.server.effects
            ≡ s.effects
              ++ write conn status_line
                ∷ write stream handshake_response
                ∷ write conn' status_line
                ∷ write stream' handshake_response
                ∷ [])
  unfolding advance is_at_rest is_blocked needs_sessions holds_sessions add_session add_control
      client_of
  handshakes_overlap a b id s conn conn' session session' stream stream' good good' free =
      let looked =
        turn_to sign (upgrades a id ∷ []) [] (looks b id) (upgrades b id) s
          (turn_to sign [] (looks b id ∷ []) (looks a id) (upgrades a id) s here refl
            (advance-looks sign a conn session stream good id s free) refl refl refl)
          refl (advance-looks sign b conn' session' stream' good' id s free) refl refl refl in
      let after_greeting =
        greet_turns sign a conn session stream good [] (upgrades b id ∷ []) id looked refl refl in
      let first =
        next id after_greeting
          (turn [] (upgrades b id ∷ []) (registers id stream) refl refl refl refl) in
      let after_greeting' =
        greet_turns sign b conn' session' stream' good' (replied taken_over ∷ [])
          (starts (length s.heap) ∷ []) id first refl refl in
      let second = next id after_greeting' (
        turn (replied taken_over ∷ []) (starts (length s.heap) ∷ []) (registers id stream') refl
          refl refl refl) in
      let c = identify id (new_control stream) in
      let len : length (s.heap ++ c ∷ []) ≡ suc (length s.heap) =
        ground (arith, length-append s.heap (c ∷ [])) in
      (
        _,
        second,
        ap
            (λ (n : ℕ).
              replied taken_over ∷ replied taken_over ∷ starts (length s.heap) ∷ starts n ∷ [])
            len,
        lookup-insert_self id _ _ ∙ ap some len,
        lookup-insert_self id (some session') _,
        get_elem?-append_old (s.heap ++ c ∷ []) _ _ c (get_elem?-append_new s.heap c),
        simp append_assoc,
      )

  -- A listener's clean-up that falls between `addSession` and `addControl` of a new handshake of its
  -- client: `deleteControl` comes before the new control, `deleteSession` after the new session. The
  -- request is answered as connected and its control is registered and open, but the client has
  -- neither a session nor a host.
  pub clean_up_overlaps :
      (h : HandshakeIo) (id host : Bytes) (e : Error) (s : Server R) (x : VirtualHost R)
      (conn session stream : ℕ)
      → Succeeds h conn session stream
      → IsWellFormed s.virtual_hosts
      → get_virtual_host id s.virtual_hosts ≡ some (x, host)
      → (q : System R) × Moves sign
          (record { server = s; threads = unregisters id e listens ∷ looks h id ∷ [] })
          8
          q
        × (q.threads ≡ reports none id e listens ∷ replied taken_over ∷ starts (length s.heap) ∷ [])
        × (lookup id q.server.controls ≡ some (length s.heap))
        × (get_elem? q.server.heap (length s.heap) ≡ some (identify id (new_control stream)))
        × (lookup id q.server.sessions ≡ none)
        × (get_host id q.server.virtual_hosts ≡ none)
  unfolding advance is_at_rest is_blocked needs_sessions holds_sessions add_session add_control
      client_of delete_control
  clean_up_overlaps h id host e s x conn session stream good w g =
      let bare = delete_control id s in
      let waiting = releases none id e listens in
      let looked =
        turn_to sign (waiting ∷ []) [] (looks h id) (upgrades h id) bare
          (turn_to sign [] (looks h id ∷ []) (unregisters id e listens) waiting bare here refl refl
            refl refl refl)
          refl
          (advance-looks sign h conn session stream good id bare (lookup-delete_self id s.controls))
          refl refl refl in
      let after_greeting =
        greet_turns sign h conn session stream good (waiting ∷ []) [] id looked refl refl in
      let t =
        emit (write stream handshake_response ∷ [])
          (add_session id (some session) (emit (write conn status_line ∷ []) bare)) in
      let u = without_session id (some session) t in
      let freed = record u { virtual_hosts = delete_host host u.virtual_hosts } in
      let freeing = frees host none id e listens in
      let registering = registers id stream in
      let released =
        turn_to sign [] (registering ∷ []) freeing (reports none id e listens) freed
          (turn_to sign [] (registering ∷ []) waiting freeing u after_greeting refl
            (release-frees none id e listens t (some session) x host
              (lookup-insert_self id (some session) s.sessions) g)
            refl refl refl)
          refl refl refl refl refl in
      let c = identify id (new_control stream) in
      (
        _,
        next id released (turn (reports none id e listens ∷ []) [] registering refl refl refl refl),
        refl,
        lookup-insert_self id _ _,
        get_elem?-append_new s.heap c,
        lookup-delete_self id _,
        get_host-delete_host id host x s.virtual_hosts w g,
      )

  -- The host that a client leaves is free for others, as far as `AddHost` tells.
  add_host_moved :
      (i j h h' : Bytes) (x : VirtualHost R) (rules rules' : List (HttpRewriteRule R))
      (v v' : VirtualHosts R)
      → IsWellFormed v
      → get_virtual_host i v ≡ some (x, h)
      → h' ≢ h
      → add_host h' i rules v ≡ ok v'
      → (u : VirtualHosts R) × (add_host h j rules' v' ≡ ok u)
  unfolding add_host
  add_host_moved i j h h' x rules rules' v v' w g ne e =
      let (l, own) = get_virtual_host_sound i h x v w.distinct g in
      let free : lookup h v' ≡ none =
        lookup-add_host h' i h rules v v' w e
        ∙ ground (arith, l, own, ne, eq_iff h' h, eq_iff h h', eq_iff x.identifier i) in
      (
        insert h (record { identifier = j; rewrite = rules' }) (release_others h j v'),
        rw (free, add_host),
      )

  -- While the session of a client is being deleted, the client itself moves to another host, and the
  -- host that it leaves is given to a client `j`: then `DeleteHost`, with the name that
  -- `GetVirtualHost` had found before, deletes the host of `j`, whose request fails with 502 although
  -- its `AddHost` went well.
  pub release_overlaps :
      (a b : HandshakeIo) (i j h h' sig sig' : Bytes) (e : Error) (role : Role) (hung : Option ℕ)
      (s : Server R) (x : VirtualHost R) (rules rules' : List (HttpRewriteRule R))
      (session : Option ℕ) (v : VirtualHosts R)
      → IsWellFormed s.virtual_hosts
      → lookup i s.sessions ≡ some session
      → get_virtual_host i s.virtual_hosts ≡ some (x, h)
      → h' ≢ h
      → add_host h' i rules s.virtual_hosts ≡ ok v
      → check_identifier_signature sign j s.settings.signature_key sig' ≡ true
      → (u : VirtualHosts R) × (add_host h j rules' v ≡ ok u)
        × (q : System R) × Moves sign
            (record {
              server = s;
              threads =
                  releases hung i e role ∷ adds a h' rules i sig ∷ adds b h rules' j sig' ∷ [];
            })
            5
            q
        × (q.threads ≡ reports hung i e role ∷ checks a i sig ∷ fails j (no_host_for j) ∷ [])
        × (get_host j q.server.virtual_hosts ≡ none)
  unfolding advance is_at_rest is_blocked needs_sessions holds_sessions
  release_overlaps a b i j h h' sig sig' e role hung s x rules rules' session v w l g ne m good =
      let (u, m') = add_host_moved i j h h' x rules rules' s.virtual_hosts v w g ne m in
      let wv = add_host-IsWellFormed h' i rules s.virtual_hosts v w m in
      let wu = add_host-IsWellFormed h j rules' v u wv m' in
      let (_, _, found, _) = add_host_lem h j rules' v u wv m' in
      let gone = get_host-delete_host j h _ u wu found in
      let s1 = without_session i session s in
      let s2 = record s1 { virtual_hosts = v } in
      let s3 = record s1 { virtual_hosts = u } in
      let s4 = record s1 { virtual_hosts = delete_host h u } in
      let freeing = frees h hung i e role in
      let adding = adds a h' rules i sig in
      let adding' = adds b h rules' j sig' in
      let checking = checks a i sig in
      let checking' = checks b j sig' in
      let reporting = reports hung i e role in
      let moved : advance sign adding s1 ≡ (checking, s2) = rw (m, advance) in
      let taken : advance sign adding' s2 ≡ (checking', s3) = rw (m', advance) in
      let missed : advance sign checking' s4 ≡ (fails j (no_host_for j), s4) =
        rw (good, advance) (rw gone) in
      let ts1 =
        turn_to sign [] (adding ∷ adding' ∷ []) (releases hung i e role) freeing s1 here refl
          (release-frees hung i e role s session x h l g) refl refl refl in
      let ts2 =
        turn_to sign (freeing ∷ []) (adding' ∷ []) adding checking s2 ts1 refl moved refl refl
          refl in
      let ts3 =
        turn_to sign (freeing ∷ checking ∷ []) [] adding' checking' s3 ts2 refl taken refl refl
          refl in
      let ts4 =
        turn_to sign [] (checking ∷ checking' ∷ []) freeing reporting s4 ts3 refl refl refl refl
          refl in
      let ts5 =
        turn_to sign (reporting ∷ checking ∷ []) [] checking' (fails j (no_host_for j)) s4 ts4 refl
          missed refl refl refl in
      (u, m', _, ts5, refl, gone)
