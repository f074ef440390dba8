-- ===== src/Tunnel/Server/Threads/Others.antt =====
-- What the goroutines of other clients leave of a client, however they interleave.
use mylittleproxy.Base.{
  any-append, Bytes, ◌≡◌, refl, sym, ap, ◌∙◌, ◌≢◌, false, [], ◌∷◌, ◌++◌, Option, arith, any,
  Result-cases, inl, inr,
}
use mylittleproxy.Proto.{ConnectionConfig}
use mylittleproxy.Tunnel.Regexp.{Regexp}
use mylittleproxy.Tunnel.VirtualHosts.{get_host}
use mylittleproxy.Tunnel.VirtualHosts.Find.{IsWellFormed}
use mylittleproxy.Tunnel.Server.{Server, Settings}
use mylittleproxy.Tunnel.Server.Handshake.{Sign, HandshakeIo, identifier_at}
use mylittleproxy.Tunnel.Server.Connect.{Request, admit}
use mylittleproxy.Tunnel.Server.Release.{IsUntouched}
use mylittleproxy.Tunnel.Server.Threads.{
  Routine, registers, closes, waits, listens, spawned, advance, arrive,
}
use mylittleproxy.Tunnel.Server.Threads.Careful.{deletes, careful_advance}
use mylittleproxy.Tunnel.Server.Threads.System.{System, Move, turn, Step, turns, arrives, breaks}

module _ {R : Type 0} where
  -- No host is claimed twice by one client, and no goroutine is about to delete the host of `j`.
  pub record IsSafe (j : Bytes) (p : System R) : Type 0 where
    pub hosts : IsWellFormed p.server.virtual_hosts
    pub spared : any (deletes (get_host j p.server.virtual_hosts)) p.threads ≡ false

  spawned-deletes :
      (h : Option Bytes) (pc : Routine R) (s : Server R) → any (deletes h) (spawned pc s) ≡ false
  spawned-deletes h (registers id stream) s = refl
  spawned-deletes h _ s = refl

  IsUntouched-trans :
      (j : Bytes) (s t u : Server R) → IsUntouched j s t → IsUntouched j t u → IsUntouched j s u
  IsUntouched-trans j s t u f g = record {
    same_control = g.same_control ∙ f.same_control;
    same_session = g.same_session ∙ f.same_session;
    same_host = g.same_host ∙ f.same_host;
  }

  Move-IsUntouched :
      (sign : Sign) (j id : Bytes) {p q : System R}
      → j ≢ id
      → Move sign id p q
      → IsSafe j p
      → IsSafe j q × IsUntouched j p.server q.server
  Move-IsUntouched sign j id {p} ne (turn before after pc e rest free own) v =
      let h = get_host j p.server.virtual_hosts in
      let parts = ap (any (deletes h)) (sym e) ∙ v.spared in
      let c =
        careful_advance sign j pc p.server v.hosts
          (ground (arith, parts, any-append (deletes h) before (pc ∷ after))) rest
          (λ same. ne (same ∙ own)) in
      let x = advance sign pc p.server in
      let more = spawned pc p.server in
      (
        record {
          hosts = c.hosts;
          spared =
              ap (λ k. any (deletes k) (before ++ x.0 ∷ (after ++ more))) c.same.same_host
              ∙ ground (
                arith,
                parts,
                c.spares,
                spawned-deletes h pc p.server,
                any-append (deletes h) before (pc ∷ after),
                any-append (deletes h) before (x.0 ∷ (after ++ more)),
                any-append (deletes h) after more,
              );
        },
        c.same,
      )

module _ (re : Regexp) (sign : Sign) (decode : Bytes → Option ConnectionConfig) where
  open re use {Regex}

  arrive-deletes :
      (h : Option Bytes) (c : Settings Regex) (io : HandshakeIo) (r : Request)
      → deletes h (arrive re sign decode c io r) ≡ false
  unfolding arrive
  arrive-deletes h c io r = elim (Result-cases (admit re sign decode c r)) [
    | inl ((domain, rules), a) ↦ rw (a, arrive)
    | inr (reply, a) ↦ rw (a, arrive)
  ]

  Step-IsUntouched :
      (j id : Bytes) {p q : System Regex}
      → j ≢ id
      → Step re sign decode id p q
      → IsSafe j p
      → IsSafe j q × IsUntouched j p.server q.server
  Step-IsUntouched j id ne (turns t) v = Move-IsUntouched sign j id ne t v
  Step-IsUntouched j id {p} ne (arrives io r own) v =
      let h = get_host j p.server.virtual_hosts in
      let pc = arrive re sign decode p.server.settings io r in
      (
        record {
          hosts = v.hosts;
          spared = ground (
            arith,
            v.spared,
            any-append (deletes h) p.threads (pc ∷ []),
            arrive-deletes h p.server.settings io r,
          );
        },
        record { same_control = refl; same_session = refl; same_host = refl },
      )
  Step-IsUntouched j id {p} ne (breaks before after ct e at own) v =
      let h = get_host j p.server.virtual_hosts in
      let ended : Routine Regex = closes ct (identifier_at ct p.server) e listens in
      (
        record {
          hosts = v.hosts;
          spared = ground (
            arith,
            v.spared,
            ap (any (deletes h)) at,
            any-append (deletes h) before (waits ct ∷ after),
            any-append (deletes h) before (ended ∷ after),
          );
        },
        record { same_control = refl; same_session = refl; same_host = refl },
      )

  -- Any number of steps, none of them for the client `j`.
  pub data OtherSteps (j : Bytes) (p : System Regex) : System Regex → Type 0 where
    here : OtherSteps j p p
    next :
        (id : Bytes) {q r : System Regex}
        → j ≢ id
        → OtherSteps j p q
        → Step re sign decode id q r
        → OtherSteps j p r

  -- However the requests and the listeners of all other clients interleave, between any two calls that
  -- take a mutex, a client keeps its control, its session and its host. That each identifier has one
  -- host at most, and that no goroutine is just about to delete this client's host, is needed when
  -- they start, and stays so.
  pub OtherSteps-IsUntouched :
      (j : Bytes) {p q : System Regex}
      → OtherSteps j p q
      → IsSafe j p
      → IsSafe j q × IsUntouched j p.server q.server
  OtherSteps-IsUntouched j here v =
      (v, record { same_control = refl; same_session = refl; same_host = refl })
  OtherSteps-IsUntouched j {p} (next id {q} {r} ne ts t) v =
      let (w, f) = OtherSteps-IsUntouched j ts v in
      let (x, g) = Step-IsUntouched j id ne t w in
      (x, IsUntouched-trans j p.server q.server r.server f g)
