-- ===== src/Tunnel/Client/Run/Returning.antt =====
-- How `Start` of tunnel/client.go returns once the client is closed and its control connection is gone.
use mylittleproxy.Base.{
  ℕ, suc, ◌+◌, ◌≤◌, Bytes, ◌≡◌, refl, sym, ap, ◌∙◌, subst, ◌⊎◌, inl, inr, true, some, List, [], ◌∷◌,
  ◌++◌, length, arith, Option-cases,
}
use mylittleproxy.Proto.{ConnectionConfig}
use mylittleproxy.Tunnel.Errors.{Error}
use mylittleproxy.Tunnel.ClientState.{client_closed}
use mylittleproxy.Tunnel.Server.Handshake.{Sign}
use mylittleproxy.Tunnel.Client.Connect.{
  Pc, looping, draining, ended, returned, Handler, disconnect, finish_request,
}
use mylittleproxy.Tunnel.Client.Run.{
  Machine, close, close_with, unless_closed, at, Step, heads, backs_off, wakes, fetches, connects,
  greets, receives, breaks, drains, ends, finishes, closes, closes_session, closed, notifies, Steps,
  here, next,
}
use mylittleproxy.Tunnel.Client.Run.Sound.{IsSound, Fits, unless_closed_closed, count_requests}
use mylittleproxy.Tunnel.Client.Run.Reachable.{Step-IsSound}
use mylittleproxy.Tunnel.Client.Run.Closing.{IsPastConnect, Steps-IsClosing}

-- Where `Start` stands once its control connection is gone.
abbrev pub IsLeaving : Pc → Type 0
IsLeaving (draining _) = Unit
IsLeaving (ended _) = Unit
IsLeaving returned = Unit
IsLeaving _ = ⊥

abbrev stages : Pc → ℕ
stages (draining _) = 2
stages (ended _) = 1
stages _ = 0

-- What `Start` still has to do, with the requests that it waits for.
abbrev pub left_to_do : Machine → ℕ
left_to_do m = stages m.pc + length m.handlers

IsLeaving-IsPastConnect : (pc : Pc) → IsLeaving pc → IsPastConnect pc
IsLeaving-IsPastConnect (draining e) l = tt
IsLeaving-IsPastConnect (ended e) l = tt
IsLeaving-IsPastConnect returned l = tt
IsLeaving-IsPastConnect _ l = absurd l

length-drop_one :
    (before after : List Handler) (h : Handler)
    → suc (length (before ++ after)) ≡ length (before ++ h ∷ after)
length-drop_one [] after h = refl
length-drop_one (x ∷ before) after h = ap suc (length-drop_one before after h)

abbrev ComesNearer : Machine → Machine → Type 0
ComesNearer m n = IsLeaving n.pc × (left_to_do n ≤ left_to_do m)

close-ComesNearer : (m : Machine) → IsLeaving m.pc → ComesNearer m (close m)
unfolding close
close-ComesNearer m l = elim (Option-cases m.client.session) [
  | inl n ↦ subst (ComesNearer m) (ap (λ x. close_with x m) (sym n)) (l, omega arith)
  | inr (s, e) ↦ subst (ComesNearer m) (ap (λ x. close_with x m) (sym e)) (l, omega arith)
]

ends-left :
    (m : Machine) (e : Error)
    → m.pc ≡ ended e
    → m.client.closed ≡ true
    → let n = at m (unless_closed (some e) (looping (some e)) m.client) in
      IsLeaving n.pc × (suc (left_to_do n) ≤ left_to_do m)
ends-left m e p y =
    let Q = λ (r : Pc × _). IsLeaving r.0 × (suc (stages r.0 + length m.handlers) ≤ left_to_do m) in
    subst Q (sym (unless_closed_closed (some e) (looping (some e)) m.client y))
      (tt, omega (arith, ap stages p))

module _ (sign : Sign) (encode : ConnectionConfig → Bytes) where
  Step-ComesNearer :
      {m n : Machine}
      → Step sign encode m n
      → IsLeaving m.pc
      → m.client.closed ≡ true
      → ComesNearer m n
  unfolding disconnect finish_request
  Step-ComesNearer (heads last e) l y = absurd (subst IsLeaving e l)
  Step-ComesNearer (backs_off last pause e) l y = absurd (subst IsLeaving e l)
  Step-ComesNearer (wakes last e) l y = absurd (subst IsLeaving e l)
  Step-ComesNearer (fetches last io e) l y = absurd (subst IsLeaving e l)
  Step-ComesNearer (connects i a k io e) l y = absurd (subst IsLeaving e l)
  Step-ComesNearer (greets io e) l y = absurd (subst IsLeaving e l)
  Step-ComesNearer (receives msg stream e) l y = absurd (subst IsLeaving e l)
  Step-ComesNearer (breaks x e) l y = absurd (subst IsLeaving e l)
  Step-ComesNearer (drains x e none_left) l y = (tt, omega (arith, ap stages e))
  Step-ComesNearer {m} (ends x e) l y =
      let (leaves, fewer) = ends-left m x e y in (leaves, omega (arith, fewer))
  Step-ComesNearer (finishes before after h e) l y =
      (l, omega (arith, ap length e, length-drop_one before after h))
  Step-ComesNearer {m} closes l y = close-ComesNearer m l
  Step-ComesNearer (closes_session n e) l y = (l, omega arith)
  Step-ComesNearer (closed n e) l y = (l, omega arith)
  Step-ComesNearer notifies l y = (l, omega arith)

  -- `Start` has returned in the state closed, or some goroutine can bring it nearer to that.
  abbrev pub Returns : Machine → Type 0
  Returns m =
      ((m.pc ≡ returned) × (m.client.state ≡ client_closed))
      ⊎ ((n : Machine) × Step sign encode m n × (suc (left_to_do n) ≤ left_to_do m))

  drains_or_finishes :
      (hs : List Handler) (m : Machine) (e : Error)
      → m.handlers ≡ hs
      → IsSound m
      → m.pc ≡ draining e
      → (n : Machine) × Step sign encode m n × (suc (left_to_do n) ≤ left_to_do m)
  unfolding disconnect finish_request
  drains_or_finishes [] m e l v p =
      (_, drains e p (v.counted ∙ ap count_requests l), omega (arith, ap stages p))
  drains_or_finishes (h ∷ hs) m e l v p = (_, finishes [] hs h l, omega (arith, ap length l))

  IsLeaving-Returns :
      (pc : Pc) (m : Machine)
      → m.pc ≡ pc
      → IsSound m
      → IsLeaving pc
      → m.client.closed ≡ true
      → Returns m
  IsLeaving-Returns (draining e) m p v l y = inr (drains_or_finishes m.handlers m e refl v p)
  IsLeaving-Returns (ended e) m p v l y = inr (_, ends e p, (ends-left m e p y).1)
  IsLeaving-Returns returned m p v l y = inl (p, (subst (λ x. Fits x m.client) p v.fits).0)
  IsLeaving-Returns _ m p v l y = absurd l

  IsLeaving-kept :
      {m n : Machine}
      → Steps sign encode m n
      → IsSound m
      → IsLeaving m.pc
      → m.client.closed ≡ true
      → IsSound n × (n.client.closed ≡ true) × IsLeaving n.pc × (left_to_do n ≤ left_to_do m)
  IsLeaving-kept here v l y = (v, y, l, omega arith)
  IsLeaving-kept (next {n} r st) v l y =
      let (w, z, k, fewer) = IsLeaving-kept r v l y in
      let (leaves, nearer) = Step-ComesNearer st k z in
      let shut =
        (Steps-IsClosing sign encode (next here st)
          (record { past = IsLeaving-IsPastConnect n.pc k; shut = z })).shut in
      (Step-IsSound sign encode st w, shut, leaves, omega (arith, fewer, nearer))

  -- A client that is flagged closed, and whose control connection is gone, returns from `Start`:
  -- however many steps its goroutines and calls of `Close` take, `Start` does nothing else, what it
  -- has left to do never grows, and as long as it has not returned, with the state closed, there is a
  -- step, its own or the end of a request that is being proxied, that leaves less to do.
  pub Steps-Returns :
      {m n : Machine}
      → Steps sign encode m n
      → IsSound m
      → IsLeaving m.pc
      → m.client.closed ≡ true
      → IsLeaving n.pc × (left_to_do n ≤ left_to_do m) × Returns n
  Steps-Returns {n = n} r v l y =
      let (w, z, k, fewer) = IsLeaving-kept r v l y in
      (k, fewer, IsLeaving-Returns n.pc n refl w k z)
