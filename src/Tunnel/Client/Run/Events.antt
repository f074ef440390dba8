-- ===== src/Tunnel/Client/Run/Events.antt =====
-- The state changes that a client reports, in order, against the states that it goes through.
use mylittleproxy.Base.{
  ◌<◌, Bytes, ◌≡◌, refl, sym, ◌∙◌, subst, inl, inr, Option, none, some, List, [], ◌∷◌, ◌++◌, arith,
  ok, Bool-cases, length, ltb,
}
use mylittleproxy.Proto.{ConnectionConfig}
use mylittleproxy.Tunnel.Errors.{Error}
use mylittleproxy.Tunnel.ClientState.{
  ClientState, client_unknown, ClientStateChange, Channel, notify, offer,
}
use mylittleproxy.Tunnel.Server.Handshake.{Sign}
use mylittleproxy.Tunnel.Client.{Client, ClientSettings, new_client}
use mylittleproxy.Tunnel.Client.Run.{Machine, Reach, new, starts, steps}
use mylittleproxy.Tunnel.Client.Run.Reachable.{Reach-IsSound}
use mylittleproxy.Tunnel.Client.Run.Moves.{IsMove, Moves, stays, moves, start-Moves, Step-Moves}

-- A list of changes leads from one state to another by moves of the diagram, each change from where
-- the one before it led, and all of one client.
abbrev pub Leads : Bytes → ClientState → List ClientStateChange → ClientState → Type 0
Leads id s [] t = s ≡ t
Leads id s (c ∷ cs) t =
    (c.identifier ≡ id) × (c.previous ≡ s) × IsMove s c.current × Leads id c.current cs t

Leads-append :
    (id : Bytes) (s t u : ClientState) (cs : List ClientStateChange) (e : Option Error)
    → Leads id s cs t
    → IsMove t u
    → Leads id s (cs ++ record { identifier = id; previous = t; current = u; error = e } ∷ []) u
Leads-append id s t u [] e l m = (refl, sym l, rw l m, refl)
Leads-append id s t u (c ∷ cs) e (i, p, n, l) m = (i, p, n, Leads-append id c.current t u cs e l m)

-- The channel of changes tells the state, as long as it has room.
abbrev pub Tells : Client → Type 0
Tells c =
    (ch : Channel)
    → c.state_ch ≡ some ch
    → length ch.queue < ch.capacity
    → Leads c.config.identifier client_unknown ch.queue c.state

offer-Leads :
    (id : Bytes) (t u : ClientState) (e : Option Error) (ch : Channel)
    → (length ch.queue < ch.capacity → Leads id client_unknown ch.queue t)
    → IsMove t u
    → let sent = offer (record { identifier = id; previous = t; current = u; error = e }) ch in
      length sent.queue < sent.capacity → Leads id client_unknown sent.queue u
unfolding offer
offer-Leads id t u e ch tells m = elim (Bool-cases (ltb (length ch.queue) ch.capacity)) [
  | inl y ↦
      rw (y, offer) (λ room. Leads-append id client_unknown t u ch.queue e (tells (ground arith)) m)
  | inr n ↦ rw (n, offer) (λ room. absurd (ground arith))
]

notify-Leads :
    (id : Bytes) (t u : ClientState) (e : Option Error) (o : Option Channel) (ch : Channel)
    → ((c : Channel) → o ≡ some c → length c.queue < c.capacity → Leads id client_unknown c.queue t)
    → IsMove t u
    → notify (record { identifier = id; previous = t; current = u; error = e }) o ≡ some ch
    → length ch.queue < ch.capacity
    → Leads id client_unknown ch.queue u
unfolding notify
notify-Leads id t u e none ch tells m n = absurd (cc)
notify-Leads id t u e (some c) ch tells m n =
    let same : offer (record { identifier = id; previous = t; current = u; error = e }) c ≡ ch =
      cc in
    subst (λ x. length x.queue < x.capacity → Leads id client_unknown x.queue u) same
      (offer-Leads id t u e c (tells c refl) m)

Moves-Tells : (c d : Client) → Moves c d → Tells c → Tells d
Moves-Tells c d (stays f s h) tells ch e room = rw (f, s) (tells ch (sym h ∙ e) room)
Moves-Tells c d (moves t x f s m h) tells ch e room =
    rw (f, s) (notify-Leads c.config.identifier c.state t x c.state_ch ch tells m (sym h ∙ e) room)

new_client-Tells :
    (config : ClientSettings) (c : Client)
    → ((ch : Channel) → config.state_changes ≡ some ch → ch.queue ≡ [])
    → new_client config ≡ ok c
    → Tells c
unfolding new_client
new_client-Tells config c fresh made ch e room =
    let same : c.state_ch ≡ config.state_changes = ground arith in
    let unknown : c.state ≡ client_unknown = ground arith in
    rw (fresh ch (sym same ∙ e)) (sym unknown)

module _ (sign : Sign) (encode : ConnectionConfig → Bytes) where
  Reach-keeps :
      (config : ClientSettings) (c : Client) {m : Machine}
      → new_client config ≡ ok c
      → Tells c
      → Reach sign encode c m
      → Tells m.client
  Reach-keeps config c made t new = t
  Reach-keeps config c made t (starts {m} r s) =
      let v = Reach-IsSound sign encode config c made r in
      Moves-Tells m.client _ (start-Moves m s v.fits) (Reach-keeps config c made t r)
  Reach-keeps config c made t (steps {m} r st) =
      let v = Reach-IsSound sign encode config c made r in
      Moves-Tells m.client _ (Step-Moves sign encode st v.fits) (Reach-keeps config c made t r)

  -- The changes that a new client, whose channel is empty at first, has put into the channel, while
  -- the channel has room, are all the changes of its state: they lead from the first state to the
  -- present one, each from where the one before it led, by moves of the state diagram, and carry
  -- the configured identifier.
  pub Reach-Leads :
      (config : ClientSettings) (c : Client) (ch : Channel) {m : Machine}
      → ((ch : Channel) → config.state_changes ≡ some ch → ch.queue ≡ [])
      → new_client config ≡ ok c
      → Reach sign encode c m
      → m.client.state_ch ≡ some ch
      → length ch.queue < ch.capacity
      → Leads m.client.config.identifier client_unknown ch.queue m.client.state
  Reach-Leads config c ch fresh made r e room =
      Reach-keeps config c made (new_client-Tells config c fresh made) r ch e room
