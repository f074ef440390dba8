-- ===== src/Tunnel/Client/Run/Closing.antt =====
-- What `Close` brings about: it ends a connected client for good, and it can be forgotten.
use mylittleproxy.Base.{
  ℕ, Bytes, ◌≡◌, refl, sym, ap, ◌∙◌, subst, inl, inr, Bool, true, false, Option, none, some, List,
  [], ◌∷◌, Result, ok, err, Result-cases, Option-cases,
}
use mylittleproxy.Proto.{ConnectionConfig, ControlMessage}
use mylittleproxy.Tunnel.Errors.{Error}
use mylittleproxy.Tunnel.Server.Handshake.{Sign}
use mylittleproxy.Tunnel.Client.{Client, set_closed, change_state, start_notify_if_needed}
use mylittleproxy.Tunnel.Client.Connect.{
  Pc, looping, fetching, connecting, opening, listening, draining, ended, returned, GreetIo, Opened,
  opened, open_failed, open_timed_out, Handler, greet, greet_server, begin_listening, on_opened,
  connect_stream, receive, finish_request, disconnect,
}
use mylittleproxy.Tunnel.Client.Run.{
  Machine, FetchIo, fetch_all, fetched, fetch_settings, close, close_with, unless_closed, at,
  at_handlers, Step, heads, backs_off, wakes, fetches, connects, greets, receives, breaks, drains,
  ends, finishes, closes, closes_session, closed, notifies, Steps, here, next,
}
use mylittleproxy.Tunnel.Client.Run.Sound.{
  IsSound, unless_closed_closed, count_requests, finish_request-IsSound,
}

-- Where `Start` stands once it has a session, until it returns.
abbrev pub IsPastConnect : Pc → Type 0
IsPastConnect opening = Unit
IsPastConnect listening = Unit
IsPastConnect (draining _) = Unit
IsPastConnect (ended _) = Unit
IsPastConnect returned = Unit
IsPastConnect _ = ⊥

pub record IsClosing (m : Machine) : Type 0 where
  pub past : IsPastConnect m.pc
  pub shut : m.client.closed ≡ true

abbrev GoesOn : Pc × Client → Type 0
GoesOn (pc, c) = IsPastConnect pc × (c.closed ≡ true)

on_opened-GoesOn :
    (o : Opened) (io : GreetIo) (c : Client) → c.closed ≡ true → GoesOn (on_opened o io c)
unfolding on_opened greet begin_listening change_state start_notify_if_needed
on_opened-GoesOn (opened stream) io c y = elim (Result-cases (greet_server io)) [
  | inl (x, e) ↦ rw (e, greet) (tt, y)
  | inr (x, e) ↦ rw (e, greet) (tt, y)
]
on_opened-GoesOn (open_failed e) io c y = (tt, y)
on_opened-GoesOn (open_timed_out late) io c y = (tt, y)

unless_closed-GoesOn :
    (last : Option Error) (pc : Pc) (c : Client)
    → c.closed ≡ true
    → GoesOn (unless_closed last pc c)
unfolding change_state
unless_closed-GoesOn last pc c y = subst GoesOn (sym (unless_closed_closed last pc c y)) (tt, y)

receive-IsClosing :
    (m : Machine) (msg : ControlMessage) (stream : Result Error ℕ)
    → m.client.closed ≡ true
    → IsClosing (at_handlers m (receive msg stream m.client))
unfolding receive
receive-IsClosing m msg (ok remote) y = record { past = tt; shut = y }
receive-IsClosing m msg (err e) y = record { past = tt; shut = y }

close-IsClosing : (m : Machine) → IsClosing m → IsClosing (close m)
unfolding close set_closed
close-IsClosing m v = elim (Option-cases m.client.session) [
  | inl n ↦
      subst IsClosing (ap (λ x. close_with x m) (sym n)) (record { past = v.past; shut = refl })
  | inr (s, l) ↦
      subst IsClosing (ap (λ x. close_with x m) (sym l)) (record { past = v.past; shut = v.shut })
]

module _ (sign : Sign) (encode : ConnectionConfig → Bytes) where
  Step-IsClosing : {m n : Machine} → Step sign encode m n → IsClosing m → IsClosing n
  unfolding connect_stream set_closed finish_request disconnect change_state
  Step-IsClosing (heads last e) v = absurd (subst IsPastConnect e v.past)
  Step-IsClosing (backs_off last pause e) v = absurd (subst IsPastConnect e v.past)
  Step-IsClosing (wakes last e) v = absurd (subst IsPastConnect e v.past)
  Step-IsClosing (fetches last io e) v = absurd (subst IsPastConnect e v.past)
  Step-IsClosing (connects i a k io e) v = absurd (subst IsPastConnect e v.past)
  Step-IsClosing {m} (greets io e) v =
      let (p, y) = on_opened-GoesOn io.session_open io m.client v.shut in
      record { past = p; shut = y }
  Step-IsClosing {m} (receives msg stream e) v = receive-IsClosing m msg stream v.shut
  Step-IsClosing (breaks x e) v = record { past = tt; shut = v.shut }
  Step-IsClosing (drains x e none_left) v = record { past = tt; shut = v.shut }
  Step-IsClosing {m} (ends x e) v =
      let (p, y) = unless_closed-GoesOn (some x) (looping (some x)) m.client v.shut in
      record { past = p; shut = y }
  Step-IsClosing (finishes before after h e) v = record { past = v.past; shut = v.shut }
  Step-IsClosing {m} closes v = close-IsClosing m v
  Step-IsClosing (closes_session n e) v = record { past = v.past; shut = v.shut }
  Step-IsClosing (closed n e) v = record { past = v.past; shut = refl }
  Step-IsClosing notifies v = record { past = v.past; shut = v.shut }

  -- Once a client is flagged closed while `Start` stands anywhere from having its new session to its
  -- return, no step of any goroutine unflags it or makes `Start` loop: it never waits, fetches or
  -- connects again before it returns.
  pub Steps-IsClosing : {m n : Machine} → Steps sign encode m n → IsClosing m → IsClosing n
  Steps-IsClosing here v = v
  Steps-IsClosing (next r st) v = Step-IsClosing st (Steps-IsClosing r v)

  pub finish_all :
      (flag : Bool) (hs : List Handler) {m : Machine} (o : Machine) (e : Error)
      → Steps sign encode m o
      → o.handlers ≡ hs
      → IsSound o
      → o.pc ≡ draining e
      → o.client.closed ≡ flag
      → (n : Machine) × Steps sign encode m n
        × (n.pc ≡ draining e)
        × (n.client.closed ≡ flag)
        × (n.client.requests ≡ 0)
  unfolding finish_request
  finish_all flag [] o e r l v p y = (o, r, p, y, v.counted ∙ ap count_requests l)
  finish_all flag (h ∷ hs) o e r l v p y =
      finish_all flag hs _ e (next r (finishes [] hs h l)) refl
        (finish_request-IsSound o [] hs h v l) p y

  -- `Close` on a client that has no session yet, while `Start` fetches its settings, flags it
  -- closed; and then `Start` unflags it and goes on to connect.
  pub close_forgotten :
      (m : Machine) (last : Option Error) (io : FetchIo) (identifier server_addr key : Bytes)
      → m.pc ≡ fetching last
      → m.client.session ≡ none
      → fetch_all io m.client.config ≡ ok (identifier, server_addr, key)
      → ((close m).client.closed ≡ true)
        × ((n : Machine) × Steps sign encode (close m) n
            × (n.pc ≡ connecting identifier server_addr key)
            × (n.client.closed ≡ false))
  unfolding close set_closed fetch_settings
  close_forgotten m last io identifier server_addr key p l f =
      let shut = record m { client = set_closed true m.client } in
      let e : close m ≡ shut = ap (λ x. close_with x m) l in
      let (pc, open_again) =
        subst
          (λ r.
            ((fetched r shut.client).0 ≡ connecting identifier server_addr key)
            × ((fetched r shut.client).1.closed ≡ false))
          (sym f) (refl, refl) in
      (
        ap (λ x. x.client.closed) e,
        (
          at shut (fetch_settings io shut.client),
          subst (λ x. Steps sign encode x (at shut (fetch_settings io shut.client))) (sym e)
              (next here (fetches last io p)),
          pc,
          open_again,
        ),
      )
