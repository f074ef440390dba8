-- ===== src/Tunnel/Server/Threads/System.antt =====
-- A server and its goroutines, which take their steps in any order: only a goroutine that needs
-- `sessionsMu` waits for the one that holds it.
use mylittleproxy.Base.{
  ℕ, suc, zero, Bytes, Bool, true, false, ◌&&◌, Option, List, [], ◌∷◌, ◌++◌, ◌≡◌, any,
}
use mylittleproxy.Proto.{ConnectionConfig, client_identifier_header}
use mylittleproxy.Tunnel.Regexp.{Regexp}
use mylittleproxy.Tunnel.Errors.{Error}
use mylittleproxy.Tunnel.Server.{Server}
use mylittleproxy.Tunnel.Server.Handshake.{Sign, HandshakeIo, identifier_at}
use mylittleproxy.Tunnel.Server.Connect.{Request, header_get}
use mylittleproxy.Tunnel.Server.Threads.{
  Routine, adds, checks, looks, upgrades, adds_session, greets, registers, closes, unregisters,
  releases, frees, reports, announces, starts, hails, waits, replied, ended, listens, spawned,
  advance, arrive,
}

module _ {R : Type 0} where
  -- `deleteSession` between `GetVirtualHost` and `DeleteHost`.
  unfoldable pub holds_sessions : Routine R → Bool
  holds_sessions (frees host hung id e role) = true
  holds_sessions pc = false

  unfoldable pub needs_sessions : Routine R → Bool
  needs_sessions (adds_session h id conn session) = true
  needs_sessions (releases hung id e role) = true
  needs_sessions pc = false

  -- The request is answered, the listener has ended, or it waits for a message of the client.
  unfoldable pub is_at_rest : Routine R → Bool
  is_at_rest (waits ct) = true
  is_at_rest (replied reply) = true
  is_at_rest ended = true
  is_at_rest pc = false

  unfoldable pub is_blocked : Routine R → List (Routine R) → Bool
  unfolding holds_sessions needs_sessions
  is_blocked pc others = needs_sessions pc && any holds_sessions others

  -- Whose request or control connection the goroutine is for.
  unfoldable pub client_of : Routine R → Server R → Bytes
  client_of (adds h domain rules id signature) s = id
  client_of (checks h id signature) s = id
  client_of (looks h id) s = id
  client_of (upgrades h id) s = id
  client_of (adds_session h id conn session) s = id
  client_of (greets h id conn) s = id
  client_of (registers id stream) s = id
  client_of (closes ct id e role) s = id
  client_of (unregisters id e role) s = id
  client_of (releases hung id e role) s = id
  client_of (frees host hung id e role) s = id
  client_of (reports hung id e role) s = id
  client_of (announces id e role) s = id
  client_of (starts ct) s = identifier_at ct s
  client_of (hails ct id) s = id
  client_of (waits ct) s = identifier_at ct s
  client_of (replied reply) s = []
  client_of ended s = []

pub record System (R : Type 0) : Type 0 where
  pub server : Server R
  pub threads : List (Routine R)

module _ {R : Type 0} (sign : Sign) where
  -- The system after one goroutine's step; the goroutine that it starts comes last.
  abbrev pub after_turn : (before after : List (Routine R)) → Routine R → Server R → System R
  after_turn before after pc s =
      let x = advance sign pc s in
      record { server = x.1; threads = before ++ x.0 ∷ (after ++ spawned pc s) }

  -- One goroutine's step, for the client `id`.
  pub data Move (id : Bytes) (p : System R) : System R → Type 0 where
    turn :
        (before after : List (Routine R)) (pc : Routine R)
        → p.threads ≡ before ++ pc ∷ after
        → is_at_rest pc ≡ false
        → is_blocked pc (before ++ after) ≡ false
        → client_of pc p.server ≡ id
        → Move id p (after_turn before after pc p.server)

  -- `n` steps, of any goroutines.
  pub data Moves (p : System R) : ℕ → System R → Type 0 where
    here : Moves p zero p
    next : {n : ℕ} {q r : System R} (id : Bytes) → Moves p n q → Move id q r → Moves p (suc n) r

module _ (re : Regexp) (sign : Sign) (decode : Bytes → Option ConnectionConfig) where
  open re use {Regex}

  -- What can happen for the client `id`: a step, a new request, or the end of the stream that a
  -- listener waits on.
  pub data Step (id : Bytes) (p : System Regex) : System Regex → Type 0 where
    turns : {q : System Regex} → Move sign id p q → Step id p q
    arrives :
        (h : HandshakeIo) (r : Request)
        → header_get client_identifier_header r ≡ id
        → Step id p
            (record p { threads = p.threads ++ arrive re sign decode p.server.settings h r ∷ [] })
    breaks :
        (before after : List (Routine Regex)) (ct : ℕ) (e : Error)
        → p.threads ≡ before ++ waits ct ∷ after
        → identifier_at ct p.server ≡ id
        → Step id p (record p {
          threads = before ++ closes ct (identifier_at ct p.server) e listens ∷ after;
        })
