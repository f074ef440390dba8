-- ===== src/Tunnel/Server/Streams.antt =====
-- How several calls of `dial` in tunnel/server.go share one session: each sends a control message,
-- then accepts a stream in a goroutine of its own (`async` of tunnel/util.go), and the client opens a
-- stream for each message (`listenControl` of tunnel/client.go). The messages go through one
-- connection, and yamux hands the streams over in the order in which they were opened, to whichever
-- goroutine accepts. Dials are numbers, and a stream has the number of the dial that asked for it.
-- Dials that fail before their message is sent are not here: Dial has them.
pub mod Swap
mod Tests
use mylittleproxy.Base.{ℕ, ◌≡◌, Bool, true, false, List, [], ◌∷◌, ◌++◌, IsIn}

-- `listening` says whether the client reads messages. `asked` dials have sent their message and not called `Accept` yet; the goroutines of `accepting`
-- ones are in it, those of dials that timed out (`gone`) too; for `failed` ones `Accept` gave an error. `messages` are on their way to the
-- client, `opened` streams wait to be accepted, and `got` says which dial's goroutine accepted which
-- stream.
pub record Pairing : Type 0 where
  pub listening : Bool
  pub asks : List ℕ
  pub asked : List ℕ
  pub accepting : List ℕ
  pub gone : List ℕ
  pub failed : List ℕ
  pub messages : List ℕ
  pub opened : List ℕ
  pub got : List (ℕ × ℕ)

-- What happens beside new dials. A client whose `session.Open` fails leaves `listenControl`, so it reads
-- no further message.
pub data Reply (p : Pairing) : Pairing → Type 0 where
  accepts :
      (before after : List ℕ) (d : ℕ)
      → p.asked ≡ before ++ d ∷ after
      → Reply p (record p { asked = before ++ after; accepting = p.accepting ++ d ∷ [] })
  opens :
      (s : ℕ) (rest : List ℕ)
      → p.listening ≡ true
      → p.messages ≡ s ∷ rest
      → Reply p (record p { messages = rest; opened = p.opened ++ s ∷ [] })
  hands_over :
      (before after : List ℕ) (d s : ℕ) (rest : List ℕ)
      → p.accepting ≡ before ++ d ∷ after
      → p.opened ≡ s ∷ rest
      → Reply p
          (record p { accepting = before ++ after; opened = rest; got = p.got ++ (d, s) ∷ [] })
  open_fails :
      (s : ℕ) (rest : List ℕ)
      → p.listening ≡ true
      → p.messages ≡ s ∷ rest
      → Reply p (record p { listening = false; messages = rest })
  accept_fails :
      (before after : List ℕ) (d : ℕ)
      → p.accepting ≡ before ++ d ∷ after
      → Reply p (record p { accepting = before ++ after; failed = p.failed ++ d ∷ [] })
  times_out : (d : ℕ) → IsIn d p.accepting → Reply p (record p { gone = p.gone ++ d ∷ [] })

-- `control.send` of a dial.
abbrev pub send_for : ℕ → Pairing → Pairing
send_for d p = record p {
  asks = p.asks ++ d ∷ [];
  asked = p.asked ++ d ∷ [];
  messages = p.messages ++ d ∷ [];
}

pub data Turn (p : Pairing) : Pairing → Type 0 where
  asks : (d : ℕ) → Turn p (send_for d p)
  replies : {q : Pairing} → Reply p q → Turn p q

pub data Turns (p : Pairing) : Pairing → Type 0 where
  here : Turns p p
  next : {q r : Pairing} → Turns p q → Turn q r → Turns p r

-- No dial is on its way, and the client listens.
pub record IsQuiet (p : Pairing) : Type 0 where
  pub hears : p.listening ≡ true
  pub no_asked : p.asked ≡ []
  pub no_accepting : p.accepting ≡ []
  pub no_messages : p.messages ≡ []
  pub no_opened : p.opened ≡ []
