-- ===== src/Tunnel/ClientState.antt =====
-- The client states of tunnel/client.go, and the events that report their changes.
pub mod Names
use mylittleproxy.Base.{
  ℕ, Bytes, Option, none, some, List, ◌++◌, [], ◌∷◌, length, ltb, if◌then◌else◌,
}
use mylittleproxy.Tunnel.Errors.{Error}

pub data ClientState : Type 0 where
  client_unknown client_started client_connecting client_connected : ClientState
  client_disconnected client_closed : ClientState

pub record ClientStateChange : Type 0 where
  pub identifier : Bytes
  pub previous : ClientState
  pub current : ClientState
  pub error : Option Error

-- A buffered channel that is never received from while the model looks: what it holds, and how many
-- more changes it takes.
pub record Channel : Type 0 where
  pub capacity : ℕ
  pub queue : List ClientStateChange

-- `select { case ch <- change: default: }`: a full channel drops the change.
unfoldable pub offer : ClientStateChange → Channel → Channel
offer change ch =
    if ltb (length ch.queue) ch.capacity then record ch { queue = ch.queue ++ change ∷ [] } else ch

-- `if ch != nil { … }` around it.
unfoldable pub notify : ClientStateChange → Option Channel → Option Channel
unfolding offer
notify change none = none
notify change (some ch) = some (offer change ch)
