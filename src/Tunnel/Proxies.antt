-- ===== src/Tunnel/Proxies.antt =====
-- tunnel/proxy.go: which proxy function serves a stream.
pub mod Http
pub mod Ws
pub mod Target
pub mod Settle
pub mod Join
mod Tests
use mylittleproxy.Base.{ℕ, nat_eq, Option, none, some, if◌then◌else◌}
use mylittleproxy.Proto
use mylittleproxy.Proto.{ControlMessage}

-- The functions of a collection; `F` is the type of proxy functions, `none` is nil.
pub record ProxyFuncs (F : Type 0) : Type 0 where
  pub http : Option F
  pub tcp : Option F
  pub ws : Option F

abbrev pub or_else : {A : Type 0} → Option A → Option A → Option A
or_else none default = default
or_else (some f) default = some f

module _ {F : Type 0} where
  -- The function that `Proxy` calls; with none it closes the stream.
  unfoldable pub proxy_func : (default p : ProxyFuncs F) → ControlMessage → Option F
  proxy_func default p msg =
      if nat_eq msg.protocol Proto.http
      then or_else p.http default.http
      else if nat_eq msg.protocol Proto.tcp
      then or_else p.tcp default.tcp
      else if nat_eq msg.protocol Proto.ws
      then or_else p.ws default.ws
      else none
