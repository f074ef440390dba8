-- ===== src/ServerMain.antt =====
-- The package server: the program around tunnel.Server. Here is how server/server.go turns its
-- configuration into a tunnel server, and what `NewServer` keeps of it.
pub mod Listeners
pub mod Environment
pub mod ClientConfig
pub mod Loading
pub mod Allowed
pub mod Agreement
pub mod Program
pub mod Split
pub mod Startup
pub mod Generated
mod Tests
mod ProgramTests
use mylittleproxy.Base.{Bytes, Option, none, some, List, [], ◌∷◌, is_empty, if◌then◌else◌}
use mylittleproxy.Proto.{default_control_path, default_control_method}
use mylittleproxy.AppConfig.{ServerConfig}
use mylittleproxy.Tunnel.Regexp.{Regexp}
use mylittleproxy.Tunnel.Server.{Settings}

abbrev pub or_default : Bytes → Bytes → Bytes
or_default default value = if is_empty value then default else value

module _ (re : Regexp) where
  open re use {Regex, compile}

  -- `none` where a pattern does not compile; an unanchored pattern is only warned about.
  unfoldable pub compile_all : List Bytes → Option (List Regex)
  compile_all [] = some []
  compile_all (h ∷ hs) = elim (compile h) [
    | none ↦ none
    | some r ↦ elim (compile_all hs) [ none ↦ none | some rs ↦ some (r ∷ rs) ]
  ]

  abbrev settings_of : ServerConfig → Option (List Regex) → Option (Settings Regex)
  settings_of config none = none
  settings_of config (some hosts) = some (record {
    signature_key = config.signature_key;
    allowed_hosts = hosts;
    allowed_clients = config.allowed_clients;
    control_path = or_default default_control_path config.control_path;
    control_method = or_default default_control_method config.control_method;
  })

  -- The settings of the server that `main` starts, or none where `NewServer` refuses.
  unfoldable pub new_server : ServerConfig → Option (Settings Regex)
  unfolding compile_all
  new_server config = settings_of config (compile_all config.allowed_hosts)
