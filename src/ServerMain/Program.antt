-- ===== src/ServerMain/Program.antt =====
-- `main` of server/server.go with `serve` of server/listeners.go and `generateClientConfig` of
-- server/clientconfig.go: from the settings to the HTTP servers that listen, or an end before that.
use mylittleproxy.Base.{
  ℕ, ◌*◌, ◌^◌, Bytes, Bool, true, false, not, Option, none, some, List, [], ◌∷◌, ◌++◌, Result, ok,
  err, is_empty, if◌then◌else◌,
}
use mylittleproxy.AppConfig.{ClientConfig, ServerConfig}
use mylittleproxy.Tunnel.Regexp.{Regexp}
use mylittleproxy.Tunnel.ConfigFile.{
  FileIo, ReadError, no_such_file, cannot_open, cannot_read, not_json, get_config,
}
use mylittleproxy.Tunnel.Server.{Settings}
use mylittleproxy.ServerMain.{new_server}
use mylittleproxy.ServerMain.Environment.{
  Env, ConfigError, FileResult, found, absent, broken, load_config,
}
use mylittleproxy.ServerMain.ClientConfig.{ClientConfigOptions, Refusal, build_client_config}
use mylittleproxy.ServerMain.Listeners.{check_listen_addresses}

-- Which handler of the tunnel server a listener serves.
pub data Handler : Type 0 where
  whole_server : Handler
  public_only : Handler
  control_only : Handler

-- Durations are in nanoseconds; the timeouts that are not named are off.
pub record HttpServer : Type 0 where
  pub addr : Bytes
  pub handler : Handler
  pub read_header_timeout : ℕ
  pub idle_timeout : ℕ

abbrev pub second : ℕ
second = 10 ^ 9

abbrev pub read_header_timeout : ℕ
read_header_timeout = 10 * second

abbrev pub idle_timeout : ℕ
idle_timeout = 2 * 60 * second

unfoldable pub new_http_server : Bytes → Handler → HttpServer
new_http_server addr handler = record {
  addr = addr;
  handler = handler;
  read_header_timeout = read_header_timeout;
  idle_timeout = idle_timeout;
}

-- The servers that `serve` starts; it returns when one of them ends.
unfoldable pub serve : (listen control : Bytes) → List HttpServer
unfolding new_http_server
serve listen control =
    if is_empty control
    then new_http_server listen whole_server ∷ []
    else new_http_server control control_only ∷ new_http_server listen public_only ∷ []

-- How `loadConfig` tells the errors of `GetConfig` apart.
abbrev pub file_result : Result ReadError ServerConfig → FileResult
file_result (ok config) = found config
file_result (err no_such_file) = absent
file_result (err cannot_open) = broken
file_result (err cannot_read) = broken
file_result (err not_json) = broken

pub data GenerateError : Type 0 where
  not_built : Refusal → GenerateError
  not_encoded : GenerateError
  not_written : GenerateError

abbrev written : Bool → Bytes → Result GenerateError Bytes
written true encoded = ok encoded
written false encoded = err not_written

-- `json.MarshalIndent`, and the line break behind it.
abbrev pub marshal_client_config :
    (marshal : ClientConfig → Option Bytes) → ClientConfig → Option Bytes
marshal_client_config marshal client = elim (marshal client) [
  | none ↦ none
  | some out ↦ some (out ++ b'\n' ∷ [])
]

-- The flags of the program, less the path of the file.
pub record Flags : Type 0 where
  pub generate : Bool
  pub gen_opts : ClientConfigOptions

-- What the program meets: its environment, its file, and whether its output can be written.
pub record MainIo : Type 0 where
  pub env : Env
  pub file : FileIo
  pub writes : Bool

-- How `main` goes: an exit with an error, a printed configuration, or the servers that it waits for.
pub data Outcome (R : Type 0) : Type 0 where
  not_configured : ConfigError → Outcome R
  not_generated : GenerateError → Outcome R
  printed : Bytes → Outcome R
  not_initialized : Outcome R
  invalid_listen : Outcome R
  serving : Settings R → List HttpServer → Outcome R

module _ (re : Regexp) where
  open re use {Regex}

  -- What is written to `out`, or the error.
  unfoldable pub generate_client_config :
      (marshal : ClientConfig → Option Bytes)
      → (writes : Bool) → ServerConfig
      → ClientConfigOptions
      → Result GenerateError Bytes
  generate_client_config marshal writes server opts = elim (build_client_config re server opts) [
    | err e ↦ err (not_built e)
    | ok client ↦ elim (marshal_client_config marshal client) [
      | none ↦ err not_encoded
      | some encoded ↦ written writes encoded
    ]
  ]

  abbrev generated_outcome : Result GenerateError Bytes → Outcome Regex
  generated_outcome (err e) = not_generated e
  generated_outcome (ok text) = printed text

  -- From `NewServer` on.
  unfoldable pub run_server : ServerConfig → Outcome Regex
  unfolding serve
  run_server config = elim (new_server re config) [
    | none ↦ not_initialized
    | some settings ↦
        if not (check_listen_addresses config.listen config.listen_control)
        then invalid_listen
        else serving settings (serve config.listen config.listen_control)
  ]

  module _ (unmarshal : Bytes → Option ServerConfig) (unmarshal_list : Bytes → Option (List Bytes))
      (marshal : ClientConfig → Option Bytes) where
    abbrev after_loading : Flags → MainIo → Result ConfigError ServerConfig → Outcome Regex
    after_loading flags io (err e) = not_configured e
    after_loading flags io (ok config) =
        if flags.generate
        then generated_outcome (generate_client_config marshal io.writes config flags.gen_opts)
        else run_server config

    unfoldable pub main : Flags → MainIo → Outcome Regex
    unfolding run_server generate_client_config
    main flags io =
        after_loading flags io
          (load_config unmarshal_list io.env (file_result (get_config unmarshal io.file)))
