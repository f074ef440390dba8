-- ===== src/ClientMain.antt =====
-- client/client.go: what the client program makes of its configuration before it connects.
pub mod Program
use mylittleproxy.Base.{
  Bytes, Bool, true, false, ◌||◌, Option, none, some, List, [], ◌∷◌, map, Map, is_empty,
  if◌then◌else◌,
}
use mylittleproxy.Proto
use mylittleproxy.Proto.{default_control_path, default_control_method, ConnectionConfig}
use mylittleproxy.AppConfig
use mylittleproxy.AppConfig.{ClientConfig}

-- What `getTunnelConfig` fills in of tunnel.ClientConfig.
pub record TunnelConfig : Type 0 where
  pub identifier : Bytes
  pub custom_headers : Map Bytes
  pub server_addr : Bytes
  pub connection_config : ConnectionConfig
  pub signature_key : Bytes
  pub control_path : Bytes
  pub control_method : Bytes

abbrev wire_rule : AppConfig.HttpRewriteRule → Proto.HttpRewriteRule
wire_rule r = record { from = r.from; to = r.to }

abbrev or_default : Bytes → Bytes → Bytes
or_default default value = if is_empty value then default else value

unfoldable pub get_tunnel_config :
    (identifier : Bytes)
    → ClientConfig
    → List Proto.HttpRewriteRule
    → (signature_key : Bytes) → TunnelConfig
get_tunnel_config identifier config rewrites signature_key = record {
  identifier = identifier;
  custom_headers = config.proxy.http.custom_headers;
  server_addr = config.server_address;
  connection_config = record {
    http = record {
      domain = config.proxy.http.domain;
      target = config.proxy.http.target;
      rewrite = rewrites;
    };
  };
  signature_key = signature_key;
  control_path = or_default default_control_path config.control_path;
  control_method = or_default default_control_method config.control_method;
}

-- `hostname` is what `os.Hostname` gives; `none` is an exit of the program.
unfoldable pub get_identifier : ClientConfig → Option Bytes → Option Bytes
get_identifier config hostname =
    if is_empty config.identifier then hostname else some config.identifier

-- `env` is `os.Getenv("MYLITTLEPROXY_SIGNATURE_KEY")`, empty where it is not set.
unfoldable pub get_signature_key : ClientConfig → Bytes → Option Bytes
get_signature_key config env =
    let key = or_default env config.signature_key in if is_empty key then none else some key

abbrev no_rules : List AppConfig.HttpRewriteRule → Bool
no_rules [] = true
no_rules (_ ∷ _) = false

abbrev start_with : ClientConfig → Option Bytes → Option Bytes → Option TunnelConfig
start_with config none key = none
start_with config (some identifier) none = none
start_with config (some identifier) (some key) =
    if is_empty config.proxy.http.domain
      || is_empty config.proxy.http.target
      || no_rules config.proxy.http.rewrite
    then none
    else some (get_tunnel_config identifier config (map wire_rule config.proxy.http.rewrite) key)

-- `main` up to `NewClient`: the configuration of the tunnel, or an exit.
unfoldable pub start :
    ClientConfig → (hostname : Option Bytes) → (env : Bytes) → Option TunnelConfig
start config hostname env =
    start_with config (get_identifier config hostname) (get_signature_key config env)
