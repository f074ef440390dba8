-- ===== src/ServerMain/Environment.antt =====
-- server/envconfig.go: the environment overlays the configuration file, and what the server cannot
-- start without is checked.
use mylittleproxy.Base.{
  Bytes, bytes, Bool, true, false, ◌||◌, Option, none, some, List, [], ◌∷◌, ◌==◌, Result, ok, err,
  ◌>>=◌, is_empty, if◌then◌else◌,
}
use mylittleproxy.AppConfig.{ServerConfig}
use mylittleproxy.Std.Text.{split, trim_space, has_prefix}

-- `os.LookupEnv`.
abbrev pub Env : Type 0
Env = Bytes → Option Bytes

pub data ConfigError : Type 0 where
  not_boolean : (name value : Bytes) → ConfigError
  not_json_list : (name : Bytes) → ConfigError
  unreadable : ConfigError
  missing : (listen signature_key allowed_hosts : Bool) → ConfigError

abbrev pub env_debug : Bytes
env_debug = bytes "MYLITTLEPROXY_DEBUG"

abbrev pub env_listen : Bytes
env_listen = bytes "MYLITTLEPROXY_LISTEN"

abbrev pub env_listen_control : Bytes
env_listen_control = bytes "MYLITTLEPROXY_LISTEN_CONTROL"

abbrev pub env_signature_key : Bytes
env_signature_key = bytes "MYLITTLEPROXY_SIGNATURE_KEY"

abbrev pub env_allowed_hosts : Bytes
env_allowed_hosts = bytes "MYLITTLEPROXY_ALLOWED_HOSTS"

abbrev pub env_allowed_clients : Bytes
env_allowed_clients = bytes "MYLITTLEPROXY_ALLOWED_CLIENTS"

abbrev pub env_control_path : Bytes
env_control_path = bytes "MYLITTLEPROXY_CONTROL_PATH"

abbrev pub env_control_method : Bytes
env_control_method = bytes "MYLITTLEPROXY_CONTROL_METHOD"

-- A variable over the value of the file.
abbrev pub overlay : Option Bytes → Bytes → Bytes
overlay none target = target
overlay (some value) target = value

unfoldable pub apply_env_string : Env → (name target : Bytes) → Bytes
apply_env_string env name target = overlay (env name) target

-- `strconv.ParseBool`.
unfoldable pub parse_bool : Bytes → Option Bool
parse_bool s =
    if s == bytes "1"
      || s == bytes "t"
      || s == bytes "T"
      || s == bytes "true"
      || s == bytes "TRUE"
      || s == bytes "True"
    then some true
    else if s == bytes "0"
        || s == bytes "f"
        || s == bytes "F"
        || s == bytes "false"
        || s == bytes "FALSE"
        || s == bytes "False"
    then some false
    else none

unfoldable pub apply_env_bool : Env → (name : Bytes) → Bool → Result ConfigError Bool
unfolding parse_bool
apply_env_bool env name target = elim (env name) [
  | none ↦ ok target
  | some value ↦ elim (parse_bool value) [
    | none ↦ err (not_boolean name value)
    | some parsed ↦ ok parsed
  ]
]

-- The loop over `strings.Split(value, ",")`.
unfoldable pub trimmed_parts : List Bytes → List Bytes
trimmed_parts [] = []
trimmed_parts (part ∷ parts) =
    let rest = trimmed_parts parts in
    if is_empty (trim_space part) then rest else trim_space part ∷ rest

abbrev no_hosts : List Bytes → Bool
no_hosts [] = true
no_hosts (_ ∷ _) = false

unfoldable pub check_required_settings : ServerConfig → Result ConfigError ServerConfig
check_required_settings config =
    if is_empty config.listen || is_empty config.signature_key || no_hosts config.allowed_hosts
    then err (
        missing (is_empty config.listen) (is_empty config.signature_key)
          (no_hosts config.allowed_hosts))
    else ok config

-- What `GetConfig` gives: the file's settings, no such file, or another error.
pub data FileResult : Type 0 where
  found : ServerConfig → FileResult
  absent : FileResult
  broken : FileResult

-- The settings of an absent file: Go's zero values.
abbrev pub zero_config : ServerConfig
zero_config = record {
  debug = false;
  signature_key = [];
  listen = [];
  listen_control = [];
  allowed_hosts = [];
  allowed_clients = [];
  control_path = [];
  control_method = [];
}

abbrev pub base_config : FileResult → Result ConfigError ServerConfig
base_config (found config) = ok config
base_config absent = ok zero_config
base_config broken = err unreadable

-- `unmarshal` is `json.Unmarshal` into a list of strings.
module _ (unmarshal : Bytes → Option (List Bytes)) where
  abbrev read_list : Bytes → Bytes → Result ConfigError (List Bytes)
  read_list name value =
      if has_prefix value (bytes "[")
      then elim (unmarshal value) [ none ↦ err (not_json_list name) | some parsed ↦ ok parsed ]
      else ok (trimmed_parts (split b',' value))

  unfoldable pub apply_env_list :
      Env → (name : Bytes) → List Bytes → Result ConfigError (List Bytes)
  unfolding trimmed_parts
  apply_env_list env name target = elim (env name) [
    | none ↦ ok target
    | some value ↦ read_list name (trim_space value)
  ]

  unfoldable pub apply_env : Env → ServerConfig → Result ConfigError ServerConfig
  unfolding apply_env_string apply_env_bool apply_env_list
  apply_env env config = do
    debug ← apply_env_bool env env_debug config.debug
    allowed_hosts ← apply_env_list env env_allowed_hosts config.allowed_hosts
    allowed_clients ← apply_env_list env env_allowed_clients config.allowed_clients
    ok (record {
      debug = debug;
      signature_key = apply_env_string env env_signature_key config.signature_key;
      listen = apply_env_string env env_listen config.listen;
      listen_control = apply_env_string env env_listen_control config.listen_control;
      allowed_hosts = allowed_hosts;
      allowed_clients = allowed_clients;
      control_path = apply_env_string env env_control_path config.control_path;
      control_method = apply_env_string env env_control_method config.control_method;
    })

  unfoldable pub load_config : Env → FileResult → Result ConfigError ServerConfig
  unfolding apply_env check_required_settings
  load_config env file = do
    config ← base_config file
    overlaid ← apply_env env config
    check_required_settings overlaid
