-- ===== src/ServerMain/Tests.antt =====
-- The settings of the programs on small inputs.
use mylittleproxy.Base.{
  if◌then◌else◌, Bytes, bytes, ◌≡◌, refl, false, Option, none, some, List, [], ◌∷◌, ◌++◌, ok, ◌==◌,
}
use mylittleproxy.Proto.{ConnectionConfig}
use mylittleproxy.AppConfig.{ClientConfig, ServerConfig}
use mylittleproxy.Tunnel.Regexp.{Regexp}
use mylittleproxy.Tunnel.Server.{Settings}
use mylittleproxy.Tunnel.Server.Handshake.{Sign}
use mylittleproxy.Std.Text.{split, trim_space, trim_left, trim_right, has_prefix}
use mylittleproxy.ServerMain.ClientConfig.{ClientConfigOptions, generated}
use mylittleproxy.ServerMain.Allowed.{sent_config}
use mylittleproxy.ServerMain.Environment.{
  Env, absent, load_config, apply_env, apply_env_string, apply_env_bool, apply_env_list,
  trimmed_parts, check_required_settings, env_listen, env_signature_key, env_allowed_hosts,
}

-- Patterns that match themselves only, and do not compile if empty.
abbrev compile_literal : Bytes → Option Bytes
compile_literal [] = none
compile_literal (c ∷ s) = some (c ∷ s)

abbrev pub literal : Regexp
literal = record {
  Regex = Bytes;
  compile = compile_literal;
  match_string = λ r s. r == s;
  replace_all_string = λ r s t. t;
}

abbrev pub sign : Sign
sign id secret = id ++ secret

abbrev pub server : ServerConfig
server = record {
  debug = false;
  signature_key = bytes "k";
  listen = bytes "s:80";
  listen_control = [];
  allowed_hosts = bytes "a.org" ∷ [];
  allowed_clients = bytes "alice" ∷ [];
  control_path = [];
  control_method = [];
}

abbrev pub opts : ClientConfigOptions
opts = record {
  identifier = bytes "alice";
  domain = bytes "a.org";
  target = [];
  address = bytes "s:80";
  omit_signature_key = false;
  debug = false;
}

abbrev client : ClientConfig
client = generated literal server opts (bytes "s:80")

abbrev pub settings : Settings Bytes
settings = record {
  signature_key = bytes "k";
  allowed_hosts = bytes "a.org" ∷ [];
  allowed_clients = bytes "alice" ∷ [];
  control_path = bytes "/_controlPath";
  control_method = bytes "POST";
}

abbrev pub encode : ConnectionConfig → Bytes
encode config = []

abbrev pub decode : Bytes → Option ConnectionConfig
decode body = some (sent_config opts)

abbrev unmarshal : Bytes → Option (List Bytes)
unmarshal s = none

abbrev env : Env
env name =
    if name == env_listen
    then some (bytes ":80")
    else if name == env_signature_key
    then some (bytes "k")
    else if name == env_allowed_hosts
    then some (bytes "a, b,")
    else none

abbrev loaded : ServerConfig
loaded = record {
  debug = false;
  signature_key = bytes "k";
  listen = bytes ":80";
  listen_control = [];
  allowed_hosts = bytes "a" ∷ bytes "b" ∷ [];
  allowed_clients = [];
  control_path = [];
  control_method = [];
}

env_loads : load_config unmarshal env absent ≡ ok loaded
unfolding load_config apply_env apply_env_string apply_env_bool apply_env_list trimmed_parts
    check_required_settings split trim_space trim_left trim_right has_prefix ◌==◌
env_loads = refl
