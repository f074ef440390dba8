-- ===== src/ClientMain/Program.antt =====
-- `main` of client/client.go as a whole: from the file of settings to the client that it starts.
use mylittleproxy.Base.{Bytes, false, Option, none, some, Result, ok, err, ◌≡◌}
use mylittleproxy.AppConfig.{ClientConfig}
use mylittleproxy.Tunnel.Errors.{Error}
use mylittleproxy.Tunnel.ConfigFile.{FileIo, contents, ReadError, get_config}
use mylittleproxy.Tunnel.Client.{Client, ClientSettings, new_client}
use mylittleproxy.ClientMain.{TunnelConfig, start}

-- The `tunnel.ClientConfig` that `getTunnelConfig` makes: what it does not fill in is nil.
abbrev pub settings_of : TunnelConfig → ClientSettings
settings_of t = record {
  identifier = t.identifier;
  signature_key = t.signature_key;
  fetches_identifier = false;
  server_addr = t.server_addr;
  fetches_server_addr = false;
  fetches_signature_key = false;
  state_changes = none;
  yamux_config = none;
  connection_config = t.connection_config;
  custom_headers = t.custom_headers;
  control_path = t.control_path;
  control_method = t.control_method;
}

-- What the program meets: its file, `os.Hostname`, and the variable of the signature key.
pub record MainIo : Type 0 where
  pub file : FileIo
  pub hostname : Option Bytes
  pub key_variable : Bytes

-- How `main` goes: an exit with an error, a panic, or a client whose `Start` it calls.
pub data Outcome : Type 0 where
  not_configured : ReadError → Outcome
  aborted : Outcome
  panicked : Error → Outcome
  started : Client → Outcome

abbrev initialized : Result Error Client → Outcome
initialized (err e) = panicked e
initialized (ok client) = started client

abbrev with_tunnel : Option TunnelConfig → Outcome
with_tunnel none = aborted
with_tunnel (some t) = initialized (new_client (settings_of t))

abbrev with_config : MainIo → Result ReadError ClientConfig → Outcome
with_config io (err e) = not_configured e
with_config io (ok config) = with_tunnel (start config io.hostname io.key_variable)

-- `unmarshal` is `json.Unmarshal` into the settings of a client.
unfoldable pub main : (unmarshal : Bytes → Option ClientConfig) → MainIo → Outcome
main unmarshal io = with_config io (get_config unmarshal io.file)

-- A text that parses to settings which the client accepts starts that client.
pub main_starts :
    (unmarshal : Bytes → Option ClientConfig) (text : Bytes) (hostname : Option Bytes)
    (key_variable : Bytes) (config : ClientConfig) (t : TunnelConfig) (k : Client)
    → unmarshal text ≡ some config
    → start config hostname key_variable ≡ some t
    → new_client (settings_of t) ≡ ok k
    → main unmarshal
        (record { file = contents text; hostname = hostname; key_variable = key_variable })
      ≡ started k
unfolding main get_config
main_starts unmarshal text hostname key_variable config t k u s n = rw (u, main) (rw (s, n))
