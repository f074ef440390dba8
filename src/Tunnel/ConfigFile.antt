-- ===== src/Tunnel/ConfigFile.antt =====
-- `GetConfig` of tunnel/util.go, which both programs read their settings with.
use mylittleproxy.Base.{Bytes, Bool, true, false, Option, none, some, Result, ok, err}

-- What `os.Open` and `io.ReadAll` give for the path of the file.
pub data FileIo : Type 0 where
  not_opened : (not_exist : Bool) → FileIo
  not_read : FileIo
  contents : Bytes → FileIo

pub data ReadError : Type 0 where
  no_such_file : ReadError
  cannot_open : ReadError
  cannot_read : ReadError
  not_json : ReadError

abbrev open_error : Bool → ReadError
open_error true = no_such_file
open_error false = cannot_open

abbrev parsed : {C : Type 0} → Option C → Result ReadError C
parsed none = err not_json
parsed (some config) = ok config

-- `unmarshal` is `json.Unmarshal` into a zero value of the settings.
unfoldable pub get_config :
    {C : Type 0} → (unmarshal : Bytes → Option C) → FileIo → Result ReadError C
get_config unmarshal (not_opened not_exist) = err (open_error not_exist)
get_config unmarshal not_read = err cannot_read
get_config unmarshal (contents config_bytes) = parsed (unmarshal config_bytes)
