-- ===== src/ServerMain/ProgramTests.antt =====
-- The two programs on small files of settings.
use mylittleproxy.Base.{
  Bytes, bytes, ◌≡◌, refl, true, false, Option, none, some, List, [], ◌∷◌, ◌++◌, ◌==◌,
}
use mylittleproxy.AppConfig.{ClientConfig, ServerConfig}
use mylittleproxy.ClientMain.Program as ClientProgram
use mylittleproxy.Std.Net.{split_host_port, cut_first, cut_last}
use mylittleproxy.Tunnel.Client.{Client}
use mylittleproxy.Tunnel.ConfigFile.{contents, get_config}
use mylittleproxy.ServerMain.{compile_all, new_server}
use mylittleproxy.ServerMain.Environment.{
  load_config, apply_env, apply_env_string, apply_env_bool, apply_env_list, check_required_settings,
}
use mylittleproxy.ServerMain.Listeners.{check_listen_addresses, same_listen_address}
use mylittleproxy.ServerMain.ClientConfig.{generated}
use mylittleproxy.ServerMain.Program.{
  HttpServer, public_only, control_only, new_http_server, serve, Flags, MainIo, serving, run_server,
  main,
}
use mylittleproxy.ServerMain.Startup.{IsServing, main_serving}
use mylittleproxy.ServerMain.Tests.{literal, server, opts, settings}

abbrev apart_config : ServerConfig
apart_config = record server { listen_control = bytes "s:81" }

abbrev unmarshal : Bytes → Option ServerConfig
unmarshal text = some apart_config

abbrev unmarshal_list : Bytes → Option (List Bytes)
unmarshal_list text = none

abbrev marshal : ClientConfig → Option Bytes
marshal client = some client.identifier

abbrev io : MainIo
io = record { env = λ name. none; file = contents (bytes "{}"); writes = true }

abbrev flags : Flags
flags = record { generate = false; gen_opts = opts }

abbrev servers : List HttpServer
servers =
    new_http_server (bytes "s:81") control_only ∷ new_http_server (bytes "s:80") public_only ∷ []

serves : main literal unmarshal unmarshal_list marshal flags io ≡ serving settings servers
unfolding main load_config apply_env apply_env_string apply_env_bool apply_env_list
    check_required_settings run_server new_server compile_all check_listen_addresses
    same_listen_address split_host_port cut_first cut_last serve get_config ◌==◌
serves = refl

main_serving_example :
    (false ≡ false) × IsServing literal unmarshal unmarshal_list marshal io settings servers
main_serving_example =
    main_serving literal unmarshal unmarshal_list marshal flags io settings servers serves

abbrev asking : Flags
asking = record flags { generate = true }

abbrev client : ClientConfig
client = generated literal apart_config opts (bytes "s:80")

abbrev text : Bytes
text = bytes "alice" ++ b'\n' ∷ []

-- The codec of this test knows one client.
abbrev unmarshal_client : Bytes → Option ClientConfig
unmarshal_client s = some client
