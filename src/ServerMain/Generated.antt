-- ===== src/ServerMain/Generated.antt =====
-- The file that the server program prints for a client, read by the client program.
use mylittleproxy.Base.{Bytes, bytes, ◌≡◌, Option, [], ◌∷◌}
use mylittleproxy.Proto.{ConnectionConfig}
use mylittleproxy.AppConfig.{ClientConfig}
use mylittleproxy.Tunnel.Regexp.{Regexp}
use mylittleproxy.Tunnel.ControlRequest.{control_request}
use mylittleproxy.Tunnel.Client.{Client, ClientSettings}
use mylittleproxy.Tunnel.Server.Connect.{Request}
use mylittleproxy.Tunnel.Server.{Server, Settings}
use mylittleproxy.Tunnel.Server.Handshake.{Sign}
use mylittleproxy.Tunnel.Server.Admission.{IsAdmitted}
use mylittleproxy.ClientMain.Program as ClientProgram
use mylittleproxy.ServerMain.ClientConfig.{ClientConfigOptions}

module _ (re : Regexp) where
  open re use {Regex, compile}

  -- The control request that a client of these settings sends to `host`.
  abbrev pub request_to :
      Sign → (encode : ConnectionConfig → Bytes) → (host : Bytes) → ClientSettings → Request
  request_to sign encode host c =
      control_request sign encode host c.control_method c.control_path c.connection_config
        c.identifier c.signature_key

  -- A client of these settings sends a request that a server lets in on its control path.
  abbrev pub IsWelcome :
      Sign
      → (encode : ConnectionConfig → Bytes) → (decode : Bytes → Option ConnectionConfig)
      → Settings Regex
      → (slash : Regex) → ClientConfigOptions
      → (host : Bytes) → ClientSettings
      → Type 0
  IsWelcome sign encode decode settings slash opts host c =
      IsAdmitted re sign decode settings (request_to sign encode host c) opts.domain
        (record { re = slash; replacement = bytes "/" } ∷ [])
      × ((request_to sign encode host c).path ≡ settings.control_path)
