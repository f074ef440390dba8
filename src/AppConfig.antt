-- ===== src/AppConfig.antt =====
-- appConfig/server.go and appConfig/client.go: the settings of the two programs.
use mylittleproxy.Base.{Bytes, Bool, List, Map}

pub record HttpRewriteRule : Type 0 where
  pub from : Bytes
  pub to : Bytes

pub record HttpConfig : Type 0 where
  pub domain : Bytes
  pub target : Bytes
  pub rewrite : List HttpRewriteRule
  pub custom_headers : Map Bytes

pub record ProxyConfig : Type 0 where
  pub http : HttpConfig

pub record ClientConfig : Type 0 where
  pub debug : Bool
  pub identifier : Bytes
  pub server_address : Bytes
  pub signature_key : Bytes
  pub proxy : ProxyConfig
  pub control_path : Bytes
  pub control_method : Bytes

pub record ServerConfig : Type 0 where
  pub debug : Bool
  pub signature_key : Bytes
  pub listen : Bytes
  pub listen_control : Bytes
  pub allowed_hosts : List Bytes
  pub allowed_clients : List Bytes
  pub control_path : Bytes
  pub control_method : Bytes
