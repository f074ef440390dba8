-- ===== src/Proto.antt =====
-- proto/proto.go and proto/control_msg.go: the constants and messages that the server and its
-- clients share.
use mylittleproxy.Base.{ℕ, Bytes, bytes, List}

abbrev pub default_control_path : Bytes
default_control_path = bytes "/_controlPath"

abbrev pub default_control_method : Bytes
default_control_method = bytes "POST"

abbrev pub client_identifier_header : Bytes
client_identifier_header = bytes "X-Tunnel-Identifier"

abbrev pub client_identifier_signature : Bytes
client_identifier_signature = bytes "X-Tunnel-Signature"

abbrev pub connected : Bytes
connected = bytes "200 Connected to Tunnel"

abbrev pub handshake_request : Bytes
handshake_request = bytes "controlHandshake"

abbrev pub handshake_response : Bytes
handshake_response = bytes "controlOk"

pub record HttpRewriteRule : Type 0 where
  pub from : Bytes
  pub to : Bytes

pub record HttpConfig : Type 0 where
  pub domain : Bytes
  pub target : Bytes
  pub rewrite : List HttpRewriteRule

pub record ConnectionConfig : Type 0 where
  pub http : HttpConfig

-- `Type` of control_msg.go, an `int` that starts at 1.
abbrev pub http : ℕ
http = 1

abbrev pub tcp : ℕ
tcp = 2

abbrev pub ws : ℕ
ws = 3

abbrev pub request_client_session : ℕ
request_client_session = 1

pub record ControlMessage : Type 0 where
  pub action : ℕ
  pub protocol : ℕ
  pub local_port : ℕ
