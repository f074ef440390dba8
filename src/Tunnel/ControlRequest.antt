-- ===== src/Tunnel/ControlRequest.antt =====
-- The request that `connect` of tunnel/client.go sends to open a control connection: its method, its
-- path, the two headers and the connection config as its body.
use mylittleproxy.Base.{Bytes, [], ◌∷◌, insert, lookup, ◌==◌, ◌≡◌, refl, is_empty, if◌then◌else◌}
use mylittleproxy.Proto.{
  ConnectionConfig, default_control_path, client_identifier_header, client_identifier_signature,
}
use mylittleproxy.Tunnel.Server.Handshake.{Sign}
use mylittleproxy.Tunnel.Server.Connect.{Request, header_get}

-- `encode` is `json.Marshal` of the config; `host` is the address that the connection was dialled to.
unfoldable pub control_request :
    Sign
    → (ConnectionConfig → Bytes)
    → (host method control_path : Bytes) → ConnectionConfig
    → (identifier signature_key : Bytes) → Request
control_request sign encode host method control_path config identifier signature_key = record {
  host = host;
  method = method;
  path = if is_empty control_path then default_control_path else control_path;
  header =
      insert client_identifier_signature (sign identifier signature_key ∷ [])
        (insert client_identifier_header (identifier ∷ []) []);
  body = encode config;
}

module _ (sign : Sign) (encode : ConnectionConfig → Bytes) (host method control_path : Bytes)
    (config : ConnectionConfig) (identifier signature_key : Bytes) where
  -- The server reads back the identifier and the signature that the client put in.
  pub header_get-control_request :
      let r =
        control_request sign encode host method control_path config identifier signature_key in
      (header_get client_identifier_header r ≡ identifier)
      × (header_get client_identifier_signature r ≡ sign identifier signature_key)
  unfolding header_get control_request lookup insert ◌==◌
  header_get-control_request = (refl, refl)
