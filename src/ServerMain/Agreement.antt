-- ===== src/ServerMain/Agreement.antt =====
-- The generated client configuration against the server that it was generated for: what the client
-- then sends is let in.
use mylittleproxy.Base.{
  Bytes, bytes, ◌≡◌, refl, sym, ap, ◌≢◌, ◌⊎◌, inl, inr, ◌∙◌, true, false, Option, some, [], ◌∷◌,
  arith, ok, Result-cases, Bool-cases, IsIn, is_empty, subst,
}
use mylittleproxy.Proto.{ConnectionConfig, default_control_method, default_control_path}
use mylittleproxy.AppConfig.{ClientConfig, ServerConfig}
use mylittleproxy.ClientMain.{
  TunnelConfig, get_tunnel_config, get_identifier, get_signature_key, start,
}
use mylittleproxy.Tunnel.Regexp.{Regexp}
use mylittleproxy.Tunnel.Server.{Settings}
use mylittleproxy.Tunnel.Server.Handshake.{Sign}
use mylittleproxy.Tunnel.Server.Admission.{IsAdmitted, check_identifier_iff}
use mylittleproxy.Tunnel.ControlRequest.{control_request, header_get-control_request}
use mylittleproxy.ServerMain.{compile_all, new_server, or_default}
use mylittleproxy.ServerMain.ClientConfig.{
  ClientConfigOptions, check_against_allowed_hosts, check_against_allowed_clients,
  client_facing_address, generated, build_client_config,
}
use mylittleproxy.ServerMain.Allowed.{
  listened, check_against_allowed_clients_sound, only_rule, is_empty_of_ne, sent_config,
  or_default_twice, has_target, check_against_allowed_hosts_sound,
}

module _ (re : Regexp) where
  open re use {Regex, compile, match_string}

  -- What a generated configuration has passed.
  pub record IsBuilt (server : ServerConfig) (opts : ClientConfigOptions) (client : ClientConfig)
      : Type 0 where
    pub address : Bytes
    pub faced : client_facing_address (listened server) opts.address ≡ ok address
    pub shape : client ≡ generated re server opts address
    pub has_domain : is_empty opts.domain ≡ false
    pub host_allowed : check_against_allowed_hosts re server.allowed_hosts opts.domain ≡ ok tt
    pub client_allowed :
        check_against_allowed_clients server.allowed_clients opts.identifier ≡ ok tt

  pub build_client_config-IsBuilt :
      (server : ServerConfig) (opts : ClientConfigOptions) (client : ClientConfig)
      → build_client_config re server opts ≡ ok client
      → IsBuilt server opts client
  unfolding build_client_config
  build_client_config-IsBuilt server opts client e =
      elim (Result-cases (client_facing_address (listened server) opts.address)) [
        | inr (f, a) ↦ absurd (ground arith)
        | inl (address, a) ↦ elim (Bool-cases (is_empty opts.domain)) [
          | inl y ↦ absurd (ground arith)
          | inr n ↦
              elim (Result-cases
                (check_against_allowed_hosts re server.allowed_hosts opts.domain)) [
                  | inr (f, b) ↦ absurd (ground arith)
                  | inl (u, b) ↦
                      elim (Result-cases
                        (check_against_allowed_clients server.allowed_clients opts.identifier)) [
                          | inr (f, c) ↦ absurd (ground arith)
                          | inl (w, c) ↦ record {
                            address = address;
                            faced = a;
                            shape = ground arith;
                            has_domain = n;
                            host_allowed = b;
                            client_allowed = c;
                          }
                        ]
                ]
        ]
      ]

  new_server_lem :
      (server : ServerConfig) (settings : Settings Regex)
      → new_server re server ≡ some settings
      → (compile_all re server.allowed_hosts ≡ some settings.allowed_hosts)
        × (settings.signature_key ≡ server.signature_key)
        × (settings.allowed_clients ≡ server.allowed_clients)
        × (settings.control_method ≡ or_default default_control_method server.control_method)
        × (settings.control_path ≡ or_default default_control_path server.control_path)
  unfolding new_server
  new_server_lem server settings e = ground arith

  identifier_generated :
      (server : ServerConfig) (opts : ClientConfigOptions) (address : Bytes)
      (hostname : Option Bytes)
      → opts.identifier ≢ []
      → get_identifier (generated re server opts address) hostname ≡ some opts.identifier
  unfolding get_identifier
  identifier_generated server opts address hostname named =
      rw (is_empty_of_ne opts.identifier named)

  key_generated :
      (server : ServerConfig) (opts : ClientConfigOptions) (address env : Bytes)
      → server.signature_key ≢ []
      → (opts.omit_signature_key ≡ true → env ≡ server.signature_key)
      → get_signature_key (generated re server opts address) env ≡ some server.signature_key
  unfolding get_signature_key
  key_generated server opts address env keyed handed = elim (Bool-cases opts.omit_signature_key) [
    | inl y ↦ ground (arith, handed y, is_empty_of_ne server.signature_key keyed)
    | inr n ↦ ground (arith, is_empty_of_ne server.signature_key keyed)
  ]

  -- The client program starts on a generated configuration.
  pub start-generated :
      (server : ServerConfig) (opts : ClientConfigOptions) (address : Bytes)
      (hostname : Option Bytes) (env : Bytes)
      → is_empty opts.domain ≡ false
      → opts.identifier ≢ []
      → server.signature_key ≢ []
      → (opts.omit_signature_key ≡ true → env ≡ server.signature_key)
      → start (generated re server opts address) hostname env
        ≡ some (
            get_tunnel_config opts.identifier
              (generated re server opts address)
              (only_rule ∷ [])
              server.signature_key)
  unfolding start
  start-generated server opts address hostname env has named keyed handed =
      rw
        (
          identifier_generated server opts address hostname named,
          key_generated server opts address env keyed handed,
          start,
        )
        (rw (has, has_target opts.target))

  -- A client that starts on a configuration generated for a server sends a control request, to the
  -- server's control path, that the server lets in: if the server starts, the configuration is for
  -- a named client, the shared key is not empty and reaches the client, the config that is sent
  -- decodes as it was encoded, and the pattern "/" compiles.
  pub build_client_config-IsAdmitted :
      (sign : Sign) (encode : ConnectionConfig → Bytes) (decode : Bytes → Option ConnectionConfig)
      (server : ServerConfig) (opts : ClientConfigOptions) (client : ClientConfig)
      (settings : Settings Regex) (slash : Regex) (hostname : Option Bytes) (env host : Bytes)
      → build_client_config re server opts ≡ ok client
      → new_server re server ≡ some settings
      → opts.identifier ≢ []
      → server.signature_key ≢ []
      → (opts.omit_signature_key ≡ true → env ≡ server.signature_key)
      → decode (encode (sent_config opts)) ≡ some (sent_config opts)
      → compile (bytes "/") ≡ some slash
      → (t : TunnelConfig) × (start client hostname env ≡ some t)
        × (let r =
              control_request sign encode host t.control_method t.control_path t.connection_config
                t.identifier t.signature_key in
            IsAdmitted re sign decode settings r opts.domain
              (record { re = slash; replacement = bytes "/" } ∷ [])
            × (r.path ≡ settings.control_path))
  unfolding control_request get_tunnel_config
  build_client_config-IsAdmitted sign encode decode server opts client settings slash hostname env
        host e f named keyed handed codec compiles =
      let b = build_client_config-IsBuilt server opts client e in
      let n = new_server_lem server settings f in
      let t =
        get_tunnel_config opts.identifier (generated re server opts b.address) (only_rule ∷ [])
          server.signature_key in
      let got =
        header_get-control_request sign encode host t.control_method t.control_path
          t.connection_config opts.identifier server.signature_key in
      (
        t,
        rw b.shape
            (start-generated server opts b.address hostname env b.has_domain named keyed handed),
        (
          record {
            method = or_default_twice default_control_method server.control_method ∙ sym n.3;
            allowed = rw got.0 (
                subst (λ c. (c ≡ []) ⊎ IsIn opts.identifier c) (sym n.2)
                  ((check_identifier_iff _ _).0
                    (check_against_allowed_clients_sound _ _ b.client_allowed)));
            signed = rw (got.0, got.1, n.1);
            config = t.connection_config;
            decoded = codec;
            named = refl;
            host_allowed =
                check_against_allowed_hosts_sound re server.allowed_hosts opts.domain
                  settings.allowed_hosts b.host_allowed n.0;
            converted = (compiles, refl, tt);
          },
          ap (or_default default_control_path)
                (or_default_twice default_control_path server.control_path)
              ∙ or_default_twice default_control_path server.control_path
              ∙ sym n.4,
        ),
      )
