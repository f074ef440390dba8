-- ===== src/ServerMain/ClientConfig.antt =====
-- server/clientconfig.go: a client's configuration derived from the server's. Program has what is
-- printed of it.
use mylittleproxy.Base.{
  Bytes, bytes, Bool, ◌||◌, none, some, List, [], ◌∷◌, Result, ok, err, ◌>>=◌, ◌>>◌, ◌==◌, any,
  is_empty, if◌then◌else◌, not,
}
use mylittleproxy.Proto.{default_control_path, default_control_method}
use mylittleproxy.AppConfig.{ClientConfig, ServerConfig}
use mylittleproxy.Std.Net.{split_host_port, join_host_port}
use mylittleproxy.Tunnel.Regexp.{Regexp}
use mylittleproxy.ServerMain.{or_default}

pub record ClientConfigOptions : Type 0 where
  pub identifier : Bytes
  pub domain : Bytes
  pub target : Bytes
  pub address : Bytes
  pub omit_signature_key : Bool
  pub debug : Bool

abbrev pub default_generated_target : Bytes
default_generated_target = bytes "http://127.0.0.1:8080"

-- The errors of the file, by their message.
pub data Refusal : Type 0 where
  cannot_read_address : Bytes → Refusal
  address_unknown : Bytes → Refusal
  domain_required : Refusal
  no_allowed_hosts : Bytes → Refusal
  invalid_pattern : Bytes → Refusal
  no_pattern_matches : Bytes → Refusal
  client_not_allowed : Bytes → Refusal

abbrev names_nothing : Bytes → Bool
names_nothing host = is_empty host || host == bytes "0.0.0.0" || host == bytes "::"

unfoldable pub client_facing_address : (listen override : Bytes) → Result Refusal Bytes
client_facing_address listen override =
    if not (is_empty override) then ok override else elim (split_host_port listen) [
      | none ↦ err (cannot_read_address listen)
      | some (host, port) ↦
          if names_nothing host then err (address_unknown listen) else ok (join_host_port host port)
    ]

unfoldable pub check_against_allowed_clients : List Bytes → Bytes → Result Refusal (Unit {0})
check_against_allowed_clients [] identifier = ok tt
check_against_allowed_clients (c ∷ cs) identifier =
    if any (λ k. k == identifier) (c ∷ cs) then ok tt else err (client_not_allowed identifier)

abbrev check_domain : Bytes → Result Refusal (Unit {0})
check_domain domain = if is_empty domain then err domain_required else ok tt

module _ (re : Regexp) where
  open re use {Regex, compile, match_string}

  -- The loop: patterns are compiled one by one until one matches.
  unfoldable pub match_allowed_hosts : List Bytes → Bytes → Result Refusal (Unit {0})
  match_allowed_hosts [] domain = err (no_pattern_matches domain)
  match_allowed_hosts (h ∷ hs) domain = elim (compile h) [
    | none ↦ err (invalid_pattern h)
    | some r ↦ if match_string r domain then ok tt else match_allowed_hosts hs domain
  ]

  unfoldable pub check_against_allowed_hosts : List Bytes → Bytes → Result Refusal (Unit {0})
  unfolding match_allowed_hosts
  check_against_allowed_hosts [] domain = err (no_allowed_hosts domain)
  check_against_allowed_hosts (h ∷ hs) domain = match_allowed_hosts (h ∷ hs) domain

  abbrev pub generated : ServerConfig → ClientConfigOptions → Bytes → ClientConfig
  generated server opts address = record {
    debug = opts.debug;
    identifier = opts.identifier;
    server_address = address;
    signature_key = if opts.omit_signature_key then [] else server.signature_key;
    proxy = record {
      http = record {
        domain = opts.domain;
        target = or_default default_generated_target opts.target;
        rewrite = record { from = bytes "/"; to = bytes "/" } ∷ [];
        custom_headers = [];
      };
    };
    control_path = or_default default_control_path server.control_path;
    control_method = or_default default_control_method server.control_method;
  }

  unfoldable pub build_client_config :
      ServerConfig → ClientConfigOptions → Result Refusal ClientConfig
  unfolding client_facing_address check_against_allowed_hosts check_against_allowed_clients
  build_client_config server opts = do
    address ←
        client_facing_address
          (if is_empty server.listen_control then server.listen else server.listen_control)
          opts.address
    check_domain opts.domain
    check_against_allowed_hosts server.allowed_hosts opts.domain
    check_against_allowed_clients server.allowed_clients opts.identifier
    ok (generated server opts address)
