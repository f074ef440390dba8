-- ===== src/Tunnel/Server/Samples.antt =====
-- Small inputs for the tests: a client, its request, and what the network does.
use mylittleproxy.Base.{Bytes, bytes, Option, none, some, List, [], ◌∷◌, ◌++◌, ok, ◌==◌, true}
use mylittleproxy.Proto.{
  ConnectionConfig, client_identifier_header, client_identifier_signature, handshake_request,
}
use mylittleproxy.Tunnel.Regexp.{Regexp}
use mylittleproxy.Tunnel.VirtualHosts.{HttpRewriteRule, VirtualHosts}
use mylittleproxy.Tunnel.Server.{Server, Settings, initial}
use mylittleproxy.Tunnel.Server.Handshake.{Sign, HandshakeIo, accepted}
use mylittleproxy.Tunnel.Server.Connect.{Request}

-- Patterns that match themselves only, and do not compile if empty.
abbrev pub compile_literal : Bytes → Option Bytes
compile_literal [] = none
compile_literal (c ∷ s) = some (c ∷ s)

abbrev pub literal : Regexp
literal = record {
  Regex = Bytes;
  compile = compile_literal;
  match_string = λ r s. r == s;
  replace_all_string = λ r s t. t;
}

abbrev pub alice : Bytes
alice = bytes "alice"

abbrev pub domain : Bytes
domain = bytes "a.org"

abbrev pub key : Bytes
key = bytes "k"

abbrev pub sign : Sign
sign id secret = id ++ secret

abbrev pub rules : List (HttpRewriteRule Bytes)
rules = record { re = bytes "/"; replacement = bytes "/" } ∷ []

abbrev pub config : ConnectionConfig
config = record {
  http = record {
    domain = domain;
    target = bytes "http://t";
    rewrite = record { from = bytes "/"; to = bytes "/" } ∷ [];
  };
}

abbrev pub decode : Bytes → Option ConnectionConfig
decode body = some config

abbrev pub settings : Settings Bytes
settings = record {
  signature_key = key;
  allowed_hosts = domain ∷ [];
  allowed_clients = alice ∷ [];
  control_path = bytes "/c";
  control_method = bytes "POST";
}

abbrev pub knock : Request
knock = record {
  host = bytes "s.org";
  method = bytes "POST";
  path = bytes "/c";
  header =
      (client_identifier_header, alice ∷ [])
      ∷ (client_identifier_signature, sign alice key ∷ [])
      ∷ [];
  body = [];
}

-- A handshake in which all goes well, over connection 1, session 2 and stream 3.
abbrev pub smooth : HandshakeIo
smooth = record {
  is_hijacker = true;
  hijack = ok 1;
  write_connected = none;
  set_deadline = none;
  yamux_server = ok 2;
  accept = accepted 3;
  read = ok handshake_request;
  write_response = none;
}

abbrev pub empty_server : Server Bytes
empty_server = initial settings none

abbrev pub hosts : VirtualHosts Bytes
hosts = (domain, record { identifier = alice; rewrite = rules }) ∷ []
