-- ===== src/Tunnel/Server/Connect.antt =====
-- `checkConnect` of tunnel/server.go and what it calls: which requests open a control connection,
-- and what the others are answered.
use mylittleproxy.Base.{
  ℕ, Bytes, bytes, Bool, true, not, Option, none, some, List, [], ◌∷◌, ◌++◌, Result, ok, err, Map,
  lookup, any, is_empty, if◌then◌else◌, ◌==◌,
}
use mylittleproxy.Proto
use mylittleproxy.Proto.{ConnectionConfig, client_identifier_header, client_identifier_signature}
use mylittleproxy.Tunnel.Regexp.{Regexp}
use mylittleproxy.Tunnel.Errors.{Error, is_after_hijack}
use mylittleproxy.Tunnel.VirtualHosts.{HttpRewriteRule, add_host}
use mylittleproxy.Tunnel.Server.{Server, Settings, on_disconnect}
use mylittleproxy.Tunnel.Server.Handshake.{
  Sign, HandshakeIo, check_identifier_signature, control_handler,
}

-- A parsed request. Header names are canonical, as net/http leaves them; those of package proto are.
pub record Request : Type 0 where
  pub host : Bytes
  pub method : Bytes
  pub path : Bytes
  pub header : Map (List Bytes)
  pub body : Bytes

abbrev first : Option (List Bytes) → Bytes
first none = []
first (some []) = []
first (some (v ∷ _)) = v

-- `r.Header.Get(name)`.
unfoldable pub header_get : Bytes → Request → Bytes
header_get name r = first (lookup name r.header)

-- The body of a response: a fixed text, or the text of an error.
pub data Body : Type 0 where
  text : Bytes → Body
  message : Error → Body

-- How `checkConnect` ends: with a response by `http.Error`, or with the connection hijacked and no
-- response.
pub data Reply : Type 0 where
  http_error : (status : ℕ) → Body → Reply
  taken_over : Reply

-- `s.allowedClients`, empty or with the identifier.
unfoldable pub check_identifier : List Bytes → Bytes → Bool
check_identifier [] identifier = true
check_identifier (c ∷ cs) identifier = any (λ k. k == identifier) (c ∷ cs)

abbrev pub reply_of : Error → Reply
reply_of e = if is_after_hijack e then taken_over else http_error 502 (message e)

-- What follows the call of the handler.
unfoldable pub conclude : {R : Type 0} → Bytes → Option Error × Server R → Reply × Server R
conclude identifier (none, s) = (taken_over, s)
conclude identifier (some e, s) =
    (reply_of e, if is_empty identifier then s else on_disconnect identifier (some e) s)

module _ (re : Regexp) where
  open re use {Regex, compile, match_string}

  unfoldable pub check_host : List Regex → Bytes → Bool
  check_host allowed_hosts host = any (λ r. match_string r host) allowed_hosts

  -- `none` where a pattern does not compile.
  unfoldable pub convert_rules : List Proto.HttpRewriteRule → Option (List (HttpRewriteRule Regex))
  convert_rules [] = some []
  convert_rules (r ∷ rs) = elim (compile r.from) [
    | none ↦ none
    | some c ↦ elim (convert_rules rs) [
      | none ↦ none
      | some cs ↦ some (record { re = c; replacement = r.to } ∷ cs)
    ]
  ]

-- What stands outside the repository: the regular expressions, the signature, and the JSON decoder of
-- the connection config.
module _ (re : Regexp) (sign : Sign) (decode : Bytes → Option ConnectionConfig) where
  open re use {Regex}

  -- The checks up to `convertHTTPPathRules`: a response, or the domain and rules to register.
  unfoldable pub admit :
      Settings Regex → Request → Result Reply (Bytes × List (HttpRewriteRule Regex))
  unfolding header_get check_identifier check_host convert_rules
  admit c r =
      if not (r.method == c.control_method)
      then err (http_error 405 (text (bytes "405 must " ++ c.control_method ++ bytes "\n")))
      else if not (check_identifier c.allowed_clients (header_get client_identifier_header r))
      then err (http_error 403 (text (bytes "403 Forbidden")))
      else if not (
          check_identifier_signature sign (header_get client_identifier_header r) c.signature_key
            (header_get client_identifier_signature r))
      then err (http_error 403 (text (bytes "403 invalid signature\n")))
      else elim (decode r.body) [
        | none ↦ err (http_error 400 (text (bytes "400 invalid connection config\n")))
        | some t ↦
            if not (check_host re c.allowed_hosts t.http.domain)
            then err (http_error 400 (text (bytes "400 invalid host name\n")))
            else elim (convert_rules re t.http.rewrite) [
              | none ↦ err (http_error 400 (text (bytes "400 invalid rewrite rule\n")))
              | some rules ↦ ok (t.http.domain, rules)
            ]
      ]

  unfoldable pub check_connect : HandshakeIo → Request → Server Regex → Reply × Server Regex
  unfolding admit conclude header_get
  check_connect h r s = elim (admit s.settings r) [
    | err reply ↦ (reply, s)
    | ok (domain, rules) ↦
        let id = header_get client_identifier_header r in
        elim (add_host domain id rules s.virtual_hosts) [
          | err _ ↦ (http_error 409 (text (bytes "409 host already in use\n")), s)
          | ok hosts ↦ conclude id (
              control_handler sign h id (header_get client_identifier_signature r)
                (record s { virtual_hosts = hosts }))
        ]
  ]
