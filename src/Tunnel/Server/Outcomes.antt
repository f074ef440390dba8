-- ===== src/Tunnel/Server/Outcomes.antt =====
-- How a control request ends: refused with the state unchanged, connected, or failed with what that
-- leaves behind.
use mylittleproxy.Base.{
  ◌<◌, ◌≤◌, Bytes, ◌≡◌, ◌≢◌, ◌⊎◌, inl, inr, Option, List, arith, ok, err, Result-cases,
}
use mylittleproxy.Proto.{ConnectionConfig, client_identifier_header, client_identifier_signature}
use mylittleproxy.Tunnel.Regexp.{Regexp}
use mylittleproxy.Tunnel.VirtualHosts.{HttpRewriteRule, VirtualHosts, add_host}
use mylittleproxy.Tunnel.Server.{Server, Settings}
use mylittleproxy.Tunnel.Server.Handshake.{Sign, HandshakeIo, control_handler}
use mylittleproxy.Tunnel.Server.Connect.{
  Request, Reply, http_error, taken_over, admit, conclude, check_connect, header_get,
}
use mylittleproxy.Tunnel.Server.Admission.{IsAdmitted, admit_sound, admit_complete}

-- A reply that blames the request.
abbrev pub IsClientError : Reply → Type 0
IsClientError (http_error code b) = (400 ≤ code) × (code < 500)
IsClientError taken_over = ⊥

module _ (re : Regexp) (sign : Sign) (decode : Bytes → Option ConnectionConfig) where
  open re use {Regex}

  abbrev id_of : Request → Bytes
  id_of r = header_get client_identifier_header r

  abbrev signature_of : Request → Bytes
  signature_of r = header_get client_identifier_signature r

  admit-IsClientError :
      (c : Settings Regex) (r : Request) (reply : Reply)
      → admit re sign decode c r ≡ err reply
      → IsClientError reply
  unfolding admit
  admit-IsClientError c r reply e = ground arith

  -- What a control request does: it is answered with a client error, leaves the server as it was and
  -- is not admitted, or its domain is another client's; or it is admitted, and `controlHandler`
  -- decides, on the state with the host added.
  pub check_connect_cases :
      (h : HandshakeIo) (r : Request) (s : Server Regex)
      → (IsClientError (check_connect re sign decode h r s).0
          × ((check_connect re sign decode h r s).1 ≡ s)
          × ((domain : Bytes) (rules : List (HttpRewriteRule Regex)) (hosts : VirtualHosts Regex)
              → IsAdmitted re sign decode s.settings r domain rules
              → add_host domain (id_of r) rules s.virtual_hosts ≢ ok hosts))
        ⊎ ((domain : Bytes) × (rules : List (HttpRewriteRule Regex)) × (hosts : VirtualHosts Regex)
            × IsAdmitted re sign decode s.settings r domain rules
            × (add_host domain (id_of r) rules s.virtual_hosts ≡ ok hosts)
            × (check_connect re sign decode h r s
                ≡ conclude (id_of r) (
                    control_handler sign h
                      (id_of r)
                      (signature_of r)
                      (record s { virtual_hosts = hosts }))))
  unfolding check_connect
  check_connect_cases h r s = elim (Result-cases (admit re sign decode s.settings r)) [
    | inr (reply, a) ↦ inl (
      rw (a, check_connect) (admit-IsClientError s.settings r reply a),
      rw (a, check_connect),
      λ domain rules hosts ad e.
          absurd (cc (a, admit_complete re sign decode s.settings r domain rules ad)),
    )
    | inl ((domain, rules), a) ↦
        elim (Result-cases (add_host domain (id_of r) rules s.virtual_hosts)) [
          | inr (e, b) ↦ inl (
            rw (a, b, check_connect) (omega arith, omega arith),
            rw (a, b, check_connect),
            λ d rs hosts ad f.
                absurd
                  (ground (arith, a, b, f, admit_complete re sign decode s.settings r d rs ad)),
          )
          | inl (hosts, b) ↦ inr (
            domain,
            rules,
            hosts,
            admit_sound re sign decode s.settings r domain rules a,
            b,
            rw (a, b, check_connect),
          )
        ]
  ]
