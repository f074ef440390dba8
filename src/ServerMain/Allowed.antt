-- ===== src/ServerMain/Allowed.antt =====
-- The checks that clientconfig.go makes of the lists of hosts and clients, against those of the
-- server, and the defaults of the two programs.
use mylittleproxy.Base.{
  Bytes, bytes, ◌≡◌, refl, ◌≢◌, inl, inr, true, false, some, List, [], ◌∷◌, arith, ok, Option-cases,
  Bool-cases, Any, is_empty, if◌then◌else◌, subst,
}
use mylittleproxy.Proto
use mylittleproxy.Proto.{
  ConnectionConfig, default_control_method, default_control_path, client_identifier_header,
  client_identifier_signature,
}
use mylittleproxy.AppConfig.{ServerConfig}
use mylittleproxy.Tunnel.Regexp.{Regexp}
use mylittleproxy.Tunnel.Server.Connect.{check_identifier}
use mylittleproxy.ServerMain.{compile_all, or_default}
use mylittleproxy.ServerMain.ClientConfig.{
  default_generated_target, ClientConfigOptions, match_allowed_hosts, check_against_allowed_hosts,
  check_against_allowed_clients,
}

abbrev pub listened : ServerConfig → Bytes
listened server = if is_empty server.listen_control then server.listen else server.listen_control

-- The two programs hold clients to the same list.
pub check_against_allowed_clients_sound :
    (allowed : List Bytes) (id : Bytes)
    → check_against_allowed_clients allowed id ≡ ok tt
    → check_identifier allowed id ≡ true
unfolding check_against_allowed_clients check_identifier
check_against_allowed_clients_sound [] id e = refl
check_against_allowed_clients_sound (c ∷ cs) id e = ground arith

abbrev pub only_rule : Proto.HttpRewriteRule
only_rule = record { from = bytes "/"; to = bytes "/" }

pub is_empty_of_ne : (s : Bytes) → s ≢ [] → is_empty s ≡ false
is_empty_of_ne [] ne = absurd (ne refl)
is_empty_of_ne (c ∷ s) ne = refl

-- The connection config that a client with a generated configuration sends.
abbrev pub sent_config : ClientConfigOptions → ConnectionConfig
sent_config opts = record {
  http = record {
    domain = opts.domain;
    target = or_default default_generated_target opts.target;
    rewrite = only_rule ∷ [];
  };
}

pub or_default_twice : (d v : Bytes) → or_default d (or_default d v) ≡ or_default d v
or_default_twice [] [] = refl
or_default_twice (c ∷ d) [] = refl
or_default_twice _ (c ∷ v) = refl

pub has_target : (target : Bytes) → is_empty (or_default default_generated_target target) ≡ false
has_target [] = refl
has_target (c ∷ s) = refl

module _ (re : Regexp) where
  open re use {Regex, compile, match_string}

  pub match_allowed_hosts_sound :
      (hosts : List Bytes) (domain : Bytes) (rs : List Regex)
      → match_allowed_hosts re hosts domain ≡ ok tt
      → compile_all re hosts ≡ some rs
      → Any (λ r. match_string r domain ≡ true) rs
  unfolding match_allowed_hosts compile_all
  match_allowed_hosts_sound [] domain rs e f = absurd (ground arith)
  match_allowed_hosts_sound (h ∷ hs) domain rs e f = elim (Option-cases (compile h)) [
    | inl n ↦ absurd (ground arith)
    | inr (r, c) ↦ elim (Option-cases (compile_all re hs)) [
      | inl n ↦ absurd (ground arith)
      | inr (qs, d) ↦
          let same : r ∷ qs ≡ rs = ground arith in
          elim (Bool-cases (match_string r domain)) [
            | inl y ↦ subst (Any (λ x. match_string x domain ≡ true)) same (inl y)
            | inr n ↦
                subst (Any (λ x. match_string x domain ≡ true)) same
                  (inr (match_allowed_hosts_sound hs domain qs (ground arith) d))
          ]
    ]
  ]

  pub check_against_allowed_hosts_sound :
      (hosts : List Bytes) (domain : Bytes) (rs : List Regex)
      → check_against_allowed_hosts re hosts domain ≡ ok tt
      → compile_all re hosts ≡ some rs
      → Any (λ r. match_string r domain ≡ true) rs
  unfolding check_against_allowed_hosts
  check_against_allowed_hosts_sound [] domain rs e f = absurd (ground arith)
  check_against_allowed_hosts_sound (h ∷ hs) domain rs e f =
      match_allowed_hosts_sound (h ∷ hs) domain rs e f
