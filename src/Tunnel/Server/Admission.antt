-- ===== src/Tunnel/Server/Admission.antt =====
-- Which control requests are let in: the checks of `checkConnect` against what they mean.
use mylittleproxy.Base.{
  Bytes, ◌≡◌, refl, ◌↔◌, ◌⊎◌, inl, inr, true, Option, some, List, [], ◌∷◌, arith, ◌==◌, eq_iff, ok,
  Option-cases, any, any_iff, IsIn, subst, Any,
}
use mylittleproxy.Proto
use mylittleproxy.Proto.{ConnectionConfig, client_identifier_header, client_identifier_signature}
use mylittleproxy.Tunnel.Regexp.{Regexp}
use mylittleproxy.Tunnel.VirtualHosts.{HttpRewriteRule}
use mylittleproxy.Tunnel.Server.{Settings}
use mylittleproxy.Tunnel.Server.Handshake.{Sign, check_identifier_signature}
use mylittleproxy.Tunnel.Server.Connect.{
  Request, check_identifier, check_host, convert_rules, admit, header_get,
}

IsIn-of_any : (id : Bytes) (cs : List Bytes) → (any (λ k. k == id) cs ≡ true) ↔ IsIn id cs
IsIn-of_any id [] = (λ e. cc, λ a. absurd a)
IsIn-of_any id (c ∷ cs) = ground (arith, IsIn-of_any id cs, eq_iff c id)

-- An empty list of clients admits everybody, any other list its members.
pub check_identifier_iff :
    (allowed : List Bytes) (id : Bytes)
    → (check_identifier allowed id ≡ true) ↔ ((allowed ≡ []) ⊎ IsIn id allowed)
unfolding check_identifier
check_identifier_iff [] id = (λ e. inl refl, λ e. refl)
check_identifier_iff (c ∷ cs) id = ground (arith, IsIn-of_any id cs, eq_iff c id)

module _ (re : Regexp) where
  open re use {Regex, compile, match_string}

  -- The compiled rules are the client's rules, one for one and in order.
  abbrev pub AreConverted : List Proto.HttpRewriteRule → List (HttpRewriteRule Regex) → Type 0
  AreConverted [] [] = Unit
  AreConverted [] (_ ∷ _) = ⊥
  AreConverted (_ ∷ _) [] = ⊥
  AreConverted (r ∷ rs) (c ∷ cs) =
      (compile r.from ≡ some c.re) × (c.replacement ≡ r.to) × AreConverted rs cs

  convert_rules_sound :
      (rs : List Proto.HttpRewriteRule) (cs : List (HttpRewriteRule Regex))
      → convert_rules re rs ≡ some cs
      → AreConverted rs cs
  unfolding convert_rules
  convert_rules_sound [] [] e = tt
  convert_rules_sound [] (c ∷ cs) e = absurd (ground arith)
  convert_rules_sound (r ∷ rs) cs e = elim (Option-cases (compile r.from)) [
    | inl n ↦ absurd (ground arith)
    | inr (x, c) ↦ elim (Option-cases (convert_rules re rs)) [
      | inl n ↦ absurd (ground arith)
      | inr (ys, d) ↦
          let same : record { re = x; replacement = r.to } ∷ ys ≡ cs = ground arith in
          subst (AreConverted (r ∷ rs)) same (c, refl, convert_rules_sound rs ys d)
    ]
  ]

  convert_rules_complete :
      (rs : List Proto.HttpRewriteRule) (cs : List (HttpRewriteRule Regex))
      → AreConverted rs cs
      → convert_rules re rs ≡ some cs
  unfolding convert_rules
  convert_rules_complete [] [] a = refl
  convert_rules_complete [] (c ∷ cs) a = absurd a
  convert_rules_complete (r ∷ rs) [] a = absurd a
  convert_rules_complete (r ∷ rs) (c ∷ cs) a = ground (arith, convert_rules_complete rs cs a.2)

  -- What a control request must be to be let in, with this domain and these rules.
  pub record IsAdmitted (sign : Sign) (decode : Bytes → Option ConnectionConfig)
      (c : Settings Regex) (r : Request) (domain : Bytes) (rules : List (HttpRewriteRule Regex))
      : Type 0 where
    pub method : r.method ≡ c.control_method
    pub allowed :
        (c.allowed_clients ≡ []) ⊎ IsIn (header_get client_identifier_header r) c.allowed_clients
    pub signed :
        header_get client_identifier_signature r
        ≡ sign (header_get client_identifier_header r) c.signature_key
    pub config : ConnectionConfig
    pub decoded : decode r.body ≡ some config
    pub named : config.http.domain ≡ domain
    pub host_allowed : Any (λ x. match_string x domain ≡ true) c.allowed_hosts
    pub converted : AreConverted config.http.rewrite rules

  module _ (sign : Sign) (decode : Bytes → Option ConnectionConfig) where
    pub admit_sound :
        (c : Settings Regex) (r : Request) (domain : Bytes) (rules : List (HttpRewriteRule Regex))
        → admit re sign decode c r ≡ ok (domain, rules)
        → IsAdmitted sign decode c r domain rules
    unfolding admit check_identifier_signature check_host
    admit_sound c r domain rules e = elim (Option-cases (decode r.body)) [
      | inl n ↦ absurd (ground arith)
      | inr (t, d) ↦ elim (Option-cases (convert_rules re t.http.rewrite)) [
        | inl n ↦ absurd (ground arith)
        | inr (cs, k) ↦ record {
          method = ground (arith, eq_iff r.method c.control_method);
          allowed = (check_identifier_iff _ _).0 (ground arith);
          signed = (eq_iff _ _).0 (ground arith);
          config = t;
          decoded = d;
          named = ground arith;
          host_allowed = (any_iff _ _).0 (ground arith);
          converted = convert_rules_sound t.http.rewrite rules (ground arith);
        }
      ]
    ]

    pub admit_complete :
        (c : Settings Regex) (r : Request) (domain : Bytes) (rules : List (HttpRewriteRule Regex))
        → IsAdmitted sign decode c r domain rules
        → admit re sign decode c r ≡ ok (domain, rules)
    unfolding admit check_identifier_signature check_host
    admit_complete c r domain rules a = ground (
      arith,
      eq_iff r.method c.control_method,
      (check_identifier_iff _ _).1 a.allowed,
      (eq_iff _ _).1 a.signed,
      a.decoded,
      a.named,
      (any_iff _ _).1 a.host_allowed,
      convert_rules_complete a.config.http.rewrite rules a.converted,
    )

    -- `checkConnect` lets a request in, up to the table of hosts, exactly if it has the control
    -- method, an allowed identifier with its signature, a body that decodes, an allowed domain, and
    -- rules that all compile; what goes on is that domain and those rules.
    pub admit_iff :
        (c : Settings Regex) (r : Request) (domain : Bytes) (rules : List (HttpRewriteRule Regex))
        → (admit re sign decode c r ≡ ok (domain, rules)) ↔ IsAdmitted sign decode c r domain rules
    admit_iff c r domain rules = (admit_sound c r domain rules, admit_complete c r domain rules)
