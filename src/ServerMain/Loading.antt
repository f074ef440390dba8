-- ===== src/ServerMain/Loading.antt =====
-- What a configuration that `loadConfig` returns without an error is.
use mylittleproxy.Base.{
  Bytes, ◌≡◌, ◌≢◌, false, Option, List, [], ◌∷◌, arith, ok, Result-cases, Bool-cases, is_empty, All,
  inl, inr, ap, ◌∙◌,
}
use mylittleproxy.AppConfig.{ServerConfig}
use mylittleproxy.Std.Text.{trim_space}
use mylittleproxy.ServerMain.Environment.{
  Env, overlay, env_debug, env_listen, env_listen_control, env_signature_key, env_allowed_hosts,
  env_allowed_clients, env_control_path, env_control_method, apply_env_bool, apply_env_list,
  trimmed_parts, apply_env, check_required_settings, FileResult, load_config, base_config,
}

-- Every part of a comma separated value is kept trimmed, and none is empty.
trimmed_parts-nonempty : (parts : List Bytes) → All (λ p. is_empty p ≡ false) (trimmed_parts parts)
unfolding trimmed_parts
trimmed_parts-nonempty [] = tt
trimmed_parts-nonempty (part ∷ parts) = elim (Bool-cases (is_empty (trim_space part))) [
  | inl y ↦ rw y (trimmed_parts-nonempty parts)
  | inr n ↦ rw n (n, trimmed_parts-nonempty parts)
]

module _ (unmarshal : Bytes → Option (List Bytes)) (env : Env) where
  -- The overlay of the environment over the file's settings, with nothing missing.
  pub record IsLoaded (file c : ServerConfig) : Type 0 where
    pub listen : c.listen ≡ overlay (env env_listen) file.listen
    pub listen_control : c.listen_control ≡ overlay (env env_listen_control) file.listen_control
    pub signature_key : c.signature_key ≡ overlay (env env_signature_key) file.signature_key
    pub control_path : c.control_path ≡ overlay (env env_control_path) file.control_path
    pub control_method : c.control_method ≡ overlay (env env_control_method) file.control_method
    pub debug : apply_env_bool env env_debug file.debug ≡ ok c.debug
    pub allowed_hosts :
        apply_env_list unmarshal env env_allowed_hosts file.allowed_hosts ≡ ok c.allowed_hosts
    pub allowed_clients :
        apply_env_list unmarshal env env_allowed_clients file.allowed_clients ≡ ok c.allowed_clients
    pub has_listen : c.listen ≢ []
    pub has_signature_key : c.signature_key ≢ []
    pub has_allowed_hosts : c.allowed_hosts ≢ []

  overlay-IsLoaded :
      (file c : ServerConfig)
      → apply_env unmarshal env file ≡ ok c
      → check_required_settings c ≡ ok c
      → IsLoaded file c
  unfolding apply_env check_required_settings
  overlay-IsLoaded file c e f = elim (Result-cases (apply_env_bool env env_debug file.debug)) [
    | inr (x, a) ↦ absurd (ground arith)
    | inl (debug, a) ↦
        elim (Result-cases (apply_env_list unmarshal env env_allowed_hosts file.allowed_hosts)) [
          | inr (x, b) ↦ absurd (ground arith)
          | inl (hosts, b) ↦
              elim (Result-cases
                (apply_env_list unmarshal env env_allowed_clients file.allowed_clients)) [
                  | inr (x, d) ↦ absurd (ground arith)
                  | inl (clients, d) ↦ record {
                    listen = ground arith;
                    listen_control = ground arith;
                    signature_key = ground arith;
                    control_path = ground arith;
                    control_method = ground arith;
                    debug = ground arith;
                    allowed_hosts = ground arith;
                    allowed_clients = ground arith;
                    has_listen = λ z. ground arith;
                    has_signature_key = λ z. ground arith;
                    has_allowed_hosts = λ z. ground arith;
                  }
                ]
        ]
  ]

  check_required_settings-eq : (o c : ServerConfig) → check_required_settings o ≡ ok c → o ≡ c
  unfolding check_required_settings
  check_required_settings-eq o c e = ground arith

  -- A configuration that loads is the file's, or Go's zero values where there is no file, with every
  -- variable that is set taking precedence; and its listen address, its signature key and its list
  -- of hosts are not empty. A file that cannot be read otherwise loads nothing.
  pub load_config-IsLoaded :
      (file : FileResult) (c : ServerConfig)
      → load_config unmarshal env file ≡ ok c
      → (base : ServerConfig) × (base_config file ≡ ok base) × IsLoaded base c
  unfolding load_config
  load_config-IsLoaded file c e = elim (Result-cases (base_config file)) [
    | inr (x, b) ↦ absurd (ground arith)
    | inl (base, b) ↦ elim (Result-cases (apply_env unmarshal env base)) [
      | inr (x, a) ↦ absurd (ground arith)
      | inl (o, a) ↦
          let checked : check_required_settings o ≡ ok c = ground arith in
          let same = check_required_settings-eq o c checked in
          (base, b, overlay-IsLoaded base c (a ∙ ap ok same) (rw same at checked))
    ]
  ]
