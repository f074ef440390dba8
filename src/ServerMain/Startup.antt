-- ===== src/ServerMain/Startup.antt =====
-- What a server program that serves has been through.
use mylittleproxy.Base.{
  Bytes, bytes, refl, ◌≡◌, inl, inr, false, Option, some, List, [], ◌∷◌, ok, arith, Result-cases,
  Option-cases, Bool-cases, subst,
}
use mylittleproxy.AppConfig.{ClientConfig, ServerConfig}
use mylittleproxy.Proto.{default_control_path, default_control_method}
use mylittleproxy.Tunnel.Regexp.{Regexp}
use mylittleproxy.Tunnel.ConfigFile.{get_config}
use mylittleproxy.Tunnel.Server.{Settings}
use mylittleproxy.ServerMain.{or_default, compile_all, new_server}
use mylittleproxy.ServerMain.Environment.{base_config, load_config}
use mylittleproxy.ServerMain.Listeners.{check_listen_addresses}
use mylittleproxy.ServerMain.Loading.{IsLoaded, load_config-IsLoaded}
use mylittleproxy.ServerMain.Program.{
  HttpServer, serve, file_result, Flags, MainIo, serving, printed, generate_client_config,
  run_server, main,
}
use mylittleproxy.ServerMain.Split.{IsSplit, serve-IsSplit, IsDefaulted, or_default-IsDefaulted}

module _ (re : Regexp) where
  open re use {Regex, compile}

  abbrev pub AreCompiled : List Bytes → List Regex → Type 0
  AreCompiled [] [] = Unit
  AreCompiled (h ∷ hs) (r ∷ rs) = (compile h ≡ some r) × AreCompiled hs rs
  AreCompiled _ _ = ⊥

  -- The settings that a configuration asks for.
  pub record AreSettings (c : ServerConfig) (s : Settings Regex) : Type 0 where
    pub same_key : s.signature_key ≡ c.signature_key
    pub same_clients : s.allowed_clients ≡ c.allowed_clients
    pub hosts_compiled : AreCompiled c.allowed_hosts s.allowed_hosts
    pub path : IsDefaulted (bytes "/_controlPath") c.control_path s.control_path
    pub method : IsDefaulted (bytes "POST") c.control_method s.control_method

  compile_all-AreCompiled :
      (hs : List Bytes) (rs : List Regex) → compile_all re hs ≡ some rs → AreCompiled hs rs
  unfolding compile_all
  compile_all-AreCompiled [] [] e = tt
  compile_all-AreCompiled [] (r ∷ rs) e = absurd (cc)
  compile_all-AreCompiled (h ∷ hs) rs e = elim (Option-cases (compile h)) [
    | inl n ↦ absurd (ground arith)
    | inr (r, n) ↦ elim (Option-cases (compile_all re hs)) [
      | inl m ↦ absurd (ground arith)
      | inr (rest, m) ↦
          let whole : r ∷ rest ≡ rs = ground arith in
          subst (AreCompiled (h ∷ hs)) whole (n, compile_all-AreCompiled hs rest m)
    ]
  ]

  new_server-AreSettings :
      (c : ServerConfig) (s : Settings Regex) → new_server re c ≡ some s → AreSettings c s
  unfolding new_server
  new_server-AreSettings c s e = elim (Option-cases (compile_all re c.allowed_hosts)) [
    | inl n ↦ absurd (ground arith)
    | inr (hosts, n) ↦
        let made : Settings Regex = record {
          signature_key = c.signature_key;
          allowed_hosts = hosts;
          allowed_clients = c.allowed_clients;
          control_path = or_default default_control_path c.control_path;
          control_method = or_default default_control_method c.control_method;
        } in
        let same : made ≡ s = ground arith in
        subst (AreSettings c) same (record {
          same_key = refl;
          same_clients = refl;
          hosts_compiled = compile_all-AreCompiled c.allowed_hosts hosts n;
          path = or_default-IsDefaulted default_control_path c.control_path;
          method = or_default-IsDefaulted default_control_method c.control_method;
        })
  ]

  run_server_serving :
      (c : ServerConfig) (settings : Settings Regex) (servers : List HttpServer)
      → run_server re c ≡ serving settings servers
      → (new_server re c ≡ some settings) × IsSplit c servers
  unfolding run_server
  run_server_serving c settings servers e = elim (Option-cases (new_server re c)) [
    | inl n ↦ absurd (ground arith)
    | inr (x, n) ↦ elim (Bool-cases (check_listen_addresses c.listen c.listen_control)) [
      | inr bad ↦ absurd (ground arith)
      | inl good ↦
          let same : serve c.listen c.listen_control ≡ servers = ground arith in
          (ground arith, subst (IsSplit c) same (serve-IsSplit c good))
    ]
  ]

  module _ (unmarshal : Bytes → Option ServerConfig) (unmarshal_list : Bytes → Option (List Bytes))
      (marshal : ClientConfig → Option Bytes) where
    -- The configuration of a program that serves: the file's, or Go's zero values where there is
    -- none, with the environment over it.
    pub record IsServing (io : MainIo) (settings : Settings Regex) (servers : List HttpServer)
        : Type 0 where
      pub base : ServerConfig
      pub config : ServerConfig
      pub read : base_config (file_result (get_config unmarshal io.file)) ≡ ok base
      pub loads :
          load_config unmarshal_list io.env (file_result (get_config unmarshal io.file)) ≡ ok config
      pub loaded : IsLoaded unmarshal_list io.env base config
      pub initialized : new_server re config ≡ some settings
      pub settled : AreSettings config settings
      pub split : IsSplit config servers

    -- A server program that serves was not asked to generate, and its configuration is the file's,
    -- or Go's zero values where there is no file, with the environment over it and nothing missing.
    -- It has that configuration's key and allowed clients, its allowed hosts compiled, and its
    -- control path and method or, where they are empty, "/_controlPath" and POST. It listens on one
    -- address for everything, or on two: the control address for control requests only, and the other
    -- for public requests only. The two differ in their ports, or in their hosts, and then neither
    -- host is empty, 0.0.0.0 or ::, unless one of them cannot be read as a host with a port. Headers
    -- have 10 seconds.
    pub main_serving :
        (flags : Flags) (io : MainIo) (settings : Settings Regex) (servers : List HttpServer)
        → main re unmarshal unmarshal_list marshal flags io ≡ serving settings servers
        → (flags.generate ≡ false) × IsServing io settings servers
    unfolding main
    main_serving flags io settings servers e =
        let file = file_result (get_config unmarshal io.file) in
        elim (Result-cases (load_config unmarshal_list io.env file)) [
          | inr (x, l) ↦ absurd (ground arith)
          | inl (c, l) ↦ elim (Bool-cases flags.generate) [
            | inl y ↦
                elim (Result-cases (generate_client_config re marshal io.writes c flags.gen_opts)) [
                  | inl (text, g) ↦ absurd (ground arith)
                  | inr (x, g) ↦ absurd (ground arith)
                ]
            | inr n ↦
                let ran : run_server re c ≡ serving settings servers = ground arith in
                let (made, split) = run_server_serving c settings servers ran in
                let (base, b, loaded) = load_config-IsLoaded unmarshal_list io.env file c l in
                (
                  n,
                  record {
                    base = base;
                    config = c;
                    read = b;
                    loads = l;
                    loaded = loaded;
                    initialized = made;
                    settled = new_server-AreSettings c settings made;
                    split = split;
                  },
                )
          ]
        ]

    -- A program that prints a configuration has loaded its own.
    pub main_printed :
        (flags : Flags) (io : MainIo) (text : Bytes)
        → main re unmarshal unmarshal_list marshal flags io ≡ printed text
        → (c : ServerConfig) × (load_config unmarshal_list io.env
              (file_result (get_config unmarshal io.file))
            ≡ ok c)
          × (generate_client_config re marshal io.writes c flags.gen_opts ≡ ok text)
    unfolding main run_server
    main_printed flags io text e =
        elim (Result-cases
          (load_config unmarshal_list io.env (file_result (get_config unmarshal io.file)))) [
            | inr (x, l) ↦ absurd (ground arith)
            | inl (c, l) ↦ elim (Bool-cases flags.generate) [
              | inl y ↦
                  elim (Result-cases
                    (generate_client_config re marshal io.writes c flags.gen_opts)) [
                      | inl (out, g) ↦ (c, l, ground arith)
                      | inr (x, g) ↦ absurd (ground arith)
                    ]
              | inr n ↦ absurd (ground arith)
            ]
          ]
