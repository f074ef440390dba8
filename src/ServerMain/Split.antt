-- ===== src/ServerMain/Split.antt =====
-- The listeners of a server program (server/listeners.go), and the defaults of its settings.
use mylittleproxy.Base.{
  Bytes, bytes, eq_iff, refl, ◌⊎◌, none, ◌≡◌, ◌≢◌, inl, inr, true, false, some, List, [], ◌∷◌,
  arith, Option-cases, Bool-cases, is_empty,
}
use mylittleproxy.AppConfig.{ServerConfig}
use mylittleproxy.Std.Net.{split_host_port}
use mylittleproxy.ServerMain.{or_default}
use mylittleproxy.ServerMain.Listeners.{
  is_all_interfaces, check_listen_addresses, check_listen_addresses_sound,
}
use mylittleproxy.ServerMain.Program.{
  HttpServer, Handler, whole_server, public_only, control_only, new_http_server, serve,
}

-- A host that does not stand for every interface.
pub record IsOneInterface (host : Bytes) : Type 0 where
  pub is_given : host ≢ []
  pub no_any : host ≢ bytes "0.0.0.0"
  pub no_any_v6 : host ≢ bytes "::"

-- Two addresses on different ports, or on two hosts neither of which stands for every interface; an
-- address without a port is left to the listener to refuse.
pub data AreApart (listen control : Bytes) : Type 0 where
  unread :
      (split_host_port listen ≡ none) ⊎ (split_host_port control ≡ none) → AreApart listen control
  on_ports :
      (h p k q : Bytes)
      → split_host_port listen ≡ some (h, p)
      → split_host_port control ≡ some (k, q)
      → p ≢ q
      → AreApart listen control
  on_hosts :
      (h p k q : Bytes)
      → split_host_port listen ≡ some (h, p)
      → split_host_port control ≡ some (k, q)
      → h ≢ k
      → IsOneInterface h
      → IsOneInterface k
      → AreApart listen control

all_interfaces-IsOneInterface :
    (host : Bytes) → is_all_interfaces host ≡ false → IsOneInterface host
unfolding is_all_interfaces
all_interfaces-IsOneInterface host n = record {
  is_given = λ e. ground (arith, e);
  no_any = λ e. ground (arith, eq_iff host (bytes "0.0.0.0"));
  no_any_v6 = λ e. ground (arith, eq_iff host (bytes "::"));
}

check_listen_addresses-AreApart :
    (listen control : Bytes)
    → control ≢ []
    → check_listen_addresses listen control ≡ true
    → AreApart listen control
check_listen_addresses-AreApart listen control ne e = elim (Option-cases (split_host_port listen)) [
  | inl n ↦ unread (inl n)
  | inr ((h, p), a) ↦ elim (Option-cases (split_host_port control)) [
    | inl n ↦ unread (inr n)
    | inr ((k, q), b) ↦ elim (check_listen_addresses_sound listen control h p k q a b ne e) [
      | inl differ ↦ on_ports h p k q a b differ
      | inr (differ, one, other) ↦
          on_hosts h p k q a b differ (all_interfaces-IsOneInterface h one)
            (all_interfaces-IsOneInterface k other)
    ]
  ]
]

-- A listener on an address, with 10 seconds for the headers of a request.
pub record Listens (l : HttpServer) (addr : Bytes) (handler : Handler) : Type 0 where
  pub at : l.addr ≡ addr
  pub serves : l.handler ≡ handler
  pub limited : l.read_header_timeout ≡ 10000000000

-- The listeners of a configuration: one for everything, or two on addresses that do not clash.
pub data IsSplit (c : ServerConfig) (servers : List HttpServer) : Type 0 where
  together :
      c.listen_control ≡ []
      → (l : HttpServer) → Listens l c.listen whole_server
      → servers ≡ l ∷ []
      → IsSplit c servers
  apart :
      c.listen_control ≢ []
      → AreApart c.listen c.listen_control
      → (control public : HttpServer) → Listens control c.listen_control control_only
      → Listens public c.listen public_only
      → servers ≡ control ∷ public ∷ []
      → IsSplit c servers

pub serve-IsSplit :
    (c : ServerConfig)
    → check_listen_addresses c.listen c.listen_control ≡ true
    → IsSplit c (serve c.listen c.listen_control)
unfolding serve new_http_server
serve-IsSplit c ok_addresses = elim (Bool-cases (is_empty c.listen_control)) [
  | inl y ↦
      together (ground arith) (new_http_server c.listen whole_server)
        (record { at = refl; serves = refl; limited = refl }) (rw (y, serve))
  | inr n ↦
      let named : c.listen_control ≢ [] = λ e. ground arith in
      apart named (check_listen_addresses-AreApart c.listen c.listen_control named ok_addresses)
        (new_http_server c.listen_control control_only) (new_http_server c.listen public_only)
        (record { at = refl; serves = refl; limited = refl })
        (record { at = refl; serves = refl; limited = refl }) (rw (n, serve))
]

-- What is used where a value may be left out.
pub data IsDefaulted (standard given : Bytes) : Bytes → Type 0 where
  kept : given ≢ [] → IsDefaulted standard given given
  filled : given ≡ [] → IsDefaulted standard given standard

pub or_default-IsDefaulted :
    (standard given : Bytes) → IsDefaulted standard given (or_default standard given)
or_default-IsDefaulted standard [] = filled refl
or_default-IsDefaulted standard (c ∷ given) = kept (λ e. cc)
