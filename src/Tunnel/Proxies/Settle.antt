-- ===== src/Tunnel/Proxies/Settle.antt =====
-- What the local proxies do with a request and with the connections that they open.
use mylittleproxy.Base.{
  ℕ, Bytes, ◌≡◌, refl, ◌∙◌, ◌⊎◌, inl, inr, Bool, false, Option, some, [], ◌∷◌, Map, IsIn, ok,
  Bool-cases, is_empty,
}
use mylittleproxy.Proto
use mylittleproxy.Proto.{ControlMessage}
use mylittleproxy.Tunnel.Headers.{is_host, apply_custom_header, apply_custom_headers}
use mylittleproxy.Tunnel.Server.Connect.{Request}
use mylittleproxy.Tunnel.Proxies.Http.{Url, LocalRequest, host_header, patch_request}
use mylittleproxy.Tunnel.Proxies.Ws.{
  WsIo, joined, close_local, forward_upgrade, target_address, ws_proxy,
}

-- No entry is for the host.
abbrev pub NamesNoHost : Map Bytes → Type 0
NamesNoHost [] = Unit
NamesNoHost ((name, value) ∷ headers) = (is_host name ≡ false) × NamesNoHost headers

-- What custom headers leave alone.
pub record IsSameExchange (r s : Request) : Type 0 where
  pub same_method : s.method ≡ r.method
  pub same_path : s.path ≡ r.path
  pub same_body : s.body ≡ r.body

apply_custom_header-IsSameExchange :
    (name value : Bytes) (r : Request) → IsSameExchange r (apply_custom_header name value r)
unfolding apply_custom_header
apply_custom_header-IsSameExchange name value r = elim (Bool-cases (is_host name)) [
  | inl y ↦
      rw (y, apply_custom_header)
        (record { same_method = refl; same_path = refl; same_body = refl })
  | inr n ↦
      rw (n, apply_custom_header)
        (record { same_method = refl; same_path = refl; same_body = refl })
]

apply_custom_headers-IsSameExchange :
    (headers : Map Bytes) (r : Request) → IsSameExchange r (apply_custom_headers headers r)
unfolding apply_custom_headers
apply_custom_headers-IsSameExchange [] r = record {
  same_method = refl;
  same_path = refl;
  same_body = refl;
}
apply_custom_headers-IsSameExchange ((name, value) ∷ headers) r =
    let h = apply_custom_header-IsSameExchange name value r in
    let t = apply_custom_headers-IsSameExchange headers (apply_custom_header name value r) in
    record {
      same_method = t.same_method ∙ h.same_method;
      same_path = t.same_path ∙ h.same_path;
      same_body = t.same_body ∙ h.same_body;
    }

host-apply_custom_header :
    (name value : Bytes) (r : Request)
    → is_host name ≡ false
    → (apply_custom_header name value r).host ≡ r.host
unfolding apply_custom_header
host-apply_custom_header name value r n = rw (n, apply_custom_header)

host-apply_custom_headers :
    (headers : Map Bytes) (r : Request)
    → NamesNoHost headers
    → (apply_custom_headers headers r).host ≡ r.host
unfolding apply_custom_headers
host-apply_custom_headers [] r n = refl
host-apply_custom_headers ((name, value) ∷ headers) r (n, ns) =
    host-apply_custom_headers headers (apply_custom_header name value r) ns
    ∙ host-apply_custom_header name value r n

-- A request for a target that parses is sent to the scheme and host of the target, with its method,
-- path and body as they came; and names the target's host, whatever host it named before, unless a
-- custom header sets one.
pub patch_request_lem :
    (parse : Bytes → Option Url) (target : Bytes) (headers : Map Bytes) (r : Request) (u : Url)
    → parse target ≡ some u
    → (l : LocalRequest) × (patch_request parse target headers r ≡ some l)
      × (l.url ≡ u)
      × IsSameExchange r l.request
      × (NamesNoHost headers → host_header l ≡ u.host)
unfolding patch_request host_header
patch_request_lem parse target headers r u p =
    let s = apply_custom_headers headers (record r { host = [] }) in
    let k = apply_custom_headers-IsSameExchange headers (record r { host = [] }) in
    (
      record { url = u; request = s },
      rw (p, patch_request),
      refl,
      record { same_method = k.same_method; same_path = k.same_path; same_body = k.same_body },
      λ n. rw (host-apply_custom_headers headers (record r { host = [] }) n),
    )

forward_upgrade_settles :
    (io : WsIo) (local : ℕ)
    → IsIn (joined local) (forward_upgrade io local)
      ⊎ IsIn (close_local local) (forward_upgrade io local)
unfolding forward_upgrade
forward_upgrade_settles io local = elim (Bool-cases (is_empty io.buffered)) [
  | inl y ↦ rw (y, forward_upgrade) (inl (inl refl))
  | inr n ↦ elim (Bool-cases io.copy_buffered) [
    | inl y ↦ rw (n, y, forward_upgrade) (inl (inr (inl refl)))
    | inr m ↦ rw (n, m, forward_upgrade) (inr (inl refl))
  ]
]

-- A connection to the local server that is opened for a websocket is joined with the tunnel's, or is
-- closed; it is never left open alone.
pub ws_proxy_settles :
    (parse : Bytes → Option Url) (target : Bytes) (headers : Map Bytes) (io : WsIo)
    (msg : ControlMessage) (r : Request) (addr : Bytes) (use_tls : Bool) (local : ℕ)
    → msg.protocol ≡ Proto.ws
    → io.read_request ≡ some r
    → target_address parse target ≡ ok (addr, use_tls)
    → io.dial addr use_tls ≡ some local
    → IsIn (joined local) (ws_proxy parse target headers io msg)
      ⊎ IsIn (close_local local) (ws_proxy parse target headers io msg)
unfolding ws_proxy
ws_proxy_settles parse target headers io msg r addr use_tls local p q t d =
    elim (Bool-cases io.write_request) [
      | inl y ↦
          rw (p, q, t, d, y, ws_proxy)
            (elim (forward_upgrade_settles io local) [ inl a ↦ inl (inr a) | inr b ↦ inr (inr b) ])
      | inr n ↦ rw (p, q, t, d, n, ws_proxy) (inr (inl refl))
    ]
