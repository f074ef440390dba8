-- ===== src/Tunnel/Server/Reach.antt =====
-- Everything that can change the state of a server, as one step relation: requests on either
-- listener, the goroutines that listen on control connections, and the exported methods, in any order
-- but one at a time. A handler holds no mutex from start to end and waits for the network, so a
-- server need not run this way; Threads has handlers that interleave.
use mylittleproxy.Base.{ℕ, Bytes, ◌≡◌, Option, List, lookup, ok, Bool-cases, inl, inr}
use mylittleproxy.Proto.{ConnectionConfig}
use mylittleproxy.Tunnel.Regexp.{Regexp}
use mylittleproxy.Tunnel.Errors.{Error}
use mylittleproxy.Tunnel.ClientState.{Channel}
use mylittleproxy.Tunnel.Callbacks.{Callback, add}
use mylittleproxy.Tunnel.VirtualHosts.{HttpRewriteRule, VirtualHosts, add_host, delete_host}
use mylittleproxy.Tunnel.VirtualHosts.AddHost.{add_host-IsWellFormed, delete_host-IsWellFormed}
use mylittleproxy.Tunnel.Server.{Server, Settings, initial}
use mylittleproxy.Tunnel.Server.Handshake.{Sign, HandshakeIo, listen_start, listen_fail}
use mylittleproxy.Tunnel.Server.Connect.{Request}
use mylittleproxy.Tunnel.Server.Exchange.{PublicIo}
use mylittleproxy.Tunnel.Server.Public.{
  public_handler, serve_http, control_listener, is_control_request,
}
use mylittleproxy.Tunnel.Server.Invariant.{IsConsistent}
use mylittleproxy.Tunnel.Server.Steps.{
  listen_start-IsConsistent, listen_fail-IsConsistent, check_connect-IsConsistent,
}
use mylittleproxy.Tunnel.Server.PublicSteps.{public_handler-IsConsistent}

module _ (re : Regexp) where
  open re use {Regex}

  module _ (sign : Sign) (decode : Bytes → Option ConnectionConfig) where
    -- One turn, from start to end, of a request, a goroutine or a caller. `listens` and `breaks` are the start of
    -- `listenControl` and its end, on any control object.
    pub data Step (s : Server Regex) : Server Regex → Type 0 where
      serves :
          (director : Option (Request → Request)) (h : HandshakeIo) (p : PublicIo) (r : Request)
          → Step s (serve_http re sign decode director h p r s).1
      controls : (h : HandshakeIo) (r : Request) → Step s (control_listener re sign decode h r s).1
      publishes :
          (director : Option (Request → Request)) (p : PublicIo) (r : Request)
          → Step s (public_handler re director p r s).1
      listens : (ct : ℕ) → Step s (listen_start ct s)
      breaks : (ct : ℕ) (e : Error) → Step s (listen_fail ct e s)
      on_connects :
          (id : Bytes) (fn : Option Callback)
          → Step s (record s { on_connect_callbacks = add id fn s.on_connect_callbacks })
      on_disconnects :
          (id : Bytes) (fn : Option Callback)
          → Step s (record s { on_disconnect_callbacks = add id fn s.on_disconnect_callbacks })
      adds_host :
          (host id : Bytes) (rules : List (HttpRewriteRule Regex)) (hosts : VirtualHosts Regex)
          → add_host host id rules s.virtual_hosts ≡ ok hosts
          → Step s (record s { virtual_hosts = hosts })
      deletes_host :
          (host : Bytes) → Step s (record s { virtual_hosts = delete_host host s.virtual_hosts })

    pub data Reach (s : Server Regex) : Server Regex → Type 0 where
      here : Reach s s
      next : {t u : Server Regex} → Reach s t → Step t u → Reach s u

    serve_http-IsConsistent :
        (director : Option (Request → Request)) (h : HandshakeIo) (p : PublicIo) (r : Request)
        (s : Server Regex)
        → IsConsistent s
        → IsConsistent (serve_http re sign decode director h p r s).1
    unfolding serve_http
    serve_http-IsConsistent director h p r s v = elim (Bool-cases (is_control_request re r s)) [
      | inl y ↦ rw (y, serve_http) (check_connect-IsConsistent re sign decode h r s v)
      | inr n ↦ rw (n, serve_http) (public_handler-IsConsistent re director p r s v)
    ]

    control_listener-IsConsistent :
        (h : HandshakeIo) (r : Request) (s : Server Regex)
        → IsConsistent s
        → IsConsistent (control_listener re sign decode h r s).1
    unfolding control_listener
    control_listener-IsConsistent h r s v = elim (Bool-cases (is_control_request re r s)) [
      | inl y ↦ rw (y, control_listener) (check_connect-IsConsistent re sign decode h r s v)
      | inr n ↦ rw (n, control_listener) v
    ]

    pub Step-IsConsistent : {s t : Server Regex} → Step s t → IsConsistent s → IsConsistent t
    Step-IsConsistent {s} (serves director h p r) v = serve_http-IsConsistent director h p r s v
    Step-IsConsistent {s} (controls h r) v = control_listener-IsConsistent h r s v
    Step-IsConsistent {s} (publishes director p r) v =
        public_handler-IsConsistent re director p r s v
    Step-IsConsistent {s} (listens ct) v = listen_start-IsConsistent ct s v
    Step-IsConsistent {s} (breaks ct e) v = listen_fail-IsConsistent ct e s v
    Step-IsConsistent (on_connects id fn) v = record {
      hosts = v.hosts;
      registered = v.registered;
      backed = v.backed;
    }
    Step-IsConsistent (on_disconnects id fn) v = record {
      hosts = v.hosts;
      registered = v.registered;
      backed = v.backed;
    }
    Step-IsConsistent {s} (adds_host host id rules hosts e) v = record {
      hosts = add_host-IsWellFormed host id rules s.virtual_hosts hosts v.hosts e;
      registered = v.registered;
      backed = v.backed;
    }
    Step-IsConsistent {s} (deletes_host host) v = record {
      hosts = delete_host-IsWellFormed host s.virtual_hosts v.hosts;
      registered = v.registered;
      backed = v.backed;
    }

    initial-IsConsistent : (c : Settings Regex) (ch : Option Channel) → IsConsistent (initial c ch)
    unfolding lookup
    initial-IsConsistent c ch = record {
      hosts = record { distinct = tt; one_host = λ h j x y p q same. cc };
      registered = λ id p e. absurd (cc);
      backed = λ id p e. absurd (cc);
    }

    Reach-keeps : {s t : Server Regex} → IsConsistent s → Reach s t → IsConsistent t
    Reach-keeps v here = v
    Reach-keeps v (next r st) = Step-IsConsistent st (Reach-keeps v r)

    -- As long as its handlers run one at a time, each from its start to its end, the network included,
    -- before the next begins, in every state that a new server reaches between them, by any sequence of
    -- control requests, public requests, turns of listening goroutines and calls of exported methods:
    -- each identifier has at most one host; and each registered control is open, carries the identifier that it is registered
    -- under, can encode, and has a session.
    pub Reach-IsConsistent :
        (c : Settings Regex) (ch : Option Channel) {s : Server Regex}
        → Reach (initial c ch) s
        → IsConsistent s
    Reach-IsConsistent c ch r = Reach-keeps (initial-IsConsistent c ch) r
