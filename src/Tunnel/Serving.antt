-- ===== src/Tunnel/Serving.antt =====
-- `handleHTTP` of tunnel/server.go against `HTTPProxy.Proxy` of tunnel/httpproxy.go: what becomes of a
-- public request on its way to the local server and back.
use mylittleproxy.Base.{Bytes, ◌≡◌, Option, none, some, List, [], ◌∷◌, lookup, Bool, true}
use mylittleproxy.Proto
use mylittleproxy.Tunnel.Regexp.{Regexp}
use mylittleproxy.Tunnel.Server.{Server}
use mylittleproxy.Tunnel.Server.Connect.{Request, text}
use mylittleproxy.Tunnel.Server.Exchange.{Response, Writer}
use mylittleproxy.Tunnel.Proxies.Http.{
  Url, LocalRequest, host_header, Answer, RemoteEffect, deliver, ProxyIo,
}
use mylittleproxy.Tunnel.Proxies.Settle.{IsSameExchange}

-- The request that goes through the tunnel.
abbrev pub tunnelled : Bytes → Request → Request
tunnelled path r = record r { host = []; path = path }

-- A local server that gives `res` to this request on this path, whatever other headers come with it.
abbrev pub Answers : ProxyIo → Url → Bytes → Request → Response → Type 0
Answers io u path r res =
    (l : LocalRequest)
    → l.url ≡ u
    → host_header l ≡ u.host
    → IsSameExchange (tunnelled path r) l.request
    → io.do_request l ≡ some res

abbrev or_else : {A : Type 0} → Option A → Option A → Option A
or_else (some a) o = some a
or_else none o = o

-- A response to the public that is what the local server gave: its status, each of its headers and no
-- other, and its body.
pub record IsPassedOn (res : Response) (w : Writer) : Type 0 where
  pub same_status : w.status ≡ some res.status
  pub same_header : (k : Bytes) → lookup k w.header ≡ lookup k res.header
  pub same_body : w.body ≡ text res.body ∷ []

-- What the proxy does to the stream, where a response that it has can be written.
abbrev pub sent_back :
    (error_resp : Option Response) → (renders copies : Bool) → Option Answer → List RemoteEffect
sent_back error_resp renders copies none = []
sent_back error_resp renders copies (some answer) = deliver error_resp renders copies true answer
