-- ===== src/Tunnel/Proxies/Http.antt =====
-- tunnel/httpproxy.go: a request that came through the tunnel is sent to the local server, and its
-- response back. What the local server and the tunnel do comes in as a value.
use mylittleproxy.Base.{
  Bytes, bytes, Bool, ◌&&◌, ◌||◌, nat_eq, not, Option, none, some, List, [], ◌∷◌, Map,
  if◌then◌else◌, is_empty,
}
use mylittleproxy.Proto
use mylittleproxy.Proto.{ControlMessage}
use mylittleproxy.Tunnel.Headers.{apply_custom_headers}
use mylittleproxy.Tunnel.Server.Connect.{Request}
use mylittleproxy.Tunnel.Server.Exchange.{Response}

-- `url.URL` as far as a target has it.
pub record Url : Type 0 where
  pub scheme : Bytes
  pub host : Bytes

-- A request for the local server: where it goes, and what is sent. net/http sends the URL's host in
-- the Host header where the request has none.
pub record LocalRequest : Type 0 where
  pub url : Url
  pub request : Request

unfoldable pub host_header : LocalRequest → Bytes
host_header l = if is_empty l.request.host then l.url.host else l.request.host

-- `patchRequest`; `parse` is `url.Parse`, and `none` is an error.
unfoldable pub patch_request :
    (parse : Bytes → Option Url) → (target : Bytes) → Map Bytes → Request → Option LocalRequest
patch_request parse target headers r = elim (parse target) [
  | none ↦ none
  | some u ↦
      some (record { url = u; request = apply_custom_headers headers (record r { host = [] }) })
]

-- What is written to the tunnel, and whether the proxy itself closes it.
pub data Answer : Type 0 where
  forwarded : Response → Answer
  unavailable : Answer

-- `http.ReadRequest` from the stream, `http.DefaultClient.Do`.
pub record ProxyIo : Type 0 where
  pub read_request : Option Request
  pub do_request : LocalRequest → Option Response

-- `noLocalServer`, which answers where the proxy has no `ErrorResp`.
abbrev pub no_local_server : Response
no_local_server = record { status = 503; header = []; body = bytes "no local server" }

-- What happens to the tunnel's stream: a response is written, or the stream is closed.
pub data RemoteEffect : Type 0 where
  wrote_response : Response → RemoteEffect
  closed_remote : RemoteEffect

-- `sendErrorResponse`; `renders` and `copies` say whether its two steps succeed. A response that is
-- copied in part is left out.
unfoldable pub send_error_response : (renders copies : Bool) → Response → List RemoteEffect
send_error_response renders copies resp =
    if renders && copies then wrote_response resp ∷ closed_remote ∷ [] else closed_remote ∷ []

-- `HTTPProxy.sendError`.
unfoldable pub send_error :
    (error_resp : Option Response) → (renders copies : Bool) → List RemoteEffect
unfolding send_error_response
send_error none renders copies = send_error_response renders copies no_local_server
send_error (some resp) renders copies = send_error_response renders copies resp

abbrev done : Option Response → Answer
done none = unavailable
done (some res) = forwarded res

abbrev sent_on : ProxyIo → Option LocalRequest → Answer
sent_on io none = unavailable
sent_on io (some l) = done (io.do_request l)

-- `HTTPProxy.Proxy`; `none` is the panic on a message of another protocol.
unfoldable pub http_proxy :
    (parse : Bytes → Option Url)
    → (target : Bytes) → Map Bytes
    → ProxyIo
    → ControlMessage
    → Option Answer
unfolding patch_request
http_proxy parse target headers io msg =
    if not (nat_eq msg.protocol Proto.http || nat_eq msg.protocol Proto.ws)
    then none
    else some (elim io.read_request [
      | none ↦ unavailable
      | some req ↦ sent_on io (patch_request parse target headers req)
    ])

-- What the answer does to the stream; `writes` says whether the response can be written. The caller,
-- `listenControl`, closes the stream of a forwarded response.
unfoldable pub deliver :
    (error_resp : Option Response) → (renders copies writes : Bool) → Answer → List RemoteEffect
unfolding send_error
deliver error_resp renders copies writes unavailable = send_error error_resp renders copies
deliver error_resp renders copies writes (forwarded res) =
    if writes then wrote_response res ∷ [] else []
