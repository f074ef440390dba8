-- ===== src/Tunnel/Proxies/Tests.antt =====
-- The local proxies on small inputs.
use mylittleproxy.Base.{Bytes, bytes, true, false, Option, some}
use mylittleproxy.Proto
use mylittleproxy.Proto.{ControlMessage, request_client_session}
use mylittleproxy.Tunnel.Server.Samples.{knock}
use mylittleproxy.Tunnel.Proxies.Http.{Url}
use mylittleproxy.Tunnel.Proxies.Ws.{WsIo}
use mylittleproxy.Tunnel.Proxies.Join as Joining
use mylittleproxy.Tunnel.Proxies.Join.{Join, copied, dst_closed}

abbrev target : Bytes
target = bytes "https://l.org"

abbrev url : Url
url = record { scheme = bytes "https"; host = bytes "l.org" }

-- A parser that knows one URL.
abbrev parse : Bytes → Option Url
parse s = some url

abbrev upgrading : WsIo
upgrading = record {
  read_request = some knock;
  dial = λ addr use_tls. some 3;
  write_request = true;
  buffered = bytes "x";
  copy_buffered = false;
}

abbrev upgrade_message : ControlMessage
upgrade_message = record { action = request_client_session; protocol = Proto.ws; local_port = 0 }

-- The copying to `a` has ended.
abbrev half : Join
half = record Joining.joined { to_a = copied }

abbrev closed_half : Join
closed_half = record half { to_a = dst_closed; a_closed = true }
