-- ===== src/Tunnel/Errors.antt =====
-- The errors of package tunnel, a constructor for each message. `io` stands for an error that the
-- network, a codec or another library reports.
use mylittleproxy.Base.{ℕ, Bytes, Bool, true, false}

pub data Error : Type 0 where
  io : Bytes → Error
  no_client_session : Error
  no_session_for : Bytes → Error
  control_closed : Error
  encoder_missing : Error
  nil_callback : Bytes → Error
  invalid_signature : Bytes → Error
  no_host_for : Bytes → Error
  control_exists : Bytes → Error
  no_hijacking : Error
  hijack_failed : Error → Error
  after_hijack : Error → Error
  writing_response : Error → Error
  setting_deadline : Error → Error
  session_timeout : Error
  handshake_aborted : Bytes → Error
  host_is_empty : Error
  no_virtual_host : Bytes → Error
  no_rewrite_rule : Error
  read_from_tunnel : Error → Error
  writing_upgrade_request : Error → Error
  reading_upgrade_response : Error → Error
  writing_upgrade_response : Error → Error
  forwarding_frames : Error → Error
  redial_aborted : Error
  no_server_addr : Error
  no_identifier : Error
  session_missing : Error
  creating_request : Error → Error
  writing_connect : Error → Error
  reading_connect : Error → Error
  tunnel_error : (status : ℕ) → (body : Bytes) → Error
  tunnel_error_unread : (status : ℕ) → Error → Error
  session_failed : Error → Error
  waiting_for_session : Error → Error
  opening_timeout : Error
  writing_handshake : Error → Error
  reading_handshake : Error → Error
  invalid_handshake : Bytes → Error
  decoding_control : Error → Error
  header_name_empty : Error
  header_name_invalid : Bytes → Error
  header_value_broken : Bytes → Error

-- `errors.Is(err, errAfterHijack)`: only `afterHijack` wraps that value; the other messages print
-- the inner error and do not wrap it.
abbrev pub is_after_hijack : Error → Bool
is_after_hijack (after_hijack _) = true
is_after_hijack _ = false
