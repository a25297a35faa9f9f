-- ===== src/WebSocket/Life.antt =====
-- The begin and the end of a connection: `_connectionMade` and `_connectionLost` of
-- websocket/protocol.py.
use autobahn_python.Base.{
  ℕ, Octets, [], ◌∷◌, ◌++◌, Bool, true, false, ◌&&◌, not, Option, none, some, ltb, if◌then◌else◌,
  ascii,
}
use autobahn_python.WebSocket.Conn.{
  Conn, closed, connecting, proxy_connecting, ground_state, Config, World, got_close,
  resolved_is_closed, emit, is_closed, TrafficStats,
}
use autobahn_python.WebSocket.Conn.Texts.{Reason, peer_dropped, transport_reason, reason_text}
use autobahn_python.WebSocket.Xor.{null}
use autobahn_python.WebSocket.Utf8.{fresh}
use autobahn_python.WebSocket.Receive.{nothing_yet}

abbrev pub no_traffic : TrafficStats
no_traffic = record {
  outgoing_octets_wire_level = 0;
  outgoing_octets_web_socket_level = 0;
  outgoing_octets_app_level = 0;
  outgoing_web_socket_frames = 0;
  outgoing_web_socket_messages = 0;
  incoming_octets_wire_level = 0;
  incoming_octets_web_socket_level = 0;
  incoming_octets_app_level = 0;
  incoming_web_socket_frames = 0;
  incoming_web_socket_messages = 0;
  preopen_outgoing_octets_wire_level = 0;
  preopen_incoming_octets_wire_level = 0;
}

-- `_connectionMade`. An attribute that the code assigns later, before it reads it, has a neutral
-- value here; so has the version, which the handshake sets.
unfoldable pub connection_made : Config → World → ℕ → Conn
connection_made cfg world version = record {
  cfg = cfg;
  world = world;
  websocket_version = version;
  per_message_compress = none;
  codec_calls = [];
  random_draws = 0;
  clock_reads = 0;
  state = if not cfg.is_server && cfg.has_proxy then proxy_connecting else connecting;
  buffer = [];
  send_queue = [];
  triggered = false;
  send_scheduled = false;
  rx = record {
    inside_message = false;
    is_message_compressed = false;
    current_frame = none;
    current_frame_masker = null 0;
    control_frame_data = [];
    message_is_binary = false;
    message_data = [];
    message_data_total_length = 0;
    frame_length = 0;
    frame_data = [];
    utf8validator = fresh;
    utf8validate_incoming_current_message = false;
    utf8validate_last = nothing_yet;
    was_max_frame_payload_size_exceeded = false;
    was_max_message_payload_size_exceeded = false;
  };
  cl = record {
    closed_by_me = false;
    failed_by_me = false;
    dropped_by_me = false;
    was_clean = false;
    was_not_clean_reason = none;
    was_server_connection_drop_timeout = false;
    was_open_handshake_timeout = false;
    was_close_handshake_timeout = false;
    was_serving_flash_socket_policy_file = false;
    local_close_code = none;
    local_close_reason = none;
    remote_close_code = none;
    remote_close_reason = none;
  };
  timers = record {
    server_connection_drop_timeout_call = false;
    open_handshake_timeout_call = ltb 0 cfg.open_handshake_timeout;
    close_handshake_timeout_call = false;
    auto_ping_timeout_call = false;
    auto_ping_pending_call = false;
    auto_ping_pending = none;
    auto_ping_pending_seq = 0;
    auto_ping_pending_sent = none;
  };
  tx = record {
    send_state = ground_state;
    send_message_opcode = 0;
    send_compressed = false;
    send_message_frame_length = 0;
    send_message_frame_mask = none;
    send_message_frame_masker = null 0;
  };
  stats = no_traffic;
  log = [];
}

unfoldable pub cancel_timers : Conn → Conn
cancel_timers c = record c {
  timers = record c.timers {
    server_connection_drop_timeout_call =
        c.cfg.is_server && c.timers.server_connection_drop_timeout_call;
    auto_ping_pending_call = false;
    auto_ping_timeout_call = false;
    open_handshake_timeout_call = false;
  };
}

unfoldable pub note_closed : Conn → Conn
note_closed c =
    if is_closed c.state then c else emit resolved_is_closed (record c { state = closed })

-- The reason text that the transport gave, if there is one and it is not empty.
unfoldable pub lost_reason : Option Octets → Reason
lost_reason none = peer_dropped
lost_reason (some []) = peer_dropped
lost_reason (some (b ∷ bs)) = transport_reason (b ∷ bs)

abbrev pub has_reason : Option Reason → Bool
has_reason none = false
has_reason (some _) = true

unfoldable pub note_reason : Option Octets → Conn → Conn
note_reason reason c =
    if not c.cl.dropped_by_me && not (has_reason c.cl.was_not_clean_reason)
    then record c { cl = record c.cl { was_not_clean_reason = some (lost_reason reason) } }
    else c

abbrev pub reason_or_none : Option Reason → Octets
reason_or_none none = ascii "None"
reason_or_none (some r) = reason_text r

unfoldable pub unclean_text : Option Reason → Octets
unclean_text r =
    ascii "connection was closed uncleanly (" ++ (0x22 ∷ (reason_or_none r ++ (0x22 ∷ ascii ")")))

-- `onClose` after the connection is lost
unfoldable pub report_close : Option Octets → Conn → Conn
report_close reason c =
    let d = note_reason reason c in
    if c.cl.was_serving_flash_socket_policy_file
    then c
    else if c.cl.was_clean
    then emit (got_close true c.cl.remote_close_code c.cl.remote_close_reason) c
    else emit (got_close false (some 1006) (some (unclean_text d.cl.was_not_clean_reason))) d

-- `_connectionLost(reason)`, with the text that the transport's reason has, if it has one.
unfoldable pub connection_lost : Option Octets → Conn → Conn
connection_lost reason c = report_close reason (note_closed (cancel_timers c))
