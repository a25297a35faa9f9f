-- ===== src/WebSocket/Examples.antt =====
-- A configuration, a connection, and the theorems at concrete arguments.
use autobahn_python.Base.{
  ℕ, Bool, ◌+◌, ◌≤◌, Octets, List, [], ◌∷◌, ◌++◌, All, length, drop, true, false, none, some, ◌≡◌,
  refl, ◌↔◌, arith, Result, ok, inr, be,
}
use mathlib.Core.Bool.{true≢false}
use autobahn_python.WebSocket.Conn.{
  Conn, got_pong, got_auto_pong, opened, closing, inside_message_frame, Config, World, is_closed,
}
use autobahn_python.WebSocket.Xor.{
  null, simple, shifted, process, mask_array, pointer, create_xor_masker, simple_loop,
}
use autobahn_python.WebSocket.Xor.Laws.{process-shifted_simple, unmask_chunks, process_chunks}
use autobahn_python.WebSocket.Utf8.{fresh, validate}
use autobahn_python.WebSocket.Utf8.Chunks.{validate-append, summary, second_chunk}
use autobahn_python.WebSocket.Utf8.Encode.{IsScalar, encode_all}
use autobahn_python.WebSocket.Utf8.Scalar.{accepted, validate-iff_encoded}
use autobahn_python.WebSocket.Frame.{opening, first_octet, length_octets, extension_len, mask_len}
use autobahn_python.WebSocket.Frame.RoundTrip.{header_received, masked}
use autobahn_python.WebSocket.Frame.Travel.{Sends, send_frame-Sends}
use autobahn_python.WebSocket.Send.{send_data, send_frame, send}
use autobahn_python.WebSocket.Send.Order.{outgoing, outgoing-send_data, outgoing-send}
use autobahn_python.WebSocket.Send.Quiet.{resolves, messages}
use autobahn_python.WebSocket.Close.{send_close, encode_truncate, on_open_handshake_timeout}
use autobahn_python.WebSocket.Close.Sent.{send_close_once}
use autobahn_python.WebSocket.Close.Truncate.{encode_truncate_le}
use autobahn_python.WebSocket.Close.Sound.{IsSound}
use autobahn_python.WebSocket.Header.{frame_header, opening_checks, control_checks, data_checks}
use autobahn_python.WebSocket.Receive.{on_pong}
use autobahn_python.WebSocket.Receive.Pong.{ping_payload, pong_reports_ping}
use autobahn_python.WebSocket.Header.Checks.{
  any_fault, IsLegal, IsDropped, opening_checks-iff_IsLegal, illegal_opening_drops,
}
use autobahn_python.WebSocket.Process.{data_received, process_opening}
use autobahn_python.WebSocket.Process.Total.{Returns, data_received-total}
use autobahn_python.WebSocket.Process.Safety.{failed_delivers_nothing}
use autobahn_python.WebSocket.Life.{connection_made, connection_lost}
use autobahn_python.WebSocket.Run.{
  lost, open_timer, made, after, reachable-IsSound, connection_lost_closes,
}

abbrev server_config : Config
server_config = record {
  is_server = true;
  has_proxy = false;
  require_masked_client_frames = true;
  accept_masked_server_frames = false;
  mask_client_frames = true;
  mask_server_frames = false;
  apply_mask = true;
  utf8validate_incoming = true;
  fail_by_drop = true;
  echo_close_code_reason = false;
  auto_ping_restart_on_any_traffic = true;
  max_frame_payload_size = 0;
  max_message_payload_size = 0;
  auto_fragment_size = 0;
  open_handshake_timeout = 5;
  close_handshake_timeout = 1;
  server_connection_drop_timeout = 1;
  auto_ping_interval = 0;
  auto_ping_timeout = 0;
  auto_ping_size = 12;
}

abbrev test_world : World
test_world = record { getrandbits = λ n. n; time_ns = λ n. n; urandom = λ n k. [] }

-- A handshake that waits.
abbrev waiting : Conn → Result (Unit {0}) × Conn
waiting c = (ok tt, c)

abbrev new_conn : Conn
new_conn = connection_made server_config test_world 13

abbrev open_conn : Conn
open_conn = record new_conn { state = opened }

abbrev failed_conn : Conn
failed_conn = record new_conn { state = closing; cl = record new_conn.cl { failed_by_me = true } }

-- A text frame with the payload "a", masked with the octets 1, 2, 3 and 4.
abbrev text_frame : Octets
text_frame = 0x81 ∷ 0x81 ∷ 1 ∷ 2 ∷ 3 ∷ 4 ∷ 0x60 ∷ []

reachable-IsSound_example : IsSound (connection_lost none (on_open_handshake_timeout new_conn))
reachable-IsSound_example =
    reachable-IsSound waiting server_config test_world 13
      (connection_lost none (on_open_handshake_timeout new_conn)) (λ d p. p)
      (after (after made open_timer) (lost none))

data_received-total_example : Returns (data_received waiting text_frame open_conn)
unfolding connection_made
data_received-total_example = data_received-total waiting text_frame open_conn (λ d w. w) tt

failed_returns : Returns (data_received waiting text_frame failed_conn)
unfolding connection_made
failed_returns = data_received-total waiting text_frame failed_conn (λ d w. w) tt

failed_delivers_nothing_example :
    (failed_returns.0.1.cl.failed_by_me ≡ true)
    × (messages failed_returns.0.1.log ≡ messages failed_conn.log)
failed_delivers_nothing_example =
    failed_delivers_nothing waiting text_frame failed_conn failed_returns.0 (inr refl) refl
      failed_returns.1.0

header_received_example :
    let o = opening (first_octet true 0 1) 254 in
    let rest : Octets = 0 ∷ 200 ∷ 1 ∷ 2 ∷ 3 ∷ 4 ∷ 5 ∷ [] in
    (frame_header o rest ≡ record {
      opcode = 1;
      fin = true;
      rsv = 0;
      length_field = 200;
      mask = some (1 ∷ 2 ∷ 3 ∷ 4 ∷ []);
    })
    × (drop (extension_len o + mask_len o) rest ≡ 5 ∷ [])
unfolding length_octets be
header_received_example =
    header_received true 0 1 (some (1 ∷ 2 ∷ 3 ∷ 4 ∷ [])) 200 (5 ∷ []) (omega arith) (omega arith)
      (masked refl) (omega arith) 254 (0 ∷ 200 ∷ []) refl

-- It masks what it sends.
abbrev open_client : Conn
open_client = record open_conn { cfg = record server_config { is_server = false } }

send_frame-Sends_example :
    Sends 2 true 0
      (5 ∷ 6 ∷ [])
      open_conn
      open_client
      (send_frame 2 (5 ∷ 6 ∷ []) true 0 none none none false open_client)
unfolding connection_made
send_frame-Sends_example =
    send_frame-Sends 2 (5 ∷ 6 ∷ []) true 0 false none open_client open_conn (omega arith)
      (omega arith) (omega arith) (omega arith, (omega arith, tt)) refl refl

opening_checks-iff_IsLegal_example :
    (any_fault (opening_checks server_config none false (opening 0x81 0x81)) ≡ false)
    ↔ IsLegal server_config none false (opening 0x81 0x81)
opening_checks-iff_IsLegal_example =
    opening_checks-iff_IsLegal server_config none false (opening 0x81 0x81)

-- Reserved bits are set.
reserved_is_illegal : ¬ IsLegal server_config none false (opening 0xf1 0x81)
unfolding opening_checks control_checks data_checks opening
reserved_is_illegal p =
    true≢false ((opening_checks-iff_IsLegal server_config none false (opening 0xf1 0x81)).1 p)

illegal_opening_drops_example :
    ((process_opening (0xf1 ∷ 0x81 ∷ 1 ∷ []) open_conn).0 ≡ ok false)
    × IsDropped (process_opening (0xf1 ∷ 0x81 ∷ 1 ∷ []) open_conn).1
unfolding connection_made
illegal_opening_drops_example =
    illegal_opening_drops 0xf1 0x81 (1 ∷ []) open_conn reserved_is_illegal refl refl

validate-iff_encoded_example :
    (accepted (validate fresh (0xc3 ∷ 0xa9 ∷ [])).0 ≡ true)
    ↔ ((vs : List ℕ) × All IsScalar vs × (encode_all vs ≡ 0xc3 ∷ 0xa9 ∷ []))
validate-iff_encoded_example =
    validate-iff_encoded (0xc3 ∷ 0xa9 ∷ []) (omega arith, (omega arith, tt))

validate-append_example :
    summary (validate fresh ((0xc3 ∷ []) ++ (0xa9 ∷ [])))
    ≡ summary (second_chunk (0xa9 ∷ []) (validate fresh (0xc3 ∷ [])))
validate-append_example = validate-append fresh (0xc3 ∷ []) (0xa9 ∷ [])

unmask_chunks_example :
    process_chunks (create_xor_masker (1 ∷ 2 ∷ 3 ∷ 4 ∷ []) (some 200)) ((4 ∷ []) ∷ (4 ∷ []) ∷ [])
    ≡ 5 ∷ 6 ∷ []
unfolding create_xor_masker process simple_loop
unmask_chunks_example =
    unmask_chunks (1 ∷ 2 ∷ 3 ∷ 4 ∷ []) 2 200 (5 ∷ 6 ∷ []) ((4 ∷ []) ∷ (4 ∷ []) ∷ [])
      (omega arith, (omega arith, (omega arith, (omega arith, tt))))
      (omega arith, (omega arith, tt)) refl

process-shifted_simple_example :
    ((process (shifted 3 (mask_array (1 ∷ 2 ∷ 3 ∷ 4 ∷ []))) (5 ∷ 6 ∷ [])).0
      ≡ (process (simple 3 (1 ∷ 2 ∷ 3 ∷ 4 ∷ [])) (5 ∷ 6 ∷ [])).0)
    × (pointer (process (shifted 3 (mask_array (1 ∷ 2 ∷ 3 ∷ 4 ∷ []))) (5 ∷ 6 ∷ [])).1
        ≡ pointer (process (simple 3 (1 ∷ 2 ∷ 3 ∷ 4 ∷ [])) (5 ∷ 6 ∷ [])).1)
process-shifted_simple_example = process-shifted_simple (1 ∷ 2 ∷ 3 ∷ 4 ∷ []) 3 (5 ∷ 6 ∷ [])

outgoing-send_data_example :
    outgoing (send_data (1 ∷ 2 ∷ 3 ∷ []) false (some 2) open_conn)
    ≡ outgoing open_conn ++ (1 ∷ 2 ∷ 3 ∷ [])
outgoing-send_data_example = outgoing-send_data (1 ∷ 2 ∷ 3 ∷ []) false (some 2) open_conn refl

abbrev queueing_conn : Conn
queueing_conn = record open_conn { send_queue = (1 ∷ [], true) ∷ (2 ∷ [], false) ∷ [] }

outgoing-send_example : outgoing (send queueing_conn) ≡ outgoing queueing_conn
outgoing-send_example = outgoing-send queueing_conn refl

open_conn-IsSound : IsSound open_conn
unfolding connection_made
open_conn-IsSound = record { resolved_once = refl; failed_not_open = λ e. absurd (cc) }

connection_lost_closes_example :
    (is_closed (connection_lost none open_conn).state ≡ true)
    × (resolves (connection_lost none open_conn).log ≡ 1)
connection_lost_closes_example = connection_lost_closes none open_conn open_conn-IsSound

encode_truncate_le_example : length (encode_truncate (0x61 ∷ 0x62 ∷ 0xc3 ∷ 0xa9 ∷ []) 3) ≤ 3
encode_truncate_le_example = encode_truncate_le (0x61 ∷ 0x62 ∷ 0xc3 ∷ 0xa9 ∷ []) 3

send_close_once_example :
    let r = send_close (some 1000) (some (0x61 ∷ [])) open_conn in
    (r.0 ≡ ok tt)
    × (r.1.state ≡ closing)
    × (r.1.cl.closed_by_me ≡ true)
    × (r.1.cl.local_close_code ≡ some 1000)
    × (r.1.cl.local_close_reason ≡ some (encode_truncate (0x61 ∷ []) 123))
    × (send_close (some 1000) (some (0x61 ∷ [])) r.1 ≡ (ok tt, r.1))
send_close_once_example = send_close_once 1000 (0x61 ∷ []) open_conn refl refl

-- A frame of three octets has room for two of them.
abbrev streaming_conn : Conn
streaming_conn = record open_conn {
  tx = record open_conn.tx {
    send_state = inside_message_frame;
    send_message_frame_length = 3;
    send_message_frame_masker = null 1;
  };
}

-- An automatic ping is pending.
abbrev pinging_conn : Conn
pinging_conn = record open_conn {
  timers = record open_conn.timers {
    auto_ping_timeout_call = true;
    auto_ping_pending = some (ping_payload 5 1 (7 ∷ []));
  };
}

pong_reports_ping_example :
    let p = ping_payload 5 1 (7 ∷ []) in
    let d = on_pong p pinging_conn in
    (d.log
      ≡ got_pong p
        ∷ got_auto_pong 5 1 (pinging_conn.world.time_ns pinging_conn.clock_reads) p
        ∷ pinging_conn.log)
    × (d.timers.auto_ping_timeout_call ≡ false)
    × (d.timers.auto_ping_pending ≡ none)
pong_reports_ping_example =
    pong_reports_ping 5 1 (7 ∷ []) pinging_conn (omega arith) (omega arith) refl
