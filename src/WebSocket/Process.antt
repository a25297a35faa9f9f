-- ===== src/WebSocket/Process.antt =====
-- `onFrameEnd`, `processData`, `consumeData` and `_dataReceived` of websocket/protocol.py, and the
-- automatic ping.
pub mod Neutral
pub mod Stable
pub mod Updates
pub mod Handlers
pub mod Measure
pub mod Termination
pub mod Total
pub mod Safety
use autobahn_python.Base.{
  ℕ, zero, suc, ◌+◌, ◌-◌, ◌*◌, Octets, List, [], ◌∷◌, ◌++◌, Bool, true, false, ◌&&◌, ◌||◌, not,
  Option, none, some, ltb, leb, ◌==◌, if◌then◌else◌, be, unpack, take, drop, length, join, is_some,
  Error, Result, ok, err, Exec, pure, raise, gets, modify, ◌>>=◌, ◌>>◌, when,
}
use autobahn_python.WebSocket.Conn.{
  Conn, State, closed, connecting, closing, opened, proxy_connecting, Config, FrameHeader, Action,
  is_closed, is_opened, TrafficStats, call, end_decompress, self,
}
use autobahn_python.WebSocket.Conn.Texts
use autobahn_python.WebSocket.Xor.{Masker, pointer, process}
use autobahn_python.WebSocket.Frame.{Opening, opening, header_len, payload_length}
use autobahn_python.WebSocket.Send.{send_ping}
use autobahn_python.WebSocket.Close.{invalid_payload}
use autobahn_python.WebSocket.Message.{on_message_frame_end, on_message_end}
use autobahn_python.WebSocket.Header.{
  run_checks, opening_checks, length_checks, enter_frame, frame_header,
}
use autobahn_python.WebSocket.Receive.{
  on_frame_begin, on_frame_data, set_inside, cancel_auto_ping_timeout_call, process_control_frame,
}

unfoldable pub count_frame : Conn → Conn
count_frame c =
    if is_opened c.state
    then record c {
      stats = record c.stats {
        incoming_web_socket_frames = c.stats.incoming_web_socket_frames + 1;
      };
    }
    else c

unfoldable pub count_message : Conn → Conn
count_message c =
    if is_opened c.state
    then record c {
      stats = record c.stats {
        incoming_web_socket_messages = c.stats.incoming_web_socket_messages + 1;
      };
    }
    else c

unfoldable pub restart_auto_ping : Conn → Conn
restart_auto_ping c =
    if c.timers.auto_ping_timeout_call && c.cfg.auto_ping_restart_on_any_traffic
    then cancel_auto_ping_timeout_call c
    else c

unfoldable pub finish_decompress : Action (Unit {0})
finish_decompress = do
  c ← self
  (if c.rx.is_message_compressed then (do _ ← call end_decompress; pure tt) else pure tt)

-- A text must have ended on a code point; the result says whether to stop.
unfoldable pub check_text_end : Action Bool
check_text_end = do
  c ← self
  (if c.rx.utf8validate_incoming_current_message && not c.rx.utf8validate_last.ends_on_code_point
      then invalid_payload (Texts.utf8_ended_inside c.rx.utf8validate_last.total_index)
      else pure false)

unfoldable pub leave_frame : Conn → Conn
leave_frame c = record c { rx = record c.rx { current_frame = none } }

-- The end of the last frame of a message; the result says whether to stop.
unfoldable pub finish_message : Action Bool
finish_message = do
  finish_decompress
  stop ← check_text_end
  (if stop
      then pure true
      else (do modify count_message; modify on_message_end; modify (set_inside false); pure false))

unfoldable pub finish_data_frame : FrameHeader → Action Bool
finish_data_frame f = do
  modify count_frame
  modify on_message_frame_end
  modify restart_auto_ping
  (if f.fin then finish_message else pure false)

unfoldable pub finish_frame : FrameHeader → Action Bool
finish_frame f =
    if ltb 7 f.opcode then (do process_control_frame f; pure false) else finish_data_frame f

-- `onFrameEnd`; the result says whether to stop, in which case the frame is not left.
unfoldable pub on_frame_end : FrameHeader → Action Bool
on_frame_end f = do
  stop ← finish_frame f
  (if stop then pure true else (do modify leave_frame; pure false))

unfoldable pub has_data : Action Bool
has_data = gets (λ c. ltb 0 (length c.buffer))

-- With the complete header in the buffer.
unfoldable pub read_header : Opening → Octets → Action Bool
read_header o rest = do
  let l = payload_length o rest
  stop ← run_checks (length_checks o l)
  (if stop then pure false else (do
    modify (enter_frame o rest)
    on_frame_begin (frame_header o rest)
    more ← has_data
    pure (l == 0 || more)))

-- `processData` outside of a frame; the result says whether to go on with the buffer.
unfoldable pub process_opening : Octets → Action Bool
process_opening [] = pure false
process_opening (a ∷ []) = pure false
process_opening (b0 ∷ b1 ∷ rest) = do
  let o = opening b0 b1
  c ← self
  stop ← run_checks (opening_checks c.cfg c.per_message_compress c.rx.inside_message o)
  (if stop
      then pure false
      else if leb (header_len o) (length rest + 2)
      then read_header o rest
      else pure false)

-- The payload that is in the buffer is unmasked and taken off.
unfoldable pub take_payload : FrameHeader → Action Octets
take_payload f c =
    let rest = f.length_field - pointer c.rx.current_frame_masker in
    let (payload, masker) = process c.rx.current_frame_masker (take rest c.buffer) in
    (
      ok payload,
      record c { buffer = drop rest c.buffer; rx = record c.rx { current_frame_masker = masker } },
    )

unfoldable pub frame_complete : FrameHeader → Conn → Bool
frame_complete f c = pointer c.rx.current_frame_masker == f.length_field

-- With the unmasked payload.
unfoldable pub after_payload : FrameHeader → Octets → Action Bool
after_payload f payload = do
  stop ← on_frame_data f payload
  (if stop then pure false else (do
    complete ← gets (frame_complete f)
    stop' ← (if complete then on_frame_end f else pure false)
    (if stop' then pure false else has_data)))

-- `processData` inside a frame.
unfoldable pub process_payload : FrameHeader → Action Bool
process_payload f = do payload ← take_payload f; after_payload f payload

unfoldable pub process_in : Option FrameHeader → Action Bool
process_in none = do c ← self; process_opening c.buffer
process_in (some f) = process_payload f

-- `processData`
unfoldable pub process_data : Action Bool
process_data = do c ← self; process_in c.rx.current_frame

-- After a round of the loop: its exception, the further rounds, or the end.
unfoldable pub go_on :
    Result Bool → Option (Result (Unit {0}) × Conn) → Conn → Option (Result (Unit {0}) × Conn)
go_on (err e) rest c = some (err e, c)
go_on (ok more) rest c = if more && not (is_closed c.state) then rest else some (ok tt, c)

-- `while self.processData() and self.state != STATE_CLOSED: pass`; `none` is fuel that ran out.
unfoldable pub process_loop : ℕ → Conn → Option (Result (Unit {0}) × Conn)
process_loop zero c = none
process_loop (suc fuel) c =
    let (r, d) = process_data c in let rest = process_loop fuel d in go_on r rest d

-- Each round takes an octet off the buffer or leaves a frame.
abbrev pub enough : Conn → ℕ
enough c = 2 * length c.buffer + 2

-- `consumeData`: once the handshake is over: the loop in the states OPEN and CLOSING, and nothing in
-- the state CLOSED. What a derived class does in the other two states is not part of this function.
unfoldable pub consume_in :
    State → (Conn → Result (Unit {0}) × Conn) → Conn → Option (Result (Unit {0}) × Conn)
consume_in opened handshake c = process_loop (enough c) c
consume_in closing handshake c = process_loop (enough c) c
consume_in connecting handshake c = some (handshake c)
consume_in proxy_connecting handshake c = some (handshake c)
consume_in closed handshake c = some (ok tt, c)

unfoldable pub consume_data :
    (Conn → Result (Unit {0}) × Conn) → Conn → Option (Result (Unit {0}) × Conn)
consume_data handshake c = consume_in c.state handshake c

unfoldable pub receive_octets : Octets → Conn → Conn
receive_octets octets c =
    let n = length octets in
    let counted : TrafficStats = elim c.state [
      | opened ↦ record c.stats {
        incoming_octets_wire_level = c.stats.incoming_octets_wire_level + n;
      }
      | connecting ↦ record c.stats {
        preopen_incoming_octets_wire_level = c.stats.preopen_incoming_octets_wire_level + n;
      }
      | proxy_connecting ↦ record c.stats {
        preopen_incoming_octets_wire_level = c.stats.preopen_incoming_octets_wire_level + n;
      }
      | _ ↦ c.stats
    ] in
    record c { stats = counted; buffer = c.buffer ++ octets }

-- `_dataReceived`
unfoldable pub data_received :
    (Conn → Result (Unit {0}) × Conn) → Octets → Conn → Option (Result (Unit {0}) × Conn)
data_received handshake octets c = consume_data handshake (receive_octets octets c)

-- `_sendAutoPing`. What raises is not modelled: a negative count of random octets, and a time or a
-- sequence number that does not fit its field.
unfoldable pub send_auto_ping : Action (Unit {0})
send_auto_ping c =
    let sent = c.world.time_ns c.clock_reads in
    let seq = c.timers.auto_ping_pending_seq + 1 in
    let ping =
      be 8 sent ++ (be 4 seq ++ c.world.urandom c.random_draws (c.cfg.auto_ping_size - 12)) in
    (do
      send_ping (some ping)
      modify (λ d. record d {
        timers = record d.timers {
          auto_ping_timeout_call = ltb 0 d.cfg.auto_ping_timeout || d.timers.auto_ping_timeout_call;
        };
      }))
      (record c {
        clock_reads = c.clock_reads + 1;
        random_draws = c.random_draws + 1;
        timers = record c.timers {
          auto_ping_pending_call = false;
          auto_ping_pending_sent = some sent;
          auto_ping_pending_seq = seq;
          auto_ping_pending = some ping;
        };
      })
