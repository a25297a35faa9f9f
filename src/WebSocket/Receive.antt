-- ===== src/WebSocket/Receive.antt =====
-- Receiving: `onFrameBegin`, `onFrameData`, `_cancelAutoPingTimeoutCall` and `processControlFrame`
-- of websocket/protocol.py.
pub mod Pong
use autobahn_python.Base.{
  ℕ, zero, suc, ◌+◌, ◌-◌, ◌*◌, Octets, List, [], ◌∷◌, ◌++◌, Bool, true, false, ◌&&◌, ◌||◌, not,
  Option, none, some, ltb, leb, ◌==◌, if◌then◌else◌, be, unpack, take, drop, length, join, is_some,
  Error, Result, ok, err, Exec, pure, raise, gets, modify, ◌>>=◌, ◌>>◌, when,
}
use autobahn_python.WebSocket.Conn.{
  Conn, State, closed, connecting, closing, opened, proxy_connecting, Config, FrameHeader, Output,
  got_pong, got_auto_pong, Action, emit, is_closed, is_closing, is_opened, call, start_decompress,
  end_decompress, decompress, Codec, self,
}
use autobahn_python.WebSocket.Conn.Texts
use autobahn_python.WebSocket.Conn.Texts.{Reason}
use autobahn_python.WebSocket.Xor.{Masker, null, pointer, process, create_xor_masker}
use autobahn_python.WebSocket.Utf8.{Utf8Validator, Verdict, validate, reset, fresh}
use autobahn_python.WebSocket.Frame.{
  Opening, opening, extension_len, mask_len, header_len, payload_length, frame_mask, max_payload,
}
use autobahn_python.WebSocket.Send.{send_ping, or_empty, is_data_opcode}
use autobahn_python.WebSocket.Close.{protocol_violation, invalid_payload}
use autobahn_python.WebSocket.Message.{
  on_message_begin, on_message_frame_begin, on_message_frame_data, on_message_frame_end,
  on_message_end, on_ping, on_close_frame,
}

-- `utf8validateLast` at the begin of a text message
abbrev pub nothing_yet : Verdict
nothing_yet = record { valid = true; ends_on_code_point = true; current_index = 0; total_index = 0 }

unfoldable pub set_compressed : Bool → Conn → Conn
set_compressed b c = record c { rx = record c.rx { is_message_compressed = b } }

unfoldable pub begin_decompress : FrameHeader → Action (Unit {0})
begin_decompress f = do
  c ← self
  (if is_some c.per_message_compress && f.rsv == 4
      then (do modify (set_compressed true); _ ← call start_decompress; pure tt)
      else modify (set_compressed false))

unfoldable pub begin_utf8 : FrameHeader → Conn → Conn
begin_utf8 f c =
    if f.opcode == 1 && c.cfg.utf8validate_incoming
    then record c {
      rx = record c.rx {
        utf8validator = reset c.rx.utf8validator;
        utf8validate_incoming_current_message = true;
        utf8validate_last = nothing_yet;
      };
    }
    else record c { rx = record c.rx { utf8validate_incoming_current_message = false } }

unfoldable pub set_inside : Bool → Conn → Conn
set_inside b c = record c { rx = record c.rx { inside_message = b } }

unfoldable pub begin_message : FrameHeader → Action (Unit {0})
begin_message f = do
  modify (set_inside true)
  begin_decompress f
  modify (begin_utf8 f)
  modify (on_message_begin (f.opcode == 2))

unfoldable pub set_control_data : List Octets → Conn → Conn
set_control_data chunks c = record c { rx = record c.rx { control_frame_data = chunks } }

-- `onFrameBegin`
unfoldable pub on_frame_begin : FrameHeader → Action (Unit {0})
on_frame_begin f = if ltb 7 f.opcode then modify (set_control_data []) else (do
  c ← self
  when (not c.rx.inside_message) (begin_message f)
  on_message_frame_begin f.length_field)

unfoldable pub count_payload : ℕ → ℕ → Conn → Conn
count_payload compressed_len uncompressed_len c =
    if is_opened c.state
    then record c {
      stats = record c.stats {
        incoming_octets_web_socket_level =
            c.stats.incoming_octets_web_socket_level + compressed_len;
        incoming_octets_app_level = c.stats.incoming_octets_app_level + uncompressed_len;
      };
    }
    else c

unfoldable pub inflate : Octets → Action Octets
inflate payload = do
  c ← self
  (if c.rx.is_message_compressed then call (decompress payload) else pure payload)

unfoldable pub note_verdict : Verdict × Utf8Validator → Conn → Conn
note_verdict (w, v) c = record c { rx = record c.rx { utf8validator = v; utf8validate_last = w } }

-- Incremental validation of a text; the result says whether to stop.
unfoldable pub validate_payload : Octets → Action Bool
validate_payload payload = do
  c ← self
  let result = validate c.rx.utf8validator payload
  (if c.rx.utf8validate_incoming_current_message
      then (do
        modify (note_verdict result)
        (if result.0.valid
            then pure false
            else invalid_payload (Texts.invalid_utf8 result.0.total_index)))
      else pure false)

unfoldable pub add_control_data : Octets → Conn → Conn
add_control_data payload c = record c {
  rx = record c.rx { control_frame_data = c.rx.control_frame_data ++ payload ∷ [] };
}

-- `onFrameData(payload)`; the result says whether to stop.
unfoldable pub on_frame_data : FrameHeader → Octets → Action Bool
on_frame_data f payload =
    if ltb 7 f.opcode then (do modify (add_control_data payload); pure false) else (do
      plain ← inflate payload
      modify (count_payload (length payload) (length plain))
      stop ← validate_payload plain
      (if stop then pure true else (do on_message_frame_data plain; pure false)))

unfoldable pub arm_auto_ping : Conn → Conn
arm_auto_ping c = record c {
  timers = record c.timers {
    auto_ping_pending_call = ltb 0 c.cfg.auto_ping_interval || c.timers.auto_ping_pending_call;
  };
}

-- `_cancelAutoPingTimeoutCall`: a data frame stands in for the pong.
unfoldable pub cancel_auto_ping_timeout_call : Conn → Conn
cancel_auto_ping_timeout_call c = arm_auto_ping (record c {
  timers = record c.timers {
    auto_ping_timeout_call = false;
    auto_ping_pending = none;
    auto_ping_pending_call = false;
  };
})

unfoldable pub same_octets : Octets → Octets → Bool
same_octets [] [] = true
same_octets [] (_ ∷ _) = false
same_octets (_ ∷ _) [] = false
same_octets (x ∷ xs) (y ∷ ys) = x == y && same_octets xs ys

-- The pong to the pending automatic ping. `struct.unpack` of a payload that is too short raises, and
-- that is caught.
unfoldable pub auto_pong : Octets → Conn → Conn
auto_pong payload c =
    let pending = or_empty c.timers.auto_ping_pending in
    let sent = unpack (take 8 payload) in
    let received = c.world.time_ns c.clock_reads in
    let c' =
      emit (got_auto_pong sent (unpack (take 4 (drop 8 payload))) received payload) (record c {
        clock_reads = c.clock_reads + 1;
        timers = record c.timers {
          auto_ping_timeout_call = false;
          auto_ping_pending = none;
          auto_ping_pending_sent = none;
        };
      }) in
    if ltb 0 (length pending) && (same_octets payload pending && leb 12 (length payload))
    then arm_auto_ping c'
    else c

unfoldable pub on_pong : Octets → Conn → Conn
on_pong payload c = emit (got_pong payload) (auto_pong payload c)

-- The code and the reason in a close frame's payload.
unfoldable pub close_fields : Octets → Option ℕ × Option Octets
close_fields [] = (none, none)
close_fields (a ∷ []) = (none, none)
close_fields (a ∷ b ∷ []) = (some (unpack (a ∷ b ∷ [])), none)
close_fields (a ∷ b ∷ d ∷ ds) = (some (unpack (a ∷ b ∷ [])), some (d ∷ ds))

-- `processControlFrame`, whose result no caller reads.
unfoldable pub process_control_frame : FrameHeader → Action (Unit {0})
process_control_frame f = do
  c ← self
  let payload = join c.rx.control_frame_data
  modify (set_control_data [])
  (if f.opcode == 8
      then (do _ ← on_close_frame (close_fields payload).0 (close_fields payload).1; pure tt)
      else if f.opcode == 9
      then on_ping payload
      else if f.opcode == 10
      then modify (on_pong payload)
      else pure tt)
