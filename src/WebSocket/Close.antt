-- ===== src/WebSocket/Close.antt =====
-- Closing and failing: `sendCloseFrame`, `sendClose`, `dropConnection`, `_fail_connection`,
-- `_protocol_violation`, `_invalid_payload` and the timeout handlers of websocket/protocol.py, and
-- `encode_truncate` of util.py.
pub mod Truncate
pub mod Sound
pub mod Sent
use autobahn_python.Base.{
  ℕ, suc, ◌+◌, Octets, List, [], ◌∷◌, ◌++◌, Bool, true, false, ◌&&◌, ◌||◌, not, Option, none, some,
  ltb, leb, ◌==◌, if◌then◌else◌, be, take, length, is_some, Error, Result, ok, err, Exec, pure,
  raise, gets, modify, ◌>>=◌, ◌>>◌, when,
}
use autobahn_python.WebSocket.Conn.{
  Conn, State, closed, connecting, closing, opened, proxy_connecting, Config, Output,
  closed_transport, resolved_is_closed, Action, emit, is_closed, is_closing, self,
}
use autobahn_python.WebSocket.Conn.Texts.{
  Reason, i_dropped, server_drop_timeout, open_handshake_timeout, close_handshake_timeout,
  ping_timeout, reason_text,
}
use autobahn_python.WebSocket.Utf8.{next_state}
use autobahn_python.WebSocket.Send.{send_frame, send_simple, or_empty}

-- `s.decode('utf8', 'ignore').encode('utf8')` where `s` is cut from the UTF-8 of a text: the octets
-- of an incomplete code point at the end, held back in `held`, are left out.
unfoldable pub whole_code_points : ℕ → Octets → Octets → Octets
whole_code_points state held [] = []
whole_code_points state held (b ∷ bs) =
    let state' = next_state state b in
    let done = (held ++ b ∷ []) ++ whole_code_points 0 [] bs in
    let more = whole_code_points state' (held ++ b ∷ []) bs in if state' == 0 then done else more

-- `encode_truncate(text, limit)`, a text being given by its UTF-8.
unfoldable pub encode_truncate : Octets → ℕ → Octets
encode_truncate text limit =
    if ltb limit (length text) then whole_code_points 0 [] (take limit text) else text

-- The octets of a close frame; `struct.pack("!H", code)` raises for a code that does not fit.
unfoldable pub close_payload : Option ℕ → Option Octets → Option Octets
close_payload none reason = some (or_empty reason)
close_payload (some code) reason =
    if leb code 0xffff then some (be 2 code ++ or_empty reason) else none

-- What `sendCloseFrame` does once the frame is out.
unfoldable pub note_close_sent : Option ℕ → Option Octets → Bool → Conn → Conn
note_close_sent code reason is_reply c = record c {
  state = closing;
  cl = record c.cl {
    closed_by_me = not is_reply;
    local_close_code = code;
    local_close_reason = reason;
  };
  timers = record c.timers {
    close_handshake_timeout_call =
        (not is_reply && ltb 0 c.cfg.close_handshake_timeout)
        || c.timers.close_handshake_timeout_call;
  };
}

unfoldable pub send_close_octets :
    Option ℕ → Option Octets → Bool → Option Octets → Action (Unit {0})
send_close_octets code reason is_reply none = raise Error.struct_error
send_close_octets code reason is_reply (some payload) = do
  send_simple 8 payload
  modify (note_close_sent code reason is_reply)

unfoldable pub close_frame_in : State → Option ℕ → Option Octets → Bool → Action (Unit {0})
close_frame_in opened code reason is_reply =
    send_close_octets code reason is_reply (close_payload code reason)
close_frame_in connecting code reason is_reply = raise Error.not_yet_connected
close_frame_in proxy_connecting code reason is_reply = raise Error.not_yet_connected
close_frame_in closing code reason is_reply = pure tt
close_frame_in closed code reason is_reply = pure tt

-- `sendCloseFrame(code, reasonUtf8, isReply)`
unfoldable pub send_close_frame : Option ℕ → Option Octets → Bool → Action (Unit {0})
send_close_frame code reason is_reply = do c ← self; close_frame_in c.state code reason is_reply

abbrev pub truncated : Option Octets → Option Octets
truncated none = none
truncated (some text) = some (encode_truncate text 123)

abbrev pub may_send_code : ℕ → Bool
may_send_code code = code == 1000 || (leb 3000 code && leb code 4999)

-- `sendClose(code, reason)`; the tests of the arguments' types are left to the types here.
unfoldable pub send_close : Option ℕ → Option Octets → Action (Unit {0})
send_close none none = send_close_frame none none false
send_close none (some reason) = raise Error.reason_without_code
send_close (some code) reason =
    if may_send_code code
    then send_close_frame (some code) (truncated reason) false
    else raise Error.invalid_close_code

-- `dropConnection(abort)`
unfoldable pub drop_connection : Bool → Conn → Conn
drop_connection abort c =
    if is_closed c.state
    then c
    else emit (closed_transport abort) (
        emit resolved_is_closed
          (record c { state = closed; cl = record c.cl { dropped_by_me = true } }))

-- `wasClean = False`, with the reason.
unfoldable pub not_clean : Reason → Conn → Conn
not_clean reason c = record c {
  cl = record c.cl { was_clean = false; was_not_clean_reason = some reason };
}

unfoldable pub note_failed : Conn → Conn
note_failed c = record c { cl = record c.cl { failed_by_me = true } }

-- `_fail_connection(code, reason)`
unfoldable pub fail_connection : ℕ → Reason → Action (Unit {0})
fail_connection code reason = do
  c ← self
  (if is_closed c.state
      then pure tt
      else if c.cfg.fail_by_drop
      then modify (λ d. drop_connection true (not_clean (i_dropped reason) (note_failed d)))
      else if is_closing c.state
      then modify (λ d. drop_connection false (note_failed d))
      else (do
        modify note_failed
        send_close_frame (some code) (some (encode_truncate (reason_text reason) 123)) false))

abbrev pub protocol_error : ℕ
protocol_error = 1002

abbrev pub invalid_payload_code : ℕ
invalid_payload_code = 1007

abbrev pub message_too_big : ℕ
message_too_big = 1009

-- `_protocol_violation(reason)`; the result says whether to stop.
unfoldable pub protocol_violation : Reason → Action Bool
protocol_violation reason = do fail_connection protocol_error reason; gets (λ c. c.cfg.fail_by_drop)

unfoldable pub invalid_payload : Reason → Action Bool
invalid_payload reason = do
  fail_connection invalid_payload_code reason
  gets (λ c. c.cfg.fail_by_drop)

-- `_max_message_size_exceeded`
unfoldable pub max_message_size_exceeded : Reason → Action (Unit {0})
max_message_size_exceeded reason = fail_connection message_too_big reason

-- The handlers of the timers; a timer that has fired is no longer armed.
unfoldable pub on_server_connection_drop_timeout : Conn → Conn
on_server_connection_drop_timeout c =
    let c' = record c {
      timers = record c.timers { server_connection_drop_timeout_call = false };
    } in
    if is_closed c.state
    then c'
    else (let d = not_clean server_drop_timeout c' in
        drop_connection true
          (record d { cl = record d.cl { was_server_connection_drop_timeout = true } }))

unfoldable pub on_open_handshake_timeout : Conn → Conn
on_open_handshake_timeout c =
    let c' = record c { timers = record c.timers { open_handshake_timeout_call = false } } in
    let d = not_clean open_handshake_timeout c' in
    let dropped =
      drop_connection true (record d { cl = record d.cl { was_open_handshake_timeout = true } }) in
    elim c.state [ connecting ↦ dropped | proxy_connecting ↦ dropped | _ ↦ c' ]

unfoldable pub on_close_handshake_timeout : Conn → Conn
on_close_handshake_timeout c =
    let c' = record c { timers = record c.timers { close_handshake_timeout_call = false } } in
    if is_closed c.state
    then c'
    else (let d = not_clean close_handshake_timeout c' in
        drop_connection true (record d { cl = record d.cl { was_close_handshake_timeout = true } }))

unfoldable pub on_auto_ping_timeout : Conn → Conn
on_auto_ping_timeout c =
    let d = not_clean ping_timeout c in
    drop_connection true (record d { timers = record d.timers { auto_ping_timeout_call = false } })
