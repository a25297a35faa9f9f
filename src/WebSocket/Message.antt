-- ===== src/WebSocket/Message.antt =====
-- The callbacks of websocket/protocol.py while a message is received, in their own implementations
-- (`onMessageBegin` to `onMessageEnd`, `onPing`, `onPong`, `onCloseFrame`), and automatic pings.
use autobahn_python.Base.{
  ℕ, ◌+◌, Octets, [], ◌∷◌, ◌++◌, Bool, true, false, ◌&&◌, ◌||◌, not, Option, none, some, ltb, leb,
  ◌==◌, if◌then◌else◌, length, join, Error, pure, raise, modify, ◌>>=◌, ◌>>◌,
}
use autobahn_python.WebSocket.Conn.{
  Conn, State, closed, connecting, closing, opened, proxy_connecting, got_message, got_ping, Action,
  emit, is_opened, self,
}
use autobahn_python.WebSocket.Conn.Texts.{
  message_size_exceeded, partial_message_size_exceeded, frame_size_exceeded, invalid_close_code,
  invalid_close_reason,
}
use autobahn_python.WebSocket.Utf8.{fresh, validate}
use autobahn_python.WebSocket.Utf8.Scalar.{accepted}
use autobahn_python.WebSocket.Send.{send_pong}
use autobahn_python.WebSocket.Close.{
  send_close_frame, drop_connection, max_message_size_exceeded, protocol_violation, invalid_payload,
  truncated,
}

unfoldable pub on_message_begin : Bool → Conn → Conn
on_message_begin is_binary c = record c {
  rx = record c.rx {
    message_is_binary = is_binary;
    message_data = [];
    message_data_total_length = 0;
  };
}

-- `0 < limit < n`
abbrev pub exceeds : ℕ → ℕ → Bool
exceeds n limit = ltb 0 limit && ltb limit n

unfoldable pub start_frame_data : ℕ → Conn → Conn
start_frame_data n c = record c {
  rx = record c.rx {
    frame_length = n;
    frame_data = [];
    message_data_total_length = c.rx.message_data_total_length + n;
  };
}

unfoldable pub note_message_exceeded : Conn → Conn
note_message_exceeded c = record c {
  rx = record c.rx { was_max_message_payload_size_exceeded = true };
}

unfoldable pub note_frame_exceeded : Conn → Conn
note_frame_exceeded c = record c { rx = record c.rx { was_max_frame_payload_size_exceeded = true } }

unfoldable pub check_sizes : ℕ → Action (Unit {0})
check_sizes n = do
  c ← self
  let total = c.rx.message_data_total_length
  (if c.cl.failed_by_me
      then pure tt
      else if exceeds total c.cfg.max_message_payload_size
      then (do
        modify note_message_exceeded
        max_message_size_exceeded (message_size_exceeded total c.cfg.max_message_payload_size))
      else if exceeds n c.cfg.max_frame_payload_size
      then (do
        modify note_frame_exceeded
        max_message_size_exceeded (frame_size_exceeded n c.cfg.max_frame_payload_size))
      else pure tt)

-- `onMessageFrameBegin(length)`
unfoldable pub on_message_frame_begin : ℕ → Action (Unit {0})
on_message_frame_begin n = do modify (start_frame_data n); check_sizes n

unfoldable pub add_message_data : Octets → Conn → Conn
add_message_data payload c = record c {
  rx = record c.rx { message_data = c.rx.message_data ++ payload ∷ [] };
}

unfoldable pub add_frame_data : Octets → Conn → Conn
add_frame_data payload c = record c {
  rx = record c.rx { frame_data = c.rx.frame_data ++ payload ∷ [] };
}

unfoldable pub add_total : ℕ → Conn → Conn
add_total n c = record c {
  rx = record c.rx { message_data_total_length = c.rx.message_data_total_length + n };
}

unfoldable pub check_partial_size : Action (Unit {0})
check_partial_size = do
  c ← self
  let total = c.rx.message_data_total_length
  (if exceeds total c.cfg.max_message_payload_size
      then (do
        modify note_message_exceeded
        max_message_size_exceeded
            (partial_message_size_exceeded total c.cfg.max_message_payload_size))
      else pure tt)

-- `onMessageFrameData(payload)`
unfoldable pub on_message_frame_data : Octets → Action (Unit {0})
on_message_frame_data payload = do
  c ← self
  (if c.cl.failed_by_me
      then pure tt
      else if c.websocket_version == 0
      then (do
        modify (add_total (length payload))
        check_partial_size
        modify (add_message_data payload))
      else modify (add_frame_data payload))

-- `onMessageFrameEnd`, with `onMessageFrame`
unfoldable pub on_message_frame_end : Conn → Conn
on_message_frame_end c =
    let message =
      if c.cl.failed_by_me then c.rx.message_data else c.rx.message_data ++ c.rx.frame_data in
    record c { rx = record c.rx { message_data = message; frame_data = [] } }

-- `onMessageEnd`: the message goes to the application.
unfoldable pub on_message_end : Conn → Conn
on_message_end c =
    let c' = record c { rx = record c.rx { message_data = [] } } in
    if c.cl.failed_by_me
    then c'
    else emit (got_message (join c.rx.message_data) c.rx.message_is_binary) c'

unfoldable pub on_ping : Octets → Action (Unit {0})
on_ping payload = do
  modify (emit (got_ping payload))
  c ← self
  (if is_opened c.state then send_pong (some payload) else pure tt)

-- Reserved close codes; a code below 1000 or from 5000 on is invalid too.
abbrev pub is_invalid_close_code : ℕ → Bool
is_invalid_close_code code =
    ltb code 1000 || ((leb 1000 code && leb code 2999 && not (is_allowed code)) || leb 5000 code)
  where
    is_allowed : ℕ → Bool
    is_allowed k =
        k == 1000
        || (k == 1001
            || (k == 1002
                || (k == 1003
                    || (k == 1007
                        || (k == 1008
                            || (k == 1009
                                || (k == 1010 || (k == 1011 || (k == 1012 || k == 1013)))))))))

unfoldable pub set_remote : Option ℕ → Option Octets → Conn → Conn
set_remote code reason c = record c {
  cl = record c.cl { remote_close_code = code; remote_close_reason = reason };
}

unfoldable pub set_remote_code : Option ℕ → Conn → Conn
set_remote_code code c = record c { cl = record c.cl { remote_close_code = code } }

unfoldable pub set_remote_reason : Option Octets → Conn → Conn
set_remote_reason reason c = record c { cl = record c.cl { remote_close_reason = reason } }

-- The close code that was received; the result says whether to stop.
unfoldable pub check_close_code : Option ℕ → Action Bool
check_close_code none = do modify (set_remote_code none); pure false
check_close_code (some code) =
    if is_invalid_close_code code
    then (do
      stop ← protocol_violation (invalid_close_code code)
      (if stop then pure true else (do modify (set_remote_code (some 1000)); pure false)))
    else (do modify (set_remote_code (some code)); pure false)

-- The close reason, which must be UTF-8 and end on a code point.
unfoldable pub check_close_reason : Option Octets → Action Bool
check_close_reason none = pure false
check_close_reason (some reason) =
    if accepted (validate fresh reason).0
    then (do modify (set_remote_reason (some reason)); pure false)
    else invalid_payload invalid_close_reason

unfoldable pub set_clean : Bool → Conn → Conn
set_clean b c = record c { cl = record c.cl { was_clean = b } }

-- The peer's reply to a close frame of ours.
unfoldable pub close_replied : Conn → Conn
close_replied c =
    let c' =
      set_clean true
        (record c { timers = record c.timers { close_handshake_timeout_call = false } }) in
    if c.cfg.is_server
    then drop_connection true c'
    else if ltb 0 c.cfg.server_connection_drop_timeout
    then record c' { timers = record c'.timers { server_connection_drop_timeout_call = true } }
    else c'

-- The reply to a closing handshake that the peer began.
unfoldable pub reply_close : Action (Unit {0})
reply_close = do
  c ← self
  (if c.websocket_version == 0
      then send_close_frame none none true
      else if c.cfg.echo_close_code_reason
      then send_close_frame c.cl.remote_close_code (truncated c.cl.remote_close_reason) true
      else send_close_frame (some 1000) none true)

unfoldable pub drop_if_server : Conn → Conn
drop_if_server c = if c.cfg.is_server then drop_connection false c else c

-- The close frame by the state of the connection.
unfoldable pub close_in : State → Action Bool
close_in closing = do modify close_replied; pure false
close_in opened = do modify (set_clean true); reply_close; modify drop_if_server; pure false
close_in closed = do modify (set_clean false); pure false
close_in connecting = raise Error.logic_error
close_in proxy_connecting = raise Error.logic_error

unfoldable pub close_by_state : Action Bool
close_by_state = do c ← self; close_in c.state

-- `onCloseFrame(code, reasonRaw)`; `true` is the return of `True`, the result in all else is `None`.
unfoldable pub on_close_frame : Option ℕ → Option Octets → Action Bool
on_close_frame code reason = do
  modify (set_remote none none)
  stop ← check_close_code code
  (if stop
      then pure true
      else (do stop' ← check_close_reason reason; if stop' then pure true else close_by_state))
