-- ===== src/WebSocket/Conn/Texts.antt =====
-- The texts with which websocket/protocol.py fails or drops a connection.
use autobahn_python.Base.{
  ℕ, zero, suc, ◌+◌, ◌/◌, ◌%◌, Octets, [], ◌∷◌, ◌++◌, ◌==◌, if◌then◌else◌, ascii,
}

pub data Reason : Type 0 where
  rsv_without_extension : ℕ → Reason
  unmasked_client_frame masked_server_frame fragmented_control_frame : Reason
  control_frame_too_long : Reason
  reserved_control_opcode : ℕ → Reason
  close_frame_payload_one : Reason
  compressed_control_frame : Octets → Reason
  reserved_data_opcode : ℕ → Reason
  continuation_outside_message not_continuation_inside_message : Reason
  compressed_continuation : Octets → Reason
  not_minimal_length length_over_limit : Reason
  invalid_close_code : ℕ → Reason
  invalid_close_reason : Reason
  message_size_exceeded partial_message_size_exceeded frame_size_exceeded : ℕ → ℕ → Reason
  invalid_utf8 utf8_ended_inside : ℕ → Reason
  i_dropped : Reason → Reason
  server_drop_timeout open_handshake_timeout close_handshake_timeout ping_timeout : Reason
  peer_dropped : Reason
  transport_reason : Octets → Reason

-- Decimal digits; `n` rounds are enough for the number `n`.
decimal_loop : ℕ → ℕ → Octets → Octets
decimal_loop zero n acc = (48 + n) ∷ acc
decimal_loop (suc f) n acc =
    let rest = decimal_loop f (n / 10) ((48 + n % 10) ∷ acc) in
    if n / 10 == 0 then (48 + n) ∷ acc else rest

pub decimal : ℕ → Octets
decimal n = decimal_loop n n []

-- The text, which is ASCII, so that these are its octets as well.
pub reason_text : Reason → Octets
reason_text (rsv_without_extension n) =
    ascii "RSV = " ++ decimal n ++ ascii " and no extension negotiated"
reason_text unmasked_client_frame = ascii "unmasked client-to-server frame"
reason_text masked_server_frame = ascii "masked server-to-client frame"
reason_text fragmented_control_frame = ascii "fragmented control frame"
reason_text control_frame_too_long = ascii "control frame with payload length > 125 octets"
reason_text (reserved_control_opcode n) = ascii "control frame using reserved opcode " ++ decimal n
reason_text close_frame_payload_one = ascii "received close control frame with payload len 1"
reason_text (compressed_control_frame e) =
    ascii "received compressed control frame [" ++ e ++ ascii "]"
reason_text (reserved_data_opcode n) = ascii "data frame using reserved opcode " ++ decimal n
reason_text continuation_outside_message =
    ascii "received continuation data frame outside fragmented message"
reason_text not_continuation_inside_message =
    ascii "received non-continuation data frame while inside fragmented message"
reason_text (compressed_continuation e) =
    ascii "received continuation data frame with compress bit set [" ++ e ++ ascii "]"
reason_text not_minimal_length =
    ascii "invalid data frame length (not using minimal length encoding)"
reason_text length_over_limit = ascii "invalid data frame length (>2^63)"
reason_text (invalid_close_code n) = ascii "invalid close code " ++ decimal n
reason_text invalid_close_reason = ascii "invalid close reason (non-UTF8 payload)"
reason_text (message_size_exceeded n m) =
    ascii "received WebSocket message size "
    ++ decimal n
    ++ ascii " exceeds payload limit of "
    ++ decimal m
    ++ ascii " octets"
reason_text (partial_message_size_exceeded n m) =
    ascii "received (partial) WebSocket message size "
    ++ decimal n
    ++ ascii " (already) exceeds payload limit of "
    ++ decimal m
    ++ ascii " octets"
reason_text (frame_size_exceeded n m) =
    ascii "received WebSocket frame size "
    ++ decimal n
    ++ ascii " exceeds payload limit of "
    ++ decimal m
    ++ ascii " octets"
reason_text (invalid_utf8 n) =
    ascii "encountered invalid UTF-8 while processing text message at payload octet index "
    ++ decimal n
reason_text (utf8_ended_inside n) =
    ascii "UTF-8 text message payload ended within Unicode code point at payload octet index "
    ++ decimal n
reason_text (i_dropped r) = ascii "I dropped the WebSocket TCP connection: " ++ reason_text r
reason_text server_drop_timeout =
    ascii "WebSocket closing handshake timeout (server did not drop TCP connection in time)"
reason_text open_handshake_timeout =
    ascii "WebSocket opening handshake timeout (peer did not finish the opening handshake in time)"
reason_text close_handshake_timeout =
    ascii "WebSocket closing handshake timeout (peer did not finish the closing handshake in time)"
reason_text ping_timeout = ascii "WebSocket ping timeout (peer did not respond with pong in time)"
reason_text peer_dropped =
    ascii "peer dropped the TCP connection without previous WebSocket closing handshake"
reason_text (transport_reason t) = t
