-- ===== src/WebSocket/Process/Updates.antt =====
-- The changes of attributes that the handlers make, and the invariants of the primitive changes.
use autobahn_python.Base.{
  ℕ, ◌+◌, Octets, List, [], ◌∷◌, Bool, true, false, ◌&&◌, Option, none, some, ltb, ◌==◌, refl,
  Error, arith, Keeps, modify, Keeps-pure, Keeps-raise, Keeps-modify, Keeps-bind, Keeps-gets,
}
use autobahn_python.WebSocket.Conn.{
  Conn, FrameHeader, Codec, Call, note_call, answer, ask, call, got_ping, got_pong, emit, is_opened,
}
use autobahn_python.WebSocket.Conn.Texts.{Reason}
use autobahn_python.WebSocket.Utf8.{Verdict, Utf8Validator}
use autobahn_python.WebSocket.Close.{
  protocol_violation, invalid_payload, max_message_size_exceeded, protocol_error,
  invalid_payload_code, message_too_big,
}
use autobahn_python.WebSocket.Message
use autobahn_python.WebSocket.Receive
use autobahn_python.WebSocket.Process
use autobahn_python.WebSocket.Process.Neutral.{Neutral, if_state, if_state_known}

module _ {P : Conn → Type 0} (n : Neutral P) where
  pub protocol_violation-Keeps : (r : Reason) → Keeps P (protocol_violation r)
  unfolding protocol_violation
  protocol_violation-Keeps r =
      Keeps-bind (n.failed protocol_error r (omega arith))
        (λ _. Keeps-gets (λ c. c.cfg.fail_by_drop))

  pub invalid_payload-Keeps : (r : Reason) → Keeps P (invalid_payload r)
  unfolding invalid_payload
  invalid_payload-Keeps r =
      Keeps-bind (n.failed invalid_payload_code r (omega arith))
        (λ _. Keeps-gets (λ c. c.cfg.fail_by_drop))

  pub too_big-Keeps : (r : Reason) → Keeps P (max_message_size_exceeded r)
  unfolding max_message_size_exceeded
  too_big-Keeps r = n.failed message_too_big r (omega arith)

  pub note_message_exceeded-Keeps : Keeps P (modify Message.note_message_exceeded)
  unfolding Message.note_message_exceeded
  note_message_exceeded-Keeps =
      Keeps-modify Message.note_message_exceeded
        (λ c p. n.received c (Message.note_message_exceeded c).rx refl refl p)

  pub note_frame_exceeded-Keeps : Keeps P (modify Message.note_frame_exceeded)
  unfolding Message.note_frame_exceeded
  note_frame_exceeded-Keeps =
      Keeps-modify Message.note_frame_exceeded
        (λ c p. n.received c (Message.note_frame_exceeded c).rx refl refl p)

  pub start_frame_data-Keeps : (l : ℕ) → Keeps P (modify (Message.start_frame_data l))
  unfolding Message.start_frame_data
  start_frame_data-Keeps l =
      Keeps-modify (Message.start_frame_data l)
        (λ c p. n.received c (Message.start_frame_data l c).rx refl refl p)

  pub add_message_data-Keeps : (bs : Octets) → Keeps P (modify (Message.add_message_data bs))
  unfolding Message.add_message_data
  add_message_data-Keeps bs =
      Keeps-modify (Message.add_message_data bs)
        (λ c p. n.received c (Message.add_message_data bs c).rx refl refl p)

  pub add_frame_data-Keeps : (bs : Octets) → Keeps P (modify (Message.add_frame_data bs))
  unfolding Message.add_frame_data
  add_frame_data-Keeps bs =
      Keeps-modify (Message.add_frame_data bs)
        (λ c p. n.received c (Message.add_frame_data bs c).rx refl refl p)

  pub add_total-Keeps : (l : ℕ) → Keeps P (modify (Message.add_total l))
  unfolding Message.add_total
  add_total-Keeps l =
      Keeps-modify (Message.add_total l)
        (λ c p. n.received c (Message.add_total l c).rx refl refl p)

  pub on_message_begin-Keeps : (b : Bool) → Keeps P (modify (Message.on_message_begin b))
  unfolding Message.on_message_begin
  on_message_begin-Keeps b =
      Keeps-modify (Message.on_message_begin b)
        (λ c p. n.received c (Message.on_message_begin b c).rx refl refl p)

  pub on_message_frame_end-Keeps : Keeps P (modify Message.on_message_frame_end)
  unfolding Message.on_message_frame_end
  on_message_frame_end-Keeps =
      Keeps-modify Message.on_message_frame_end
        (λ c p. n.received c (Message.on_message_frame_end c).rx refl refl p)

  pub set_compressed-Keeps : (b : Bool) → Keeps P (modify (Receive.set_compressed b))
  unfolding Receive.set_compressed
  set_compressed-Keeps b =
      Keeps-modify (Receive.set_compressed b)
        (λ c p. n.received c (Receive.set_compressed b c).rx refl refl p)

  pub set_inside-Keeps : (b : Bool) → Keeps P (modify (Receive.set_inside b))
  unfolding Receive.set_inside
  set_inside-Keeps b =
      Keeps-modify (Receive.set_inside b)
        (λ c p. n.received c (Receive.set_inside b c).rx refl refl p)

  pub set_control_data-Keeps :
      (chunks : List Octets) → Keeps P (modify (Receive.set_control_data chunks))
  unfolding Receive.set_control_data
  set_control_data-Keeps chunks =
      Keeps-modify (Receive.set_control_data chunks)
        (λ c p. n.received c (Receive.set_control_data chunks c).rx refl refl p)

  pub add_control_data-Keeps : (bs : Octets) → Keeps P (modify (Receive.add_control_data bs))
  unfolding Receive.add_control_data
  add_control_data-Keeps bs =
      Keeps-modify (Receive.add_control_data bs)
        (λ c p. n.received c (Receive.add_control_data bs c).rx refl refl p)

  pub note_verdict-Keeps : (w : Verdict × Utf8Validator) → Keeps P (modify (Receive.note_verdict w))
  unfolding Receive.note_verdict
  note_verdict-Keeps w =
      Keeps-modify (Receive.note_verdict w)
        (λ c p. n.received c (Receive.note_verdict w c).rx refl refl p)

  pub begin_utf8-Keeps : (f : FrameHeader) → Keeps P (modify (Receive.begin_utf8 f))
  unfolding Receive.begin_utf8
  begin_utf8-Keeps f = Keeps-modify (Receive.begin_utf8 f) (λ c p.
      if_state P (f.opcode == 1 && c.cfg.utf8validate_incoming) _ _ (n.received c _ refl refl p)
        (n.received c (record c.rx { utf8validate_incoming_current_message = false }) refl refl p))

  pub answer-Keeps : (r : Option Octets) → Keeps P (answer r)
  unfolding answer
  answer-Keeps none = Keeps-raise Error.codec_error
  answer-Keeps (some bs) = Keeps-pure bs

  pub ask-Keeps : (codec : Option Codec) (k : Call) → Keeps P (ask codec k)
  unfolding ask note_call
  ask-Keeps none k = Keeps-raise Error.codec_error
  ask-Keeps (some codec) k =
      Keeps-bind (Keeps-modify (note_call k) (λ c p. n.called c (k ∷ c.codec_calls) p))
        (λ _. Keeps-bind (Keeps-gets (λ c. c)) (λ c. answer-Keeps (codec.respond c.codec_calls)))

  pub call-Keeps : (k : Call) → Keeps P (call k)
  unfolding call
  call-Keeps k = Keeps-bind (Keeps-gets (λ c. c)) (λ c. ask-Keeps c.per_message_compress k)

  pub count_payload-Keeps : (k l : ℕ) → Keeps P (modify (Receive.count_payload k l))
  unfolding Receive.count_payload
  count_payload-Keeps k l =
      Keeps-modify (Receive.count_payload k l)
        (λ c p. if_state P (is_opened c.state) _ _ (n.counted c _ p) p)

  pub count_frame-Keeps : Keeps P (modify Process.count_frame)
  unfolding Process.count_frame
  count_frame-Keeps =
      Keeps-modify Process.count_frame
        (λ c p. if_state P (is_opened c.state) _ _ (n.counted c _ p) p)

  pub count_message-Keeps : Keeps P (modify Process.count_message)
  unfolding Process.count_message
  count_message-Keeps =
      Keeps-modify Process.count_message
        (λ c p. if_state P (is_opened c.state) _ _ (n.counted c _ p) p)

  pub restart_auto_ping-Keeps : Keeps P (modify Process.restart_auto_ping)
  unfolding Process.restart_auto_ping Receive.cancel_auto_ping_timeout_call Receive.arm_auto_ping
  restart_auto_ping-Keeps = Keeps-modify Process.restart_auto_ping (λ c p.
      if_state P (c.timers.auto_ping_timeout_call && c.cfg.auto_ping_restart_on_any_traffic) _ _
        (n.timed c _ p) p)

  pub set_remote-Keeps :
      (code : Option ℕ) (reason : Option Octets) → Keeps P (modify (Message.set_remote code reason))
  unfolding Message.set_remote
  set_remote-Keeps code reason =
      Keeps-modify (Message.set_remote code reason)
        (λ c p. n.noted c (Message.set_remote code reason c).cl refl p)

  pub set_remote_code-Keeps : (code : Option ℕ) → Keeps P (modify (Message.set_remote_code code))
  unfolding Message.set_remote_code
  set_remote_code-Keeps code =
      Keeps-modify (Message.set_remote_code code)
        (λ c p. n.noted c (Message.set_remote_code code c).cl refl p)

  pub set_remote_reason-Keeps : (r : Option Octets) → Keeps P (modify (Message.set_remote_reason r))
  unfolding Message.set_remote_reason
  set_remote_reason-Keeps r =
      Keeps-modify (Message.set_remote_reason r)
        (λ c p. n.noted c (Message.set_remote_reason r c).cl refl p)

  pub set_clean-Keeps : (b : Bool) → Keeps P (modify (Message.set_clean b))
  unfolding Message.set_clean
  set_clean-Keeps b =
      Keeps-modify (Message.set_clean b) (λ c p. n.noted c (Message.set_clean b c).cl refl p)

  pub drop_if_server-Keeps : Keeps P (modify Message.drop_if_server)
  unfolding Message.drop_if_server
  drop_if_server-Keeps =
      Keeps-modify Message.drop_if_server
        (λ c p. if_state P c.cfg.is_server _ _ (n.dropped c false p) p)

  pub close_replied-Keeps : Keeps P (modify Message.close_replied)
  unfolding Message.close_replied Message.set_clean
  close_replied-Keeps = Keeps-modify Message.close_replied (λ c p.
      let d = record c { timers = record c.timers { close_handshake_timeout_call = false } } in
      let e = Message.set_clean true d in
      let q : P e = n.noted d e.cl refl (n.timed c d.timers p) in
      if_state P c.cfg.is_server _ _ (n.dropped e true q)
        (if_state P (ltb 0 c.cfg.server_connection_drop_timeout) _ _ (n.timed e _ q) q))

  pub on_message_end-Keeps : Keeps P (modify Message.on_message_end)
  unfolding Message.on_message_end
  on_message_end-Keeps = Keeps-modify Message.on_message_end (λ c p.
      let d = record c { rx = record c.rx { message_data = [] } } in
      let q : P d = n.received c d.rx refl refl p in
      if_state_known P c.cl.failed_by_me _ _ (λ _. q) (λ e. n.delivered d _ _ e q))

  pub auto_pong_keeps : (bs : Octets) (c : Conn) → P c → P (Receive.auto_pong bs c)
  unfolding Receive.auto_pong Receive.arm_auto_ping
  auto_pong_keeps bs c p =
      if_state P _ _ _
        (n.timed _ _ (n.noticed _ _ refl (n.timed _ _ (n.clocked c (c.clock_reads + 1) p)))) p

  pub on_pong-Keeps : (bs : Octets) → Keeps P (modify (Receive.on_pong bs))
  unfolding Receive.on_pong
  on_pong-Keeps bs =
      Keeps-modify (Receive.on_pong bs)
        (λ c p. n.noticed (Receive.auto_pong bs c) (got_pong bs) refl (auto_pong_keeps bs c p))

  pub got_ping-Keeps : (bs : Octets) → Keeps P (modify (emit (got_ping bs)))
  got_ping-Keeps bs = Keeps-modify (emit (got_ping bs)) (λ c p. n.noticed c (got_ping bs) refl p)

pub ruleset update_rules = (
  protocol_violation-Keeps, invalid_payload-Keeps, too_big-Keeps, note_message_exceeded-Keeps,
  note_frame_exceeded-Keeps, start_frame_data-Keeps, add_message_data-Keeps, add_frame_data-Keeps,
  add_total-Keeps, on_message_begin-Keeps, on_message_frame_end-Keeps, set_compressed-Keeps,
  set_inside-Keeps, set_control_data-Keeps, add_control_data-Keeps, note_verdict-Keeps,
  begin_utf8-Keeps, answer-Keeps, ask-Keeps, call-Keeps, count_payload-Keeps, count_frame-Keeps,
  count_message-Keeps, restart_auto_ping-Keeps, set_remote-Keeps, set_remote_code-Keeps,
  set_remote_reason-Keeps, set_clean-Keeps, drop_if_server-Keeps, close_replied-Keeps,
  on_message_end-Keeps, on_pong-Keeps, got_ping-Keeps,
)
