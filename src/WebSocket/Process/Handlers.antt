-- ===== src/WebSocket/Process/Handlers.antt =====
-- The handlers of received data, and the invariants of the primitive changes.
use autobahn_python.Base.{
  ℕ, Octets, List, [], ◌∷◌, true, false, Option, none, some, Keeps, modify, Keeps-pure, Keeps-raise,
  Keeps-modify, Keeps-if, Keeps-bind, Keeps-gets,
}
use autobahn_python.WebSocket.Conn.{
  Conn, State, closed, connecting, closing, opened, proxy_connecting, FrameHeader,
}
use autobahn_python.WebSocket.Send.{send_pong}
use autobahn_python.WebSocket.Frame.{Opening}
use autobahn_python.WebSocket.Message
use autobahn_python.WebSocket.Header
use autobahn_python.WebSocket.Receive
use autobahn_python.WebSocket.Header.{Check}
use autobahn_python.WebSocket.Process
use autobahn_python.WebSocket.Process.Updates.{update_rules, protocol_violation-Keeps}
use autobahn_python.WebSocket.Process.Neutral.{Neutral, Framed}

ruleset rules = (Keeps-pure, Keeps-raise, Keeps-gets, Keeps-if, Keeps-bind, update_rules)

module _ {P : Conn → Type 0} (n : Neutral P) where
  check_sizes-Keeps : (l : ℕ) → Keeps P (Message.check_sizes l)
  unfolding Message.check_sizes
  check_sizes-Keeps l = search rules depth 9

  check_partial_size-Keeps : Keeps P Message.check_partial_size
  unfolding Message.check_partial_size
  check_partial_size-Keeps = search rules depth 9

  on_message_frame_begin-Keeps : (l : ℕ) → Keeps P (Message.on_message_frame_begin l)
  unfolding Message.on_message_frame_begin
  on_message_frame_begin-Keeps l = search (rules, check_sizes-Keeps)

  on_message_frame_data-Keeps : (bs : Octets) → Keeps P (Message.on_message_frame_data bs)
  unfolding Message.on_message_frame_data
  on_message_frame_data-Keeps bs = search (rules, check_partial_size-Keeps) depth 9

  check_close_code-Keeps : (code : Option ℕ) → Keeps P (Message.check_close_code code)
  unfolding Message.check_close_code
  check_close_code-Keeps none = search rules depth 9
  check_close_code-Keeps (some code) = search rules depth 9

  check_close_reason-Keeps : (r : Option Octets) → Keeps P (Message.check_close_reason r)
  unfolding Message.check_close_reason
  check_close_reason-Keeps none = search rules
  check_close_reason-Keeps (some r) = search rules depth 9

  reply_close-Keeps : Keeps P Message.reply_close
  unfolding Message.reply_close
  reply_close-Keeps = search (rules, n.closed_by) depth 9

  close_in-Keeps : (s : State) → Keeps P (Message.close_in s)
  unfolding Message.close_in
  close_in-Keeps closing = search rules
  close_in-Keeps opened = search (rules, reply_close-Keeps) depth 9
  close_in-Keeps closed = search rules
  close_in-Keeps connecting = search rules
  close_in-Keeps proxy_connecting = search rules

  close_by_state-Keeps : Keeps P Message.close_by_state
  unfolding Message.close_by_state
  close_by_state-Keeps = search (rules, close_in-Keeps)

  on_close_frame-Keeps :
      (code : Option ℕ) (r : Option Octets) → Keeps P (Message.on_close_frame code r)
  unfolding Message.on_close_frame
  on_close_frame-Keeps code r =
      search (rules, check_close_code-Keeps, check_close_reason-Keeps, close_by_state-Keeps) depth 9

  on_ping-Keeps : (bs : Octets) → Keeps P (Message.on_ping bs)
  unfolding Message.on_ping send_pong
  on_ping-Keeps bs = search (rules, n.controlled) depth 9

  process_control_frame-Keeps : (f : FrameHeader) → Keeps P (Receive.process_control_frame f)
  unfolding Receive.process_control_frame
  process_control_frame-Keeps f = search (rules, on_close_frame-Keeps, on_ping-Keeps) depth 9

  pub run_checks-Keeps : (checks : List Check) → Keeps P (Header.run_checks checks)
  unfolding Header.run_checks
  run_checks-Keeps [] = Keeps-pure false
  run_checks-Keeps ((fault, reason) ∷ checks) =
      Keeps-if fault
        (Keeps-bind (protocol_violation-Keeps n reason)
          (λ stop. Keeps-if stop (Keeps-pure true) (run_checks-Keeps checks)))
        (run_checks-Keeps checks)

  begin_decompress-Keeps : (f : FrameHeader) → Keeps P (Receive.begin_decompress f)
  unfolding Receive.begin_decompress
  begin_decompress-Keeps f = search rules depth 9

  begin_message-Keeps : (f : FrameHeader) → Keeps P (Receive.begin_message f)
  unfolding Receive.begin_message
  begin_message-Keeps f = search (rules, begin_decompress-Keeps) depth 9

  pub on_frame_begin-Keeps : (f : FrameHeader) → Keeps P (Receive.on_frame_begin f)
  unfolding Receive.on_frame_begin
  on_frame_begin-Keeps f = search (rules, begin_message-Keeps, on_message_frame_begin-Keeps) depth 9

  inflate-Keeps : (bs : Octets) → Keeps P (Receive.inflate bs)
  unfolding Receive.inflate
  inflate-Keeps bs = search rules depth 9

  validate_payload-Keeps : (bs : Octets) → Keeps P (Receive.validate_payload bs)
  unfolding Receive.validate_payload
  validate_payload-Keeps bs = search rules depth 9

  pub on_frame_data-Keeps : (f : FrameHeader) (bs : Octets) → Keeps P (Receive.on_frame_data f bs)
  unfolding Receive.on_frame_data
  on_frame_data-Keeps f bs =
      search (rules, inflate-Keeps, validate_payload-Keeps, on_message_frame_data-Keeps) depth 9

  finish_decompress-Keeps : Keeps P Process.finish_decompress
  unfolding Process.finish_decompress
  finish_decompress-Keeps = search rules depth 9

  check_text_end-Keeps : Keeps P Process.check_text_end
  unfolding Process.check_text_end
  check_text_end-Keeps = search rules depth 9

  finish_message-Keeps : Keeps P Process.finish_message
  unfolding Process.finish_message
  finish_message-Keeps = search (rules, finish_decompress-Keeps, check_text_end-Keeps) depth 9

  finish_data_frame-Keeps : (f : FrameHeader) → Keeps P (Process.finish_data_frame f)
  unfolding Process.finish_data_frame
  finish_data_frame-Keeps f = search (rules, finish_message-Keeps) depth 9

  -- `onFrameEnd` but for its last assignment.
  pub finish_frame-Keeps : (f : FrameHeader) → Keeps P (Process.finish_frame f)
  unfolding Process.finish_frame
  finish_frame-Keeps f =
      search (rules, process_control_frame-Keeps, finish_data_frame-Keeps) depth 9

module _ {P : Conn → Type 0} (k : Framed P) where
  entered-Keeps : (o : Opening) (rest : Octets) → Keeps P (modify (Header.enter_frame o rest))
  entered-Keeps o rest = Keeps-modify (Header.enter_frame o rest) (λ c p. k.entered o rest c p)

  left-Keeps : Keeps P (modify Process.leave_frame)
  left-Keeps = Keeps-modify Process.leave_frame (λ c p. k.left c p)

  taken-Keeps : (f : FrameHeader) → Keeps P (Process.take_payload f)
  taken-Keeps f = record { after = λ c p. k.taken f c p }

  on_frame_end-Keeps : (f : FrameHeader) → Keeps P (Process.on_frame_end f)
  unfolding Process.on_frame_end
  on_frame_end-Keeps f = search (rules, left-Keeps, finish_frame-Keeps k.neutral) depth 9

  read_header-Keeps : (o : Opening) (rest : Octets) → Keeps P (Process.read_header o rest)
  unfolding Process.read_header Process.has_data
  read_header-Keeps o rest =
      search (rules, run_checks-Keeps k.neutral, entered-Keeps, on_frame_begin-Keeps k.neutral)
        depth 9

  process_opening-Keeps : (buffer : Octets) → Keeps P (Process.process_opening buffer)
  unfolding Process.process_opening
  process_opening-Keeps [] = search rules
  process_opening-Keeps (a ∷ []) = search rules
  process_opening-Keeps (b0 ∷ b1 ∷ rest) =
      search (rules, run_checks-Keeps k.neutral, read_header-Keeps) depth 9

  process_payload-Keeps : (f : FrameHeader) → Keeps P (Process.process_payload f)
  unfolding Process.process_payload Process.after_payload Process.has_data
  process_payload-Keeps f =
      search (rules, taken-Keeps, on_frame_data-Keeps k.neutral, on_frame_end-Keeps) depth 9

  process_in-Keeps : (f : Option FrameHeader) → Keeps P (Process.process_in f)
  unfolding Process.process_in
  process_in-Keeps none = search (rules, process_opening-Keeps)
  process_in-Keeps (some f) = process_payload-Keeps f

  pub process_data-Keeps : Keeps P Process.process_data
  unfolding Process.process_data
  process_data-Keeps = search (rules, process_in-Keeps)
