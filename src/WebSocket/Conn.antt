-- ===== src/WebSocket/Conn.antt =====
-- The object `WebSocketProtocol` of websocket/protocol.py: its constants, its configuration, what
-- it is given by the surroundings, and its attributes.
--
-- A callback to the application, a write to the transport and its closing are entries of `log`, the
-- newest first. A timer is a flag: armed or not. `None` and `[]` are one for the three chunk lists,
-- each of which is assigned `[]` before it is read.
pub mod Texts
use autobahn_python.Base.{
  ℕ, ◌+◌, Octets, List, [], ◌∷◌, Bool, true, false, Option, none, some, Error, Exec, pure, raise,
  gets, modify, ◌>>=◌, ◌>>◌,
}
use autobahn_python.WebSocket.Xor.{Masker, null}
use autobahn_python.WebSocket.Utf8.{Utf8Validator, Verdict, fresh}
use autobahn_python.WebSocket.Conn.Texts.{Reason}

-- STATE_CLOSED, STATE_CONNECTING, STATE_CLOSING, STATE_OPEN, STATE_PROXY_CONNECTING
pub data State : Type 0 where
  closed connecting closing opened proxy_connecting : State

-- SEND_STATE_GROUND, …
pub data SendState : Type 0 where
  ground_state message_begin inside_message_state inside_message_frame : SendState

-- The attributes that a protocol object copies from its factory, and `isServer`. Timeouts are only
-- tested for being positive.
pub record Config : Type 0 where
  pub is_server : Bool
  pub has_proxy : Bool
  pub require_masked_client_frames : Bool
  pub accept_masked_server_frames : Bool
  pub mask_client_frames : Bool
  pub mask_server_frames : Bool
  pub apply_mask : Bool
  pub utf8validate_incoming : Bool
  pub fail_by_drop : Bool
  pub echo_close_code_reason : Bool
  pub auto_ping_restart_on_any_traffic : Bool
  pub max_frame_payload_size : ℕ
  pub max_message_payload_size : ℕ
  pub auto_fragment_size : ℕ
  pub open_handshake_timeout : ℕ
  pub close_handshake_timeout : ℕ
  pub server_connection_drop_timeout : ℕ
  pub auto_ping_interval : ℕ
  pub auto_ping_timeout : ℕ
  pub auto_ping_size : ℕ

-- What the n-th call of a function outside the repository returns.
pub record World : Type 0 where
  pub getrandbits : ℕ → ℕ
  pub time_ns : ℕ → ℕ
  pub urandom : ℕ → ℕ → Octets

-- The calls of a per-message compression object, which rests on a third-party library.
pub data Call : Type 0 where
  start_compress end_compress start_decompress end_decompress : Call
  compress decompress : Octets → Call

-- Such an object: what it returns is a function of the calls so far, the newest first; `none` is an
-- exception.
pub record Codec : Type 0 where
  pub extension_name : Octets
  pub respond : List Call → Option Octets

pub record FrameHeader : Type 0 where
  pub opcode : ℕ
  pub fin : Bool
  pub rsv : ℕ
  pub length_field : ℕ
  pub mask : Option Octets

pub data Output : Type 0 where
  wrote : Octets → Output  -- transport.write
  closed_transport : Bool → Output  -- _closeConnection(abort)
  resolved_is_closed : Output  -- txaio.resolve(self.is_closed, self)
  got_message : Octets → Bool → Output  -- onMessage(payload, isBinary)
  got_ping : Octets → Output  -- onPing
  got_pong : Octets → Output  -- onPong
  got_auto_pong : ℕ → ℕ → ℕ → Octets → Output  -- onAutoPong
  got_close : Bool → Option ℕ → Option Octets → Output  -- onClose

pub record TrafficStats : Type 0 where
  pub outgoing_octets_wire_level : ℕ
  pub outgoing_octets_web_socket_level : ℕ
  pub outgoing_octets_app_level : ℕ
  pub outgoing_web_socket_frames : ℕ
  pub outgoing_web_socket_messages : ℕ
  pub incoming_octets_wire_level : ℕ
  pub incoming_octets_web_socket_level : ℕ
  pub incoming_octets_app_level : ℕ
  pub incoming_web_socket_frames : ℕ
  pub incoming_web_socket_messages : ℕ
  pub preopen_outgoing_octets_wire_level : ℕ
  pub preopen_incoming_octets_wire_level : ℕ

-- Receiving.
pub record Receiver : Type 0 where
  pub inside_message : Bool
  pub is_message_compressed : Bool
  pub current_frame : Option FrameHeader
  pub current_frame_masker : Masker
  pub control_frame_data : List Octets
  pub message_is_binary : Bool
  pub message_data : List Octets
  pub message_data_total_length : ℕ
  pub frame_length : ℕ
  pub frame_data : List Octets
  pub utf8validator : Utf8Validator
  pub utf8validate_incoming_current_message : Bool
  pub utf8validate_last : Verdict
  pub was_max_frame_payload_size_exceeded : Bool
  pub was_max_message_payload_size_exceeded : Bool

-- Closing.
pub record Closing : Type 0 where
  pub closed_by_me : Bool
  pub failed_by_me : Bool
  pub dropped_by_me : Bool
  pub was_clean : Bool
  pub was_not_clean_reason : Option Reason
  pub was_server_connection_drop_timeout : Bool
  pub was_open_handshake_timeout : Bool
  pub was_close_handshake_timeout : Bool
  pub was_serving_flash_socket_policy_file : Bool
  pub local_close_code : Option ℕ
  pub local_close_reason : Option Octets
  pub remote_close_code : Option ℕ
  pub remote_close_reason : Option Octets

-- Timers that are armed, and the automatic ping that is pending.
pub record Timers : Type 0 where
  pub server_connection_drop_timeout_call : Bool
  pub open_handshake_timeout_call : Bool
  pub close_handshake_timeout_call : Bool
  pub auto_ping_timeout_call : Bool
  pub auto_ping_pending_call : Bool
  pub auto_ping_pending : Option Octets
  pub auto_ping_pending_seq : ℕ
  pub auto_ping_pending_sent : Option ℕ

-- Sending a message in frames.
pub record Sender : Type 0 where
  pub send_state : SendState
  pub send_message_opcode : ℕ
  pub send_compressed : Bool
  pub send_message_frame_length : ℕ
  pub send_message_frame_mask : Option Octets
  pub send_message_frame_masker : Masker

pub record Conn : Type 0 where
  pub cfg : Config
  pub world : World
  pub websocket_version : ℕ
  pub per_message_compress : Option Codec
  pub codec_calls : List Call
  pub random_draws : ℕ
  pub clock_reads : ℕ
  pub state : State
  pub buffer : Octets  -- self.data
  pub send_queue : List (Octets × Bool)
  pub triggered : Bool
  pub send_scheduled : Bool  -- a call of _send is scheduled
  pub rx : Receiver
  pub cl : Closing
  pub timers : Timers
  pub tx : Sender
  pub stats : TrafficStats
  pub log : List Output

abbrev pub Action : Type 0 → Type 0
Action = Exec Conn

-- reads the object
abbrev pub self : Action Conn
self = gets (λ c. c)

unfoldable pub emit : Output → Conn → Conn
emit o c = record c { log = o ∷ c.log }

abbrev pub is_closed : State → Bool
is_closed closed = true
is_closed _ = false

abbrev pub is_opened : State → Bool
is_opened opened = true
is_opened _ = false

abbrev pub is_closing : State → Bool
is_closing closing = true
is_closing _ = false

unfoldable pub note_call : Call → Conn → Conn
note_call k c = record c { codec_calls = k ∷ c.codec_calls }

unfoldable pub answer : Option Octets → Action Octets
answer none = raise Error.codec_error
answer (some bs) = pure bs

-- A call of the compression object; without one Python raises too.
unfoldable pub ask : Option Codec → Call → Action Octets
ask none k = raise Error.codec_error
ask (some codec) k = do modify (note_call k); c ← self; answer (codec.respond c.codec_calls)

unfoldable pub call : Call → Action Octets
call k = do c ← self; ask c.per_message_compress k
