-- ===== src/WebSocket/Header.antt =====
-- Receiving the header of a frame: the tests of `processData` of websocket/protocol.py and what it
-- takes from the header.
pub mod Checks
use autobahn_python.Base.{
  ℕ, ◌+◌, Octets, List, [], ◌∷◌, Bool, true, false, ◌&&◌, ◌||◌, not, Option, none, some, ltb, ◌==◌,
  if◌then◌else◌, drop, is_some, pure, ◌>>=◌,
}
use autobahn_python.WebSocket.Conn.{Conn, Config, FrameHeader, Action, Codec}
use autobahn_python.WebSocket.Conn.Texts
use autobahn_python.WebSocket.Conn.Texts.{Reason}
use autobahn_python.WebSocket.Xor.{Masker, null, create_xor_masker}
use autobahn_python.WebSocket.Frame.{
  Opening, extension_len, mask_len, payload_length, frame_mask, max_payload,
}
use autobahn_python.WebSocket.Send.{is_data_opcode}
use autobahn_python.WebSocket.Close.{protocol_violation}

abbrev pub extension_name : Option Codec → Octets
extension_name none = []
extension_name (some codec) = codec.extension_name

abbrev pub Check : Type 0
Check = Bool × Reason

-- The tests of control frames, in their order. The first component says that the frame is at fault.
unfoldable pub control_checks : Option Codec → Opening → List Check
control_checks codec o =
    (not o.fin, Texts.fragmented_control_frame)
    ∷ (ltb 125 o.payload_len1, Texts.control_frame_too_long)
    ∷ (
      not (o.opcode == 8 || (o.opcode == 9 || o.opcode == 10)),
      Texts.reserved_control_opcode o.opcode,
    )
    ∷ (o.opcode == 8 && o.payload_len1 == 1, Texts.close_frame_payload_one)
    ∷ (is_some codec && o.rsv == 4, Texts.compressed_control_frame (extension_name codec))
    ∷ []

unfoldable pub data_checks : Option Codec → Bool → Opening → List Check
data_checks codec inside o =
    (not (is_data_opcode o.opcode), Texts.reserved_data_opcode o.opcode)
    ∷ (not inside && o.opcode == 0, Texts.continuation_outside_message)
    ∷ (inside && not (o.opcode == 0), Texts.not_continuation_inside_message)
    ∷ (
      is_some codec && (o.rsv == 4 && inside),
      Texts.compressed_continuation (extension_name codec),
    )
    ∷ []

unfoldable pub opening_checks : Config → Option Codec → Bool → Opening → List Check
opening_checks cfg codec inside o =
    (not (o.rsv == 0) && not (is_some codec && o.rsv == 4), Texts.rsv_without_extension o.rsv)
    ∷ (
      cfg.is_server && (cfg.require_masked_client_frames && not o.masked),
      Texts.unmasked_client_frame,
    )
    ∷ (
      not cfg.is_server && (not cfg.accept_masked_server_frames && o.masked),
      Texts.masked_server_frame,
    )
    ∷ (if ltb 7 o.opcode then control_checks codec o else data_checks codec inside o)

-- `if fault: if self._protocol_violation(..): return False`, for each check; `true` is that return.
unfoldable pub run_checks : List Check → Action Bool
run_checks [] = pure false
run_checks ((fault, reason) ∷ checks) =
    let rest = run_checks checks in
    if fault then (do stop ← protocol_violation reason; if stop then pure true else rest) else rest

-- The tests of an extended payload length.
unfoldable pub length_checks : Opening → ℕ → List Check
length_checks o l =
    if o.payload_len1 == 126
    then (ltb l 126, Texts.not_minimal_length) ∷ []
    else if o.payload_len1 == 127
    then (ltb max_payload l, Texts.length_over_limit) ∷ (ltb l 65536, Texts.not_minimal_length) ∷ []
    else []

unfoldable pub frame_masker : Bool → Option Octets → ℕ → Masker
frame_masker apply_mask none l = null 0
frame_masker apply_mask (some mask) l =
    if ltb 0 l && apply_mask then create_xor_masker mask (some l) else null 0

unfoldable pub frame_header : Opening → Octets → FrameHeader
frame_header o rest = record {
  opcode = o.opcode;
  fin = o.fin;
  rsv = o.rsv;
  length_field = payload_length o rest;
  mask = frame_mask o rest;
}

-- The complete header is taken off the buffer, and the frame begins. `rest` is the buffer behind the
-- first two octets.
unfoldable pub enter_frame : Opening → Octets → Conn → Conn
enter_frame o rest c =
    let l = payload_length o rest in
    record c {
      buffer = drop (extension_len o + mask_len o) rest;
      rx = record c.rx {
        current_frame_masker = frame_masker c.cfg.apply_mask (frame_mask o rest) l;
        current_frame = some (frame_header o rest);
      };
    }
