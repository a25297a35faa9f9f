-- ===== src/WebSocket/Stream.antt =====
-- Sending of messages: the frame-based calls `beginMessage` to `endMessage`, `sendMessage` with its
-- fragmentation, and prepared messages, of websocket/protocol.py.
pub mod Room
use autobahn_python.Base.{
  ℕ, ◌+◌, ◌-◌, ◌*◌, ◌%◌, ◌^◌, Octets, [], ◌∷◌, ◌++◌, Bool, true, false, ◌&&◌, not, Option, none,
  some, bit_or, ltb, leb, if◌then◌else◌, take, length, is_some, Error, ok, err, pure, raise, modify,
  ◌>>=◌, ◌>>◌,
}
use autobahn_python.WebSocket.Conn.{
  Conn, SendState, ground_state, message_begin, inside_message_state, inside_message_frame, Action,
  is_opened, call, start_compress, end_compress, compress,
}
use autobahn_python.WebSocket.Xor.{null, pointer, process, create_xor_masker}
use autobahn_python.WebSocket.Frame.{length_octets, max_payload}
use autobahn_python.WebSocket.Send.{send_data, send_frame, masks_frames, draw_mask, or_empty}

-- `if self.state != STATE_OPEN: return`
abbrev pub if_opened : Action (Unit {0}) → Action (Unit {0})
if_opened m c = if is_opened c.state then m c else (ok tt, c)

unfoldable pub count_outgoing_message : Conn → Conn
count_outgoing_message c = record c {
  stats = record c.stats {
    outgoing_web_socket_messages = c.stats.outgoing_web_socket_messages + 1;
  };
}

unfoldable pub count_app : ℕ → Conn → Conn
count_app n c = record c {
  stats = record c.stats { outgoing_octets_app_level = c.stats.outgoing_octets_app_level + n };
}

unfoldable pub count_web_socket : ℕ → Conn → Conn
count_web_socket n c = record c {
  stats = record c.stats {
    outgoing_octets_web_socket_level = c.stats.outgoing_octets_web_socket_level + n;
  };
}

unfoldable pub set_send_state : SendState → Conn → Conn
set_send_state s c = record c { tx = record c.tx { send_state = s } }

abbrev pub is_ground : SendState → Bool
is_ground ground_state = true
is_ground _ = false

abbrev pub may_begin_frame : SendState → Bool
may_begin_frame message_begin = true
may_begin_frame inside_message_state = true
may_begin_frame _ = false

abbrev pub is_inside_frame : SendState → Bool
is_inside_frame inside_message_frame = true
is_inside_frame _ = false

unfoldable pub set_message : Bool → Conn → Conn
set_message is_binary c = record c {
  tx = record c.tx { send_message_opcode = if is_binary then 2 else 1; send_state = message_begin };
}

unfoldable pub set_send_compressed : Bool → Conn → Conn
set_send_compressed b c = record c { tx = record c.tx { send_compressed = b } }

unfoldable pub begin_compress : Bool → Action (Unit {0})
begin_compress do_not_compress c =
    if is_some c.per_message_compress && not do_not_compress
    then (do modify (set_send_compressed true); _ ← call start_compress; pure tt) c
    else (ok tt, set_send_compressed false c)

-- `beginMessage(isBinary, doNotCompress)`
unfoldable pub begin_message : Bool → Bool → Action (Unit {0})
begin_message is_binary do_not_compress = if_opened λ c.
    if is_ground c.tx.send_state
    then (do
      modify (set_message is_binary)
      begin_compress do_not_compress
      modify count_outgoing_message)
        c
    else (err Error.invalid_send_state, c)

-- FIN is not set: the end of the message is not known yet.
unfoldable pub stream_first_octet : Conn → ℕ
stream_first_octet c = elim c.tx.send_state [
  | message_begin ↦
      bit_or (c.tx.send_message_opcode % 128) (if c.tx.send_compressed then 4 % 8 * 2 ^ 4 else 0)
  | _ ↦ 0
]

unfoldable pub set_frame : ℕ → Option Octets → Conn → Conn
set_frame n mask c = record c {
  tx = record c.tx {
    send_message_frame_length = n;
    send_message_frame_mask = mask;
    send_message_frame_masker = elim mask [
      | some m ↦ (if ltb 0 n && c.cfg.apply_mask then create_xor_masker m (some n) else null 0)
      | none ↦ null 0
    ];
  };
}

unfoldable pub count_outgoing_frame : Conn → Conn
count_outgoing_frame c = record c {
  stats = record c.stats { outgoing_web_socket_frames = c.stats.outgoing_web_socket_frames + 1 };
}

unfoldable pub draw_frame_mask : Conn → Option Octets × Conn
draw_frame_mask c =
    let (mask, c') = draw_mask c in if masks_frames c.cfg then (some mask, c') else (none, c)

unfoldable pub write_header : ℕ → Option Octets → Option (ℕ × Octets) → Action (Unit {0})
write_header b0 mask none = raise Error.invalid_payload_length
write_header b0 mask (some (b1, el)) = do
  modify (send_data (b0 ∷ b1 ∷ (el ++ or_empty mask)) false none)
  modify (set_send_state inside_message_frame)

-- A valid length in a valid sending state.
unfoldable pub open_frame : ℕ → Action (Unit {0})
open_frame n c =
    let (mask, c') = draw_frame_mask (count_outgoing_frame c) in
    let c'' = set_frame n mask c' in
    let state' : SendState = elim c.tx.send_state [
      | message_begin ↦ inside_message_state
      | s ↦ s
    ] in
    write_header (stream_first_octet c) mask (length_octets (is_some mask) n)
      (record c'' { tx = record c''.tx { send_state = state' } })

-- `beginMessageFrame(length)`
unfoldable pub begin_message_frame : ℕ → Action (Unit {0})
begin_message_frame n = if_opened λ c.
    if may_begin_frame c.tx.send_state
    then (if leb n max_payload then open_frame n c else (err Error.invalid_frame_length, c))
    else (err Error.invalid_send_state, c)

-- What `sendMessageFrameData` returns: an integer, negative if the payload was longer than the frame.
pub data Rest : Type 0 where
  left : ℕ → Rest  -- so many octets are missing
  over : ℕ → Rest  -- so many octets, at least one, were not consumed
  not_open : Rest  -- `None`

unfoldable pub write_frame_data : Octets → Bool → Action (Unit {0})
write_frame_data pl sync c =
    let (plm, masker) = process c.tx.send_message_frame_masker pl in
    let c' =
      send_data plm sync none
        (record c { tx = record c.tx { send_message_frame_masker = masker } }) in
    let done = leb c.tx.send_message_frame_length (pointer masker) in
    (ok tt, if done then set_send_state inside_message_state c' else c')

unfoldable pub count_frame_data : ℕ → Conn → Conn
count_frame_data n c = count_web_socket n (if c.tx.send_compressed then c else count_app n c)

-- The part of the payload that fits the frame, and what is returned.
unfoldable pub fit_frame : Conn → Octets → Octets × Rest
fit_frame c payload =
    let room = c.tx.send_message_frame_length - pointer c.tx.send_message_frame_masker in
    if ltb c.tx.send_message_frame_length (pointer c.tx.send_message_frame_masker + length payload)
    then (take room payload, over (length payload - room))
    else (payload, left (room - length payload))

-- `sendMessageFrameData(payload, sync)`; the octets are counted before the sending state is tested.
unfoldable pub send_message_frame_data : Octets → Bool → Action Rest
send_message_frame_data payload sync c =
    let c' = count_frame_data (length payload) c in
    let (pl, rest) = fit_frame c' payload in
    if is_opened c.state
    then (if is_inside_frame c.tx.send_state
        then (do write_frame_data pl sync; pure rest) c'
        else (err Error.invalid_send_state, c'))
    else (ok not_open, c)

unfoldable pub end_payload : Action Octets
end_payload c =
    if c.tx.send_compressed
    then (do payload ← call end_compress; modify (count_web_socket (length payload)); pure payload)
        c
    else (ok [], c)

-- `endMessage`
unfoldable pub end_message : Action (Unit {0})
end_message = if_opened λ c.
    (do
      payload ← end_payload
      send_frame 0 payload true 0 none none none false
      modify (set_send_state ground_state))
      c

unfoldable pub compress_frame : Octets → Action Octets
compress_frame payload c =
    if c.tx.send_compressed
    then (do modify (count_app (length payload)); call (compress payload)) c
    else (ok payload, c)

-- `sendMessageFrame(payload, sync)`
unfoldable pub send_message_frame : Octets → Bool → Action (Unit {0})
send_message_frame payload sync = if_opened λ c.
    (do
      payload' ← compress_frame payload
      begin_message_frame (length payload')
      _ ← send_message_frame_data payload' sync
      pure tt)
      c
