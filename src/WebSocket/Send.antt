-- ===== src/WebSocket/Send.antt =====
-- Sending of octets and frames: `sendData`, `_trigger`, `_send`, `sendFrame`, `sendPing`, `sendPong`
-- of websocket/protocol.py.
pub mod Order
pub mod Quiet
use autobahn_python.Base.{
  ℕ, zero, suc, ◌+◌, ◌-◌, ◌*◌, ◌/◌, ◌%◌, ◌^◌, Octets, List, [], ◌∷◌, ◌++◌, Bool, true, false, ◌&&◌,
  ◌||◌, not, Option, none, some, ltb, leb, ◌==◌, if◌then◌else◌, be, take, drop, length, join,
  is_some, Error, Result, ok, err, Exec, pure, raise, gets, modify, ◌>>=◌, ◌>>◌, when,
}
use autobahn_python.WebSocket.Conn.{
  Conn, State, closed, connecting, opened, proxy_connecting, Config, FrameHeader, Output, wrote,
  TrafficStats, Action, emit, is_closed, is_opened,
}
use autobahn_python.WebSocket.Xor.{Masker, create_xor_masker, process}
use autobahn_python.WebSocket.Frame.{first_octet, length_octets}

-- Octets written to the transport are counted by the state of the connection.
unfoldable pub count_written : ℕ → Conn → Conn
count_written n c = elim c.state [
  | opened ↦ record c {
    stats = record c.stats { outgoing_octets_wire_level = c.stats.outgoing_octets_wire_level + n };
  }
  | connecting ↦ record c {
    stats = record c.stats {
      preopen_outgoing_octets_wire_level = c.stats.preopen_outgoing_octets_wire_level + n;
    };
  }
  | proxy_connecting ↦ record c {
    stats = record c.stats {
      preopen_outgoing_octets_wire_level = c.stats.preopen_outgoing_octets_wire_level + n;
    };
  }
  | _ ↦ c
]

-- `_send`: one entry of the queue, if there is one; the next call is scheduled.
unfoldable pub send_next : List (Octets × Bool) → Conn → Conn
send_next [] c = record c { triggered = false; send_scheduled = false }
send_next ((e, _) ∷ queue) c =
    let c' = record c { send_queue = queue } in
    let c'' = if is_closed c.state then c' else count_written (length e) (emit (wrote e) c') in
    record c'' { send_scheduled = true }

unfoldable pub send : Conn → Conn
send c = send_next c.send_queue c

unfoldable pub trigger : Conn → Conn
trigger c = if c.triggered then c else send (record c { triggered = true })

-- The loop that cuts `data[i:j]` from the data, `rest` being `data[i:]`. Each round takes `chopsize`
-- octets, so the fuel that is the length of the data is enough where `chopsize` is positive.
unfoldable pub chops : ℕ → ℕ → Octets → List (Octets × Bool)
chops zero chopsize rest = (rest, true) ∷ []
chops (suc fuel) chopsize rest =
    let more = (take chopsize rest, true) ∷ chops fuel chopsize (drop chopsize rest) in
    if leb (length rest) chopsize then (rest, true) ∷ [] else more

abbrev pub has_queue : List (Octets × Bool) → Bool
has_queue [] = false
has_queue (_ ∷ _) = true

unfoldable pub send_now_or_queue : Octets → Bool → Conn → Conn
send_now_or_queue octets sync c =
    if sync || has_queue c.send_queue
    then trigger (record c { send_queue = c.send_queue ++ ((octets, sync) ∷ []) })
    else count_written (length octets) (emit (wrote octets) c)

unfoldable pub send_data : Octets → Bool → Option ℕ → Conn → Conn
send_data octets sync none c = send_now_or_queue octets sync c
send_data octets sync (some chopsize) c =
    if ltb 0 chopsize
    then trigger (record c { send_queue = c.send_queue ++ chops (length octets) chopsize octets })
    else send_now_or_queue octets sync c

-- Whether a frame is masked that was given no mask.
abbrev pub masks_frames : Config → Bool
masks_frames cfg =
    (not cfg.is_server && cfg.mask_client_frames) || (cfg.is_server && cfg.mask_server_frames)

-- `struct.pack("!I", random.getrandbits(32))`
unfoldable pub draw_mask : Conn → Octets × Conn
draw_mask c =
    (be 4 (c.world.getrandbits c.random_draws), record c { random_draws = c.random_draws + 1 })

unfoldable pub mask_payload : Bool → Octets → Octets → Octets
mask_payload apply_mask mask pl =
    if ltb 0 (length pl) && apply_mask
    then (process (create_xor_masker mask (some (length pl))) pl).0
    else pl

-- `b''.join([payload for _ in range(n)])`
unfoldable pub repeated : ℕ → Octets → Octets
repeated zero payload = []
repeated (suc n) payload = payload ++ repeated n payload

unfoldable pub repeat_payload : Octets → Option ℕ → Option Octets
repeat_payload payload none = some payload
repeat_payload [] (some n) = none
repeat_payload (b ∷ bs) (some n) =
    let l = length (b ∷ bs) in some (repeated (n / l) (b ∷ bs) ++ take (n % l) (b ∷ bs))

abbrev pub is_data_opcode : ℕ → Bool
is_data_opcode opcode = opcode == 0 || (opcode == 1 || opcode == 2)

-- The frame goes out in one call of `sendData`, once it is known that its length can be written.
unfoldable pub send_raw : ℕ → ℕ → Octets → Option (ℕ × Octets) → Bool → Option ℕ → Action (Unit {0})
send_raw opcode b0 mv_plm none sync chopsize c = (err Error.invalid_payload_length, c)
send_raw opcode b0 mv_plm (some (b1, el)) sync chopsize c =
    let frames = c.stats.outgoing_web_socket_frames + (if is_data_opcode opcode then 1 else 0) in
    let c' = record c { stats = record c.stats { outgoing_web_socket_frames = frames } } in
    (ok tt, send_data (b0 ∷ b1 ∷ (el ++ mv_plm)) sync chopsize c')

-- The frame around the payload `pl`, without a mask from the caller.
unfoldable pub send_drawn : ℕ → Bool → ℕ → Bool → Option ℕ → Octets → Action (Unit {0})
send_drawn opcode fin rsv sync chopsize pl c =
    let (mask, c') = draw_mask c in
    if masks_frames c.cfg
    then send_raw opcode (first_octet fin rsv opcode)
        (mask ++ mask_payload c.cfg.apply_mask mask pl) (length_octets true (length pl)) sync
        chopsize c'
    else send_raw opcode (first_octet fin rsv opcode) pl (length_octets false (length pl)) sync
        chopsize c

-- A mask that the caller gave is applied and not written. An empty one counts as none.
unfoldable pub send_frame_payload :
    ℕ → Bool → ℕ → Option Octets → Bool → Option ℕ → Octets → Action (Unit {0})
send_frame_payload opcode fin rsv (some (b ∷ bs)) sync chopsize pl c =
    send_raw opcode (first_octet fin rsv opcode) (mask_payload c.cfg.apply_mask (b ∷ bs) pl)
      (length_octets true (length pl)) sync chopsize c
send_frame_payload opcode fin rsv (some []) sync chopsize pl c =
    send_drawn opcode fin rsv sync chopsize pl c
send_frame_payload opcode fin rsv none sync chopsize pl c =
    send_drawn opcode fin rsv sync chopsize pl c

unfoldable pub send_chosen :
    ℕ → Bool → ℕ → Option Octets → Bool → Option ℕ → Option Octets → Action (Unit {0})
send_chosen opcode fin rsv mask sync chopsize none = raise Error.empty_repeated_payload
send_chosen opcode fin rsv mask sync chopsize (some pl) =
    send_frame_payload opcode fin rsv mask sync chopsize pl

-- `sendFrame(opcode, payload, fin, rsv, mask, payload_len, chopsize, sync)`
unfoldable pub send_frame :
    ℕ → Octets → Bool → ℕ → Option Octets → Option ℕ → Option ℕ → Bool → Action (Unit {0})
send_frame opcode payload fin rsv mask payload_len chopsize sync =
    send_chosen opcode fin rsv mask sync chopsize (repeat_payload payload payload_len)

-- `sendFrame(opcode=.., payload=..)`
abbrev pub send_simple : ℕ → Octets → Action (Unit {0})
send_simple opcode payload = send_frame opcode payload true 0 none none none false

abbrev pub or_empty : Option Octets → Octets
or_empty none = []
or_empty (some bs) = bs

-- `sendPing` and `sendPong`: without a payload, and with an empty one, the frame is empty.
unfoldable pub send_control : ℕ → Error → Option Octets → Action (Unit {0})
send_control opcode too_long payload c =
    if is_opened c.state
    then (if ltb 125 (length (or_empty payload))
        then (err too_long, c)
        else send_simple opcode (or_empty payload) c)
    else (ok tt, c)

unfoldable pub send_ping : Option Octets → Action (Unit {0})
send_ping = send_control 9 Error.invalid_ping

unfoldable pub send_pong : Option Octets → Action (Unit {0})
send_pong = send_control 10 Error.invalid_pong
