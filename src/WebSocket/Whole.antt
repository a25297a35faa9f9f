-- ===== src/WebSocket/Whole.antt =====
-- Whole messages: `sendMessage` with its fragmentation, `PreparedMessage` and `sendPreparedMessage`
-- of websocket/protocol.py.
pub mod Fragments
use autobahn_python.Base.{
  ℕ, zero, suc, ◌+◌, ◌-◌, ◌*◌, ◌%◌, ◌^◌, Octets, List, [], ◌∷◌, ◌++◌, Bool, true, false, ◌&&◌, ◌||◌,
  not, Option, none, some, bit_or, ltb, leb, ◌==◌, if◌then◌else◌, be, take, drop, length, is_some,
  Error, Result, ok, err, Exec, pure, raise, gets, modify, ◌>>=◌, ◌>>◌, when,
}
use autobahn_python.WebSocket.Conn.{
  Conn, State, opened, Action, is_opened, call, start_compress, end_compress, compress,
}
use autobahn_python.WebSocket.Xor.{create_xor_masker, process}
use autobahn_python.WebSocket.Frame.{length_octets}
use autobahn_python.WebSocket.Send.{send_data, send_frame, draw_mask, or_empty}
use autobahn_python.WebSocket.Message.{exceeds, note_message_exceeded}
use autobahn_python.WebSocket.Stream.{count_outgoing_message, count_app, count_web_socket}

-- The rounds of the loop: what each sends, and whether it is the last, `rest` being `payload[i:]`. A
-- round takes `pfs` octets, so one more round than there are octets is enough where `pfs` is positive.
unfoldable pub fragments : ℕ → ℕ → Octets → List (Octets × Bool)
fragments zero pfs rest = (rest, true) ∷ []
fragments (suc fuel) pfs rest =
    let more = (take pfs rest, false) ∷ fragments fuel pfs (drop pfs rest) in
    if ltb (length rest) pfs then (rest, true) ∷ [] else more

-- The first fragment has the opcode and the RSV bits, the others have 0 and 0.
unfoldable pub send_fragments : ℕ → ℕ → Bool → List (Octets × Bool) → Action (Unit {0})
send_fragments opcode rsv sync [] = pure tt
send_fragments opcode rsv sync ((payload, fin) ∷ more) = do
  send_frame opcode payload fin rsv none none none sync
  send_fragments 0 0 sync more

unfoldable pub fragment_size_of : Option ℕ → ℕ → Option ℕ
fragment_size_of (some n) auto = some n
fragment_size_of none auto = if ltb 0 auto then some auto else none

-- Unfragmented, or in fragments of at most `pfs` octets.
unfoldable pub send_in_frames : ℕ → Octets → Option ℕ → Bool → ℕ → Action (Unit {0})
send_in_frames opcode payload none sync rsv = send_frame opcode payload true rsv none none none sync
send_in_frames opcode payload (some pfs) sync rsv =
    if leb (length payload) pfs
    then send_frame opcode payload true rsv none none none sync
    else if ltb pfs 1
    then raise Error.invalid_fragment_size
    else send_fragments opcode rsv sync (fragments (length payload) pfs payload)

-- The payload as it goes out.
unfoldable pub compress_message : Bool → Octets → Action Octets
compress_message send_compressed payload =
    if send_compressed
    then (do
      _ ← call start_compress
      modify (count_app (length payload))
      payload1 ← call (compress payload)
      payload2 ← call end_compress
      modify (count_web_socket (length (payload1 ++ payload2)))
      pure (payload1 ++ payload2))
    else (do
      modify (count_app (length payload))
      modify (count_web_socket (length payload))
      pure payload)

-- `sendMessage(payload, isBinary, fragmentSize, sync, doNotCompress)`; the assertions on the types of
-- the arguments are left to the types here.
unfoldable pub send_message : Octets → Bool → Option ℕ → Bool → Bool → Action (Unit {0})
send_message payload is_binary fragment_size sync do_not_compress c =
    let send_compressed = is_some c.per_message_compress && not do_not_compress in
    if is_opened c.state
    then (do
      modify count_outgoing_message
      out ← compress_message send_compressed payload
      (if exceeds (length out) c.cfg.max_message_payload_size
          then (do modify note_message_exceeded; raise Error.payload_exceeded)
          else send_in_frames (if is_binary then 2 else 1) out
              (fragment_size_of fragment_size c.cfg.auto_fragment_size) sync
              (if send_compressed then 4 else 0)))
        c
    else (err Error.disconnected, c)

-- The attributes of a `PreparedMessage`; the payload and its kind are kept unless `doNotCompress`.
pub record PreparedMessage : Type 0 where
  pub payload : Option (Octets × Bool)
  pub do_not_compress : Bool
  pub payload_hybi : Octets

unfoldable pub prepared_octets : Octets → Bool → Option Octets → Option Octets
prepared_octets payload is_binary mask =
    let b0 = bit_or (2 ^ 7) (if is_binary then 2 else 1) in
    let masked : Octets = elim mask [
      | none ↦ payload
      | some m ↦
          (if length payload == 0
            then payload
            else (process (create_xor_masker m (some (length payload))) payload).0)
    ] in
    elim (length_octets (is_some mask) (length payload)) [
      | none ↦ none
      | some (b1, el) ↦ some (b0 ∷ b1 ∷ (el ++ (or_empty mask ++ masked)))
    ]

-- The constructor, with the mask that it draws if `applyMask`; `none` is its exception.
unfoldable pub prepare_message : Octets → Bool → Option Octets → Bool → Option PreparedMessage
prepare_message payload is_binary mask do_not_compress =
    elim (prepared_octets payload is_binary mask) [
      | none ↦ none
      | some raw ↦ some (record {
        payload = if do_not_compress then none else some (payload, is_binary);
        do_not_compress = do_not_compress;
        payload_hybi = raw;
      })
    ]

-- `sendPreparedMessage`; a missing payload is an attribute error.
unfoldable pub send_prepared_message : PreparedMessage → Action (Unit {0})
send_prepared_message m c =
    if not (is_some c.per_message_compress) || m.do_not_compress
    then (ok tt, send_data m.payload_hybi false none c)
    else elim m.payload [
      | none ↦ (err Error.logic_error, c)
      | some (payload, is_binary) ↦ send_message payload is_binary none false false c
    ]
