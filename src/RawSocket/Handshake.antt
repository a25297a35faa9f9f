-- ===== src/RawSocket/Handshake.antt =====
-- The opening handshake of asyncio/rawsocket.py: four octets each way, then frames.
pub mod Agreement
use autobahn_python.Base.{
  ℕ, ◌+◌, ◌*◌, ◌/◌, ◌^◌, Octets, List, [], ◌∷◌, ◌++◌, Bool, true, false, ◌&&◌, ◌||◌, not, Option,
  none, some, ltb, leb, ◌==◌, if◌then◌else◌, take, drop, length, get_or, bit_and, bit_or, Error,
  Result, ok, err,
}
use autobahn_python.RawSocket.{
  Socket, Start, started, factory_raised, on_open_raised, Act, Event, wrote, closed, session_closed,
  emit, abort, magic_byte, frames_received,
}

-- How `process_handshake` ends: well, with a `HandshakeError`, or with another exception.
pub data Outcome (A : Type 0) : Type 0 where
  accepted : A → Outcome A
  handshake_error : Outcome A
  thrown : Error → Outcome A

-- `parse_handshake`: the serializer and the exponent of the peer's limit, which is noted.
unfoldable pub parse_handshake : Socket → Outcome (ℕ × ℕ) × Socket
parse_handshake c =
    let buf1 = get_or c.buffer 1 0 in
    let lexp = buf1 / 2 ^ 4 in
    if not (get_or c.buffer 0 0 == magic_byte)
    then (handshake_error, c)
    else if not (get_or c.buffer 2 0 == 0) || not (get_or c.buffer 3 0 == 0)
    then (handshake_error, record c { max_length_send = 2 ^ (lexp + 9) })
    else (accepted (bit_and buf1 0x0f, lexp), record c { max_length_send = 2 ^ (lexp + 9) })

-- The client's check of the answer; the serializer 0 announces an error.
unfoldable pub client_check : ℕ → Outcome (ℕ × ℕ) → Outcome (Unit {0})
client_check serializer_id (accepted (ser, _)) =
    if ser == 0 || not (serializer_id == ser) then handshake_error else accepted tt
client_check serializer_id handshake_error = handshake_error
client_check serializer_id (thrown e) = thrown e

unfoldable pub member : ℕ → List ℕ → Bool
member n [] = false
member n (m ∷ ms) = n == m || member n ms

-- The octets of a handshake, with an exponent and a serializer.
unfoldable pub handshake_octets : ℕ → ℕ → Octets
handshake_octets lexp ser = magic_byte ∷ bit_or (lexp * 2 ^ 4) ser ∷ 0 ∷ 0 ∷ []

abbrev pub err_serializer_unsupported : ℕ
err_serializer_unsupported = 1

-- The server's part for an unknown serializer: `supports_serializer` calls `abort`, which may raise.
unfoldable pub refuse : Result (Unit {0}) × Socket → Outcome (Unit {0}) × Socket
refuse (ok _, c) = (handshake_error, emit (wrote (handshake_octets err_serializer_unsupported 0)) c)
refuse (err e, c) = (thrown e, c)

unfoldable pub server_answer : Outcome (ℕ × ℕ) → Socket → Outcome (Unit {0}) × Socket
server_answer (accepted (ser, _)) c =
    if member ser c.serializers
    then (accepted tt, emit (wrote (handshake_octets c.length_exp (bit_and ser 0x0f))) c)
    else refuse (abort c)
server_answer handshake_error c = (handshake_error, c)
server_answer (thrown e) c = (thrown e, c)

-- `process_handshake` of the two classes.
unfoldable pub process_handshake : Socket → Outcome (Unit {0}) × Socket
process_handshake c =
    let (parsed, d) = parse_handshake c in
    if c.is_server then server_answer parsed d else (client_check c.serializer_id parsed, d)

-- `_on_handshake_complete`
unfoldable pub start_session : Start → Act (Unit {0})
start_session started c = (ok tt, record c { session = true })
start_session on_open_raised c = abort (record c { session = true })
start_session factory_raised c = abort c

-- What is in the buffer behind the handshake are frames.
unfoldable pub rest_received : Result (Unit {0}) → Socket → Option (Result (Unit {0}) × Socket)
rest_received (err e) c = some (err e, c)
rest_received (ok _) c =
    let octets = drop 4 c.buffer in
    let d = record c { buffer = [] } in
    if leb 1 (length octets) then frames_received octets d else some (ok tt, d)

unfoldable pub open_session : Socket → Option (Result (Unit {0}) × Socket)
open_session c =
    let (r, d) = start_session c.start (record c { handshake_done = true }) in rest_received r d

unfoldable pub after_handshake : Outcome (Unit {0}) → Socket → Option (Result (Unit {0}) × Socket)
after_handshake (accepted _) c = open_session c
after_handshake handshake_error c = some (ok tt, emit closed c)
after_handshake (thrown e) c = some (err e, c)

unfoldable pub handshake_received : Socket → Option (Result (Unit {0}) × Socket)
handshake_received c = let (r, d) = process_handshake c in after_handshake r d

-- `RawSocketProtocol.data_received`
unfoldable pub data_received : Octets → Socket → Option (Result (Unit {0}) × Socket)
data_received octets c =
    let d = record c { buffer = c.buffer ++ octets } in
    if c.handshake_done
    then frames_received octets c
    else if leb 4 (length d.buffer)
    then handshake_received d
    else some (ok tt, d)

-- `connection_made`; the client speaks first.
unfoldable pub connection_made : Socket → Socket
connection_made c =
    let d = record c { buffer = []; header = none; handshake_done = false } in
    if c.is_server then d else emit (wrote (handshake_octets c.length_exp c.serializer_id)) d

-- `connection_lost`; without a session the call of `onClose` raises, which is caught.
unfoldable pub connection_lost : Bool → Socket → Socket
connection_lost was_clean c =
    if c.session then record (emit (session_closed was_clean) c) { session = false } else c
