-- ===== src/RawSocket.antt =====
-- WAMP over a raw TCP stream: asyncio/rawsocket.py, the framing of `PrefixProtocol`, the handshake of
-- `RawSocketProtocol` and its two subclasses, and `WampRawSocketMixinGeneral` and
-- `WampRawSocketMixinAsyncio` as the classes `WampRawSocketServerProtocol` and
-- `WampRawSocketClientProtocol` put them together.
--
-- The log has the newest entry first. The TLS channel identifier that `_on_handshake_complete` notes
-- for the application is left out.
pub mod Handshake
pub mod Stream
pub mod Chunks
pub mod Wire
mod Examples
use autobahn_python.Base.{
  ℕ, zero, suc, ◌+◌, ◌-◌, ◌*◌, ◌/◌, ◌^◌, Octets, List, [], ◌∷◌, ◌++◌, Bool, true, false, ◌&&◌, ◌||◌,
  not, Option, none, some, ltb, leb, ◌==◌, if◌then◌else◌, be, unpack, take, drop, length, get_or,
  bit_and, bit_or, Error, Result, ok, err, Exec, pure, raise, gets, modify, ◌>>=◌, ◌>>◌,
}

pub data Event : Type 0 where
  wrote : Octets → Event  -- transport.write
  closed aborted : Event  -- transport.close, transport.abort
  received : Octets → Event  -- a string for the session
  session_closed : Bool → Event  -- session.onClose

-- How the application's session factory and `onOpen` end.
pub data Start : Type 0 where
  started factory_raised on_open_raised : Start

-- A frame's type and its length.
pub record Header : Type 0 where
  pub frame_type : ℕ
  pub frame_length : ℕ

-- The object. `serializers` are the keys of the server's factory, `serializer_id` is the client's own;
-- `accepts` says whether the session takes a string without an exception, `is_vacuous` whether the
-- serializer finds no message in it.
pub record Socket : Type 0 where
  pub is_server : Bool
  pub serializers : List ℕ
  pub serializer_id : ℕ
  pub start : Start
  pub accepts : Octets → Bool
  pub is_vacuous : Octets → Bool
  pub max_length : ℕ
  pub max_length_send : ℕ
  pub length_exp : ℕ
  pub buffer : Octets
  pub header : Option Header
  pub handshake_done : Bool
  pub session : Bool
  pub log : List Event

abbrev pub Act : Type 0 → Type 0
Act = Exec Socket

unfoldable pub emit : Event → Socket → Socket
emit e c = record c { log = e ∷ c.log }

-- FRAME_TYPE_DATA, FRAME_TYPE_PING, FRAME_TYPE_PONG, MAGIC_BYTE
abbrev pub frame_type_data : ℕ
frame_type_data = 0

abbrev pub frame_type_ping : ℕ
frame_type_ping = 1

abbrev pub frame_type_pong : ℕ
frame_type_pong = 2

abbrev pub magic_byte : ℕ
magic_byte = 0x7f

-- `abort`; `isOpen` holds from the creation of the session to the loss of the connection.
unfoldable pub abort : Act (Unit {0})
abort c = if c.session then (ok tt, emit aborted c) else (err Error.transport_lost, c)

unfoldable pub close : Act (Unit {0})
close c = if c.session then (ok tt, emit closed c) else (err Error.transport_lost, c)

-- `sendString`
unfoldable pub send_string : Octets → Act (Unit {0})
send_string payload c =
    if ltb c.max_length_send (length payload)
    then (err Error.data_too_big, c)
    else (ok tt, emit (wrote payload) (emit (wrote (be 4 (length payload))) c))

-- `stringReceived`; each exception ends in `abort`, that of a missing session too.
unfoldable pub string_received : Octets → Act (Unit {0})
string_received payload c =
    if c.session
    then (if c.accepts payload
        then (ok tt, emit (received payload) c)
        else abort (emit (received payload) c))
    else if c.is_vacuous payload
    then (ok tt, c)
    else abort c

-- What a complete frame is given to; `ping` and `pong` are not implemented.
unfoldable pub deliver : ℕ → Octets → Act (Unit {0})
deliver frame_type payload =
    if frame_type == frame_type_data then string_received payload else raise Error.not_implemented

unfoldable pub header_fields : Octets → Header
header_fields rest = record {
  frame_type = bit_and (get_or rest 0 0) 7;
  frame_length = unpack (0 ∷ take 3 (drop 1 rest));
}

-- The type and the length at the front of the buffer; `none` is a protocol error.
unfoldable pub decode_header : ℕ → Octets → Option Header
decode_header max_length rest =
    let h = header_fields rest in
    if ltb frame_type_pong h.frame_type || ltb max_length h.frame_length then none else some h

-- A header that was read before is not read again.
unfoldable pub current_header : Option Header → ℕ → Octets → Option Header
current_header (some h) max_length rest = some h
current_header none max_length rest = decode_header max_length rest

-- How the loop ends: with a rest of the buffer, with a protocol error or with an exception.
pub data Ending : Type 0 where
  left : Octets → Ending
  failed : Ending
  raised : Error → Ending

pub data Round : Type 0 where
  next : Octets → Round
  ended : Ending → Round

unfoldable pub after_frame : Octets → Result (Unit {0}) → Round
after_frame rest (ok _) = next rest
after_frame rest (err e) = ended (raised e)

-- With the header at hand.
unfoldable pub take_frame : Octets → Option Header → Socket → Round × Socket
take_frame rest none c = (ended failed, emit closed c)
take_frame rest (some h) c =
    if leb h.frame_length (length rest - 4)
    then (let (r, d) =
          deliver h.frame_type (take h.frame_length (drop 4 rest)) (record c { header = none }) in
        (after_frame (drop (4 + h.frame_length) rest) r, d))
    else (ended (left rest), record c { header = some h })

-- The body of the loop of `PrefixProtocol.data_received`, at the buffer from `pos` on.
unfoldable pub round : Octets → Socket → Round × Socket
round rest c =
    if leb 4 (length rest)
    then take_frame rest (current_header c.header c.max_length rest) c
    else (ended (left rest), c)

-- The loop; `none` is fuel that ran out.
unfoldable pub process_frames : ℕ → Octets → Socket → Option (Ending × Socket)
process_frames zero rest c = none
process_frames (suc fuel) rest c =
    let (r, d) = round rest c in
    elim r [ next rest' ↦ process_frames fuel rest' d | ended e ↦ some (e, d) ]

-- The buffer is cut only if the loop ended without a return and without an exception.
unfoldable pub conclude : Ending × Socket → Result (Unit {0}) × Socket
conclude (left rest, c) = (ok tt, record c { buffer = rest })
conclude (failed, c) = (ok tt, c)
conclude (raised e, c) = (err e, c)

unfoldable pub conclude_run : Option (Ending × Socket) → Option (Result (Unit {0}) × Socket)
conclude_run none = none
conclude_run (some r) = some (conclude r)

-- `PrefixProtocol.data_received`; each round takes the four octets of a header.
unfoldable pub frames_received : Octets → Socket → Option (Result (Unit {0}) × Socket)
frames_received octets c =
    let buffer = c.buffer ++ octets in
    conclude_run (process_frames (length buffer + 1) buffer (record c { buffer = buffer }))
