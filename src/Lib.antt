-- ===== src/Lib.antt =====
-- Autobahn|Python: the WebSocket protocol of the package autobahn/websocket, WAMP over a raw TCP stream
-- as autobahn/asyncio/rawsocket.py has it, and the messages of WAMP in the package autobahn/wamp.
--
-- A connection is an object of the class WebSocketProtocol (autobahn/websocket/protocol.py). The
-- networking framework calls it with octets that were received, with timers that have fired and with
-- the loss of the transport; the application calls it to send; it calls back with messages, pings,
-- pongs and the close, and writes to the transport. Here such an object is a record `Conn`, a method
-- is a function from the object to a result (or an exception) and the object afterwards, and the
-- callbacks and the calls of the transport are entries of the field `log`.
--
--   Base                 shared names: tests and lists over native numbers, octet strings, methods
--                        that change an object and may raise, and the rules for what they keep
--   WebSocket/Xor        autobahn/websocket/xormasker.py: XorMaskerNull, XorMaskerSimple,
--                        XorMaskerShifted1, create_xor_masker
--   WebSocket/Utf8       autobahn/websocket/utf8validator.py: the table and Utf8Validator
--   WebSocket/Conn       autobahn/websocket/protocol.py: the attributes of the object; Conn/Texts has
--                        the texts of its messages
--   WebSocket/Frame      the header of a frame, as sendFrame writes and processData reads it
--   WebSocket/Send       _trigger, _send, sendData, sendFrame, sendPing, sendPong
--   WebSocket/Close      sendCloseFrame, sendClose, dropConnection, _fail_connection and its callers,
--                        the handlers of timers; encode_truncate of autobahn/util.py
--   WebSocket/Message    onMessageBegin to onMessageEnd, onPing, onCloseFrame
--   WebSocket/Header     the tests of processData on a frame's header, and what it takes from it
--   WebSocket/Receive    onFrameBegin, onFrameData, processControlFrame
--   WebSocket/Process    onFrameEnd, processData, consumeData, _dataReceived, _sendAutoPing
--   WebSocket/Stream     beginMessage, beginMessageFrame, sendMessageFrameData, endMessage,
--                        sendMessageFrame
--   WebSocket/Whole      sendMessage with its fragmentation, PreparedMessage, sendPreparedMessage
--   WebSocket/Life       _connectionMade, _connectionLost
--   WebSocket/Run        the events at a connection as a step relation, and the objects they lead to
--   WebSocket/Examples   concrete connections and octets
--   RawSocket            autobahn/asyncio/rawsocket.py: PrefixProtocol and the WAMP mixins
--   RawSocket/Handshake  RawSocketProtocol, RawSocketClientProtocol, RawSocketServerProtocol
--   RawSocket/Examples   a client and a server
--   Wamp/Value           the values of the object serializers, and their dictionaries
--   Wamp/Uri             check_or_raise_uri of autobahn/wamp/message.py and its loose patterns
--   Wamp/Uri/Pattern     the regular expressions of the loose patterns, and what a match is
--   Wamp/Checks          the other checks that the classes of messages share
--   Wamp/Choices         options with one of a few texts as values
--   Wamp/Session         Abort, Challenge, Authenticate, Goodbye
--   Wamp/Requests        what the next two have in common
--   Wamp/Subscription    Subscribe, Subscribed, Unsubscribe, Unsubscribed, Published, EventReceived
--   Wamp/Registration    Register, Registered, Unregister, Unregistered
--   Wamp/Calls           Cancel, Interrupt
--   Wamp/Payload         arguments, payloads and peers, which the next three have in common
--   Wamp/Event           Event
--   Wamp/Answer          Error, Result, Yield
--   Wamp/Procedure       Call, Invocation
--   Wamp/Message         all of them: serialize and unserialize of autobahn/wamp/serializer.py
--   Wamp/Batch           MsgPackObjectSerializer of autobahn/wamp/serializer.py and its batches
--   Wamp/CallResult      CallOptions and CallResult of autobahn/wamp/types.py
--   Wamp/Pending         the dictionaries of outstanding requests of ApplicationSession
--   Wamp/Client          ApplicationSession of autobahn/wamp/protocol.py: the replies;
--                        IdGenerator of autobahn/util.py
--   Wamp/Client/Ending   onLeave, GOODBYE, onClose
--   Wamp/Client/Requests publish, call, subscribe, register, _unsubscribe, _unregister, leave
--   Wamp/Examples        concrete messages and URIs
--
-- A child module that is not listed here holds theorems on the module above it and has the name of what
-- it proves.
--
-- An octet string is a list of numbers. A text is given by its UTF-8. The octets that the object has
-- received and not used, `self.data`, are the field `buffer`; the timers are flags. The names of
-- methods and attributes are those of the source in another spelling: `_dataReceived` is
-- `data_received`, STATE_OPEN is `opened`.
--
-- A raw socket is a record `Socket` with a log of what it did, the newest first. A message of
-- WAMP is a record; `parse_call` is Call.parse on what follows the type of the message in the list, `new_call` is Call.__init__ and
-- `marshal_call` is Call.marshal. A `str` of WAMP is a list of code points, and a dictionary a list of
-- its entries in order. The records' types say what __init__ asserts of the types of the arguments. The
-- three kinds of errors are ProtocolError (`invalid_message`), InvalidUriError (`invalid_uri`) and
-- AssertionError (`assertion_failed`).
--
-- A session of WAMP is a record `Client`, whose futures are numbers; `step` is what one message or one
-- call of the application does to it.
--
-- The loop of consumeData is `process_loop`, on fuel: a round takes an octet off the buffer or leaves
-- a frame, so twice the length of the buffer and two more is enough. The loops of sendData and
-- sendMessage are on fuel too, the length of their octets, which is what they can take away. Each round
-- of the loop of PrefixProtocol.data_received takes at least the four octets of a header, so one more
-- than the length of the buffer is enough. It is the same for the batches of MsgPack, where a round takes
-- the four octets of a length.
--
-- Parameters: the compression object of a connection, which rests on third-party libraries and is
-- given by the answers to its calls; random numbers, the clock; and what the derived classes do with
-- octets before the connection is open, the handshake; what a WAMP session makes of a string; the object
-- serializers and msgpack, given by what they write and read; and which characters are decimal digits to
-- Unicode.
--
-- Not modelled: the opening handshake of WebSocket and HTTP, the factories and their options, URLs,
-- tracing, logs and timings, counters, the bindings of C code, Twisted, HELLO, WELCOME and PUBLISH, the
-- strict patterns of URIs, realm names, FlatBuffers, joining a realm and the calls of a WAMP session to
-- the application (EVENT, INVOCATION, INTERRUPT), authentication, and XBR.
-- The assertion that a mask has four octets, which only a caller's own mask can break, is left out.
pub mod Base
pub mod WebSocket
pub mod RawSocket
pub mod Wamp
