-- ===== src/Wamp/Message.antt =====
-- `Serializer.serialize` and `Serializer.unserialize` of wamp/serializer.py: messages of every class to
-- octets and back. The counters are left out. What the object serializer does is a parameter.
pub mod RoundTrip
use autobahn_python.Base.{
  ℕ, Octets, List, [], ◌∷◌, Bool, true, false, Option, none, some, ◌==◌, if◌then◌else◌, Error,
  Result, ok, err,
}
use autobahn_python.Wamp.Value.{
  ℤ, pos, negsuc, Value, null, bool, int, float, str, bytes, list, dict, Items, nil, cons, ◌>>=◌,
  ◌>>◌, require,
}
use autobahn_python.Wamp.Session.{
  Abort, parse_abort, marshal_abort, Challenge, parse_challenge, marshal_challenge, Authenticate,
  parse_authenticate, marshal_authenticate, Goodbye, parse_goodbye, marshal_goodbye,
}
use autobahn_python.Wamp.Answer.{
  ErrorMessage, parse_error, marshal_error, Answer, parse_result, marshal_answer, parse_yield,
}
use autobahn_python.Wamp.Subscription.{
  Published, parse_published, marshal_published, Subscribe, parse_subscribe, marshal_subscribe,
  Subscribed, parse_subscribed, marshal_subscribed, Unsubscribe, parse_unsubscribe,
  marshal_unsubscribe, Unsubscribed, parse_unsubscribed, marshal_unsubscribed, EventReceived,
  parse_event_received, marshal_event_received,
}
use autobahn_python.Wamp.Event.{Event, parse_event, marshal_event}
use autobahn_python.Wamp.Procedure.{
  Call, parse_call, marshal_call, Invocation, parse_invocation, marshal_invocation,
}
use autobahn_python.Wamp.Calls.{
  Cancel, parse_cancel, marshal_cancel, Interrupt, parse_interrupt, marshal_interrupt,
}
use autobahn_python.Wamp.Registration.{
  Register, parse_register, marshal_register, Registered, parse_registered, marshal_registered,
  Unregister, parse_unregister, marshal_unregister, Unregistered, parse_unregistered,
  marshal_unregistered,
}

-- HELLO, WELCOME and PUBLISH are left as what follows their types.
pub data Message : Type 0 where
  unparsed : ℕ → Items → Message
  abort : Abort → Message
  challenge : Challenge → Message
  authenticate : Authenticate → Message
  goodbye : Goodbye → Message
  error : ErrorMessage → Message
  published : Published → Message
  subscribe : Subscribe → Message
  subscribed : Subscribed → Message
  unsubscribe : Unsubscribe → Message
  unsubscribed : Unsubscribed → Message
  event : Event → Message
  event_received : EventReceived → Message
  call : Call → Message
  cancel : Cancel → Message
  result : Answer → Message
  register : Register → Message
  registered : Registered → Message
  unregister : Unregister → Message
  unregistered : Unregistered → Message
  invocation : Invocation → Message
  interrupt : Interrupt → Message
  yielded : Answer → Message

-- MESSAGE_TYPE
unfoldable pub message_type : Message → ℕ
message_type (unparsed code wmsg) = code
message_type (abort m) = 3
message_type (challenge m) = 4
message_type (authenticate m) = 5
message_type (goodbye m) = 6
message_type (error m) = 8
message_type (published m) = 17
message_type (subscribe m) = 32
message_type (subscribed m) = 33
message_type (unsubscribe m) = 34
message_type (unsubscribed m) = 35
message_type (event m) = 36
message_type (event_received m) = 337
message_type (call m) = 48
message_type (cancel m) = 49
message_type (result m) = 50
message_type (register m) = 64
message_type (registered m) = 65
message_type (unregister m) = 66
message_type (unregistered m) = 67
message_type (invocation m) = 68
message_type (interrupt m) = 69
message_type (yielded m) = 70

unfoldable pub marshal_rest : Message → Items
marshal_rest (unparsed code wmsg) = wmsg
marshal_rest (abort m) = marshal_abort m
marshal_rest (challenge m) = marshal_challenge m
marshal_rest (authenticate m) = marshal_authenticate m
marshal_rest (goodbye m) = marshal_goodbye m
marshal_rest (error m) = marshal_error m
marshal_rest (published m) = marshal_published m
marshal_rest (subscribe m) = marshal_subscribe m
marshal_rest (subscribed m) = marshal_subscribed m
marshal_rest (unsubscribe m) = marshal_unsubscribe m
marshal_rest (unsubscribed m) = marshal_unsubscribed m
marshal_rest (event m) = marshal_event m
marshal_rest (event_received m) = marshal_event_received m
marshal_rest (call m) = marshal_call m
marshal_rest (cancel m) = marshal_cancel m
marshal_rest (result m) = marshal_answer m
marshal_rest (register m) = marshal_register m
marshal_rest (registered m) = marshal_registered m
marshal_rest (unregister m) = marshal_unregister m
marshal_rest (unregistered m) = marshal_unregistered m
marshal_rest (invocation m) = marshal_invocation m
marshal_rest (interrupt m) = marshal_interrupt m
marshal_rest (yielded m) = marshal_answer m

unfoldable pub marshal : Message → Value
marshal m = list (cons (int (pos (message_type m))) (marshal_rest m))

unfoldable pub is_unparsed : ℕ → Bool
is_unparsed code = if code == 1 then true else if code == 2 then true else code == 16

unfoldable pub as_message : {A : Type 0} → (A → Message) → Result A → Result Message
as_message f r = r >>= λ m. ok (f m)

module _ (is_decimal : ℕ → Bool) where
  -- MESSAGE_TYPE_MAP and the `parse` of the class.
  unfoldable pub parse_class : ℕ → Items → Result Message
  parse_class code wmsg =
      if code == 3
      then as_message abort (parse_abort wmsg)
      else if code == 4
      then as_message challenge (parse_challenge wmsg)
      else if code == 5
      then as_message authenticate (parse_authenticate wmsg)
      else if code == 6
      then as_message goodbye (parse_goodbye wmsg)
      else if code == 8
      then as_message error (parse_error is_decimal wmsg)
      else if code == 17
      then as_message published (parse_published wmsg)
      else if code == 32
      then as_message subscribe (parse_subscribe wmsg)
      else if code == 33
      then as_message subscribed (parse_subscribed wmsg)
      else if code == 34
      then as_message unsubscribe (parse_unsubscribe wmsg)
      else if code == 35
      then as_message unsubscribed (parse_unsubscribed wmsg)
      else if code == 36
      then as_message event (parse_event is_decimal wmsg)
      else if code == 337
      then as_message event_received (parse_event_received wmsg)
      else if code == 48
      then as_message call (parse_call is_decimal wmsg)
      else if code == 49
      then as_message cancel (parse_cancel wmsg)
      else if code == 50
      then as_message result (parse_result is_decimal wmsg)
      else if code == 64
      then as_message register (parse_register wmsg)
      else if code == 65
      then as_message registered (parse_registered wmsg)
      else if code == 66
      then as_message unregister (parse_unregister wmsg)
      else if code == 67
      then as_message unregistered (parse_unregistered wmsg)
      else if code == 68
      then as_message invocation (parse_invocation is_decimal wmsg)
      else if code == 69
      then as_message interrupt (parse_interrupt wmsg)
      else if code == 70
      then as_message yielded (parse_yield is_decimal wmsg)
      else if is_unparsed code
      then ok (unparsed code wmsg)
      else err Error.invalid_message

  unfoldable pub parse : Value → Result Message
  parse (list (cons (int (pos code)) wmsg)) = parse_class code wmsg
  parse _ = err Error.invalid_message

  unfoldable pub parse_all : List Value → Result (List Message)
  parse_all [] = ok []
  parse_all (raw ∷ raws) = do m ← parse raw; ms ← parse_all raws; ok (m ∷ ms)

-- An object serializer; `read` gives nothing if it raises.
pub record ObjectSerializer : Type 0 where
  pub binary : Bool
  pub write : Value → Octets
  pub read : Octets → Option (List Value)

unfoldable pub serialize : ObjectSerializer → Message → Octets × Bool
serialize s m = (s.write (marshal m), s.binary)

unfoldable pub same_bool : Bool → Bool → Bool
same_bool true b = b
same_bool false true = false
same_bool false false = true

-- `isBinary` is what the transport knows of the frame, if anything.
unfoldable pub is_binary_ok : ObjectSerializer → Option Bool → Bool
is_binary_ok s none = true
is_binary_ok s (some b) = same_bool b s.binary

unfoldable pub read_raw : Option (List Value) → Result (List Value)
read_raw none = err Error.invalid_message
read_raw (some raws) = ok raws

unfoldable pub unserialize :
    (is_decimal : ℕ → Bool) → ObjectSerializer → Octets → Option Bool → Result (List Message)
unserialize is_decimal s payload is_binary = do
  require (is_binary_ok s is_binary) Error.invalid_message
  raws ← read_raw (s.read payload)
  parse_all is_decimal raws
