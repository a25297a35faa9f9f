-- ===== src/Wamp/Message/RoundTrip.antt =====
-- Serializing and unserializing messages of any class, wamp/serializer.py.
use autobahn_python.Base.{
  ℕ, [], ◌∷◌, Bool, true, false, some, ok, ◌≡◌, refl, sym, subst, ap, ◌⊎◌, inl, inr, arith,
}
use autobahn_python.Wamp.Value.{Items, ◌>>=◌}
use autobahn_python.Wamp.Value.Lookup.{Whenever}
use autobahn_python.Wamp.Checks.Accepted.{IsId, IsUri, IsExtra, AreForwarders}
use autobahn_python.Wamp.Requests.{is_answer_or_revocation}
use autobahn_python.Wamp.Answer.{parse_result, parse_yield}
use autobahn_python.Wamp.Session.RoundTrip.{
  parse_abort-marshal, received_abort, parse_challenge-marshal, parse_authenticate-marshal,
  parse_goodbye-marshal, received_goodbye,
}
use autobahn_python.Wamp.Answer.RoundTrip.{
  parse_error-marshal, received_error, IsError, parse_answer-marshal, received_answer, IsAnswer,
}
use autobahn_python.Wamp.Subscription.RoundTrip.{
  parse_published-marshal, parse_subscribe-marshal, parse_subscribed-marshal,
  parse_unsubscribe-marshal, received_unsubscribe, parse_unsubscribed-marshal,
  parse_event_received-marshal,
}
use autobahn_python.Wamp.Event.RoundTrip.{parse_event-marshal, received_event, IsEvent}
use autobahn_python.Wamp.Procedure.RoundTrip.{
  parse_call-marshal, received_call, IsCall, parse_invocation-marshal, received_invocation,
  IsInvocation,
}
use autobahn_python.Wamp.Calls.RoundTrip.{parse_cancel-marshal, parse_interrupt-marshal}
use autobahn_python.Wamp.Registration.RoundTrip.{
  parse_register-marshal, IsRegister, parse_registered-marshal, parse_unregister-marshal,
  received_unregister, parse_unregistered-marshal,
}
use autobahn_python.Wamp.Message.{
  Message, unparsed, abort, challenge, authenticate, goodbye, error, published, subscribe,
  subscribed, unsubscribe, unsubscribed, event, event_received, call, cancel, result, register,
  registered, unregister, unregistered, invocation, interrupt, yielded, message_type, marshal_rest,
  marshal, is_unparsed, as_message, parse_class, parse, parse_all, ObjectSerializer, serialize,
  same_bool, is_binary_ok, read_raw, unserialize,
}

-- What a message has to fulfil so that its receiver takes it.
abbrev pub IsValid : (ℕ → Bool) → Message → Type 0
IsValid is_decimal (unparsed code wmsg) = is_unparsed code ≡ true
IsValid is_decimal (abort m) = IsUri false false m.reason
IsValid is_decimal (challenge m) = IsExtra m.extra
IsValid is_decimal (authenticate m) = IsExtra m.extra
IsValid is_decimal (goodbye m) = IsUri false false m.reason
IsValid is_decimal (error m) = IsError is_decimal m
IsValid is_decimal (published m) = IsId m.request × IsId m.publication
IsValid is_decimal (subscribe m) =
    IsId m.request × IsUri true false m.topic × Whenever AreForwarders m.forward_for
IsValid is_decimal (subscribed m) = IsId m.request × IsId m.subscription
IsValid is_decimal (unsubscribe m) =
    IsId m.request × IsId m.subscription × Whenever AreForwarders m.forward_for
IsValid is_decimal (unsubscribed m) =
    IsId m.request
    × Whenever (IsUri false false) m.reason
    × (is_answer_or_revocation m.request m.subscription ≡ true)
IsValid is_decimal (event m) = IsEvent is_decimal m
IsValid is_decimal (event_received m) = IsId m.publication
IsValid is_decimal (call m) = IsCall is_decimal m
IsValid is_decimal (cancel m) = IsId m.request × Whenever AreForwarders m.forward_for
IsValid is_decimal (result m) = IsAnswer is_decimal m
IsValid is_decimal (register m) = IsRegister m
IsValid is_decimal (registered m) = IsId m.request × IsId m.registration
IsValid is_decimal (unregister m) = IsId m.request × IsId m.registration
IsValid is_decimal (unregistered m) =
    IsId m.request
    × Whenever (IsUri false false) m.reason
    × (is_answer_or_revocation m.request m.registration ≡ true)
IsValid is_decimal (invocation m) = IsInvocation is_decimal m
IsValid is_decimal (interrupt m) =
    IsId m.request × Whenever (IsUri false false) m.reason × Whenever AreForwarders m.forward_for
IsValid is_decimal (yielded m) = IsAnswer is_decimal m

-- What the receiver has of it.
abbrev pub received : Message → Message
received (abort m) = abort (received_abort m)
received (goodbye m) = goodbye (received_goodbye m)
received (error m) = error (received_error m)
received (unsubscribe m) = unsubscribe (received_unsubscribe m)
received (event m) = event (received_event m)
received (call m) = call (received_call m)
received (result m) = result (received_answer m)
received (unregister m) = unregister (received_unregister m)
received (invocation m) = invocation (received_invocation m)
received (yielded m) = yielded (received_answer m)
received m = m

unparsed-cases : (code : ℕ) → is_unparsed code ≡ true → (code ≡ 1) ⊎ (code ≡ 2) ⊎ (code ≡ 16)
unfolding is_unparsed
unparsed-cases code h = ground arith

unparsed_back :
    (is_decimal : ℕ → Bool) (code : ℕ) (wmsg : Items)
    → is_unparsed code ≡ true
    → parse_class is_decimal code wmsg ≡ ok (unparsed code wmsg)
unfolding parse_class is_unparsed
unparsed_back is_decimal code wmsg h =
    let P : ℕ → Type 0 = λ c. parse_class is_decimal c wmsg ≡ ok (unparsed c wmsg) in
    elim (unparsed-cases code h) [
      | inl e ↦ subst P (sym e) refl
      | inr (inl e) ↦ subst P (sym e) refl
      | inr (inr e) ↦ subst P (sym e) refl
    ]

pub parse-marshal :
    (is_decimal : ℕ → Bool) (m : Message)
    → IsValid is_decimal m
    → parse is_decimal (marshal m) ≡ ok (received m)
unfolding parse parse_class marshal marshal_rest message_type as_message parse_result parse_yield
parse-marshal is_decimal (unparsed code wmsg) v = unparsed_back is_decimal code wmsg v
parse-marshal is_decimal (abort m) v = ap (λ r. r >>= λ x. ok (abort x)) (parse_abort-marshal m v)
parse-marshal is_decimal (challenge m) v =
    ap (λ r. r >>= λ x. ok (challenge x)) (parse_challenge-marshal m v)
parse-marshal is_decimal (authenticate m) v =
    ap (λ r. r >>= λ x. ok (authenticate x)) (parse_authenticate-marshal m v)
parse-marshal is_decimal (goodbye m) v =
    ap (λ r. r >>= λ x. ok (goodbye x)) (parse_goodbye-marshal m v)
parse-marshal is_decimal (error m) v =
    ap (λ r. r >>= λ x. ok (error x)) (parse_error-marshal is_decimal m v)
parse-marshal is_decimal (published m) v =
    ap (λ r. r >>= λ x. ok (published x)) (parse_published-marshal m v.0 v.1)
parse-marshal is_decimal (subscribe m) v =
    ap (λ r. r >>= λ x. ok (subscribe x)) (parse_subscribe-marshal m v.0 v.1 v.2)
parse-marshal is_decimal (subscribed m) v =
    ap (λ r. r >>= λ x. ok (subscribed x)) (parse_subscribed-marshal m v.0 v.1)
parse-marshal is_decimal (unsubscribe m) v =
    ap (λ r. r >>= λ x. ok (unsubscribe x)) (parse_unsubscribe-marshal m v.0 v.1 v.2)
parse-marshal is_decimal (unsubscribed m) v =
    ap (λ r. r >>= λ x. ok (unsubscribed x)) (parse_unsubscribed-marshal m v.0 v.1 v.2)
parse-marshal is_decimal (event m) v =
    ap (λ r. r >>= λ x. ok (event x)) (parse_event-marshal is_decimal m v)
parse-marshal is_decimal (event_received m) v =
    ap (λ r. r >>= λ x. ok (event_received x)) (parse_event_received-marshal m v)
parse-marshal is_decimal (call m) v =
    ap (λ r. r >>= λ x. ok (call x)) (parse_call-marshal is_decimal m v)
parse-marshal is_decimal (cancel m) v =
    ap (λ r. r >>= λ x. ok (cancel x)) (parse_cancel-marshal m v.0 v.1)
parse-marshal is_decimal (result m) v =
    ap (λ r. r >>= λ x. ok (result x)) (parse_answer-marshal is_decimal true m v)
parse-marshal is_decimal (register m) v =
    ap (λ r. r >>= λ x. ok (register x)) (parse_register-marshal m v)
parse-marshal is_decimal (registered m) v =
    ap (λ r. r >>= λ x. ok (registered x)) (parse_registered-marshal m v.0 v.1)
parse-marshal is_decimal (unregister m) v =
    ap (λ r. r >>= λ x. ok (unregister x)) (parse_unregister-marshal m v.0 v.1)
parse-marshal is_decimal (unregistered m) v =
    ap (λ r. r >>= λ x. ok (unregistered x)) (parse_unregistered-marshal m v.0 v.1 v.2)
parse-marshal is_decimal (invocation m) v =
    ap (λ r. r >>= λ x. ok (invocation x)) (parse_invocation-marshal is_decimal m v)
parse-marshal is_decimal (interrupt m) v =
    ap (λ r. r >>= λ x. ok (interrupt x)) (parse_interrupt-marshal m v.0 v.1 v.2)
parse-marshal is_decimal (yielded m) v =
    ap (λ r. r >>= λ x. ok (yielded x)) (parse_answer-marshal is_decimal false m v)

same_bool_refl : (b : Bool) → same_bool b b ≡ true
unfolding same_bool
same_bool_refl true = refl
same_bool_refl false = refl

-- A message with IDs, URIs, payload and forwarders as its class asks for, that serialize turns
-- into octets and whose list the object serializer reads back, is unserialized to the same
-- message; but a HELLO, WELCOME or PUBLISH is only carried along, and of the others an empty
-- message text, empty arguments, an empty payload, an empty list of forwarders of an UNSUBSCRIBE
-- or UNREGISTER, and resumable=False of a GOODBYE are not there afterwards.
pub unserialize-serialize :
    (is_decimal : ℕ → Bool) (s : ObjectSerializer) (m : Message)
    → s.read (s.write (marshal m)) ≡ some (marshal m ∷ [])
    → IsValid is_decimal m
    → let (octets, is_binary) = serialize s m in
      unserialize is_decimal s octets (some is_binary) ≡ ok (received m ∷ [])
unfolding serialize unserialize is_binary_ok read_raw parse_all
unserialize-serialize is_decimal s m h v =
    rw (same_bool_refl s.binary, h, parse-marshal is_decimal m v)
