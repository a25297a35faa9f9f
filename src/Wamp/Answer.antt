-- ===== src/Wamp/Answer.antt =====
-- ERROR, RESULT and YIELD, which answer requests. RESULT and YIELD have the same fields; a RESULT may
-- have a text as its payload when it is parsed.
pub mod RoundTrip
use autobahn_python.Base.{
  ℕ, List, [], ◌∷◌, Bool, true, false, ◌||◌, Option, none, some, ◌==◌, if◌then◌else◌, ascii, Error,
  Result, ok, err,
}
use autobahn_python.Wamp.Value.{
  Text, ℤ, pos, negsuc, Value, bool, int, str, list, dict, Items, nil, cons, Entry, dict_with,
  optional, map, require, ◌>>=◌, ◌>>◌,
}
use autobahn_python.Wamp.Uri.{check_or_raise_uri}
use autobahn_python.Wamp.Checks.{
  check_or_raise_id, check_or_raise_extra, check_text, check_bool, check_int, check_forward_for,
  assert_forward_for,
}
use autobahn_python.Wamp.Payload.{
  Payload, Given, is_short, parse_payload, assert_payload, validate_kwargs, enc_algo_entry,
  enc_key_entry, enc_serializer_entry, marshal_payload, Peer, parse_peer,
}

pub record ErrorMessage : Type 0 where
  pub request_type : ℤ
  pub request : ℤ
  pub error : Text
  pub payload : Payload
  pub callee : Peer
  pub forward_for : Option Items

-- SUBSCRIBE, UNSUBSCRIBE, PUBLISH, REGISTER, UNREGISTER, CALL and INVOCATION.
unfoldable pub is_request_type : ℤ → Bool
is_request_type (pos n) = n == 32 || n == 34 || n == 16 || n == 64 || n == 66 || n == 48 || n == 68
is_request_type (negsuc _) = false

unfoldable pub error_details : ErrorMessage → List Entry
error_details m =
    (ascii "callee", map int m.callee.session)
    ∷ (ascii "callee_authid", map str m.callee.authid)
    ∷ (ascii "callee_authrole", map str m.callee.authrole)
    ∷ (ascii "forward_for", map list m.forward_for)
    ∷ enc_algo_entry m.payload
    ∷ enc_key_entry m.payload
    ∷ enc_serializer_entry m.payload
    ∷ []

unfoldable pub marshal_error : ErrorMessage → Items
marshal_error m = cons (int m.request_type) (
    cons (int m.request)
      (cons (dict (dict_with (error_details m))) (cons (str m.error) (marshal_payload m.payload))))

pub record Answer : Type 0 where
  pub request : ℤ
  pub payload : Payload
  pub progress : Option Bool
  pub callee : Peer
  pub forward_for : Option Items

unfoldable pub answer_details : Answer → List Entry
answer_details m =
    (ascii "progress", map bool m.progress)
    ∷ (ascii "callee", map int m.callee.session)
    ∷ (ascii "callee_authid", map str m.callee.authid)
    ∷ (ascii "callee_authrole", map str m.callee.authrole)
    ∷ (ascii "forward_for", map list m.forward_for)
    ∷ enc_algo_entry m.payload
    ∷ enc_key_entry m.payload
    ∷ enc_serializer_entry m.payload
    ∷ []

unfoldable pub marshal_answer : Answer → Items
marshal_answer m =
    cons (int m.request) (cons (dict (dict_with (answer_details m))) (marshal_payload m.payload))

module _ (is_decimal : ℕ → Bool) where
  unfoldable pub new_error : ℤ → ℤ → Text → Given → Peer → Option Items → Result ErrorMessage
  new_error request_type request error given callee forward_for = do
    payload ← assert_payload is_decimal given
    assert_forward_for forward_for
    validate_kwargs payload.kwargs
    ok (record {
      request_type = request_type;
      request = request;
      error = error;
      payload = payload;
      callee = callee;
      forward_for = forward_for;
    })

  unfoldable pub parse_error : Items → Result ErrorMessage
  parse_error (cons request_type (cons request (cons details (cons error rest)))) = do
    require (is_short rest) Error.invalid_message
    request_type ← check_int request_type
    require (is_request_type request_type) Error.invalid_message
    request ← check_or_raise_id request
    details ← check_or_raise_extra details
    error ← check_or_raise_uri false false error
    given ← parse_payload is_decimal false details rest
    callee ← parse_peer (ascii "callee") (ascii "callee_authid") (ascii "callee_authrole") details
    forward_for ← optional check_forward_for (ascii "forward_for") details
    new_error request_type request error given callee forward_for
  parse_error _ = err Error.invalid_message

  -- `Result.__init__` and `Yield.__init__`
  unfoldable pub new_answer : ℤ → Given → Option Bool → Peer → Option Items → Result Answer
  new_answer request given progress callee forward_for = do
    payload ← assert_payload is_decimal given
    assert_forward_for forward_for
    validate_kwargs payload.kwargs
    ok (record {
      request = request;
      payload = payload;
      progress = progress;
      callee = callee;
      forward_for = forward_for;
    })

  unfoldable pub parse_answer : (is_text_allowed : Bool) → Items → Result Answer
  parse_answer is_text_allowed (cons request (cons details rest)) = do
    require (is_short rest) Error.invalid_message
    request ← check_or_raise_id request
    details ← check_or_raise_extra details
    given ← parse_payload is_decimal is_text_allowed details rest
    progress ← optional check_bool (ascii "progress") details
    callee ← parse_peer (ascii "callee") (ascii "callee_authid") (ascii "callee_authrole") details
    forward_for ← optional check_forward_for (ascii "forward_for") details
    new_answer request given progress callee forward_for
  parse_answer is_text_allowed _ = err Error.invalid_message

  unfoldable pub parse_result : Items → Result Answer
  parse_result = parse_answer true

  unfoldable pub parse_yield : Items → Result Answer
  parse_yield = parse_answer false
