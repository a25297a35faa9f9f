-- ===== src/Wamp/Procedure.antt =====
-- CALL and INVOCATION, which run a procedure.
pub mod RoundTrip
pub mod Refused
use autobahn_python.Base.{
  ℕ, List, [], ◌∷◌, Bool, true, false, ◌||◌, Option, none, some, ◌==◌, if◌then◌else◌, ascii, Error,
  Result, ok, err,
}
use autobahn_python.Wamp.Value.{
  Text, ℤ, pos, negsuc, Value, bool, int, str, list, dict, Items, nil, cons, Entry, dict_with,
  optional, map, require, ◌>>=◌, ◌>>◌,
}
use autobahn_python.Wamp.Uri.{check_or_raise_uri}
use autobahn_python.Wamp.Checks.{
  check_or_raise_id, check_or_raise_extra, check_text, check_bool, check_int, check_forward_for,
  assert_forward_for,
}
use autobahn_python.Wamp.Payload.{
  Payload, Given, is_short, parse_payload, assert_payload, validate_kwargs, enc_algo_entry,
  enc_key_entry, enc_serializer_entry, marshal_payload, Peer, parse_peer,
}

pub record Call : Type 0 where
  pub request : ℤ
  pub procedure : Text
  pub payload : Payload
  pub timeout : Option ℤ
  pub receive_progress : Option Bool
  pub transaction_hash : Option Text
  pub caller : Peer
  pub forward_for : Option Items

pub record Invocation : Type 0 where
  pub request : ℤ
  pub registration : ℤ
  pub payload : Payload
  pub timeout : Option ℤ
  pub receive_progress : Option Bool
  pub caller : Peer
  pub procedure : Option Text
  pub transaction_hash : Option Text
  pub forward_for : Option Items

unfoldable pub check_timeout : Value → Result ℤ
check_timeout (int (pos n)) = ok (pos n)
check_timeout _ = err Error.invalid_message

unfoldable pub call_options : Call → List Entry
call_options m =
    (ascii "timeout", map int m.timeout)
    ∷ (ascii "receive_progress", map bool m.receive_progress)
    ∷ (ascii "transaction_hash", map str m.transaction_hash)
    ∷ enc_algo_entry m.payload
    ∷ enc_key_entry m.payload
    ∷ enc_serializer_entry m.payload
    ∷ (ascii "caller", map int m.caller.session)
    ∷ (ascii "caller_authid", map str m.caller.authid)
    ∷ (ascii "caller_authrole", map str m.caller.authrole)
    ∷ (ascii "forward_for", map list m.forward_for)
    ∷ []

unfoldable pub marshal_call : Call → Items
marshal_call m =
    cons (int m.request) (
      cons (dict (dict_with (call_options m))) (cons (str m.procedure) (marshal_payload m.payload)))

unfoldable pub invocation_details : Invocation → List Entry
invocation_details m =
    (ascii "timeout", map int m.timeout)
    ∷ (ascii "receive_progress", map bool m.receive_progress)
    ∷ (ascii "caller", map int m.caller.session)
    ∷ (ascii "caller_authid", map str m.caller.authid)
    ∷ (ascii "caller_authrole", map str m.caller.authrole)
    ∷ (ascii "procedure", map str m.procedure)
    ∷ (ascii "transaction_hash", map str m.transaction_hash)
    ∷ (ascii "forward_for", map list m.forward_for)
    ∷ enc_algo_entry m.payload
    ∷ enc_key_entry m.payload
    ∷ enc_serializer_entry m.payload
    ∷ []

unfoldable pub marshal_invocation : Invocation → Items
marshal_invocation m = cons (int m.request) (
    cons (int m.registration)
      (cons (dict (dict_with (invocation_details m))) (marshal_payload m.payload)))

module _ (is_decimal : ℕ → Bool) where
  unfoldable pub new_call :
      ℤ → Text → Given → Option ℤ → Option Bool → Option Text → Peer → Option Items → Result Call
  new_call request procedure given timeout receive_progress transaction_hash caller forward_for = do
    payload ← assert_payload is_decimal given
    assert_forward_for forward_for
    validate_kwargs payload.kwargs
    ok (record {
      request = request;
      procedure = procedure;
      payload = payload;
      timeout = timeout;
      receive_progress = receive_progress;
      transaction_hash = transaction_hash;
      caller = caller;
      forward_for = forward_for;
    })

  unfoldable pub parse_call : Items → Result Call
  parse_call (cons request (cons options (cons procedure rest))) = do
    require (is_short rest) Error.invalid_message
    request ← check_or_raise_id request
    options ← check_or_raise_extra options
    procedure ← check_or_raise_uri false false procedure
    given ← parse_payload is_decimal true options rest
    timeout ← optional check_timeout (ascii "timeout") options
    receive_progress ← optional check_bool (ascii "receive_progress") options
    transaction_hash ← optional check_text (ascii "transaction_hash") options
    caller ← parse_peer (ascii "caller") (ascii "caller_authid") (ascii "caller_authrole") options
    forward_for ← optional check_forward_for (ascii "forward_for") options
    new_call request procedure given timeout receive_progress transaction_hash caller forward_for
  parse_call _ = err Error.invalid_message

  unfoldable pub new_invocation :
      ℤ
      → ℤ
      → Given
      → Option ℤ
      → Option Bool
      → Peer
      → Option Text
      → Option Text
      → Option Items
      → Result Invocation
  new_invocation request registration given timeout receive_progress caller procedure
        transaction_hash forward_for =
      do
        payload ← assert_payload is_decimal given
        assert_forward_for forward_for
        validate_kwargs payload.kwargs
        ok (record {
          request = request;
          registration = registration;
          payload = payload;
          timeout = timeout;
          receive_progress = receive_progress;
          caller = caller;
          procedure = procedure;
          transaction_hash = transaction_hash;
          forward_for = forward_for;
        })

  unfoldable pub parse_invocation : Items → Result Invocation
  parse_invocation (cons request (cons registration (cons details rest))) = do
    require (is_short rest) Error.invalid_message
    request ← check_or_raise_id request
    registration ← check_or_raise_id registration
    details ← check_or_raise_extra details
    given ← parse_payload is_decimal false details rest
    timeout ← optional check_timeout (ascii "timeout") details
    receive_progress ← optional check_bool (ascii "receive_progress") details
    caller ← parse_peer (ascii "caller") (ascii "caller_authid") (ascii "caller_authrole") details
    procedure ← optional check_text (ascii "procedure") details
    transaction_hash ← optional check_text (ascii "transaction_hash") details
    forward_for ← optional check_forward_for (ascii "forward_for") details
    new_invocation request registration given timeout receive_progress caller procedure
        transaction_hash forward_for
  parse_invocation _ = err Error.invalid_message
