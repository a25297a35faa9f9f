-- ===== src/Wamp/Procedure/Refused.antt =====
-- What a text in place of a payload does to a call.
use autobahn_python.Base.{ℕ, Bool, false, Error, err, ◌≡◌}
use autobahn_python.Wamp.Value.{Text, ℤ, int, str, dict, nil, cons, end, get, read, optional}
use autobahn_python.Wamp.Checks.{check_or_raise_extra, keys_are_texts}
use autobahn_python.Wamp.Checks.Accepted.{IsId, IsUri, check_id-IsId, check_uri-IsUri}
use autobahn_python.Wamp.Payload.{
  is_short, is_payload, parse_payload, parse_opaque, read_enc, assert_payload, assert_bytes,
  parse_peer,
}
use autobahn_python.Wamp.Procedure.{parse_call, new_call}

-- A CALL with a valid ID and procedure, no options and a text where the payload stands passes the
-- test of the payload's type and then runs into an assertion.
pub text_payload_asserts :
    (is_decimal : ℕ → Bool) (request : ℤ) (procedure payload : Text)
    → IsId request
    → IsUri false false procedure
    → parse_call is_decimal
        (cons (int request) (cons (dict end) (cons (str procedure) (cons (str payload) nil))))
      ≡ err Error.assertion_failed
unfolding parse_call new_call check_or_raise_extra keys_are_texts optional read get is_short
    is_payload parse_payload parse_opaque read_enc assert_payload assert_bytes parse_peer
text_payload_asserts is_decimal request procedure payload i u =
    rw (check_id-IsId request i, check_uri-IsUri false false procedure u)
