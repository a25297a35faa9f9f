-- ===== src/Wamp/Answer/RoundTrip.antt =====
-- Marshalling and parsing ERROR, RESULT and YIELD.
use autobahn_python.Base.{ℕ, Bool, true, false, ascii, ok, ◌≡◌, refl}
use autobahn_python.Wamp.Value.{ℤ, int, dict_with, optional, same_text}
use autobahn_python.Wamp.Value.Lookup.{get-dict_with, entry, is_single, has_key, Whenever}
use autobahn_python.Wamp.Checks.{check_int}
use autobahn_python.Wamp.Checks.Accepted.{
  IsId, IsUri, AreForwarders, check_id-IsId, check_uri-IsUri, check_extra-dict_with, bool_read,
  forward_for_read, assert-AreForwarders,
}
use autobahn_python.Wamp.Payload.{enc_algo_entry, enc_key_entry, enc_serializer_entry, parse_peer}
use autobahn_python.Wamp.Payload.RoundTrip.{
  IsPayload, received_payload, received-IsPayload, HasEnc, payload_back, payload_accepted,
  marshal-is_short, validate_kwargs-IsExtra, peer_back,
}
use autobahn_python.Wamp.Answer.{
  ErrorMessage, is_request_type, error_details, marshal_error, new_error, parse_error, Answer,
  answer_details, marshal_answer, new_answer, parse_answer,
}

pub record IsError (is_decimal : ℕ → Bool) (m : ErrorMessage) : Type 0 where
  pub type_ok : is_request_type m.request_type ≡ true
  pub request_ok : IsId m.request
  pub uri_ok : IsUri false false m.error
  pub payload_ok : IsPayload is_decimal m.payload
  pub are_forwarders : Whenever AreForwarders m.forward_for

pub record IsAnswer (is_decimal : ℕ → Bool) (m : Answer) : Type 0 where
  pub request_ok : IsId m.request
  pub payload_ok : IsPayload is_decimal m.payload
  pub are_forwarders : Whenever AreForwarders m.forward_for

abbrev pub received_error : ErrorMessage → ErrorMessage
received_error m = record m { payload = received_payload m.payload }

abbrev pub received_answer : Answer → Answer
received_answer m = record m { payload = received_payload m.payload }

int_checked : (i : ℤ) → check_int (int i) ≡ ok i
unfolding check_int
int_checked i = refl

error-HasEnc : (m : ErrorMessage) → HasEnc m.payload (dict_with (error_details m))
unfolding error_details is_single has_key entry same_text ascii enc_algo_entry enc_key_entry
    enc_serializer_entry
error-HasEnc m = record {
  algo = get-dict_with (ascii "enc_algo") (error_details m) refl;
  key = get-dict_with (ascii "enc_key") (error_details m) refl;
  serializer = get-dict_with (ascii "enc_serializer") (error_details m) refl;
}

error_peer :
    (m : ErrorMessage)
    → parse_peer
        (ascii "callee")
        (ascii "callee_authid")
        (ascii "callee_authrole")
        (dict_with (error_details m))
      ≡ ok m.callee
unfolding error_details is_single has_key entry same_text ascii enc_algo_entry enc_key_entry
    enc_serializer_entry
error_peer m =
    let es = error_details m in
    peer_back (ascii "callee") (ascii "callee_authid") (ascii "callee_authrole") (dict_with es)
      m.callee (get-dict_with (ascii "callee") es refl)
      (get-dict_with (ascii "callee_authid") es refl)
      (get-dict_with (ascii "callee_authrole") es refl)

pub parse_error-marshal :
    (is_decimal : ℕ → Bool) (m : ErrorMessage)
    → IsError is_decimal m
    → parse_error is_decimal (marshal_error m) ≡ ok (received_error m)
unfolding parse_error marshal_error error_details new_error optional is_single has_key entry
    same_text ascii enc_algo_entry enc_key_entry enc_serializer_entry
parse_error-marshal is_decimal m v =
    let es = error_details m in
    rw (
      marshal-is_short m.payload,
      int_checked m.request_type,
      v.type_ok,
      check_id-IsId m.request v.request_ok,
      check_extra-dict_with es,
      check_uri-IsUri false false m.error v.uri_ok,
      payload_back is_decimal false (dict_with es) m.payload (error-HasEnc m) v.payload_ok,
      error_peer m,
      get-dict_with (ascii "forward_for") es refl,
      forward_for_read m.forward_for,
      payload_accepted is_decimal m.payload v.payload_ok,
      assert-AreForwarders m.forward_for v.are_forwarders,
      validate_kwargs-IsExtra (received_payload m.payload).kwargs
          (received-IsPayload is_decimal m.payload v.payload_ok).keys_ok,
    )

answer-HasEnc : (m : Answer) → HasEnc m.payload (dict_with (answer_details m))
unfolding answer_details is_single has_key entry same_text ascii enc_algo_entry enc_key_entry
    enc_serializer_entry
answer-HasEnc m = record {
  algo = get-dict_with (ascii "enc_algo") (answer_details m) refl;
  key = get-dict_with (ascii "enc_key") (answer_details m) refl;
  serializer = get-dict_with (ascii "enc_serializer") (answer_details m) refl;
}

answer_peer :
    (m : Answer)
    → parse_peer
        (ascii "callee")
        (ascii "callee_authid")
        (ascii "callee_authrole")
        (dict_with (answer_details m))
      ≡ ok m.callee
unfolding answer_details is_single has_key entry same_text ascii enc_algo_entry enc_key_entry
    enc_serializer_entry
answer_peer m =
    let es = answer_details m in
    peer_back (ascii "callee") (ascii "callee_authid") (ascii "callee_authrole") (dict_with es)
      m.callee (get-dict_with (ascii "callee") es refl)
      (get-dict_with (ascii "callee_authid") es refl)
      (get-dict_with (ascii "callee_authrole") es refl)

pub parse_answer-marshal :
    (is_decimal : ℕ → Bool) (is_text_allowed : Bool) (m : Answer)
    → IsAnswer is_decimal m
    → parse_answer is_decimal is_text_allowed (marshal_answer m) ≡ ok (received_answer m)
unfolding parse_answer marshal_answer answer_details new_answer optional is_single has_key entry
    same_text ascii enc_algo_entry enc_key_entry enc_serializer_entry
parse_answer-marshal is_decimal is_text_allowed m v =
    let es = answer_details m in
    rw (
      marshal-is_short m.payload,
      check_id-IsId m.request v.request_ok,
      check_extra-dict_with es,
      payload_back is_decimal is_text_allowed (dict_with es) m.payload (answer-HasEnc m)
          v.payload_ok,
      get-dict_with (ascii "progress") es refl,
      bool_read m.progress,
      answer_peer m,
      get-dict_with (ascii "forward_for") es refl,
      forward_for_read m.forward_for,
      payload_accepted is_decimal m.payload v.payload_ok,
      assert-AreForwarders m.forward_for v.are_forwarders,
      validate_kwargs-IsExtra (received_payload m.payload).kwargs
          (received-IsPayload is_decimal m.payload v.payload_ok).keys_ok,
    )
