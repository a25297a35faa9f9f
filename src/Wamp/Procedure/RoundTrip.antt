-- ===== src/Wamp/Procedure/RoundTrip.antt =====
-- Marshalling and parsing CALL and INVOCATION.
use autobahn_python.Base.{ℕ, Bool, true, false, Option, ascii, ok, ◌≡◌, refl}
use autobahn_python.Wamp.Value.{ℤ, pos, negsuc, int, dict_with, read, optional, map, same_text}
use autobahn_python.Wamp.Value.Lookup.{
  read-map_when, get-dict_with, entry, is_single, has_key, Whenever,
}
use autobahn_python.Wamp.Checks.Accepted.{
  IsId, IsUri, AreForwarders, check_id-IsId, check_uri-IsUri, check_extra-dict_with, text_read,
  bool_read, forward_for_read, assert-AreForwarders,
}
use autobahn_python.Wamp.Payload.{enc_algo_entry, enc_key_entry, enc_serializer_entry, parse_peer}
use autobahn_python.Wamp.Payload.RoundTrip.{
  IsPayload, received_payload, received-IsPayload, HasEnc, payload_back, payload_accepted,
  marshal-is_short, validate_kwargs-IsExtra, peer_back,
}
use autobahn_python.Wamp.Procedure.{
  Call, Invocation, check_timeout, call_options, marshal_call, invocation_details,
  marshal_invocation, new_call, parse_call, new_invocation, parse_invocation,
}

-- A timeout is not negative.
abbrev pub IsTimeout : ℤ → Type 0
IsTimeout (pos n) = Unit {0}
IsTimeout (negsuc n) = ⊥

pub record IsCall (is_decimal : ℕ → Bool) (m : Call) : Type 0 where
  pub request_ok : IsId m.request
  pub uri_ok : IsUri false false m.procedure
  pub payload_ok : IsPayload is_decimal m.payload
  pub timeout_ok : Whenever IsTimeout m.timeout
  pub are_forwarders : Whenever AreForwarders m.forward_for

pub record IsInvocation (is_decimal : ℕ → Bool) (m : Invocation) : Type 0 where
  pub request_ok : IsId m.request
  pub registration_ok : IsId m.registration
  pub payload_ok : IsPayload is_decimal m.payload
  pub timeout_ok : Whenever IsTimeout m.timeout
  pub are_forwarders : Whenever AreForwarders m.forward_for

abbrev pub received_call : Call → Call
received_call m = record m { payload = received_payload m.payload }

abbrev pub received_invocation : Invocation → Invocation
received_invocation m = record m { payload = received_payload m.payload }

timeout_checked : (i : ℤ) → IsTimeout i → check_timeout (int i) ≡ ok i
unfolding check_timeout
timeout_checked (pos n) h = refl
timeout_checked (negsuc n) h = absurd h

timeout_read : (o : Option ℤ) → Whenever IsTimeout o → read check_timeout (map int o) ≡ ok o
timeout_read o h = read-map_when check_timeout int timeout_checked o h

call-HasEnc : (m : Call) → HasEnc m.payload (dict_with (call_options m))
unfolding call_options is_single has_key entry same_text ascii enc_algo_entry enc_key_entry
    enc_serializer_entry
call-HasEnc m = record {
  algo = get-dict_with (ascii "enc_algo") (call_options m) refl;
  key = get-dict_with (ascii "enc_key") (call_options m) refl;
  serializer = get-dict_with (ascii "enc_serializer") (call_options m) refl;
}

call_peer :
    (m : Call)
    → parse_peer
        (ascii "caller")
        (ascii "caller_authid")
        (ascii "caller_authrole")
        (dict_with (call_options m))
      ≡ ok m.caller
unfolding call_options is_single has_key entry same_text ascii enc_algo_entry enc_key_entry
    enc_serializer_entry
call_peer m =
    let es = call_options m in
    peer_back (ascii "caller") (ascii "caller_authid") (ascii "caller_authrole") (dict_with es)
      m.caller (get-dict_with (ascii "caller") es refl)
      (get-dict_with (ascii "caller_authid") es refl)
      (get-dict_with (ascii "caller_authrole") es refl)

pub parse_call-marshal :
    (is_decimal : ℕ → Bool) (m : Call)
    → IsCall is_decimal m
    → parse_call is_decimal (marshal_call m) ≡ ok (received_call m)
unfolding parse_call marshal_call call_options new_call optional is_single has_key entry same_text
    ascii enc_algo_entry enc_key_entry enc_serializer_entry
parse_call-marshal is_decimal m v =
    let es = call_options m in
    rw (
      marshal-is_short m.payload,
      check_id-IsId m.request v.request_ok,
      check_extra-dict_with es,
      check_uri-IsUri false false m.procedure v.uri_ok,
      payload_back is_decimal true (dict_with es) m.payload (call-HasEnc m) v.payload_ok,
      get-dict_with (ascii "timeout") es refl,
      timeout_read m.timeout v.timeout_ok,
      get-dict_with (ascii "receive_progress") es refl,
      bool_read m.receive_progress,
      get-dict_with (ascii "transaction_hash") es refl,
      text_read m.transaction_hash,
      call_peer m,
      get-dict_with (ascii "forward_for") es refl,
      forward_for_read m.forward_for,
      payload_accepted is_decimal m.payload v.payload_ok,
      assert-AreForwarders m.forward_for v.are_forwarders,
      validate_kwargs-IsExtra (received_payload m.payload).kwargs
          (received-IsPayload is_decimal m.payload v.payload_ok).keys_ok,
    )

invocation-HasEnc : (m : Invocation) → HasEnc m.payload (dict_with (invocation_details m))
unfolding invocation_details is_single has_key entry same_text ascii enc_algo_entry enc_key_entry
    enc_serializer_entry
invocation-HasEnc m = record {
  algo = get-dict_with (ascii "enc_algo") (invocation_details m) refl;
  key = get-dict_with (ascii "enc_key") (invocation_details m) refl;
  serializer = get-dict_with (ascii "enc_serializer") (invocation_details m) refl;
}

invocation_peer :
    (m : Invocation)
    → parse_peer
        (ascii "caller")
        (ascii "caller_authid")
        (ascii "caller_authrole")
        (dict_with (invocation_details m))
      ≡ ok m.caller
unfolding invocation_details is_single has_key entry same_text ascii enc_algo_entry enc_key_entry
    enc_serializer_entry
invocation_peer m =
    let es = invocation_details m in
    peer_back (ascii "caller") (ascii "caller_authid") (ascii "caller_authrole") (dict_with es)
      m.caller (get-dict_with (ascii "caller") es refl)
      (get-dict_with (ascii "caller_authid") es refl)
      (get-dict_with (ascii "caller_authrole") es refl)

pub parse_invocation-marshal :
    (is_decimal : ℕ → Bool) (m : Invocation)
    → IsInvocation is_decimal m
    → parse_invocation is_decimal (marshal_invocation m) ≡ ok (received_invocation m)
unfolding parse_invocation marshal_invocation invocation_details new_invocation optional is_single
    has_key entry same_text ascii enc_algo_entry enc_key_entry enc_serializer_entry
parse_invocation-marshal is_decimal m v =
    let es = invocation_details m in
    rw (
      marshal-is_short m.payload,
      check_id-IsId m.request v.request_ok,
      check_id-IsId m.registration v.registration_ok,
      check_extra-dict_with es,
      payload_back is_decimal false (dict_with es) m.payload (invocation-HasEnc m) v.payload_ok,
      get-dict_with (ascii "timeout") es refl,
      timeout_read m.timeout v.timeout_ok,
      get-dict_with (ascii "receive_progress") es refl,
      bool_read m.receive_progress,
      invocation_peer m,
      get-dict_with (ascii "procedure") es refl,
      text_read m.procedure,
      get-dict_with (ascii "transaction_hash") es refl,
      text_read m.transaction_hash,
      get-dict_with (ascii "forward_for") es refl,
      forward_for_read m.forward_for,
      payload_accepted is_decimal m.payload v.payload_ok,
      assert-AreForwarders m.forward_for v.are_forwarders,
      validate_kwargs-IsExtra (received_payload m.payload).kwargs
          (received-IsPayload is_decimal m.payload v.payload_ok).keys_ok,
    )
