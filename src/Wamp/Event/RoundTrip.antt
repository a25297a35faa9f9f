-- ===== src/Wamp/Event/RoundTrip.antt =====
-- Marshalling and parsing EVENT.
use autobahn_python.Base.{ℕ, Bool, false, ascii, ok, ◌≡◌, refl}
use autobahn_python.Wamp.Value.{dict_with, optional, same_text}
use autobahn_python.Wamp.Value.Lookup.{get-dict_with, entry, is_single, has_key, Whenever}
use autobahn_python.Wamp.Checks.Accepted.{
  IsId, AreForwarders, check_id-IsId, check_extra-dict_with, text_read, bool_read, forward_for_read,
  assert-AreForwarders,
}
use autobahn_python.Wamp.Payload.{enc_algo_entry, enc_key_entry, enc_serializer_entry, parse_peer}
use autobahn_python.Wamp.Payload.RoundTrip.{
  IsPayload, received_payload, received-IsPayload, HasEnc, payload_back, payload_accepted,
  marshal-is_short, validate_kwargs-IsExtra, peer_back,
}
use autobahn_python.Wamp.Event.{Event, event_details, marshal_event, new_event, parse_event}

pub record IsEvent (is_decimal : ℕ → Bool) (m : Event) : Type 0 where
  pub subscription_ok : IsId m.subscription
  pub publication_ok : IsId m.publication
  pub payload_ok : IsPayload is_decimal m.payload
  pub are_forwarders : Whenever AreForwarders m.forward_for

abbrev pub received_event : Event → Event
received_event m = record m { payload = received_payload m.payload }

has_enc : (m : Event) → HasEnc m.payload (dict_with (event_details m))
unfolding event_details is_single has_key entry same_text ascii enc_algo_entry enc_key_entry
    enc_serializer_entry
has_enc m = record {
  algo = get-dict_with (ascii "enc_algo") (event_details m) refl;
  key = get-dict_with (ascii "enc_key") (event_details m) refl;
  serializer = get-dict_with (ascii "enc_serializer") (event_details m) refl;
}

publisher_back :
    (m : Event)
    → parse_peer
        (ascii "publisher")
        (ascii "publisher_authid")
        (ascii "publisher_authrole")
        (dict_with (event_details m))
      ≡ ok m.publisher
unfolding event_details is_single has_key entry same_text ascii enc_algo_entry enc_key_entry
    enc_serializer_entry
publisher_back m =
    let es = event_details m in
    peer_back (ascii "publisher") (ascii "publisher_authid") (ascii "publisher_authrole")
      (dict_with es) m.publisher (get-dict_with (ascii "publisher") es refl)
      (get-dict_with (ascii "publisher_authid") es refl)
      (get-dict_with (ascii "publisher_authrole") es refl)

pub parse_event-marshal :
    (is_decimal : ℕ → Bool) (m : Event)
    → IsEvent is_decimal m
    → parse_event is_decimal (marshal_event m) ≡ ok (received_event m)
unfolding parse_event marshal_event event_details new_event optional is_single has_key entry
    same_text ascii enc_algo_entry enc_key_entry enc_serializer_entry
parse_event-marshal is_decimal m v =
    let es = event_details m in
    rw (
      marshal-is_short m.payload,
      check_id-IsId m.subscription v.subscription_ok,
      check_id-IsId m.publication v.publication_ok,
      check_extra-dict_with es,
      payload_back is_decimal false (dict_with es) m.payload (has_enc m) v.payload_ok,
      publisher_back m,
      get-dict_with (ascii "topic") es refl,
      text_read m.topic,
      get-dict_with (ascii "retained") es refl,
      bool_read m.retained,
      get-dict_with (ascii "transaction_hash") es refl,
      text_read m.transaction_hash,
      get-dict_with (ascii "x_acknowledged_delivery") es refl,
      bool_read m.x_acknowledged_delivery,
      get-dict_with (ascii "forward_for") es refl,
      forward_for_read m.forward_for,
      payload_accepted is_decimal m.payload v.payload_ok,
      assert-AreForwarders m.forward_for v.are_forwarders,
      validate_kwargs-IsExtra (received_payload m.payload).kwargs
          (received-IsPayload is_decimal m.payload v.payload_ok).keys_ok,
    )
