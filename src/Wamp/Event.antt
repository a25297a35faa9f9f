-- ===== src/Wamp/Event.antt =====
-- EVENT, which brings a publication to a subscriber.
pub mod RoundTrip
use autobahn_python.Base.{
  ℕ, List, [], ◌∷◌, Bool, true, false, ◌||◌, Option, none, some, ◌==◌, if◌then◌else◌, ascii, Error,
  Result, ok, err,
}
use autobahn_python.Wamp.Value.{
  Text, ℤ, pos, negsuc, Value, bool, int, str, list, dict, Items, nil, cons, Entry, dict_with,
  optional, map, require, ◌>>=◌, ◌>>◌,
}
use autobahn_python.Wamp.Uri.{check_or_raise_uri}
use autobahn_python.Wamp.Checks.{
  check_or_raise_id, check_or_raise_extra, check_text, check_bool, check_int, check_forward_for,
  assert_forward_for,
}
use autobahn_python.Wamp.Payload.{
  Payload, Given, is_short, parse_payload, assert_payload, validate_kwargs, enc_algo_entry,
  enc_key_entry, enc_serializer_entry, marshal_payload, Peer, parse_peer,
}

pub record Event : Type 0 where
  pub subscription : ℤ
  pub publication : ℤ
  pub payload : Payload
  pub publisher : Peer
  pub topic : Option Text
  pub retained : Option Bool
  pub transaction_hash : Option Text
  pub x_acknowledged_delivery : Option Bool
  pub forward_for : Option Items

unfoldable pub event_details : Event → List Entry
event_details m =
    (ascii "publisher", map int m.publisher.session)
    ∷ (ascii "publisher_authid", map str m.publisher.authid)
    ∷ (ascii "publisher_authrole", map str m.publisher.authrole)
    ∷ (ascii "topic", map str m.topic)
    ∷ (ascii "retained", map bool m.retained)
    ∷ (ascii "transaction_hash", map str m.transaction_hash)
    ∷ (ascii "x_acknowledged_delivery", map bool m.x_acknowledged_delivery)
    ∷ (ascii "forward_for", map list m.forward_for)
    ∷ enc_algo_entry m.payload
    ∷ enc_key_entry m.payload
    ∷ enc_serializer_entry m.payload
    ∷ []

unfoldable pub marshal_event : Event → Items
marshal_event m = cons (int m.subscription) (
    cons (int m.publication)
      (cons (dict (dict_with (event_details m))) (marshal_payload m.payload)))

module _ (is_decimal : ℕ → Bool) where
  -- `Event.__init__`
  unfoldable pub new_event :
      ℤ
      → ℤ
      → Given
      → Peer
      → Option Text
      → Option Bool
      → Option Text
      → Option Bool
      → Option Items
      → Result Event
  new_event subscription publication given publisher topic retained transaction_hash
        x_acknowledged_delivery forward_for =
      do
        payload ← assert_payload is_decimal given
        assert_forward_for forward_for
        validate_kwargs payload.kwargs
        ok (record {
          subscription = subscription;
          publication = publication;
          payload = payload;
          publisher = publisher;
          topic = topic;
          retained = retained;
          transaction_hash = transaction_hash;
          x_acknowledged_delivery = x_acknowledged_delivery;
          forward_for = forward_for;
        })

  unfoldable pub parse_event : Items → Result Event
  parse_event (cons subscription (cons publication (cons details rest))) = do
    require (is_short rest) Error.invalid_message
    subscription ← check_or_raise_id subscription
    publication ← check_or_raise_id publication
    details ← check_or_raise_extra details
    given ← parse_payload is_decimal false details rest
    publisher ←
        parse_peer (ascii "publisher") (ascii "publisher_authid") (ascii "publisher_authrole")
          details
    topic ← optional check_text (ascii "topic") details
    retained ← optional check_bool (ascii "retained") details
    transaction_hash ← optional check_text (ascii "transaction_hash") details
    x_acknowledged_delivery ← optional check_bool (ascii "x_acknowledged_delivery") details
    forward_for ← optional check_forward_for (ascii "forward_for") details
    new_event subscription publication given publisher topic retained transaction_hash
        x_acknowledged_delivery forward_for
  parse_event _ = err Error.invalid_message
