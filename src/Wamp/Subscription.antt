-- ===== src/Wamp/Subscription.antt =====
-- SUBSCRIBE, SUBSCRIBED, UNSUBSCRIBE and UNSUBSCRIBED, PUBLISHED and the acknowledgement of an EVENT.
pub mod RoundTrip
pub mod Refused
use autobahn_python.Base.{
  ℕ, List, [], ◌∷◌, Bool, true, false, Option, none, some, ascii, Error, Result, ok, err,
}
use autobahn_python.Wamp.Value.{
  Text, ℤ, Value, bool, int, str, list, dict, Items, nil, cons, Entry, dict_with, optional,
  or_default, map, assert, ◌>>=◌, ◌>>◌,
}
use autobahn_python.Wamp.Uri.{check_or_raise_uri}
use autobahn_python.Wamp.Checks.{
  check_or_raise_id, check_or_raise_extra, check_bool, check_forward_for, assert_forward_for,
}
use autobahn_python.Wamp.Choices.{Match, exact, prefix, wildcard, match_text, matches, check_choice}
use autobahn_python.Wamp.Requests.{
  parse_ids, marshal_ids, parse_end, marshal_end, parse_ended, marshal_ended,
  is_answer_or_revocation,
}

pub record Subscribe : Type 0 where
  pub request : ℤ
  pub topic : Text
  pub match : Match
  pub get_retained : Option Bool
  pub forward_for : Option Items

-- `Subscribe.__init__`; the types of the fields say the rest of what it asserts.
unfoldable pub new_subscribe :
    ℤ → Text → Option Match → Option Bool → Option Items → Result Subscribe
new_subscribe request topic match get_retained forward_for = do
  assert_forward_for forward_for
  ok (record {
    request = request;
    topic = topic;
    match = or_default exact match;
    get_retained = get_retained;
    forward_for = forward_for;
  })

unfoldable pub parse_subscribe : Items → Result Subscribe
parse_subscribe (cons request (cons options (cons topic nil))) = do
  request ← check_or_raise_id request
  options ← check_or_raise_extra options
  topic ← check_or_raise_uri true false topic
  match ← optional (check_choice match_text matches) (ascii "match") options
  get_retained ← optional check_bool (ascii "get_retained") options
  forward_for ← optional check_forward_for (ascii "forward_for") options
  new_subscribe request topic (some (or_default exact match)) get_retained forward_for
parse_subscribe _ = err Error.invalid_message

-- `if self.match and self.match != MATCH_EXACT:`
unfoldable pub match_value : Match → Option Value
match_value exact = none
match_value m = some (str (match_text m))

unfoldable pub subscribe_options : Subscribe → List Entry
subscribe_options m =
    (ascii "match", match_value m.match)
    ∷ (ascii "get_retained", map bool m.get_retained)
    ∷ (ascii "forward_for", map list m.forward_for)
    ∷ []

unfoldable pub marshal_subscribe : Subscribe → Items
marshal_subscribe m =
    cons (int m.request) (cons (dict (dict_with (subscribe_options m))) (cons (str m.topic) nil))

pub record Subscribed : Type 0 where
  pub request : ℤ
  pub subscription : ℤ

unfoldable pub parse_subscribed : Items → Result Subscribed
parse_subscribed wmsg = do
  (request, subscription) ← parse_ids wmsg
  ok (record { request = request; subscription = subscription })

unfoldable pub marshal_subscribed : Subscribed → Items
marshal_subscribed m = marshal_ids m.request m.subscription

pub record Unsubscribe : Type 0 where
  pub request : ℤ
  pub subscription : ℤ
  pub forward_for : Option Items

unfoldable pub new_unsubscribe : ℤ → ℤ → Option Items → Result Unsubscribe
new_unsubscribe request subscription forward_for = do
  assert_forward_for forward_for
  ok (record { request = request; subscription = subscription; forward_for = forward_for })

unfoldable pub parse_unsubscribe : Items → Result Unsubscribe
parse_unsubscribe wmsg = do
  (request, subscription, forward_for) ← parse_end wmsg
  new_unsubscribe request subscription forward_for

unfoldable pub marshal_unsubscribe : Unsubscribe → Items
marshal_unsubscribe m = marshal_end m.request m.subscription m.forward_for

pub record Unsubscribed : Type 0 where
  pub request : ℤ
  pub subscription : Option ℤ
  pub reason : Option Text

unfoldable pub new_unsubscribed : ℤ → Option ℤ → Option Text → Result Unsubscribed
new_unsubscribed request subscription reason = do
  assert (is_answer_or_revocation request subscription)
  ok (record { request = request; subscription = subscription; reason = reason })

unfoldable pub parse_unsubscribed : Items → Result Unsubscribed
parse_unsubscribed wmsg = do
  (request, subscription, reason) ← parse_ended (ascii "subscription") wmsg
  new_unsubscribed request subscription reason

unfoldable pub marshal_unsubscribed : Unsubscribed → Items
marshal_unsubscribed m = marshal_ended (ascii "subscription") m.request m.subscription m.reason

pub record Published : Type 0 where
  pub request : ℤ
  pub publication : ℤ

unfoldable pub parse_published : Items → Result Published
parse_published wmsg = do
  (request, publication) ← parse_ids wmsg
  ok (record { request = request; publication = publication })

unfoldable pub marshal_published : Published → Items
marshal_published m = marshal_ids m.request m.publication

pub record EventReceived : Type 0 where
  pub publication : ℤ

unfoldable pub parse_event_received : Items → Result EventReceived
parse_event_received (cons publication nil) = do
  publication ← check_or_raise_id publication
  ok (record { publication = publication })
parse_event_received _ = err Error.invalid_message

unfoldable pub marshal_event_received : EventReceived → Items
marshal_event_received m = cons (int m.publication) nil
