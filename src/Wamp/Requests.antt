-- ===== src/Wamp/Requests.antt =====
-- What several classes of wamp/message.py share: pairs of IDs, the end of a subscription or of a
-- registration that a client asks for, and the message that confirms or announces it.
pub mod RoundTrip
use autobahn_python.Base.{
  List, [], ◌∷◌, Bool, true, false, ◌&&◌, ◌||◌, not, Option, none, some, ascii, Error, Result, ok,
  err,
}
use autobahn_python.Wamp.Value.{
  Text, ℤ, pos, Value, int, str, list, dict, Items, nil, cons, Fields, get, Entry, dict_with,
  optional, map, assert, ◌>>=◌, ◌>>◌,
}
use autobahn_python.Wamp.Uri.{check_or_raise_uri}
use autobahn_python.Wamp.Checks.{
  check_or_raise_id, check_or_raise_extra, check_int, check_forward_for, is_zero, is_zero_given,
  is_none,
}

-- SUBSCRIBED, REGISTERED and PUBLISHED have two IDs.
unfoldable pub parse_ids : Items → Result (ℤ × ℤ)
parse_ids (cons request (cons id nil)) = do
  request ← check_or_raise_id request
  id ← check_or_raise_id id
  ok (request, id)
parse_ids _ = err Error.invalid_message

unfoldable pub marshal_ids : ℤ → ℤ → Items
marshal_ids request id = cons (int request) (cons (int id) nil)

-- UNSUBSCRIBE and UNREGISTER have two IDs, and options with `forward_for` or none.
unfoldable pub parse_forward_for : Value → Result (Option Items)
parse_forward_for options = do
  options ← check_or_raise_extra options
  optional check_forward_for (ascii "forward_for") options

unfoldable pub parse_end : Items → Result (ℤ × ℤ × Option Items)
parse_end (cons request (cons id nil)) = do
  request ← check_or_raise_id request
  id ← check_or_raise_id id
  ok (request, id, none)
parse_end (cons request (cons id (cons options nil))) = do
  request ← check_or_raise_id request
  id ← check_or_raise_id id
  forward_for ← parse_forward_for options
  ok (request, id, forward_for)
parse_end _ = err Error.invalid_message

-- `if self.forward_for:`
unfoldable pub marshal_forward_for : Option Items → Items
marshal_forward_for (some (cons ff ffs)) =
    cons (dict (dict_with ((ascii "forward_for", some (list (cons ff ffs))) ∷ []))) nil
marshal_forward_for _ = nil

unfoldable pub marshal_end : ℤ → ℤ → Option Items → Items
marshal_end request id forward_for =
    cons (int request) (cons (int id) (marshal_forward_for forward_for))

-- UNSUBSCRIBED and UNREGISTERED answer a request, or announce with the request 0 what the router ended.
unfoldable pub parse_ended : Text → Items → Result (ℤ × Option ℤ × Option Text)
parse_ended key (cons request nil) = do
  request ← check_or_raise_id request
  ok (request, none, none)
parse_ended key (cons request (cons details nil)) = do
  request ← check_or_raise_id request
  details ← check_or_raise_extra details
  id ← optional check_int key details
  reason ← optional (check_or_raise_uri false false) (ascii "reason") details
  ok (request, id, reason)
parse_ended key _ = err Error.invalid_message

-- The assertion of the two classes.
unfoldable pub is_answer_or_revocation : ℤ → Option ℤ → Bool
is_answer_or_revocation request id =
    not (is_zero request) && is_none id || is_zero request && not (is_zero_given id)

unfoldable pub ended_details : Text → Option ℤ → Option Text → List Entry
ended_details key id reason = (ascii "reason", map str reason) ∷ (key, map int id) ∷ []

unfoldable pub marshal_ended : Text → ℤ → Option ℤ → Option Text → Items
marshal_ended key request none none = cons (int request) nil
marshal_ended key request id reason =
    cons (int request) (cons (dict (dict_with (ended_details key id reason))) nil)
