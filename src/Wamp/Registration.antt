-- ===== src/Wamp/Registration.antt =====
-- REGISTER, REGISTERED, UNREGISTER and UNREGISTERED.
pub mod RoundTrip
use autobahn_python.Base.{
  ℕ, zero, List, [], ◌∷◌, Bool, true, false, ◌&&◌, ◌||◌, Option, none, some, leb, ◌==◌,
  if◌then◌else◌, ascii, Error, Result, ok, err,
}
use autobahn_python.Wamp.Value.{
  Text, ℤ, pos, negsuc, Value, null, bool, int, float, str, list, dict, Items, nil, cons, Fields,
  get, Entry, dict_with, optional, or_default, map, assert, ◌>>=◌, ◌>>◌,
}
use autobahn_python.Wamp.Uri.{check_or_raise_uri}
use autobahn_python.Wamp.Checks.{
  check_or_raise_id, check_or_raise_extra, check_forward_for, assert_forward_for,
}
use autobahn_python.Wamp.Choices.{
  Match, exact, prefix, wildcard, match_text, matches, Invoke, single, invoke_text, invokes,
  check_choice,
}
use autobahn_python.Wamp.Requests.{
  parse_ids, marshal_ids, parse_end, marshal_end, parse_ended, marshal_ended,
  is_answer_or_revocation,
}
use autobahn_python.Wamp.Subscription.{match_value}

pub record Register : Type 0 where
  pub request : ℤ
  pub procedure : Text
  pub match : Match
  pub invoke : Invoke
  pub concurrency : Option ℤ
  pub force_reregister : Option Value
  pub forward_for : Option Items

unfoldable pub is_positive : ℤ → Bool
is_positive (pos n) = leb 1 n
is_positive (negsuc _) = false

-- What equals True or False: a bool, 0 and 1, and the floats of these numbers.
unfoldable pub is_boolean_like : Value → Bool
is_boolean_like (bool _) = true
is_boolean_like (int (pos n)) = n == 0 || n == 1
is_boolean_like (float bits) = bits == 0 || bits == 0x8000000000000000 || bits == 0x3ff0000000000000
is_boolean_like _ = false

unfoldable pub is_reregister : Option Value → Bool
is_reregister none = true
is_reregister (some v) = is_boolean_like v

unfoldable pub is_concurrency : Option ℤ → Bool
is_concurrency none = true
is_concurrency (some i) = is_positive i

-- `Register.__init__`
unfoldable pub new_register :
    ℤ
    → Text
    → Option Match
    → Option Invoke
    → Option ℤ
    → Option Value
    → Option Items
    → Result Register
new_register request procedure match invoke concurrency force_reregister forward_for = do
  assert (is_concurrency concurrency)
  assert (is_reregister force_reregister)
  assert_forward_for forward_for
  ok (record {
    request = request;
    procedure = procedure;
    match = or_default exact match;
    invoke = or_default single invoke;
    concurrency = concurrency;
    force_reregister = force_reregister;
    forward_for = forward_for;
  })

-- Which components of the URI may be empty.
unfoldable pub allow_empty_components : Match → Bool
allow_empty_components wildcard = true
allow_empty_components _ = false

unfoldable pub allow_last_empty : Match → Bool
allow_last_empty prefix = true
allow_last_empty _ = false

unfoldable pub check_concurrency : Value → Result ℤ
check_concurrency (int i) = if is_positive i then ok i else err Error.invalid_message
check_concurrency _ = err Error.invalid_message

-- `options.get('force_reregister', None)`
unfoldable pub read_reregister : Option Value → Result (Option Value)
read_reregister none = ok none
read_reregister (some null) = ok none
read_reregister (some v) = if is_boolean_like v then ok (some v) else err Error.invalid_message

unfoldable pub parse_register : Items → Result Register
parse_register (cons request (cons options (cons procedure nil))) = do
  request ← check_or_raise_id request
  options ← check_or_raise_extra options
  option_match ← optional (check_choice match_text matches) (ascii "match") options
  let match = or_default exact option_match
  procedure ← check_or_raise_uri (allow_empty_components match) (allow_last_empty match) procedure
  invoke ← optional (check_choice invoke_text invokes) (ascii "invoke") options
  concurrency ← optional check_concurrency (ascii "concurrency") options
  force_reregister ← read_reregister (get (ascii "force_reregister") options)
  forward_for ← optional check_forward_for (ascii "forward_for") options
  new_register request procedure (some match) (some (or_default single invoke)) concurrency
      force_reregister forward_for
parse_register _ = err Error.invalid_message

-- `if self.invoke and self.invoke != INVOKE_SINGLE:`
unfoldable pub invoke_value : Invoke → Option Value
invoke_value single = none
invoke_value i = some (str (invoke_text i))

-- `if self.concurrency:`
unfoldable pub concurrency_value : Option ℤ → Option Value
concurrency_value none = none
concurrency_value (some (pos zero)) = none
concurrency_value (some i) = some (int i)

unfoldable pub register_options : Register → List Entry
register_options m =
    (ascii "match", match_value m.match)
    ∷ (ascii "invoke", invoke_value m.invoke)
    ∷ (ascii "concurrency", concurrency_value m.concurrency)
    ∷ (ascii "force_reregister", m.force_reregister)
    ∷ (ascii "forward_for", map list m.forward_for)
    ∷ []

unfoldable pub marshal_register : Register → Items
marshal_register m =
    cons (int m.request) (cons (dict (dict_with (register_options m))) (cons (str m.procedure) nil))

pub record Registered : Type 0 where
  pub request : ℤ
  pub registration : ℤ

unfoldable pub parse_registered : Items → Result Registered
parse_registered wmsg = do
  (request, registration) ← parse_ids wmsg
  ok (record { request = request; registration = registration })

unfoldable pub marshal_registered : Registered → Items
marshal_registered m = marshal_ids m.request m.registration

pub record Unregister : Type 0 where
  pub request : ℤ
  pub registration : ℤ
  pub forward_for : Option Items

-- `Unregister.__init__` asserts nothing of the entries of `forward_for`.
unfoldable pub parse_unregister : Items → Result Unregister
parse_unregister wmsg = do
  (request, registration, forward_for) ← parse_end wmsg
  ok (record { request = request; registration = registration; forward_for = forward_for })

unfoldable pub marshal_unregister : Unregister → Items
marshal_unregister m = marshal_end m.request m.registration m.forward_for

pub record Unregistered : Type 0 where
  pub request : ℤ
  pub registration : Option ℤ
  pub reason : Option Text

unfoldable pub new_unregistered : ℤ → Option ℤ → Option Text → Result Unregistered
new_unregistered request registration reason = do
  assert (is_answer_or_revocation request registration)
  ok (record { request = request; registration = registration; reason = reason })

unfoldable pub parse_unregistered : Items → Result Unregistered
parse_unregistered wmsg = do
  (request, registration, reason) ← parse_ended (ascii "registration") wmsg
  new_unregistered request registration reason

unfoldable pub marshal_unregistered : Unregistered → Items
marshal_unregistered m = marshal_ended (ascii "registration") m.request m.registration m.reason
