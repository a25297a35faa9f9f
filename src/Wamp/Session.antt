-- ===== src/Wamp/Session.antt =====
-- The messages that open and close a session: ABORT, CHALLENGE, AUTHENTICATE and GOODBYE.
pub mod RoundTrip
use autobahn_python.Base.{
  List, [], ◌∷◌, Bool, true, false, Option, none, some, ascii, Error, Result, ok, err,
}
use autobahn_python.Wamp.Value.{
  Text, pos, Value, bool, int, str, dict, Items, nil, cons, Fields, get, Entry, dict_with, optional,
  map, ◌>>=◌, ◌>>◌,
}
use autobahn_python.Wamp.Uri.{check_or_raise_uri}
use autobahn_python.Wamp.Checks.{check_or_raise_extra, check_text, check_bool}

pub record Abort : Type 0 where
  pub reason : Text
  pub message : Option Text

pub record Challenge : Type 0 where
  pub method : Text
  pub extra : Fields

pub record Authenticate : Type 0 where
  pub signature : Text
  pub extra : Fields

pub record Goodbye : Type 0 where
  pub reason : Text
  pub message : Option Text
  pub resumable : Option Bool

-- What follows the type of a message. A `parse` gets it from the list that was unserialized, and a
-- `marshal` puts the type in front.
unfoldable pub parse_abort : Items → Result Abort
parse_abort (cons details (cons reason nil)) = do
  details ← check_or_raise_extra details
  reason ← check_or_raise_uri false false reason
  message ← optional check_text (ascii "message") details
  ok (record { reason = reason; message = message })
parse_abort _ = err Error.invalid_message

-- `if self.message:`
unfoldable pub non_empty : Option Text → Option Text
non_empty (some []) = none
non_empty o = o

unfoldable pub abort_details : Abort → List Entry
abort_details m = (ascii "message", map str (non_empty m.message)) ∷ []

unfoldable pub marshal_abort : Abort → Items
marshal_abort m = cons (dict (dict_with (abort_details m))) (cons (str m.reason) nil)

unfoldable pub parse_challenge : Items → Result Challenge
parse_challenge (cons method (cons extra nil)) = do
  method ← check_text method
  extra ← check_or_raise_extra extra
  ok (record { method = method; extra = extra })
parse_challenge _ = err Error.invalid_message

unfoldable pub marshal_challenge : Challenge → Items
marshal_challenge m = cons (str m.method) (cons (dict m.extra) nil)

unfoldable pub parse_authenticate : Items → Result Authenticate
parse_authenticate (cons signature (cons extra nil)) = do
  signature ← check_text signature
  extra ← check_or_raise_extra extra
  ok (record { signature = signature; extra = extra })
parse_authenticate _ = err Error.invalid_message

unfoldable pub marshal_authenticate : Authenticate → Items
marshal_authenticate m = cons (str m.signature) (cons (dict m.extra) nil)

unfoldable pub parse_goodbye : Items → Result Goodbye
parse_goodbye (cons details (cons reason nil)) = do
  details ← check_or_raise_extra details
  reason ← check_or_raise_uri false false reason
  message ← optional check_text (ascii "message") details
  resumable ← optional check_bool (ascii "resumable") details
  ok (record { reason = reason; message = message; resumable = resumable })
parse_goodbye _ = err Error.invalid_message

-- `if self.resumable:`
unfoldable pub set : Option Bool → Option Bool
set (some false) = none
set o = o

unfoldable pub goodbye_details : Goodbye → List Entry
goodbye_details m =
    (ascii "message", map str (non_empty m.message))
    ∷ (ascii "resumable", map bool (set m.resumable))
    ∷ []

unfoldable pub marshal_goodbye : Goodbye → Items
marshal_goodbye m = cons (dict (dict_with (goodbye_details m))) (cons (str m.reason) nil)
