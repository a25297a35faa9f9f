-- ===== src/Wamp/Session/RoundTrip.antt =====
-- Marshalling and parsing ABORT, CHALLENGE, AUTHENTICATE and GOODBYE.
use autobahn_python.Base.{false, ascii, ok, ◌≡◌, refl}
use autobahn_python.Wamp.Value.{optional, same_text}
use autobahn_python.Wamp.Value.Lookup.{get-dict_with, entry, is_single, has_key}
use autobahn_python.Wamp.Checks.{check_text}
use autobahn_python.Wamp.Checks.Accepted.{
  IsUri, IsExtra, text_read, bool_read, check_uri-IsUri, check_extra-IsExtra, check_extra-dict_with,
}
use autobahn_python.Wamp.Session.{
  Abort, Challenge, Authenticate, Goodbye, parse_abort, marshal_abort, abort_details, non_empty,
  set, parse_goodbye, marshal_goodbye, goodbye_details, parse_challenge, marshal_challenge,
  parse_authenticate, marshal_authenticate,
}

-- An empty message and `resumable=False` are not sent.
abbrev pub received_abort : Abort → Abort
received_abort m = record m { message = non_empty m.message }

abbrev pub received_goodbye : Goodbye → Goodbye
received_goodbye m = record m { message = non_empty m.message; resumable = set m.resumable }

pub parse_abort-marshal :
    (m : Abort) → IsUri false false m.reason → parse_abort (marshal_abort m) ≡ ok (received_abort m)
unfolding parse_abort marshal_abort abort_details optional is_single has_key entry same_text ascii
parse_abort-marshal m u =
    let es = abort_details m in
    rw (
      check_extra-dict_with es,
      check_uri-IsUri false false m.reason u,
      get-dict_with (ascii "message") es refl,
      text_read (non_empty m.message),
    )

pub parse_challenge-marshal :
    (m : Challenge) → IsExtra m.extra → parse_challenge (marshal_challenge m) ≡ ok m
unfolding parse_challenge marshal_challenge check_text
parse_challenge-marshal m e = rw (check_extra-IsExtra m.extra e)

pub parse_authenticate-marshal :
    (m : Authenticate) → IsExtra m.extra → parse_authenticate (marshal_authenticate m) ≡ ok m
unfolding parse_authenticate marshal_authenticate check_text
parse_authenticate-marshal m e = rw (check_extra-IsExtra m.extra e)

pub parse_goodbye-marshal :
    (m : Goodbye)
    → IsUri false false m.reason
    → parse_goodbye (marshal_goodbye m) ≡ ok (received_goodbye m)
unfolding parse_goodbye marshal_goodbye goodbye_details optional is_single has_key entry same_text
    ascii
parse_goodbye-marshal m u =
    let es = goodbye_details m in
    rw (
      check_extra-dict_with es,
      check_uri-IsUri false false m.reason u,
      get-dict_with (ascii "message") es refl,
      text_read (non_empty m.message),
      get-dict_with (ascii "resumable") es refl,
      bool_read (set m.resumable),
    )
