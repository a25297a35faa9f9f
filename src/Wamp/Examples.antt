-- ===== src/Wamp/Examples.antt =====
-- Messages and URIs, and the theorems at them.
use autobahn_python.Base.{
  be, ℕ, Octets, Result, List, [], ◌∷◌, ◌&&◌, Bool, true, false, none, some, leb, ascii, Error, ok,
  err, ◌≡◌, refl, ◌↔◌, arith,
}
use autobahn_python.Wamp.Value.{Value, Text, pos, null, int, str, dict, nil, cons, end}
use autobahn_python.Wamp.Uri.{
  is_uri, components, choose_pattern, loose_empty, loose_non_empty, all_loose, is_loose, is_space,
}
use autobahn_python.Wamp.Uri.Pattern.{uri_pat_loose_non_empty, Matches}
use autobahn_python.Wamp.Uri.Pattern.Agreement.{is_uri-iff_Matches}
use autobahn_python.Wamp.Checks.{all_forwarders, is_forwarder}
use autobahn_python.Wamp.Choices.{prefix}
use autobahn_python.Wamp.Subscription.{Subscribe, parse_subscribe, marshal_subscribe}
use autobahn_python.Wamp.Subscription.Refused.{wrong_forwarder_asserts}
use autobahn_python.Wamp.Procedure.{parse_call}
use autobahn_python.Wamp.Procedure.Refused.{text_payload_asserts}
use autobahn_python.Wamp.Batch.{serialize_object, unserialize_objects}
use autobahn_python.Wamp.Batch.RoundTrip.{nothing, object, unserialize_objects-IsBatch}
use autobahn_python.Wamp.Message.{subscribe, marshal, ObjectSerializer, serialize, unserialize}
use autobahn_python.Wamp.Message.RoundTrip.{unserialize-serialize}
use autobahn_python.Wamp.Payload.{Payload}
use autobahn_python.Wamp.Answer.{Answer, ErrorMessage}
use autobahn_python.Wamp.Pending.{calling}
use autobahn_python.Wamp.Client.{
  Client, on_published, on_subscribed, on_unsubscribed, on_result, on_error, is_progress,
}
use autobahn_python.Wamp.Client.Ending.{on_close}
use autobahn_python.Wamp.Client.Requests.{Input, calls, answered, closed, run}
use autobahn_python.Wamp.Client.Once.{completions, distinct}
use autobahn_python.Wamp.Client.Once.Steps.{completed_once}
use autobahn_python.Wamp.Client.Twice.{second_reply_refused}
use autobahn_python.Wamp.Client.Closed.{IsLost, on_close-IsLost}

abbrev is_ascii_decimal : ℕ → Bool
is_ascii_decimal c = leb 0x30 c && leb c 0x39

abbrev news : Subscribe
news = record {
  request = pos 7;
  topic = ascii "com.news";
  match = prefix;
  get_retained = some true;
  forward_for = none;
}

-- An object serializer for one message.
abbrev for_news : ObjectSerializer
for_news = record {
  binary = true;
  write = λ v. 1 ∷ [];
  read = λ octets. some (marshal (subscribe news) ∷ []);
}

unserialize-serialize_example :
    unserialize is_ascii_decimal for_news (1 ∷ []) (some true) ≡ ok (subscribe news ∷ [])
unfolding is_uri choose_pattern loose_empty components ascii all_loose is_loose is_space serialize
unserialize-serialize_example =
    unserialize-serialize is_ascii_decimal for_news (subscribe news) refl (omega arith, refl, tt)

is_uri-iff_Matches_example :
    (is_uri false false (ascii "com.news") ≡ true)
    ↔ ((t : Text) × Matches uri_pat_loose_non_empty (ascii "com.news") t)
is_uri-iff_Matches_example = is_uri-iff_Matches false false (ascii "com.news")

wrong_forwarder_asserts_example :
    parse_subscribe (marshal_subscribe (record news { forward_for = some (cons null nil) }))
    ≡ err Error.assertion_failed
unfolding is_uri all_forwarders is_forwarder choose_pattern loose_empty components ascii all_loose
    is_loose is_space
wrong_forwarder_asserts_example =
    wrong_forwarder_asserts (record news { forward_for = some (cons null nil) }) (cons null nil)
      (omega arith) refl refl refl

text_payload_asserts_example :
    parse_call is_ascii_decimal (
      cons
        (int (pos 1))
        (cons (dict end) (cons (str (ascii "com.add")) (cons (str (ascii "secret")) nil))))
    ≡ err Error.assertion_failed
unfolding is_uri choose_pattern loose_non_empty components ascii all_loose is_loose is_space
text_payload_asserts_example =
    text_payload_asserts is_ascii_decimal (pos 1) (ascii "com.add") (ascii "secret") (omega arith)
      refl

-- A session on a realm, without requests.
abbrev idle : Client
idle = record {
  transport = true;
  takes = λ code request. true;
  session_id = some (pos 5);
  goodbye_sent = false;
  last_id = 0;
  next_future = 0;
  called = [];
  pending = [];
  subscriptions = [];
  registrations = [];
  log = [];
}

abbrev nothing_more : Payload
nothing_more = record {
  args = none;
  kwargs = none;
  payload = none;
  enc_algo = none;
  enc_key = none;
  enc_serializer = none;
}

abbrev three : Answer
three = record {
  request = pos 1;
  payload = nothing_more;
  progress = none;
  callee = record { session = none; authid = none; authrole = none };
  forward_for = none;
}

-- A call, its result, and the loss of the transport.
abbrev call_and_result : List Input
call_and_result = calls (ascii "com.add") none ∷ answered three ∷ closed ∷ []

completed_once_example : distinct (completions (run call_and_result idle).log) ≡ true
completed_once_example = completed_once call_and_result idle refl

-- The session with one call outstanding.
abbrev waiting : Client
waiting = record idle {
  last_id = 1;
  next_future = 1;
  pending =
      record {
        kind = calling;
        request = pos 1;
        future = 0;
        uri = ascii "com.add";
        object_id = pos 0;
        options = none;
      }
      ∷ [];
}

on_close-IsLost_example : IsLost waiting (on_close waiting)
on_close-IsLost_example = on_close-IsLost waiting

abbrev no_such_call : ErrorMessage
no_such_call = record {
  request_type = pos 48;
  request = pos 1;
  error = ascii "wamp.error.no_such_procedure";
  payload = nothing_more;
  callee = record { session = none; authid = none; authrole = none };
  forward_for = none;
}

second_reply_refused_example :
    ((on_published
        (record { request = pos 1; publication = pos 9 })
        (on_published (record { request = pos 1; publication = pos 9 }) waiting).1).0
      ≡ err Error.invalid_message)
    × ((on_subscribed
          (record { request = pos 1; subscription = pos 9 })
          (on_subscribed (record { request = pos 1; subscription = pos 9 }) waiting).1).0
        ≡ err Error.invalid_message)
    × ((on_unsubscribed
          (record { request = pos 1; subscription = none; reason = none })
          (on_unsubscribed
            (record { request = pos 1; subscription = none; reason = none })
            waiting).1).0
        ≡ err Error.invalid_message)
    × ((on_result three (on_result three waiting).1).0 ≡ err Error.invalid_message)
    × ((on_error no_such_call (on_error no_such_call waiting).1).0 ≡ err Error.invalid_message)
unfolding is_progress
second_reply_refused_example =
    second_reply_refused waiting (record { request = pos 1; publication = pos 9 })
      (record { request = pos 1; subscription = pos 9 })
      (record { request = pos 1; subscription = none; reason = none }) three no_such_call refl

-- A packer that is enough for texts.
abbrev pack_text : Value → Octets
pack_text (str s) = s
pack_text _ = []

abbrev unpack_text : Octets → Result Value
unpack_text octets = ok (str octets)

unserialize_objects-IsBatch_example :
    unserialize_objects unpack_text true (0 ∷ 0 ∷ 0 ∷ 2 ∷ 104 ∷ 105 ∷ 0 ∷ 0 ∷ 0 ∷ 0 ∷ [])
    ≡ some (ok (str (104 ∷ 105 ∷ []) ∷ str [] ∷ []))
unfolding serialize_object be
unserialize_objects-IsBatch_example =
    unserialize_objects-IsBatch pack_text unpack_text (str (104 ∷ 105 ∷ []) ∷ str [] ∷ [])
      (0 ∷ 0 ∷ 0 ∷ 2 ∷ 104 ∷ 105 ∷ 0 ∷ 0 ∷ 0 ∷ 0 ∷ []) (refl, (refl, tt))
      (object (0 ∷ 0 ∷ 0 ∷ 2 ∷ 104 ∷ 105 ∷ []) refl (object (0 ∷ 0 ∷ 0 ∷ 0 ∷ []) refl nothing))
