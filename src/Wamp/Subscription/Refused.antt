-- ===== src/Wamp/Subscription/Refused.antt =====
-- What a list of forwarders with a wrong entry does to a message.
use autobahn_python.Base.{true, false, Option, some, ascii, Error, err, ◌≡◌, refl}
use autobahn_python.Wamp.Value.{Items, optional, same_text}
use autobahn_python.Wamp.Value.Lookup.{get-dict_with, entry, is_single, has_key}
use autobahn_python.Wamp.Checks.{all_forwarders, assert_forward_for}
use autobahn_python.Wamp.Checks.Accepted.{
  IsId, IsUri, check_id-IsId, check_uri-IsUri, check_extra-dict_with, bool_read, forward_for_read,
}
use autobahn_python.Wamp.Subscription.{
  Subscribe, new_subscribe, parse_subscribe, subscribe_options, marshal_subscribe,
}
use autobahn_python.Wamp.Subscription.RoundTrip.{match_read, default_match}

wrong_asserted :
    (o : Option Items) (ffs : Items)
    → o ≡ some ffs
    → all_forwarders ffs ≡ false
    → assert_forward_for o ≡ err Error.assertion_failed
unfolding assert_forward_for
wrong_asserted o ffs e h = rw (e, h)

-- A SUBSCRIBE with a valid ID and topic, but a wrong entry among its forwarders, is not refused
-- as a violation of the protocol: parse runs into an assertion.
pub wrong_forwarder_asserts :
    (m : Subscribe) (ffs : Items)
    → IsId m.request
    → IsUri true false m.topic
    → m.forward_for ≡ some ffs
    → all_forwarders ffs ≡ false
    → parse_subscribe (marshal_subscribe m) ≡ err Error.assertion_failed
unfolding parse_subscribe marshal_subscribe subscribe_options new_subscribe optional is_single
    has_key entry same_text ascii
wrong_forwarder_asserts m ffs i u e h =
    let es = subscribe_options m in
    rw (
      check_id-IsId m.request i,
      check_extra-dict_with es,
      check_uri-IsUri true false m.topic u,
      get-dict_with (ascii "match") es refl,
      match_read m.match,
      default_match m.match,
      get-dict_with (ascii "get_retained") es refl,
      bool_read m.get_retained,
      get-dict_with (ascii "forward_for") es refl,
      forward_for_read m.forward_for,
      wrong_asserted m.forward_for ffs e h,
    )
