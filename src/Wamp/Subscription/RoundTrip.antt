-- ===== src/Wamp/Subscription/RoundTrip.antt =====
-- Marshalling and parsing SUBSCRIBE, SUBSCRIBED, UNSUBSCRIBE, UNSUBSCRIBED and PUBLISHED.
use autobahn_python.Base.{true, false, Option, none, some, ascii, ok, ◌≡◌, refl}
use autobahn_python.Wamp.Value.{Items, read, optional, or_default, same_text}
use autobahn_python.Wamp.Value.Lookup.{get-dict_with, entry, is_single, has_key, Whenever}
use autobahn_python.Wamp.Checks.Accepted.{
  IsId, IsUri, AreForwarders, check_id-IsId, check_uri-IsUri, check_extra-dict_with, bool_read,
  forward_for_read, assert-AreForwarders,
}
use autobahn_python.Wamp.Choices.{Match, exact, prefix, wildcard, match_text, matches, check_choice}
use autobahn_python.Wamp.Choices.Chosen.{match_chosen}
use autobahn_python.Wamp.Requests.{is_answer_or_revocation}
use autobahn_python.Wamp.Requests.RoundTrip.{
  parse_ids-marshal, parse_end-marshal, parse_ended-marshal, sent_forward_for,
}
use autobahn_python.Wamp.Subscription.{
  Subscribe, new_subscribe, parse_subscribe, match_value, subscribe_options, marshal_subscribe,
  Subscribed, parse_subscribed, marshal_subscribed, Unsubscribe, new_unsubscribe, parse_unsubscribe,
  marshal_unsubscribe, Unsubscribed, new_unsubscribed, parse_unsubscribed, marshal_unsubscribed,
  Published, parse_published, marshal_published, EventReceived, parse_event_received,
  marshal_event_received,
}

-- The choice that is not written is the default.
abbrev pub read_match : Match → Option Match
read_match exact = none
read_match m = some m

pub match_read :
    (m : Match) → read (check_choice match_text matches) (match_value m) ≡ ok (read_match m)
unfolding read match_value
match_read exact = refl
match_read prefix = rw (match_chosen prefix)
match_read wildcard = rw (match_chosen wildcard)

pub default_match : (m : Match) → or_default exact (read_match m) ≡ m
unfolding or_default
default_match exact = refl
default_match prefix = refl
default_match wildcard = refl

pub parse_subscribe-marshal :
    (m : Subscribe)
    → IsId m.request
    → IsUri true false m.topic
    → Whenever AreForwarders m.forward_for
    → parse_subscribe (marshal_subscribe m) ≡ ok m
unfolding parse_subscribe marshal_subscribe subscribe_options new_subscribe optional is_single
    has_key entry same_text ascii or_default
parse_subscribe-marshal m i u f =
    let es = subscribe_options m in
    rw (
      check_id-IsId m.request i,
      check_extra-dict_with es,
      check_uri-IsUri true false m.topic u,
      get-dict_with (ascii "match") es refl,
      match_read m.match,
      default_match m.match,
      get-dict_with (ascii "get_retained") es refl,
      bool_read m.get_retained,
      get-dict_with (ascii "forward_for") es refl,
      forward_for_read m.forward_for,
      assert-AreForwarders m.forward_for f,
    )

pub parse_subscribed-marshal :
    (m : Subscribed)
    → IsId m.request
    → IsId m.subscription
    → parse_subscribed (marshal_subscribed m) ≡ ok m
unfolding parse_subscribed marshal_subscribed
parse_subscribed-marshal m i j = rw (parse_ids-marshal m.request m.subscription i j)

abbrev pub received_unsubscribe : Unsubscribe → Unsubscribe
received_unsubscribe m = record m { forward_for = sent_forward_for m.forward_for }

sent-AreForwarders :
    (o : Option Items) → Whenever AreForwarders o → Whenever AreForwarders (sent_forward_for o)
unfolding sent_forward_for
sent-AreForwarders none f = f
sent-AreForwarders (some Items.nil) f = tt
sent-AreForwarders (some (Items.cons ff ffs)) f = f

pub parse_unsubscribe-marshal :
    (m : Unsubscribe)
    → IsId m.request
    → IsId m.subscription
    → Whenever AreForwarders m.forward_for
    → parse_unsubscribe (marshal_unsubscribe m) ≡ ok (received_unsubscribe m)
unfolding parse_unsubscribe marshal_unsubscribe new_unsubscribe
parse_unsubscribe-marshal m i j f = rw (
  parse_end-marshal m.request m.subscription m.forward_for i j,
  assert-AreForwarders (sent_forward_for m.forward_for) (sent-AreForwarders m.forward_for f),
)

pub parse_unsubscribed-marshal :
    (m : Unsubscribed)
    → IsId m.request
    → Whenever (IsUri false false) m.reason
    → is_answer_or_revocation m.request m.subscription ≡ true
    → parse_unsubscribed (marshal_unsubscribed m) ≡ ok m
unfolding parse_unsubscribed marshal_unsubscribed new_unsubscribed same_text ascii
parse_unsubscribed-marshal m i u a = rw (
  parse_ended-marshal (ascii "subscription") m.request m.subscription m.reason refl refl refl i u,
  a,
)

pub parse_published-marshal :
    (m : Published)
    → IsId m.request
    → IsId m.publication
    → parse_published (marshal_published m) ≡ ok m
unfolding parse_published marshal_published
parse_published-marshal m i j = rw (parse_ids-marshal m.request m.publication i j)

pub parse_event_received-marshal :
    (m : EventReceived)
    → IsId m.publication
    → parse_event_received (marshal_event_received m) ≡ ok m
unfolding parse_event_received marshal_event_received
parse_event_received-marshal m i = rw (check_id-IsId m.publication i)
