-- ===== src/Wamp/Registration/RoundTrip.antt =====
-- Marshalling and parsing REGISTER, REGISTERED, UNREGISTER and UNREGISTERED.
use autobahn_python.Base.{zero, suc, true, false, Option, none, some, ascii, ok, ◌≡◌, refl}
use autobahn_python.Wamp.Value.{
  ℤ, pos, negsuc, Value, null, bool, int, float, str, bytes, list, dict, read, optional, or_default,
  same_text,
}
use autobahn_python.Wamp.Value.Lookup.{get-dict_with, entry, is_single, has_key, Whenever}
use autobahn_python.Wamp.Checks.Accepted.{
  IsId, IsUri, AreForwarders, check_id-IsId, check_uri-IsUri, check_extra-dict_with,
  forward_for_read, assert-AreForwarders,
}
use autobahn_python.Wamp.Choices.{
  Invoke, single, first, last, roundrobin, random, invoke_text, invokes, check_choice,
}
use autobahn_python.Wamp.Choices.Chosen.{invoke_chosen}
use autobahn_python.Wamp.Requests.{is_answer_or_revocation}
use autobahn_python.Wamp.Requests.RoundTrip.{
  parse_ids-marshal, parse_end-marshal, parse_ended-marshal, sent_forward_for,
}
use autobahn_python.Wamp.Subscription.RoundTrip.{match_read, default_match}
use autobahn_python.Wamp.Registration.{
  Register, new_register, is_positive, is_boolean_like, is_reregister, is_concurrency,
  allow_empty_components, allow_last_empty, check_concurrency, read_reregister, parse_register,
  invoke_value, concurrency_value, register_options, marshal_register, Registered, parse_registered,
  marshal_registered, Unregister, parse_unregister, marshal_unregister, Unregistered,
  new_unregistered, parse_unregistered, marshal_unregistered,
}

read_invoke : Invoke → Option Invoke
read_invoke single = none
read_invoke i = some i

invoke_read :
    (i : Invoke) → read (check_choice invoke_text invokes) (invoke_value i) ≡ ok (read_invoke i)
unfolding read invoke_value read_invoke
invoke_read single = refl
invoke_read first = rw (invoke_chosen first)
invoke_read last = rw (invoke_chosen last)
invoke_read roundrobin = rw (invoke_chosen roundrobin)
invoke_read random = rw (invoke_chosen random)

default_invoke : (i : Invoke) → or_default single (read_invoke i) ≡ i
unfolding or_default read_invoke
default_invoke single = refl
default_invoke first = refl
default_invoke last = refl
default_invoke roundrobin = refl
default_invoke random = refl

concurrency_read :
    (o : Option ℤ) → is_concurrency o ≡ true → read check_concurrency (concurrency_value o) ≡ ok o
unfolding read concurrency_value check_concurrency is_concurrency is_positive
concurrency_read none h = refl
concurrency_read (some (pos zero)) h = absurd (cc)
concurrency_read (some (pos (suc n))) h = rw h
concurrency_read (some (negsuc n)) h = absurd (cc)

reregister_read : (o : Option Value) → is_reregister o ≡ true → read_reregister o ≡ ok o
unfolding read_reregister is_reregister is_boolean_like
reregister_read none h = refl
reregister_read (some null) h = absurd (cc)
reregister_read (some (bool b)) h = refl
reregister_read (some (int (pos n))) h = rw h
reregister_read (some (int (negsuc n))) h = absurd (cc)
reregister_read (some (float bits)) h = rw h
reregister_read (some (str _)) h = absurd (cc)
reregister_read (some (bytes _)) h = absurd (cc)
reregister_read (some (list _)) h = absurd (cc)
reregister_read (some (dict _)) h = absurd (cc)

pub record IsRegister (m : Register) : Type 0 where
  pub is_id : IsId m.request
  pub is_uri : IsUri (allow_empty_components m.match) (allow_last_empty m.match) m.procedure
  pub concurrency_ok : is_concurrency m.concurrency ≡ true
  pub reregister_ok : is_reregister m.force_reregister ≡ true
  pub are_forwarders : Whenever AreForwarders m.forward_for

pub parse_register-marshal :
    (m : Register) → IsRegister m → parse_register (marshal_register m) ≡ ok m
unfolding parse_register marshal_register register_options new_register optional is_single has_key
    entry same_text ascii or_default
parse_register-marshal m v =
    let es = register_options m in
    rw (
      check_id-IsId m.request v.is_id,
      check_extra-dict_with es,
      get-dict_with (ascii "match") es refl,
      match_read m.match,
      default_match m.match,
      check_uri-IsUri (allow_empty_components m.match) (allow_last_empty m.match) m.procedure
          v.is_uri,
      get-dict_with (ascii "invoke") es refl,
      invoke_read m.invoke,
      default_invoke m.invoke,
      get-dict_with (ascii "concurrency") es refl,
      concurrency_read m.concurrency v.concurrency_ok,
      get-dict_with (ascii "force_reregister") es refl,
      reregister_read m.force_reregister v.reregister_ok,
      get-dict_with (ascii "forward_for") es refl,
      forward_for_read m.forward_for,
      v.concurrency_ok,
      v.reregister_ok,
      assert-AreForwarders m.forward_for v.are_forwarders,
    )

pub parse_registered-marshal :
    (m : Registered)
    → IsId m.request
    → IsId m.registration
    → parse_registered (marshal_registered m) ≡ ok m
unfolding parse_registered marshal_registered
parse_registered-marshal m i j = rw (parse_ids-marshal m.request m.registration i j)

abbrev pub received_unregister : Unregister → Unregister
received_unregister m = record m { forward_for = sent_forward_for m.forward_for }

pub parse_unregister-marshal :
    (m : Unregister)
    → IsId m.request
    → IsId m.registration
    → parse_unregister (marshal_unregister m) ≡ ok (received_unregister m)
unfolding parse_unregister marshal_unregister
parse_unregister-marshal m i j = rw (parse_end-marshal m.request m.registration m.forward_for i j)

pub parse_unregistered-marshal :
    (m : Unregistered)
    → IsId m.request
    → Whenever (IsUri false false) m.reason
    → is_answer_or_revocation m.request m.registration ≡ true
    → parse_unregistered (marshal_unregistered m) ≡ ok m
unfolding parse_unregistered marshal_unregistered new_unregistered same_text ascii
parse_unregistered-marshal m i u a = rw (
  parse_ended-marshal (ascii "registration") m.request m.registration m.reason refl refl refl i u,
  a,
)
