-- ===== src/Wamp/Payload/RoundTrip.antt =====
-- Marshalling and parsing the end of a message: arguments or a payload.
use autobahn_python.Base.{
  ℕ, Octets, [], ◌∷◌, Bool, true, false, Option, none, some, if◌then◌else◌, ascii, ok, ◌≡◌, refl,
  sym,
}
use mathlib.Core.Bool.{true≢false}
use autobahn_python.Wamp.Value.{
  Text, str, bytes, int, Items, nil, cons, Fields, end, field, get, map, optional,
}
use autobahn_python.Wamp.Value.Lookup.{Whenever}
use autobahn_python.Wamp.Checks.Accepted.{IsExtra, int_read, text_read}
use autobahn_python.Wamp.Payload.{
  Payload, Given, is_falsy, read_enc, assert_enc, assert_bytes, any_text, is_payload, check_args,
  check_kwargs, only_named, validate_kwargs, is_alone, is_enc_complete, is_valid_enc_algo,
  is_valid_enc_serializer, parse_opaque, parse_payload, assert_payload, is_sent, sent_enc,
  args_value, marshal_named, marshal_opaque, marshal_payload, Peer, parse_peer, is_short,
}

-- A text that `is_valid` takes.
abbrev pub Takes : (Text → Bool) → Text → Type 0
Takes is_valid s = is_valid s ≡ true

-- What `__init__` makes sure of.
pub record IsPayload (is_decimal : ℕ → Bool) (p : Payload) : Type 0 where
  pub alone : is_alone p ≡ true
  pub enc_complete : is_enc_complete p ≡ true
  pub algo_ok : Whenever (Takes (is_valid_enc_algo is_decimal)) p.enc_algo
  pub serializer_ok : Whenever (Takes (is_valid_enc_serializer is_decimal)) p.enc_serializer
  pub keys_ok : Whenever IsExtra p.kwargs

-- Empty arguments and empty payloads are not sent.
unfoldable pub sent_kwargs : Option Fields → Option Fields
sent_kwargs (some (field k v rest)) = some (field k v rest)
sent_kwargs _ = none

unfoldable pub sent_args : Option Items → Option Fields → Option Items
sent_args args (some (field k v rest)) = args
sent_args (some (cons v vs)) _ = some (cons v vs)
sent_args _ _ = none

abbrev pub received_payload : Payload → Payload
received_payload p = if is_sent p.payload then p else record {
  args = sent_args p.args p.kwargs;
  kwargs = sent_kwargs p.kwargs;
  payload = none;
  enc_algo = none;
  enc_key = none;
  enc_serializer = none;
}

abbrev pub given : Payload → Given
given p = record {
  args = p.args;
  kwargs = p.kwargs;
  payload = map bytes p.payload;
  enc_algo = map str p.enc_algo;
  enc_key = map str p.enc_key;
  enc_serializer = map str p.enc_serializer;
}

args-read : (o : Option Items) → check_args (args_value o) ≡ ok o
unfolding check_args args_value
args-read none = refl
args-read (some args) = refl

enc-read :
    (is_valid : Text → Bool) (o : Option Text)
    → Whenever (Takes is_valid) o
    → read_enc is_valid (map str o) ≡ ok (map str o)
unfolding read_enc is_falsy
enc-read is_valid none h = refl
enc-read is_valid (some []) h = refl
enc-read is_valid (some (c ∷ s)) h = rw h

enc-asserted :
    (is_valid : Text → Bool) (o : Option Text)
    → Whenever (Takes is_valid) o
    → assert_enc is_valid (map str o) ≡ ok o
unfolding assert_enc
enc-asserted is_valid none h = refl
enc-asserted is_valid (some s) h = rw h

bytes-asserted : (o : Option Octets) → assert_bytes (map bytes o) ≡ ok o
unfolding assert_bytes
bytes-asserted none = refl
bytes-asserted (some b) = refl

any : (o : Option Text) → Whenever (Takes any_text) o
unfolding any_text
any none = tt
any (some s) = refl

pub assert_payload-given :
    (is_decimal : ℕ → Bool) (p : Payload)
    → IsPayload is_decimal p
    → assert_payload is_decimal (given p) ≡ ok p
unfolding assert_payload
assert_payload-given is_decimal p v = rw (
  bytes-asserted p.payload,
  enc-asserted (is_valid_enc_algo is_decimal) p.enc_algo v.algo_ok,
  enc-asserted any_text p.enc_key (any p.enc_key),
  enc-asserted (is_valid_enc_serializer is_decimal) p.enc_serializer v.serializer_ok,
  v.alone,
  v.enc_complete,
)

named_back :
    (is_decimal : ℕ → Bool) (t : Bool) (d : Fields) (args : Option Items) (kwargs : Option Fields)
    → parse_payload is_decimal t d (marshal_named args kwargs)
      ≡ ok (only_named (sent_args args kwargs) (sent_kwargs kwargs))
unfolding parse_payload marshal_named sent_args sent_kwargs is_payload check_args check_kwargs
    args_value
named_back is_decimal t d none none = refl
named_back is_decimal t d (some nil) none = refl
named_back is_decimal t d (some (cons v vs)) none = refl
named_back is_decimal t d none (some end) = refl
named_back is_decimal t d (some nil) (some end) = refl
named_back is_decimal t d (some (cons v vs)) (some end) = refl
named_back is_decimal t d none (some (field k v rest)) = refl
named_back is_decimal t d (some args) (some (field k v rest)) = refl

abbrev made :
    Option Items → Option Fields → Option Octets → Option Text → Option Text → Option Text → Payload
made a k o ea ek es = record {
  args = a;
  kwargs = k;
  payload = o;
  enc_algo = ea;
  enc_key = ek;
  enc_serializer = es;
}

-- The entries for the payload are among the options.
pub record HasEnc (p : Payload) (d : Fields) : Type 0 where
  pub algo : get (ascii "enc_algo") d ≡ map str (sent_enc p.payload p.enc_algo)
  pub key : get (ascii "enc_key") d ≡ map str (sent_enc p.payload p.enc_key)
  pub serializer : get (ascii "enc_serializer") d ≡ map str (sent_enc p.payload p.enc_serializer)

opaque_back :
    (is_decimal : ℕ → Bool) (t : Bool) (d : Fields) (a : Option Items) (k : Option Fields)
    (o : Option Octets) (ea ek es : Option Text)
    → HasEnc (made a k o ea ek es) d
    → IsPayload is_decimal (made a k o ea ek es)
    → parse_payload is_decimal t d (marshal_opaque o a k)
      ≡ ok (given (received_payload (made a k o ea ek es)))
unfolding parse_payload marshal_opaque is_sent is_payload parse_opaque is_alone
opaque_back is_decimal t d a k none ea ek es h v = named_back is_decimal t d a k
opaque_back is_decimal t d a k (some []) ea ek es h v = named_back is_decimal t d a k
opaque_back is_decimal t d (some a) k (some (b ∷ bs)) ea ek es h v =
    absurd (true≢false (sym v.alone))
opaque_back is_decimal t d none (some k) (some (b ∷ bs)) ea ek es h v =
    absurd (true≢false (sym v.alone))
opaque_back is_decimal t d none none (some (b ∷ bs)) ea ek es h v = rw (
  h.algo,
  enc-read (is_valid_enc_algo is_decimal) ea v.algo_ok,
  h.key,
  enc-read any_text ek (any ek),
  h.serializer,
  enc-read (is_valid_enc_serializer is_decimal) es v.serializer_ok,
)

pub payload_back :
    (is_decimal : ℕ → Bool) (t : Bool) (d : Fields) (p : Payload)
    → HasEnc p d
    → IsPayload is_decimal p
    → parse_payload is_decimal t d (marshal_payload p) ≡ ok (given (received_payload p))
unfolding marshal_payload
payload_back is_decimal t d p h v =
    opaque_back is_decimal t d p.args p.kwargs p.payload p.enc_algo p.enc_key p.enc_serializer
      (record { algo = h.algo; key = h.key; serializer = h.serializer })
      (record {
        alone = v.alone;
        enc_complete = v.enc_complete;
        algo_ok = v.algo_ok;
        serializer_ok = v.serializer_ok;
        keys_ok = v.keys_ok;
      })

is_alone_named : (p : Payload) → p.payload ≡ none → is_alone p ≡ true
unfolding is_alone
is_alone_named p e = rw e

sent-keys : (o : Option Fields) → Whenever IsExtra o → Whenever IsExtra (sent_kwargs o)
unfolding sent_kwargs
sent-keys none h = tt
sent-keys (some end) h = tt
sent-keys (some (field k v rest)) h = h

pub received-IsPayload :
    (is_decimal : ℕ → Bool) (p : Payload)
    → IsPayload is_decimal p
    → IsPayload is_decimal (received_payload p)
unfolding is_enc_complete is_alone
received-IsPayload is_decimal p v = chosen (is_sent p.payload)
  where
    chosen :
        (b : Bool)
        → IsPayload is_decimal (
            if b then p else record {
              args = sent_args p.args p.kwargs;
              kwargs = sent_kwargs p.kwargs;
              payload = none;
              enc_algo = none;
              enc_key = none;
              enc_serializer = none;
            })
    chosen true = v
    chosen false = record {
      alone = refl;
      enc_complete = refl;
      algo_ok = tt;
      serializer_ok = tt;
      keys_ok = sent-keys p.kwargs v.keys_ok;
    }

-- `__init__` takes what the message's end was read to.
pub payload_accepted :
    (is_decimal : ℕ → Bool) (p : Payload)
    → IsPayload is_decimal p
    → assert_payload is_decimal (given (received_payload p)) ≡ ok (received_payload p)
payload_accepted is_decimal p v =
    assert_payload-given is_decimal (received_payload p) (received-IsPayload is_decimal p v)

named-is_short : (a : Option Items) (k : Option Fields) → is_short (marshal_named a k) ≡ true
unfolding is_short marshal_named
named-is_short none none = refl
named-is_short (some nil) none = refl
named-is_short (some (cons v vs)) none = refl
named-is_short none (some end) = refl
named-is_short (some nil) (some end) = refl
named-is_short (some (cons v vs)) (some end) = refl
named-is_short a (some (field k v rest)) = refl

opaque-is_short :
    (o : Option Octets) (a : Option Items) (k : Option Fields)
    → is_short (marshal_opaque o a k) ≡ true
unfolding is_short marshal_opaque
opaque-is_short none a k = named-is_short a k
opaque-is_short (some []) a k = named-is_short a k
opaque-is_short (some (b ∷ bs)) a k = refl

pub marshal-is_short : (p : Payload) → is_short (marshal_payload p) ≡ true
unfolding marshal_payload
marshal-is_short p = opaque-is_short p.payload p.args p.kwargs

pub validate_kwargs-IsExtra : (o : Option Fields) → Whenever IsExtra o → validate_kwargs o ≡ ok tt
unfolding validate_kwargs
validate_kwargs-IsExtra none h = refl
validate_kwargs-IsExtra (some d) h = rw h

pub peer_back :
    (a b c : Text) (d : Fields) (p : Peer)
    → get a d ≡ map int p.session
    → get b d ≡ map str p.authid
    → get c d ≡ map str p.authrole
    → parse_peer a b c d ≡ ok p
unfolding parse_peer optional
peer_back a b c d p ha hb hc =
    rw (ha, int_read p.session, hb, text_read p.authid, hc, text_read p.authrole)
