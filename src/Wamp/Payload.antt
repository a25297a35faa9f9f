-- ===== src/Wamp/Payload.antt =====
-- What ERROR, EVENT, CALL, RESULT, INVOCATION and YIELD share: the positional and keyword arguments or
-- the opaque payload at the end of the message, and the identity of a peer among its details.
pub mod RoundTrip
use autobahn_python.Base.{
  ℕ, zero, Octets, List, [], ◌∷◌, Bool, true, false, ◌&&◌, ◌||◌, not, Option, none, some, leb, ◌==◌,
  if◌then◌else◌, ascii, Error, Result, ok, err,
}
use autobahn_python.Wamp.Value.{
  Text, ℤ, pos, Value, null, bool, int, float, str, bytes, list, dict, Items, nil, cons, Fields,
  end, field, get, Entry, optional, map, same_text, assert, require, ◌>>=◌, ◌>>◌,
}
use autobahn_python.Wamp.Uri.{without_line_feed}
use autobahn_python.Wamp.Checks.{check_text, check_int, keys_are_texts, is_none}

pub record Payload : Type 0 where
  pub args : Option Items
  pub kwargs : Option Fields
  pub payload : Option Octets
  pub enc_algo : Option Text
  pub enc_key : Option Text
  pub enc_serializer : Option Text

-- What a `parse` gives to `__init__`.
pub record Given : Type 0 where
  pub args : Option Items
  pub kwargs : Option Fields
  pub payload : Option Value
  pub enc_algo : Option Value
  pub enc_key : Option Value
  pub enc_serializer : Option Value

-- `not v`
unfoldable pub is_falsy : Value → Bool
is_falsy null = true
is_falsy (bool b) = not b
is_falsy (int (pos n)) = n == 0
is_falsy (float bits) = bits == 0 || bits == 0x8000000000000000
is_falsy (str []) = true
is_falsy (bytes []) = true
is_falsy (list nil) = true
is_falsy (dict end) = true
is_falsy _ = false

-- An entry for a payload that is not valid, but falsy, is left to `__init__`.
unfoldable pub read_enc : (Text → Bool) → Option Value → Result (Option Value)
read_enc is_valid none = ok none
read_enc is_valid (some null) = ok none
read_enc is_valid (some (str s)) =
    if is_falsy (str s) || is_valid s then ok (some (str s)) else err Error.invalid_message
read_enc is_valid (some v) = if is_falsy v then ok (some v) else err Error.invalid_message

-- `assert(v is None or is_valid(v))`
unfoldable pub assert_enc : (Text → Bool) → Option Value → Result (Option Text)
assert_enc is_valid none = ok none
assert_enc is_valid (some (str s)) = if is_valid s then ok (some s) else err Error.assertion_failed
assert_enc is_valid (some _) = err Error.assertion_failed

unfoldable pub assert_bytes : Option Value → Result (Option Octets)
assert_bytes none = ok none
assert_bytes (some (bytes bs)) = ok (some bs)
assert_bytes (some _) = err Error.assertion_failed

-- `[\da-z_]`, where the decimal digits are those of Unicode, and `[a-z]`.
unfoldable pub is_lower : ℕ → Bool
is_lower c = leb 0x61 c && leb c 0x7a

unfoldable pub any_text : Text → Bool
any_text s = true

unfoldable pub is_one_of : Text → List Text → Bool
is_one_of s [] = false
is_one_of s (t ∷ ts) = same_text s t || is_one_of s ts

abbrev pub payload_enc_standard_identifiers : List Text
payload_enc_standard_identifiers = ascii "cryptobox" ∷ ascii "mqtt" ∷ ascii "xbr" ∷ []

abbrev pub payload_enc_standard_serializers : List Text
payload_enc_standard_serializers =
    ascii "json" ∷ ascii "msgpack" ∷ ascii "cbor" ∷ ascii "ubjson" ∷ ascii "flatbuffers" ∷ []

-- The payload may be a text only where `is_text_allowed` says so.
unfoldable pub is_payload : (is_text_allowed : Bool) → Value → Bool
is_payload is_text_allowed (bytes _) = true
is_payload is_text_allowed (str _) = is_text_allowed
is_payload is_text_allowed _ = false

unfoldable pub check_args : Value → Result (Option Items)
check_args null = ok none
check_args (list args) = ok (some args)
check_args _ = err Error.invalid_message

unfoldable pub check_kwargs : Value → Result Fields
check_kwargs (dict kwargs) = ok kwargs
check_kwargs _ = err Error.invalid_message

-- The test of the length of the message, by what is left of it.
unfoldable pub is_short : Items → Bool
is_short nil = true
is_short (cons _ nil) = true
is_short (cons _ (cons _ nil)) = true
is_short _ = false

abbrev pub only_named : Option Items → Option Fields → Given
only_named args kwargs = record {
  args = args;
  kwargs = kwargs;
  payload = none;
  enc_algo = none;
  enc_key = none;
  enc_serializer = none;
}

unfoldable pub validate_kwargs : Option Fields → Result (Unit {0})
validate_kwargs none = ok tt
validate_kwargs (some kwargs) = require (keys_are_texts kwargs) Error.invalid_message

-- What `__init__` asserts of the fields together.
unfoldable pub is_alone : Payload → Bool
is_alone p = is_none p.payload || is_none p.args && is_none p.kwargs

unfoldable pub is_enc_complete : Payload → Bool
is_enc_complete p =
    is_none p.enc_algo && is_none p.enc_key && is_none p.enc_serializer
    || not (is_none p.payload) && not (is_none p.enc_algo)

module _ (is_decimal : ℕ → Bool) where
  unfoldable pub all_word : Text → Bool
  all_word [] = true
  all_word (c ∷ s) = (is_decimal c || is_lower c || c == 0x5f) && all_word s

  -- _CUSTOM_ATTRIBUTE
  unfoldable pub custom_name : Text → Bool
  custom_name [] = true
  custom_name (c ∷ []) = false
  custom_name (c ∷ s) = is_lower c && all_word s

  unfoldable pub custom_attribute : Text → Bool
  custom_attribute (a ∷ b ∷ s) = a == 0x78 && b == 0x5f && custom_name s
  custom_attribute _ = false

  unfoldable pub is_custom : Text → Bool
  is_custom s = custom_attribute s || custom_attribute (without_line_feed s)

  unfoldable pub is_valid_enc_algo : Text → Bool
  is_valid_enc_algo s = is_one_of s payload_enc_standard_identifiers || is_custom s

  unfoldable pub is_valid_enc_serializer : Text → Bool
  is_valid_enc_serializer s = is_one_of s payload_enc_standard_serializers || is_custom s

  unfoldable pub parse_opaque : Fields → Value → Result Given
  parse_opaque options payload = do
    enc_algo ← read_enc is_valid_enc_algo (get (ascii "enc_algo") options)
    enc_key ← read_enc any_text (get (ascii "enc_key") options)
    enc_serializer ← read_enc is_valid_enc_serializer (get (ascii "enc_serializer") options)
    ok (record {
      args = none;
      kwargs = none;
      payload = some payload;
      enc_algo = enc_algo;
      enc_key = enc_key;
      enc_serializer = enc_serializer;
    })

  -- The end of a message, after the options or details and what else comes first.
  unfoldable pub parse_payload : (is_text_allowed : Bool) → Fields → Items → Result Given
  parse_payload is_text_allowed options nil = ok (only_named none none)
  parse_payload is_text_allowed options (cons v nil) =
      if is_payload is_text_allowed v
      then parse_opaque options v
      else (check_args v >>= λ args. ok (only_named args none))
  parse_payload is_text_allowed options (cons v (cons w _)) = do
    args ← check_args v
    kwargs ← check_kwargs w
    ok (only_named args (some kwargs))

  -- The assertions of `__init__`.
  unfoldable pub assert_payload : Given → Result Payload
  assert_payload g = do
    payload ← assert_bytes g.payload
    enc_algo ← assert_enc is_valid_enc_algo g.enc_algo
    enc_key ← assert_enc any_text g.enc_key
    enc_serializer ← assert_enc is_valid_enc_serializer g.enc_serializer
    let p : Payload = record {
      args = g.args;
      kwargs = g.kwargs;
      payload = payload;
      enc_algo = enc_algo;
      enc_key = enc_key;
      enc_serializer = enc_serializer;
    }
    assert (is_alone p)
    assert (is_enc_complete p)
    ok p

-- `if self.payload:`
unfoldable pub is_sent : Option Octets → Bool
is_sent none = false
is_sent (some []) = false
is_sent (some (_ ∷ _)) = true

abbrev pub sent_enc : Option Octets → Option Text → Option Text
sent_enc payload o = if is_sent payload then o else none

unfoldable pub enc_algo_entry : Payload → Entry
enc_algo_entry p = (ascii "enc_algo", map str (sent_enc p.payload p.enc_algo))

unfoldable pub enc_key_entry : Payload → Entry
enc_key_entry p = (ascii "enc_key", map str (sent_enc p.payload p.enc_key))

unfoldable pub enc_serializer_entry : Payload → Entry
enc_serializer_entry p = (ascii "enc_serializer", map str (sent_enc p.payload p.enc_serializer))

unfoldable pub args_value : Option Items → Value
args_value none = null
args_value (some args) = list args

unfoldable pub marshal_named : Option Items → Option Fields → Items
marshal_named args (some (field k v rest)) =
    cons (args_value args) (cons (dict (field k v rest)) nil)
marshal_named (some (cons v vs)) _ = cons (list (cons v vs)) nil
marshal_named _ _ = nil

unfoldable pub marshal_opaque : Option Octets → Option Items → Option Fields → Items
marshal_opaque (some (b ∷ bs)) args kwargs = cons (bytes (b ∷ bs)) nil
marshal_opaque _ args kwargs = marshal_named args kwargs

unfoldable pub marshal_payload : Payload → Items
marshal_payload p = marshal_opaque p.payload p.args p.kwargs

-- The session, the authid and the authrole of a caller, a callee or a publisher.
pub record Peer : Type 0 where
  pub session : Option ℤ
  pub authid : Option Text
  pub authrole : Option Text

unfoldable pub parse_peer : Text → Text → Text → Fields → Result Peer
parse_peer session_key authid_key authrole_key details = do
  session ← optional check_int session_key details
  authid ← optional check_text authid_key details
  authrole ← optional check_text authrole_key details
  ok (record { session = session; authid = authid; authrole = authrole })
