-- ===== src/Wamp/Checks.antt =====
-- The checks of wamp/message.py that the classes share.
pub mod Accepted
use autobahn_python.Base.{
  ℕ, List, [], ◌∷◌, Bool, true, false, ◌&&◌, ◌||◌, not, Option, none, some, ltb, leb, ◌==◌, ◌^◌,
  if◌then◌else◌, ascii, Error, Result, ok, err,
}
use autobahn_python.Wamp.Value.{
  Text, ℤ, pos, negsuc, Value, null, bool, int, float, str, bytes, list, dict, Items, nil, cons,
  Fields, end, field, get, assert, require, ◌>>=◌,
}

abbrev pub max_id : ℕ
max_id = 9007199254740992

unfoldable pub check_or_raise_id : Value → Result ℤ
check_or_raise_id (int (pos n)) = if ltb max_id n then err Error.invalid_message else ok (pos n)
check_or_raise_id _ = err Error.invalid_message

unfoldable pub keys_are_texts : Fields → Bool
keys_are_texts end = true
keys_are_texts (field (str _) v rest) = keys_are_texts rest
keys_are_texts (field _ v rest) = false

unfoldable pub check_or_raise_extra : Value → Result Fields
check_or_raise_extra (dict d) = if keys_are_texts d then ok d else err Error.invalid_message
check_or_raise_extra _ = err Error.invalid_message

-- Tests of the type of a value.
unfoldable pub check_text : Value → Result Text
check_text (str s) = ok s
check_text _ = err Error.invalid_message

unfoldable pub check_bool : Value → Result Bool
check_bool (bool b) = ok b
check_bool _ = err Error.invalid_message

unfoldable pub check_int : Value → Result ℤ
check_int (int i) = ok i
check_int _ = err Error.invalid_message

-- What `parse` checks of `forward_for`: `valid = True` stands behind the loop over the entries, which
-- can only be left early, so every list is valid.
unfoldable pub check_forward_for : Value → Result Items
check_forward_for (list ffs) = ok ffs
check_forward_for _ = err Error.invalid_message

-- What `__init__` asserts of it.
unfoldable pub is_int : Option Value → Bool
is_int (some (int _)) = true
is_int _ = false

unfoldable pub is_text : Option Value → Bool
is_text (some (str _)) = true
is_text _ = false

unfoldable pub is_text_or_null : Option Value → Bool
is_text_or_null (some null) = true
is_text_or_null v = is_text v

unfoldable pub is_forwarder : Value → Bool
is_forwarder (dict ff) =
    is_int (get (ascii "session") ff)
    && is_text_or_null (get (ascii "authid") ff)
    && is_text (get (ascii "authrole") ff)
is_forwarder _ = false

unfoldable pub all_forwarders : Items → Bool
all_forwarders nil = true
all_forwarders (cons ff ffs) = is_forwarder ff && all_forwarders ffs

unfoldable pub assert_forward_for : Option Items → Result (Unit {0})
assert_forward_for none = ok tt
assert_forward_for (some ffs) = assert (all_forwarders ffs)

unfoldable pub is_zero : ℤ → Bool
is_zero (pos n) = n == 0
is_zero (negsuc _) = false

unfoldable pub is_zero_given : Option ℤ → Bool
is_zero_given none = false
is_zero_given (some i) = is_zero i

abbrev pub is_none : {A : Type 0} → Option A → Bool
is_none none = true
is_none (some _) = false
