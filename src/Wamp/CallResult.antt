-- ===== src/Wamp/CallResult.antt =====
-- What makes `types.CallResult(*args, callee=.., .., **kwargs)` of wamp/types.py raise.
use autobahn_python.Base.{Bool, true, false, ◌||◌, not, Option, none, some, ascii, is_some}
use autobahn_python.Wamp.Value.{Value, null, str, Fields, end, field, get}

-- A key that is no text cannot be a keyword.
unfoldable pub all_keywords : Fields → Bool
all_keywords end = true
all_keywords (field (str _) _ rest) = all_keywords rest
all_keywords (field _ _ rest) = false

-- `assert(enc_algo is None or type(enc_algo) == str)`
unfoldable pub is_algo : Option Value → Bool
is_algo none = true
is_algo (some null) = true
is_algo (some (str _)) = true
is_algo (some _) = false

-- The keywords that the caller gives itself must not come twice. The other assertions are those that
-- the message has passed already.
unfoldable pub is_keyword_twice : Fields → Bool
is_keyword_twice d =
    is_some (get (ascii "callee") d)
    || is_some (get (ascii "callee_authid") d)
    || is_some (get (ascii "callee_authrole") d)
    || is_some (get (ascii "forward_for") d)

unfoldable pub call_result_raises : Option Fields → Bool
call_result_raises none = false
call_result_raises (some d) =
    not (all_keywords d) || is_keyword_twice d || not (is_algo (get (ascii "enc_algo") d))

-- The options of a call: whether there is a callback for progressive results, and `details`.
pub record CallOptions : Type 0 where
  pub on_progress : Bool
  pub details : Bool

unfoldable pub lacks_keywords : Option Fields → Bool
lacks_keywords none = false
lacks_keywords (some d) = not (all_keywords d)

-- With `details`, missing arguments cannot be unpacked.
unfoldable pub progress_raises : {A : Type 0} → Bool → Option A → Option Fields → Bool
progress_raises false args kwargs = lacks_keywords kwargs
progress_raises true none kwargs = true
progress_raises true (some _) none = true
progress_raises true (some _) (some d) = call_result_raises (some d)
