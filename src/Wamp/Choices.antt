-- ===== src/Wamp/Choices.antt =====
-- The options of WAMP messages that have one of a few texts as values.
pub mod Chosen
use autobahn_python.Base.{
  ℕ, List, [], ◌∷◌, Bool, true, false, Option, none, some, if◌then◌else◌, ascii, Error, Result, ok,
  err,
}
use autobahn_python.Wamp.Value.{
  Text, Value, null, bool, int, float, str, bytes, list, dict, same_text, ◌>>=◌,
}

-- MATCH_EXACT, MATCH_PREFIX, MATCH_WILDCARD
pub data Match : Type 0 where
  exact prefix wildcard : Match

-- INVOKE_SINGLE, INVOKE_FIRST, INVOKE_LAST, INVOKE_ROUNDROBIN, INVOKE_RANDOM
pub data Invoke : Type 0 where
  single first last roundrobin random : Invoke

-- The modes of CANCEL, and those of INTERRUPT.
pub data CancelMode : Type 0 where
  skip killnowait kill : CancelMode

pub data InterruptMode : Type 0 where
  kill killnowait : InterruptMode

unfoldable pub match_text : Match → Text
match_text exact = ascii "exact"
match_text prefix = ascii "prefix"
match_text wildcard = ascii "wildcard"

unfoldable pub invoke_text : Invoke → Text
invoke_text single = ascii "single"
invoke_text first = ascii "first"
invoke_text last = ascii "last"
invoke_text roundrobin = ascii "roundrobin"
invoke_text random = ascii "random"

unfoldable pub cancel_mode_text : CancelMode → Text
cancel_mode_text CancelMode.skip = ascii "skip"
cancel_mode_text CancelMode.killnowait = ascii "killnowait"
cancel_mode_text CancelMode.kill = ascii "kill"

unfoldable pub interrupt_mode_text : InterruptMode → Text
interrupt_mode_text InterruptMode.kill = ascii "kill"
interrupt_mode_text InterruptMode.killnowait = ascii "killnowait"

-- The choice with that text, of a list of them.
unfoldable pub choose : {A : Type 0} → (A → Text) → List A → Text → Option A
choose text [] s = none
choose text (a ∷ rest) s = if same_text s (text a) then some a else choose text rest s

abbrev pub matches : List Match
matches = exact ∷ prefix ∷ wildcard ∷ []

abbrev pub invokes : List Invoke
invokes = single ∷ first ∷ last ∷ roundrobin ∷ random ∷ []

abbrev pub cancel_modes : List CancelMode
cancel_modes = CancelMode.skip ∷ CancelMode.killnowait ∷ CancelMode.kill ∷ []

abbrev pub interrupt_modes : List InterruptMode
interrupt_modes = InterruptMode.kill ∷ InterruptMode.killnowait ∷ []

unfoldable pub chosen : {A : Type 0} → Option A → Result A
chosen none = err Error.invalid_message
chosen (some a) = ok a

unfoldable pub check_choice : {A : Type 0} → (A → Text) → List A → Value → Result A
check_choice text choices (str s) = chosen (choose text choices s)
check_choice text choices _ = err Error.invalid_message
