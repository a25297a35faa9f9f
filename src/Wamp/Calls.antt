-- ===== src/Wamp/Calls.antt =====
-- CANCEL and INTERRUPT.
pub mod RoundTrip
use autobahn_python.Base.{
  List, [], ◌∷◌, true, false, Option, none, some, ascii, Error, Result, ok, err,
}
use autobahn_python.Wamp.Value.{
  Text, ℤ, Value, int, str, list, dict, Items, nil, cons, Entry, dict_with, optional, map, ◌>>=◌,
  ◌>>◌,
}
use autobahn_python.Wamp.Uri.{check_or_raise_uri}
use autobahn_python.Wamp.Checks.{
  check_or_raise_id, check_or_raise_extra, check_forward_for, assert_forward_for,
}
use autobahn_python.Wamp.Choices.{
  CancelMode, cancel_mode_text, cancel_modes, InterruptMode, interrupt_mode_text, interrupt_modes,
  check_choice,
}

pub record Cancel : Type 0 where
  pub request : ℤ
  pub mode : Option CancelMode
  pub forward_for : Option Items

unfoldable pub new_cancel : ℤ → Option CancelMode → Option Items → Result Cancel
new_cancel request mode forward_for = do
  assert_forward_for forward_for
  ok (record { request = request; mode = mode; forward_for = forward_for })

unfoldable pub parse_cancel : Items → Result Cancel
parse_cancel (cons request (cons options nil)) = do
  request ← check_or_raise_id request
  options ← check_or_raise_extra options
  mode ← optional (check_choice cancel_mode_text cancel_modes) (ascii "mode") options
  forward_for ← optional check_forward_for (ascii "forward_for") options
  new_cancel request mode forward_for
parse_cancel _ = err Error.invalid_message

unfoldable pub cancel_options : Cancel → List Entry
cancel_options m =
    (ascii "mode", map (λ mode. str (cancel_mode_text mode)) m.mode)
    ∷ (ascii "forward_for", map list m.forward_for)
    ∷ []

unfoldable pub marshal_cancel : Cancel → Items
marshal_cancel m = cons (int m.request) (cons (dict (dict_with (cancel_options m))) nil)

pub record Interrupt : Type 0 where
  pub request : ℤ
  pub mode : Option InterruptMode
  pub reason : Option Text
  pub forward_for : Option Items

unfoldable pub new_interrupt :
    ℤ → Option InterruptMode → Option Text → Option Items → Result Interrupt
new_interrupt request mode reason forward_for = do
  assert_forward_for forward_for
  ok (record { request = request; mode = mode; reason = reason; forward_for = forward_for })

unfoldable pub parse_interrupt : Items → Result Interrupt
parse_interrupt (cons request (cons options nil)) = do
  request ← check_or_raise_id request
  options ← check_or_raise_extra options
  mode ← optional (check_choice interrupt_mode_text interrupt_modes) (ascii "mode") options
  reason ← optional (check_or_raise_uri false false) (ascii "reason") options
  forward_for ← optional check_forward_for (ascii "forward_for") options
  new_interrupt request mode reason forward_for
parse_interrupt _ = err Error.invalid_message

unfoldable pub interrupt_options : Interrupt → List Entry
interrupt_options m =
    (ascii "mode", map (λ mode. str (interrupt_mode_text mode)) m.mode)
    ∷ (ascii "reason", map str m.reason)
    ∷ (ascii "forward_for", map list m.forward_for)
    ∷ []

unfoldable pub marshal_interrupt : Interrupt → Items
marshal_interrupt m = cons (int m.request) (cons (dict (dict_with (interrupt_options m))) nil)
