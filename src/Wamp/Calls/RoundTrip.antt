-- ===== src/Wamp/Calls/RoundTrip.antt =====
-- Marshalling and parsing CANCEL and INTERRUPT.
use autobahn_python.Base.{false, ascii, ok, ◌≡◌, refl}
use autobahn_python.Wamp.Value.{optional, same_text}
use autobahn_python.Wamp.Value.Lookup.{get-dict_with, entry, is_single, has_key, Whenever}
use autobahn_python.Wamp.Checks.Accepted.{
  IsId, IsUri, AreForwarders, check_id-IsId, check_extra-dict_with, uri_read, forward_for_read,
  assert-AreForwarders,
}
use autobahn_python.Wamp.Choices.Chosen.{cancel_mode_read, interrupt_mode_read}
use autobahn_python.Wamp.Calls.{
  Cancel, new_cancel, parse_cancel, cancel_options, marshal_cancel, Interrupt, new_interrupt,
  parse_interrupt, interrupt_options, marshal_interrupt,
}

pub parse_cancel-marshal :
    (m : Cancel)
    → IsId m.request
    → Whenever AreForwarders m.forward_for
    → parse_cancel (marshal_cancel m) ≡ ok m
unfolding parse_cancel marshal_cancel cancel_options new_cancel optional is_single has_key entry
    same_text ascii
parse_cancel-marshal m i f =
    let es = cancel_options m in
    rw (
      check_id-IsId m.request i,
      check_extra-dict_with es,
      get-dict_with (ascii "mode") es refl,
      cancel_mode_read m.mode,
      get-dict_with (ascii "forward_for") es refl,
      forward_for_read m.forward_for,
      assert-AreForwarders m.forward_for f,
    )

pub parse_interrupt-marshal :
    (m : Interrupt)
    → IsId m.request
    → Whenever (IsUri false false) m.reason
    → Whenever AreForwarders m.forward_for
    → parse_interrupt (marshal_interrupt m) ≡ ok m
unfolding parse_interrupt marshal_interrupt interrupt_options new_interrupt optional is_single
    has_key entry same_text ascii
parse_interrupt-marshal m i u f =
    let es = interrupt_options m in
    rw (
      check_id-IsId m.request i,
      check_extra-dict_with es,
      get-dict_with (ascii "mode") es refl,
      interrupt_mode_read m.mode,
      get-dict_with (ascii "reason") es refl,
      uri_read m.reason u,
      get-dict_with (ascii "forward_for") es refl,
      forward_for_read m.forward_for,
      assert-AreForwarders m.forward_for f,
    )
