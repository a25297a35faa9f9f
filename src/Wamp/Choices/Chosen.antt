-- ===== src/Wamp/Choices/Chosen.antt =====
-- The texts of the choices of wamp/message.py, written and read.
use autobahn_python.Base.{Option, ascii, ok, ◌≡◌, refl}
use autobahn_python.Wamp.Value.{str, same_text, read, map}
use autobahn_python.Wamp.Value.Lookup.{read-map}
use autobahn_python.Wamp.Choices.{
  Match, exact, prefix, wildcard, Invoke, single, first, last, roundrobin, random, CancelMode,
  InterruptMode, match_text, invoke_text, cancel_mode_text, interrupt_mode_text, matches, invokes,
  cancel_modes, interrupt_modes, choose, chosen, check_choice,
}

pub match_chosen : (m : Match) → check_choice match_text matches (str (match_text m)) ≡ ok m
unfolding check_choice choose chosen match_text same_text ascii
match_chosen exact = refl
match_chosen prefix = refl
match_chosen wildcard = refl

pub invoke_chosen : (i : Invoke) → check_choice invoke_text invokes (str (invoke_text i)) ≡ ok i
unfolding check_choice choose chosen invoke_text same_text ascii
invoke_chosen single = refl
invoke_chosen first = refl
invoke_chosen last = refl
invoke_chosen roundrobin = refl
invoke_chosen random = refl

cancel_mode_chosen :
    (m : CancelMode) → check_choice cancel_mode_text cancel_modes (str (cancel_mode_text m)) ≡ ok m
unfolding check_choice choose chosen cancel_mode_text same_text ascii
cancel_mode_chosen CancelMode.skip = refl
cancel_mode_chosen CancelMode.killnowait = refl
cancel_mode_chosen CancelMode.kill = refl

interrupt_mode_chosen :
    (m : InterruptMode)
    → check_choice interrupt_mode_text interrupt_modes (str (interrupt_mode_text m)) ≡ ok m
unfolding check_choice choose chosen interrupt_mode_text same_text ascii
interrupt_mode_chosen InterruptMode.kill = refl
interrupt_mode_chosen InterruptMode.killnowait = refl

pub cancel_mode_read :
    (o : Option CancelMode)
    → read (check_choice cancel_mode_text cancel_modes) (map (λ m. str (cancel_mode_text m)) o)
      ≡ ok o
cancel_mode_read o =
    read-map (check_choice cancel_mode_text cancel_modes) (λ m. str (cancel_mode_text m))
      cancel_mode_chosen o

pub interrupt_mode_read :
    (o : Option InterruptMode)
    → read
        (check_choice interrupt_mode_text interrupt_modes)
        (map (λ m. str (interrupt_mode_text m)) o)
      ≡ ok o
interrupt_mode_read o =
    read-map (check_choice interrupt_mode_text interrupt_modes) (λ m. str (interrupt_mode_text m))
      interrupt_mode_chosen o
