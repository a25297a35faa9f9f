-- ===== src/Wamp/Client/Once.antt =====
-- The futures that a session of wamp/protocol.py has completed, and the end of the session.
pub mod Replies
pub mod Steps
use autobahn_python.Base.{
  ℕ, List, [], ◌∷◌, ◌++◌, Bool, true, false, ◌&&◌, ◌||◌, not, Option, none, some, ◌==◌, ==_iff,
  if◌then◌else◌, Result, ok, err, ◌≡◌, refl, sym, ap, subst, ◌∙◌, Bool-cases, ◌⊎◌, inl, inr, ascii,
  ◌>>=◌, gets, pure, when, arith, Error,
}
use mathlib.Core.Bool.{true≢false}
use autobahn_python.Wamp.Value.{Text, ℤ, pos}
use autobahn_python.Wamp.Uri.{is_uri}
use autobahn_python.Wamp.Payload.{Payload}
use autobahn_python.Wamp.Checks.{is_zero}
use autobahn_python.Wamp.Pending.{Kind, Pending, find, outstanding}
use autobahn_python.Wamp.Client.{
  Reply, Reason, Note, sent, resolved, rejected, progressed, user_error, left, closed_transport,
  Client, Act, note, is_member, unless_called, resolve, reject, unpend, popped, pop_request,
  on_published, on_subscribed, subscribed_to, on_unsubscribed, unsubscribed_from, is_encoded,
  is_progress, progressive, progress_result, on_result, registered_as, take_registration,
  on_registered, unregistered_from, revoked, on_unregistered, kind_of, error_for, on_error, has_id,
}
use autobahn_python.Wamp.Client.Ending.{
  reject_all, errback_outstanding, disconnect, on_leave, transport_send, leave_with, on_goodbye,
  is_joined, lose_session, on_close,
}

-- The futures that the session resolved or rejected.
abbrev pub completions : List Note → List ℕ
completions [] = []
completions (resolved f _ ∷ log) = f ∷ completions log
completions (rejected f _ ∷ log) = f ∷ completions log
completions (_ ∷ log) = completions log

unfoldable pub distinct : List ℕ → Bool
distinct [] = true
distinct (f ∷ fs) = not (is_member f fs) && distinct fs

-- Each was completed once, and is done.
pub record IsSound (c : Client) : Type 0 where
  pub once : distinct (completions c.log) ≡ true
  pub done : (f : ℕ) → is_member f (completions c.log) ≡ true → is_member f c.called ≡ true

not_completed :
    (c : Client) (f : ℕ)
    → IsSound c
    → is_member f c.called ≡ false
    → is_member f (completions c.log) ≡ false
not_completed c f s n = elim (Bool-cases (is_member f (completions c.log))) [
  | inl e ↦ absurd (true≢false (sym (s.done f e) ∙ n))
  | inr e ↦ e
]

or_monotone : (a b d : Bool) → (b ≡ true → d ≡ true) → a || b ≡ true → a || d ≡ true
or_monotone true b d k h = refl
or_monotone false b d k h = k h

pub after_resolve :
    (f : ℕ) (r : Reply) (c : Client)
    → IsSound c
    → is_member f c.called ≡ false
    → IsSound (resolve f r c)
unfolding resolve distinct is_member
after_resolve f r c s n = record {
  once = rw (not_completed c f s n, s.once);
  done =
      λ g. or_monotone (g == f) (is_member g (completions c.log)) (is_member g c.called) (s.done g);
}

pub after_reject :
    (f : ℕ) (r : Reason) (c : Client)
    → IsSound c
    → is_member f c.called ≡ false
    → IsSound (reject f r c)
unfolding reject distinct is_member
after_reject f r c s n = record {
  once = rw (not_completed c f s n, s.once);
  done =
      λ g. or_monotone (g == f) (is_member g (completions c.log)) (is_member g c.called) (s.done g);
}

-- A change of the session that keeps this, at a future that is not done.
abbrev pub Keeps : (Client → Client) → Type 0
Keeps g = (c : Client) → IsSound c → IsSound (g c)

abbrev pub KeepsAt : ℕ → (Client → Client) → Type 0
KeepsAt f g = (c : Client) → IsSound c → is_member f c.called ≡ false → IsSound (g c)

pub unless_called-Keeps : (f : ℕ) (g : Client → Client) → KeepsAt f g → Keeps (unless_called f g)
unfolding unless_called
unless_called-Keeps f g k c s = chosen (is_member f c.called) refl
  where
    chosen : (b : Bool) → is_member f c.called ≡ b → IsSound (if b then c else g c)
    chosen true e = s
    chosen false e = k c s e

popped-IsSound :
    (kind : Kind) (request : ℤ) (f : Pending → Client → Client)
    → ((p : Pending) → Keeps (f p))
    → (o : Option Pending) (c : Client) → IsSound c
    → IsSound (popped kind request f o c).1
unfolding popped unpend
popped-IsSound kind request f k none c s = s
popped-IsSound kind request f k (some p) c s = k p _ (record { once = s.once; done = s.done })

pub pop_request-IsSound :
    (kind : Kind) (request : ℤ) (f : Pending → Client → Client)
    → ((p : Pending) → Keeps (f p))
    → (c : Client) → IsSound c
    → IsSound (pop_request kind request f c).1
unfolding pop_request
pop_request-IsSound kind request f k c s =
    popped-IsSound kind request f k (find kind request c.pending) c s

-- The same log and the same futures.
pub same : (c d : Client) → d.log ≡ c.log → d.called ≡ c.called → IsSound c → IsSound d
same c d l k s = record {
  once = ap (λ x. distinct (completions x)) l ∙ s.once;
  done = λ f h. ap (is_member f) k ∙ s.done f (ap (λ x. is_member f (completions x)) (sym l) ∙ h);
}

pub chosen_sound : (b : Bool) (c d : Client) → IsSound c → IsSound d → IsSound (if b then c else d)
chosen_sound true c d s t = s
chosen_sound false c d s t = t

reject_all-Keeps : (r : Reason) (ps : List Pending) → Keeps (reject_all r ps)
unfolding reject_all
reject_all-Keeps r [] c s = s
reject_all-Keeps r (p ∷ ps) c s =
    reject_all-Keeps r ps _
      (unless_called-Keeps p.future (reject p.future r) (after_reject p.future r) c s)

errback-Keeps : (r : Reason) → Keeps (errback_outstanding r)
unfolding errback_outstanding
errback-Keeps r c s =
    reject_all-Keeps r (outstanding c.pending) (record c { pending = [] })
      (record { once = s.once; done = s.done })

pub on_leave-Keeps : (reason : Text) → Keeps (on_leave reason)
unfolding on_leave disconnect note
on_leave-Keeps reason c s =
    let d = errback_outstanding (Reason.session_left reason) (note (left reason) c) in
    let t =
      errback-Keeps (Reason.session_left reason) (note (left reason) c)
        (record { once = s.once; done = s.done }) in
    chosen_sound d.transport (note closed_transport d) d (record { once = t.once; done = t.done }) t

pub on_close-Keeps : Keeps on_close
unfolding on_close lose_session
on_close-Keeps c s =
    let d : Client = record c { transport = false } in
    let reason = ascii "wamp.close.transport_lost" in
    let u : IsSound d = record { once = s.once; done = s.done } in
    let t = on_leave-Keeps reason d u in
    errback-Keeps Reason.transport_lost
      (if is_joined d.session_id then record (on_leave reason d) { session_id = none } else d)
      (chosen_sound (is_joined d.session_id) (record (on_leave reason d) { session_id = none }) d
        (record { once = t.once; done = t.done }) u)

pub after_choice :
    {A : Type 0} (b : Bool) (x y : A × Client)
    → (b ≡ true → IsSound x.1)
    → (b ≡ false → IsSound y.1)
    → IsSound (if b then x else y).1
after_choice true x y s t = s refl
after_choice false x y s t = t refl

pub either_method :
    (b : Bool) (f g : Act (Unit {0})) (c : Client)
    → IsSound (f c).1
    → IsSound (g c).1
    → IsSound ((if b then f else g) c).1
either_method true f g c s t = s
either_method false f g c s t = t
