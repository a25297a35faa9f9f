-- ===== src/Wamp/Client/Twice.antt =====
-- A second reply to a request of ApplicationSession.
use autobahn_python.Base.{
  Result, ok, ℕ, List, [], ◌∷◌, Bool, true, false, Option, none, some, if◌then◌else◌, Error, err,
  ◌≡◌, refl, ap, ◌∙◌, Bool-cases, inl, inr,
}
use autobahn_python.Wamp.Value.{ℤ}
use autobahn_python.Wamp.Payload.{Payload}
use autobahn_python.Wamp.Subscription.{Published, Subscribed, Unsubscribed}
use autobahn_python.Wamp.Answer.{Answer, ErrorMessage}
use autobahn_python.Wamp.CallResult.{call_result_raises}
use autobahn_python.Wamp.Pending.{
  Kind, publishing, subscribing, unsubscribing, calling, Pending, is_at, find, remove,
}
use autobahn_python.Wamp.Client.{
  Client, is_member, unless_called, resolve, reject, unpend, popped, pop_request, on_published,
  on_subscribed, subscribed_to, on_unsubscribed, unsubscribed_from, is_encoded, is_progress,
  final_result, take_result, Reason, Reply, on_result, kind_of, error_for, on_error,
}

find-remove : (k : Kind) (r : ℤ) (ps : List Pending) → find k r (remove k r ps) ≡ none
unfolding find remove
find-remove k r [] = refl
find-remove k r (p ∷ ps) = elim (Bool-cases (is_at k r p)) [
  | inl e ↦ rw e (find-remove k r ps)
  | inr e ↦ rw (e, e) (find-remove k r ps)
]

-- What handles a reply leaves the other requests alone.
abbrev Leaves : (Client → Client) → Type 0
Leaves g = (c : Client) → (g c).pending ≡ c.pending

unless_called-Leaves : (f : ℕ) (g : Client → Client) → Leaves g → Leaves (unless_called f g)
unfolding unless_called
unless_called-Leaves f g l c = chosen (is_member f c.called)
  where
    chosen : (b : Bool) → (if b then c else g c).pending ≡ c.pending
    chosen true = refl
    chosen false = l c

missing :
    (k : Kind) (r : ℤ) (f : Pending → Client → Client) (c : Client)
    → find k r c.pending ≡ none
    → (pop_request k r f c).0 ≡ err Error.invalid_message
unfolding pop_request popped
missing k r f c e = ap (λ o. (popped k r f o c).0) e

popped_twice :
    (k : Kind) (r : ℤ) (f : Pending → Client → Client)
    → ((p : Pending) → Leaves (f p))
    → (c : Client) (o : Option Pending) → find k r c.pending ≡ o
    → (pop_request k r f (popped k r f o c).1).0 ≡ err Error.invalid_message
unfolding popped unpend
popped_twice k r f l c none e = missing k r f c e
popped_twice k r f l c (some p) e =
    missing k r f (f p (unpend k r c))
      (ap (find k r) (l p (unpend k r c)) ∙ find-remove k r c.pending)

popped_again :
    (k : Kind) (r : ℤ) (f : Pending → Client → Client)
    → ((p : Pending) → Leaves (f p))
    → (c : Client) → (pop_request k r f (pop_request k r f c).1).0 ≡ err Error.invalid_message
unfolding pop_request
popped_again k r f l c = popped_twice k r f l c (find k r c.pending) refl

after_each :
    (b : Bool) (c : Client) (x y : Result (Unit {0}) × Client)
    → x.1.pending ≡ c.pending
    → y.1.pending ≡ c.pending
    → (if b then x else y).1.pending ≡ c.pending
after_each true c x y h k = h
after_each false c x y h k = k

final_result-Leaves :
    (m : Payload) (p : Pending) (c : Client) → (final_result m p c).1.pending ≡ c.pending
unfolding final_result resolve reject
final_result-Leaves m p c =
    after_each (is_member p.future c.called) c (ok tt, c) _ refl
      (after_each (is_encoded m) c (ok tt, reject p.future Reason.no_payload_codec c) _ refl
        (after_each (call_result_raises m.kwargs) c (err Error.logic_error, c)
          (ok tt, resolve p.future (Reply.result m) c) refl refl))

taken_again :
    (m : Answer) (c : Client) (o : Option Pending)
    → find calling m.request c.pending ≡ o
    → let d = (take_result m o c).1 in
      (take_result m (find calling m.request d.pending) d).0 ≡ err Error.invalid_message
unfolding take_result unpend
taken_again m c none e = ap (λ o. (take_result m o c).0) e
taken_again m c (some p) e =
    let d = unpend calling m.request c in
    ap (λ o. (take_result m o (final_result m.payload p d).1).0)
      (ap (find calling m.request) (final_result-Leaves m.payload p d)
        ∙ find-remove calling m.request c.pending)

error_again :
    (m : ErrorMessage) (o : Option Kind) (c : Client)
    → (error_for m o (error_for m o c).1).0 ≡ err Error.invalid_message
unfolding error_for reject
error_again m none c = refl
error_again m (some k) c =
    popped_again k m.request _ (λ p. unless_called-Leaves p.future _ (λ c. refl)) c

result_again :
    (m : Answer) (b : Bool) (c : Client)
    → is_progress m.progress ≡ false
    → (on_result m (on_result m c).1).0 ≡ err Error.invalid_message
unfolding on_result
result_again m b c h = rw h (taken_again m c (find calling m.request c.pending) refl)

-- When a PUBLISHED, a SUBSCRIBED, an UNSUBSCRIBED, a RESULT that is not progressive or an ERROR
-- was handled, the same message once more raises a ProtocolError, in any state of the session.
pub second_reply_refused :
    (c : Client) (p : Published) (s : Subscribed) (u : Unsubscribed) (a : Answer) (e : ErrorMessage)
    → is_progress a.progress ≡ false
    → ((on_published p (on_published p c).1).0 ≡ err Error.invalid_message)
      × ((on_subscribed s (on_subscribed s c).1).0 ≡ err Error.invalid_message)
      × ((on_unsubscribed u (on_unsubscribed u c).1).0 ≡ err Error.invalid_message)
      × ((on_result a (on_result a c).1).0 ≡ err Error.invalid_message)
      × ((on_error e (on_error e c).1).0 ≡ err Error.invalid_message)
unfolding on_published on_subscribed on_unsubscribed on_error subscribed_to unsubscribed_from
    resolve
second_reply_refused c p s u a e h = (
  popped_again publishing p.request _ (λ q. unless_called-Leaves q.future _ (λ c. refl)) c,
  popped_again subscribing s.request _ (λ q. unless_called-Leaves q.future _ (λ c. refl)) c,
  popped_again unsubscribing u.request _ (λ q. unless_called-Leaves q.future _ (λ c. refl)) c,
  result_again a true c h,
  error_again e (kind_of e.request_type) c,
)
