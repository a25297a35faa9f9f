-- ===== src/Wamp/Client/Once/Replies.antt =====
-- The futures of a session of wamp/protocol.py, and the replies of the router.
use autobahn_python.Base.{
  ◌&&◌, ℕ, ◌∷◌, Bool, true, false, not, Option, none, some, if◌then◌else◌, Result, ok, err, refl,
  ◌>>=◌, when, proceed, Error,
}
use autobahn_python.Wamp.Value.{Text, ℤ, pos}
use autobahn_python.Wamp.Payload.{Payload}
use autobahn_python.Wamp.Checks.{is_zero}
use autobahn_python.Wamp.CallResult.{CallOptions, call_result_raises, progress_raises}
use autobahn_python.Wamp.Pending.{Kind, calling, registering, unregistering, Pending, find}
use autobahn_python.Wamp.Client.{
  Reply, sent, progressed, user_error, Client, note, is_member, unless_called, unpend, pop_request,
  on_published, on_subscribed, subscribed_to, on_unsubscribed, unsubscribed_from, is_encoded,
  is_progress, progressive, final_result, progress_result, take_result, Reason, resolve, reject,
  on_result, registered_as, take_registration, on_registered, unregistered_from, revoked,
  on_unregistered, kind_of, error_for, on_error, has_id,
}
use autobahn_python.Wamp.Client.Ending.{transport_send, leave_with, on_goodbye}
use autobahn_python.Wamp.Client.Once.{
  IsSound, after_resolve, after_reject, unless_called-Keeps, pop_request-IsSound, same,
  on_leave-Keeps, after_choice, either_method,
}
use autobahn_python.Wamp.Session.{Goodbye}
use autobahn_python.Wamp.Subscription.{Published, Subscribed, Unsubscribed}
use autobahn_python.Wamp.Registration.{Registered, Unregistered}
use autobahn_python.Wamp.Answer.{Answer, ErrorMessage}

pub on_published-IsSound : (m : Published) (c : Client) → IsSound c → IsSound (on_published m c).1
unfolding on_published
on_published-IsSound m =
    pop_request-IsSound _ _ _ (λ p. unless_called-Keeps p.future _ (after_resolve p.future _))

pub on_subscribed-IsSound :
    (m : Subscribed) (c : Client) → IsSound c → IsSound (on_subscribed m c).1
unfolding on_subscribed subscribed_to
on_subscribed-IsSound m = pop_request-IsSound _ _ _ (λ p.
    unless_called-Keeps p.future (subscribed_to m.subscription p.future)
      (λ c s n. after_resolve p.future _ _ (same c _ refl refl s) n))

pub on_unsubscribed-IsSound :
    (m : Unsubscribed) (c : Client) → IsSound c → IsSound (on_unsubscribed m c).1
unfolding on_unsubscribed unsubscribed_from
on_unsubscribed-IsSound m = pop_request-IsSound _ _ _ (λ p.
    unless_called-Keeps p.future (unsubscribed_from p.object_id p.future)
      (λ c s n. after_resolve p.future _ _ (same c _ refl refl s) n))

progressive-IsSound :
    (request : ℤ) (m : Payload) (o : Option CallOptions) (c : Client)
    → IsSound c
    → IsSound (progressive request m o c).1
unfolding progressive note
progressive-IsSound request m none c s = s
progressive-IsSound request m (some o) c s =
    after_choice (not o.on_progress) (ok tt, c) _ (λ _. s)
      (λ _.
        after_choice (is_encoded m) (ok tt, note user_error c) _
          (λ _. record { once = s.once; done = s.done })
          (λ _.
            after_choice (progress_raises o.details m.args m.kwargs) (err Error.logic_error, c)
              (ok tt, note (progressed request m) c) (λ _. s)
              (λ _. record { once = s.once; done = s.done })))

final_result-IsSound :
    (m : Payload) (p : Pending) (c : Client) → IsSound c → IsSound (final_result m p c).1
unfolding final_result
final_result-IsSound m p c s =
    after_choice (is_member p.future c.called) (ok tt, c) _ (λ _. s)
      (λ n.
        after_choice (is_encoded m) (ok tt, reject p.future Reason.no_payload_codec c) _
          (λ _. after_reject p.future Reason.no_payload_codec c s n)
          (λ _.
            after_choice (call_result_raises m.kwargs) (err Error.logic_error, c)
              (ok tt, resolve p.future (Reply.result m) c) (λ _. s)
              (λ _. after_resolve p.future (Reply.result m) c s n)))

take_result-IsSound :
    (m : Answer) (o : Option Pending) (c : Client) → IsSound c → IsSound (take_result m o c).1
unfolding take_result unpend
take_result-IsSound m none c s = s
take_result-IsSound m (some p) c s =
    final_result-IsSound m.payload p (unpend calling m.request c)
      (record { once = s.once; done = s.done })

progress-IsSound :
    (m : Answer) (o : Option Pending) (c : Client) → IsSound c → IsSound (progress_result m o c).1
unfolding progress_result
progress-IsSound m none c s = s
progress-IsSound m (some p) c s = progressive-IsSound m.request m.payload p.options c s

pub on_result-IsSound : (m : Answer) (c : Client) → IsSound c → IsSound (on_result m c).1
unfolding on_result
on_result-IsSound m c s = either (is_progress m.progress)
  where
    either :
        (b : Bool)
        → IsSound
            (if b
              then progress_result m (find calling m.request c.pending) c
              else take_result m (find calling m.request c.pending) c).1
    either true = progress-IsSound m (find calling m.request c.pending) c s
    either false = take_result-IsSound m (find calling m.request c.pending) c s

take_registration-IsSound :
    (id : ℤ) (o : Option Pending) (c : Client) → IsSound c → IsSound (take_registration id o c).1
unfolding take_registration unpend registered_as
take_registration-IsSound id none c s = s
take_registration-IsSound id (some p) c s =
    let d = unpend registering p.request c in
    let t : IsSound d = record { once = s.once; done = s.done } in
    after_choice (is_member p.future d.called) (ok tt, d) _ (λ _. t)
      (λ n.
        after_choice (has_id id d.registrations) (err Error.invalid_message, d)
          (ok tt, registered_as id p.uri p.future d) (λ _. t)
          (λ _.
            after_resolve p.future (Reply.registration id)
              (record d { registrations = (id, p.uri) ∷ d.registrations })
              (record { once = s.once; done = s.done }) n))

pub on_registered-IsSound :
    (m : Registered) (c : Client) → IsSound c → IsSound (on_registered m c).1
unfolding on_registered
on_registered-IsSound m c s =
    take_registration-IsSound m.registration (find registering m.request c.pending) c s

revoked-IsSound : (o : Option ℤ) (c : Client) → IsSound c → IsSound (revoked o c).1
unfolding revoked
revoked-IsSound none c s = s
revoked-IsSound (some id) c s = s

pub on_unregistered-IsSound :
    (m : Unregistered) (c : Client) → IsSound c → IsSound (on_unregistered m c).1
unfolding on_unregistered unregistered_from
on_unregistered-IsSound m c s =
    either_method (is_zero m.request) (revoked m.registration)
      (pop_request unregistering m.request
        (λ p. unless_called p.future (unregistered_from p.object_id p.future)))
      c (revoked-IsSound m.registration c s)
      (pop_request-IsSound unregistering m.request
        (λ p. unless_called p.future (unregistered_from p.object_id p.future))
        (λ p.
          unless_called-Keeps p.future (unregistered_from p.object_id p.future)
            (λ c s n. after_resolve p.future _ _ (same c _ refl refl s) n))
        c s)

error_for-IsSound :
    (m : ErrorMessage) (o : Option Kind) (c : Client) → IsSound c → IsSound (error_for m o c).1
unfolding error_for
error_for-IsSound m none c s = s
error_for-IsSound m (some kind) c s =
    pop_request-IsSound kind m.request _
      (λ p. unless_called-Keeps p.future _ (after_reject p.future _)) c s

pub transport_send-IsSound :
    (code : ℕ) (request : ℤ) (c : Client) → IsSound c → IsSound (transport_send code request c).1
unfolding transport_send note
transport_send-IsSound code request c s =
    after_choice (c.transport && c.takes code request) (ok tt, note (sent code request) c)
      (err Error.logic_error, c) (λ _. record { once = s.once; done = s.done }) (λ _. s)

leave_with-IsSound : (reason : Text) (c : Client) → IsSound c → IsSound (leave_with reason c).1
unfolding leave_with
leave_with-IsSound reason c s =
    on_leave-Keeps reason (record c { session_id = none }) (record { once = s.once; done = s.done })

pub on_goodbye-IsSound : (m : Goodbye) (c : Client) → IsSound c → IsSound (on_goodbye m c).1
unfolding on_goodbye ◌>>=◌
on_goodbye-IsSound m c s = either c.goodbye_sent
  where
    then_left :
        (r : Result (Unit {0}) × Client)
        → IsSound r.1
        → IsSound (proceed r.0 (λ _. leave_with m.reason) r.1).1
    then_left (ok _, d) t = leave_with-IsSound m.reason d t
    then_left (err _, d) t = t

    either :
        (b : Bool)
        → IsSound
            (proceed
              ((when (not b) (transport_send 6 (pos 0))) c).0
              (λ _. leave_with m.reason)
              ((when (not b) (transport_send 6 (pos 0))) c).1).1
    either true = leave_with-IsSound m.reason c s
    either false = then_left (transport_send 6 (pos 0) c) (transport_send-IsSound 6 (pos 0) c s)

pub on_error-IsSound : (m : ErrorMessage) (c : Client) → IsSound c → IsSound (on_error m c).1
unfolding on_error
on_error-IsSound m c s = error_for-IsSound m (kind_of m.request_type) c s
