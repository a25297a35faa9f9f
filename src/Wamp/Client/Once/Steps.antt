-- ===== src/Wamp/Client/Once/Steps.antt =====
-- The futures of a session of wamp/protocol.py, over everything that happens to it.
use autobahn_python.Base.{
  ℕ, List, [], ◌∷◌, Bool, true, false, ◌||◌, not, Option, none, some, ◌==◌, Result, ok, err, ◌≡◌,
  refl, sym, ap, ◌∙◌, Error, ◌++◌,
}
use mathlib.Core.Bool.{true≢false}
use autobahn_python.Wamp.Value.{Text, ℤ, pos}
use autobahn_python.Wamp.Uri.{is_uri}
use autobahn_python.Wamp.CallResult.{CallOptions}
use autobahn_python.Wamp.Pending.{
  Pending, Kind, publishing, subscribing, unsubscribing, calling, registering, unregistering,
}
use autobahn_python.Wamp.Client.{
  next_id, sent, Client, note, is_member, unpend, on_published, on_subscribed, on_unsubscribed,
  on_result, on_registered, on_unregistered, on_error, has_id,
}
use autobahn_python.Wamp.Client.Ending.{transport_send, on_goodbye, is_joined}
use autobahn_python.Wamp.Client.Requests.{
  with_transport, with_uri, issue, send_request, keep, send_publish, publish, send_call, call,
  send_kept, subscribe, register, unregister, drop_handler, unsubscribe, handlers_of, is_empty_list,
  remove_handler, call_of, send_cancel, cancel, mark_left, leave, established, Input, published,
  subscribed, unsubscribed, answered, registered, unregistered, failed, goodbye, closed, publishes,
  calls, subscribes, registers, unregisters, unsubscribes, cancels, step, run,
}
use autobahn_python.Wamp.Client.Once.{
  completions, distinct, IsSound, Keeps, unless_called-Keeps, on_close-Keeps, after_choice,
}
use autobahn_python.Wamp.Client.Once.Replies.{
  on_published-IsSound, on_subscribed-IsSound, on_unsubscribed-IsSound, on_result-IsSound,
  on_registered-IsSound, on_unregistered-IsSound, transport_send-IsSound, on_goodbye-IsSound,
  on_error-IsSound,
}

send_request-IsSound :
    (code : ℕ) (undo : ℤ → Client → Client) (o : Option ℕ) (c : Client)
    → ((r : ℤ) → Keeps (undo r))
    → IsSound c
    → IsSound (send_request code undo o c).1
unfolding send_request note
send_request-IsSound code undo o c k s =
    after_choice (c.takes code (pos c.last_id)) (ok o, note (sent code (pos c.last_id)) c)
      (err Error.logic_error, undo (pos c.last_id) c) (λ _. record { once = s.once; done = s.done })
      (λ _. k (pos c.last_id) c s)

-- A method that keeps it.
abbrev KeptBy : {A : Type 0} → (Client → Result A × Client) → Type 0
KeptBy f = (c : Client) → IsSound c → IsSound (f c).1

with_transport-KeptBy :
    (f : Client → Result (Option ℕ) × Client) → KeptBy f → KeptBy (with_transport f)
unfolding with_transport
with_transport-KeptBy f k c s =
    after_choice c.transport (f c) (err Error.transport_lost, c) (λ _. k c s) (λ _. s)

with_uri-KeptBy :
    (b : Bool) (f : Client → Result (Option ℕ) × Client) → KeptBy f → KeptBy (with_uri b f)
unfolding with_uri
with_uri-KeptBy b f k c s = after_choice b (f c) (err Error.invalid_uri, c) (λ _. k c s) (λ _. s)

unpend-Keeps : (kind : Kind) (r : ℤ) → Keeps (unpend kind r)
unfolding unpend
unpend-Keeps kind r c s = record { once = s.once; done = s.done }

keep-Keeps : (r : ℤ) → Keeps (keep r)
unfolding keep
keep-Keeps r c s = s

issue-Keeps :
    (kind : Kind) (uri : Text) (id : ℤ) (o : Option CallOptions) → Keeps (issue kind uri id o)
unfolding issue
issue-Keeps kind uri id o c s = record { once = s.once; done = s.done }

send_publish-KeptBy : (topic : Text) (a : Bool) → KeptBy (send_publish topic a)
unfolding send_publish
send_publish-KeptBy topic true c s =
    send_request-IsSound 16 (unpend publishing) _ _ (unpend-Keeps publishing)
      (issue-Keeps publishing topic (pos 0) none c s)
send_publish-KeptBy topic false c s =
    send_request-IsSound 16 (unpend publishing) none (record c { last_id = next_id c.last_id })
      (unpend-Keeps publishing) (record { once = s.once; done = s.done })

publish-KeptBy : (topic : Text) (a : Bool) → KeptBy (publish topic a)
unfolding publish
publish-KeptBy topic a =
    with_uri-KeptBy (is_uri false false topic) _
      (with_transport-KeptBy (send_publish topic a) (send_publish-KeptBy topic a))

send_call-KeptBy : (procedure : Text) (o : Option CallOptions) → KeptBy (send_call procedure o)
unfolding send_call
send_call-KeptBy procedure o c s =
    send_request-IsSound 48 (unpend calling) _ _ (unpend-Keeps calling)
      (issue-Keeps calling procedure (pos 0) o c s)

call-KeptBy : (procedure : Text) (o : Option CallOptions) → KeptBy (call procedure o)
unfolding call
call-KeptBy procedure o =
    with_uri-KeptBy (is_uri false false procedure) _
      (with_transport-KeptBy (send_call procedure o) (send_call-KeptBy procedure o))

send_kept-KeptBy :
    (code : ℕ) (kind : Kind) (uri : Text) (id : ℤ) → KeptBy (send_kept code kind uri id)
unfolding send_kept
send_kept-KeptBy code kind uri id c s =
    send_request-IsSound code keep _ _ keep-Keeps (issue-Keeps kind uri id none c s)

subscribe-KeptBy : (topic : Text) → KeptBy (subscribe topic)
unfolding subscribe
subscribe-KeptBy topic =
    with_transport-KeptBy _
      (with_uri-KeptBy (is_uri true false topic) _ (send_kept-KeptBy 32 subscribing topic (pos 0)))

register-KeptBy : (prefix procedure : Text) → KeptBy (register prefix procedure)
unfolding register
register-KeptBy prefix procedure = with_transport-KeptBy _ (
    with_uri-KeptBy (is_uri true false procedure) _
      (send_kept-KeptBy 64 registering (prefix ++ procedure) (pos 0)))

unregister-KeptBy : (id : ℤ) → KeptBy (unregister id)
unfolding unregister
unregister-KeptBy id c s =
    after_choice (not (has_id id c.registrations)) (err Error.assertion_failed, c) _ (λ _. s)
      (λ _.
        with_transport-KeptBy (send_kept 66 unregistering [] id)
          (send_kept-KeptBy 66 unregistering [] id) c s)

drop_handler-KeptBy : (id : ℤ) (h : ℕ) → KeptBy (drop_handler id h)
unfolding drop_handler
drop_handler-KeptBy id h c s =
    let d = record c { subscriptions = remove_handler id h c.subscriptions } in
    let t : IsSound d = record { once = s.once; done = s.done } in
    after_choice (is_empty_list (handlers_of id d.subscriptions))
      (send_kept 34 unsubscribing [] id d) (ok none, d)
      (λ _. send_kept-KeptBy 34 unsubscribing [] id d t) (λ _. t)

unsubscribe-KeptBy : (id : ℤ) (h : ℕ) → KeptBy (unsubscribe id h)
unfolding unsubscribe
unsubscribe-KeptBy id h c s =
    after_choice (not (is_member h (handlers_of id c.subscriptions)))
      (err Error.assertion_failed, c) _ (λ _. s)
      (λ _. with_transport-KeptBy (drop_handler id h) (drop_handler-KeptBy id h) c s)

established-KeptBy :
    (f : Client → Result (Unit {0}) × Client) → KeptBy f → (o : Option ℤ) → KeptBy (established f o)
unfolding established
established-KeptBy f k none c s = s
established-KeptBy f k (some _) c s = k c s

or_right : (a b : Bool) → b ≡ true → a || b ≡ true
or_right true b h = refl
or_right false b h = h

send_cancel-Keeps : (o : Option Pending) → Keeps (send_cancel o)
unfolding send_cancel
send_cancel-Keeps none c s = s
send_cancel-Keeps (some p) c s = transport_send-IsSound 49 p.request c s

cancel-Keeps : (f : ℕ) → Keeps (cancel f)
unfolding cancel is_member
cancel-Keeps f = unless_called-Keeps f _ (λ c s n.
    send_cancel-Keeps (call_of f c.pending) (record c { called = f ∷ c.called })
      (record {
        once = s.once;
        done = λ g h. or_right (g == f) (is_member g c.called) (s.done g h);
      }))

mark_left-IsSound : (r : Result (Unit {0}) × Client) → IsSound r.1 → IsSound (mark_left r).1
unfolding mark_left
mark_left-IsSound (ok _, c) s = record { once = s.once; done = s.done }
mark_left-IsSound (err e, c) s = s

leave-IsSound : (c : Client) → IsSound c → IsSound (leave c).1
unfolding leave
leave-IsSound c s =
    after_choice (not (is_joined c.session_id) || c.goodbye_sent) (ok tt, c) _ (λ _. s)
      (λ _. mark_left-IsSound (transport_send 6 (pos 0) c) (transport_send-IsSound 6 (pos 0) c s))

step-Keeps : (i : Input) → Keeps (step i)
unfolding step
step-Keeps (published m) c =
    established-KeptBy (on_published m) (on_published-IsSound m) c.session_id c
step-Keeps (subscribed m) c =
    established-KeptBy (on_subscribed m) (on_subscribed-IsSound m) c.session_id c
step-Keeps (unsubscribed m) c =
    established-KeptBy (on_unsubscribed m) (on_unsubscribed-IsSound m) c.session_id c
step-Keeps (answered m) c = established-KeptBy (on_result m) (on_result-IsSound m) c.session_id c
step-Keeps (registered m) c =
    established-KeptBy (on_registered m) (on_registered-IsSound m) c.session_id c
step-Keeps (unregistered m) c =
    established-KeptBy (on_unregistered m) (on_unregistered-IsSound m) c.session_id c
step-Keeps (failed m) c = established-KeptBy (on_error m) (on_error-IsSound m) c.session_id c
step-Keeps (goodbye m) c = established-KeptBy (on_goodbye m) (on_goodbye-IsSound m) c.session_id c
step-Keeps closed c = on_close-Keeps c
step-Keeps Input.left c = leave-IsSound c
step-Keeps (publishes topic a) c = publish-KeptBy topic a c
step-Keeps (calls procedure o) c = call-KeptBy procedure o c
step-Keeps (subscribes topic) c = subscribe-KeptBy topic c
step-Keeps (registers prefix procedure) c = register-KeptBy prefix procedure c
step-Keeps (unregisters id) c = unregister-KeptBy id c
step-Keeps (unsubscribes id h) c = unsubscribe-KeptBy id h c
step-Keeps (cancels f) c = cancel-Keeps f c

run-Keeps : (is : List Input) → Keeps (run is)
unfolding run
run-Keeps [] c s = s
run-Keeps (i ∷ is) c s = run-Keeps is (step i c) (step-Keeps i c s)

-- Whatever PUBLISHED, SUBSCRIBED, UNSUBSCRIBED, RESULT, REGISTERED, UNREGISTERED, ERROR and
-- GOODBYE messages come to a session without a payload codec, in whatever order, and whatever the
-- application asks of it or cancels, also when methods raise: no future is resolved or rejected
-- by the session more than once, if its log is empty at the start.
pub completed_once :
    (inputs : List Input) (c : Client)
    → c.log ≡ []
    → distinct (completions (run inputs c).log) ≡ true
unfolding distinct is_member
completed_once inputs c e =
    (run-Keeps inputs c (record {
      once = ap (λ l. distinct (completions l)) e;
      done = λ f h. absurd (true≢false (sym h ∙ ap (λ l. is_member f (completions l)) e));
    })).once
