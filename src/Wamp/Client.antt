-- ===== src/Wamp/Client.antt =====
-- `ApplicationSession` of wamp/protocol.py, the client's side of an established session: its requests,
-- the replies to them, and the end of the session; `IdGenerator` of util.py. EVENT, INVOCATION and
-- INTERRUPT, which call the application, are not here, and there is no payload codec. Callbacks of a
-- future that is done run at once.
pub mod Ending
pub mod Requests
pub mod Once
pub mod Twice
pub mod Closed
use autobahn_python.Base.{
  ℕ, zero, suc, ◌+◌, List, [], ◌∷◌, ◌++◌, Bool, true, false, ◌&&◌, ◌||◌, not, Option, none, some,
  ltb, ◌==◌, if◌then◌else◌, ascii, Error, Result, ok, err, Exec, pure, raise, gets, modify, ◌>>=◌,
  ◌>>◌, when,
}
use autobahn_python.Wamp.Value.{Text, ℤ, pos, negsuc, str}
use autobahn_python.Wamp.Uri.{is_uri}
use autobahn_python.Wamp.Checks.{is_zero}
use autobahn_python.Wamp.Payload.{Payload}
use autobahn_python.Wamp.Session.{Goodbye}
use autobahn_python.Wamp.Subscription.{Published, Subscribed, Unsubscribed}
use autobahn_python.Wamp.Registration.{Registered, Unregistered}
use autobahn_python.Wamp.Answer.{Answer, ErrorMessage}
use autobahn_python.Wamp.CallResult.{CallOptions, call_result_raises, progress_raises}
use autobahn_python.Wamp.Pending.{
  Kind, Pending, calling, find, is_at, of_kind, outstanding, publishing, put, registering, remove,
  same_int, same_kind, subscribing, unregistering, unsubscribing,
}

-- What a future is resolved with.
pub data Reply : Type 0 where
  publication subscription registration : ℤ → Reply
  result : Payload → Reply
  done : Reply

pub data Reason : Type 0 where
  error_reply : Text → Reason
  no_payload_codec transport_lost : Reason
  session_left : Text → Reason

pub data Note : Type 0 where
  sent : ℕ → ℤ → Note  -- the type of a message and its request, which is 0 if it has none
  resolved : ℕ → Reply → Note
  rejected : ℕ → Reason → Note
  progressed : ℤ → Payload → Note  -- the callback for a progressive result
  user_error : Note
  left : Text → Note
  closed_transport : Note

-- A handler of a subscription is given by the future of its request. `takes` says whether the transport
-- takes a message without an exception. `called` has the futures that are done, also those that the
-- application cancelled.
pub record Client : Type 0 where
  pub transport : Bool
  pub takes : ℕ → ℤ → Bool
  pub session_id : Option ℤ
  pub goodbye_sent : Bool
  pub last_id : ℕ
  pub next_future : ℕ
  pub called : List ℕ
  pub pending : List Pending
  pub subscriptions : List (ℤ × List ℕ)
  pub registrations : List (ℤ × Text)
  pub log : List Note

abbrev pub Act : Type 0 → Type 0
Act = Exec Client

unfoldable pub note : Note → Client → Client
note n c = record c { log = n ∷ c.log }

-- `IdGenerator.next`
unfoldable pub next_id : ℕ → ℕ
next_id n = if ltb 9007199254740992 (n + 1) then 1 else n + 1

unfoldable pub is_member : ℕ → List ℕ → Bool
is_member n [] = false
is_member n (m ∷ ms) = n == m || is_member n ms

-- `if not txaio.is_called(on_reply):`, and otherwise nothing.
unfoldable pub unless_called : ℕ → (Client → Client) → Client → Client
unless_called future f c = if is_member future c.called then c else f c

unfoldable pub resolve : ℕ → Reply → Client → Client
resolve future reply c = record c {
  called = future ∷ c.called;
  log = resolved future reply ∷ c.log;
}

unfoldable pub reject : ℕ → Reason → Client → Client
reject future reason c = record c {
  called = future ∷ c.called;
  log = rejected future reason ∷ c.log;
}

unfoldable pub unpend : Kind → ℤ → Client → Client
unpend kind request c = record c { pending = remove kind request c.pending }

-- The message belongs to no outstanding request: a ProtocolError.
unfoldable pub popped : Kind → ℤ → (Pending → Client → Client) → Option Pending → Act (Unit {0})
popped kind request f none c = (err Error.invalid_message, c)
popped kind request f (some p) c = (ok tt, f p (unpend kind request c))

unfoldable pub pop_request : Kind → ℤ → (Pending → Client → Client) → Act (Unit {0})
pop_request kind request f c = popped kind request f (find kind request c.pending) c

-- PUBLISHED
unfoldable pub on_published : Published → Act (Unit {0})
on_published m =
    pop_request publishing m.request
      (λ p. unless_called p.future (resolve p.future (publication m.publication)))

-- The handlers of a subscription, and one more.
unfoldable pub add_handler : ℤ → ℕ → List (ℤ × List ℕ) → List (ℤ × List ℕ)
add_handler id h [] = (id, h ∷ []) ∷ []
add_handler id h ((i, hs) ∷ rest) =
    if same_int id i then (i, hs ++ h ∷ []) ∷ rest else (i, hs) ∷ add_handler id h rest

unfoldable pub drop_key : {A : Type 0} → ℤ → List (ℤ × A) → List (ℤ × A)
drop_key id [] = []
drop_key id ((i, a) ∷ rest) =
    let others = drop_key id rest in if same_int id i then others else (i, a) ∷ others

unfoldable pub has_id : {A : Type 0} → ℤ → List (ℤ × A) → Bool
has_id id [] = false
has_id id ((i, a) ∷ rest) = same_int id i || has_id id rest

-- SUBSCRIBED
unfoldable pub subscribed_to : ℤ → ℕ → Client → Client
subscribed_to id future c =
    resolve future (subscription id)
      (record c { subscriptions = add_handler id future c.subscriptions })

unfoldable pub on_subscribed : Subscribed → Act (Unit {0})
on_subscribed m =
    pop_request subscribing m.request
      (λ p. unless_called p.future (subscribed_to m.subscription p.future))

-- UNSUBSCRIBED
unfoldable pub unsubscribed_from : ℤ → ℕ → Client → Client
unsubscribed_from id future c =
    resolve future done (record c { subscriptions = drop_key id c.subscriptions })

unfoldable pub on_unsubscribed : Unsubscribed → Act (Unit {0})
on_unsubscribed m =
    pop_request unsubscribing m.request
      (λ p. unless_called p.future (unsubscribed_from p.object_id p.future))

-- RESULT. An encoded payload cannot be decoded without a codec.
unfoldable pub is_encoded : Payload → Bool
is_encoded p = elim p.enc_algo [ none ↦ false | some [] ↦ false | some (_ ∷ _) ↦ true ]

unfoldable pub is_progress : Option Bool → Bool
is_progress (some true) = true
is_progress _ = false

-- A progressive result for a call without options raises an AttributeError.
unfoldable pub progressive : ℤ → Payload → Option CallOptions → Act (Unit {0})
progressive request payload none c = (err Error.logic_error, c)
progressive request payload (some o) c =
    if not o.on_progress
    then (ok tt, c)
    else if is_encoded payload
    then (ok tt, note user_error c)
    else if progress_raises o.details payload.args payload.kwargs
    then (err Error.logic_error, c)
    else (ok tt, note (progressed request payload) c)

-- The request is gone already when an exception comes up.
unfoldable pub final_result : Payload → Pending → Act (Unit {0})
final_result payload p c =
    if is_member p.future c.called
    then (ok tt, c)
    else if is_encoded payload
    then (ok tt, reject p.future no_payload_codec c)
    else if call_result_raises payload.kwargs
    then (err Error.logic_error, c)
    else (ok tt, resolve p.future (result payload) c)

unfoldable pub progress_result : Answer → Option Pending → Act (Unit {0})
progress_result m none c = (err Error.invalid_message, c)
progress_result m (some p) c = progressive m.request m.payload p.options c

unfoldable pub take_result : Answer → Option Pending → Act (Unit {0})
take_result m none c = (err Error.invalid_message, c)
take_result m (some p) c = final_result m.payload p (unpend calling m.request c)

unfoldable pub on_result : Answer → Act (Unit {0})
on_result m c =
    if is_progress m.progress
    then progress_result m (find calling m.request c.pending) c
    else take_result m (find calling m.request c.pending) c

-- REGISTERED
unfoldable pub registered_as : ℤ → Text → ℕ → Client → Client
registered_as id procedure future c =
    resolve future (registration id)
      (record c { registrations = (id, procedure) ∷ c.registrations })

unfoldable pub take_registration : ℤ → Option Pending → Act (Unit {0})
take_registration id none c = (err Error.invalid_message, c)
take_registration id (some p) c =
    let d = unpend registering p.request c in
    if is_member p.future d.called
    then (ok tt, d)
    else if has_id id d.registrations
    then (err Error.invalid_message, d)
    else (ok tt, registered_as id p.uri p.future d)

unfoldable pub on_registered : Registered → Act (Unit {0})
on_registered m c = take_registration m.registration (find registering m.request c.pending) c

-- UNREGISTERED
unfoldable pub unregistered_from : ℤ → ℕ → Client → Client
unregistered_from id future c =
    resolve future done (record c { registrations = drop_key id c.registrations })

-- A revocation by the router is only logged.
unfoldable pub revoked : Option ℤ → Act (Unit {0})
revoked none c = (err Error.invalid_message, c)
revoked (some id) c = (if has_id id c.registrations then ok tt else err Error.invalid_message, c)

unfoldable pub on_unregistered : Unregistered → Act (Unit {0})
on_unregistered m =
    if is_zero m.request
    then revoked m.registration
    else pop_request unregistering m.request
        (λ p. unless_called p.future (unregistered_from p.object_id p.future))

-- ERROR, by the type of the request.
unfoldable pub kind_of : ℤ → Option Kind
kind_of (negsuc _) = none
kind_of (pos n) =
    if n == 48
    then some calling
    else if n == 16
    then some publishing
    else if n == 32
    then some subscribing
    else if n == 34
    then some unsubscribing
    else if n == 64
    then some registering
    else if n == 66
    then some unregistering
    else none

unfoldable pub error_for : ErrorMessage → Option Kind → Act (Unit {0})
error_for m none c = (err Error.invalid_message, c)
error_for m (some kind) c =
    pop_request kind m.request (λ p. unless_called p.future (reject p.future (error_reply m.error)))
      c

unfoldable pub on_error : ErrorMessage → Act (Unit {0})
on_error m = error_for m (kind_of m.request_type)
