-- ===== src/Wamp/Client/Requests.antt =====
-- What the application asks of a session, and everything that happens to it, one after the other.
use autobahn_python.Base.{
  ◌&&◌, ℕ, ◌+◌, List, [], ◌∷◌, ◌++◌, Bool, true, false, ◌||◌, not, Option, none, ◌==◌,
  if◌then◌else◌, Error, Result, ok, err, some,
}
use autobahn_python.Wamp.Value.{Text, ℤ, pos}
use autobahn_python.Wamp.Uri.{is_uri}
use autobahn_python.Wamp.Session.{Goodbye}
use autobahn_python.Wamp.Subscription.{Published, Subscribed, Unsubscribed}
use autobahn_python.Wamp.Registration.{Registered, Unregistered}
use autobahn_python.Wamp.Answer.{Answer, ErrorMessage}
use autobahn_python.Wamp.CallResult.{CallOptions}
use autobahn_python.Wamp.Pending.{
  Kind, publishing, subscribing, unsubscribing, calling, registering, unregistering, same_int,
  same_kind, Pending, put,
}
use autobahn_python.Wamp.Client.{
  Client, Act, sent, note, next_id, is_member, unless_called, unpend, has_id, on_published,
  on_subscribed, on_unsubscribed, on_result, on_registered, on_unregistered, on_error,
}
use autobahn_python.Wamp.Client.Ending.{is_joined, transport_send, on_goodbye, on_close}

-- A request needs a transport.
unfoldable pub with_transport : (Client → Result (Option ℕ) × Client) → Act (Option ℕ)
with_transport f c = if c.transport then f c else (err Error.transport_lost, c)

unfoldable pub with_uri : Bool → (Client → Result (Option ℕ) × Client) → Act (Option ℕ)
with_uri is_valid f c = if is_valid then f c else (err Error.invalid_uri, c)

-- `_request_id_gen.next()`, `txaio.create_future()` and the entry of a dictionary.
unfoldable pub issue : Kind → Text → ℤ → Option CallOptions → Client → Client
issue kind uri object_id options c =
    let request = next_id c.last_id in
    record c {
      last_id = request;
      next_future = c.next_future + 1;
      pending =
          put
            (record {
              kind = kind;
              request = pos request;
              future = c.next_future;
              uri = uri;
              object_id = object_id;
              options = options;
            })
            c.pending;
    }

-- The future of the request is returned. An exception of the transport is raised again; `undo` takes
-- the request back before.
unfoldable pub send_request : ℕ → (ℤ → Client → Client) → Option ℕ → Act (Option ℕ)
send_request code undo future c =
    let request = pos c.last_id in
    if c.takes code request
    then (ok future, note (sent code request) c)
    else (err Error.logic_error, undo request c)

unfoldable pub keep : ℤ → Client → Client
keep request c = c

unfoldable pub send_publish : Text → (acknowledge : Bool) → Act (Option ℕ)
send_publish topic true c =
    send_request 16 (unpend publishing) (some c.next_future) (issue publishing topic (pos 0) none c)
send_publish topic false c =
    send_request 16 (unpend publishing) none (record c { last_id = next_id c.last_id })

unfoldable pub publish : Text → (acknowledge : Bool) → Act (Option ℕ)
publish topic acknowledge =
    with_uri (is_uri false false topic) (with_transport (send_publish topic acknowledge))

unfoldable pub send_call : Text → Option CallOptions → Act (Option ℕ)
send_call procedure options c =
    send_request 48 (unpend calling) (some c.next_future)
      (issue calling procedure (pos 0) options c)

unfoldable pub call : Text → Option CallOptions → Act (Option ℕ)
call procedure options =
    with_uri (is_uri false false procedure) (with_transport (send_call procedure options))

unfoldable pub send_kept : ℕ → Kind → Text → ℤ → Act (Option ℕ)
send_kept code kind uri object_id c =
    send_request code keep (some c.next_future) (issue kind uri object_id none c)

unfoldable pub subscribe : Text → Act (Option ℕ)
subscribe topic =
    with_transport (with_uri (is_uri true false topic) (send_kept 32 subscribing topic (pos 0)))

-- The prefix is not part of what is checked.
unfoldable pub register : (prefix : Text) → Text → Act (Option ℕ)
register prefix procedure = with_transport (
    with_uri (is_uri true false procedure) (send_kept 64 registering (prefix ++ procedure) (pos 0)))

unfoldable pub unregister : ℤ → Act (Option ℕ)
unregister id c =
    if not (has_id id c.registrations)
    then (err Error.assertion_failed, c)
    else with_transport (send_kept 66 unregistering [] id) c

-- The handlers of a subscription, and what is left without one of them.
unfoldable pub handlers_of : ℤ → List (ℤ × List ℕ) → List ℕ
handlers_of id [] = []
handlers_of id ((i, hs) ∷ rest) = if same_int id i then hs else handlers_of id rest

unfoldable pub without : ℕ → List ℕ → List ℕ
without h [] = []
without h (g ∷ gs) = if h == g then gs else g ∷ without h gs

unfoldable pub remove_handler : ℤ → ℕ → List (ℤ × List ℕ) → List (ℤ × List ℕ)
remove_handler id h [] = []
remove_handler id h ((i, hs) ∷ rest) =
    if same_int id i then (i, without h hs) ∷ rest else (i, hs) ∷ remove_handler id h rest

abbrev pub is_empty_list : List ℕ → Bool
is_empty_list [] = true
is_empty_list (_ ∷ _) = false

-- The broker is asked only when the last handler is gone; otherwise the future that is returned is done.
unfoldable pub drop_handler : ℤ → ℕ → Act (Option ℕ)
drop_handler id h c =
    let d = record c { subscriptions = remove_handler id h c.subscriptions } in
    if is_empty_list (handlers_of id d.subscriptions)
    then send_kept 34 unsubscribing [] id d
    else (ok none, d)

-- `_unsubscribe`
unfoldable pub unsubscribe : ℤ → ℕ → Act (Option ℕ)
unsubscribe id h c =
    if not (is_member h (handlers_of id c.subscriptions))
    then (err Error.assertion_failed, c)
    else with_transport (drop_handler id h) c

-- The application cancels a future. For that of a call, CANCEL is sent; an exception of the transport
-- does not come back to the application.
unfoldable pub call_of : ℕ → List Pending → Option Pending
call_of future [] = none
call_of future (p ∷ ps) =
    let rest = call_of future ps in
    if same_kind calling p.kind && p.future == future then some p else rest

unfoldable pub send_cancel : Option Pending → Client → Client
send_cancel none c = c
send_cancel (some p) c = (transport_send 49 p.request c).1

unfoldable pub cancel : ℕ → Client → Client
cancel future =
    unless_called future
      (λ c. send_cancel (call_of future c.pending) (record c { called = future ∷ c.called }))

unfoldable pub mark_left : Result (Unit {0}) × Client → Result (Unit {0}) × Client
mark_left (ok _, c) = (ok tt, record c { goodbye_sent = true })
mark_left (err e, c) = (err e, c)

unfoldable pub leave : Act (Unit {0})
leave c =
    if not (is_joined c.session_id) || c.goodbye_sent
    then (ok tt, c)
    else mark_left (transport_send 6 (pos 0) c)

-- What happens to a session.
pub data Input : Type 0 where
  published : Published → Input
  subscribed : Subscribed → Input
  unsubscribed : Unsubscribed → Input
  answered : Answer → Input
  registered : Registered → Input
  unregistered : Unregistered → Input
  failed : ErrorMessage → Input
  goodbye : Goodbye → Input
  closed left : Input
  publishes : Text → Bool → Input
  calls : Text → Option CallOptions → Input
  subscribes : Text → Input
  registers : Text → Text → Input
  unregisters : ℤ → Input
  unsubscribes : ℤ → ℕ → Input
  cancels : ℕ → Input

-- `onMessage` refuses these messages before the session is established.
unfoldable pub established : Act (Unit {0}) → Option ℤ → Act (Unit {0})
established f none c = (err Error.invalid_message, c)
established f (some _) c = f c

-- The session afterwards, whether the method returned or raised.
unfoldable pub step : Input → Client → Client
step (published m) c = (established (on_published m) c.session_id c).1
step (subscribed m) c = (established (on_subscribed m) c.session_id c).1
step (unsubscribed m) c = (established (on_unsubscribed m) c.session_id c).1
step (answered m) c = (established (on_result m) c.session_id c).1
step (registered m) c = (established (on_registered m) c.session_id c).1
step (unregistered m) c = (established (on_unregistered m) c.session_id c).1
step (failed m) c = (established (on_error m) c.session_id c).1
step (goodbye m) c = (established (on_goodbye m) c.session_id c).1
step closed c = on_close c
step left c = (leave c).1
step (publishes topic acknowledge) c = (publish topic acknowledge c).1
step (calls procedure options) c = (call procedure options c).1
step (subscribes topic) c = (subscribe topic c).1
step (registers prefix procedure) c = (register prefix procedure c).1
step (unregisters id) c = (unregister id c).1
step (unsubscribes id h) c = (unsubscribe id h c).1
step (cancels future) c = cancel future c

unfoldable pub run : List Input → Client → Client
run [] c = c
run (i ∷ is) c = run is (step i c)
