-- ===== src/Wamp/Client/Ending.antt =====
-- The end of a session: `_errback_outstanding_requests`, `onLeave`, GOODBYE, `onClose`.
use autobahn_python.Base.{
  ℕ, List, [], ◌∷◌, Bool, false, not, Option, none, some, if◌then◌else◌, ascii, Error, ok, err,
  gets, ◌>>=◌, ◌>>◌, when, ◌&&◌,
}
use autobahn_python.Wamp.Value.{Text, ℤ, pos}
use autobahn_python.Wamp.Checks.{is_zero}
use autobahn_python.Wamp.Session.{Goodbye}
use autobahn_python.Wamp.Pending.{Pending, outstanding}
use autobahn_python.Wamp.Client.{
  Act, Client, Reason, closed_transport, left, note, reject, sent, session_left, transport_lost,
  unless_called,
}

unfoldable pub reject_all : Reason → List Pending → Client → Client
reject_all reason [] c = c
reject_all reason (p ∷ ps) c =
    reject_all reason ps (unless_called p.future (reject p.future reason) c)

unfoldable pub errback_outstanding : Reason → Client → Client
errback_outstanding reason c = reject_all reason (outstanding c.pending) (record c { pending = [] })

unfoldable pub disconnect : Client → Client
disconnect c = if c.transport then note closed_transport c else c

-- `onLeave`
unfoldable pub on_leave : Text → Client → Client
on_leave reason c = disconnect (errback_outstanding (session_left reason) (note (left reason) c))

unfoldable pub transport_send : ℕ → ℤ → Act (Unit {0})
transport_send code request c =
    if c.transport && c.takes code request
    then (ok tt, note (sent code request) c)
    else (err Error.logic_error, c)

-- GOODBYE
unfoldable pub leave_with : Text → Act (Unit {0})
leave_with reason c = (ok tt, on_leave reason (record c { session_id = none }))

unfoldable pub on_goodbye : Goodbye → Act (Unit {0})
on_goodbye m = do
  goodbye_sent ← gets (λ c. c.goodbye_sent)
  when (not goodbye_sent) (transport_send 6 (pos 0))
  leave_with m.reason

-- `onClose`, with `onDisconnect` at its end.
unfoldable pub is_joined : Option ℤ → Bool
is_joined none = false
is_joined (some id) = not (is_zero id)

unfoldable pub lose_session : Client → Client
lose_session c =
    if is_joined c.session_id
    then record (on_leave (ascii "wamp.close.transport_lost") c) { session_id = none }
    else c

unfoldable pub on_close : Client → Client
on_close c = errback_outstanding transport_lost (lose_session (record c { transport = false }))
