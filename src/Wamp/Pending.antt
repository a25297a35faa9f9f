-- ===== src/Wamp/Pending.antt =====
-- The dictionaries of outstanding requests of `ApplicationSession`, in wamp/protocol.py.
use autobahn_python.Base.{
  ℕ, List, [], ◌∷◌, ◌++◌, Bool, true, false, ◌&&◌, Option, none, some, ◌==◌, if◌then◌else◌,
}
use autobahn_python.Wamp.CallResult.{CallOptions}
use autobahn_python.Wamp.Value.{Text, ℤ, pos, negsuc}

-- The six dictionaries of requests.
pub data Kind : Type 0 where
  publishing subscribing unsubscribing calling registering unregistering : Kind

-- An outstanding request and its future. `uri` is the topic or the procedure, `object_id` what is to be
-- unsubscribed or unregistered, `options` are those of a call, if it has any.
pub record Pending : Type 0 where
  pub kind : Kind
  pub request : ℤ
  pub future : ℕ
  pub uri : Text
  pub object_id : ℤ
  pub options : Option CallOptions

unfoldable pub same_int : ℤ → ℤ → Bool
same_int (pos m) (pos n) = m == n
same_int (negsuc m) (negsuc n) = m == n
same_int _ _ = false

unfoldable pub same_kind : Kind → Kind → Bool
same_kind publishing publishing = true
same_kind subscribing subscribing = true
same_kind unsubscribing unsubscribing = true
same_kind calling calling = true
same_kind registering registering = true
same_kind unregistering unregistering = true
same_kind _ _ = false

unfoldable pub is_at : Kind → ℤ → Pending → Bool
is_at kind request p = same_kind kind p.kind && same_int request p.request

-- `request in self._call_reqs`, `del` and assignment, for each of the dictionaries, whose entries
-- are in the order in which they were put there.
unfoldable pub find : Kind → ℤ → List Pending → Option Pending
find kind request [] = none
find kind request (p ∷ ps) = if is_at kind request p then some p else find kind request ps

unfoldable pub remove : Kind → ℤ → List Pending → List Pending
remove kind request [] = []
remove kind request (p ∷ ps) =
    let rest = remove kind request ps in if is_at kind request p then rest else p ∷ rest

unfoldable pub put : Pending → List Pending → List Pending
put p [] = p ∷ []
put p (q ∷ qs) = let rest = put p qs in if is_at p.kind p.request q then p ∷ qs else q ∷ rest

-- `_errback_outstanding_requests`: the dictionaries in order, which are empty afterwards.
unfoldable pub of_kind : Kind → List Pending → List Pending
of_kind kind [] = []
of_kind kind (p ∷ ps) =
    let rest = of_kind kind ps in if same_kind kind p.kind then p ∷ rest else rest

unfoldable pub outstanding : List Pending → List Pending
outstanding ps =
    of_kind publishing ps
    ++ (of_kind subscribing ps
        ++ (of_kind unsubscribing ps
            ++ (of_kind calling ps ++ (of_kind registering ps ++ of_kind unregistering ps))))
