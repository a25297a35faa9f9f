-- ===== src/Wamp/Client/Closed.antt =====
-- What is left of a session when its transport is lost.
use autobahn_python.Base.{
  ℕ, List, [], ◌∷◌, ◌++◌, Bool, true, false, ◌||◌, none, ◌==◌, ==_iff, if◌then◌else◌, ◌≡◌, refl, ap,
  ◌∙◌, All, ascii,
}
use autobahn_python.Wamp.Value.{Text}
use autobahn_python.Wamp.Pending.{
  Kind, publishing, subscribing, unsubscribing, calling, registering, unregistering, Pending,
  same_kind, of_kind, outstanding,
}
use autobahn_python.Wamp.Client.{Note, Reason, Client, note, is_member, unless_called, reject}
use autobahn_python.Wamp.Client.Ending.{
  reject_all, errback_outstanding, disconnect, on_leave, is_joined, lose_session, on_close,
}

-- The future of a request is done.
abbrev pub IsDone : List ℕ → Pending → Type 0
IsDone called p = is_member p.future called ≡ true

abbrev Subset : List ℕ → List ℕ → Type 0
Subset fs gs = (f : ℕ) → is_member f fs ≡ true → is_member f gs ≡ true

or_right : (a b : Bool) → b ≡ true → a || b ≡ true
or_right true b h = refl
or_right false b h = h

rejected_grows :
    (r : Reason) (p : Pending) (c : Client)
    → Subset c.called (unless_called p.future (reject p.future r) c).called
unfolding unless_called reject is_member
rejected_grows r p c f h = chosen (is_member p.future c.called)
  where
    chosen : (b : Bool) → is_member f (if b then c else reject p.future r c).called ≡ true
    chosen true = h
    chosen false = or_right (f == p.future) (is_member f c.called) h

rejected-IsDone :
    (r : Reason) (p : Pending) (c : Client)
    → IsDone (unless_called p.future (reject p.future r) c).called p
unfolding unless_called reject is_member
rejected-IsDone r p c = chosen (is_member p.future c.called) refl
  where
    chosen :
        (b : Bool)
        → is_member p.future c.called ≡ b
        → is_member p.future (if b then c else reject p.future r c).called ≡ true
    chosen true e = e
    chosen false e = rw ((==_iff p.future p.future).1 refl)

reject_all_grows :
    (r : Reason) (ps : List Pending) (c : Client) → Subset c.called (reject_all r ps c).called
unfolding reject_all
reject_all_grows r [] c f h = h
reject_all_grows r (p ∷ ps) c f h = reject_all_grows r ps _ f (rejected_grows r p c f h)

reject_all-IsDone :
    (r : Reason) (ps : List Pending) (c : Client) → All (IsDone (reject_all r ps c).called) ps
unfolding reject_all
reject_all-IsDone r [] c = tt
reject_all-IsDone r (p ∷ ps) c =
    (reject_all_grows r ps _ p.future (rejected-IsDone r p c), reject_all-IsDone r ps _)

same_kind_refl : (k : Kind) → same_kind k k ≡ true
unfolding same_kind
same_kind_refl publishing = refl
same_kind_refl subscribing = refl
same_kind_refl unsubscribing = refl
same_kind_refl calling = refl
same_kind_refl registering = refl
same_kind_refl unregistering = refl

module _ (P : Pending → Type 0) where
  left-All : (xs ys : List Pending) → All P (xs ++ ys) → All P xs
  left-All [] ys a = tt
  left-All (x ∷ xs) ys (p, a) = (p, left-All xs ys a)

  right-All : (xs ys : List Pending) → All P (xs ++ ys) → All P ys
  right-All [] ys a = a
  right-All (x ∷ xs) ys (p, a) = right-All xs ys a

  rest-All :
      (b : Bool) (p : Pending) (ps : List Pending) → All P (if b then p ∷ ps else ps) → All P ps
  rest-All true p ps (_, a) = a
  rest-All false p ps a = a

  first-All :
      (b : Bool) (p : Pending) (ps : List Pending)
      → b ≡ true
      → All P (if b then p ∷ ps else ps)
      → P p
  first-All true p ps e (q, _) = q
  first-All false p ps e a = absurd (cc)

  every_kind : (ps : List Pending) → ((k : Kind) → All P (of_kind k ps)) → All P ps
  unfolding of_kind
  every_kind [] h = tt
  every_kind (p ∷ ps) h = (
    first-All (same_kind p.kind p.kind) p (of_kind p.kind ps) (same_kind_refl p.kind) (h p.kind),
    every_kind ps (λ k. rest-All (same_kind k p.kind) p (of_kind k ps) (h k)),
  )

  last_two :
      (ps : List Pending)
      → All P (outstanding ps)
      → All P (of_kind registering ps ++ of_kind unregistering ps)
  unfolding outstanding
  last_two ps a = right-All (of_kind calling ps) _ (
      right-All (of_kind unsubscribing ps) _
        (right-All (of_kind subscribing ps) _ (right-All (of_kind publishing ps) _ a)))

  kinds : (ps : List Pending) → All P (outstanding ps) → (k : Kind) → All P (of_kind k ps)
  unfolding outstanding
  kinds ps a publishing = left-All (of_kind publishing ps) _ a
  kinds ps a subscribing =
      left-All (of_kind subscribing ps) _ (right-All (of_kind publishing ps) _ a)
  kinds ps a unsubscribing =
      left-All (of_kind unsubscribing ps) _
        (right-All (of_kind subscribing ps) _ (right-All (of_kind publishing ps) _ a))
  kinds ps a calling = left-All (of_kind calling ps) _ (
      right-All (of_kind unsubscribing ps) _
        (right-All (of_kind subscribing ps) _ (right-All (of_kind publishing ps) _ a)))
  kinds ps a registering = left-All (of_kind registering ps) _ (last_two ps a)
  kinds ps a unregistering = right-All (of_kind registering ps) _ (last_two ps a)

  outstanding-All : (ps : List Pending) → All P (outstanding ps) → All P ps
  outstanding-All ps a = every_kind ps (kinds ps a)

every :
    (P Q : Pending → Type 0)
    → ((p : Pending) → P p → Q p)
    → (ps : List Pending) → All P ps
    → All Q ps
every P Q h [] a = tt
every P Q h (p ∷ ps) (q, a) = (h p q, every P Q h ps a)

errback-IsDone : (r : Reason) (c : Client) → All (IsDone (errback_outstanding r c).called) c.pending
unfolding errback_outstanding
errback-IsDone r c =
    outstanding-All (IsDone (errback_outstanding r c).called) c.pending
      (reject_all-IsDone r (outstanding c.pending) (record c { pending = [] }))

errback_grows : (r : Reason) (c : Client) → Subset c.called (errback_outstanding r c).called
unfolding errback_outstanding
errback_grows r c = reject_all_grows r (outstanding c.pending) (record c { pending = [] })

-- What the rejections leave as it is.
record IsKept (c d : Client) : Type 0 where
  same_pending : d.pending ≡ c.pending
  same_session : d.session_id ≡ c.session_id
  same_transport : d.transport ≡ c.transport

one :
    (r : Reason) (p : Pending) (c : Client)
    → IsKept c (unless_called p.future (reject p.future r) c)
unfolding unless_called reject
one r p c = chosen (is_member p.future c.called)
  where
    chosen : (b : Bool) → IsKept c (if b then c else reject p.future r c)
    chosen true = record { same_pending = refl; same_session = refl; same_transport = refl }
    chosen false = record { same_pending = refl; same_session = refl; same_transport = refl }

reject_all-IsKept : (r : Reason) (ps : List Pending) (c : Client) → IsKept c (reject_all r ps c)
unfolding reject_all
reject_all-IsKept r [] c = record {
  same_pending = refl;
  same_session = refl;
  same_transport = refl;
}
reject_all-IsKept r (p ∷ ps) c =
    let k = reject_all-IsKept r ps (unless_called p.future (reject p.future r) c) in
    let l = one r p c in
    record {
      same_pending = k.same_pending ∙ l.same_pending;
      same_session = k.same_session ∙ l.same_session;
      same_transport = k.same_transport ∙ l.same_transport;
    }

errback-IsKept :
    (r : Reason) (c : Client) → IsKept (record c { pending = [] }) (errback_outstanding r c)
unfolding errback_outstanding
errback-IsKept r c = reject_all-IsKept r (outstanding c.pending) (record c { pending = [] })

-- A session that was left.
record IsOver (c d : Client) : Type 0 where
  nothing : d.pending ≡ []
  all_done : All (IsDone d.called) c.pending
  as_before : d.transport ≡ c.transport

disconnect-IsOver : (c d : Client) → IsOver c d → IsOver c (disconnect d)
unfolding disconnect note
disconnect-IsOver c d o = chosen d.transport
  where
    chosen : (b : Bool) → IsOver c (if b then note Note.closed_transport d else d)
    chosen true = record { nothing = o.nothing; all_done = o.all_done; as_before = o.as_before }
    chosen false = o

on_leave-IsOver : (reason : Text) (c : Client) → IsOver c (on_leave reason c)
unfolding on_leave note
on_leave-IsOver reason c =
    let d = note (Note.left reason) c in
    let k = errback-IsKept (Reason.session_left reason) d in
    disconnect-IsOver c (errback_outstanding (Reason.session_left reason) d) (record {
      nothing = k.same_pending;
      all_done = errback-IsDone (Reason.session_left reason) d;
      as_before = k.same_transport;
    })

-- A session whose transport is lost: it has no requests, and the future of every one that it had is done.
pub record IsLost (c d : Client) : Type 0 where
  pub no_requests : d.pending ≡ []
  pub futures_done : All (IsDone d.called) c.pending
  pub not_joined : is_joined d.session_id ≡ false
  pub no_transport : d.transport ≡ false

lost :
    (c x : Client)
    → All (IsDone (errback_outstanding Reason.transport_lost x).called) c.pending
    → is_joined x.session_id ≡ false
    → x.transport ≡ false
    → IsLost c (errback_outstanding Reason.transport_lost x)
lost c x a j t =
    let k = errback-IsKept Reason.transport_lost x in
    record {
      no_requests = k.same_pending;
      futures_done = a;
      not_joined = ap is_joined k.same_session ∙ j;
      no_transport = k.same_transport ∙ t;
    }

-- When the transport is lost, whatever the state of the session, the future of every outstanding
-- request is done afterwards, no request is outstanding, and the session is neither joined nor
-- has a transport.
pub on_close-IsLost : (c : Client) → IsLost c (on_close c)
unfolding on_close lose_session is_joined
on_close-IsLost c = chosen (is_joined c.session_id) refl
  where
    chosen :
        (b : Bool)
        → is_joined c.session_id ≡ b
        → IsLost c (
            errback_outstanding Reason.transport_lost (
              if b
              then record (on_leave
                  (ascii "wamp.close.transport_lost")
                  (record c { transport = false })) { session_id = none }
              else record c { transport = false }))
    chosen true e =
        let o =
          on_leave-IsOver (ascii "wamp.close.transport_lost") (record c { transport = false }) in
        let x : Client =
          record (on_leave (ascii "wamp.close.transport_lost") (record c { transport = false })) {
            session_id = none;
          } in
        lost c x
          (every (IsDone x.called) (IsDone (errback_outstanding Reason.transport_lost x).called)
            (λ p h. errback_grows Reason.transport_lost x p.future h) c.pending o.all_done)
          refl o.as_before
    chosen false e =
        lost c (record c { transport = false })
          (errback-IsDone Reason.transport_lost (record c { transport = false })) e refl
