-- ===== src/WebSocket/Send/Order.antt =====
-- The order of octets on the wire, whether a write is direct, queued or cut into chops.
use autobahn_python.Base.{
  ℕ, zero, suc, Octets, List, [], ◌∷◌, ◌++◌, append-nil, append_assoc, Bool, true, false, ◌||◌, ltb,
  leb, take, drop, length, take-append-drop, Option, none, some, ◌≡◌, refl, ap, ◌∙◌, arith,
  Bool-cases, inl, inr,
}
use autobahn_python.WebSocket.Conn.{Conn, Output, wrote, emit, is_closed}
use autobahn_python.WebSocket.Send.{
  count_written, send_next, send, trigger, chops, has_queue, send_now_or_queue, send_data,
}

-- The octets that were written to the transport, first to last; `log` has the newest entry first.
abbrev pub written : List Output → Octets
written [] = []
written (wrote bs ∷ log) = written log ++ bs
written (_ ∷ log) = written log

abbrev pub queued : List (Octets × Bool) → Octets
queued [] = []
queued ((bs, _) ∷ queue) = bs ++ queued queue

-- What the peer will have been sent once the queue is empty.
abbrev pub outgoing : Conn → Octets
outgoing c = written c.log ++ queued c.send_queue

queued-append : (xs ys : List (Octets × Bool)) → queued (xs ++ ys) ≡ queued xs ++ queued ys
queued-append [] ys = refl
queued-append ((b, s) ∷ xs) ys = rw (queued-append xs ys, append_assoc)

queued-chops : (fuel n : ℕ) (rest : Octets) → queued (chops fuel n rest) ≡ rest
unfolding chops
queued-chops zero n rest = append-nil rest
queued-chops (suc fuel) n rest = elim (Bool-cases (leb (length rest) n)) [
  | inl e ↦ rw e (append-nil rest)
  | inr e ↦
      rw e
        (ap (λ t. take n rest ++ t) (queued-chops fuel n (drop n rest)) ∙ take-append-drop n rest)
]

written-count : (n : ℕ) (c : Conn) → written (count_written n c).log ≡ written c.log
unfolding count_written
written-count n c = ground arith

queue-count : (n : ℕ) (c : Conn) → (count_written n c).send_queue ≡ c.send_queue
unfolding count_written
queue-count n c = ground arith

outgoing-send_next :
    (queue : List (Octets × Bool)) (c : Conn)
    → is_closed c.state ≡ false
    → queue ≡ c.send_queue
    → outgoing (send_next queue c) ≡ outgoing c
unfolding send_next emit
outgoing-send_next [] c h e = refl
outgoing-send_next ((bs, s) ∷ queue) c h e =
    rw (h, written-count, queue-count)
      (append_assoc (written c.log) bs (queued queue) ∙ ap (λ q. written c.log ++ queued q) e)

-- On a connection that is not closed _send leaves what was written followed by what is queued as
-- it was.
pub outgoing-send : (c : Conn) → is_closed c.state ≡ false → outgoing (send c) ≡ outgoing c
unfolding send
outgoing-send c h = outgoing-send_next c.send_queue c h refl

outgoing-trigger : (c : Conn) → is_closed c.state ≡ false → outgoing (trigger c) ≡ outgoing c
unfolding trigger
outgoing-trigger c h = elim (Bool-cases c.triggered) [
  | inl e ↦ rw e
  | inr e ↦ rw e (outgoing-send (record c { triggered = true }) h)
]

-- The entries `extra` put at the end of the queue, and `_trigger`.
outgoing-queued :
    (extra : List (Octets × Bool)) (c : Conn)
    → is_closed c.state ≡ false
    → outgoing (trigger (record c { send_queue = c.send_queue ++ extra }))
      ≡ outgoing c ++ queued extra
outgoing-queued extra c h =
    outgoing-trigger (record c { send_queue = c.send_queue ++ extra }) h
    ∙ rw (queued-append c.send_queue extra, append_assoc)

no_queue : (queue : List (Octets × Bool)) → has_queue queue ≡ false → queued queue ≡ []
no_queue [] h = refl
no_queue (_ ∷ _) h = cc

or_false : (a b : Bool) → (a || b) ≡ false → b ≡ false
or_false a b h = ground arith

outgoing-send_now_or_queue :
    (octets : Octets) (sync : Bool) (c : Conn)
    → is_closed c.state ≡ false
    → outgoing (send_now_or_queue octets sync c) ≡ outgoing c ++ octets
unfolding send_now_or_queue emit
outgoing-send_now_or_queue octets sync c h = elim (Bool-cases (sync || has_queue c.send_queue)) [
  | inl e ↦ rw e (rw (outgoing-queued ((octets, sync) ∷ []) c h, append-nil))
  | inr e ↦ rw e (
      rw (
        written-count,
        queue-count,
        no_queue c.send_queue (or_false sync (has_queue c.send_queue) e),
        append-nil,
        append-nil,
      ))
]

-- On a connection that is not closed sendData, called in any way, puts its octets behind all that
-- was written or queued before; nothing is lost, doubled or reordered.
pub outgoing-send_data :
    (octets : Octets) (sync : Bool) (chopsize : Option ℕ) (c : Conn)
    → is_closed c.state ≡ false
    → outgoing (send_data octets sync chopsize c) ≡ outgoing c ++ octets
unfolding send_data
outgoing-send_data octets sync none c h = outgoing-send_now_or_queue octets sync c h
outgoing-send_data octets sync (some chopsize) c h = elim (Bool-cases (ltb 0 chopsize)) [
  | inl e ↦ rw e (
      outgoing-queued (chops (length octets) chopsize octets) c h
      ∙ rw (queued-chops (length octets) chopsize octets))
  | inr e ↦ rw e (outgoing-send_now_or_queue octets sync c h)
]
