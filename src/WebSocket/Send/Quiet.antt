-- ===== src/WebSocket/Send/Quiet.antt =====
-- The attributes that sending does not touch.
use autobahn_python.Base.{
  ℕ, ◌+◌, ◌≤◌, Octets, List, [], ◌∷◌, ◌++◌, Bool, true, false, ◌||◌, ltb, if◌then◌else◌, length,
  Option, none, some, ◌≡◌, refl, ◌∙◌, arith, Bool-cases, inl, inr, Result, ok, Error, raise,
}
use autobahn_python.WebSocket.Conn.{
  TrafficStats, Conn, Output, wrote, resolved_is_closed, got_message, emit, is_closed, is_opened,
}
use autobahn_python.WebSocket.Frame.{length_octets}
use autobahn_python.WebSocket.Send.{
  count_written, send_next, send, trigger, has_queue, send_now_or_queue, send_data, draw_mask,
  send_raw, send_drawn, send_frame_payload, send_chosen, send_frame, repeat_payload, send_simple,
  send_control, masks_frames, or_empty,
}

-- How often the future `is_closed` was resolved, and how many messages the application got.
abbrev pub resolves : List Output → ℕ
resolves [] = 0
resolves (resolved_is_closed ∷ log) = resolves log + 1
resolves (_ ∷ log) = resolves log

abbrev pub messages : List Output → ℕ
messages [] = 0
messages (got_message _ _ ∷ log) = messages log + 1
messages (_ ∷ log) = messages log

pub record Quiet (c d : Conn) : Type 0 where
  pub state_same : d.state ≡ c.state
  pub cfg_same : d.cfg ≡ c.cfg
  pub cl_same : d.cl ≡ c.cl
  pub rx_same : d.rx ≡ c.rx
  pub buffer_same : d.buffer ≡ c.buffer
  pub resolves_same : resolves d.log ≡ resolves c.log
  pub messages_same : messages d.log ≡ messages c.log

-- The attributes that sending may change, with outputs that are neither counted here.
pub changed-Quiet :
    (c : Conn) (q : List (Octets × Bool)) (t s : Bool) (n : ℕ) (stats : TrafficStats)
    (log : List Output)
    → resolves log ≡ resolves c.log
    → messages log ≡ messages c.log
    → Quiet c (record c {
      send_queue = q;
      triggered = t;
      send_scheduled = s;
      random_draws = n;
      stats = stats;
      log = log;
    })
changed-Quiet c q t s n stats log r m = record {
  state_same = refl;
  cfg_same = refl;
  cl_same = refl;
  rx_same = refl;
  buffer_same = refl;
  resolves_same = r;
  messages_same = m;
}

pub Quiet-refl : (c : Conn) → Quiet c c
Quiet-refl c =
    changed-Quiet c c.send_queue c.triggered c.send_scheduled c.random_draws c.stats c.log refl refl

pub Quiet-trans : {c d e : Conn} → Quiet c d → Quiet d e → Quiet c e
Quiet-trans p q = record {
  state_same = q.state_same ∙ p.state_same;
  cfg_same = q.cfg_same ∙ p.cfg_same;
  cl_same = q.cl_same ∙ p.cl_same;
  rx_same = q.rx_same ∙ p.rx_same;
  buffer_same = q.buffer_same ∙ p.buffer_same;
  resolves_same = q.resolves_same ∙ p.resolves_same;
  messages_same = q.messages_same ∙ p.messages_same;
}

count_written-Quiet : (n : ℕ) (c : Conn) → Quiet c (count_written n c)
unfolding count_written
count_written-Quiet n c = ground arith

written-Quiet : (bs : Octets) (n : ℕ) (c : Conn) → Quiet c (count_written n (emit (wrote bs) c))
unfolding emit
written-Quiet bs n c =
    Quiet-trans
      (changed-Quiet c c.send_queue c.triggered c.send_scheduled c.random_draws c.stats
        (wrote bs ∷ c.log) refl refl)
      (count_written-Quiet n (emit (wrote bs) c))

-- The attributes of the queue.
queue-Quiet :
    (c : Conn) (q : List (Octets × Bool)) (t s : Bool)
    → Quiet c (record c { send_queue = q; triggered = t; send_scheduled = s })
queue-Quiet c q t s = changed-Quiet c q t s c.random_draws c.stats c.log refl refl

Quiet-if : (b : Bool) {c d e : Conn} → Quiet c d → Quiet c e → Quiet c (if b then d else e)
Quiet-if true p q = p
Quiet-if false p q = q

send_next-Quiet : (queue : List (Octets × Bool)) (c : Conn) → Quiet c (send_next queue c)
unfolding send_next
send_next-Quiet [] c = queue-Quiet c c.send_queue false false
send_next-Quiet ((bs, s) ∷ queue) c =
    let d = record c { send_queue = queue } in
    let q : Quiet c d = queue-Quiet c queue c.triggered c.send_scheduled in
    elim (Bool-cases (is_closed c.state)) [
      | inl e ↦ rw e (queue-Quiet c queue c.triggered true)
      | inr e ↦ rw e (
          let w = count_written (length bs) (emit (wrote bs) d) in
          Quiet-trans (Quiet-trans q (written-Quiet bs (length bs) d))
            (queue-Quiet w w.send_queue w.triggered true))
    ]

trigger-Quiet : (c : Conn) → Quiet c (trigger c)
unfolding trigger send
trigger-Quiet c = Quiet-if c.triggered (Quiet-refl c) (
    let d = record c { triggered = true } in
    Quiet-trans (queue-Quiet c c.send_queue true c.send_scheduled) (send_next-Quiet d.send_queue d))

queued-Quiet :
    (q : List (Octets × Bool)) (c : Conn) → Quiet c (trigger (record c { send_queue = q }))
queued-Quiet q c =
    Quiet-trans (queue-Quiet c q c.triggered c.send_scheduled)
      (trigger-Quiet (record c { send_queue = q }))

send_now-Quiet : (bs : Octets) (sync : Bool) (c : Conn) → Quiet c (send_now_or_queue bs sync c)
unfolding send_now_or_queue
send_now-Quiet bs sync c =
    Quiet-if (sync || has_queue c.send_queue) (queued-Quiet _ c) (written-Quiet bs (length bs) c)

pub send_data-Quiet :
    (bs : Octets) (sync : Bool) (chopsize : Option ℕ) (c : Conn)
    → Quiet c (send_data bs sync chopsize c)
unfolding send_data
send_data-Quiet bs sync none c = send_now-Quiet bs sync c
send_data-Quiet bs sync (some n) c =
    Quiet-if (ltb 0 n) (queued-Quiet _ c) (send_now-Quiet bs sync c)

draw_mask-Quiet : (c : Conn) → Quiet c (draw_mask c).1
unfolding draw_mask
draw_mask-Quiet c =
    changed-Quiet c c.send_queue c.triggered c.send_scheduled (c.random_draws + 1) c.stats c.log
      refl refl

send_raw-Quiet :
    (opcode b0 : ℕ) (bs : Octets) (header : Option (ℕ × Octets)) (sync : Bool) (chopsize : Option ℕ)
    (c : Conn)
    → Quiet c (send_raw opcode b0 bs header sync chopsize c).1
unfolding send_raw
send_raw-Quiet opcode b0 bs none sync chopsize c = Quiet-refl c
send_raw-Quiet opcode b0 bs (some (b1, el)) sync chopsize c =
    Quiet-trans
      (changed-Quiet c c.send_queue c.triggered c.send_scheduled c.random_draws _ c.log refl refl)
      (send_data-Quiet (b0 ∷ b1 ∷ (el ++ bs)) sync chopsize _)

Quiet-if_result :
    (b : Bool) (c : Conn) (x y : Result (Unit {0}) × Conn)
    → Quiet c x.1
    → Quiet c y.1
    → Quiet c (if b then x else y).1
Quiet-if_result true c x y p q = p
Quiet-if_result false c x y p q = q

send_drawn-Quiet :
    (opcode : ℕ) (fin : Bool) (rsv : ℕ) (sync : Bool) (chopsize : Option ℕ) (pl : Octets) (c : Conn)
    → Quiet c (send_drawn opcode fin rsv sync chopsize pl c).1
unfolding send_drawn
send_drawn-Quiet opcode fin rsv sync chopsize pl c =
    Quiet-if_result (masks_frames c.cfg) c _ _
      (Quiet-trans (draw_mask-Quiet c)
        (send_raw-Quiet opcode _ _ (length_octets true (length pl)) sync chopsize (draw_mask c).1))
      (send_raw-Quiet opcode _ _ (length_octets false (length pl)) sync chopsize c)

send_frame_payload-Quiet :
    (opcode : ℕ) (fin : Bool) (rsv : ℕ) (mask : Option Octets) (sync : Bool) (chopsize : Option ℕ)
    (pl : Octets) (c : Conn)
    → Quiet c (send_frame_payload opcode fin rsv mask sync chopsize pl c).1
unfolding send_frame_payload
send_frame_payload-Quiet opcode fin rsv (some (b ∷ bs)) sync chopsize pl c =
    send_raw-Quiet opcode _ _ (length_octets true (length pl)) sync chopsize c
send_frame_payload-Quiet opcode fin rsv (some []) sync chopsize pl c =
    send_drawn-Quiet opcode fin rsv sync chopsize pl c
send_frame_payload-Quiet opcode fin rsv none sync chopsize pl c =
    send_drawn-Quiet opcode fin rsv sync chopsize pl c

send_chosen-Quiet :
    (opcode : ℕ) (fin : Bool) (rsv : ℕ) (mask : Option Octets) (sync : Bool) (chopsize : Option ℕ)
    (chosen : Option Octets) (c : Conn)
    → Quiet c (send_chosen opcode fin rsv mask sync chopsize chosen c).1
unfolding send_chosen raise
send_chosen-Quiet opcode fin rsv mask sync chopsize none c = Quiet-refl c
send_chosen-Quiet opcode fin rsv mask sync chopsize (some pl) c =
    send_frame_payload-Quiet opcode fin rsv mask sync chopsize pl c

pub send_frame-Quiet :
    (opcode : ℕ) (payload : Octets) (fin : Bool) (rsv : ℕ) (mask : Option Octets)
    (payload_len chopsize : Option ℕ) (sync : Bool) (c : Conn)
    → Quiet c (send_frame opcode payload fin rsv mask payload_len chopsize sync c).1
unfolding send_frame
send_frame-Quiet opcode payload fin rsv mask payload_len chopsize sync c =
    send_chosen-Quiet opcode fin rsv mask sync chopsize (repeat_payload payload payload_len) c

pub send_control-Quiet :
    (opcode : ℕ) (e : Error) (payload : Option Octets) (c : Conn)
    → Quiet c (send_control opcode e payload c).1
unfolding send_control
send_control-Quiet opcode e payload c =
    Quiet-if_result (is_opened c.state) c _ _
      (Quiet-if_result (ltb 125 (length (or_empty payload))) c _ _ (Quiet-refl c)
        (send_frame-Quiet opcode (or_empty payload) true 0 none none none false c))
      (Quiet-refl c)

-- A frame with a payload of legal length, and no explicit mask, goes out: nothing is raised.
pub send_simple_succeeds :
    (opcode : ℕ) (payload : Octets) (c : Conn)
    → length payload ≤ 125
    → (send_simple opcode payload c).0 ≡ ok tt
unfolding send_frame send_chosen repeat_payload send_frame_payload send_drawn send_raw length_octets
send_simple_succeeds opcode payload c h = ground arith
