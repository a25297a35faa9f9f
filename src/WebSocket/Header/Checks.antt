-- ===== src/WebSocket/Header/Checks.antt =====
-- Which frame openings are refused, and what a refusal does.
use autobahn_python.Base.{
  Bool-cases, Octets, ℕ, ◌≤◌, ◌<◌, ◌≡◌, ◌≢◌, refl, ap, ◌∙◌, Bool, true, false, ◌||◌, List, [], ◌∷◌,
  Option, is_some, arith, ◌↔◌, ◌⊎◌, inl, inr, ok, pure, ◌>>=◌, gets, modify,
}
use autobahn_python.WebSocket.Conn.{Conn, Config, Codec, is_closed, emit}
use autobahn_python.WebSocket.Conn.Texts.{Reason, i_dropped}
use autobahn_python.WebSocket.Frame.{Opening, opening}
use autobahn_python.WebSocket.Process.{process_opening}
use autobahn_python.WebSocket.Close.{
  protocol_violation, protocol_error, fail_connection, drop_connection, not_clean, note_failed,
}
use autobahn_python.WebSocket.Header.{
  Check, run_checks, opening_checks, control_checks, data_checks,
}

abbrev pub any_fault : List Check → Bool
any_fault [] = false
any_fault ((fault, _) ∷ checks) = fault || any_fault checks

-- Control frames: not fragmented, at most 125 octets, a known opcode, no close payload of one octet,
-- not compressed.
pub record IsLegalControl (codec : Option Codec) (o : Opening) : Type 0 where
  unfragmented : o.fin ≡ true
  short : o.payload_len1 ≤ 125
  known : (o.opcode ≡ 8) ⊎ ((o.opcode ≡ 9) ⊎ (o.opcode ≡ 10))
  close_code_whole : o.opcode ≡ 8 → o.payload_len1 ≢ 1
  plain : o.rsv ≡ 0

-- Data frames: a continuation inside of a message, and a text or binary frame outside; only the first
-- frame of a message is marked as compressed.
pub record IsLegalData (codec : Option Codec) (inside : Bool) (o : Opening) : Type 0 where
  known_data :
      (inside ≡ true × (o.opcode ≡ 0)) ⊎ ((inside ≡ false) × ((o.opcode ≡ 1) ⊎ (o.opcode ≡ 2)))
  reserved_bits : (o.rsv ≡ 0) ⊎ ((is_some codec ≡ true) × ((o.rsv ≡ 4) × (inside ≡ false)))

pub record IsLegal (cfg : Config) (codec : Option Codec) (inside : Bool) (o : Opening)
    : Type 0 where
  from_client : cfg.is_server ≡ true → cfg.require_masked_client_frames ≡ true → o.masked ≡ true
  from_server : cfg.is_server ≡ false → cfg.accept_masked_server_frames ≡ false → o.masked ≡ false
  control : 7 < o.opcode → IsLegalControl codec o
  data_frame : o.opcode ≤ 7 → IsLegalData codec inside o

accepted-IsLegal :
    (cfg : Config) (codec : Option Codec) (inside : Bool) (o : Opening)
    → any_fault (opening_checks cfg codec inside o) ≡ false
    → IsLegal cfg codec inside o
unfolding opening_checks control_checks data_checks
accepted-IsLegal cfg codec inside o h = ground arith

IsLegal-accepted :
    (cfg : Config) (codec : Option Codec) (inside : Bool) (o : Opening)
    → IsLegal cfg codec inside o
    → any_fault (opening_checks cfg codec inside o) ≡ false
unfolding opening_checks control_checks data_checks
IsLegal-accepted cfg codec inside o h = ground arith

-- The tests that processData makes of the first two octets find no fault exactly if these obey
-- the rules of the protocol: masking as configured, the rules of control frames, the order of the
-- frames of a message, and reserved bits.
pub opening_checks-iff_IsLegal :
    (cfg : Config) (codec : Option Codec) (inside : Bool) (o : Opening)
    → (any_fault (opening_checks cfg codec inside o) ≡ false) ↔ IsLegal cfg codec inside o
opening_checks-iff_IsLegal cfg codec inside o =
    (accepted-IsLegal cfg codec inside o, IsLegal-accepted cfg codec inside o)

pub checks_pass :
    (checks : List Check) (c : Conn)
    → any_fault checks ≡ false
    → run_checks checks c ≡ (ok false, c)
unfolding run_checks pure
checks_pass [] c h = refl
checks_pass ((true, _) ∷ checks) c h = cc
checks_pass ((false, _) ∷ checks) c h = checks_pass checks c h

-- The connection was failed and dropped.
pub record IsDropped (c : Conn) : Type 0 where
  pub is_down : is_closed c.state ≡ true
  pub by_failure : c.cl.failed_by_me ≡ true
  pub by_me : c.cl.dropped_by_me ≡ true
  pub unclean : c.cl.was_clean ≡ false

fail_by_drop_drops :
    (code : ℕ) (reason : Reason) (c : Conn)
    → c.cfg.fail_by_drop ≡ true
    → is_closed c.state ≡ false
    → fail_connection code reason c
      ≡ (ok tt, drop_connection true (not_clean (i_dropped reason) (note_failed c)))
unfolding fail_connection ◌>>=◌ gets modify
fail_by_drop_drops code reason c h n = rw n (rw h)

drop-IsDropped :
    (reason : Reason) (c : Conn)
    → is_closed c.state ≡ false
    → IsDropped (drop_connection true (not_clean reason (note_failed c)))
unfolding drop_connection not_clean note_failed emit
drop-IsDropped reason c n = ground arith

cfg-drop :
    (reason : Reason) (c : Conn)
    → (drop_connection true (not_clean reason (note_failed c))).cfg ≡ c.cfg
unfolding drop_connection not_clean note_failed emit
cfg-drop reason c = ground arith

violation_drops :
    (reason : Reason) (c : Conn)
    → c.cfg.fail_by_drop ≡ true
    → is_closed c.state ≡ false
    → ((protocol_violation reason c).0 ≡ ok true) × IsDropped (protocol_violation reason c).1
unfolding protocol_violation ◌>>=◌ gets
violation_drops reason c h n = rw (fail_by_drop_drops protocol_error reason c h n) (
  ap (λ x. ok x.fail_by_drop) (cfg-drop (i_dropped reason) c) ∙ ap ok h,
  drop-IsDropped (i_dropped reason) c n,
)

pub checks_stop :
    (checks : List Check) (c : Conn)
    → any_fault checks ≡ true
    → c.cfg.fail_by_drop ≡ true
    → is_closed c.state ≡ false
    → ((run_checks checks c).0 ≡ ok true) × IsDropped (run_checks checks c).1
unfolding run_checks ◌>>=◌ pure
checks_stop [] c f h n = absurd (cc)
checks_stop ((false, _) ∷ checks) c f h n = checks_stop checks c f h n
checks_stop ((true, reason) ∷ checks) c f h n =
    let v = violation_drops reason c h n in rw v.0 (refl, v.1)

-- With failByDrop, on a connection that is not closed, processData stops at a frame whose first
-- two octets break the rules, and the connection is CLOSED, failed and dropped by this side and
-- not clean.
pub illegal_opening_drops :
    (b0 b1 : ℕ) (rest : Octets) (c : Conn)
    → ¬ IsLegal c.cfg c.per_message_compress c.rx.inside_message (opening b0 b1)
    → c.cfg.fail_by_drop ≡ true
    → is_closed c.state ≡ false
    → ((process_opening (b0 ∷ b1 ∷ rest) c).0 ≡ ok false)
      × IsDropped (process_opening (b0 ∷ b1 ∷ rest) c).1
unfolding process_opening ◌>>=◌ gets pure
illegal_opening_drops b0 b1 rest c n h k =
    let o = opening b0 b1 in
    let f : any_fault (opening_checks c.cfg c.per_message_compress c.rx.inside_message o) ≡ true =
      elim (Bool-cases
        (any_fault (opening_checks c.cfg c.per_message_compress c.rx.inside_message o))) [
          | inl e ↦ e
          | inr e ↦
              absurd (n (accepted-IsLegal c.cfg c.per_message_compress c.rx.inside_message o e))
        ] in
    let v =
      checks_stop (opening_checks c.cfg c.per_message_compress c.rx.inside_message o) c f h k in
    rw v.0 (refl, v.1)
