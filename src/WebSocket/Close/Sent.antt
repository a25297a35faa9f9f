-- ===== src/WebSocket/Close/Sent.antt =====
-- What `sendClose` does.
use autobahn_python.Base.{
  ℕ, ◌≤◌, ◌≡◌, refl, ap, not, ◌∙◌, Octets, Bool, true, false, Option, some, ok, arith, length, ◌++◌,
  be, ◌>>=◌, gets, pure,
}
use autobahn_python.WebSocket.Conn.{Conn, opened, closing}
use autobahn_python.WebSocket.Send.{send_simple}
use autobahn_python.WebSocket.Close.{
  send_close, send_close_frame, close_frame_in, send_close_octets, close_payload, note_close_sent,
  may_send_code, encode_truncate,
}
use autobahn_python.WebSocket.Close.Sound.{close_frame_sent}
use autobahn_python.WebSocket.Close.Truncate.{encode_truncate_le}

code_fits : (code : ℕ) → may_send_code code ≡ true → code ≤ 0xffff
code_fits code h = ground arith

module _ (code : ℕ) (reason : Octets) (c : Conn) where
  abbrev sent_close : Conn
  sent_close =
      note_close_sent (some code) (some reason) false (send_simple 8 (be 2 code ++ reason) c).1

  in_opened :
      code ≤ 0xffff
      → length reason ≤ 123
      → close_frame_in opened (some code) (some reason) false c ≡ (ok tt, sent_close)
  unfolding close_frame_in
  in_opened h k =
      let p = close_frame_sent code reason false c h k in
      ap
        (λ r. (
          r,
          (send_close_octets (some code) (some reason) false
              (close_payload (some code) (some reason)) c).1,
        ))
        p.0
      ∙ ap (λ d. (ok tt, d)) p.1

closes_eq :
    (code : ℕ) (reason : Octets) (c : Conn)
    → may_send_code code ≡ true
    → c.state ≡ opened
    → send_close (some code) (some reason) c
      ≡ (ok tt, sent_close code (encode_truncate reason 123) c)
unfolding send_close send_close_frame ◌>>=◌ gets
closes_eq code reason c h e = rw h (
    ap (λ s. close_frame_in s (some code) (some (encode_truncate reason 123)) false c) e
    ∙ in_opened code (encode_truncate reason 123) c (code_fits code h)
        (encode_truncate_le reason 123))

note_close-state :
    (code : Option ℕ) (reason : Option Octets) (reply : Bool) (c : Conn)
    → let d = note_close_sent code reason reply c in
      (d.state ≡ closing)
      × ((d.cl.closed_by_me ≡ not reply)
          × ((d.cl.local_close_code ≡ code) × (d.cl.local_close_reason ≡ reason)))
unfolding note_close_sent
note_close-state code reason reply c = (refl, (refl, (refl, refl)))

in_closing :
    (code : Option ℕ) (reason : Option Octets) (c : Conn)
    → close_frame_in closing code reason false c ≡ (ok tt, c)
unfolding close_frame_in pure
in_closing code reason c = refl

closing_ignores :
    (code : ℕ) (reason : Octets) (c : Conn)
    → may_send_code code ≡ true
    → c.state ≡ closing
    → send_close (some code) (some reason) c ≡ (ok tt, c)
unfolding send_close send_close_frame ◌>>=◌ gets
closing_ignores code reason c h e = rw h (
    ap (λ s. close_frame_in s (some code) (some (encode_truncate reason 123)) false c) e
    ∙ in_closing (some code) (some (encode_truncate reason 123)) c)

-- On an OPEN connection sendClose with a code that applications may send and a reason returns,
-- with the state CLOSING, closedByMe and the code and the truncated reason noted; and the same
-- call again changes nothing.
pub send_close_once :
    (code : ℕ) (reason : Octets) (c : Conn)
    → may_send_code code ≡ true
    → c.state ≡ opened
    → let r = send_close (some code) (some reason) c in
      (r.0 ≡ ok tt)
      × (r.1.state ≡ closing)
      × (r.1.cl.closed_by_me ≡ true)
      × (r.1.cl.local_close_code ≡ some code)
      × (r.1.cl.local_close_reason ≡ some (encode_truncate reason 123))
      × (send_close (some code) (some reason) r.1 ≡ (ok tt, r.1))
send_close_once code reason c h e =
    let text = encode_truncate reason 123 in
    let d = sent_close code text c in
    let n =
      note_close-state (some code) (some text) false (send_simple 8 (be 2 code ++ text) c).1 in
    rw (closes_eq code reason c h e)
      (refl, n.0, n.1.0, n.1.1.0, n.1.1.1, closing_ignores code reason d h n.0)
