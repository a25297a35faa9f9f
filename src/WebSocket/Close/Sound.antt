-- ===== src/WebSocket/Close/Sound.antt =====
-- The states of a connection and the future `is_closed`, as an invariant.
use autobahn_python.Base.{
  ℕ, ◌≤◌, Octets, ◌++◌, Bool, true, false, leb, if◌then◌else◌, length, length-append, length-be, be,
  Option, none, some, ◌≡◌, refl, sym, subst, ◌∙◌, arith, Result, ok, err, Keeps, proceed, after_if,
  raise, modify, pure, ◌>>=◌,
}
use autobahn_python.WebSocket.Conn.{
  Conn, State, closed, connecting, closing, opened, proxy_connecting, emit, is_closed, is_opened,
  is_closing,
}
use autobahn_python.WebSocket.Conn.Texts.{Reason, i_dropped, reason_text}
use autobahn_python.WebSocket.Send.{send_simple}
use autobahn_python.WebSocket.Send.Quiet.{Quiet, resolves, send_frame-Quiet, send_simple_succeeds}
use autobahn_python.WebSocket.Close.{
  close_payload, note_close_sent, send_close_octets, close_frame_in, send_close_frame,
  drop_connection, not_clean, note_failed, fail_connection, encode_truncate,
}
use autobahn_python.WebSocket.Close.Truncate.{encode_truncate_le}

pub record IsSound (c : Conn) : Type 0 where
  pub resolved_once : resolves c.log ≡ (if is_closed c.state then 1 else 0)
  pub failed_not_open : c.cl.failed_by_me ≡ true → is_opened c.state ≡ false

pub Quiet-IsSound : {c d : Conn} → Quiet c d → IsSound c → IsSound d
Quiet-IsSound {c} {d} q p = ground arith

pub drop-IsSound : (abort : Bool) (c : Conn) → IsSound c → IsSound (drop_connection abort c)
unfolding drop_connection emit
drop-IsSound abort c p = ground arith

note_close_sent-IsSound :
    (code : Option ℕ) (reason : Option Octets) (reply : Bool) (c : Conn)
    → c.state ≡ opened
    → IsSound c
    → IsSound (note_close_sent code reason reply c)
unfolding note_close_sent
note_close_sent-IsSound code reason reply c e p = ground arith

-- What follows the frame, whether that was sent or not.
after_frame :
    (code : Option ℕ) (reason : Option Octets) (reply : Bool) (r : Result (Unit {0})) (d : Conn)
    → d.state ≡ opened
    → IsSound d
    → IsSound (proceed r (λ _. modify (note_close_sent code reason reply)) d).1
unfolding modify
after_frame code reason reply (ok _) d e p = note_close_sent-IsSound code reason reply d e p
after_frame code reason reply (err _) d e p = p

close_octets-IsSound :
    (code : Option ℕ) (reason : Option Octets) (reply : Bool) (payload : Option Octets) (c : Conn)
    → c.state ≡ opened
    → IsSound c
    → IsSound (send_close_octets code reason reply payload c).1
unfolding send_close_octets ◌>>=◌
close_octets-IsSound code reason reply none c e p = p
close_octets-IsSound code reason reply (some payload) c e p =
    let q : Quiet c (send_simple 8 payload c).1 =
      send_frame-Quiet 8 payload true 0 none none none false c in
    after_frame code reason reply (send_simple 8 payload c).0 (send_simple 8 payload c).1
      (q.state_same ∙ e) (Quiet-IsSound q p)

close_in-IsSound :
    (s : State) (code : Option ℕ) (reason : Option Octets) (reply : Bool) (c : Conn)
    → c.state ≡ s
    → IsSound c
    → IsSound (close_frame_in s code reason reply c).1
unfolding close_frame_in raise pure
close_in-IsSound opened code reason reply c e p =
    close_octets-IsSound code reason reply (close_payload code reason) c e p
close_in-IsSound connecting code reason reply c e p = p
close_in-IsSound proxy_connecting code reason reply c e p = p
close_in-IsSound closing code reason reply c e p = p
close_in-IsSound closed code reason reply c e p = p

pub send_close_frame-IsSound :
    (code : Option ℕ) (reason : Option Octets) (reply : Bool)
    → Keeps IsSound (send_close_frame code reason reply)
unfolding send_close_frame ◌>>=◌
send_close_frame-IsSound code reason reply = record {
  after = λ c p. close_in-IsSound c.state code reason reply c refl p;
}

-- A close frame with a code of two octets and a truncated reason goes out.
pub close_frame_sent :
    (code : ℕ) (reason : Octets) (reply : Bool) (c : Conn)
    → code ≤ 0xffff
    → length reason ≤ 123
    → let r =
        send_close_octets
          (some code)
          (some reason)
          reply
          (close_payload (some code) (some reason))
          c in
      (r.0 ≡ ok tt)
      × (r.1
          ≡ note_close_sent
              (some code)
              (some reason)
              reply
              (send_simple 8 (be 2 code ++ reason) c).1)
unfolding send_close_octets close_payload ◌>>=◌ modify
close_frame_sent code reason reply c h k =
    let fits : leb code 0xffff ≡ true = ground arith in
    let sent : (send_simple 8 (be 2 code ++ reason) c).0 ≡ ok tt =
      send_simple_succeeds 8 (be 2 code ++ reason) c
        (omega (arith, length-append (be 2 code) reason, length-be 2 code)) in
    rw fits (rw sent (refl, refl))

state_closing :
    (code : Option ℕ) (reason : Option Octets) (reply : Bool) (c : Conn)
    → (note_close_sent code reason reply c).state ≡ closing
unfolding note_close_sent
state_closing code reason reply c = refl

closing-IsSound :
    (code : ℕ) (reason : Octets) (d d' : Conn)
    → Quiet d d'
    → d.state ≡ opened
    → resolves d.log ≡ (if is_closed d.state then 1 else 0)
    → IsSound (note_close_sent (some code) (some reason) false d')
unfolding note_close_sent
closing-IsSound code reason d d' q e r = ground arith

-- To fail a connection that is open, by a closing handshake, leaves it in the state CLOSING.
failing-IsSound :
    (s : State) (code : ℕ) (reason : Octets) (c : Conn)
    → code ≤ 0xffff
    → length reason ≤ 123
    → c.state ≡ s
    → is_closed s ≡ false
    → is_closing s ≡ false
    → IsSound c
    → IsSound (close_frame_in s (some code) (some reason) false (note_failed c)).1
unfolding close_frame_in note_failed raise
failing-IsSound opened code reason c h k e p q i =
    let d = note_failed c in
    subst IsSound (sym (close_frame_sent code reason false d h k).1) (
      closing-IsSound code reason d (send_simple 8 (be 2 code ++ reason) d).1
        (send_frame-Quiet 8 (be 2 code ++ reason) true 0 none none none false d) e i.resolved_once)
failing-IsSound connecting code reason c h k e p q i = ground arith
failing-IsSound proxy_connecting code reason c h k e p q i = ground arith
failing-IsSound closing code reason c h k e p q i = absurd (cc)
failing-IsSound closed code reason c h k e p q i = absurd (cc)

drop_failed-IsSound :
    (abort : Bool) (c : Conn) → IsSound c → IsSound (drop_connection abort (note_failed c))
unfolding drop_connection emit note_failed
drop_failed-IsSound abort c p = ground arith

drop_unclean-IsSound :
    (abort : Bool) (reason : Reason) (c : Conn)
    → IsSound c
    → IsSound (drop_connection abort (not_clean reason (note_failed c)))
unfolding drop_connection emit note_failed not_clean
drop_unclean-IsSound abort reason c p = ground arith

fail_connection-IsSound' :
    (code : ℕ) (reason : Reason) (c : Conn)
    → code ≤ 0xffff
    → IsSound c
    → IsSound (fail_connection code reason c).1
unfolding fail_connection ◌>>=◌ send_close_frame note_failed
fail_connection-IsSound' code reason c h p =
    after_if IsSound (is_closed c.state) _ _ c (λ _. p)
      (λ e.
        after_if IsSound c.cfg.fail_by_drop _ _ c
          (λ _. drop_unclean-IsSound true (i_dropped reason) c p)
          (λ _.
            after_if IsSound (is_closing c.state) _ _ c (λ _. drop_failed-IsSound false c p)
              (λ g.
                failing-IsSound c.state code (encode_truncate (reason_text reason) 123) c h
                  (encode_truncate_le (reason_text reason) 123) refl e g p)))

pub fail_connection-IsSound :
    (code : ℕ) (reason : Reason) → code ≤ 0xffff → Keeps IsSound (fail_connection code reason)
fail_connection-IsSound code reason h = record {
  after = λ c p. fail_connection-IsSound' code reason c h p;
}
