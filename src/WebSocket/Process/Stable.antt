-- ===== src/WebSocket/Process/Stable.antt =====
-- The methods that send and close, and the invariants of every single change.
use autobahn_python.Base.{
  ℕ, Octets, List, Bool, true, false, Option, none, some, ◌≡◌, refl, Error, Keeps, Keeps-bind,
  Keeps-gets, Keeps-if, Keeps-pure, Keeps-raise, Keeps-modify,
}
use autobahn_python.WebSocket.Conn.{
  Conn, State, closed, connecting, closing, opened, proxy_connecting, Receiver, Closing, Timers,
  TrafficStats, Call, Output, got_message, emit, is_closed, is_closing,
}
use autobahn_python.WebSocket.Conn.Texts.{Reason}
use autobahn_python.WebSocket.Send.{send_simple}
use autobahn_python.WebSocket.Send.Quiet.{Quiet, send_frame-Quiet, send_control-Quiet}
use autobahn_python.WebSocket.Close.{
  drop_connection, send_close_frame, send_close_octets, close_frame_in, close_payload,
  fail_connection, note_close_sent, note_failed, not_clean,
}
use autobahn_python.WebSocket.Process.Neutral.{Neutral, is_notice}

pub record Stable (P : Conn → Type 0) : Type 0 where
  pub quieted : (c d : Conn) → Quiet c d → P c → P d
  pub counted : (c : Conn) (s : TrafficStats) → P c → P (record c { stats = s })
  pub timed : (c : Conn) (t : Timers) → P c → P (record c { timers = t })
  pub called : (c : Conn) (ks : List Call) → P c → P (record c { codec_calls = ks })
  pub clocked : (c : Conn) (n : ℕ) → P c → P (record c { clock_reads = n })
  pub received :
      (c : Conn) (r : Receiver)
      → r.current_frame ≡ c.rx.current_frame
      → r.current_frame_masker ≡ c.rx.current_frame_masker
      → P c
      → P (record c { rx = r })
  pub noted :
      (c : Conn) (x : Closing) → x.failed_by_me ≡ c.cl.failed_by_me → P c → P (record c { cl = x })
  pub noticed : (c : Conn) (o : Output) → is_notice o ≡ true → P c → P (emit o c)
  pub delivered :
      (c : Conn) (bs : Octets) (b : Bool)
      → c.cl.failed_by_me ≡ false
      → P c
      → P (emit (got_message bs b) c)
  pub dropped : (c : Conn) (abort : Bool) → P c → P (drop_connection abort c)
  pub close_sent :
      (code : Option ℕ) (reason : Option Octets) (reply : Bool) (c : Conn)
      → P c
      → P (note_close_sent code reason reply c)
  pub failing : (c : Conn) → P c → P (note_failed c)

module _ {P : Conn → Type 0} (k : Stable P) where
  frame-Keeps : (opcode : ℕ) (payload : Octets) → Keeps P (send_simple opcode payload)
  frame-Keeps opcode payload = record {
    after = λ c p. k.quieted c _ (send_frame-Quiet opcode payload true 0 none none none false c) p;
  }

  octets-Keeps :
      (code : Option ℕ) (reason : Option Octets) (reply : Bool) (payload : Option Octets)
      → Keeps P (send_close_octets code reason reply payload)
  unfolding send_close_octets
  octets-Keeps code reason reply none = Keeps-raise Error.struct_error
  octets-Keeps code reason reply (some payload) = Keeps-bind (frame-Keeps 8 payload) (λ _.
      Keeps-modify (note_close_sent code reason reply) (λ c p. k.close_sent code reason reply c p))

  close_in-Keeps :
      (s : State) (code : Option ℕ) (reason : Option Octets) (reply : Bool)
      → Keeps P (close_frame_in s code reason reply)
  unfolding close_frame_in
  close_in-Keeps opened code reason reply =
      octets-Keeps code reason reply (close_payload code reason)
  close_in-Keeps connecting code reason reply = Keeps-raise Error.not_yet_connected
  close_in-Keeps proxy_connecting code reason reply = Keeps-raise Error.not_yet_connected
  close_in-Keeps closing code reason reply = Keeps-pure tt
  close_in-Keeps closed code reason reply = Keeps-pure tt

  close-Keeps :
      (code : Option ℕ) (reason : Option Octets) (reply : Bool)
      → Keeps P (send_close_frame code reason reply)
  unfolding send_close_frame
  close-Keeps code reason reply =
      Keeps-bind (Keeps-gets (λ c. c)) (λ c. close_in-Keeps c.state code reason reply)

  fail-Keeps : (code : ℕ) (reason : Reason) → Keeps P (fail_connection code reason)
  unfolding fail_connection not_clean
  fail-Keeps code reason = Keeps-bind (Keeps-gets (λ c. c)) (λ c.
      Keeps-if (is_closed c.state) (Keeps-pure tt) (
        Keeps-if c.cfg.fail_by_drop
          (Keeps-modify _
            (λ d p. k.dropped _ true (k.noted (note_failed d) _ refl (k.failing d p))))
          (Keeps-if (is_closing c.state) (Keeps-modify _ (λ d p. k.dropped _ false (k.failing d p)))
            (Keeps-bind (Keeps-modify note_failed (λ d p. k.failing d p))
              (λ _. close-Keeps _ _ false)))))

  pub Stable-Neutral : Neutral P
  Stable-Neutral = record {
    counted = k.counted;
    timed = k.timed;
    called = k.called;
    clocked = k.clocked;
    received = k.received;
    noted = k.noted;
    noticed = k.noticed;
    delivered = k.delivered;
    dropped = k.dropped;
    controlled = λ opcode e payload. record {
      after = λ c p. k.quieted c _ (send_control-Quiet opcode e payload c) p;
    };
    closed_by = close-Keeps;
    failed = λ code reason _. fail-Keeps code reason;
  }
