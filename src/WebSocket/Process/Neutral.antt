-- ===== src/WebSocket/Process/Neutral.antt =====
-- The interface between the receiving code and an invariant of the connection: what the primitive
-- changes that the handlers make have to keep.
use autobahn_python.Base.{
  ℕ, ◌≤◌, Octets, List, Bool, true, false, Option, ◌≡◌, refl, Result, Error, Keeps, if◌then◌else◌,
}
use autobahn_python.WebSocket.Conn.{
  Conn, FrameHeader, Receiver, Closing, Timers, TrafficStats, Call, Output, got_message, got_ping,
  got_pong, got_auto_pong, emit,
}
use autobahn_python.WebSocket.Conn.Texts.{Reason}
use autobahn_python.WebSocket.Send.{send_control}
use autobahn_python.WebSocket.Frame.{Opening}
use autobahn_python.WebSocket.Header.{enter_frame}
use autobahn_python.WebSocket.Process.{leave_frame, take_payload}
use autobahn_python.WebSocket.Close.{drop_connection, send_close_frame, fail_connection}

-- The callbacks that are no message.
abbrev pub is_notice : Output → Bool
is_notice (got_ping _) = true
is_notice (got_pong _) = true
is_notice (got_auto_pong _ _ _ _) = true
is_notice _ = false

pub record Neutral (P : Conn → Type 0) : Type 0 where
  pub counted : (c : Conn) (s : TrafficStats) → P c → P (record c { stats = s })
  pub timed : (c : Conn) (t : Timers) → P c → P (record c { timers = t })
  pub called : (c : Conn) (ks : List Call) → P c → P (record c { codec_calls = ks })
  pub clocked : (c : Conn) (n : ℕ) → P c → P (record c { clock_reads = n })
  pub received :
      (c : Conn) (r : Receiver)
      → r.current_frame ≡ c.rx.current_frame
      → r.current_frame_masker ≡ c.rx.current_frame_masker
      → P c
      → P (record c { rx = r })
  pub noted :
      (c : Conn) (x : Closing) → x.failed_by_me ≡ c.cl.failed_by_me → P c → P (record c { cl = x })
  pub noticed : (c : Conn) (o : Output) → is_notice o ≡ true → P c → P (emit o c)
  pub delivered :
      (c : Conn) (bs : Octets) (b : Bool)
      → c.cl.failed_by_me ≡ false
      → P c
      → P (emit (got_message bs b) c)
  pub dropped : (c : Conn) (abort : Bool) → P c → P (drop_connection abort c)
  pub controlled :
      (opcode : ℕ) (e : Error) (payload : Option Octets) → Keeps P (send_control opcode e payload)
  pub closed_by :
      (code : Option ℕ) (reason : Option Octets) (reply : Bool)
      → Keeps P (send_close_frame code reason reply)
  pub failed : (code : ℕ) (reason : Reason) → code ≤ 0xffff → Keeps P (fail_connection code reason)

-- Branches of a method that is given by its action on an object.
module _ (P : Conn → Type 0) where
  pub if_after :
      {A : Type 0} (b : Bool) (x y : Result A × Conn) → P x.1 → P y.1 → P (if b then x else y).1
  if_after true x y px py = px
  if_after false x y px py = py

  pub if_after_known :
      {A : Type 0} (b : Bool) (x y : Result A × Conn)
      → (b ≡ true → P x.1)
      → (b ≡ false → P y.1)
      → P (if b then x else y).1
  if_after_known true x y px py = px refl
  if_after_known false x y px py = py refl

  pub if_state : (b : Bool) (x y : Conn) → P x → P y → P (if b then x else y)
  if_state true x y px py = px
  if_state false x y px py = py

  pub if_state_known :
      (b : Bool) (x y : Conn) → (b ≡ true → P x) → (b ≡ false → P y) → P (if b then x else y)
  if_state_known true x y px py = px refl
  if_state_known false x y px py = py refl

-- What the changes besides those of the handlers keep: those of the buffer and of the frame at hand.
pub record Framed (P : Conn → Type 0) : Type 0 where
  pub neutral : Neutral P
  pub entered : (o : Opening) (rest : Octets) (c : Conn) → P c → P (enter_frame o rest c)
  pub left : (c : Conn) → P c → P (leave_frame c)
  pub taken : (f : FrameHeader) (c : Conn) → P c → P (take_payload f c).1
