-- ===== src/WebSocket/Run.antt =====
-- A connection as a state machine: the events that its object handles, in any order.
use autobahn_python.Base.{
  ℕ, Octets, Bool, true, false, Option, none, some, ◌≡◌, arith, Result, Error, Keeps, Keeps-if,
  Keeps-raise, Keeps-bind, Keeps-modify,
}
use autobahn_python.WebSocket.Conn.{Conn, Config, World, emit, is_closed}
use autobahn_python.WebSocket.Conn.Texts.{Reason}
use autobahn_python.WebSocket.Send.{send_frame, send_ping, send_pong}
use autobahn_python.WebSocket.Send.Quiet.{resolves, send_frame-Quiet, send_control-Quiet}
use autobahn_python.WebSocket.Close.{
  send_close, drop_connection, not_clean, on_server_connection_drop_timeout,
  on_open_handshake_timeout, on_close_handshake_timeout, on_auto_ping_timeout,
}
use autobahn_python.WebSocket.Close.Sound.{
  IsSound, Quiet-IsSound, drop-IsSound, send_close_frame-IsSound,
}
use autobahn_python.WebSocket.Process.{data_received, send_auto_ping}
use autobahn_python.WebSocket.Process.Safety.{data_received-IsSound}
use autobahn_python.WebSocket.Life.{
  connection_made, connection_lost, cancel_timers, note_closed, report_close, note_reason,
}

-- One event at a connection; `handshake` is what the derived class does with data before it is open.
pub data Step (handshake : Conn → Result (Unit {0}) × Conn) : Conn → Conn → Type 0 where
  octets_received :
      {c : Conn} (octets : Octets) {r : Result (Unit {0}) × Conn}
      → data_received handshake octets c ≡ some r
      → Step handshake c r.1
  closes :
      {c : Conn} (code : Option ℕ) (reason : Option Octets)
      → Step handshake c (send_close code reason c).1
  frame_sent :
      {c : Conn} (opcode : ℕ) (payload : Octets) (fin : Bool) (rsv : ℕ) (mask : Option Octets)
      (payload_len chopsize : Option ℕ) (sync : Bool)
      → Step handshake c (send_frame opcode payload fin rsv mask payload_len chopsize sync c).1
  pings : {c : Conn} (payload : Option Octets) → Step handshake c (send_ping payload c).1
  pongs : {c : Conn} (payload : Option Octets) → Step handshake c (send_pong payload c).1
  drops : {c : Conn} (abort : Bool) → Step handshake c (drop_connection abort c)
  auto_pings : {c : Conn} → Step handshake c (send_auto_ping c).1
  drop_timer : {c : Conn} → Step handshake c (on_server_connection_drop_timeout c)
  open_timer : {c : Conn} → Step handshake c (on_open_handshake_timeout c)
  close_timer : {c : Conn} → Step handshake c (on_close_handshake_timeout c)
  ping_timer : {c : Conn} → Step handshake c (on_auto_ping_timeout c)
  lost : {c : Conn} (reason : Option Octets) → Step handshake c (connection_lost reason c)

-- The connection `c` after events since `connection_made`.
pub data IsReachable (handshake : Conn → Result (Unit {0}) × Conn) (cfg : Config) (world : World)
    (version : ℕ) : Conn → Type 0 where
  made : IsReachable handshake cfg world version (connection_made cfg world version)
  after :
      {c d : Conn}
      → IsReachable handshake cfg world version c
      → Step handshake c d
      → IsReachable handshake cfg world version d

unclean-IsSound : (r : Reason) (c : Conn) → IsSound c → IsSound (not_clean r c)
unfolding not_clean
unclean-IsSound r c p = ground arith

made-IsSound :
    (cfg : Config) (world : World) (version : ℕ) → IsSound (connection_made cfg world version)
unfolding connection_made
made-IsSound cfg world version = ground arith

send_close-IsSound :
    (code : Option ℕ) (reason : Option Octets) → Keeps IsSound (send_close code reason)
unfolding send_close
send_close-IsSound none none = send_close_frame-IsSound none none false
send_close-IsSound none (some r) = Keeps-raise Error.reason_without_code
send_close-IsSound (some code) reason =
    Keeps-if _ (send_close_frame-IsSound (some code) _ false) (Keeps-raise Error.invalid_close_code)

drop_timer-IsSound : (c : Conn) → IsSound c → IsSound (on_server_connection_drop_timeout c)
unfolding on_server_connection_drop_timeout drop_connection not_clean emit
drop_timer-IsSound c p = ground arith

open_timer-IsSound : (c : Conn) → IsSound c → IsSound (on_open_handshake_timeout c)
unfolding on_open_handshake_timeout drop_connection not_clean emit
open_timer-IsSound c p = ground arith

close_timer-IsSound : (c : Conn) → IsSound c → IsSound (on_close_handshake_timeout c)
unfolding on_close_handshake_timeout drop_connection not_clean emit
close_timer-IsSound c p = ground arith

ping_timer-IsSound : (c : Conn) → IsSound c → IsSound (on_auto_ping_timeout c)
unfolding on_auto_ping_timeout drop_connection not_clean emit
ping_timer-IsSound c p = ground arith

closed-IsSound : (c : Conn) → IsSound c → IsSound (note_closed c)
unfolding note_closed emit
closed-IsSound c p = ground arith

cancelled-IsSound : (c : Conn) → IsSound c → IsSound (cancel_timers c)
unfolding cancel_timers
cancelled-IsSound c p = ground arith

reported-IsSound : (reason : Option Octets) (c : Conn) → IsSound c → IsSound (report_close reason c)
unfolding report_close note_reason emit
reported-IsSound reason c p = ground arith

lost-IsSound : (reason : Option Octets) (c : Conn) → IsSound c → IsSound (connection_lost reason c)
unfolding connection_lost
lost-IsSound reason c p = reported-IsSound reason _ (closed-IsSound _ (cancelled-IsSound c p))

auto_ping-IsSound : (c : Conn) → IsSound c → IsSound (send_auto_ping c).1
unfolding send_auto_ping send_ping
auto_ping-IsSound c p =
    (Keeps-bind
        (record { after = λ d q. Quiet-IsSound (send_control-Quiet 9 Error.invalid_ping _ d) q })
        (λ _. Keeps-modify _ (λ d q. record {
          resolved_once = q.resolved_once;
          failed_not_open = q.failed_not_open;
        }))).after
      _ (record { resolved_once = p.resolved_once; failed_not_open = p.failed_not_open })

module _ (handshake : Conn → Result (Unit {0}) × Conn)
    (h : (d : Conn) → IsSound d → IsSound (handshake d).1) where
  Step-IsSound : {c d : Conn} → Step handshake c d → IsSound c → IsSound d
  unfolding send_ping send_pong
  Step-IsSound (octets_received {c} octets {r} e) p =
      data_received-IsSound handshake octets c r h p e
  Step-IsSound (closes {c} code reason) p = (send_close-IsSound code reason).after c p
  Step-IsSound (frame_sent {c} opcode payload fin rsv mask n chopsize sync) p =
      Quiet-IsSound (send_frame-Quiet opcode payload fin rsv mask n chopsize sync c) p
  Step-IsSound (pings {c} payload) p =
      Quiet-IsSound (send_control-Quiet 9 Error.invalid_ping payload c) p
  Step-IsSound (pongs {c} payload) p =
      Quiet-IsSound (send_control-Quiet 10 Error.invalid_pong payload c) p
  Step-IsSound (drops {c} abort) p = drop-IsSound abort c p
  Step-IsSound (auto_pings {c}) p = auto_ping-IsSound c p
  Step-IsSound (drop_timer {c}) p = drop_timer-IsSound c p
  Step-IsSound (open_timer {c}) p = open_timer-IsSound c p
  Step-IsSound (close_timer {c}) p = close_timer-IsSound c p
  Step-IsSound (ping_timer {c}) p = ping_timer-IsSound c p
  Step-IsSound (lost {c} reason) p = lost-IsSound reason c p

-- In every object that the modelled events lead to from a new connection, for any handshake that
-- keeps this, the future is_closed was resolved once if the state is CLOSED and not at all
-- otherwise, and a connection that was failed is not OPEN.
pub reachable-IsSound :
    (handshake : Conn → Result (Unit {0}) × Conn) (cfg : Config) (world : World) (version : ℕ)
    (c : Conn)
    → ((d : Conn) → IsSound d → IsSound (handshake d).1)
    → IsReachable handshake cfg world version c
    → IsSound c
reachable-IsSound handshake cfg world version _ h made = made-IsSound cfg world version
reachable-IsSound handshake cfg world version _ h (after {c} r s) =
    Step-IsSound handshake h s (reachable-IsSound handshake cfg world version c h r)

-- After _connectionLost on a sound connection the state is CLOSED and the future is_closed was
-- resolved exactly once.
pub connection_lost_closes :
    (reason : Option Octets) (c : Conn)
    → IsSound c
    → (is_closed (connection_lost reason c).state ≡ true)
      × (resolves (connection_lost reason c).log ≡ 1)
unfolding connection_lost report_close note_reason note_closed cancel_timers emit
connection_lost_closes reason c p = ground arith
