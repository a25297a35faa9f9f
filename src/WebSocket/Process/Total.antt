-- ===== src/WebSocket/Process/Total.antt =====
-- Whether `consumeData` and `_dataReceived` return.
use autobahn_python.Base.{
  ℕ, zero, suc, ◌<◌, Octets, Bool, true, false, not, if◌then◌else◌, Option, none, some, ◌≡◌, refl,
  arith, Result, ok, err,
}
use autobahn_python.WebSocket.Conn.{
  Conn, FrameHeader, State, closed, connecting, closing, opened, proxy_connecting, is_closed,
}
use autobahn_python.WebSocket.Process.{
  process_data, process_loop, go_on, consume_in, consume_data, receive_octets, data_received,
  enough,
}
use autobahn_python.WebSocket.Process.Measure.{Fits, measure, in_frame, Ends}
use autobahn_python.WebSocket.Process.Termination.{process_data-Ends}

-- A run that ends, with the pointer of the masker within the frame.
abbrev pub Returns : Option (Result (Unit {0}) × Conn) → Type 0
Returns r = (q : Result (Unit {0}) × Conn) × ((r ≡ some q) × Fits q.1)

if_returns :
    (b : Bool) (rest : Option (Result (Unit {0}) × Conn)) (c : Conn)
    → (b ≡ true → Returns rest)
    → Fits c
    → Returns (if b then rest else some (ok tt, c))
if_returns true rest c h w = h refl
if_returns false rest c h w = ((ok tt, c), (refl, w))

round_returns :
    (k : ℕ) (more : Result Bool) (rest : Option (Result (Unit {0}) × Conn)) (c : Conn)
    → Ends k more c
    → (measure c < k → Returns rest)
    → Returns (go_on more rest c)
unfolding go_on
round_returns k (err e) rest c p h = ((err e, c), (refl, p.fits))
round_returns k (ok true) rest c p h =
    if_returns (not (is_closed c.state)) rest c (λ _. h (p.less refl)) p.fits
round_returns k (ok false) rest c p h = ((ok tt, c), (refl, p.fits))

-- With fuel above the measure the loop returns.
process_loop-total :
    (fuel : ℕ) (c : Conn) → Fits c → measure c < fuel → Returns (process_loop fuel c)
unfolding process_loop
process_loop-total zero c w h = absurd (omega arith)
process_loop-total (suc fuel) c w h =
    let e : Ends (measure c) (process_data c).0 (process_data c).1 = process_data-Ends c w in
    round_returns (measure c) (process_data c).0 (process_loop fuel (process_data c).1)
      (process_data c).1 e (λ l. process_loop-total fuel (process_data c).1 e.fits (omega arith))

in_frame_le : (f : Option FrameHeader) → in_frame f < 2
in_frame_le none = omega arith
in_frame_le (some f) = omega arith

loop_returns : (c : Conn) → Fits c → Returns (process_loop (enough c) c)
loop_returns c w = process_loop-total (enough c) c w (omega (arith, in_frame_le c.rx.current_frame))

module _ (handshake : Conn → Result (Unit {0}) × Conn)
    (h : (d : Conn) → Fits d → Fits (handshake d).1) where
  consume_in-total : (s : State) (c : Conn) → Fits c → Returns (consume_in s handshake c)
  unfolding consume_in
  consume_in-total opened c w = loop_returns c w
  consume_in-total closing c w = loop_returns c w
  consume_in-total connecting c w = (handshake c, (refl, h c w))
  consume_in-total proxy_connecting c w = (handshake c, (refl, h c w))
  consume_in-total closed c w = ((ok tt, c), (refl, w))

-- _dataReceived always returns, for any octets and any object whose masker has its pointer within
-- the frame at hand, and such an object results; what handles data before the connection is open
-- is assumed to keep that.
pub data_received-total :
    (handshake : Conn → Result (Unit {0}) × Conn) (octets : Octets) (c : Conn)
    → ((d : Conn) → Fits d → Fits (handshake d).1)
    → Fits c
    → (r : Result (Unit {0}) × Conn) × ((data_received handshake octets c ≡ some r) × Fits r.1)
unfolding data_received consume_data receive_octets
data_received-total handshake octets c h w =
    consume_in-total handshake h c.state (receive_octets octets c) w
