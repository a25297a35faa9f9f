-- ===== src/WebSocket/Stream/Room.antt =====
-- The octets of a streamed frame and the room that the frame has for them.
use autobahn_python.Base.{ℕ, ◌+◌, ◌≤◌, ◌≡◌, Octets, ◌++◌, length}
use autobahn_python.WebSocket.Conn.{Conn}
use autobahn_python.WebSocket.Stream.{Rest, left, over}

-- What is sent of a payload and what is returned add up, `sent` octets being in the frame before.
pub data IsAccounted (payload : Octets) (sent size : ℕ) : Octets × Rest → Type 0 where
  all_sent :
      {k : ℕ} → sent + length payload + k ≡ size → IsAccounted payload sent size (payload, left k)
  cut :
      {pl : Octets} (tail : Octets)
      → pl ++ tail ≡ payload
      → sent + length pl ≡ size
      → 1 ≤ length tail
      → IsAccounted payload sent size (pl, over (length tail))
