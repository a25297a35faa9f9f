-- ===== src/WebSocket/Whole/Fragments.antt =====
-- The fragments into which `sendMessage` cuts a message.
use autobahn_python.Base.{
  ℕ, ◌+◌, ◌/◌, ◌≤◌, ◌<◌, Octets, List, [], ◌∷◌, ◌++◌, Bool, true, false, length, ◌≡◌,
}
use autobahn_python.Base.{◌⊎◌}
use autobahn_python.WebSocket.Conn.{Conn}
use autobahn_python.WebSocket.Stream.{count_outgoing_message, count_app, count_web_socket}

abbrev pub payloads : List (Octets × Bool) → Octets
payloads [] = []
payloads ((payload, fin) ∷ more) = payload ++ payloads more

-- Full fragments without FIN, then a shorter one with FIN.
pub data IsFragmented (pfs : ℕ) : List (Octets × Bool) → Type 0 where
  last : {payload : Octets} → length payload < pfs → IsFragmented pfs ((payload, true) ∷ [])
  full :
      {payload : Octets} {more : List (Octets × Bool)}
      → length payload ≡ pfs
      → IsFragmented pfs more
      → IsFragmented pfs ((payload, false) ∷ more)

-- What is said of the frames of a message. A payload that is not longer than a fragment is one frame.
pub record IsCut (pfs : ℕ) (payload : Octets) (frames : List (Octets × Bool)) : Type 0 where
  pub in_order : payloads frames ≡ payload
  pub cut :
      ((length payload ≤ pfs) × (frames ≡ (payload, true) ∷ []))
      ⊎ ((pfs < length payload)
          × IsFragmented pfs frames
          × (length frames ≡ length payload / pfs + 1))

-- The counters of a message that is not compressed.
abbrev pub counted : Octets → Conn → Conn
counted payload c =
    count_web_socket (length payload) (count_app (length payload) (count_outgoing_message c))
