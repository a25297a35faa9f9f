-- ===== src/RawSocket/Examples.antt =====
-- A client and a server of WAMP over a raw TCP stream, and the theorems at them.
use autobahn_python.Base.{
  ℕ, zero, suc, ◌^◌, Octets, [], ◌∷◌, ◌++◌, length, true, false, some, none, ◌≡◌, refl, ap, arith,
  Error, ok, err, be,
}
use autobahn_python.RawSocket.{
  Socket, wrote, emit, started, send_string, decode_header, frames_received,
}
use autobahn_python.RawSocket.Handshake.{handshake_octets, member, data_received, connection_made}
use autobahn_python.RawSocket.Handshake.Agreement.{
  IsOpen, handshake_agrees, unsupported_serializer_raises,
}
use autobahn_python.RawSocket.Chunks.{receive_all, IsAllDelivered}
use autobahn_python.RawSocket.Wire.{written_of, strings_sent_received, full_length_raises}

-- The serializers are JSON (1) and MessagePack (2).
abbrev server : Socket
server = record {
  is_server = true;
  serializers = 1 ∷ 2 ∷ [];
  serializer_id = 0;
  start = started;
  accepts = λ octets. true;
  is_vacuous = λ octets. false;
  max_length = 2 ^ 24;
  max_length_send = 2 ^ 24;
  length_exp = 15;
  buffer = [];
  header = none;
  handshake_done = false;
  session = false;
  log = [];
}

abbrev client : Socket
client = record server { is_server = false; serializers = []; serializer_id = 2 }

abbrev opened : Socket
opened = record server { handshake_done = true; session = true }

handshake_agrees_example :
    ((connection_made client).log ≡ wrote (handshake_octets 15 2) ∷ [])
    × ((s : Socket) × (data_received (handshake_octets 15 2) (connection_made server)
          ≡ some (ok tt, s))
        × (s.log ≡ wrote (handshake_octets 15 2) ∷ [])
        × IsOpen 15 s)
    × ((c : Socket) × (data_received (handshake_octets 15 2) (connection_made client)
          ≡ some (ok tt, c))
        × IsOpen 15 c)
unfolding member
handshake_agrees_example =
    handshake_agrees client server refl refl (omega arith) (omega arith) (omega arith) (omega arith)
      refl refl refl

unsupported_serializer_raises_example :
    (s : Socket) × (data_received (handshake_octets 15 3) (connection_made server)
      ≡ some (err Error.transport_lost, s))
    × (s.log ≡ [])
unfolding member
unsupported_serializer_raises_example =
    unsupported_serializer_raises 15 3 server (omega arith) (omega arith) refl refl refl

-- A string of three octets and an empty one, in two chunks that cut the first header.
strings_sent_received_example :
    IsAllDelivered
      ((7 ∷ 8 ∷ 9 ∷ []) ∷ [] ∷ [])
      []
      opened
      (receive_all ((0 ∷ 0 ∷ []) ∷ (0 ∷ 3 ∷ 7 ∷ 8 ∷ 9 ∷ 0 ∷ 0 ∷ 0 ∷ 0 ∷ []) ∷ []) opened)
unfolding send_string emit be
strings_sent_received_example =
    strings_sent_received ((7 ∷ 8 ∷ 9 ∷ []) ∷ [] ∷ [])
      ((0 ∷ 0 ∷ []) ∷ (0 ∷ 3 ∷ 7 ∷ 8 ∷ 9 ∷ 0 ∷ 0 ∷ 0 ∷ 0 ∷ []) ∷ []) opened opened refl
      ((omega arith, omega arith, omega arith), ((omega arith, omega arith, omega arith), tt)) refl
      refl refl refl

unfoldable zeros : ℕ → Octets
zeros zero = []
zeros (suc n) = 0 ∷ zeros n

length-zeros : (n : ℕ) → length (zeros n) ≡ n
unfolding zeros
length-zeros zero = refl
length-zeros (suc n) = ap suc (length-zeros n)

full_length_raises_example :
    let sent = send_string (zeros (2 ^ 24)) opened in
    let octets = written_of sent.1.log ++ 7 ∷ [] in
    (sent.0 ≡ ok tt)
    × (decode_header (2 ^ 24) octets ≡ some (record { frame_type = 1; frame_length = 0 }))
    × (frames_received octets opened
        ≡ some (err Error.not_implemented, record opened { buffer = octets }))
full_length_raises_example =
    full_length_raises (zeros (2 ^ 24)) (7 ∷ []) opened opened (length-zeros (2 ^ 24)) refl refl
      refl refl refl
