-- ===== src/RawSocket/Wire.antt =====
-- What one side of asyncio/rawsocket.py sends, and what the other side's session gets of it.
use autobahn_python.Base.{
  ℕ, ◌+◌, ◌/◌, ◌%◌, ◌≤◌, ◌<◌, ◌^◌, Octets, List, [], ◌∷◌, ◌++◌, append-nil, append_assoc, All, join,
  true, false, none, some, ltb, be, unpack, unpack_from, take, drop, length, length-append,
  length-be, take-append, drop-append, ◌≡◌, refl, sym, ap, subst, ◌∙◌, inl, arith, inl, ok,
}
use autobahn_python.Base.{leb, raise, suc, ◌-◌, Error, err}
use autobahn_python.RawSocket.{
  round, take_frame, after_frame, deliver, current_header, ended, raised, frames_received,
  process_frames, conclude, conclude_run, Socket, Header, Event, wrote, emit, header_fields,
  decode_header, send_string,
}
use autobahn_python.RawSocket.Stream.{IsFrame, Holds, short, frame}
use autobahn_python.RawSocket.Chunks.{receive_all, IsAllDelivered, receive_all-IsAllDelivered}

-- The octets of a string on the wire.
unfoldable pub wire : Octets → Octets
wire payload = be 4 (length payload) ++ payload

abbrev pub written_of : List Event → Octets
written_of [] = []
written_of (wrote bs ∷ log) = written_of log ++ bs
written_of (_ ∷ log) = written_of log

abbrev pub send_all : List Octets → Socket → Socket
send_all [] c = c
send_all (p ∷ ps) c = send_all ps (send_string p c).1

abbrev pub wires : List Octets → Octets
wires [] = []
wires (p ∷ ps) = wire p ++ wires ps

-- A string that fits the sender's and the receiver's limit, and the three octets of a length.
abbrev pub Fits : Socket → Socket → Octets → Type 0
Fits sender receiver p =
    (length p ≤ sender.max_length_send) × (length p ≤ receiver.max_length) × (length p < 2 ^ 24)

three_octets :
    (n : ℕ) → n < 2 ^ 24 → unpack (0 ∷ (n / 256 / 256 % 256) ∷ (n / 256 % 256) ∷ (n % 256) ∷ []) ≡ n
unfolding unpack_from
three_octets n h = omega arith

wire_fields :
    (p more : Octets)
    → length p < 2 ^ 24
    → header_fields (wire p ++ more) ≡ record { frame_type = 0; frame_length = length p }
unfolding header_fields wire be
wire_fields p more k =
    let n = length p in
    let z : n / 256 / 256 / 256 % 256 ≡ 0 = omega arith in rw (z, three_octets n k)

wire_header :
    (m : ℕ) (p more : Octets)
    → length p ≤ m
    → length p < 2 ^ 24
    → decode_header m (wire p ++ more) ≡ some (record { frame_type = 0; frame_length = length p })
unfolding decode_header
wire_header m p more h k =
    let t : ltb m (length p) ≡ false = ground arith in rw (wire_fields p more k, t)

length-wire : (p : Octets) → length (wire p) ≡ 4 + length p
unfolding wire
length-wire p = omega (arith, length-append (be 4 (length p)) p, length-be 4 (length p))

wire_payload : (p more : Octets) → drop 4 (wire p ++ more) ≡ p ++ more
unfolding wire
wire_payload p more =
    ap (drop 4) (append_assoc (be 4 (length p)) p more)
    ∙ drop-append 4 (be 4 (length p)) (p ++ more) (sym (length-be 4 (length p)))

wires-Holds :
    (sender receiver : Socket) (ps : List Octets)
    → All (Fits sender receiver) ps
    → Holds receiver.max_length (wires ps) ps []
wires-Holds sender receiver [] h = short (omega arith)
wires-Holds sender receiver (p ∷ ps) (h, hs) =
    let m = receiver.max_length in
    let head : Header = record { frame_type = 0; frame_length = length p } in
    let f : IsFrame m head (wire p ++ wires ps) = record {
      read = wire_header m p (wires ps) h.1 h.2;
      is_string = refl;
      enough = omega (arith, length-wire p, length-append (wire p) (wires ps));
    } in
    let k : Holds m (drop (4 + length p) (wire p ++ wires ps)) ps [] =
      subst (λ x. Holds m x ps [])
        (sym (drop-append (4 + length p) (wire p) (wires ps) (sym (length-wire p))))
        (wires-Holds sender receiver ps hs) in
    subst (λ x. Holds m (wire p ++ wires ps) (x ∷ ps) [])
      (ap (take (length p)) (wire_payload p (wires ps)) ∙ take-append (length p) p (wires ps) refl)
      (frame head f k)

abbrev sent : Octets → Socket → Socket
sent p c = record c { log = wrote p ∷ wrote (be 4 (length p)) ∷ c.log }

send_string-fits :
    (p : Octets) (c : Socket) → length p ≤ c.max_length_send → (send_string p c).1 ≡ sent p c
unfolding send_string emit
send_string-fits p c h = ground arith

send_all-wires :
    (sender receiver : Socket) (ps : List Octets)
    → All (Fits sender receiver) ps
    → written_of (send_all ps sender).log ≡ written_of sender.log ++ wires ps
unfolding wire
send_all-wires sender receiver [] h = sym (append-nil (written_of sender.log))
send_all-wires sender receiver (p ∷ ps) (h, hs) =
    ap (λ c. written_of (send_all ps c).log) (send_string-fits p sender h.0)
    ∙ send_all-wires (sent p sender) receiver ps hs
    ∙ logged
  where
    logged :
        written_of (sent p sender).log ++ wires ps ≡ written_of sender.log ++ (wire p ++ wires ps)
    logged =
        ap (λ x. x ++ wires ps) (append_assoc (written_of sender.log) (be 4 (length p)) p)
        ∙ append_assoc (written_of sender.log) (wire p) (wires ps)

-- The strings that one side sends by sendString, each within both sides' limits and below 2^24
-- octets, come in the same order and unchanged to the session of the other side, however the
-- octets are cut into chunks; data_received never raises and at the end nothing is left in the
-- buffer.
pub strings_sent_received :
    (ps cs : List Octets) (sender receiver : Socket)
    → sender.log ≡ []
    → All (Fits sender receiver) ps
    → receiver.session ≡ true
    → receiver.buffer ≡ []
    → receiver.header ≡ none
    → join cs ≡ written_of (send_all ps sender).log
    → IsAllDelivered ps [] receiver (receive_all cs receiver)
strings_sent_received ps cs sender receiver n f s b h e =
    receive_all-IsAllDelivered receiver.max_length cs [] ps receiver
      (record { has_session = s; limit_is = refl; header_is = inl h })
      (inl (omega (arith, ap length b)))
      (subst (λ x. Holds receiver.max_length x ps [])
        (sym (
          ap (λ x. x ++ join cs) b
          ∙ e
          ∙ send_all-wires sender receiver ps f
          ∙ ap (λ l. written_of l ++ wires ps) n))
        (wires-Holds sender receiver ps f))

full_fields :
    (payload more : Octets)
    → length payload ≡ 2 ^ 24
    → header_fields (wire payload ++ more) ≡ record { frame_type = 1; frame_length = 0 }
unfolding header_fields wire be unpack_from
full_fields payload more h = rw h

accepted_length :
    (payload : Octets) (c : Socket)
    → length payload ≤ c.max_length_send
    → (send_string payload c).0 ≡ ok tt
unfolding send_string
accepted_length payload c h = ground arith

add-one : (n : ℕ) → n + 1 ≡ suc n
add-one n = omega arith

full_header :
    (payload more : Octets)
    → length payload ≡ 2 ^ 24
    → decode_header (2 ^ 24) (wire payload ++ more)
      ≡ some (record { frame_type = 1; frame_length = 0 })
unfolding decode_header
full_header payload more h = rw (full_fields payload more h)

-- A round at the header of a ping.
ping_round :
    (rest : Octets) (c : Socket)
    → 4 ≤ length rest
    → c.header ≡ none
    → decode_header c.max_length rest ≡ some (record { frame_type = 1; frame_length = 0 })
    → round rest c ≡ (ended (raised Error.not_implemented), c)
unfolding round take_frame after_frame deliver current_header raise
ping_round rest c l n h =
    let t : leb 4 (length rest) ≡ true = ground arith in
    let z : leb 0 (length rest - 4) ≡ true = ground arith in rw (t, n, h, z) refl

-- What is written by a sender that has written nothing before.
written_alone :
    (p more : Octets) (c : Socket) → c.log ≡ [] → written_of (sent p c).log ++ more ≡ wire p ++ more
unfolding wire
written_alone p more c n = rw n refl

after_round :
    (rest : Octets) (c : Socket)
    → round rest c ≡ (ended (raised Error.not_implemented), c)
    → conclude_run (process_frames (length rest + 1) rest c) ≡ some (err Error.not_implemented, c)
unfolding process_frames conclude conclude_run
after_round rest c h =
    rw (add-one (length rest))
      (rw (conclude_run, ap (λ x. x.0) h) (ap (λ x. some (err Error.not_implemented, x.1)) h))

-- If both sides have the limit 2^24, then sendString of a string of exactly 2^24 octets returns,
-- and what it has written as its first octets, with any octets behind it, begins with the header
-- of a ping of length 0 and makes data_received of a receiver with an empty buffer raise
-- NotImplementedError, without a delivery and with nothing taken off the buffer.
pub full_length_raises :
    (payload more : Octets) (sender receiver : Socket)
    → length payload ≡ 2 ^ 24
    → sender.max_length_send ≡ 2 ^ 24
    → sender.log ≡ []
    → receiver.max_length ≡ 2 ^ 24
    → receiver.header ≡ none
    → receiver.buffer ≡ []
    → let sent = send_string payload sender in
      let octets = written_of sent.1.log ++ more in
      (sent.0 ≡ ok tt)
      × (decode_header receiver.max_length octets
          ≡ some (record { frame_type = 1; frame_length = 0 }))
      × (frames_received octets receiver
          ≡ some (err Error.not_implemented, record receiver { buffer = octets }))
unfolding frames_received
full_length_raises payload more sender receiver h k n m e b =
    let octets = written_of (send_string payload sender).1.log ++ more in
    let w : octets ≡ wire payload ++ more =
      ap (λ c. written_of c.log ++ more) (send_string-fits payload sender (omega arith))
      ∙ written_alone payload more sender n in
    let c : Socket = record receiver { buffer = octets } in
    let h' =
      ap (λ x. decode_header x octets) m
      ∙ ap (decode_header (2 ^ 24)) w
      ∙ full_header payload more h in
    let four = length-append (wire payload) more in
    (
      accepted_length payload sender (omega arith),
      h',
      ap (λ bs. conclude_run (process_frames (length bs + 1) bs (record receiver { buffer = bs })))
            (ap (λ bs. bs ++ octets) b)
          ∙ after_round octets c
              (ping_round octets c (omega (arith, ap length w, four, length-wire payload)) e h'),
    )
