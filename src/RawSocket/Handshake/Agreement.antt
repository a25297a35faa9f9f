-- ===== src/RawSocket/Handshake/Agreement.antt =====
-- The two sides of the handshake together.
use autobahn_python.Base.{
  ℕ, ◌+◌, ◌*◌, ◌/◌, ◌^◌, ◌<◌, ◌≤◌, ◌≢◌, Octets, [], ◌∷◌, ◌++◌, Bool, true, false, ◌&&◌, none, some,
  ==_iff, leb, ◌==◌, if◌then◌else◌, drop, length, bit_and, bit_or, Error, ok, err, ◌≡◌, refl, ap,
  ◌∙◌, arith, all_below, all_below_sound,
}
use autobahn_python.RawSocket.{Socket, started, wrote, emit, abort, frames_received}
use autobahn_python.RawSocket.Handshake.{
  accepted, thrown, parse_handshake, client_check, member, handshake_octets, refuse, server_answer,
  process_handshake, start_session, rest_received, open_session, after_handshake,
  handshake_received, data_received, connection_made,
}

-- The exponent and the serializer share an octet.
back : ℕ → ℕ → Bool
back lexp ser = let b = bit_or (lexp * 2 ^ 4) ser in b / 2 ^ 4 == lexp && bit_and b 0x0f == ser

table : all_below 16 (λ l. all_below 16 (back l)) ≡ true
unfolding all_below back
table = refl

octet_fields :
    (lexp ser : ℕ)
    → lexp < 16
    → ser < 16
    → let b = bit_or (lexp * 2 ^ 4) ser in (b / 2 ^ 4 ≡ lexp) × (bit_and b 0x0f ≡ ser)
unfolding back
octet_fields lexp ser hl hs = ground (
  arith,
  all_below_sound 16 (back lexp) ser (all_below_sound 16 (λ l. all_below 16 (back l)) lexp table hl)
      hs,
)

ser_low : (ser : ℕ) → ser < 16 → bit_and ser 0x0f ≡ ser
ser_low ser h =
    (==_iff _ _).0 (all_below_sound 16 (λ s. bit_and s 0x0f == s) ser (unfold all_below in refl) h)

-- An object with the peer's handshake in its buffer.
abbrev with_octets : Octets → Socket → Socket
with_octets octets c = record c { buffer = octets }

parsed :
    (lexp ser : ℕ) (c : Socket)
    → lexp < 16
    → ser < 16
    → parse_handshake (with_octets (handshake_octets lexp ser) c) ≡ (
      accepted (ser, lexp),
      record (with_octets (handshake_octets lexp ser) c) { max_length_send = 2 ^ (lexp + 9) },
    )
unfolding parse_handshake handshake_octets
parsed lexp ser c hl hs = let b = octet_fields lexp ser hl hs in rw (b.0, b.1)

-- The server's answer to a serializer that it has.
server_accepts :
    (lexp ser : ℕ) (c : Socket)
    → lexp < 16
    → ser < 16
    → c.is_server ≡ true
    → member ser c.serializers ≡ true
    → process_handshake (with_octets (handshake_octets lexp ser) c) ≡ (
      accepted tt,
      emit
          (wrote (handshake_octets c.length_exp ser))
          (record (with_octets (handshake_octets lexp ser) c) { max_length_send = 2 ^ (lexp + 9) }),
    )
unfolding process_handshake server_answer
server_accepts lexp ser c hl hs e m = rw (parsed lexp ser c hl hs, e, m) (rw (ser_low ser hs))

-- The client's check of that answer.
client_accepts :
    (lexp : ℕ) (c : Socket)
    → lexp < 16
    → c.serializer_id < 16
    → c.serializer_id ≢ 0
    → c.is_server ≡ false
    → process_handshake (with_octets (handshake_octets lexp c.serializer_id) c) ≡ (
      accepted tt,
      record (with_octets (handshake_octets lexp c.serializer_id) c) {
        max_length_send = 2 ^ (lexp + 9);
      },
    )
unfolding process_handshake client_check
client_accepts lexp c hl hs n e =
    let z : (c.serializer_id == 0) ≡ false = ground arith in
    let t : (c.serializer_id == c.serializer_id) ≡ true = ground arith in
    rw (parsed lexp c.serializer_id c hl hs, e, z, t)

abbrev unopened : Socket → Socket
unopened c = record c { buffer = []; header = none; handshake_done = false }

server_made : (c : Socket) → c.is_server ≡ true → connection_made c ≡ unopened c
unfolding connection_made
server_made c e =
    ap
      (λ (b : Bool).
        if b
        then unopened c
        else emit (wrote (handshake_octets c.length_exp c.serializer_id)) (unopened c))
      e

client_made :
    (c : Socket)
    → c.is_server ≡ false
    → connection_made c ≡ emit (wrote (handshake_octets c.length_exp c.serializer_id)) (unopened c)
unfolding connection_made
client_made c e =
    ap
      (λ (b : Bool).
        if b
        then unopened c
        else emit (wrote (handshake_octets c.length_exp c.serializer_id)) (unopened c))
      e

-- The object after the handshake.
abbrev opened_with : ℕ → Socket → Socket
opened_with lexp c = record c {
  buffer = [];
  handshake_done = true;
  session = true;
  max_length_send = 2 ^ (lexp + 9);
}

session_opened :
    (lexp ser : ℕ) (d : Socket)
    → d.start ≡ started
    → d.buffer ≡ handshake_octets lexp ser
    → open_session d ≡ some (ok tt, record d { buffer = []; handshake_done = true; session = true })
unfolding open_session start_session rest_received handshake_octets
session_opened lexp ser d s e =
    let opened = record d { buffer = []; handshake_done = true; session = true } in
    ap
      (λ t.
        rest_received (start_session t (record d { handshake_done = true })).0
          (start_session t (record d { handshake_done = true })).1)
      s
    ∙ ap
        (λ b.
          if leb 1 (length (drop 4 b))
          then frames_received (drop 4 b) opened
          else some (ok tt, opened))
        e

handshake_starts :
    (octets : Octets) (c : Socket)
    → c.handshake_done ≡ false
    → c.buffer ≡ []
    → 4 ≤ length octets
    → data_received octets c ≡ handshake_received (with_octets octets c)
unfolding data_received
handshake_starts octets c h b l =
    let t : leb 4 (length octets) ≡ true = ground arith in
    ap
      (λ x.
        if c.handshake_done
        then frames_received octets c
        else if leb 4 (length (x ++ octets))
        then handshake_received (with_octets (x ++ octets) c)
        else some (ok tt, with_octets (x ++ octets) c))
      b
    ∙ ap
        (λ (x : Bool).
          if x
          then frames_received octets c
          else if leb 4 (length octets)
          then handshake_received (with_octets octets c)
          else some (ok tt, with_octets octets c))
        h
    ∙ ap
        (λ (x : Bool).
          if x
          then handshake_received (with_octets octets c)
          else some (ok tt, with_octets octets c))
        t

received_octets :
    (lexp ser : ℕ) (c d : Socket)
    → c.handshake_done ≡ false
    → c.buffer ≡ []
    → process_handshake (with_octets (handshake_octets lexp ser) c) ≡ (accepted tt, d)
    → d.start ≡ started
    → d.buffer ≡ handshake_octets lexp ser
    → data_received (handshake_octets lexp ser) c
      ≡ some (ok tt, record d { buffer = []; handshake_done = true; session = true })
unfolding handshake_received after_handshake
received_octets lexp ser c d h b p s e =
    handshake_starts (handshake_octets lexp ser) c h b four
    ∙ ap (λ x. after_handshake x.0 x.1) p
    ∙ session_opened lexp ser d s e
  where
    four : 4 ≤ length (handshake_octets lexp ser)
    four = unfold handshake_octets in omega arith

-- The session is there, and strings up to the peer's limit may be sent.
pub record IsOpen (lexp : ℕ) (c : Socket) : Type 0 where
  pub done : c.handshake_done ≡ true
  pub has_session : c.session ≡ true
  pub limit : c.max_length_send ≡ 2 ^ (lexp + 9)
  pub empty : c.buffer ≡ []
  pub no_header : c.header ≡ none

-- If the server has the client's serializer, whose number is not 0, and both sessions start, then
-- the handshake that the client writes is answered by the server with the same serializer, and
-- each side has a session and the limit for its strings that the other side announced.
pub handshake_agrees :
    (client server : Socket)
    → client.is_server ≡ false
    → server.is_server ≡ true
    → client.length_exp < 16
    → server.length_exp < 16
    → client.serializer_id < 16
    → client.serializer_id ≢ 0
    → member client.serializer_id server.serializers ≡ true
    → client.start ≡ started
    → server.start ≡ started
    → let hello = handshake_octets client.length_exp client.serializer_id in
      let answer = handshake_octets server.length_exp client.serializer_id in
      ((connection_made client).log ≡ wrote hello ∷ client.log)
      × ((s : Socket) × (data_received hello (connection_made server) ≡ some (ok tt, s))
          × (s.log ≡ wrote answer ∷ server.log)
          × IsOpen client.length_exp s)
      × ((c : Socket) × (data_received answer (connection_made client) ≡ some (ok tt, c))
          × IsOpen server.length_exp c)
unfolding emit
handshake_agrees client server ic is hc hs hi n m sc ss =
    let cm = client_made client ic in
    let sm = server_made server is in
    let c1 =
      emit (wrote (handshake_octets client.length_exp client.serializer_id)) (unopened client) in
    let s2 =
      received_octets client.length_exp client.serializer_id (unopened server) _ refl refl
        (server_accepts client.length_exp client.serializer_id (unopened server) hc hi is m) ss
        refl in
    let c2 =
      received_octets server.length_exp client.serializer_id c1 _ refl refl
        (client_accepts server.length_exp c1 hs hi n ic) sc refl in
    (
      ap (λ x. x.log) cm,
      (
        _,
        ap (data_received (handshake_octets client.length_exp client.serializer_id)) sm ∙ s2,
        refl,
        record { done = refl; has_session = refl; limit = refl; empty = refl; no_header = refl },
      ),
      (
        _,
        ap (data_received (handshake_octets server.length_exp client.serializer_id)) cm ∙ c2,
        record { done = refl; has_session = refl; limit = refl; empty = refl; no_header = refl },
      ),
    )

server_refuses :
    (lexp ser : ℕ) (c : Socket)
    → lexp < 16
    → ser < 16
    → c.is_server ≡ true
    → c.session ≡ false
    → member ser c.serializers ≡ false
    → process_handshake (with_octets (handshake_octets lexp ser) c) ≡ (
      thrown Error.transport_lost,
      record (with_octets (handshake_octets lexp ser) c) { max_length_send = 2 ^ (lexp + 9) },
    )
unfolding process_handshake server_answer refuse abort
server_refuses lexp ser c hl hs is n m = rw (parsed lexp ser c hl hs, is, m, n)

-- When a client asks for a serializer that the server does not have, data_received raises
-- TransportLost and the server writes no answer.
pub unsupported_serializer_raises :
    (lexp ser : ℕ) (server : Socket)
    → lexp < 16
    → ser < 16
    → server.is_server ≡ true
    → server.session ≡ false
    → member ser server.serializers ≡ false
    → (s : Socket) × (data_received (handshake_octets lexp ser) (connection_made server)
        ≡ some (err Error.transport_lost, s))
      × (s.log ≡ server.log)
unfolding handshake_received after_handshake
unsupported_serializer_raises lexp ser server hl hs is n m =
    let octets = handshake_octets lexp ser in
    (
      _,
      ap (data_received octets) (server_made server is)
          ∙ handshake_starts octets (unopened server) refl refl
              (unfold handshake_octets in omega arith)
          ∙ ap (λ x. after_handshake x.0 x.1)
              (server_refuses lexp ser (unopened server) hl hs is n m),
      refl,
    )
