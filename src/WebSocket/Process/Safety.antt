-- ===== src/WebSocket/Process/Safety.antt =====
-- What every run of `consumeData` keeps.
use autobahn_python.Base.{
  ℕ, zero, suc, Octets, List, ◌∷◌, Bool, true, false, ◌&&◌, not, Option, some, ◌≡◌, refl, sym,
  subst, ap, ◌∙◌, arith, if◌then◌else◌, Result, ok, err, ◌⊎◌, inl, inr,
}
use mathlib.Core.Option.{some-injective}
use mathlib.Core.Bool.{true≢false}
use autobahn_python.WebSocket.Conn.{
  Conn, State, closed, connecting, closing, opened, proxy_connecting, Output, got_message, got_ping,
  got_pong, got_auto_pong, got_close, wrote, closed_transport, resolved_is_closed, emit, is_closed,
}
use autobahn_python.WebSocket.Header.{enter_frame}
use autobahn_python.WebSocket.Send.Quiet.{resolves, messages, send_control-Quiet}
use autobahn_python.WebSocket.Close.{drop_connection, note_close_sent, note_failed}
use autobahn_python.WebSocket.Close.Sound.{
  IsSound, Quiet-IsSound, drop-IsSound, send_close_frame-IsSound, fail_connection-IsSound,
}
use autobahn_python.WebSocket.Process.{
  process_data, process_loop, consume_data, consume_in, go_on, receive_octets, data_received,
  leave_frame, take_payload, enough,
}
use autobahn_python.WebSocket.Process.Neutral.{Neutral, Framed, is_notice}
use autobahn_python.WebSocket.Process.Stable.{Stable, Stable-Neutral}
use autobahn_python.WebSocket.Process.Handlers.{process_data-Keeps}

notice-resolves :
    (o : Output) (log : List Output) → is_notice o ≡ true → resolves (o ∷ log) ≡ resolves log
notice-resolves (got_ping _) log e = refl
notice-resolves (got_pong _) log e = refl
notice-resolves (got_auto_pong _ _ _ _) log e = refl
notice-resolves (wrote _) log e = absurd (cc)
notice-resolves (closed_transport _) log e = absurd (cc)
notice-resolves resolved_is_closed log e = absurd (cc)
notice-resolves (got_message _ _) log e = absurd (cc)
notice-resolves (got_close _ _ _) log e = absurd (cc)

notice-messages :
    (o : Output) (log : List Output) → is_notice o ≡ true → messages (o ∷ log) ≡ messages log
notice-messages (got_ping _) log e = refl
notice-messages (got_pong _) log e = refl
notice-messages (got_auto_pong _ _ _ _) log e = refl
notice-messages (wrote _) log e = absurd (cc)
notice-messages (closed_transport _) log e = absurd (cc)
notice-messages resolved_is_closed log e = absurd (cc)
notice-messages (got_message _ _) log e = absurd (cc)
notice-messages (got_close _ _ _) log e = absurd (cc)

pub IsSound-Neutral : Neutral IsSound
unfolding emit
IsSound-Neutral = record {
  counted = λ c s p. ground arith;
  timed = λ c t p. ground arith;
  called = λ c ks p. ground arith;
  clocked = λ c n p. ground arith;
  received = λ c r e e' p. ground arith;
  noted = λ c x e p. ground arith;
  noticed = λ c o e p. record {
    resolved_once = notice-resolves o c.log e ∙ p.resolved_once;
    failed_not_open = p.failed_not_open;
  };
  delivered = λ c bs b e p. ground arith;
  dropped = λ c abort p. drop-IsSound abort c p;
  controlled = λ opcode e payload. record {
    after = λ c p. Quiet-IsSound (send_control-Quiet opcode e payload c) p;
  };
  closed_by = send_close_frame-IsSound;
  failed = fail_connection-IsSound;
}

pub IsSound-Framed : Framed IsSound
unfolding enter_frame leave_frame take_payload
IsSound-Framed = record {
  neutral = IsSound-Neutral;
  entered = λ o rest c p. ground arith;
  left = λ c p. ground arith;
  taken = λ f c p. ground arith;
}

-- The connection was failed, and the application has got `n` messages.
abbrev pub FailedWith : ℕ → Conn → Type 0
FailedWith n c = (c.cl.failed_by_me ≡ true) × (messages c.log ≡ n)

module _ (n : ℕ) where
  FailedWith-Stable : Stable (FailedWith n)
  unfolding emit drop_connection note_close_sent note_failed
  FailedWith-Stable = record {
    quieted = λ c d q p. (ap (λ x. x.failed_by_me) q.cl_same ∙ p.0, q.messages_same ∙ p.1);
    counted = λ c s p. p;
    timed = λ c t p. p;
    called = λ c ks p. p;
    clocked = λ c k p. p;
    received = λ c r e e' p. p;
    noted = λ c x e p. (e ∙ p.0, p.1);
    noticed = λ c o e p. (p.0, notice-messages o c.log e ∙ p.1);
    delivered = λ c bs b e p. absurd (true≢false (sym p.0 ∙ e));
    dropped = λ c abort p. ground arith;
    close_sent = λ code reason reply c p. p;
    failing = λ c p. (refl, p.1);
  }

  FailedWith-Framed : Framed (FailedWith n)
  unfolding enter_frame leave_frame take_payload
  FailedWith-Framed = record {
    neutral = Stable-Neutral FailedWith-Stable;
    entered = λ o rest c p. p;
    left = λ c p. p;
    taken = λ f c p. p;
  }

module _ {P : Conn → Type 0} (k : Framed P) where
  step-keeps :
      (b : Bool) (rest : Option (Result (Unit {0}) × Conn)) (c : Conn)
      (r : Result (Unit {0}) × Conn)
      → (rest ≡ some r → P r.1)
      → P c
      → (if b then rest else some (ok tt, c)) ≡ some r
      → P r.1
  step-keeps true rest c r ih p e = ih e
  step-keeps false rest c r ih p e = subst (λ q. P q.1) (some-injective _ _ e) p

  round-keeps :
      (more : Result Bool) (rest : Option (Result (Unit {0}) × Conn)) (c : Conn)
      (r : Result (Unit {0}) × Conn)
      → (rest ≡ some r → P r.1)
      → P c
      → go_on more rest c ≡ some r
      → P r.1
  unfolding go_on
  round-keeps (ok m) rest c r ih p e = step-keeps (m && not (is_closed c.state)) rest c r ih p e
  round-keeps (err x) rest c r ih p e = subst (λ q. P q.1) (some-injective _ _ e) p

  process_loop-keeps :
      (fuel : ℕ) (c : Conn) (r : Result (Unit {0}) × Conn)
      → P c
      → process_loop fuel c ≡ some r
      → P r.1
  unfolding process_loop
  process_loop-keeps zero c r p e = absurd (cc)
  process_loop-keeps (suc fuel) c r p e =
      let q : P (process_data c).1 = (process_data-Keeps k).after c p in
      round-keeps (process_data c).0 (process_loop fuel (process_data c).1) (process_data c).1 r
        (λ e'. process_loop-keeps fuel (process_data c).1 r q e') q e

  module _ (handshake : Conn → Result (Unit {0}) × Conn)
      (h : (d : Conn) → P d → P (handshake d).1) where
    consume_in-keeps :
        (s : State) (c : Conn) (r : Result (Unit {0}) × Conn)
        → P c
        → consume_in s handshake c ≡ some r
        → P r.1
    unfolding consume_in
    consume_in-keeps opened c r p e = process_loop-keeps (enough c) c r p e
    consume_in-keeps closing c r p e = process_loop-keeps (enough c) c r p e
    consume_in-keeps connecting c r p e = subst (λ q. P q.1) (some-injective _ _ e) (h c p)
    consume_in-keeps proxy_connecting c r p e = subst (λ q. P q.1) (some-injective _ _ e) (h c p)
    consume_in-keeps closed c r p e = subst (λ q. P q.1) (some-injective _ _ e) p

-- A sound connection is sound after received octets.
pub data_received-IsSound :
    (handshake : Conn → Result (Unit {0}) × Conn) (octets : Octets) (c : Conn)
    (r : Result (Unit {0}) × Conn)
    → ((d : Conn) → IsSound d → IsSound (handshake d).1)
    → IsSound c
    → data_received handshake octets c ≡ some r
    → IsSound r.1
unfolding data_received consume_data receive_octets
data_received-IsSound handshake octets c r h p e =
    consume_in-keeps IsSound-Framed handshake h c.state (receive_octets octets c) r (ground arith) e

pub loop_state :
    (handshake : Conn → Result (Unit {0}) × Conn) (s : State) (c : Conn)
    → (s ≡ opened) ⊎ (s ≡ closing)
    → consume_in s handshake c ≡ process_loop (enough c) c
unfolding consume_in
loop_state handshake s c (inl e) = ap (λ t. consume_in t handshake c) e
loop_state handshake s c (inr e) = ap (λ t. consume_in t handshake c) e

-- A connection in the state OPEN or CLOSING that was failed stays failed when octets are
-- received, and delivers no message to the application.
pub failed_delivers_nothing :
    (handshake : Conn → Result (Unit {0}) × Conn) (octets : Octets) (c : Conn)
    (r : Result (Unit {0}) × Conn)
    → (c.state ≡ opened) ⊎ (c.state ≡ closing)
    → c.cl.failed_by_me ≡ true
    → data_received handshake octets c ≡ some r
    → (r.1.cl.failed_by_me ≡ true) × (messages r.1.log ≡ messages c.log)
unfolding data_received consume_data receive_octets
failed_delivers_nothing handshake octets c r s f e =
    let d = receive_octets octets c in
    process_loop-keeps (FailedWith-Framed (messages c.log)) (enough d) d r (f, refl)
      (sym (loop_state handshake c.state d s) ∙ e)
