-- ===== src/WebSocket/Receive/Pong.antt =====
-- The pong to an automatic ping.
use autobahn_python.Base.{
  ℕ, ◌+◌, ◌<◌, ◌≤◌, ◌^◌, ◌≡◌, refl, sym, ap, subst, ◌∙◌, Octets, [], ◌∷◌, ◌++◌, true, false, ◌&&◌,
  ltb, leb, none, some, length, length-append, length-be, be, unpack, unpack-be, take, drop,
  take-append, drop-append, arith,
}
use autobahn_python.WebSocket.Conn.{Conn, got_pong, got_auto_pong, emit}
use autobahn_python.WebSocket.Send.{or_empty}
use autobahn_python.WebSocket.Receive.{same_octets, auto_pong, on_pong, arm_auto_ping}

same_octets_refl : (xs : Octets) → same_octets xs xs ≡ true
unfolding same_octets
same_octets_refl [] = refl
same_octets_refl (x ∷ xs) = ground (arith, same_octets_refl xs)

-- The payload of an automatic ping.
abbrev pub ping_payload : ℕ → ℕ → Octets → Octets
ping_payload sent seq random = be 8 sent ++ (be 4 seq ++ random)

length-ping :
    (sent seq : ℕ) (random : Octets) → length (ping_payload sent seq random) ≡ 12 + length random
length-ping sent seq random = omega (
  arith,
  length-append (be 8 sent) (be 4 seq ++ random),
  length-append (be 4 seq) random,
  length-be 8 sent,
  length-be 4 seq,
)

is_expected :
    (p : Octets)
    → 12 ≤ length p
    → (ltb 0 (length p) && (same_octets p p && leb 12 (length p))) ≡ true
is_expected p h = ground (arith, same_octets_refl p)

sent_back :
    (sent seq : ℕ) (random : Octets)
    → sent < 256 ^ 8
    → unpack (take 8 (ping_payload sent seq random)) ≡ sent
sent_back sent seq random h =
    ap unpack (take-append 8 (be 8 sent) (be 4 seq ++ random) (sym (length-be 8 sent)))
    ∙ unpack-be 8 sent h

seq_back :
    (sent seq : ℕ) (random : Octets)
    → seq < 256 ^ 4
    → unpack (take 4 (drop 8 (ping_payload sent seq random))) ≡ seq
seq_back sent seq random h =
    ap (λ t. unpack (take 4 t))
      (drop-append 8 (be 8 sent) (be 4 seq ++ random) (sym (length-be 8 sent)))
    ∙ ap unpack (take-append 4 (be 4 seq) random (sym (length-be 4 seq)))
    ∙ unpack-be 4 seq h

-- A pong with the payload of the pending automatic ping, which is a time below 2^64 in eight
-- octets, a sequence number below 2^32 in four and any others, is reported with that time and
-- that number and then as a pong; the timeout is no longer armed and no ping is pending.
pub pong_reports_ping :
    (sent seq : ℕ) (random : Octets) (c : Conn)
    → sent < 256 ^ 8
    → seq < 256 ^ 4
    → c.timers.auto_ping_pending ≡ some (ping_payload sent seq random)
    → let p = ping_payload sent seq random in
      let d = on_pong p c in
      (d.log ≡ got_pong p ∷ got_auto_pong sent seq (c.world.time_ns c.clock_reads) p ∷ c.log)
      × (d.timers.auto_ping_timeout_call ≡ false)
      × (d.timers.auto_ping_pending ≡ none)
unfolding on_pong auto_pong arm_auto_ping emit
pong_reports_ping sent seq random c hs hq e =
    let p = ping_payload sent seq random in
    let t : (ltb 0 (length (or_empty c.timers.auto_ping_pending))
          && (same_octets p (or_empty c.timers.auto_ping_pending) && leb 12 (length p)))
        ≡ true =
      subst
        (λ o.
          (ltb 0 (length (or_empty o)) && (same_octets p (or_empty o) && leb 12 (length p))) ≡ true)
        (sym e) (is_expected p (omega (arith, length-ping sent seq random))) in
    rw (t, sent_back sent seq random hs, seq_back sent seq random hq) ((refl, refl, refl))
