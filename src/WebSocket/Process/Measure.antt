-- ===== src/WebSocket/Process/Measure.antt =====
-- What the loop of `consumeData` works off: the buffer and the frame at hand.
use autobahn_python.Base.{
  ℕ, ◌+◌, ◌*◌, ◌≤◌, ◌<◌, Octets, Bool, true, false, ◌==◌, length, Option, none, some, ◌≡◌, ◌≢◌,
  refl, sym, subst, ap, ◌∙◌, arith, Result, ok, gets,
}
use autobahn_python.WebSocket.Conn.{Conn, FrameHeader, emit}
use autobahn_python.WebSocket.Xor.{
  Masker, null, simple, shifted, pointer, process, create_xor_masker,
}
use autobahn_python.WebSocket.Close.{drop_connection, note_close_sent, note_failed}
use autobahn_python.WebSocket.Header.{frame_masker}
use autobahn_python.WebSocket.Process.{leave_frame, has_data}
use autobahn_python.WebSocket.Process.Stable.{Stable}

-- The buffer, the frame at hand and its masker are these.
pub record At (b : Octets) (f : Option FrameHeader) (m : Masker) (c : Conn) : Type 0 where
  pub buffer_is : c.buffer ≡ b
  pub frame_is : c.rx.current_frame ≡ f
  pub masker_is : c.rx.current_frame_masker ≡ m

module _ (b : Octets) (f : Option FrameHeader) (m : Masker) where
  pub At-Stable : Stable (At b f m)
  unfolding drop_connection note_close_sent note_failed emit
  At-Stable = record {
    quieted = λ c d q p. record {
      buffer_is = q.buffer_same ∙ p.buffer_is;
      frame_is = ap (λ r. r.current_frame) q.rx_same ∙ p.frame_is;
      masker_is = ap (λ r. r.current_frame_masker) q.rx_same ∙ p.masker_is;
    };
    counted = λ c s p. ground arith;
    timed = λ c t p. ground arith;
    called = λ c ks p. ground arith;
    clocked = λ c n p. ground arith;
    received = λ c r e e' p. record {
      buffer_is = p.buffer_is;
      frame_is = e ∙ p.frame_is;
      masker_is = e' ∙ p.masker_is;
    };
    noted = λ c x e p. ground arith;
    noticed = λ c o e p. ground arith;
    delivered = λ c bs b' e p. ground arith;
    dropped = λ c abort p. ground arith;
    close_sent = λ code reason reply c p. ground arith;
    failing = λ c p. ground arith;
  }

-- The pointer of the masker stays within the frame.
abbrev pub Within : Option FrameHeader → Masker → Type 0
Within none m = Unit {0}
Within (some f) m = pointer m ≤ f.length_field

abbrev pub Fits : Conn → Type 0
Fits c = Within c.rx.current_frame c.rx.current_frame_masker

abbrev pub in_frame : Option FrameHeader → ℕ
in_frame none = 0
in_frame (some _) = 1

abbrev pub measure : Conn → ℕ
measure c = 2 * length c.buffer + in_frame c.rx.current_frame

-- After a round: the pointer is in range, and the measure is below `k` if the loop goes on.
pub record Ends (k : ℕ) (r : Result Bool) (c : Conn) : Type 0 where
  pub fits : Fits c
  pub less : r ≡ ok true → measure c < k

At-Fits :
    {b : Octets} {f : Option FrameHeader} {m : Masker} (c : Conn) → Within f m → At b f m c → Fits c
At-Fits {f} {m} c w p =
    subst (λ g. Within g c.rx.current_frame_masker) (sym p.frame_is)
      (subst (Within f) (sym p.masker_is) w)

At-measure :
    {b : Octets} {f : Option FrameHeader} {m : Masker} (c : Conn)
    → At b f m c
    → measure c ≡ 2 * length b + in_frame f
At-measure {b} c p =
    ap (λ x. 2 * length x + in_frame c.rx.current_frame) p.buffer_is
    ∙ ap (λ x. 2 * length b + in_frame x) p.frame_is

-- The loop stops here.
pub stopped :
    {b : Octets} {f : Option FrameHeader} {m : Masker} (k : ℕ) (r : Result Bool) (c : Conn)
    → r ≢ ok true
    → Within f m
    → At b f m c
    → Ends k r c
stopped k r c n w p = record { fits = At-Fits c w p; less = λ e. absurd (n e) }

-- The loop may go on.
pub smaller :
    {b : Octets} {f : Option FrameHeader} {m : Masker} (k : ℕ) (r : Result Bool) (c : Conn)
    → 2 * length b + in_frame f < k
    → Within f m
    → At b f m c
    → Ends k r c
smaller k r c h w p = record { fits = At-Fits c w p; less = λ _. omega (arith, At-measure c p) }

pub pointer-process : (m : Masker) (bs : Octets) → pointer (process m bs).1 ≡ pointer m + length bs
unfolding pointer process
pointer-process (null ptr) bs = refl
pointer-process (simple ptr mask) bs = refl
pointer-process (shifted ptr arrays) bs = refl

pub pointer-frame_masker : (b : Bool) (m : Option Octets) (l : ℕ) → pointer (frame_masker b m l) ≡ 0
unfolding frame_masker pointer create_xor_masker
pointer-frame_masker b none l = refl
pointer-frame_masker b (some mask) l = ground arith

pub no_data : (c : Conn) → length c.buffer ≡ 0 → (has_data c).0 ≢ ok true
unfolding has_data gets
no_data c z e = ground arith

pub different : (a b : ℕ) (t : Bool) → (a == b) ≡ t → t ≡ false → a ≢ b
different a b t p q r = ground arith

pub left_At :
    {b : Octets} {f : Option FrameHeader} {m : Masker} (c : Conn)
    → At b f m c
    → At b none m (leave_frame c)
unfolding leave_frame
left_At c p = record { buffer_is = p.buffer_is; frame_is = refl; masker_is = p.masker_is }
