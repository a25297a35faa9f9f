-- ===== src/WebSocket/Process/Termination.antt =====
-- The rounds of the loop of `consumeData`, and what each takes away.
use autobahn_python.Base.{
  ℕ, ◌+◌, ◌-◌, ◌*◌, ◌≤◌, ◌<◌, Octets, [], ◌∷◌, Bool, true, false, ◌||◌, leb, ◌==◌, if◌then◌else◌,
  length, drop, take, length-drop, length-take, Option, none, some, ◌≡◌, ◌≢◌, refl, subst, ap, ◌∙◌,
  arith, inl, inr, ◌⊎◌, Result, ok, err, Keeps-gets, Ensures, Ensures-kept, Ensures-bind, min,
  Ensures-modify, Ensures-pure, Ensures-if, Ensures-gets, pure, gets, modify, ◌>>=◌, ◌>>◌,
}
use autobahn_python.WebSocket.Conn.{Conn, FrameHeader}
use autobahn_python.WebSocket.Xor.{Masker, pointer, process}
use autobahn_python.WebSocket.Frame.{
  Opening, opening, header_len, extension_len, mask_len, payload_length, frame_mask,
}
use autobahn_python.WebSocket.Header.{enter_frame, frame_header, frame_masker}
use autobahn_python.WebSocket.Receive.{on_frame_begin}
use autobahn_python.WebSocket.Process.{
  process_data, process_in, process_opening, process_payload, after_payload, read_header,
  take_payload, frame_complete, leave_frame, on_frame_end, has_data,
}
use autobahn_python.WebSocket.Process.Stable.{Stable-Neutral}
use autobahn_python.WebSocket.Process.Handlers.{
  run_checks-Keeps, on_frame_begin-Keeps, on_frame_data-Keeps, finish_frame-Keeps,
}
use autobahn_python.WebSocket.Process.Measure.{
  At, At-Stable, Within, Fits, in_frame, measure, Ends, stopped, smaller, pointer-process,
  pointer-frame_masker, no_data, different, left_At,
}

module _ (b : Octets) (m : Masker) (f : FrameHeader) (k : ℕ) (w : pointer m ≤ f.length_field)
    (h : 2 * length b < k) where
  -- After `onFrameEnd`, if the frame was complete.
  Left : Result Bool → Conn → Type 0
  Left (err _) c = At b (some f) m c
  Left (ok true) c = At b (some f) m c
  Left (ok false) c = At b none m c ⊎ (At b (some f) m c × (length b ≡ 0))

  on_frame_end-Left : Ensures (At b (some f) m) Left (on_frame_end f)
  unfolding on_frame_end Left
  on_frame_end-Left =
      Ensures-kept (finish_frame-Keeps (Stable-Neutral (At-Stable b (some f) m)) f) (λ e s p. p)
        (λ stop.
          Ensures-if stop (λ _. Ensures-pure true (λ s p. p))
            (λ _.
              Ensures-modify leave_frame (λ s p. left_At s p) (Ensures-pure false (λ s p. inl p))))

  go_on_end :
      (stop : Bool) → Ensures (Left (ok stop)) (Ends k) (if stop then pure false else has_data)
  unfolding Left has_data pure gets
  go_on_end true = record { holds = λ s p. stopped k (ok false) s (λ e. absurd (cc)) w p }
  go_on_end false = record {
    holds = λ s p. elim p [
      | inl q ↦ smaller k (has_data s).0 s (omega arith) tt q
      | inr q ↦ stopped k (has_data s).0 s (no_data s (ap length q.0.buffer_is ∙ q.1)) w q.0
    ];
  }

  after_payload-Ends :
      (pointer m ≢ f.length_field → length b ≡ 0)
      → (payload : Octets) → Ensures (At b (some f) m) (Ends k) (after_payload f payload)
  unfolding after_payload Left frame_complete
  after_payload-Ends z payload =
      Ensures-kept (on_frame_data-Keeps (Stable-Neutral (At-Stable b (some f) m)) f payload)
        (λ e s p. stopped k (err e) s (λ q. absurd (cc)) w p)
        (λ stop.
          Ensures-if stop
            (λ _. Ensures-pure false (λ s p. stopped k (ok false) s (λ q. absurd (cc)) w p))
            (λ _. Ensures-gets (λ complete.
              Ensures-bind Left
                (Ensures-if complete (λ _. record { holds = λ s p. on_frame_end-Left.holds s p.0 })
                  (λ e. Ensures-pure false (λ s p. inr (
                    p.0,
                    z (λ q.
                        different (pointer s.rx.current_frame_masker) f.length_field complete p.1 e
                          (ap pointer p.0.masker_is ∙ q)),
                  ))))
                (λ e s p. stopped k (err e) s (λ q. absurd (cc)) w p) go_on_end)))

process_payload-Ends :
    (f : FrameHeader) (c : Conn)
    → c.rx.current_frame ≡ some f
    → pointer c.rx.current_frame_masker ≤ f.length_field
    → Ends (2 * length c.buffer + 1) (process_payload f c).0 (process_payload f c).1
unfolding process_payload ◌>>=◌ take_payload
process_payload-Ends f c e w =
    let m = c.rx.current_frame_masker in
    let rest = f.length_field - pointer m in
    let moved : pointer (process m (take rest c.buffer)).1
        ≡ pointer m + min rest (length c.buffer) =
      pointer-process m (take rest c.buffer)
      ∙ ap (λ n. pointer m + n) (length-take rest c.buffer) in
    let left : length (drop rest c.buffer) ≡ length c.buffer - rest = length-drop rest c.buffer in
    (after_payload-Ends (drop rest c.buffer) (process m (take rest c.buffer)).1 f
        (2 * length c.buffer + 1) (omega arith) (omega arith) (λ n. ground arith)
        (process m (take rest c.buffer)).0).holds
      (take_payload f c).1 (record { buffer_is = refl; frame_is = e; masker_is = refl })

-- Outside of a frame.
module _ (o : Opening) (rest : Octets) (k : ℕ) (h : 2 * length rest + 1 < k) where
  Begun : Bool → Conn → Type 0
  Begun v =
      At (drop (extension_len o + mask_len o) rest) (some (frame_header o rest))
        (frame_masker v (frame_mask o rest) (payload_length o rest))

  in_range :
      (v : Bool)
      → Within
          (some (frame_header o rest))
          (frame_masker v (frame_mask o rest) (payload_length o rest))
  unfolding frame_header
  in_range v = omega (arith, pointer-frame_masker v (frame_mask o rest) (payload_length o rest))

  ended : (v : Bool) (r : Result Bool) (c : Conn) → Begun v c → Ends k r c
  unfolding Begun
  ended v r c p =
      smaller k r c (omega (arith, length-drop (extension_len o + mask_len o) rest)) (in_range v) p

  Begun-Ends :
      (v : Bool)
      → Ensures (Begun v) (Ends k) (do
        on_frame_begin (frame_header o rest)
        more ← has_data
        pure (payload_length o rest == 0 || more))
  unfolding has_data Begun
  Begun-Ends v =
      Ensures-kept (on_frame_begin-Keeps (Stable-Neutral (At-Stable _ _ _)) (frame_header o rest))
        (λ e s p. ended v (err e) s p)
        (λ _. Ensures-gets (λ more. Ensures-pure _ (λ s p. ended v (ok _) s p.0)))

  entered-Ends :
      (b : Octets) (m : Masker)
      → Ensures (At b none m) (Ends k) (
          modify (enter_frame o rest) >> (do
            on_frame_begin (frame_header o rest)
            more ← has_data
            pure (payload_length o rest == 0 || more)))
  unfolding ◌>>=◌ modify enter_frame Begun
  entered-Ends b m = record {
    holds = λ c p.
        (Begun-Ends c.cfg.apply_mask).holds (enter_frame o rest c)
          (record { buffer_is = refl; frame_is = refl; masker_is = refl });
  }

  read_header-Ends : (b : Octets) (m : Masker) → Ensures (At b none m) (Ends k) (read_header o rest)
  unfolding read_header
  read_header-Ends b m =
      Ensures-kept (run_checks-Keeps (Stable-Neutral (At-Stable b none m)) _)
        (λ e s p. stopped k (err e) s (λ q. absurd (cc)) tt p)
        (λ stop.
          Ensures-if stop
            (λ _. Ensures-pure false (λ s p. stopped k (ok false) s (λ q. absurd (cc)) tt p))
            (λ _. entered-Ends b m))

stop_here : (b : Octets) (m : Masker) (k : ℕ) → Ensures (At b none m) (Ends k) (pure false)
stop_here b m k = Ensures-pure false (λ s p. stopped k (ok false) s (λ q. absurd (cc)) tt p)

process_opening-Ends :
    (b : Octets) (m : Masker) → Ensures (At b none m) (Ends (2 * length b)) (process_opening b)
unfolding process_opening
process_opening-Ends [] m = stop_here [] m _
process_opening-Ends (x ∷ []) m = stop_here (x ∷ []) m _
process_opening-Ends (x ∷ y ∷ rest) m =
    let b : Octets = x ∷ y ∷ rest in
    Ensures-kept (Keeps-gets (λ c. c)) (λ e s p. stopped _ (err e) s (λ q. absurd (cc)) tt p)
      (λ c.
        Ensures-kept (run_checks-Keeps (Stable-Neutral (At-Stable b none m)) _)
          (λ e s p. stopped _ (err e) s (λ q. absurd (cc)) tt p)
          (λ stop.
            Ensures-if stop (λ _. stop_here b m _)
              (λ _.
                Ensures-if (leb (header_len (opening x y)) (length rest + 2))
                  (λ _. read_header-Ends (opening x y) rest _ (omega arith) b m)
                  (λ _. stop_here b m _))))

process_in-Ends :
    (f : Option FrameHeader) (c : Conn)
    → c.rx.current_frame ≡ f
    → Within f c.rx.current_frame_masker
    → Ends (2 * length c.buffer + in_frame f) (process_in f c).0 (process_in f c).1
unfolding process_in ◌>>=◌ gets
process_in-Ends none c e w =
    subst (λ k. Ends k (process_opening c.buffer c).0 (process_opening c.buffer c).1) (omega arith)
      ((process_opening-Ends c.buffer c.rx.current_frame_masker).holds c
        (record { buffer_is = refl; frame_is = e; masker_is = refl }))
process_in-Ends (some f) c e w = process_payload-Ends f c e w

-- A round of the loop lowers the measure, or it is the last one.
pub process_data-Ends : (c : Conn) → Fits c → Ends (measure c) (process_data c).0 (process_data c).1
unfolding process_data ◌>>=◌ gets
process_data-Ends c w = process_in-Ends c.rx.current_frame c refl w
