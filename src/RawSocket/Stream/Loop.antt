-- ===== src/RawSocket/Stream/Loop.antt =====
-- The loop of PrefixProtocol.data_received on a stream that comes in parts.
use autobahn_python.Base.{
  ℕ, zero, suc, ◌+◌, ◌≤◌, ◌<◌, Octets, List, [], ◌∷◌, ◌++◌, append-nil, append_assoc, Option, some,
  leb, take, drop, length, length-append, length-drop, ◌≡◌, refl, sym, ap, subst, ◌∙◌, inl, inr,
  arith, Bool-cases,
}
use autobahn_python.RawSocket.{
  Socket, Header, decode_header, round, process_frames, Ending, left, ended,
}
use autobahn_python.RawSocket.Stream.{
  Holds, short, partial, frame, strings_of, decode-append, drop-append_le, take-append_le, IsReady,
  IsRound, round_short, round_partial, round_frame,
}

-- The loop stops with a rest, has delivered `given`, and `strings` are still to come.
pub record IsStopped (max_length : ℕ) (later tail : Octets) (strings : List Octets) (c : Socket)
    (r : Option (Ending × Socket)) : Type 0 where
  pub rest : Octets
  pub after : Socket
  pub given : List Octets
  pub to_come : List Octets
  pub result_is : r ≡ some (left rest, after)
  pub is_ready : IsReady max_length rest after
  pub all_logged : strings_of after.log ≡ strings_of c.log ++ given
  pub in_order : strings ≡ given ++ to_come
  pub holds : Holds max_length (rest ++ later) to_come tail
  pub waits : Holds max_length rest [] rest

module _ (max_length : ℕ) (later tail : Octets) where
  stops_at :
      (fuel : ℕ) (rest : Octets) (strings : List Octets) (c : Socket)
      → (round rest c).0 ≡ ended (left rest)
      → IsReady max_length rest (round rest c).1
      → strings_of (round rest c).1.log ≡ strings_of c.log
      → Holds max_length (rest ++ later) strings tail
      → Holds max_length rest [] rest
      → IsStopped max_length later tail strings c (process_frames (suc fuel) rest c)
  unfolding process_frames
  stops_at fuel rest strings c e r l k wt =
      rw (e, process_frames)
        (record {
          rest = rest;
          after = (round rest c).1;
          given = [];
          to_come = strings;
          result_is = refl;
          is_ready = r;
          all_logged = l ∙ sym (append-nil (strings_of c.log));
          in_order = refl;
          holds = k;
          waits = wt;
        })

  stops :
      (fuel : ℕ) (rest : Octets) (strings : List Octets) (c d : Socket)
      → round rest c ≡ (ended (left rest), d)
      → IsReady max_length rest d
      → strings_of d.log ≡ strings_of c.log
      → Holds max_length (rest ++ later) strings tail
      → Holds max_length rest [] rest
      → IsStopped max_length later tail strings c (process_frames (suc fuel) rest c)
  stops fuel rest strings c d e r l k wt =
      stops_at fuel rest strings c (ap (λ x. x.0) e)
        (subst (λ x. IsReady max_length rest x.1) (sym e) r) (ap (λ x. strings_of x.1.log) e ∙ l) k
        wt

  goes_on :
      (fuel : ℕ) (h : Header) (rest : Octets) (strings : List Octets) (c : Socket)
      → IsRound max_length rest c h (round rest c).0 (round rest c).1
      → IsStopped max_length later tail strings
          (round rest c).1
          (process_frames fuel (drop (4 + h.frame_length) rest) (round rest c).1)
      → IsStopped max_length later tail
          (take h.frame_length (drop 4 rest) ∷ strings)
          c
          (process_frames (suc fuel) rest c)
  unfolding process_frames
  goes_on fuel h rest strings c r i =
      rw (r.goes_on, process_frames)
        (record {
          rest = i.rest;
          after = i.after;
          given = take h.frame_length (drop 4 rest) ∷ i.given;
          to_come = i.to_come;
          result_is = i.result_is;
          is_ready = i.is_ready;
          all_logged =
              i.all_logged
              ∙ ap (λ l. l ++ i.given) r.string_logged
              ∙ append_assoc (strings_of c.log) _ i.given;
          in_order = ap (λ l. take h.frame_length (drop 4 rest) ∷ l) i.in_order;
          holds = i.holds;
          waits = i.waits;
        })

  partial-IsReady :
      (h : Header) (rest : Octets) (c : Socket)
      → 4 ≤ length rest
      → decode_header max_length rest ≡ some h
      → IsReady max_length rest c
      → IsReady max_length rest (record c { header = some h })
  partial-IsReady h rest c l d r = record {
    has_session = r.has_session;
    limit_is = r.limit_is;
    header_is = inr (h, refl, d, l);
  }

  -- A round at a buffer that has a whole header.
  full_round :
      (fuel : ℕ) (rest whole : Octets) (strings : List Octets) (c : Socket)
      → ((rest' : Octets) (strings' : List Octets) (c' : Socket)
          → length rest' < fuel
          → IsReady max_length rest' c'
          → Holds max_length (rest' ++ later) strings' tail
          → IsStopped max_length later tail strings' c' (process_frames fuel rest' c'))
      → length rest < suc fuel
      → 4 ≤ length rest
      → IsReady max_length rest c
      → whole ≡ rest ++ later
      → Holds max_length whole strings tail
      → IsStopped max_length later tail strings c (process_frames (suc fuel) rest c)
  full_round fuel rest whole strings c ih f l r e (short s) =
      absurd (omega (arith, ap length e, length-append rest later))
  full_round fuel rest whole strings c ih f l r e (partial h d t l' s) =
      let d' : decode_header max_length rest ≡ some h =
        sym (decode-append max_length rest later l) ∙ ap (decode_header max_length) (sym e) ∙ d in
      stops fuel rest strings c (record c { header = some h })
        (round_partial max_length rest c h l d'
          (omega (arith, ap length e, length-append rest later)) r)
        (partial-IsReady h rest c l d' r) refl
        (subst (λ w. Holds max_length w strings tail) e (partial h d t l' s))
        (partial h d' t l (omega (arith, ap length e, length-append rest later)))
  full_round fuel rest whole _ c ih f l r e (frame {rest = w} {strings} h g k) =
      let d' : decode_header max_length rest ≡ some h =
        sym (decode-append max_length rest later l)
        ∙ ap (decode_header max_length) (sym e)
        ∙ g.read in
      elim (Bool-cases (leb (4 + h.frame_length) (length rest))) [
        | inl t ↦
            let n : 4 + h.frame_length ≤ length rest = ground arith in
            let i =
              round_frame max_length rest c h
                (record { read = d'; is_string = g.is_string; enough = n }) r in
            let same : take h.frame_length (drop 4 rest) ≡ take h.frame_length (drop 4 w) = sym (
              ap (λ v. take h.frame_length (drop 4 v)) e
              ∙ ap (take h.frame_length) (drop-append_le 4 rest later l)
              ∙ take-append_le h.frame_length (drop 4 rest) later
                  (omega (arith, length-drop 4 rest))) in
            let k' =
              subst (λ v. Holds max_length v strings tail)
                (ap (drop (4 + h.frame_length)) e
                  ∙ drop-append_le (4 + h.frame_length) rest later n)
                k in
            subst
              (λ p.
                IsStopped max_length later tail (p ∷ strings) c (process_frames (suc fuel) rest c))
              same
              (goes_on fuel h rest strings c i (
                ih (drop (4 + h.frame_length) rest) strings (round rest c).1
                  (omega (arith, length-drop (4 + h.frame_length) rest)) i.ready k'))
        | inr t ↦
            stops fuel rest (take h.frame_length (drop 4 w) ∷ strings) c
              (record c { header = some h })
              (round_partial max_length rest c h l d' (ground arith) r)
              (partial-IsReady h rest c l d' r) refl
              (subst (λ v. Holds max_length v (take h.frame_length (drop 4 w) ∷ strings) tail) e
                (frame h g k))
              (partial h d' g.is_string l (ground arith))
      ]

  -- The loop on a part of the stream.
  pub loop :
      (fuel : ℕ) (rest : Octets) (strings : List Octets) (c : Socket)
      → length rest < fuel
      → IsReady max_length rest c
      → Holds max_length (rest ++ later) strings tail
      → IsStopped max_length later tail strings c (process_frames fuel rest c)
  loop zero rest strings c f r k = absurd (omega arith)
  loop (suc fuel) rest strings c f r k = elim (Bool-cases (leb 4 (length rest))) [
    | inr e ↦
        stops fuel rest strings c c (round_short max_length rest c (ground arith)) r refl k
          (short (ground arith))
    | inl e ↦
        full_round fuel rest (rest ++ later) strings c
          (λ rest' strings' c' f' r' k'. loop fuel rest' strings' c' f' r' k') f (ground arith) r
          refl k
  ]
