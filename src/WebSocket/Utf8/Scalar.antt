-- ===== src/WebSocket/Utf8/Scalar.antt =====
-- The automaton of utf8validator.py and the encodings of sequences of scalar values.
use autobahn_python.Base.{
  ℕ, zero, suc, ◌+◌, ◌-◌, ◌*◌, ◌≤◌, ◌<◌, Octets, IsByte, All, List, [], ◌∷◌, ◌++◌, length,
  length-append, ◌≡◌, ◌≢◌, refl, sym, ap, ◌∙◌, ◌↔◌, inl, inr, arith, none, some, Option, ◌==◌, ◌&&◌,
  Bool, true, false,
}
use autobahn_python.WebSocket.Utf8.{
  validate_loop, validate, conclude, fresh, Verdict, Utf8Validator,
}
use autobahn_python.WebSocket.Utf8.Table.{class_of, target}
use autobahn_python.WebSocket.Utf8.Run.{
  run, In, run_one, Takes, continue_from, Takes-2, Takes-3, Takes-4, Takes-5, Takes-6, Takes-7,
  Takes-8, validate_loop-run, reject_state, stuck_at_one,
}
use autobahn_python.WebSocket.Utf8.Encode.{
  IsScalar, encode, encode_all, encode_one, encode_two, encode_three, encode_four, run-encode_all,
}

-- A first octet, with where it leads.
data Lead (a : ℕ) : Type 0 where
  ascii : a < 0x80 → Lead a
  two : In 0xc2 0xe0 a → target 0 (class_of a) ≡ 2 → Lead a
  e0 : a ≡ 0xe0 → target 0 (class_of a) ≡ 4 → Lead a
  three : In 0xe1 0xf0 a → a ≢ 0xed → target 0 (class_of a) ≡ 3 → Lead a
  ed : a ≡ 0xed → target 0 (class_of a) ≡ 5 → Lead a
  f0 : a ≡ 0xf0 → target 0 (class_of a) ≡ 6 → Lead a
  four : In 0xf1 0xf4 a → target 0 (class_of a) ≡ 7 → Lead a
  f4 : a ≡ 0xf4 → target 0 (class_of a) ≡ 8 → Lead a
  bad : target 0 (class_of a) ≡ 1 → Lead a

lead : (a : ℕ) → Lead a
lead a = grind (arith, ascii, two, e0, three, ed, f0, four, f4, bad)

-- What an accepted text that is not empty begins with.
abbrev Split : Octets → Type 0
Split bs = (v : ℕ) × (r : Octets) × IsScalar v × (bs ≡ encode v ++ r) × (run 0 r ≡ 0)

enter : (a s : ℕ) (bs : Octets) → target 0 (class_of a) ≡ s → run 0 (a ∷ bs) ≡ 0 → run s bs ≡ 0
unfolding run
enter a s bs q e = ap (λ x. run x bs) (sym q) ∙ e

-- The value of two, three and four octets.
abbrev of_two : ℕ → ℕ → ℕ
of_two a b = (a - 0xc0) * 64 + (b - 0x80)

abbrev of_three : ℕ → ℕ → ℕ → ℕ
of_three a b c = ((a - 0xe0) * 64 + (b - 0x80)) * 64 + (c - 0x80)

abbrev of_four : ℕ → ℕ → ℕ → ℕ → ℕ
of_four a b c d = (((a - 0xf0) * 64 + (b - 0x80)) * 64 + (c - 0x80)) * 64 + (d - 0x80)

encode-of_two :
    (a b : ℕ)
    → In 0xc2 0xe0 a
    → In 0x80 0xc0 b
    → IsScalar (of_two a b) × (encode (of_two a b) ≡ a ∷ b ∷ [])
encode-of_two a b ha hb = (omega arith, rw (encode_two (of_two a b) (omega arith)) (ground arith))

encode-of_three :
    (a b c : ℕ)
    → In 0xe0 0xf0 a
    → In 0x80 0xc0 b
    → In 0x80 0xc0 c
    → In 0x800 0x10000 (of_three a b c)
    → encode (of_three a b c) ≡ a ∷ b ∷ c ∷ []
encode-of_three a b c ha hb hc hv = rw (encode_three (of_three a b c) hv) (ground arith)

encode-of_four :
    (a b c d : ℕ)
    → In 0xf0 0xf5 a
    → In 0x80 0xc0 b
    → In 0x80 0xc0 c
    → In 0x80 0xc0 d
    → 0x10000 ≤ of_four a b c d
    → encode (of_four a b c d) ≡ a ∷ b ∷ c ∷ d ∷ []
encode-of_four a b c d ha hb hc hd hv = rw (encode_four (of_four a b c d) hv) (ground arith)

-- The parts of a text put together again.
module _ {bs r : Octets} (front : Octets) (a b : ℕ) where
  join_two : bs ≡ b ∷ r → front ≡ a ∷ b ∷ [] → a ∷ bs ≡ front ++ r
  join_two q k = rw (q, k)

  join_three :
      {r' : Octets} (c : ℕ)
      → bs ≡ b ∷ r'
      → r' ≡ c ∷ r
      → front ≡ a ∷ b ∷ c ∷ []
      → a ∷ bs ≡ front ++ r
  join_three c q q' k = rw (q, q', k)

  join_four :
      {r' r'' : Octets} (c d : ℕ)
      → bs ≡ b ∷ r''
      → r'' ≡ c ∷ r'
      → r' ≡ d ∷ r
      → front ≡ a ∷ b ∷ c ∷ d ∷ []
      → a ∷ bs ≡ front ++ r
  join_four c d q q' q'' k = rw (q, q', q'', k)

Split-two : (a : ℕ) (bs : Octets) → In 0xc2 0xe0 a → run 2 bs ≡ 0 → Split (a ∷ bs)
Split-two a bs ha e =
    let (b, r, q, hb, f) = continue_from 2 0x80 0xc0 0 bs (omega arith) Takes-2 e in
    let (s, k) = encode-of_two a b ha hb in
    (of_two a b, r, s, join_two (encode (of_two a b)) a b q k, f)

Split-three :
    (a s lo hi : ℕ) (bs : Octets)
    → In 0xe0 0xf0 a
    → ((b c : ℕ)
        → In lo hi b
        → In 0x80 0xc0 c
        → In 0x80 0xc0 b × In 0x800 0x10000 (of_three a b c) × IsScalar (of_three a b c))
    → Takes s lo hi 2
    → s ≢ 0
    → run s bs ≡ 0
    → Split (a ∷ bs)
Split-three a s lo hi bs ha fit t n e =
    let (b, r, q, hb, f) = continue_from s lo hi 2 bs n t e in
    let (c, r', q', hc, f') = continue_from 2 0x80 0xc0 0 r (omega arith) Takes-2 f in
    let (hb', hv, sc) = fit b c hb hc in
    (
      of_three a b c,
      r',
      sc,
      join_three (encode (of_three a b c)) a b c q q' (encode-of_three a b c ha hb' hc hv),
      f',
    )

Split-four :
    (a s lo hi : ℕ) (bs : Octets)
    → In 0xf0 0xf5 a
    → ((b c d : ℕ)
        → In lo hi b
        → In 0x80 0xc0 c
        → In 0x80 0xc0 d
        → In 0x80 0xc0 b × In 0x10000 0x110000 (of_four a b c d))
    → Takes s lo hi 3
    → s ≢ 0
    → run s bs ≡ 0
    → Split (a ∷ bs)
Split-four a s lo hi bs ha fit t n e =
    let (b, r, q, hb, f) = continue_from s lo hi 3 bs n t e in
    let (c, r', q', hc, f') = continue_from 3 0x80 0xc0 2 r (omega arith) Takes-3 f in
    let (d, r'', q'', hd, f'') = continue_from 2 0x80 0xc0 0 r' (omega arith) Takes-2 f' in
    let (hb', hv) = fit b c d hb hc hd in
    (
      of_four a b c d,
      r'',
      inr (omega arith, hv.1),
      join_four (encode (of_four a b c d)) a b c d q q' q''
          (encode-of_four a b c d ha hb' hc hd hv.0),
      f'',
    )

-- An accepted text begins with an encoded scalar value, and what follows is accepted too.
Split-lead : (a : ℕ) (bs : Octets) → Lead a → run 0 (a ∷ bs) ≡ 0 → Split (a ∷ bs)
Split-lead a bs (ascii h) e =
    (a, bs, inl (omega arith), rw (encode_one a h), sym (run_one a bs h) ∙ e)
Split-lead a bs (two h q) e = Split-two a bs h (enter a 2 bs q e)
Split-lead a bs (e0 h q) e =
    Split-three a 4 0xa0 0xc0 bs (omega arith)
      (λ b c hb hc. (omega arith, omega arith, omega arith)) Takes-4 (omega arith)
      (enter a 4 bs q e)
Split-lead a bs (three h n q) e =
    Split-three a 3 0x80 0xc0 bs (omega arith)
      (λ b c hb hc. (omega arith, omega arith, omega arith)) Takes-3 (omega arith)
      (enter a 3 bs q e)
Split-lead a bs (ed h q) e =
    Split-three a 5 0x80 0xa0 bs (omega arith)
      (λ b c hb hc. (omega arith, omega arith, omega arith)) Takes-5 (omega arith)
      (enter a 5 bs q e)
Split-lead a bs (f0 h q) e =
    Split-four a 6 0x90 0xc0 bs (omega arith) (λ b c d hb hc hd. (omega arith, omega arith)) Takes-6
      (omega arith) (enter a 6 bs q e)
Split-lead a bs (four h q) e =
    Split-four a 7 0x80 0xc0 bs (omega arith) (λ b c d hb hc hd. (omega arith, omega arith)) Takes-7
      (omega arith) (enter a 7 bs q e)
Split-lead a bs (f4 h q) e =
    Split-four a 8 0x80 0x90 bs (omega arith) (λ b c d hb hc hd. (omega arith, omega arith)) Takes-8
      (omega arith) (enter a 8 bs q e)
Split-lead a bs (bad q) e = absurd (omega (arith, enter a 1 bs q e, stuck_at_one bs))

length-encode_pos : (v : ℕ) → 0 < length (encode v)
length-encode_pos v = ground arith

decode-All :
    (fuel : ℕ) (bs : Octets)
    → length bs ≤ fuel
    → run 0 bs ≡ 0
    → (vs : List ℕ) × All IsScalar vs × (encode_all vs ≡ bs)
decode-All fuel [] h e = ([], tt, refl)
decode-All zero (a ∷ bs) h e = absurd (omega arith)
decode-All (suc fuel) (a ∷ bs) h e =
    let (v, r, sc, q, f) = Split-lead a bs (lead a) e in
    let (vs, all, k) =
      decode-All fuel r
        (omega (arith, ap (λ x. length x) q, length-append (encode v) r, length-encode_pos v)) f in
    (v ∷ vs, (sc, all), rw (k) (sym q))

-- The verdict that a text message and a close reason need: valid, and ended on a code point.
abbrev pub accepted : Verdict → Bool
accepted w = w.valid && w.ends_on_code_point

pass : ℕ × Option ℕ → Bool
pass (s, none) = s == 0
pass (s, some i) = false

accepted-pass :
    (r : ℕ × Option ℕ) (v : Utf8Validator) (l : ℕ) → accepted (conclude v l r).0 ≡ pass r
unfolding pass conclude
accepted-pass (s, none) v l = refl
accepted-pass (s, some i) v l = refl

pass_run : (r : ℕ × Option ℕ) → ((k : ℕ) → r.1 ≡ some k → r.0 ≡ 1) → (pass r ≡ true) ↔ (r.0 ≡ 0)
unfolding pass
pass_run (s, none) h = ground arith
pass_run (s, some i) h = (λ e. cc, λ e. absurd (omega (arith, h i refl)))

accepted-run :
    (bs : Octets) → All IsByte bs → (accepted (validate fresh bs).0 ≡ true) ↔ (run 0 bs ≡ 0)
unfolding validate
accepted-run bs h =
    rw (accepted-pass, ← validate_loop-run 0 0 bs (omega arith) h)
      (pass_run (validate_loop 0 0 bs) (λ k. reject_state 0 0 k bs))

-- A fresh validator accepts a string of octets exactly if it is the UTF-8 encoding of a sequence
-- of Unicode scalar values.
pub validate-iff_encoded :
    (bs : Octets)
    → All IsByte bs
    → (accepted (validate fresh bs).0 ≡ true)
      ↔ ((vs : List ℕ) × All IsScalar vs × (encode_all vs ≡ bs))
validate-iff_encoded bs h = (
  λ a. decode-All (length bs) bs (omega arith) ((accepted-run bs h).0 a),
  λ (vs, sc, e). (accepted-run bs h).1 (rw (← e) (run-encode_all vs sc)),
)
