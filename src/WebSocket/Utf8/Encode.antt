-- ===== src/WebSocket/Utf8/Encode.antt =====
-- UTF-8 by its definition (RFC 3629), and the run of the automaton over what it encodes.
use autobahn_python.Base.{
  ℕ, ◌+◌, ◌/◌, ◌%◌, ◌≤◌, ◌<◌, Octets, All, List, [], ◌∷◌, ◌++◌, ◌≡◌, ◌≢◌, refl, ◌∙◌, ◌⊎◌, arith,
  ltb, if◌then◌else◌,
}
use autobahn_python.WebSocket.Utf8.Run.{
  run, In, three_at_0, four_at_0, tail_at_3, tail_at_4, tail_at_5, tail_at_6, tail_at_7, tail_at_8,
  run_one, run_two, run_three, run_four,
}

-- The scalar values are the code points but the surrogates.
abbrev pub IsScalar : ℕ → Type 0
IsScalar v = (v < 0xd800) ⊎ ((0xe000 ≤ v) × (v < 0x110000))

abbrev pub encode : ℕ → Octets
encode v =
    if ltb v 0x80
    then v ∷ []
    else if ltb v 0x800
    then (0xc0 + v / 64) ∷ (0x80 + v % 64) ∷ []
    else if ltb v 0x10000
    then (0xe0 + v / 4096) ∷ (0x80 + v / 64 % 64) ∷ (0x80 + v % 64) ∷ []
    else (0xf0 + v / 262144) ∷ (0x80 + v / 4096 % 64) ∷ (0x80 + v / 64 % 64) ∷ (0x80 + v % 64) ∷ []

abbrev pub encode_all : List ℕ → Octets
encode_all [] = []
encode_all (v ∷ vs) = encode v ++ encode_all vs

pub data Size (v : ℕ) : Type 0 where
  one : v < 0x80 → Size v
  two : In 0x80 0x800 v → Size v
  three_e0 : In 0x800 0x1000 v → Size v
  three : In 0x1000 0x10000 v → v / 4096 ≢ 13 → Size v
  three_ed : In 0xd000 0xd800 v → Size v
  four_f0 : In 0x10000 0x40000 v → Size v
  four : In 0x40000 0x100000 v → Size v
  four_f4 : In 0x100000 0x110000 v → Size v

pub size : (v : ℕ) → IsScalar v → Size v
size v h = grind (arith, one, two, three_e0, three, three_ed, four_f0, four, four_f4)

pub encode_one : (v : ℕ) → v < 0x80 → encode v ≡ v ∷ []
encode_one v h = ground arith

pub encode_two : (v : ℕ) → In 0x80 0x800 v → encode v ≡ (0xc0 + v / 64) ∷ (0x80 + v % 64) ∷ []
encode_two v h = ground arith

pub encode_three :
    (v : ℕ)
    → In 0x800 0x10000 v
    → encode v ≡ (0xe0 + v / 4096) ∷ (0x80 + v / 64 % 64) ∷ (0x80 + v % 64) ∷ []
encode_three v h = ground arith

pub encode_four :
    (v : ℕ)
    → 0x10000 ≤ v
    → encode v
      ≡ (0xf0 + v / 262144) ∷ (0x80 + v / 4096 % 64) ∷ (0x80 + v / 64 % 64) ∷ (0x80 + v % 64) ∷ []
encode_four v h = ground arith

-- One encoded scalar value takes the automaton from the accepting state back to it.
pub run-encode : (v : ℕ) (bs : Octets) → Size v → run 0 (encode v ++ bs) ≡ run 0 bs
run-encode v bs (one h) = rw (encode_one v h) (run_one v bs h)
run-encode v bs (two h) = rw (encode_two v h) (run_two _ _ bs (omega arith) (omega arith))
run-encode v bs (three_e0 h) =
    let e : 0xe0 + v / 4096 ≡ 0xe0 = omega arith in
    rw (encode_three v (omega arith), e)
      (run_three _ _ bs _ 4 refl (tail_at_4 (0x80 + v / 64 % 64) (omega arith)) (omega arith))
run-encode v bs (three h n) = rw (encode_three v (omega arith)) (
    run_three _ _ bs _ 3 (three_at_0 (0xe0 + v / 4096) (omega arith) (omega arith))
      (tail_at_3 (0x80 + v / 64 % 64) (omega arith)) (omega arith))
run-encode v bs (three_ed h) =
    let e : 0xe0 + v / 4096 ≡ 0xed = omega arith in
    rw (encode_three v (omega arith), e)
      (run_three _ _ bs _ 5 refl (tail_at_5 (0x80 + v / 64 % 64) (omega arith)) (omega arith))
run-encode v bs (four_f0 h) =
    let e : 0xf0 + v / 262144 ≡ 0xf0 = omega arith in
    rw (encode_four v (omega arith), e)
      (run_four _ _ bs _ _ 6 refl (tail_at_6 (0x80 + v / 4096 % 64) (omega arith)) (omega arith)
        (omega arith))
run-encode v bs (four h) = rw (encode_four v (omega arith)) (
    run_four _ _ bs _ _ 7 (four_at_0 (0xf0 + v / 262144) (omega arith))
      (tail_at_7 (0x80 + v / 4096 % 64) (omega arith)) (omega arith) (omega arith))
run-encode v bs (four_f4 h) =
    let e : 0xf0 + v / 262144 ≡ 0xf4 = omega arith in
    rw (encode_four v (omega arith), e)
      (run_four _ _ bs _ _ 8 refl (tail_at_8 (0x80 + v / 4096 % 64) (omega arith)) (omega arith)
        (omega arith))

pub run-encode_all : (vs : List ℕ) → All IsScalar vs → run 0 (encode_all vs) ≡ 0
run-encode_all [] h = unfold run in refl
run-encode_all (v ∷ vs) h = run-encode v (encode_all vs) (size v h.0) ∙ run-encode_all vs h.1
