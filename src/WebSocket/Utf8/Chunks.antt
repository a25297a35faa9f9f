-- ===== src/WebSocket/Utf8/Chunks.antt =====
-- The validator of utf8validator.py on the chunks in which a text arrives.
use autobahn_python.Base.{
  ℕ, ◌+◌, Octets, [], ◌∷◌, ◌++◌, length, length-append, ◌≡◌, refl, arith, Bool, Option, none, some,
  if◌then◌else◌,
}
use autobahn_python.WebSocket.Utf8.{
  Utf8Validator, Verdict, next_state, validate_loop, validate, conclude,
}

-- What the loop does behind a first part, from what it did there.
resume : Octets → ℕ → ℕ × Option ℕ → ℕ × Option ℕ
resume ys i (s, none) = validate_loop s i ys
resume ys i (s, some k) = (s, some k)

validate_loop-append :
    (s i j : ℕ) (xs ys : Octets)
    → i + length xs ≡ j
    → validate_loop s i (xs ++ ys) ≡ resume ys j (validate_loop s i xs)
unfolding validate_loop resume
validate_loop-append s i j [] ys e = let e' : i ≡ j = omega arith in rw e'
validate_loop-append s i j (x ∷ xs) ys e =
    ground (arith, validate_loop-append (next_state s x) (i + 1) j xs ys)

shift_index : ℕ → ℕ × Option ℕ → ℕ × Option ℕ
shift_index d (s, none) = (s, none)
shift_index d (s, some k) = (s, some (d + k))

validate_loop-shift :
    (s i j d : ℕ) (xs : Octets)
    → d + i ≡ j
    → validate_loop s j xs ≡ shift_index d (validate_loop s i xs)
unfolding validate_loop shift_index
validate_loop-shift s i j d [] e = refl
validate_loop-shift s i j d (x ∷ xs) e =
    ground (arith, validate_loop-shift (next_state s x) (i + 1) (j + 1) d xs)

-- What a client sees of a validation: both flags, the index in the whole text, and the object.
abbrev pub summary : Verdict × Utf8Validator → Bool × Bool × ℕ × Utf8Validator
summary (w, v) = (w.valid, w.ends_on_code_point, w.total_index, v)

abbrev pub second_chunk : Octets → Verdict × Utf8Validator → Verdict × Utf8Validator
second_chunk ys (w, v) = if w.valid then validate v ys else (w, v)

conclude-shift :
    (v v' : Utf8Validator) (l d n : ℕ) (r : ℕ × Option ℕ)
    → v'.index ≡ v.index + d
    → v'.codepoint ≡ v.codepoint
    → n ≡ d + l
    → summary (conclude v n (shift_index d r)) ≡ summary (conclude v' l r)
unfolding conclude shift_index
conclude-shift v v' l d n (s, none) e c q = ground arith
conclude-shift v v' l d n (s, some k) e c q = ground arith

append_cases :
    (v : Utf8Validator) (xs ys : Octets) (r : ℕ × Option ℕ)
    → summary (conclude v (length xs + length ys) (resume ys (length xs) r))
      ≡ summary (second_chunk ys (conclude v (length xs) r))
unfolding conclude resume validate
append_cases v xs ys (s, some k) = refl
append_cases v xs ys (s, none) =
    rw (validate_loop-shift s 0 (length xs) (length xs) ys (omega arith)) (
      conclude-shift v (record v { state = s; index = v.index + length xs }) (length ys) (length xs)
        (length xs + length ys) (validate_loop s 0 ys) refl refl refl)

-- To validate two chunks one after the other, the second only if the first was valid, gives the
-- same flags, the same index in the whole text and the same object as to validate them at once.
pub validate-append :
    (v : Utf8Validator) (xs ys : Octets)
    → summary (validate v (xs ++ ys)) ≡ summary (second_chunk ys (validate v xs))
unfolding validate
validate-append v xs ys =
    rw (length-append xs ys, validate_loop-append v.state 0 (length xs) xs ys (omega arith))
      (append_cases v xs ys (validate_loop v.state 0 xs))
