-- ===== src/WebSocket/Utf8/Table.antt =====
-- The automaton's table as arithmetic: the class of an octet as a ladder of ranges.
use autobahn_python.Base.{
  ℕ, ◌+◌, ◌*◌, ◌<◌, ◌≡◌, refl, true, all_below, all_below_sound, ◌==◌, ==_iff, ltb, if◌then◌else◌,
  arith,
}
use autobahn_python.WebSocket.Utf8.{dfa, next_state}

abbrev pub class_of : ℕ → ℕ
class_of b =
    if ltb b 0x80
    then 0
    else if ltb b 0x90
    then 1
    else if ltb b 0xa0
    then 9
    else if ltb b 0xc0
    then 7
    else if ltb b 0xc2
    then 8
    else if ltb b 0xe0
    then 2
    else if ltb b 0xe1
    then 10
    else if ltb b 0xed
    then 3
    else if ltb b 0xee
    then 4
    else if ltb b 0xf0
    then 3
    else if ltb b 0xf1
    then 11
    else if ltb b 0xf4
    then 6
    else if ltb b 0xf5
    then 5
    else 8

class_table : all_below 256 (λ b. dfa b == class_of b) ≡ true
unfolding all_below dfa
class_table = refl

pub dfa_class : (b : ℕ) → b < 256 → dfa b ≡ class_of b
dfa_class b h = (==_iff _ _).0 (all_below_sound 256 (λ x. dfa x == class_of x) b class_table h)

-- The row of a state, as a ladder over the classes.
abbrev pub target : ℕ → ℕ → ℕ
target s c =
    if s == 0
    then (if c == 0
        then 0
        else if c == 2
        then 2
        else if c == 3
        then 3
        else if c == 4
        then 5
        else if c == 5
        then 8
        else if c == 6
        then 7
        else if c == 10
        then 4
        else if c == 11
        then 6
        else 1)
    else if s == 2
    then (if c == 1 then 0 else if c == 7 then 0 else if c == 9 then 0 else 1)
    else if s == 3
    then (if c == 1 then 2 else if c == 7 then 2 else if c == 9 then 2 else 1)
    else if s == 4
    then (if c == 7 then 2 else 1)
    else if s == 5
    then (if c == 1 then 2 else if c == 9 then 2 else 1)
    else if s == 6
    then (if c == 7 then 3 else if c == 9 then 3 else 1)
    else if s == 7
    then (if c == 1 then 3 else if c == 7 then 3 else if c == 9 then 3 else 1)
    else if s == 8
    then (if c == 1 then 3 else 1)
    else 1

target_table : all_below 9 (λ s. all_below 12 (λ c. dfa (256 + s * 16 + c) == target s c)) ≡ true
unfolding all_below dfa
target_table = refl

dfa-target : (s c : ℕ) → s < 9 → c < 12 → dfa (256 + s * 16 + c) ≡ target s c
dfa-target s c hs hc = (==_iff _ _).0 (
    all_below_sound 12 (λ x. dfa (256 + s * 16 + x) == target s x) c
      (all_below_sound 9 (λ y. all_below 12 (λ x. dfa (256 + y * 16 + x) == target y x)) s
        target_table hs)
      hc)

class_small : (b : ℕ) → class_of b < 12
class_small b = ground arith

pub next_state-target : (s b : ℕ) → s < 9 → b < 256 → next_state s b ≡ target s (class_of b)
unfolding next_state
next_state-target s b hs hb = rw (dfa_class b hb) (dfa-target s (class_of b) hs (class_small b))
