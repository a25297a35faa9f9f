-- ===== src/WebSocket/Utf8.antt =====
-- utf8validator.py: the pure Python validator, an automaton over octets given by one table.
pub mod Table
pub mod Chunks
pub mod Run
pub mod Encode
pub mod Scalar
use autobahn_python.Base.{
  ℕ, zero, suc, ◌+◌, ◌*◌, ◌/◌, ◌^◌, Octets, List, [], ◌∷◌, get_or, length, bit_and, bit_or, Bool,
  true, false, Option, none, some, ◌==◌, not, if◌then◌else◌,
}

-- `UTF8VALIDATOR_DFA`: the class of each octet, then a row of sixteen for each state.
unfoldable pub utf8validator_dfa : List ℕ
utf8validator_dfa =
    0 ∷ 0 ∷ 0 ∷ 0 ∷ 0 ∷ 0 ∷ 0 ∷ 0 ∷ 0 ∷ 0 ∷ 0 ∷ 0 ∷ 0 ∷ 0 ∷ 0 ∷ 0 ∷ 0 ∷ 0 ∷ 0 ∷ 0 ∷ 0 ∷ 0 ∷ 0 ∷ 0
    ∷ 0 ∷ 0 ∷ 0 ∷ 0 ∷ 0 ∷ 0 ∷ 0 ∷ 0 ∷ 0 ∷ 0 ∷ 0 ∷ 0 ∷ 0 ∷ 0 ∷ 0 ∷ 0 ∷ 0 ∷ 0 ∷ 0 ∷ 0 ∷ 0 ∷ 0 ∷ 0 ∷ 0
    ∷ 0 ∷ 0 ∷ 0 ∷ 0 ∷ 0 ∷ 0 ∷ 0 ∷ 0 ∷ 0 ∷ 0 ∷ 0 ∷ 0 ∷ 0 ∷ 0 ∷ 0 ∷ 0 ∷ 0 ∷ 0 ∷ 0 ∷ 0 ∷ 0 ∷ 0 ∷ 0 ∷ 0
    ∷ 0 ∷ 0 ∷ 0 ∷ 0 ∷ 0 ∷ 0 ∷ 0 ∷ 0 ∷ 0 ∷ 0 ∷ 0 ∷ 0 ∷ 0 ∷ 0 ∷ 0 ∷ 0 ∷ 0 ∷ 0 ∷ 0 ∷ 0 ∷ 0 ∷ 0 ∷ 0 ∷ 0
    ∷ 0 ∷ 0 ∷ 0 ∷ 0 ∷ 0 ∷ 0 ∷ 0 ∷ 0 ∷ 0 ∷ 0 ∷ 0 ∷ 0 ∷ 0 ∷ 0 ∷ 0 ∷ 0 ∷ 0 ∷ 0 ∷ 0 ∷ 0 ∷ 0 ∷ 0 ∷ 0 ∷ 0
    ∷ 0 ∷ 0 ∷ 0 ∷ 0 ∷ 0 ∷ 0 ∷ 0 ∷ 0 ∷ 1 ∷ 1 ∷ 1 ∷ 1 ∷ 1 ∷ 1 ∷ 1 ∷ 1 ∷ 1 ∷ 1 ∷ 1 ∷ 1 ∷ 1 ∷ 1 ∷ 1 ∷ 1
    ∷ 9 ∷ 9 ∷ 9 ∷ 9 ∷ 9 ∷ 9 ∷ 9 ∷ 9 ∷ 9 ∷ 9 ∷ 9 ∷ 9 ∷ 9 ∷ 9 ∷ 9 ∷ 9 ∷ 7 ∷ 7 ∷ 7 ∷ 7 ∷ 7 ∷ 7 ∷ 7 ∷ 7
    ∷ 7 ∷ 7 ∷ 7 ∷ 7 ∷ 7 ∷ 7 ∷ 7 ∷ 7 ∷ 7 ∷ 7 ∷ 7 ∷ 7 ∷ 7 ∷ 7 ∷ 7 ∷ 7 ∷ 7 ∷ 7 ∷ 7 ∷ 7 ∷ 7 ∷ 7 ∷ 7 ∷ 7
    ∷ 8 ∷ 8 ∷ 2 ∷ 2 ∷ 2 ∷ 2 ∷ 2 ∷ 2 ∷ 2 ∷ 2 ∷ 2 ∷ 2 ∷ 2 ∷ 2 ∷ 2 ∷ 2 ∷ 2 ∷ 2 ∷ 2 ∷ 2 ∷ 2 ∷ 2 ∷ 2 ∷ 2
    ∷ 2 ∷ 2 ∷ 2 ∷ 2 ∷ 2 ∷ 2 ∷ 2 ∷ 2 ∷ 10 ∷ 3 ∷ 3 ∷ 3 ∷ 3 ∷ 3 ∷ 3 ∷ 3 ∷ 3 ∷ 3 ∷ 3 ∷ 3 ∷ 3 ∷ 4 ∷ 3 ∷ 3
    ∷ 11 ∷ 6 ∷ 6 ∷ 6 ∷ 5 ∷ 8 ∷ 8 ∷ 8 ∷ 8 ∷ 8 ∷ 8 ∷ 8 ∷ 8 ∷ 8 ∷ 8 ∷ 8 ∷ 0 ∷ 1 ∷ 2 ∷ 3 ∷ 5 ∷ 8 ∷ 7 ∷ 1
    ∷ 1 ∷ 1 ∷ 4 ∷ 6 ∷ 1 ∷ 1 ∷ 1 ∷ 1 ∷ 1 ∷ 1 ∷ 1 ∷ 1 ∷ 1 ∷ 1 ∷ 1 ∷ 1 ∷ 1 ∷ 1 ∷ 1 ∷ 1 ∷ 1 ∷ 1 ∷ 1 ∷ 1
    ∷ 1 ∷ 0 ∷ 1 ∷ 1 ∷ 1 ∷ 1 ∷ 1 ∷ 0 ∷ 1 ∷ 0 ∷ 1 ∷ 1 ∷ 1 ∷ 1 ∷ 1 ∷ 1 ∷ 1 ∷ 2 ∷ 1 ∷ 1 ∷ 1 ∷ 1 ∷ 1 ∷ 2
    ∷ 1 ∷ 2 ∷ 1 ∷ 1 ∷ 1 ∷ 1 ∷ 1 ∷ 1 ∷ 1 ∷ 1 ∷ 1 ∷ 1 ∷ 1 ∷ 1 ∷ 1 ∷ 2 ∷ 1 ∷ 1 ∷ 1 ∷ 1 ∷ 1 ∷ 1 ∷ 1 ∷ 1
    ∷ 1 ∷ 2 ∷ 1 ∷ 1 ∷ 1 ∷ 1 ∷ 1 ∷ 1 ∷ 1 ∷ 2 ∷ 1 ∷ 1 ∷ 1 ∷ 1 ∷ 1 ∷ 1 ∷ 1 ∷ 1 ∷ 1 ∷ 1 ∷ 1 ∷ 1 ∷ 1 ∷ 3
    ∷ 1 ∷ 3 ∷ 1 ∷ 1 ∷ 1 ∷ 1 ∷ 1 ∷ 1 ∷ 1 ∷ 3 ∷ 1 ∷ 1 ∷ 1 ∷ 1 ∷ 1 ∷ 3 ∷ 1 ∷ 3 ∷ 1 ∷ 1 ∷ 1 ∷ 1 ∷ 1 ∷ 1
    ∷ 1 ∷ 3 ∷ 1 ∷ 1 ∷ 1 ∷ 1 ∷ 1 ∷ 1 ∷ 1 ∷ 1 ∷ 1 ∷ 1 ∷ 1 ∷ 1 ∷ 1 ∷ 1 ∷ []

abbrev pub utf8_accept : ℕ
utf8_accept = 0

abbrev pub utf8_reject : ℕ
utf8_reject = 1

-- `UTF8VALIDATOR_DFA_S[i]`; no index that the code computes from octets is out of range.
unfoldable pub dfa : ℕ → ℕ
unfolding utf8validator_dfa
dfa i = get_or utf8validator_dfa i 0

pub record Utf8Validator : Type 0 where
  pub codepoint : ℕ
  pub state : ℕ
  pub index : ℕ

-- The constructor too ends in a call of `reset`.
unfoldable pub reset : Utf8Validator → Utf8Validator
reset v = record { codepoint = 0; state = utf8_accept; index = 0 }

abbrev pub fresh : Utf8Validator
fresh = record { codepoint = 0; state = utf8_accept; index = 0 }

-- One octet, with the code point that is being put together.
unfoldable pub decode : Utf8Validator → ℕ → ℕ × Utf8Validator
decode v b =
    let tt' = dfa b in
    let codepoint' =
      if not (v.state == utf8_accept)
      then bit_or (bit_and b 0x3f) (v.codepoint * 2 ^ 6)
      else bit_and (0xff / 2 ^ tt') b in
    let state' = dfa (256 + v.state * 16 + tt') in
    (state', record v { codepoint = codepoint'; state = state' })

-- The body of the loop of `validate`.
unfoldable pub next_state : ℕ → ℕ → ℕ
next_state state b = dfa (256 + state * 2 ^ 4 + dfa b)

-- The loop: the state it ends in, and the index at which it met an invalid octet.
unfoldable pub validate_loop : ℕ → ℕ → Octets → ℕ × Option ℕ
validate_loop state i [] = (state, none)
validate_loop state i (b ∷ bs) =
    let rest = validate_loop (next_state state b) (i + 1) bs in
    if next_state state b == utf8_reject then (utf8_reject, some i) else rest

-- `(valid?, endsOnCodePoint?, currentIndex, totalIndex)`
pub record Verdict : Type 0 where
  pub valid : Bool
  pub ends_on_code_point : Bool
  pub current_index : ℕ
  pub total_index : ℕ

unfoldable pub conclude : Utf8Validator → ℕ → ℕ × Option ℕ → Verdict × Utf8Validator
conclude v l (state, some i) = (
  record {
    valid = false;
    ends_on_code_point = false;
    current_index = i;
    total_index = v.index + i;
  },
  record v { state = state; index = v.index + i },
)
conclude v l (state, none) = (
  record {
    valid = true;
    ends_on_code_point = state == utf8_accept;
    current_index = l;
    total_index = v.index + l;
  },
  record v { state = state; index = v.index + l },
)

unfoldable pub validate : Utf8Validator → Octets → Verdict × Utf8Validator
unfolding validate_loop conclude
validate v ba = conclude v (length ba) (validate_loop v.state 0 ba)
