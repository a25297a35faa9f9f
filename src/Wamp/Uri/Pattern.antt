-- ===== src/Wamp/Uri/Pattern.antt =====
-- The regular expressions of the loose URI patterns of wamp/message.py, as they stand there, and what
-- `match` of a regular expression says.
pub mod Pieces
pub mod Agreement
use autobahn_python.Base.{ℕ, ◌≤◌, List, [], ◌∷◌, Bool, true, false, All, ◌≡◌, ◌⊎◌}
use autobahn_python.Wamp.Value.{Text}

-- What stands between the brackets of `[^..]`: `\s` and single characters.
pub data Item : Type 0 where
  whitespace : Item
  single : ℕ → Item

-- `x+` is `plus`, `x?` is `optional`; `dollar` is `$`. `match` begins at the start of the text, where
-- `^` holds.
pub data Regex : Type 0 where
  none_of : List Item → Regex
  char : ℕ → Regex
  then_match : Regex → Regex → Regex
  either_match : Regex → Regex → Regex
  star : Regex → Regex
  optional : Regex → Regex
  dollar : Regex

abbrev pub plus : Regex → Regex
plus r = then_match r (star r)

-- `[^\s\.#]`
abbrev pub loose_char : Regex
loose_char = none_of (whitespace ∷ single 0x2e ∷ single 0x23 ∷ [])

-- _URI_PAT_LOOSE_EMPTY
abbrev pub uri_pat_loose_empty : Regex
uri_pat_loose_empty =
    then_match (star (either_match (then_match (plus loose_char) (char 0x2e)) (char 0x2e)))
      (then_match (optional (plus loose_char)) dollar)

-- _URI_PAT_LOOSE_NON_EMPTY
abbrev pub uri_pat_loose_non_empty : Regex
uri_pat_loose_non_empty =
    then_match (star (then_match (plus loose_char) (char 0x2e)))
      (then_match (plus loose_char) dollar)

-- _URI_PAT_LOOSE_LAST_EMPTY
abbrev pub uri_pat_loose_last_empty : Regex
uri_pat_loose_last_empty =
    then_match (star (then_match (plus loose_char) (char 0x2e)))
      (then_match (star loose_char) dollar)

-- The choice of `check_or_raise_uri` with `strict=False`.
abbrev pub pattern_of : (allow_empty_components allow_last_empty : Bool) → Regex
pattern_of allow_empty_components true = uri_pat_loose_last_empty
pattern_of true false = uri_pat_loose_empty
pattern_of false false = uri_pat_loose_non_empty

-- The code points that `\s` matches.
abbrev pub IsSpace : ℕ → Type 0
IsSpace c =
    ((9 ≤ c) × (c ≤ 13))
    ⊎ ((28 ≤ c) × (c ≤ 32))
    ⊎ (c ≡ 133)
    ⊎ (c ≡ 160)
    ⊎ (c ≡ 5760)
    ⊎ ((8192 ≤ c) × (c ≤ 8202))
    ⊎ (c ≡ 8232)
    ⊎ (c ≡ 8233)
    ⊎ (c ≡ 8239)
    ⊎ (c ≡ 8287)
    ⊎ (c ≡ 12288)

abbrev pub Differs : ℕ → Item → Type 0
Differs c whitespace = ¬ IsSpace c
Differs c (single d) = ¬ (c ≡ d)

-- `Matches r s t`: `r` matches the front of `s`, and `t` is what follows. `$` matches at the end and
-- before a line feed at the end.
pub data Matches : Regex → Text → Text → Type 0 where
  other :
      {items : List Item} {c : ℕ} {s : Text}
      → All (Differs c) items
      → Matches (none_of items) (c ∷ s) s
  same : {c : ℕ} {s : Text} → Matches (char c) (c ∷ s) s
  in_turn :
      {r q : Regex} {s t u : Text} → Matches r s t → Matches q t u → Matches (then_match r q) s u
  first : {r q : Regex} {s t : Text} → Matches r s t → Matches (either_match r q) s t
  second : {r q : Regex} {s t : Text} → Matches q s t → Matches (either_match r q) s t
  stop : {r : Regex} {s : Text} → Matches (star r) s s
  again : {r : Regex} {s t u : Text} → Matches r s t → Matches (star r) t u → Matches (star r) s u
  left_out : {r : Regex} {s : Text} → Matches (optional r) s s
  taken : {r : Regex} {s t : Text} → Matches r s t → Matches (optional r) s t
  at_end : Matches dollar [] []
  before_line_feed : Matches dollar (0x0a ∷ []) (0x0a ∷ [])
