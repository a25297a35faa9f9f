-- ===== src/Wamp/Uri.antt =====
-- The URIs of WAMP: `check_or_raise_uri` and the loose patterns of wamp/message.py.
pub mod Components
pub mod Pattern
use autobahn_python.Base.{
  ℕ, List, [], ◌∷◌, Bool, true, false, ◌&&◌, ◌||◌, not, leb, ◌==◌, if◌then◌else◌, Error, Result, ok,
  err,
}
use autobahn_python.Wamp.Value.{
  Text, Value, null, bool, int, float, str, bytes, list, dict, require, ◌>>=◌, ◌>>◌,
}

-- What `\s` matches.
unfoldable pub is_space : ℕ → Bool
is_space c =
    leb 0x09 c && leb c 0x0d
    || leb 0x1c c && leb c 0x20
    || c == 0x85
    || c == 0xa0
    || c == 0x1680
    || leb 0x2000 c && leb c 0x200a
    || c == 0x2028
    || c == 0x2029
    || c == 0x202f
    || c == 0x205f
    || c == 0x3000

abbrev pub dot : ℕ
dot = 0x2e

abbrev pub line_feed : ℕ
line_feed = 0x0a

-- `[^\s\.#]`
unfoldable pub is_loose : ℕ → Bool
is_loose c = not (is_space c) && not (c == dot) && not (c == 0x23)

-- What stands between the dots.
abbrev pub extend : ℕ → List Text → List Text
extend c [] = (c ∷ []) ∷ []
extend c (s ∷ ss) = (c ∷ s) ∷ ss

unfoldable pub components : Text → List Text
components [] = [] ∷ []
components (c ∷ s) = let rest = components s in if c == dot then [] ∷ rest else extend c rest

unfoldable pub all_loose : Text → Bool
all_loose [] = true
all_loose (c ∷ s) = is_loose c && all_loose s

abbrev pub is_empty : Text → Bool
is_empty [] = true
is_empty (_ ∷ _) = false

-- _URI_PAT_LOOSE_EMPTY, _URI_PAT_LOOSE_LAST_EMPTY and _URI_PAT_LOOSE_NON_EMPTY, on the components.
unfoldable pub loose_empty : List Text → Bool
loose_empty [] = true
loose_empty (s ∷ ss) = all_loose s && loose_empty ss

unfoldable pub loose_last_empty : List Text → Bool
loose_last_empty [] = true
loose_last_empty (s ∷ []) = all_loose s
loose_last_empty (s ∷ ss) = all_loose s && not (is_empty s) && loose_last_empty ss

unfoldable pub loose_non_empty : List Text → Bool
loose_non_empty [] = true
loose_non_empty (s ∷ ss) = all_loose s && not (is_empty s) && loose_non_empty ss

unfoldable pub choose_pattern : (allow_empty_components allow_last_empty : Bool) → List Text → Bool
choose_pattern allow_empty_components true = loose_last_empty
choose_pattern true false = loose_empty
choose_pattern false false = loose_non_empty

-- A text without the line feed at its end, which `$` lets stand there.
unfoldable pub without_line_feed : Text → Text
without_line_feed [] = []
without_line_feed (c ∷ []) = if c == line_feed then [] else c ∷ []
without_line_feed (c ∷ s) = c ∷ without_line_feed s

-- `pat.match`
unfoldable pub is_uri : (allow_empty_components allow_last_empty : Bool) → Text → Bool
is_uri allow_empty_components allow_last_empty s =
    let pat = choose_pattern allow_empty_components allow_last_empty in
    pat (components s) || pat (components (without_line_feed s))

-- `check_or_raise_uri` with `strict=False` and `allow_none=False`.
unfoldable pub check_or_raise_uri :
    (allow_empty_components allow_last_empty : Bool) → Value → Result Text
check_or_raise_uri allow_empty_components allow_last_empty (str s) = do
  require (is_uri allow_empty_components allow_last_empty s) Error.invalid_uri
  ok s
check_or_raise_uri allow_empty_components allow_last_empty _ = err Error.invalid_uri
