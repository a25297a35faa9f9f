-- ===== src/Wamp/Value/Lookup.antt =====
-- What is looked up in a dictionary that was filled entry after entry.
use autobahn_python.Base.{
  List, [], ◌∷◌, Bool, true, false, not, Option, none, some, if◌then◌else◌, Result, ok, ◌≡◌, refl,
  ap, ◌∙◌, sym, ==_iff, Bool-cases, ◌⊎◌, inl, inr,
}
use mathlib.Core.Bool.{true≢false}
use autobahn_python.Wamp.Value.{Text, Value, same_text, is_key, get, Entry, dict_with, read, map}

pub same_text_refl : (s : Text) → same_text s s ≡ true
unfolding same_text
same_text_refl [] = refl
same_text_refl (a ∷ s) = rw ((==_iff a a).1 refl, same_text_refl s)

-- The entry of a key.
unfoldable pub entry : Text → List Entry → Option Value
entry k [] = none
entry k ((k', o) ∷ rest) = if same_text k k' then o else entry k rest

unfoldable pub has_key : Text → List Entry → Bool
has_key k [] = false
has_key k ((k', o) ∷ rest) = if same_text k k' then true else has_key k rest

-- A key that has no second entry.
unfoldable pub is_single : Text → List Entry → Bool
is_single k [] = true
is_single k ((k', o) ∷ rest) = if same_text k k' then not (has_key k rest) else is_single k rest

get-missing : (k : Text) (es : List Entry) → has_key k es ≡ false → get k (dict_with es) ≡ none
unfolding get dict_with has_key is_key
get-missing k [] h = refl
get-missing k ((k', o) ∷ rest) h = elim (Bool-cases (same_text k k')) [
  | inl e ↦ absurd (true≢false (sym (ap (λ (b : Bool). if b then true else has_key k rest) e) ∙ h))
  | inr e ↦
      skipped o
        (get-missing k rest (sym (ap (λ (b : Bool). if b then true else has_key k rest) e) ∙ h)) e
]
  where
    skipped :
        (o : Option Value)
        → get k (dict_with rest) ≡ none
        → same_text k k' ≡ false
        → get k (dict_with ((k', o) ∷ rest)) ≡ none
    skipped none h e = h
    skipped (some v) h e = rw e h

single-cases :
    (b m t : Bool)
    → (if b then not m else t) ≡ true
    → ((b ≡ true) × (m ≡ false)) ⊎ ((b ≡ false) × (t ≡ true))
single-cases true false t h = inl (refl, refl)
single-cases true true t h = absurd (cc)
single-cases false m t h = inr (refl, h)

pub get-dict_with :
    (k : Text) (es : List Entry) → is_single k es ≡ true → get k (dict_with es) ≡ entry k es
unfolding get dict_with is_single is_key entry
get-dict_with k [] h = refl
get-dict_with k ((k', none) ∷ rest) h =
    elim (single-cases (same_text k k') (has_key k rest) (is_single k rest) h) [
      | inl (e, m) ↦ rw e (get-missing k rest m)
      | inr (e, t) ↦ rw e (get-dict_with k rest t)
    ]
get-dict_with k ((k', some v) ∷ rest) h =
    elim (single-cases (same_text k k') (has_key k rest) (is_single k rest) h) [
      | inl (e, m) ↦ rw e
      | inr (e, t) ↦ rw e (get-dict_with k rest t)
    ]

-- An optional entry whose value passes the check.
pub read-map :
    {A : Type 0} (check : Value → Result A) (f : A → Value)
    → ((a : A) → check (f a) ≡ ok a)
    → (o : Option A) → read check (map f o) ≡ ok o
unfolding read
read-map check f h none = refl
read-map check f h (some a) = rw (h a)

abbrev pub Whenever : {A : Type 0} → (A → Type 0) → Option A → Type 0
Whenever P none = Unit {0}
Whenever P (some a) = P a

pub read-map_when :
    {A : Type 0} {P : A → Type 0} (check : Value → Result A) (f : A → Value)
    → ((a : A) → P a → check (f a) ≡ ok a)
    → (o : Option A) → Whenever P o
    → read check (map f o) ≡ ok o
unfolding read
read-map_when check f h none p = refl
read-map_when check f h (some a) p = rw (h a p)
