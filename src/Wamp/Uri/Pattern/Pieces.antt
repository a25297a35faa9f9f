-- ===== src/Wamp/Uri/Pattern/Pieces.antt =====
-- The pieces of the loose patterns of URIs, and the texts that they match.
use autobahn_python.Base.{ℕ, [], ◌∷◌, ◌++◌, true, All, ◌≡◌, ◌≢◌, refl, ap, arith}
use autobahn_python.Wamp.Value.{Text}
use autobahn_python.Wamp.Uri.{is_loose, is_space, all_loose}
use autobahn_python.Wamp.Uri.Components.{and_true}
use autobahn_python.Wamp.Uri.Pattern.{
  whitespace, single, char, then_match, either_match, star, optional, plus, loose_char, Differs,
  Matches, other, same, in_turn, first, second, stop, again, left_out, taken,
}

is_loose-Differs :
    (c : ℕ) → is_loose c ≡ true → All (Differs c) (whitespace ∷ single 0x2e ∷ single 0x23 ∷ [])
unfolding is_loose is_space
is_loose-Differs c h = (ground arith, (ground arith, (ground arith, tt)))

Differs-is_loose :
    (c : ℕ) → All (Differs c) (whitespace ∷ single 0x2e ∷ single 0x23 ∷ []) → is_loose c ≡ true
unfolding is_loose is_space
Differs-is_loose c (a, (b, (d, _))) = ground arith

-- A text without whitespace, dots and number signs in front of another.
pub star_front :
    (s t : Text) → Matches (star loose_char) s t → (w : Text) × (all_loose w ≡ true) × (s ≡ w ++ t)
unfolding all_loose
star_front s t stop = ([], refl, refl)
star_front s t (again (other {c} d) m) =
    let (w, a, e) = star_front _ t m in
    (c ∷ w, rw (Differs-is_loose c d, a) refl, ap (λ x. c ∷ x) e)

cons_not_nil : {c : ℕ} {w : Text} → c ∷ w ≢ []
cons_not_nil h = absurd (cc)

pub plus_front :
    (s t : Text)
    → Matches (plus loose_char) s t
    → (w : Text) × (all_loose w ≡ true) × (w ≢ []) × (s ≡ w ++ t)
unfolding all_loose
plus_front s t (in_turn (other {c} d) m) =
    let (w, a, e) = star_front _ t m in
    (c ∷ w, rw (Differs-is_loose c d, a) refl, (λ n. cons_not_nil n), ap (λ x. c ∷ x) e)

pub star_of : (w t : Text) → all_loose w ≡ true → Matches (star loose_char) (w ++ t) t
unfolding all_loose
star_of [] t h = stop
star_of (c ∷ w) t h =
    let a = and_true _ _ h in again (other (is_loose-Differs c a.0)) (star_of w t a.1)

pub plus_of : (w t : Text) → all_loose w ≡ true → w ≢ [] → Matches (plus loose_char) (w ++ t) t
unfolding all_loose
plus_of [] t h n = absurd (n refl)
plus_of (c ∷ w) t h n =
    let a = and_true _ _ h in in_turn (other (is_loose-Differs c a.0)) (star_of w t a.1)

pub dotted_front :
    (s t : Text)
    → Matches (then_match (plus loose_char) (char 0x2e)) s t
    → (w : Text) × (all_loose w ≡ true) × (w ≢ []) × (s ≡ w ++ 0x2e ∷ t)
dotted_front s t (in_turn m same) = plus_front s _ m

pub dotted_of :
    (w t : Text)
    → all_loose w ≡ true
    → w ≢ []
    → Matches (then_match (plus loose_char) (char 0x2e)) (w ++ 0x2e ∷ t) t
dotted_of w t a n = in_turn (plus_of w (0x2e ∷ t) a n) same

pub optional_front :
    (s t : Text)
    → Matches (optional (plus loose_char)) s t
    → (w : Text) × (all_loose w ≡ true) × (s ≡ w ++ t)
unfolding all_loose
optional_front s t left_out = ([], refl, refl)
optional_front s t (taken m) = let (w, a, n, r) = plus_front s t m in (w, a, r)

pub optional_of :
    (w t : Text) → all_loose w ≡ true → Matches (optional (plus loose_char)) (w ++ t) t
optional_of [] t h = left_out
optional_of (c ∷ w) t h = taken (plus_of (c ∷ w) t h cons_not_nil)

pub either_front :
    (s t : Text)
    → Matches (either_match (then_match (plus loose_char) (char 0x2e)) (char 0x2e)) s t
    → (w : Text) × (all_loose w ≡ true) × (s ≡ w ++ 0x2e ∷ t)
unfolding all_loose
either_front s t (first m) = let (w, a, n, r) = dotted_front s t m in (w, a, r)
either_front s t (second same) = ([], refl, refl)

pub either_of :
    (w t : Text)
    → all_loose w ≡ true
    → Matches
        (either_match (then_match (plus loose_char) (char 0x2e)) (char 0x2e))
        (w ++ 0x2e ∷ t)
        t
either_of [] t h = second same
either_of (c ∷ w) t h = first (dotted_of (c ∷ w) t h cons_not_nil)
